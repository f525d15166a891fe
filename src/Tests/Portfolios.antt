-- ===== src/Tests/Portfolios.antt =====
-- The rankings and the budget run on the sample cases.
use razorpay_ai_revenue_reco.Base.{ℕ, ◌≡◌, ◌≤◌, ◌*◌, refl, map, Perm, arith}
use razorpay_ai_revenue_reco.Base.Sort.{Ordered}
use razorpay_ai_revenue_reco.Base.Int.{pos}
use razorpay_ai_revenue_reco.Portfolio.Priority.{rank_items, score_item}
use razorpay_ai_revenue_reco.Portfolio.Scores.{
  key, NotBelow, CountsFrom, rank_items_lem, score_item_bounds,
}
use razorpay_ai_revenue_reco.Budget.Allocation.{allocate}
use razorpay_ai_revenue_reco.Budget.Limits.{AreSane, IsWithin, allocate-IsWithin}
use razorpay_ai_revenue_reco.Budget.Ranks.{
  consumed, allocation_key, item_key, RanksFrom, allocate_accounts,
}
use razorpay_ai_revenue_reco.Tests.Samples.{noon, candidates, portfolio_candidate, items, limits}
use razorpay_ai_revenue_reco.Base.{some, List, [], ◌∷◌}
use razorpay_ai_revenue_reco.Base.Lists.{All}
use razorpay_ai_revenue_reco.Domain.Actions.{ActionType, send_reminder, retry_now, wait}
use razorpay_ai_revenue_reco.Domain.States.{action_pending}
use razorpay_ai_revenue_reco.Domain.Entities.{Float64}
use razorpay_ai_revenue_reco.Optimizer.Candidate.{Candidate}
use razorpay_ai_revenue_reco.Optimizer.Ranking.{rank_actions, default_cost_model}
use razorpay_ai_revenue_reco.Optimizer.Keys.{has_key}
use razorpay_ai_revenue_reco.Base.Tests.{if◌then◌else◌}
use razorpay_ai_revenue_reco.Domain.Actions.{action_eq, occurrences}
use razorpay_ai_revenue_reco.Base.{◌||◌}
use razorpay_ai_revenue_reco.Optimizer.Best.{ScoresAtLeast, action_of, rank_actions-selects}
use razorpay_ai_revenue_reco.Tests.Samples.{floats, half, context_at}

limits-AreSane : AreSane limits
limits-AreSane = ground arith

allocate-IsWithin_example :
    IsWithin limits (allocate items limits "budget-greedy-v1" noon "m-1" "run-1").totals
allocate-IsWithin_example =
    allocate-IsWithin items limits "budget-greedy-v1" noon "m-1" "run-1" limits-AreSane

allocate_accounts_example :
    let r = allocate items limits "budget-greedy-v1" noon "m-1" "run-1" in
    Perm (map allocation_key r.allocations) (map item_key items)
    × RanksFrom 1 r.allocations
    × (consumed (λ u. u.spend_minor) (pos 0) r.allocations ≡ r.totals.spend_minor)
    × (consumed (λ u. u.contacts) (pos 0) r.allocations ≡ r.totals.contacts)
    × (consumed (λ u. u.retries) (pos 0) r.allocations ≡ r.totals.retries)
    × (consumed (λ u. u.discount_minor) (pos 0) r.allocations ≡ r.totals.discount_minor)
    × (consumed (λ u. u.human_reviews) (pos 0) r.allocations ≡ r.totals.human_reviews)
allocate_accounts_example = allocate_accounts items limits "budget-greedy-v1" noon "m-1" "run-1"

rank_items_lem_example :
    let ranked = rank_items candidates noon "run-1" in
    Perm (map key ranked) (map (λ c. (c.case_id, c.decision_id)) candidates)
    × CountsFrom 1 ranked
    × Ordered NotBelow ranked
rank_items_lem_example = rank_items_lem candidates noon "run-1"

score_item_bounds_example :
    (s : ℕ) × ((score_item noon "run-1" (portfolio_candidate "case-1" 1000)).priority_score_minor
      ≡ pos s)
    × (s * 2 ≤ 3 * 1000)
score_item_bounds_example =
    score_item_bounds noon "run-1" (portfolio_candidate "case-1" 1000) 1000 refl (omega arith)

abbrev predictions : List (ActionType × Float64)
predictions = (send_reminder, half) ∷ (retry_now, half) ∷ []

rank_actions-selects_example :
    let r =
      rank_actions floats (context_at action_pending 3) predictions half default_cost_model noon in
    ((c : Candidate) × (r.selected ≡ some c) × All (ScoresAtLeast c) r.candidates)
    × Ordered ScoresAtLeast r.candidates
    × ((a : ActionType)
        → occurrences a (map action_of r.candidates)
          ≡ (if action_eq a wait || has_key a predictions then 1 else 0))
rank_actions-selects_example =
    rank_actions-selects floats (context_at action_pending 3) predictions half default_cost_model
      noon
