-- ===== src/Budget/Allocation.antt =====
-- `resources` and `Allocate` of backend/internal/budget/budget.go.
use razorpay_ai_revenue_reco.Base.{
  ℕ, suc, String, Bool, true, false, not, Option, none, some, List, [], ◌∷◌, str_eq,
}
use razorpay_ai_revenue_reco.Base.Tests.{ltb, ◌==◌, ltb_text, if◌then◌else◌}
use razorpay_ai_revenue_reco.Base.Int.{ℤ, pos, ltb_ℤ, eqb_ℤ, ◌+₆₄◌, ◌*₆₄◌}
use razorpay_ai_revenue_reco.Base.Sort.{sort_by}
use razorpay_ai_revenue_reco.Base.Clock.{Time}
use razorpay_ai_revenue_reco.Domain.Actions.{
  ActionType, retry_now, retry_later, send_reminder, send_payment_link, send_checkout_recovery_link,
  retention_action, escalate_to_human,
}
use razorpay_ai_revenue_reco.Portfolio.Priority.{Item}

pub record Limits : Type 0 where
  pub spend_minor : ℤ
  pub contacts : ℤ
  pub retries : ℤ
  pub discount_minor : ℤ
  pub human_reviews : ℤ

abbrev pub nothing : Limits
nothing = record {
  spend_minor = pos 0;
  contacts = pos 0;
  retries = pos 0;
  discount_minor = pos 0;
  human_reviews = pos 0;
}

pub data ExclusionReason : Type 0 where
  spend_budget_exhausted contact_capacity_exhausted retry_capacity_exhausted : ExclusionReason
  discount_budget_exhausted human_review_capacity_exhausted : ExclusionReason

-- `ExclusionReason` is the empty string of the source where it is `none`.
pub record Allocation : Type 0 where
  pub case_id : String
  pub decision_id : String
  pub action : ActionType
  pub expected_incremental_value_minor : ℤ
  pub expected_nerv_minor : ℤ
  pub expected_cost_minor : ℤ
  pub resource_consumption : Limits
  pub rank : ℕ
  pub included : Bool
  pub exclusion_reason : Option ExclusionReason
  pub created_at : Time

pub record Run : Type 0 where
  pub merchant_id : String
  pub algorithm_version : String
  pub priority_run_id : String
  pub budget : Limits
  pub totals : Limits
  pub created_at : Time
  pub allocations : List Allocation

unfoldable pub resources : ActionType → Limits
resources retry_now = record nothing { spend_minor = pos 35; retries = pos 1 }
resources retry_later = record nothing { spend_minor = pos 35; retries = pos 1 }
resources send_reminder = record nothing { spend_minor = pos 25; contacts = pos 1 }
resources send_payment_link = record nothing { spend_minor = pos 70; contacts = pos 1 }
resources send_checkout_recovery_link = record nothing { spend_minor = pos 70; contacts = pos 1 }
resources retention_action = record nothing {
  spend_minor = pos 100;
  discount_minor = pos 3000;
  contacts = pos 1;
}
resources escalate_to_human = record nothing { human_reviews = pos 1 }
resources _ = nothing

-- `if d < 1 { d = 1 }`
at_least_one : ℤ → ℤ
at_least_one d = if ltb_ℤ d (pos 1) then pos 1 else d

-- The comparison of the greedy order: value per unit of cost, multiplied out.
unfoldable pub greedy_less : Item → Item → Bool
unfolding resources at_least_one
greedy_less i j =
    let left = i.expected_nerv_minor *₆₄ at_least_one (resources j.action).spend_minor in
    let right = j.expected_nerv_minor *₆₄ at_least_one (resources i.action).spend_minor in
    if not (eqb_ℤ left right) then ltb_ℤ right left else ltb i.rank j.rank

unfoldable pub arrival_less : Item → Item → Bool
arrival_less i j =
    if not (i.arrival_at == j.arrival_at)
    then ltb i.arrival_at j.arrival_at
    else ltb_text i.case_id j.case_id

-- The `switch` of the loop; `none` means that the item is included.
unfoldable pub refusal : Limits → Limits → Limits → Option ExclusionReason
refusal limits totals used =
    if ltb_ℤ limits.spend_minor (totals.spend_minor +₆₄ used.spend_minor)
    then some spend_budget_exhausted
    else if ltb_ℤ limits.contacts (totals.contacts +₆₄ used.contacts)
    then some contact_capacity_exhausted
    else if ltb_ℤ limits.retries (totals.retries +₆₄ used.retries)
    then some retry_capacity_exhausted
    else if ltb_ℤ limits.discount_minor (totals.discount_minor +₆₄ used.discount_minor)
    then some discount_budget_exhausted
    else if ltb_ℤ limits.human_reviews (totals.human_reviews +₆₄ used.human_reviews)
    then some human_review_capacity_exhausted
    else none

unfoldable pub add_limits : Limits → Limits → Limits
add_limits t u = record {
  spend_minor = t.spend_minor +₆₄ u.spend_minor;
  contacts = t.contacts +₆₄ u.contacts;
  retries = t.retries +₆₄ u.retries;
  discount_minor = t.discount_minor +₆₄ u.discount_minor;
  human_reviews = t.human_reviews +₆₄ u.human_reviews;
}

-- `if included { run.Totals += … }`
unfoldable pub charge : Option ExclusionReason → Limits → Limits → Limits
unfolding add_limits
charge none totals used = add_limits totals used
charge (some why) totals used = totals

is_included : Option ExclusionReason → Bool
is_included none = true
is_included (some why) = false

unfoldable pub entry : Time → ℕ → Item → Option ExclusionReason → Allocation
unfolding resources is_included
entry now rank item why = record {
  case_id = item.case_id;
  decision_id = item.decision_id;
  action = item.action;
  expected_incremental_value_minor = item.expected_incremental_value_minor;
  expected_nerv_minor = item.expected_nerv_minor;
  expected_cost_minor = (resources item.action).spend_minor;
  resource_consumption = resources item.action;
  rank = rank;
  included = is_included why;
  exclusion_reason = why;
  created_at = now;
}

-- The loop over the ordered items, with the totals so far and the rank of the next item.
unfoldable pub allocate_from : Limits → Time → ℕ → Limits → List Item → Limits × List Allocation
unfolding refusal charge entry
allocate_from limits now rank totals [] = (totals, [])
allocate_from limits now rank totals (item ∷ rest) =
    let why = refusal limits totals (resources item.action) in
    let (final, more) =
      allocate_from limits now (suc rank) (charge why totals (resources item.action)) rest in
    (final, entry now rank item why ∷ more)

unfoldable pub order : String → List Item → List Item
unfolding sort_by
order algorithm items =
    if str_eq algorithm "budget-greedy-v1"
    then sort_by greedy_less items
    else sort_by arrival_less items

-- Without the random identifiers of the run and of its allocations.
unfoldable pub allocate : List Item → Limits → String → Time → String → String → Run
unfolding allocate_from order
allocate items limits algorithm now merchant_id priority_run_id =
    let (totals, allocations) = allocate_from limits now 1 nothing (order algorithm items) in
    record {
      merchant_id = merchant_id;
      algorithm_version =
          if str_eq algorithm "budget-greedy-v1" then algorithm else "budget-fcfs-v1";
      priority_run_id = priority_run_id;
      budget = limits;
      totals = totals;
      created_at = now;
      allocations = allocations;
    }
