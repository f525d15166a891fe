-- ===== src/Optimizer/Best.antt =====
-- What the ranking of backend/internal/optimizer/optimizer.go selects.
use razorpay_ai_revenue_reco.Base.{
  ℕ, suc, ◌≡◌, refl, ap, ◌∙◌, Bool, true, false, ◌||◌, some, List, [], ◌∷◌, map, arith,
}
use mathlib.Core.List.Perm
use razorpay_ai_revenue_reco.Base.Tests.{if◌then◌else◌}
use razorpay_ai_revenue_reco.Base.Int.{◌≤ℤ◌}
use razorpay_ai_revenue_reco.Base.Lists.{All}
use razorpay_ai_revenue_reco.Base.Sort.{sort_by, sort_by-perm, sort_by-Ordered, Ordered, insert_by}
use razorpay_ai_revenue_reco.Base.Clock.{Time}
use razorpay_ai_revenue_reco.Domain.Actions.{
  ActionType, wait, action_eq, occurrences, occurrences-perm,
}
use razorpay_ai_revenue_reco.Domain.Entities.{Float64}
use razorpay_ai_revenue_reco.Context.{DecisionContext}
use razorpay_ai_revenue_reco.Optimizer.Candidate.{Candidate}
use razorpay_ai_revenue_reco.Optimizer.Keys.{has_key, ranked-keys}
use razorpay_ai_revenue_reco.Optimizer.Ranking.{
  Floats, CostModel, set_probability, probabilities, score_candidate, candidate_less,
  number_candidates, first_candidate, ranked_candidates, rank_actions,
}

-- The first has at least the score of the second.
abbrev pub ScoresAtLeast : Candidate → Candidate → Type 0
ScoresAtLeast i j = j.objective_score_minor ≤ℤ i.objective_score_minor

by_less : (i j : Candidate) → candidate_less i j ≡ true → ScoresAtLeast i j
unfolding candidate_less
by_less i j h = ground arith

by_not_less : (i j : Candidate) → candidate_less j i ≡ false → ScoresAtLeast i j
unfolding candidate_less
by_not_less i j h = ground arith

All-number :
    (c : Candidate) (n : ℕ) (cs : List Candidate)
    → All (ScoresAtLeast c) cs
    → All (ScoresAtLeast c) (number_candidates n cs)
unfolding number_candidates
All-number c n [] h = tt
All-number c n (d ∷ cs) (h, hs) = (h, All-number c (suc n) cs hs)

Ordered-number :
    (n : ℕ) (cs : List Candidate)
    → Ordered ScoresAtLeast cs
    → Ordered ScoresAtLeast (number_candidates n cs)
unfolding number_candidates
Ordered-number n [] h = tt
Ordered-number n (c ∷ cs) (h, hs) = (All-number c (suc n) cs h, Ordered-number (suc n) cs hs)

abbrev pub action_of : Candidate → ActionType
action_of c = c.action

map-number :
    (n : ℕ) (cs : List Candidate) → map action_of (number_candidates n cs) ≡ map action_of cs
unfolding number_candidates
map-number n [] = refl
map-number n (c ∷ cs) = ap (λ rest. c.action ∷ rest) (map-number (suc n) cs)

abbrev pub action_at : ActionType × Float64 → ActionType
action_at e = e.0

map-score :
    (f : Floats) (ctx : DecisionContext) (costs : CostModel) (natural : Float64)
    (es : List (ActionType × Float64))
    → map action_of (map (score_candidate f ctx costs natural) es) ≡ map action_at es
unfolding score_candidate
map-score f ctx costs natural [] = refl
map-score f ctx costs natural ((a, x) ∷ es) =
    ap (λ rest. a ∷ rest) (map-score f ctx costs natural es)

insert-cons :
    (c : Candidate) (cs : List Candidate)
    → (d : Candidate) × (ds : List Candidate) × (insert_by candidate_less c cs ≡ d ∷ ds)
unfolding insert_by
insert-cons c [] = (c, [], refl)
insert-cons c (d ∷ cs) = by_test (candidate_less d c)
  where
    by_test :
        (b : Bool)
        → (e : Candidate) × (es : List Candidate) × ((if b
              then d ∷ insert_by candidate_less c cs
              else c ∷ d ∷ cs)
            ≡ e ∷ es)
    by_test true = (d, insert_by candidate_less c cs, refl)
    by_test false = (c, d ∷ cs, refl)

set-cons :
    (a : ActionType) (x : Float64) (es : List (ActionType × Float64))
    → (e : ActionType × Float64) × (rest : List (ActionType × Float64)) × (set_probability a x es
        ≡ e ∷ rest)
unfolding set_probability
set-cons a x [] = ((a, x), [], refl)
set-cons a x ((b, y) ∷ es) = by_test (action_eq a b)
  where
    by_test :
        (t : Bool)
        → (e : ActionType × Float64) × (rest : List (ActionType × Float64)) × ((if t
              then (a, x) ∷ es
              else (b, y) ∷ set_probability a x es)
            ≡ e ∷ rest)
    by_test true = ((a, x), es, refl)
    by_test false = ((b, y), set_probability a x es, refl)

best_first :
    (cs : List Candidate) (d : Candidate) (ds : List Candidate)
    → cs ≡ d ∷ ds
    → Ordered ScoresAtLeast cs
    → (c : Candidate) × (first_candidate cs ≡ some c) × All (ScoresAtLeast c) cs
unfolding first_candidate
best_first [] d ds e h = cc e
best_first (c ∷ cs) d ds e (h, hs) = (c, refl, (omega arith, h))

module _ (f : Floats) (ctx : DecisionContext) (predictions : List (ActionType × Float64))
    (natural : Float64) (costs : CostModel) where
  entries : List (ActionType × Float64)
  entries = set_probability wait natural (probabilities predictions [])

  ranked-Ordered : Ordered ScoresAtLeast (ranked_candidates f ctx predictions natural costs)
  unfolding ranked_candidates
  ranked-Ordered = Ordered-number 1 _ (
      sort_by-Ordered candidate_less ScoresAtLeast by_not_less by_less (λ i j k p q. omega arith) _)

  ranked-cons :
      (d : Candidate) × (ds : List Candidate) × (ranked_candidates f ctx predictions natural costs
        ≡ d ∷ ds)
  unfolding ranked_candidates sort_by number_candidates
  ranked-cons =
      let (e, rest, q) = set-cons wait natural (probabilities predictions []) in
      let scored = map (score_candidate f ctx costs natural) in
      let (d, ds, r) =
        insert-cons (score_candidate f ctx costs natural e)
          (sort_by candidate_less (scored rest)) in
      (
        record d { rank = 1 },
        number_candidates 2 ds,
        ap (λ es. number_candidates 1 (sort_by candidate_less (scored es))) q
            ∙ ap (number_candidates 1) r,
      )

  -- The ranking never fails: it selects a candidate, and no candidate has a higher objective score.
  -- The candidates stand in the order of their scores: exactly one for each action that has a
  -- prediction, exactly one for waiting, and none for any other action.
  pub rank_actions-selects :
      (now : Time)
      → let r = rank_actions f ctx predictions natural costs now in
        ((c : Candidate) × (r.selected ≡ some c) × All (ScoresAtLeast c) r.candidates)
        × Ordered ScoresAtLeast r.candidates
        × ((a : ActionType)
            → occurrences a (map action_of r.candidates)
              ≡ (if action_eq a wait || has_key a predictions then 1 else 0))
  unfolding rank_actions ranked_candidates
  rank_actions-selects now =
      let (d, ds, e) = ranked-cons in
      let es = set_probability wait natural (probabilities predictions []) in
      let scored = map (score_candidate f ctx costs natural) es in
      (
        best_first (ranked_candidates f ctx predictions natural costs) d ds e ranked-Ordered,
        ranked-Ordered,
        λ a.
            occurrences-perm a (
              rw (map-number 1 (sort_by candidate_less scored), ← map-score f ctx costs natural es)
                (Perm.map action_of (sort_by-perm candidate_less scored)))
            ∙ ranked-keys predictions a wait natural,
      )
