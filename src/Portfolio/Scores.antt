-- ===== src/Portfolio/Scores.antt =====
-- What the ranking of backend/internal/portfolio/portfolio.go guarantees.
use mathlib.Core.List.Perm
use mathlib.Core.List.{map-map}
use razorpay_ai_revenue_reco.Base.{
  ℕ, suc, String, ◌*◌, ◌/◌, ◌≤◌, ◌<◌, ◌≡◌, refl, true, false, List, [], ◌∷◌, map, Perm, arith,
}
use razorpay_ai_revenue_reco.Base.Int.{ℤ, pos, negsuc, quo, *ℤ-pos, wrap64-of_range, two63, ◌≤ℤ◌}
use razorpay_ai_revenue_reco.Base.Sort.{sort_by, sort_by-perm, sort_by-Ordered, Ordered}
use razorpay_ai_revenue_reco.Base.Lists.{All}
use razorpay_ai_revenue_reco.Base.Clock.{Time}
use razorpay_ai_revenue_reco.Portfolio.Priority.{
  PortfolioCandidate, Item, mul_div, urgency, clamp_bps, priority_score, score_item, item_less,
  number_from, rank_items,
}

-- `mul_div` on numbers that are not negative is the rounded-down quotient, if that fits 64 bits.
pub mul_div-pos : (a b d : ℕ) → (a * b) / d < two63 → mul_div (pos a) (pos b) d ≡ pos ((a * b) / d)
unfolding mul_div quo
mul_div-pos a b d h = rw *ℤ-pos (wrap64-of_range (pos ((a * b) / d)) (h, omega arith))

pub urgency_bounds : (t now : Time) → (7500 ≤ urgency t now) × (urgency t now ≤ 15000)
unfolding urgency
urgency_bounds t now = ground arith

pub clamp_bps-le : (z : ℤ) → clamp_bps z ≤ 10000
unfolding clamp_bps
clamp_bps-le (pos n) = ground arith
clamp_bps-le (negsuc n) = ground arith

-- The order of the ranking: no item stands before one of a higher score.
abbrev pub NotBelow : Item → Item → Type 0
NotBelow i j = j.priority_score_minor ≤ℤ i.priority_score_minor

scale : (n k m : ℕ) → k ≤ m → n * k ≤ n * m
scale n k m h = grind arith

module _ (nerv u r : ℕ) (small : 2 * nerv < two63) (hu : u ≤ 15000) (hr : r ≤ 10000) where
  raised : (nerv * u) / 10000 * 2 ≤ 3 * nerv
  raised = omega (arith, scale nerv u 15000 hu)

  lowered : ((nerv * u) / 10000 * r) / 10000 ≤ (nerv * u) / 10000
  lowered = omega (arith, scale ((nerv * u) / 10000) r 10000 hr)

  priority_score-pos : (s : ℕ) × (priority_score (pos nerv) u r ≡ pos s) × (s * 2 ≤ 3 * nerv)
  unfolding priority_score
  priority_score-pos = (
    ((nerv * u) / 10000 * r) / 10000,
    rw (mul_div-pos nerv u 10000 (omega (arith, raised)))
        (mul_div-pos ((nerv * u) / 10000) r 10000 (omega (arith, raised, lowered))),
    omega (arith, raised, lowered),
  )

-- The score of a case whose value is not negative lies between zero and one and a half times the
-- value, whatever its deadline and its recoverability. The value is below 2^62.
pub score_item_bounds :
    (now : Time) (run : String) (c : PortfolioCandidate) (nerv : ℕ)
    → c.expected_nerv_minor ≡ pos nerv
    → 2 * nerv < two63
    → (s : ℕ) × ((score_item now run c).priority_score_minor ≡ pos s) × (s * 2 ≤ 3 * nerv)
unfolding score_item
score_item_bounds now run c nerv e small = rw e (
    priority_score-pos nerv (urgency c.deadline now) (clamp_bps c.recoverability_bps) small
      (urgency_bounds c.deadline now).1 (clamp_bps-le c.recoverability_bps))

of_less : (i j : Item) → item_less i j ≡ true → NotBelow i j
unfolding item_less
of_less i j h = ground arith

of_not_less : (i j : Item) → item_less j i ≡ false → NotBelow i j
unfolding item_less
of_not_less i j h = ground arith

-- The case that an item is about, and its score, which the numbering leaves alone.
abbrev pub key : Item → String × String
key i = (i.case_id, i.decision_id)

map-number_from : (n : ℕ) (xs : List Item) → map key (number_from n xs) ≡ map key xs
unfolding number_from
map-number_from n [] = refl
map-number_from n (x ∷ xs) = rw (map-number_from (suc n) xs)

All-number_from :
    (i : Item) (n : ℕ) (xs : List Item) → All (NotBelow i) xs → All (NotBelow i) (number_from n xs)
unfolding number_from
All-number_from i n [] h = tt
All-number_from i n (x ∷ xs) h = (h.0, All-number_from i (suc n) xs h.1)

Ordered-number_from :
    (n : ℕ) (xs : List Item) → Ordered NotBelow xs → Ordered NotBelow (number_from n xs)
unfolding number_from
Ordered-number_from n [] h = tt
Ordered-number_from n (x ∷ xs) h =
    (All-number_from x (suc n) xs h.0, Ordered-number_from (suc n) xs h.1)

-- The ranks count up from a number.
abbrev pub CountsFrom : ℕ → List Item → Type 0
CountsFrom n [] = Unit
CountsFrom n (x ∷ xs) = (x.rank ≡ n) × CountsFrom (suc n) xs

number_from-CountsFrom : (n : ℕ) (xs : List Item) → CountsFrom n (number_from n xs)
unfolding number_from
number_from-CountsFrom n [] = tt
number_from-CountsFrom n (x ∷ xs) = (refl, number_from-CountsFrom (suc n) xs)

-- The ranking holds each candidate's case as often as it was given, numbers the places from 1 on,
-- and never places a case before one with a higher score.
pub rank_items_lem :
    (cs : List PortfolioCandidate) (now : Time) (run : String)
    → let items = rank_items cs now run in
      Perm (map key items) (map (λ c. (c.case_id, c.decision_id)) cs)
      × CountsFrom 1 items
      × Ordered NotBelow items
unfolding rank_items score_item
rank_items_lem cs now run =
    let scored = map (score_item now run) cs in
    let sorted = sort_by item_less scored in
    (
      rw (map-number_from, ← map-map key (score_item now run) cs)
          (Perm.map key (sort_by-perm item_less scored)),
      number_from-CountsFrom 1 sorted,
      Ordered-number_from 1 sorted (
          sort_by-Ordered item_less NotBelow of_not_less of_less (λ i j k p q. omega arith) scored),
    )
