-- ===== src/Budget/Ranks.antt =====
-- What a run of backend/internal/budget/budget.go records of each item.
use mathlib.Core.List.Perm
use razorpay_ai_revenue_reco.Base.{
  ℕ, suc, String, ◌≡◌, refl, ap, inl, inr, List, [], ◌∷◌, map, Perm, str_eq,
}
use razorpay_ai_revenue_reco.Base.Tests.{Option-cases, Bool-cases, if◌then◌else◌}
use razorpay_ai_revenue_reco.Base.Sort.{sort_by-perm}
use razorpay_ai_revenue_reco.Base.Int.{ℤ, pos, ◌+₆₄◌}
use razorpay_ai_revenue_reco.Base.Clock.{Time}
use razorpay_ai_revenue_reco.Portfolio.Priority.{Item}
use razorpay_ai_revenue_reco.Budget.Allocation.{
  Limits, nothing, Allocation, resources, refusal, charge, add_limits, entry, allocate_from, order,
  allocate, greedy_less, arrival_less,
}

-- What the included allocations consume of one resource, added up in order from a given amount.
pub consumed : (Limits → ℤ) → ℤ → List Allocation → ℤ
consumed f t [] = t
consumed f t (a ∷ rest) = consumed f (if a.included then t +₆₄ f a.resource_consumption else t) rest

-- The case and the decision that an entry is about.
abbrev pub item_key : Item → String × String
item_key i = (i.case_id, i.decision_id)

abbrev pub allocation_key : Allocation → String × String
allocation_key a = (a.case_id, a.decision_id)

abbrev pub RanksFrom : ℕ → List Allocation → Type 0
RanksFrom n [] = Unit
RanksFrom n (a ∷ rest) = (a.rank ≡ n) × RanksFrom (suc n) rest

module _ (l : Limits) (now : Time) where
  consumed-allocate_from :
      (f : Limits → ℤ)
      → ((t u : Limits) → f (add_limits t u) ≡ f t +₆₄ f u)
      → (items : List Item) (n : ℕ) (t : Limits)
      → let r = allocate_from l now n t items in consumed f (f t) r.1 ≡ f r.0
  unfolding consumed allocate_from charge entry
  consumed-allocate_from f add [] n t = refl
  consumed-allocate_from f add (i ∷ rest) n t =
      elim (Option-cases (refusal l t (resources i.action))) [
        | inl e ↦
            rw (e, ← add t (resources i.action))
              (consumed-allocate_from f add rest (suc n) (add_limits t (resources i.action)))
        | inr (why, e) ↦ rw e (consumed-allocate_from f add rest (suc n) t)
      ]

  keys-allocate_from :
      (items : List Item) (n : ℕ) (t : Limits)
      → map allocation_key (allocate_from l now n t items).1 ≡ map item_key items
  unfolding allocate_from entry
  keys-allocate_from [] n t = refl
  keys-allocate_from (i ∷ rest) n t = ap (λ ks. item_key i ∷ ks) (keys-allocate_from rest (suc n) _)

  RanksFrom-allocate_from :
      (items : List Item) (n : ℕ) (t : Limits) → RanksFrom n (allocate_from l now n t items).1
  unfolding allocate_from entry
  RanksFrom-allocate_from [] n t = tt
  RanksFrom-allocate_from (i ∷ rest) n t = (refl, RanksFrom-allocate_from rest (suc n) _)

order-perm : (algorithm : String) (items : List Item) → Perm (order algorithm items) items
unfolding order
order-perm algorithm items = elim (Bool-cases (str_eq algorithm "budget-greedy-v1")) [
  | inl e ↦ rw e (sort_by-perm greedy_less items)
  | inr e ↦ rw e (sort_by-perm arrival_less items)
]

-- A run has one allocation for each item, whatever the algorithm, ranked from 1 on, and its total of
-- each of the five resources is what the included allocations consume of it.
pub allocate_accounts :
    (items : List Item) (l : Limits) (algorithm : String) (now : Time) (merchant run : String)
    → let r = allocate items l algorithm now merchant run in
      Perm (map allocation_key r.allocations) (map item_key items)
      × RanksFrom 1 r.allocations
      × (consumed (λ u. u.spend_minor) (pos 0) r.allocations ≡ r.totals.spend_minor)
      × (consumed (λ u. u.contacts) (pos 0) r.allocations ≡ r.totals.contacts)
      × (consumed (λ u. u.retries) (pos 0) r.allocations ≡ r.totals.retries)
      × (consumed (λ u. u.discount_minor) (pos 0) r.allocations ≡ r.totals.discount_minor)
      × (consumed (λ u. u.human_reviews) (pos 0) r.allocations ≡ r.totals.human_reviews)
unfolding allocate add_limits
allocate_accounts items l algorithm now merchant run =
    let ordered = order algorithm items in
    (
      rw (keys-allocate_from l now ordered 1 nothing)
          (Perm.map item_key (order-perm algorithm items)),
      RanksFrom-allocate_from l now ordered 1 nothing,
      consumed-allocate_from l now (λ u. u.spend_minor) (λ t u. refl) ordered 1 nothing,
      consumed-allocate_from l now (λ u. u.contacts) (λ t u. refl) ordered 1 nothing,
      consumed-allocate_from l now (λ u. u.retries) (λ t u. refl) ordered 1 nothing,
      consumed-allocate_from l now (λ u. u.discount_minor) (λ t u. refl) ordered 1 nothing,
      consumed-allocate_from l now (λ u. u.human_reviews) (λ t u. refl) ordered 1 nothing,
    )
