-- ===== src/Budget/Limits.antt =====
-- The limits of a run of backend/internal/budget/budget.go and its totals.
use razorpay_ai_revenue_reco.Base.{
  ℕ, suc, String, ◌+◌, ◌<◌, ◌≡◌, inl, inr, false, none, List, [], ◌∷◌, arith,
}
use razorpay_ai_revenue_reco.Base.Tests.{Option-cases}
use razorpay_ai_revenue_reco.Base.Int.{
  ℤ, pos, negsuc, pos_part, two63, wrap64, ◌≤ℤ◌, ltb_ℤ, ◌+ℤ◌, ◌+₆₄◌,
}
use razorpay_ai_revenue_reco.Base.Clock.{Time}
use razorpay_ai_revenue_reco.Domain.Actions.{ActionType}
use razorpay_ai_revenue_reco.Portfolio.Priority.{Item}
use razorpay_ai_revenue_reco.Budget.Allocation.{
  Limits, nothing, resources, refusal, charge, allocate_from, order, allocate,
}

-- A limit that leaves room for one more action below the end of `int64`.
abbrev pub HasRoom : ℤ → Type 0
HasRoom z = (pos 0 ≤ℤ z) × (pos_part z + 3000 < two63)

pub record AreSane (l : Limits) : Type 0 where
  pub spend : HasRoom l.spend_minor
  pub contacts : HasRoom l.contacts
  pub retries : HasRoom l.retries
  pub discount : HasRoom l.discount_minor
  pub reviews : HasRoom l.human_reviews

-- `t` is between zero and `l` in every resource.
pub record IsWithin (l t : Limits) : Type 0 where
  pub spend : (pos 0 ≤ℤ t.spend_minor) × (t.spend_minor ≤ℤ l.spend_minor)
  pub contacts : (pos 0 ≤ℤ t.contacts) × (t.contacts ≤ℤ l.contacts)
  pub retries : (pos 0 ≤ℤ t.retries) × (t.retries ≤ℤ l.retries)
  pub discount : (pos 0 ≤ℤ t.discount_minor) × (t.discount_minor ≤ℤ l.discount_minor)
  pub reviews : (pos 0 ≤ℤ t.human_reviews) × (t.human_reviews ≤ℤ l.human_reviews)

-- A sum that stays in range, on non-negative numbers.
add_small :
    (l t u : ℤ)
    → HasRoom l
    → (pos 0 ≤ℤ t) × (t ≤ℤ l)
    → (pos 0 ≤ℤ u) × (u ≤ℤ pos 3000)
    → t +₆₄ u ≡ pos (pos_part t + pos_part u)
unfolding ◌+₆₄◌ ◌+ℤ◌ wrap64
add_small (pos l) (pos t) (pos u) h ht hu = ground arith
add_small (negsuc l) t u h ht hu = absurd (omega arith)
add_small (pos l) (negsuc t) u h ht hu = absurd (omega arith)
add_small (pos l) (pos t) (negsuc u) h ht hu = absurd (omega arith)

pub record IsSmall (u : Limits) : Type 0 where
  pub spend : (pos 0 ≤ℤ u.spend_minor) × (u.spend_minor ≤ℤ pos 3000)
  pub contacts : (pos 0 ≤ℤ u.contacts) × (u.contacts ≤ℤ pos 3000)
  pub retries : (pos 0 ≤ℤ u.retries) × (u.retries ≤ℤ pos 3000)
  pub discount : (pos 0 ≤ℤ u.discount_minor) × (u.discount_minor ≤ℤ pos 3000)
  pub reviews : (pos 0 ≤ℤ u.human_reviews) × (u.human_reviews ≤ℤ pos 3000)

pub resources-IsSmall : (a : ActionType) → IsSmall (resources a)
unfolding resources
resources-IsSmall a = ground arith

refusal-none :
    (l t u : Limits)
    → refusal l t u ≡ none
    → (ltb_ℤ l.spend_minor (t.spend_minor +₆₄ u.spend_minor) ≡ false)
      × (ltb_ℤ l.contacts (t.contacts +₆₄ u.contacts) ≡ false)
      × (ltb_ℤ l.retries (t.retries +₆₄ u.retries) ≡ false)
      × (ltb_ℤ l.discount_minor (t.discount_minor +₆₄ u.discount_minor) ≡ false)
      × (ltb_ℤ l.human_reviews (t.human_reviews +₆₄ u.human_reviews) ≡ false)
unfolding refusal
refusal-none l t u h = ground arith

-- One resource: an accepted sum stays between zero and the limit.
accepted :
    (l t u : ℤ)
    → HasRoom l
    → (pos 0 ≤ℤ t) × (t ≤ℤ l)
    → (pos 0 ≤ℤ u) × (u ≤ℤ pos 3000)
    → ltb_ℤ l (t +₆₄ u) ≡ false
    → (pos 0 ≤ℤ t +₆₄ u) × (t +₆₄ u ≤ℤ l)
accepted l t u room ht hu ok = ground (arith, add_small l t u room ht hu)

pub charge-IsWithin :
    (l t u : Limits)
    → AreSane l
    → IsSmall u
    → IsWithin l t
    → IsWithin l (charge (refusal l t u) t u)
unfolding charge
charge-IsWithin l t u sane small h = elim (Option-cases (refusal l t u)) [
  | inl e ↦
      let (s, c, r, d, v) = refusal-none l t u e in
      rw e (record {
        spend = accepted l.spend_minor _ _ sane.spend h.spend small.spend s;
        contacts = accepted l.contacts _ _ sane.contacts h.contacts small.contacts c;
        retries = accepted l.retries _ _ sane.retries h.retries small.retries r;
        discount = accepted l.discount_minor _ _ sane.discount h.discount small.discount d;
        reviews = accepted l.human_reviews _ _ sane.reviews h.reviews small.reviews v;
      })
  | inr (why, e) ↦ rw e h
]

allocate_from-IsWithin :
    (l : Limits) (now : Time) (items : List Item) (rank : ℕ) (t : Limits)
    → AreSane l
    → IsWithin l t
    → IsWithin l (allocate_from l now rank t items).0
unfolding allocate_from
allocate_from-IsWithin l now [] rank t sane h = h
allocate_from-IsWithin l now (item ∷ rest) rank t sane h =
    allocate_from-IsWithin l now rest (suc rank) _ sane
      (charge-IsWithin l t (resources item.action) sane (resources-IsSmall item.action) h)

-- Whatever the items and the algorithm, the totals of a run are neither negative nor above its
-- budget, in each of the five resources. The limits are not negative, and lie at least 3000 (the
-- largest single consumption) below the end of the 64-bit range.
pub allocate-IsWithin :
    (items : List Item) (l : Limits) (algorithm : String) (now : Time) (merchant run : String)
    → AreSane l
    → IsWithin l (allocate items l algorithm now merchant run).totals
unfolding allocate
allocate-IsWithin items l algorithm now merchant run sane =
    allocate_from-IsWithin l now (order algorithm items) 1 nothing sane start
  where
    start : IsWithin l nothing
    start = ground arith
