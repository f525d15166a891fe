-- ===== src/Base/Sort.antt =====
-- `sort.SliceStable`: a sort by a test `less` in which equal elements keep their order. It stands for
-- `sort.Slice` too, which may order elements that `less` does not tell apart in any way.
use mathlib.Core.Path.{◌≡◌}
use mathlib.Core.Logic.{inl, inr}
use mathlib.Core.Bool.{Bool, true, false}
use mathlib.Core.List.{List, [], ◌∷◌, Perm}
use mathlib.Core.List.Perm
use razorpay_ai_revenue_reco.Base.Tests.{if◌then◌else◌, Bool-cases}
use razorpay_ai_revenue_reco.Base.Lists.{All}

module _ {ℓ} {A : Type ℓ} (less : A → A → Bool) where
  unfoldable pub insert_by : A → List A → List A
  insert_by x [] = x ∷ []
  insert_by x (y ∷ ys) = let rest = insert_by x ys in if less y x then y ∷ rest else x ∷ y ∷ ys

  unfoldable pub sort_by : List A → List A
  unfolding insert_by
  sort_by [] = []
  sort_by (x ∷ xs) = insert_by x (sort_by xs)

  insert_by-perm : (x : A) (ys : List A) → Perm (insert_by x ys) (x ∷ ys)
  unfolding insert_by
  insert_by-perm x [] = Perm.refl _
  insert_by-perm x (y ∷ ys) = elim (Bool-cases (less y x)) [
    | inl e ↦ rw e (Perm.trans (Perm.cons y (insert_by-perm x ys)) (Perm.swap x y ys))
    | inr e ↦ rw e (Perm.refl _)
  ]

  -- Sorting only rearranges.
  pub sort_by-perm : (xs : List A) → Perm (sort_by xs) xs
  unfolding sort_by
  sort_by-perm [] = Perm.refl _
  sort_by-perm (x ∷ xs) = Perm.trans (insert_by-perm x (sort_by xs)) (Perm.cons x (sort_by-perm xs))

-- Each element is related to all that follow it.
abbrev pub Ordered {ℓ κ} : {A : Type ℓ} → (A → A → Type κ) → List A → Type (ℓ ⊔ κ)
Ordered R [] = Unit
Ordered R (x ∷ xs) = All (R x) xs × Ordered R xs

module _ {ℓ κ} {A : Type ℓ} (less : A → A → Bool) (R : A → A → Type κ)
    (of_not_less : (x y : A) → less y x ≡ false → R x y)
    (of_less : (x y : A) → less x y ≡ true → R x y)
    (trans : (x y z : A) → R x y → R y z → R x z) where
  insert_by-All :
      (P : A → Type κ) (x : A) (ys : List A) → P x → All P ys → All P (insert_by less x ys)
  unfolding insert_by
  insert_by-All P x [] hx hs = (hx, tt)
  insert_by-All P x (y ∷ ys) hx hs = elim (Bool-cases (less y x)) [
    | inl e ↦ rw e (hs.0, insert_by-All P x ys hx hs.1)
    | inr e ↦ rw e (hx, hs)
  ]

  All-trans : (x y : A) (zs : List A) → R x y → All (R y) zs → All (R x) zs
  All-trans x y [] r hs = tt
  All-trans x y (z ∷ zs) r hs = (trans x y z r hs.0, All-trans x y zs r hs.1)

  insert_by-Ordered : (x : A) (ys : List A) → Ordered R ys → Ordered R (insert_by less x ys)
  unfolding insert_by
  insert_by-Ordered x [] h = (tt, tt)
  insert_by-Ordered x (y ∷ ys) h = elim (Bool-cases (less y x)) [
    | inl e ↦ rw e (insert_by-All (R y) x ys (of_less y x e) h.0, insert_by-Ordered x ys h.1)
    | inr e ↦ let r = of_not_less x y e in rw e ((r, All-trans x y ys r h.0), h)
  ]

  -- A sort by `less` is in the order of every preorder that `less` decides.
  pub sort_by-Ordered : (xs : List A) → Ordered R (sort_by less xs)
  unfolding sort_by
  sort_by-Ordered [] = tt
  sort_by-Ordered (x ∷ xs) = insert_by-Ordered x (sort_by less xs) (sort_by-Ordered xs)
