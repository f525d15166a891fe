-- ===== src/Base/Int.antt =====
-- Go's signed 64-bit integers: an integer, and the wrap-around of `int64` written out.
use Prim.Native.Nat.{ℕ, suc, ◌+◌, ◌-◌, ◌*◌, ◌/◌, ◌%◌, ◌≤◌, ◌<◌}
use mathlib.Core.Path.{◌≡◌}
use mathlib.Core.Bool.{Bool, true, false}
use native.Mathlib.Omega.{arith}
use razorpay_ai_revenue_reco.Base.Tests.{ltb, leb, if◌then◌else◌}

-- `negsuc n` is -(n + 1).
pub data ℤ : Type 0 where
  pos : ℕ → ℤ
  negsuc : ℕ → ℤ

abbrev pub pos_part : ℤ → ℕ
pos_part (pos n) = n
pos_part (negsuc n) = 0

abbrev pub neg_part : ℤ → ℕ
neg_part (pos n) = 0
neg_part (negsuc n) = suc n

-- a - b, as an integer.
abbrev pub sub_ℕ : ℕ → ℕ → ℤ
sub_ℕ a b = if leb b a then pos (a - b) else negsuc (b - a - 1)

infixl 65 ◌+ℤ◌ ◌-ℤ◌
infixl 70 ◌*ℤ◌
infix 50 ◌≤ℤ◌ ◌<ℤ◌
unfoldable pub ◌+ℤ◌ : ℤ → ℤ → ℤ
a +ℤ b = sub_ℕ (pos_part a + pos_part b) (neg_part a + neg_part b)

unfoldable pub ◌-ℤ◌ : ℤ → ℤ → ℤ
a -ℤ b = sub_ℕ (pos_part a + neg_part b) (neg_part a + pos_part b)

unfoldable pub ◌*ℤ◌ : ℤ → ℤ → ℤ
a *ℤ b =
    sub_ℕ (pos_part a * pos_part b + neg_part a * neg_part b)
      (pos_part a * neg_part b + neg_part a * pos_part b)

abbrev pub ◌≤ℤ◌ : ℤ → ℤ → Type 0
a ≤ℤ b = pos_part a + neg_part b ≤ pos_part b + neg_part a

abbrev pub ◌<ℤ◌ : ℤ → ℤ → Type 0
a <ℤ b = pos_part a + neg_part b < pos_part b + neg_part a

abbrev pub ltb_ℤ : ℤ → ℤ → Bool
ltb_ℤ a b = ltb (pos_part a + neg_part b) (pos_part b + neg_part a)

abbrev pub leb_ℤ : ℤ → ℤ → Bool
leb_ℤ a b = leb (pos_part a + neg_part b) (pos_part b + neg_part a)

abbrev pub eqb_ℤ : ℤ → ℤ → Bool
eqb_ℤ a b = if ltb_ℤ a b then false else if ltb_ℤ b a then false else true

-- Division by a positive number that rounds towards zero, as `big.Int.Quo`.
unfoldable pub quo : ℤ → ℕ → ℤ
quo (pos n) d = pos (n / d)
quo (negsuc n) d = sub_ℕ 0 (suc n / d)

abbrev pub two63 : ℕ
two63 = 9223372036854775808

-- The value of the low 64 bits, read as a signed number.
unfoldable pub wrap64 : ℤ → ℤ
wrap64 (pos n) =
    let low = n % (2 * two63) in if ltb low two63 then pos low else negsuc (2 * two63 - 1 - low)
wrap64 (negsuc n) =
    let low = n % (2 * two63) in if ltb low two63 then negsuc low else pos (2 * two63 - 1 - low)

-- The range of `int64`.
abbrev pub InInt64 : ℤ → Type 0
InInt64 a = (pos_part a < two63) × (neg_part a ≤ two63)

infixl 65 ◌+₆₄◌ ◌-₆₄◌
infixl 70 ◌*₆₄◌
unfoldable pub ◌+₆₄◌ : ℤ → ℤ → ℤ
a +₆₄ b = wrap64 (a +ℤ b)

unfoldable pub ◌-₆₄◌ : ℤ → ℤ → ℤ
a -₆₄ b = wrap64 (a -ℤ b)

unfoldable pub ◌*₆₄◌ : ℤ → ℤ → ℤ
a *₆₄ b = wrap64 (a *ℤ b)

pub wrap64-of_range : (a : ℤ) → InInt64 a → wrap64 a ≡ a
unfolding wrap64
wrap64-of_range (pos n) h = ground arith
wrap64-of_range (negsuc n) h = ground arith

pub wrap64-InInt64 : (a : ℤ) → InInt64 (wrap64 a)
unfolding wrap64
wrap64-InInt64 (pos n) = ground arith
wrap64-InInt64 (negsuc n) = ground arith

pub +ℤ_parts :
    (a b : ℤ)
    → pos_part (a +ℤ b) + neg_part a + neg_part b ≡ neg_part (a +ℤ b) + pos_part a + pos_part b
unfolding ◌+ℤ◌
+ℤ_parts a b = ground arith

pub -ℤ_parts :
    (a b : ℤ)
    → pos_part (a -ℤ b) + neg_part a + pos_part b ≡ neg_part (a -ℤ b) + pos_part a + neg_part b
unfolding ◌-ℤ◌
-ℤ_parts a b = ground arith

-- An integer has one of its parts zero.
pub parts_apart : (a : ℤ) → pos_part a * neg_part a ≡ 0
parts_apart (pos n) = omega arith
parts_apart (negsuc n) = omega arith

pub eq_of_parts : (a b : ℤ) → pos_part a + neg_part b ≡ pos_part b + neg_part a → a ≡ b
eq_of_parts a b h = ground arith

pub ruleset int_laws = (arith, +ℤ_parts, -ℤ_parts, eq_of_parts)

-- Sums of two machine integers that do not overflow.
pub +₆₄-of_range : (a b : ℤ) → InInt64 (a +ℤ b) → a +₆₄ b ≡ a +ℤ b
unfolding ◌+₆₄◌
+₆₄-of_range a b h = wrap64-of_range (a +ℤ b) h

pub *ℤ-pos : (a b : ℕ) → pos a *ℤ pos b ≡ pos (a * b)
unfolding ◌*ℤ◌
*ℤ-pos a b = ground arith
