-- ===== src/Optimizer/Keys.antt =====
-- The map of probabilities in `Rank` of backend/internal/optimizer/optimizer.go: one entry for each
-- action.
use razorpay_ai_revenue_reco.Base.{
  ℕ, ◌+◌, ◌≡◌, refl, ap, ◌∙◌, Bool, true, false, not, ◌&&◌, ◌||◌, List, [], ◌∷◌, map, arith, inl,
  inr,
}
use razorpay_ai_revenue_reco.Base.Tests.{if◌then◌else◌, Bool-cases}
use razorpay_ai_revenue_reco.Base.Lists.{any}
use razorpay_ai_revenue_reco.Domain.Actions.{ActionType, action_eq, action_eq→≡, occurrences}
use razorpay_ai_revenue_reco.Domain.Entities.{Float64}
use razorpay_ai_revenue_reco.Optimizer.Ranking.{set_probability, probabilities}

abbrev pub keys : List (ActionType × Float64) → List ActionType
keys es = map (λ e. e.0) es

abbrev pub has_key : ActionType → List (ActionType × Float64) → Bool
has_key b es = any (λ e. action_eq b e.0) es

abbrev one_if : Bool → ℕ
one_if b = if b then 1 else 0

-- Each key stands once.
abbrev pub IsMap : List (ActionType × Float64) → Type 0
IsMap es = (b : ActionType) → occurrences b (keys es) ≡ one_if (has_key b es)

same_key : (a b c : ActionType) → action_eq a c ≡ true → action_eq b a ≡ action_eq b c
same_key a b c h = ap (action_eq b) (action_eq→≡ a c h)

other_key : (a b c : ActionType) → action_eq a c ≡ false → (action_eq b a && action_eq b c) ≡ false
other_key a b c h = elim (Bool-cases (action_eq b a)) [
  | inl e ↦ ap (λ t. t && action_eq b c) e ∙ ap (λ t. action_eq t c) (action_eq→≡ b a e) ∙ h
  | inr e ↦ ap (λ t. t && action_eq b c) e
]

has_key-set :
    (b a : ActionType) (x : Float64) (es : List (ActionType × Float64))
    → has_key b (set_probability a x es) ≡ (action_eq b a || has_key b es)
unfolding set_probability
has_key-set b a x [] = refl
has_key-set b a x ((c, y) ∷ es) = elim (Bool-cases (action_eq a c)) [
  | inl e ↦ ground (arith, same_key a b c e)
  | inr e ↦ ground (arith, has_key-set b a x es)
]

occurrences-set :
    (b a : ActionType) (x : Float64) (es : List (ActionType × Float64))
    → occurrences b (keys (set_probability a x es))
      ≡ one_if (action_eq b a && not (has_key b es)) + occurrences b (keys es)
unfolding set_probability occurrences
occurrences-set b a x [] = ground arith
occurrences-set b a x ((c, y) ∷ es) = elim (Bool-cases (action_eq a c)) [
  | inl e ↦ ground (arith, same_key a b c e)
  | inr e ↦ ground (arith, occurrences-set b a x es, other_key a b c e)
]

pub IsMap-set :
    (a : ActionType) (x : Float64) (es : List (ActionType × Float64))
    → IsMap es
    → IsMap (set_probability a x es)
IsMap-set a x es h b = ground (arith, h b, occurrences-set b a x es, has_key-set b a x es)

-- The map has the actions that have a prediction.
pub probabilities-keys :
    (ps acc : List (ActionType × Float64))
    → IsMap acc
    → IsMap (probabilities ps acc)
      × ((b : ActionType) → has_key b (probabilities ps acc) ≡ (has_key b ps || has_key b acc))
unfolding probabilities
probabilities-keys [] acc h = (h, λ b. refl)
probabilities-keys ((a, x) ∷ ps) acc h =
    let (m, k) = probabilities-keys ps (set_probability a x acc) (IsMap-set a x acc h) in
    (m, λ b. ground (arith, k b, has_key-set b a x acc))

-- The map that is ranked: each action that has a prediction stands once, `WAIT` too, and no other.
pub ranked-keys :
    (ps : List (ActionType × Float64)) (a w : ActionType) (x : Float64)
    → occurrences a (keys (set_probability w x (probabilities ps [])))
      ≡ (if action_eq a w || has_key a ps then 1 else 0)
unfolding occurrences
ranked-keys ps a w x =
    let (m, k) = probabilities-keys ps [] (λ b. refl) in
    ground
      (arith, IsMap-set w x (probabilities ps []) m a, has_key-set a w x (probabilities ps []), k a)
