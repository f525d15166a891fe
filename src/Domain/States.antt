-- ===== src/Domain/States.antt =====
-- The life cycle of a recovery case: backend/internal/domain/state_machine.go. A `CaseState` is a
-- string in the source: `unknown` stands for a string that is none of its constants.
use razorpay_ai_revenue_reco.Base.{
  String, ◌≡◌, Bool, true, false, ◌||◌, Option, none, some, List, [], ◌∷◌, arith, str_eq, eq_iff,
}
use razorpay_ai_revenue_reco.Base.Tests.{if◌then◌else◌}
use razorpay_ai_revenue_reco.Base.Lists.{any}

pub data CaseState : Type 0 where
  detected diagnosing action_pending policy_review scheduled executing : CaseState
  waiting_outcome reassessing recovered escalated exhausted stopped : CaseState
  unknown : String → CaseState

-- `==` on states.
unfoldable pub state_eq : CaseState → CaseState → Bool
state_eq detected detected = true
state_eq diagnosing diagnosing = true
state_eq action_pending action_pending = true
state_eq policy_review policy_review = true
state_eq scheduled scheduled = true
state_eq executing executing = true
state_eq waiting_outcome waiting_outcome = true
state_eq reassessing reassessing = true
state_eq recovered recovered = true
state_eq escalated escalated = true
state_eq exhausted exhausted = true
state_eq stopped stopped = true
state_eq (unknown s) (unknown t) = str_eq s t
state_eq _ _ = false

-- The map `transitions`; a key that is missing has no entry.
unfoldable pub transitions : CaseState → Option (List CaseState)
transitions detected = some (diagnosing ∷ stopped ∷ [])
transitions diagnosing = some (action_pending ∷ escalated ∷ stopped ∷ [])
transitions action_pending = some (policy_review ∷ escalated ∷ exhausted ∷ stopped ∷ [])
transitions policy_review = some (scheduled ∷ reassessing ∷ escalated ∷ stopped ∷ [])
transitions scheduled = some (executing ∷ reassessing ∷ stopped ∷ [])
transitions executing = some (waiting_outcome ∷ reassessing ∷ escalated ∷ stopped ∷ [])
transitions waiting_outcome = some (recovered ∷ reassessing ∷ escalated ∷ exhausted ∷ stopped ∷ [])
transitions reassessing = some (action_pending ∷ recovered ∷ escalated ∷ exhausted ∷ stopped ∷ [])
transitions escalated = some (reassessing ∷ action_pending ∷ recovered ∷ exhausted ∷ stopped ∷ [])
transitions recovered = some []
transitions exhausted = some []
transitions stopped = some []
transitions (unknown s) = none

is_some {ℓ} : {A : Type ℓ} → Option A → Bool
is_some none = false
is_some (some a) = true

unfoldable pub is_valid : CaseState → Bool
unfolding transitions is_some
is_valid s = is_some (transitions s)

unfoldable pub is_terminal : CaseState → Bool
unfolding state_eq
is_terminal s = state_eq s recovered || state_eq s exhausted || state_eq s stopped

allows : CaseState → Option (List CaseState) → Bool
allows to none = false
allows to (some targets) = any (state_eq to) targets

unfoldable pub can_transition : CaseState → CaseState → Bool
unfolding transitions allows state_eq
can_transition from to = allows to (transitions from)

pub data TransitionError : Type 0 where
  unknown_source unknown_target : CaseState → TransitionError
  invalid_transition : CaseState → CaseState → TransitionError

-- `none` is the nil error.
unfoldable pub validate_transition : CaseState → CaseState → Option TransitionError
unfolding is_valid can_transition
validate_transition from to =
    if is_valid from
    then (if is_valid to
        then (if can_transition from to then none else some (invalid_transition from to))
        else some (unknown_target to))
    else some (unknown_source from)

targets_or_none : Option (List CaseState) → List CaseState
targets_or_none none = []
targets_or_none (some targets) = targets

-- Go ranges over the map in any order; the order of the table is one of them.
unfoldable pub allowed_transitions : CaseState → List CaseState
unfolding transitions targets_or_none
allowed_transitions from = targets_or_none (transitions from)

pub state_eq_refl : (s : CaseState) → state_eq s s ≡ true
unfolding state_eq
state_eq_refl (unknown s) = ground (arith, eq_iff s s)
state_eq_refl _ = ground arith

pub state_eq→≡ : (a b : CaseState) → state_eq a b ≡ true → a ≡ b
unfolding state_eq
state_eq→≡ (unknown s) (unknown t) h = ground (arith, eq_iff s t)
state_eq→≡ _ _ h = ground arith
