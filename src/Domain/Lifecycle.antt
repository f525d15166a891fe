-- ===== src/Domain/Lifecycle.antt =====
-- What the transition table of backend/internal/domain/state_machine.go guarantees.
use razorpay_ai_revenue_reco.Base.{◌≡◌, refl, ◌↔◌, true, false, none, arith}
use razorpay_ai_revenue_reco.Base.Lists.{any}
use razorpay_ai_revenue_reco.Domain.States.{
  CaseState, detected, diagnosing, action_pending, policy_review, scheduled, executing,
  waiting_outcome, reassessing, recovered, escalated, exhausted, stopped, unknown, state_eq,
  is_valid, is_terminal, can_transition, validate_transition, allowed_transitions,
}

-- A life of a case: states linked by transitions that the table allows.
pub data Reaches : CaseState → CaseState → Type 0 where
  here : {s : CaseState} → Reaches s s
  then : {s t u : CaseState} → can_transition s t ≡ true → Reaches t u → Reaches s u

pub Reaches-trans : {s t u : CaseState} → Reaches s t → Reaches t u → Reaches s u
Reaches-trans here q = q
Reaches-trans (then e p) q = then e (Reaches-trans p q)

pub terminal_blocks : (s t : CaseState) → is_terminal s ≡ true → can_transition s t ≡ false
unfolding is_terminal can_transition
terminal_blocks s t h = ground arith

-- A valid state is terminal exactly when the table allows no transition out of it.
pub terminal_iff_dead_end :
    (s : CaseState)
    → is_valid s ≡ true
    → (is_terminal s ≡ true) ↔ ((t : CaseState) → can_transition s t ≡ false)
unfolding is_terminal is_valid can_transition
terminal_iff_dead_end s h = (λ e t. terminal_blocks s t e, λ d. ground (arith, d stopped))

-- The course of a case: transitions that the table allows, and attributions of a payment, which make
-- a case RECOVERED from any state that is not terminal.
pub data Course : CaseState → CaseState → Type 0 where
  no_move : {s : CaseState} → Course s s
  allowed_move : {s t u : CaseState} → can_transition s t ≡ true → Course t u → Course s u
  attributed_move : {s u : CaseState} → is_terminal s ≡ false → Course recovered u → Course s u

pub Course-trans : {s t u : CaseState} → Course s t → Course t u → Course s u
Course-trans no_move q = q
Course-trans (allowed_move e p) q = allowed_move e (Course-trans p q)
Course-trans (attributed_move e p) q = attributed_move e (Course-trans p q)

-- A terminal state is the end of the course.
pub Course-of_terminal : {s t : CaseState} → is_terminal s ≡ true → Course s t → s ≡ t
Course-of_terminal h no_move = refl
Course-of_terminal {s = s} h (allowed_move {t = t} e r) = cc (terminal_blocks s t h)
Course-of_terminal h (attributed_move e r) = cc (h, e)

-- From a terminal state only that state is reached.
pub Reaches-of_terminal : {s t : CaseState} → is_terminal s ≡ true → Reaches s t → s ≡ t
Reaches-of_terminal h here = refl
Reaches-of_terminal {s = s} h (then {t = t} e r) = cc (terminal_blocks s t h)

abbrev pub Outcomes : CaseState → Type 0
Outcomes s = Reaches s recovered × Reaches s exhausted × Reaches s stopped

Outcomes-reassessing : Outcomes reassessing
unfolding can_transition
Outcomes-reassessing = (then refl here, then refl here, then refl here)

before : {s t : CaseState} → can_transition s t ≡ true → Outcomes t → Outcomes s
before e (a, b, c) = (then e a, then e b, then e c)

-- From every state that is valid and not terminal, a case can still be recovered, exhausted and
-- stopped.
pub every_outcome_reachable :
    (s : CaseState) → is_valid s ≡ true → is_terminal s ≡ false → Outcomes s
unfolding can_transition is_valid is_terminal
every_outcome_reachable reassessing v h = Outcomes-reassessing
every_outcome_reachable waiting_outcome v h = before {t = reassessing} refl Outcomes-reassessing
every_outcome_reachable executing v h = before {t = reassessing} refl Outcomes-reassessing
every_outcome_reachable scheduled v h = before {t = reassessing} refl Outcomes-reassessing
every_outcome_reachable policy_review v h = before {t = reassessing} refl Outcomes-reassessing
every_outcome_reachable escalated v h = before {t = reassessing} refl Outcomes-reassessing
every_outcome_reachable action_pending v h =
    before {t = policy_review} refl (before {t = reassessing} refl Outcomes-reassessing)
every_outcome_reachable diagnosing v h =
    before {t = escalated} refl (before {t = reassessing} refl Outcomes-reassessing)
every_outcome_reachable detected v h =
    before {t = diagnosing} refl
      (before {t = escalated} refl (before {t = reassessing} refl Outcomes-reassessing))
every_outcome_reachable recovered v h = cc
every_outcome_reachable exhausted v h = cc
every_outcome_reachable stopped v h = cc
every_outcome_reachable (unknown s) v h = cc

-- The nil error of `ValidateTransition` means exactly that the table allows the transition.
pub validate_transition_iff :
    (s t : CaseState) → (validate_transition s t ≡ none) ↔ (can_transition s t ≡ true)
unfolding validate_transition
validate_transition_iff s t = (λ e. ground arith, λ e. ground arith)

-- `AllowedTransitions` lists exactly the targets that `CanTransition` accepts.
pub allowed_iff : (s t : CaseState) → any (state_eq t) (allowed_transitions s) ≡ can_transition s t
unfolding allowed_transitions can_transition
allowed_iff s t = ground arith
