-- ===== src/Domain/Events.antt =====
-- The audit events of a case: backend/internal/domain/events.go.
use razorpay_ai_revenue_reco.Base.{ℕ, String, Bool, true, false}
use razorpay_ai_revenue_reco.Domain.States.{
  CaseState, diagnosing, scheduled, executing, waiting_outcome, recovered, escalated, exhausted,
  stopped,
}

-- An `EventType` is a string in the source: `unlisted` stands for any string but the constants.
pub data EventType : Type 0 where
  revenue_risk_detected case_created diagnosis_started diagnosis_completed : EventType
  candidates_generated action_predicted action_selected policy_approved : EventType
  policy_denied policy_escalated action_scheduled action_executed action_failed : EventType
  outcome_observed promise_created promise_fulfilled promise_broken promise_expired : EventType
  promise_cancelled promise_check_scheduled recovery_completed case_escalated : EventType
  case_stopped case_exhausted state_transitioned decision_created : EventType
  economic_gate_allowed economic_gate_blocked policy_evaluated action_suppressed : EventType
  customer_responded recovery_attributed feedback_recorded human_review_requested : EventType
  operator_approved operator_rejected operator_deferred operator_stopped : EventType
  policy_revalidated stale_approval : EventType
  unlisted : String → EventType

-- `EventType.IsValid`: all the constants are in `validEventTypes`.
unfoldable pub event_is_valid : EventType → Bool
event_is_valid (unlisted s) = false
event_is_valid _ = true

pub record Actor : Type 0 where
  pub type_ : String
  pub id : String

-- `Timestamp` in nanoseconds since year 1; payloads are JSON texts.
pub record RecoveryEvent : Type 0 where
  pub id : String
  pub case_id : String
  pub sequence : ℕ
  pub event_type : EventType
  pub timestamp : ℕ
  pub actor : Actor
  pub payload : String
  pub model_version : String
  pub correlation_id : String

unfoldable pub event_for_transition : CaseState → EventType
event_for_transition diagnosing = diagnosis_started
event_for_transition scheduled = action_scheduled
event_for_transition executing = action_executed
event_for_transition waiting_outcome = outcome_observed
event_for_transition recovered = recovery_completed
event_for_transition escalated = case_escalated
event_for_transition stopped = case_stopped
event_for_transition exhausted = case_exhausted
event_for_transition _ = state_transitioned
