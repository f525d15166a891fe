-- ===== src/Operations/Approval.antt =====
-- A reviewer's input, what it is applied to, and the last guard of an approval:
-- backend/internal/operations/service.go.
use razorpay_ai_revenue_reco.Base.{
  ℕ, String, Bool, true, false, ◌||◌, not, Option, List, [], ◌∷◌, ◌++◌, map,
}
use razorpay_ai_revenue_reco.Base.Tests.{◌==◌, if◌then◌else◌}
use razorpay_ai_revenue_reco.Base.Int.{ℤ}
use razorpay_ai_revenue_reco.Base.Clock.{Time, after}
use razorpay_ai_revenue_reco.Domain.Actions.{ActionType}
use razorpay_ai_revenue_reco.Domain.States.{CaseState, escalated, state_eq}
use razorpay_ai_revenue_reco.Domain.Entities.{RawJson, LeakType}
use razorpay_ai_revenue_reco.Optimizer.Candidate.{Candidate}
use razorpay_ai_revenue_reco.Gate.{GateResult}
use razorpay_ai_revenue_reco.Policy.Tally.{Decision, approve, stop, escalate, PolicyResult}
use razorpay_ai_revenue_reco.Store.Rows.{
  ReviewDecision, Reauthorization, approval_stale, approval_given, approval_stopped,
  approval_denied, ReviewReason, policy_reason, authoritative_state_changed,
}

-- `QueueItem`, without the fields that are only shown.
pub record QueueItem : Type 0 where
  pub case_id : String
  pub priority : String
  pub category : String
  pub amount_at_risk_minor : ℤ
  pub merchant_id : String
  pub merchant_policy_version : ℕ
  pub leak_type : LeakType
  pub decision_id : String
  pub policy_evaluation_id : String
  pub economic_gate_id : String
  pub recommended_action : ActionType
  pub expected_nerv_minor : ℤ
  pub recovery_deadline : Time
  pub review_status : String
  pub candidate : Candidate
  pub gate : GateResult

pub record ReviewInput : Type 0 where
  pub decision : ReviewDecision
  pub operator_id : String
  pub actor_type : String
  pub actor_metadata : RawJson
  pub reason_code : String
  pub notes : String
  pub expected_case_version : ℕ
  pub review_after : Option Time
  pub idempotency_key : String

-- `fresh_policy` is read for an approval only.
pub record ApplyCommand : Type 0 where
  pub item : QueueItem
  pub input : ReviewInput
  pub fresh_policy : PolicyResult
  pub now : Time

-- The three results of `AuthorizeApproval`.
pub record Authorized : Type 0 where
  pub result : Reauthorization
  pub reasons : List ReviewReason
  pub can_schedule : Bool

unfoldable pub by_policy : Decision → List ReviewReason → Authorized
by_policy approve reasons = record {
  result = approval_given;
  reasons = reasons;
  can_schedule = true;
}
by_policy escalate reasons = record {
  result = approval_given;
  reasons = reasons;
  can_schedule = true;
}
by_policy stop reasons = record {
  result = approval_stopped;
  reasons = reasons;
  can_schedule = false;
}
by_policy _ reasons = record { result = approval_denied; reasons = reasons; can_schedule = false }

unfoldable pub authorize_approval :
    CaseState → ℕ → ℕ → ℕ → ℕ → Time → Time → PolicyResult → Authorized
unfolding by_policy
authorize_approval state version expected policy_version observed deadline now fresh =
    let reasons = map policy_reason fresh.reason_codes in
    if not (state_eq state escalated)
      || not (version == expected)
      || not (policy_version == observed)
      || not (after deadline now)
    then record {
      result = approval_stale;
      reasons = reasons ++ authoritative_state_changed ∷ [];
      can_schedule = false;
    }
    else by_policy fresh.decision reasons
