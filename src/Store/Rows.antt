-- ===== src/Store/Rows.antt =====
-- The rows of the tables for reviews, promises, responses and attributions, and their enumerations:
-- backend/internal/operations/service.go, attribution/service.go, responses/service.go, and the
-- columns that backend/internal/store writes. Random identifiers that nothing reads, and payloads,
-- are left out.
use razorpay_ai_revenue_reco.Base.{ℕ, String, Bool, Option, List}
use razorpay_ai_revenue_reco.Base.Int.{ℤ}
use razorpay_ai_revenue_reco.Base.Clock.{Time}
use razorpay_ai_revenue_reco.Domain.Actions.{ActionType}
use razorpay_ai_revenue_reco.Domain.Entities.{Float64, RawJson, PromiseStatus}
use razorpay_ai_revenue_reco.Policy.Rules.{PolicyReason}

-- A `ReviewDecision` is a string in the source: the last constructor is any other one.
pub data ReviewDecision : Type 0 where
  review_approve review_reject review_defer review_stop : ReviewDecision
  other_review : String → ReviewDecision

-- `ReauthorizationResult`.
pub data Reauthorization : Type 0 where
  not_required approval_stale approval_given approval_stopped approval_denied : Reauthorization

-- A reason code of a review: the policy's, or one of the two that the review adds.
pub data ReviewReason : Type 0 where
  policy_reason : PolicyReason → ReviewReason
  authoritative_state_changed human_approval_satisfied : ReviewReason

pub record Review : Type 0 where
  pub id : String
  pub case_id : String
  pub decision_id : String
  pub policy_evaluation_id : String
  pub recommended_action : ActionType
  pub operator_id : String
  pub actor_type : String
  pub actor_metadata : RawJson
  pub decision : ReviewDecision
  pub reason_code : String
  pub notes : String
  pub case_version_at_review : ℕ
  pub merchant_policy_version_at_review : ℕ
  pub review_after : Option Time
  pub idempotency_key : String
  pub reauthorization_result : Reauthorization
  pub reauthorization_reason_codes : List ReviewReason
  pub scheduled_action_id : Option String
  pub created_at : Time

-- A row of `policy_evaluations` that a human approval writes, with the result APPROVE.
pub record ApprovedPolicy : Type 0 where
  pub id : String
  pub decision_id : String
  pub economic_gate_id : String
  pub case_id : String
  pub case_version : ℕ
  pub selected_action : ActionType
  pub policy_version : String
  pub reason_codes : List ReviewReason
  pub created_at : Time

pub data CheckStatus : Type 0 where
  check_pending check_claimed check_completed check_cancelled : CheckStatus

-- A row of `promise_checks`, of which a promise has one.
pub record PromiseCheck : Type 0 where
  pub id : String
  pub promise_id : String
  pub case_id : String
  pub scheduled_for : Time
  pub status : CheckStatus
  pub attempt_count : ℕ
  pub lease_owner : Option String
  pub lease_expires_at : Option Time
  pub completed_at : Option Time
  pub result : Option PromiseStatus

-- A row of `promise_events`.
pub record PromiseEvent : Type 0 where
  pub promise_id : String
  pub case_id : String
  pub from_status : Option PromiseStatus
  pub to_status : PromiseStatus
  pub reason_code : String
  pub occurred_at : Time
  pub correlation_id : String

-- A row of `customer_recovery_profiles`.
pub record CustomerProfileRow : Type 0 where
  pub customer_id : String
  pub successful_payments : ℕ
  pub failed_payments : ℕ
  pub subscription_tenure_days : ℕ
  pub promise_reliability : Float64
  pub fatigue_score : Float64
  pub features : RawJson
  pub version : ℕ
  pub updated_at : Time

-- A response type is a string in the source: the last constructor is any other one.
pub data ResponseType : Type 0 where
  acknowledgement intent_to_pay promise_to_pay opt_out : ResponseType
  payment_method_issue unresolved : ResponseType
  other_response : String → ResponseType

pub record Response : Type 0 where
  pub id : String
  pub case_id : String
  pub type_ : ResponseType
  pub payload : RawJson
  pub source : String
  pub received_at : Time
  pub correlation_id : String

pub data Category : Type 0 where
  direct_action_attributed retry_attributed ptp_attributed : Category
  natural_recovery unknown : Category

pub data EvidenceStrength : Type 0 where
  insufficient weak moderate strong : EvidenceStrength

-- A row of `recovery_attributions`, without its evidence.
pub record Attribution : Type 0 where
  pub id : String
  pub case_id : String
  pub recovered_amount_minor : ℤ
  pub payment_reference : String
  pub category : Category
  pub decision_id : Option String
  pub action_id : Option String
  pub execution_id : Option String
  pub promise_id : Option String
  pub evidence_strength : EvidenceStrength
  pub observed_at : Time

-- A row of `feedback_records`, without what it copies from the decision and its context.
pub record Feedback : Type 0 where
  pub case_id : String
  pub decision_id : String
  pub execution_id : Option String
  pub attribution_id : String
  pub recovered_amount_minor : ℤ
  pub training_eligible : Bool

pub data WebhookStatus : Type 0 where
  received processed processing_failed : WebhookStatus

-- A row of `webhook_events`, whose provider is Razorpay, without its payload.
pub record WebhookRow : Type 0 where
  pub event_id : String
  pub event_type : String
  pub status : WebhookStatus
  pub received_at : Time
  pub processed_at : Option Time

-- `PaymentLink` of backend/internal/integrations/razorpay/client.go.
pub record PaymentLink : Type 0 where
  pub id : String
  pub short_url : String
  pub status : String
  pub reference_id : String

-- A row of `provider_action_references` for the creation of a link.
pub record LinkReference : Type 0 where
  pub action_id : String
  pub provider_reference : String
  pub response : PaymentLink
