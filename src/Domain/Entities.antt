-- ===== src/Domain/Entities.antt =====
-- The records of backend/internal/domain/entities.go that the core logic reads. A `time.Time` is
-- a number of nanoseconds since the zero time (year 1), a `json.RawMessage` is its text, and a
-- `float64` is its bit pattern, whose arithmetic is a parameter of what computes with it.
use razorpay_ai_revenue_reco.Base.{ℕ, String, Bool, true, false, Option}
use razorpay_ai_revenue_reco.Base.Int.{ℤ}
use razorpay_ai_revenue_reco.Base.Clock.{Time}
use razorpay_ai_revenue_reco.Domain.States.{CaseState}

abbrev pub RawJson : Type 0
RawJson = String

pub data Float64 : Type 0 where
  bits : ℕ → Float64

pub data LeakType : Type 0 where
  failed_subscription checkout_abandonment : LeakType
  other_leak : String → LeakType

pub record RecoveryCase : Type 0 where
  pub id : String
  pub leak_type : LeakType
  pub merchant_id : String
  pub customer_id : String
  pub amount_at_risk_minor : ℤ
  pub currency : String
  pub source_reference : String
  pub source_status : String
  pub failure_or_leak_context : RawJson
  pub customer_context_snapshot : RawJson
  pub merchant_policy_snapshot : RawJson
  pub current_state : CaseState
  pub recovery_deadline : Time
  pub recovered_amount_minor : ℤ
  pub attribution_status : String
  pub version : ℕ
  pub created_at : Time
  pub updated_at : Time

pub data PromiseStatus : Type 0 where
  active fulfilled broken expired cancelled : PromiseStatus

-- `p.Status == "ACTIVE"`
unfoldable pub is_active : PromiseStatus → Bool
is_active active = true
is_active _ = false

pub record PromiseToPay : Type 0 where
  pub id : String
  pub case_id : String
  pub customer_id : String
  pub status : PromiseStatus
  pub due_at : Time
  pub confidence : Float64
  pub source : RawJson
  pub created_at : Time
  pub resolved_at : Option Time
  pub promised_amount_minor : Option ℤ
  pub extractor_version : String
  pub extraction_timestamp : Option Time
  pub source_response_id : Option String
  pub fulfilled_at : Option Time
  pub broken_at : Option Time
  pub expired_at : Option Time
  pub cancelled_at : Option Time
  pub verification_reference : String
