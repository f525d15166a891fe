-- ===== src/Context.antt =====
-- The decision context: the records of backend/internal/context/context.go that the gate, the
-- eligibility rules, the optimizer and the policy read, and what they take from outside.
use razorpay_ai_revenue_reco.Base.{ℕ, String, ◌≡◌, ◌<◌, Bool, true, false, Option, some, List}
use razorpay_ai_revenue_reco.Base.Int.{ℤ}
use razorpay_ai_revenue_reco.Base.Clock.{Time}
use razorpay_ai_revenue_reco.Domain.Actions.{ActionType}
use razorpay_ai_revenue_reco.Domain.Entities.{Float64, RawJson, RecoveryCase, PromiseToPay}

pub data Recoverability : Type 0 where
  temporary persistent non_recoverable unknown_recoverability : Recoverability

unfoldable pub is_non_recoverable : Recoverability → Bool
is_non_recoverable non_recoverable = true
is_non_recoverable _ = false

pub record Diagnosis : Type 0 where
  pub failure_category : String
  pub recoverability : Recoverability
  pub confidence : Float64
  pub evidence : List String

pub record CustomerProfile : Type 0 where
  pub successful_payment_ratio : Float64
  pub successful_payment_count : ℤ
  pub recent_failures : ℤ
  pub previous_recovery_attempts : ℕ
  pub average_transaction_value_minor : ℤ
  pub contact_count : ℕ
  pub promise_reliability : Float64
  pub recovery_fatigue : Float64
  pub subscription_tenure_days : ℤ
  pub preferred_payment_method : String
  pub prior_checkout_recoveries : ℤ
  pub opted_out : Bool

-- `RecoveryObjective`: the strings that the optimizer tells apart.
pub data Objective : Type 0 where
  minimize_contact minimize_recovery_cost maximize_retention balanced : Objective
  other_objective : String → Objective

pub record MerchantContext : Type 0 where
  pub optimization_profile_id : String
  pub optimization_profile_version : ℤ
  pub merchant_type : String
  pub recovery_objective : Objective
  pub allowed_channels : List String
  pub allowed_actions : List ActionType
  pub max_retries : ℤ
  pub max_contacts_per_day : ℤ
  pub max_contacts_per_week : ℤ
  pub minimum_contact_interval_minutes : ℤ
  pub recovery_window_hours : ℤ
  pub quiet_hours : RawJson
  pub minimum_economic_value_minor : ℤ
  pub high_value_threshold_minor : ℤ
  pub low_confidence_threshold : Float64
  pub maximum_incentive_minor : ℤ
  pub timezone : String
  pub revenue_weight_bps : ℤ
  pub retention_weight_bps : ℤ
  pub contact_penalty_weight_bps : ℤ
  pub cost_penalty_weight_bps : ℤ
  pub fatigue_penalty_weight_bps : ℤ
  pub risk_penalty_weight_bps : ℤ
  pub escalation_preference : String

pub record RecentAction : Type 0 where
  pub action : ActionType
  pub status : String
  pub created_at : Time

pub record TimingContext : Type 0 where
  pub evaluated_at : Time
  pub hours_since_leak : Float64
  pub hours_until_deadline : Float64

pub record PaymentState : Type 0 where
  pub already_recovered : Bool
  pub mandate_status : String
  pub payment_method_status : String
  pub available_channels : List String

pub record DecisionContext : Type 0 where
  pub feature_version : String
  pub case_ : RecoveryCase
  pub diagnosis : Diagnosis
  pub profile : CustomerProfile
  pub merchant : MerchantContext
  pub recent_actions : List RecentAction
  pub active_promise : Option PromiseToPay
  pub timing : TimingContext
  pub payment : PaymentState

-- What the rules take from outside the repository: the comparison of floats, the JSON decoder at
-- `{start, end}`, the parser of "15:04" (hour and minute), and the local hour and minute of a time
-- in a named time zone (`none` for a zone that `time.LoadLocation` does not know).
pub record Platform : Type 0 where
  pub float_less : Float64 → Float64 → Bool
  pub decode_window : RawJson → Option (String × String)
  pub parse_clock : String → Option (ℕ × ℕ)
  pub local_clock : String → Time → Option (ℕ × ℕ)

-- Documented: a parsed clock time is one of the minutes of a day.
pub record ClockIsSound (p : Platform) : Type 0 where
  pub parsed : (text : String) (h m : ℕ) → p.parse_clock text ≡ some (h, m) → (h < 24) × (m < 60)
  pub local : (zone : String) (t h m : ℕ) → p.local_clock zone t ≡ some (h, m) → (h < 24) × (m < 60)
