-- ===== src/Executor.antt =====
-- The executors and their registry: backend/internal/executor/executor.go. What an executor calls is
-- an argument; the payloads of captured messages, and the names of providers and times that the
-- worker does not read, are left out.
pub mod Links
pub mod Journeys
use razorpay_ai_revenue_reco.Base.{
  ℕ, String, ◌≡◌, refl, Bool, true, false, ◌&&◌, ◌||◌, not, Option, none, some, List, [], ◌∷◌,
}
use razorpay_ai_revenue_reco.Base.Tests.{◌==◌, ltb, leb, if◌then◌else◌}
use razorpay_ai_revenue_reco.Base.Int.{ℤ}
use razorpay_ai_revenue_reco.Domain.Actions.{
  ActionType, retry_now, retry_later, send_reminder, send_payment_link, send_checkout_recovery_link,
  request_payment_method_update, suggest_alternate_method,
}
use razorpay_ai_revenue_reco.Store.Execution.{
  ExecutorResult, ResultStatus, result_succeeded, result_outcome_pending, other_status,
}

pub record Request : Type 0 where
  pub execution_id : String
  pub scheduled_action_id : String
  pub recovery_action_id : String
  pub case_id : String
  pub action : ActionType
  pub idempotency_key : String
  pub amount_minor : ℤ
  pub currency : String
  pub merchant_id : String
  pub customer_id : String
  pub recipient_reference : String
  pub parameters : String

-- An error by what `classify` finds out about it: a deadline or a network timeout, an answer of the
-- provider with its status, or any other.
pub data CallError : Type 0 where
  timed_out other_error : CallError
  provider_answer : ℕ → CallError

unfoldable pub classify : CallError → String × Bool
classify timed_out = ("TIMEOUT", true)
classify (provider_answer code) =
    if leb 400 code && ltb code 500 && not (code == 408) && not (code == 429)
    then ("PERMANENT_PROVIDER_ERROR", false)
    else ("TRANSIENT_PROVIDER_ERROR", true)
classify other_error = ("TRANSIENT_PROVIDER_ERROR", true)

-- A call's reference, or its error.
pub data Called : Type 0 where
  referenced : String → Called
  call_failed : CallError → Called

unfoldable pub failed_result : Request → String → Bool → ExecutorResult
failed_result r class retryable = record {
  execution_id = r.execution_id;
  status = other_status "FAILED";
  provider_reference = "";
  failure_class = class;
  retryable = retryable;
}

unfoldable pub good_result : Request → ResultStatus → String → ExecutorResult
good_result r st reference = record {
  execution_id = r.execution_id;
  status = st;
  provider_reference = reference;
  failure_class = "";
  retryable = false;
}

-- The rest of the e-mail and the payment link executors' `Execute`.
unfoldable pub classified_result : Request → Called → ExecutorResult
unfolding classify failed_result good_result
classified_result r (referenced ref) = good_result r result_succeeded ref
classified_result r (call_failed e) = failed_result r (classify e).0 (classify e).1

unfoldable pub local_result : Request → Called → ExecutorResult
unfolding failed_result good_result
local_result r (referenced ref) = good_result r result_succeeded ref
local_result r (call_failed e) = failed_result r "LOCAL_CAPTURE_ERROR" false

unfoldable pub retry_result : Request → Option Called → ExecutorResult
unfolding failed_result good_result
retry_result r none = failed_result r "PROVIDER_CAPABILITY_UNAVAILABLE" false
retry_result r (some (referenced ref)) = good_result r result_outcome_pending ref
retry_result r (some (call_failed e)) = failed_result r "TRANSIENT_PROVIDER_ERROR" true

unfoldable pub email_supports : ActionType → Bool
email_supports send_reminder = true
email_supports request_payment_method_update = true
email_supports send_checkout_recovery_link = true
email_supports suggest_alternate_method = true
email_supports _ = false

unfoldable pub link_supports : ActionType → Bool
link_supports send_payment_link = true
link_supports _ = false

unfoldable pub retry_supports : ActionType → Bool
retry_supports retry_now = true
retry_supports retry_later = true
retry_supports _ = false

-- An executor, by what it supports and what it returns.
pub record Executor : Type 0 where
  pub supports : ActionType → Bool
  pub execute : Request → ExecutorResult
  pub reconcile : String → Option ExecutorResult

unfoldable pub email_executor : (Request → Called) → Executor
unfolding email_supports classified_result
email_executor capture = record {
  supports = email_supports;
  execute = λ r. classified_result r (capture r);
  reconcile = λ key. none;
}

unfoldable pub local_link_executor : (Request → Called) → Executor
unfolding link_supports local_result
local_link_executor capture = record {
  supports = link_supports;
  execute = λ r. local_result r (capture r);
  reconcile = λ key. none;
}

-- `none` is a provider that is not configured.
unfoldable pub retry_executor : (Request → Option Called) → Executor
unfolding retry_supports retry_result
retry_executor request_retry = record {
  supports = retry_supports;
  execute = λ r. retry_result r (request_retry r);
  reconcile = λ key. none;
}

-- `Registry.Execute`
unfoldable pub registry_execute : List Executor → Request → ExecutorResult
unfolding failed_result
registry_execute [] r = failed_result r "UNSUPPORTED_ACTION" false
registry_execute (e ∷ es) r =
    let rest = registry_execute es r in if e.supports r.action then e.execute r else rest

-- `Registry.Reconcile`
unfoldable pub registry_reconcile : List Executor → ActionType → String → Option ExecutorResult
registry_reconcile [] a key = none
registry_reconcile (e ∷ es) a key =
    let rest = registry_reconcile es a key in if e.supports a then e.reconcile key else rest
