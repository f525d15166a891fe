-- ===== src/Checkout.antt =====
-- The detection of abandoned checkouts: `CheckoutAdapter` of backend/internal/detection/checkout.go,
-- the table of checkouts of backend/internal/store/integrations.go, and `Validate` of
-- backend/internal/detection/contracts.go. The decoding of a payload and the length of a text are
-- arguments; contexts and references, which are JSON, are left out.
pub mod Trusted
use razorpay_ai_revenue_reco.Base.{
  ℕ, String, ◌≡◌, ◌+◌, ◌*◌, Bool, true, false, ◌||◌, not, Option, none, some, List, [], ◌∷◌, str_eq,
}
use razorpay_ai_revenue_reco.Base.Tests.{◌==◌, if◌then◌else◌}
use razorpay_ai_revenue_reco.Base.Int.{ℤ, pos, leb_ℤ}
use razorpay_ai_revenue_reco.Base.Lists.{any, find_first}
use razorpay_ai_revenue_reco.Base.Clock.{Time, hour_ns, after, is_zero}
use razorpay_ai_revenue_reco.Domain.Entities.{
  LeakType, failed_subscription, checkout_abandonment, other_leak,
}

pub record NormalizedLeak : Type 0 where
  pub provider : String
  pub provider_event_id : String
  pub event_type : String
  pub leak_type : LeakType
  pub merchant_id : String
  pub customer_id : String
  pub amount_minor : ℤ
  pub currency : String
  pub source_reference : String
  pub source_status : String
  pub failure_category : String
  pub occurred_at : Time
  pub recovery_deadline : Time

pub data LeakError : Type 0 where
  fields_missing amount_or_currency unsupported_type bad_times : LeakError

is_supported : LeakType → Bool
is_supported failed_subscription = true
is_supported checkout_abandonment = true
is_supported (other_leak s) = false

-- `Validate`; `none` is no error.
unfoldable pub validate_leak : (String → ℕ) → NormalizedLeak → Option LeakError
unfolding is_supported
validate_leak byte_length n =
    if any (λ t. str_eq t "")
      (n.merchant_id ∷ n.customer_id ∷ n.source_reference ∷ n.provider_event_id ∷ [])
    then some fields_missing
    else if leb_ℤ n.amount_minor (pos 0) || not (byte_length n.currency == 3)
    then some amount_or_currency
    else if not (is_supported n.leak_type)
    then some unsupported_type
    else if is_zero n.occurred_at || not (after n.recovery_deadline n.occurred_at)
    then some bad_times
    else none

pub record CheckoutEvent : Type 0 where
  pub event_type : String
  pub checkout_id : String
  pub merchant_id : String
  pub customer_id : String
  pub amount_minor : ℤ
  pub currency : String
  pub checkout_stage : String
  pub payment_method : String
  pub failure_code : String
  pub abandonment_reason : String
  pub occurred_at : Time
  pub valid_until : Time

pub record CheckoutSession : Type 0 where
  pub checkout_id : String
  pub merchant_id : String
  pub customer_id : String
  pub amount_minor : ℤ
  pub currency : String
  pub stage : String
  pub payment_method : String
  pub valid_until : Time

-- `GetCheckout`
unfoldable pub get_checkout : String → List CheckoutSession → Option CheckoutSession
get_checkout id ss = find_first (λ s. str_eq s.checkout_id id) ss

-- `UpsertCheckout`: `ON CONFLICT(checkout_id) DO UPDATE SET` the stage, the method and the end.
unfoldable pub upsert_checkout : CheckoutSession → List CheckoutSession → List CheckoutSession
upsert_checkout c [] = c ∷ []
upsert_checkout c (s ∷ ss) =
    let rest = upsert_checkout c ss in
    if str_eq s.checkout_id c.checkout_id
    then record s {
      stage = c.stage;
      payment_method = c.payment_method;
      valid_until = c.valid_until;
    }
      ∷ ss
    else s ∷ rest

unfoldable pub started_session : CheckoutEvent → CheckoutSession
started_session e = record {
  checkout_id = e.checkout_id;
  merchant_id = e.merchant_id;
  customer_id = e.customer_id;
  amount_minor = e.amount_minor;
  currency = e.currency;
  stage = e.checkout_stage;
  payment_method = "";
  valid_until = if is_zero e.valid_until then e.occurred_at + 24 * hour_ns else e.valid_until;
}

unfoldable pub updated_session : CheckoutEvent → CheckoutSession → CheckoutSession
updated_session e s = record s {
  stage = if str_eq e.checkout_stage "" then s.stage else e.checkout_stage;
  payment_method = if str_eq e.payment_method "" then s.payment_method else e.payment_method;
}

unfoldable pub failure_category : CheckoutEvent → String
failure_category e =
    if str_eq e.event_type "CHECKOUT_PAYMENT_FAILED"
    then (if str_eq e.failure_code "method_mismatch"
        then "PAYMENT_METHOD_MISMATCH"
        else "PAYMENT_FAILURE")
    else if str_eq e.abandonment_reason "payment_friction"
    then "PAYMENT_FRICTION"
    else if str_eq e.abandonment_reason "method_mismatch"
    then "PAYMENT_METHOD_MISMATCH"
    else if str_eq e.abandonment_reason "delayed_intent"
    then "DELAYED_INTENT"
    else if str_eq e.abandonment_reason "price_hesitation"
    then "PRICE_OR_VALUE_HESITATION"
    else "UNKNOWN_ABANDONMENT"

unfoldable pub checkout_leak : CheckoutEvent → String → CheckoutSession → NormalizedLeak
checkout_leak e event_id s = record {
  provider = "checkout-demo";
  provider_event_id = event_id;
  event_type = e.event_type;
  leak_type = checkout_abandonment;
  merchant_id = s.merchant_id;
  customer_id = s.customer_id;
  amount_minor = s.amount_minor;
  currency = s.currency;
  source_reference = s.checkout_id;
  source_status = "ABANDONED";
  failure_category = failure_category e;
  occurred_at = e.occurred_at;
  recovery_deadline = s.valid_until;
}

pub data CheckoutReply : Type 0 where
  no_risk checkout_not_decoded checkout_incomplete checkout_unknown : CheckoutReply
  checkout_unsupported checkout_expired : CheckoutReply
  risk : NormalizedLeak → CheckoutReply

-- The `switch` on the event and what follows it.
unfoldable pub classify_checkout : CheckoutEvent → String → CheckoutSession → CheckoutReply
classify_checkout e event_id s =
    if str_eq e.event_type "CHECKOUT_STARTED" || str_eq e.event_type "CHECKOUT_PAYMENT_SELECTED"
    then no_risk
    else if not
        (str_eq e.event_type "CHECKOUT_PAYMENT_FAILED" || str_eq e.event_type "CHECKOUT_ABANDONED")
    then checkout_unsupported
    else if not (after s.valid_until e.occurred_at)
    then checkout_expired
    else risk (checkout_leak e event_id s)

unfoldable pub normalize_later :
    CheckoutEvent
    → String
    → Option CheckoutSession
    → List CheckoutSession
    → CheckoutReply × List CheckoutSession
normalize_later e event_id none ss = (checkout_unknown, ss)
normalize_later e event_id (some s) ss =
    (classify_checkout e event_id (updated_session e s), upsert_checkout (updated_session e s) ss)

unfoldable pub normalize_decoded :
    Option CheckoutEvent → String → List CheckoutSession → CheckoutReply × List CheckoutSession
normalize_decoded none event_id ss = (checkout_not_decoded, ss)
normalize_decoded (some e) event_id ss =
    if str_eq e.checkout_id "" || str_eq e.event_type ""
    then (checkout_incomplete, ss)
    else if str_eq e.event_type "CHECKOUT_STARTED"
    then (classify_checkout e event_id (started_session e), upsert_checkout (started_session e) ss)
    else normalize_later e event_id (get_checkout e.checkout_id ss) ss

-- `CheckoutAdapter.Normalize`
unfoldable pub normalize_checkout :
    (String → Option CheckoutEvent)
    → String
    → String
    → List CheckoutSession
    → CheckoutReply × List CheckoutSession
normalize_checkout decode payload event_id ss = normalize_decoded (decode payload) event_id ss
