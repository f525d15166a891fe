-- ===== src/Tests/Checkouts.antt =====
-- A checkout that was started and then abandoned by someone who claims another amount.
use razorpay_ai_revenue_reco.Base.{String, ◌≡◌, ◌+◌, ◌*◌, refl, Option, none, some, [], ◌∷◌, str_eq}
use razorpay_ai_revenue_reco.Base.Tests.{if◌then◌else◌}
use razorpay_ai_revenue_reco.Base.Int.{pos}
use razorpay_ai_revenue_reco.Base.Clock.{hour_ns}
use razorpay_ai_revenue_reco.Checkout.{
  CheckoutEvent, CheckoutSession, NormalizedLeak, risk, normalize_checkout, normalize_decoded,
  normalize_later, get_checkout, upsert_checkout, updated_session, checkout_leak, classify_checkout,
}
use razorpay_ai_revenue_reco.Checkout.Trusted.{IsTrusted, normalize_checkout-IsTrusted}
use razorpay_ai_revenue_reco.Tests.Samples.{noon}

abbrev session : CheckoutSession
session = record {
  checkout_id = "ck-1";
  merchant_id = "m-1";
  customer_id = "c-1";
  amount_minor = pos 50000;
  currency = "INR";
  stage = "PAYMENT";
  payment_method = "card";
  valid_until = noon + 24 * hour_ns;
}

abbrev abandoned : CheckoutEvent
abandoned = record {
  event_type = "CHECKOUT_ABANDONED";
  checkout_id = "ck-1";
  merchant_id = "m-2";
  customer_id = "c-2";
  amount_minor = pos 1;
  currency = "USD";
  checkout_stage = "";
  payment_method = "";
  failure_code = "";
  abandonment_reason = "delayed_intent";
  occurred_at = noon;
  valid_until = 0;
}

abbrev leak : NormalizedLeak
leak = checkout_leak abandoned "ev-1" session

abbrev decode : String → Option CheckoutEvent
decode s = if str_eq s "{}" then some abandoned else none

finds : normalize_checkout decode "{}" "ev-1" (session ∷ []) ≡ (risk leak, session ∷ [])
unfolding normalize_checkout normalize_decoded normalize_later get_checkout classify_checkout
    upsert_checkout updated_session
finds = refl

normalize_checkout-IsTrusted_example :
    (e : CheckoutEvent) × (s : CheckoutSession) × (decode "{}" ≡ some e)
    × (get_checkout e.checkout_id (session ∷ []) ≡ some s)
    × IsTrusted s e leak
normalize_checkout-IsTrusted_example =
    normalize_checkout-IsTrusted decode "{}" "ev-1" (session ∷ []) (session ∷ []) leak finds
