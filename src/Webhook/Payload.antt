-- ===== src/Webhook/Payload.antt =====
-- The payload of a Razorpay webhook, and the subscription event that is made from it:
-- backend/internal/integrations/razorpay/webhook.go. The decoding of JSON and `fmt.Sprint` are
-- arguments of what uses them.
use razorpay_ai_revenue_reco.Base.{ℕ, String, ◌||◌, Option, none, some, List, [], ◌∷◌, str_eq}
use razorpay_ai_revenue_reco.Base.Tests.{if◌then◌else◌}
use razorpay_ai_revenue_reco.Base.Lists.{is_empty}
use razorpay_ai_revenue_reco.Base.Int.{ℤ, pos, eqb_ℤ}
use razorpay_ai_revenue_reco.Base.Clock.{Time}
use razorpay_ai_revenue_reco.Domain.Entities.{Float64}

-- A value of `map[string]any`: a text, a number, or any other value, here by what `fmt.Sprint`
-- writes for it.
pub data Note : Type 0 where
  text_note : String → Note
  number_note : Float64 → Note
  other_note : String → Note

abbrev pub Notes : Type 0
Notes = List (String × Note)

pub record ProviderPayment : Type 0 where
  pub id : String
  pub amount : ℤ
  pub currency : String
  pub order_id : String
  pub error_code : String
  pub created_at : ℤ
  pub notes : Notes

pub record ProviderSubscription : Type 0 where
  pub id : String
  pub status : String
  pub notes : Notes

pub record ProviderPaymentLink : Type 0 where
  pub id : String
  pub amount_paid : ℤ
  pub reference_id : String
  pub notes : Notes

pub record Envelope : Type 0 where
  pub event : String
  pub created_at : ℤ
  pub payment : ProviderPayment
  pub subscription : ProviderSubscription
  pub payment_link : ProviderPaymentLink

-- What the file uses of Go's library. `unix` is `time.Unix(s, 0)`; `truncate` is `int64` of a float.
pub record Decoding : Type 0 where
  pub decode : String → Option Envelope
  pub decode_hex : String → Option String
  -- the SHA-256 HMAC of a body under a secret
  pub hmac : String → String → String
  pub unix : ℤ → Time
  pub truncate : Float64 → ℤ
  pub sprint : Float64 → String

unfoldable pub find_note : String → Notes → Option Note
find_note name [] = none
find_note name ((key, n) ∷ ns) =
    let rest = find_note name ns in if str_eq key name then some n else rest

-- `noteString`
unfoldable pub note_string : Decoding → Option Note → String
note_string d none = ""
note_string d (some (text_note s)) = s
note_string d (some (number_note f)) = d.sprint f
note_string d (some (other_note s)) = s

-- `noteInt64`, of what `json.Unmarshal` makes.
unfoldable pub note_int64 : Decoding → Option Note → ℤ
note_int64 d (some (number_note f)) = d.truncate f
note_int64 d _ = pos 0

-- `value, _ := notes[name].(string)`
unfoldable pub note_text : Option Note → String
note_text (some (text_note s)) = s
note_text _ = ""

pub record SubscriptionEvent : Type 0 where
  pub event_type : String
  pub merchant_id : String
  pub customer_id : String
  pub amount_minor : ℤ
  pub currency : String
  pub payment_id : String
  pub subscription_id : String
  pub order_id : String
  pub failure_code : String
  pub occurred_at : Time
  pub recovery_window_hours : ℕ

pub data PayloadError : Type 0 where
  not_decoded no_event no_parties no_new_risk : PayloadError

pub data Normalized : Type 0 where
  normalized : SubscriptionEvent → Normalized
  not_normalized : PayloadError → Normalized

-- The notes of the payment, or else of the subscription.
unfoldable pub notes_of : Envelope → Notes
notes_of e = if is_empty e.payment.notes then e.subscription.notes else e.payment.notes

unfoldable pub subscription_event : Decoding → Time → Envelope → SubscriptionEvent
subscription_event d now e = record {
  event_type = e.event;
  merchant_id = note_text (find_note "merchant_id" (notes_of e));
  customer_id = note_text (find_note "customer_id" (notes_of e));
  amount_minor =
      if eqb_ℤ e.payment.amount (pos 0)
      then note_int64 d (find_note "amount_minor" (notes_of e))
      else e.payment.amount;
  currency =
      if str_eq e.payment.currency ""
      then note_text (find_note "currency" (notes_of e))
      else e.payment.currency;
  payment_id = e.payment.id;
  subscription_id = e.subscription.id;
  order_id = e.payment.order_id;
  failure_code = e.payment.error_code;
  occurred_at = if eqb_ℤ e.payment.created_at (pos 0) then now else d.unix e.payment.created_at;
  recovery_window_hours = 168;
}

unfoldable pub normalize_envelope : Decoding → Time → Envelope → Normalized
unfolding subscription_event
normalize_envelope d now e =
    if str_eq e.event ""
    then not_normalized no_event
    else if str_eq (subscription_event d now e).merchant_id ""
        || str_eq (subscription_event d now e).customer_id ""
    then not_normalized no_parties
    else if str_eq e.event "subscription.charged"
    then not_normalized no_new_risk
    else normalized (subscription_event d now e)

normalize_decoded : Decoding → Time → Option Envelope → Normalized
unfolding normalize_envelope
normalize_decoded d now none = not_normalized not_decoded
normalize_decoded d now (some e) = normalize_envelope d now e

-- `NormalizeWebhook`
unfoldable pub normalize_webhook : Decoding → Time → String → Normalized
unfolding normalize_decoded
normalize_webhook d now body = normalize_decoded d now (d.decode body)
