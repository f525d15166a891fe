-- ===== src/Webhook.antt =====
-- The intake of Razorpay's webhooks: `Verify`, `Ingest` and `observePaymentLinkPaid` of
-- backend/internal/integrations/razorpay/webhook.go. The services that the source takes as
-- interfaces are arguments, and so is the clock.
pub mod Payload
pub mod Duplicates
pub mod Repeats
use razorpay_ai_revenue_reco.Base.{String, ◌≡◌, Bool, true, false, Option, none, some, str_eq}
use razorpay_ai_revenue_reco.Base.Tests.{if◌then◌else◌}
use razorpay_ai_revenue_reco.Base.Int.{ℤ, pos, leb_ℤ, eqb_ℤ}
use razorpay_ai_revenue_reco.Base.Clock.{Time}
use razorpay_ai_revenue_reco.Store.Rows.{Attribution, WebhookStatus, processed, processing_failed}
use razorpay_ai_revenue_reco.Store.Tables.{Database, case_terminal}
use razorpay_ai_revenue_reco.Store.Webhooks.{is_reserved, new_webhook, insert_webhook, mark_webhook}
use razorpay_ai_revenue_reco.Store.PaymentLinks.{LinkQuery}
use razorpay_ai_revenue_reco.Store.Attributions.Weighing.{ObserveInput}
use razorpay_ai_revenue_reco.Attribution.{ObserveReply, observed, bad_observation, not_observed}
use razorpay_ai_revenue_reco.Webhook.Payload.{
  Envelope, ProviderPaymentLink, Decoding, SubscriptionEvent, PayloadError, Normalized, normalized,
  not_normalized, normalize_webhook, find_note, note_string,
}

pub data VerifyError : Type 0 where
  no_secret invalid_signature : VerifyError

matches : Decoding → String → String → Option String → Option VerifyError
matches d secret body none = some invalid_signature
matches d secret body (some provided) =
    if str_eq (d.hmac secret body) provided then none else some invalid_signature

-- `Verify`; `none` is no error.
unfoldable pub verify : Decoding → String → String → String → Option VerifyError
unfolding matches
verify d secret body signature =
    if str_eq secret "" then some no_secret else matches d secret body (d.decode_hex signature)

-- The observer and the resolver, which are set together.
pub record LinkServices : Type 0 where
  pub observe : ObserveInput → Database → ObserveReply
  pub resolve : LinkQuery → Database → Option String

pub record Hub : Type 0 where
  pub decoding : Decoding
  pub secret : String
  -- whether `Detect` succeeds, and the database that it leaves
  pub detect : SubscriptionEvent → String → Database → Bool × Database
  pub recovery : Option LinkServices

pub data LinkOutcome : Type 0 where
  not_configured no_link_id no_case observation_refused : LinkOutcome
  ignored_terminal_case : LinkOutcome
  link_recovered : Attribution → Bool → LinkOutcome

unfoldable pub after_observe : ObserveReply → Database → LinkOutcome × Database
after_observe (observed a created db') db = (link_recovered a created, db')
after_observe (not_observed case_terminal) db = (ignored_terminal_case, db)
after_observe _ db = (observation_refused, db)

unfoldable pub link_query : Decoding → ProviderPaymentLink → LinkQuery
link_query d l = record {
  link_id = l.id;
  reference_id = l.reference_id;
  case_id = note_string d (find_note "recovery_case_id" l.notes);
  merchant_id = note_string d (find_note "merchant_id" l.notes);
  customer_id = note_string d (find_note "customer_id" l.notes);
}

unfoldable pub link_payment : Decoding → Envelope → String → Time → String → ObserveInput
link_payment d e event_id now case_id = record {
  case_id = case_id;
  recovered_amount_minor =
      if leb_ℤ e.payment.amount (pos 0) then e.payment_link.amount_paid else e.payment.amount;
  payment_reference = e.payment_link.id;
  observed_at = if eqb_ℤ e.created_at (pos 0) then now else d.unix e.created_at;
  correlation_id = event_id;
}

unfoldable pub observe_resolved :
    Decoding
    → LinkServices
    → Envelope
    → String
    → Time
    → Option String
    → Database
    → LinkOutcome × Database
unfolding after_observe
observe_resolved d r e event_id now none db = (no_case, db)
observe_resolved d r e event_id now (some case_id) db =
    after_observe (r.observe (link_payment d e event_id now case_id) db) db

-- `observePaymentLinkPaid`
unfoldable pub observe_link :
    Decoding → Option LinkServices → Envelope → String → Time → Database → LinkOutcome × Database
unfolding observe_resolved
observe_link d none e event_id now db = (not_configured, db)
observe_link d (some r) e event_id now db =
    if str_eq e.payment_link.id ""
    then (no_link_id, db)
    else observe_resolved d r e event_id now (r.resolve (link_query d e.payment_link) db) db

pub data WebhookReply : Type 0 where
  no_event_id webhook_not_decoded webhook_without_event duplicate : WebhookReply
  not_verified : VerifyError → WebhookReply
  link_paid : LinkOutcome → WebhookReply
  not_an_event : PayloadError → WebhookReply
  detected : Bool → WebhookReply

-- `finish`: an error of the processing marks the row as failed.
unfoldable pub link_failed : LinkOutcome → Bool
link_failed ignored_terminal_case = false
link_failed (link_recovered a created) = false
link_failed _ = true

unfoldable pub finish : Bool → String → Time → Database → Database
finish failed event_id now db =
    mark_webhook event_id (if failed then processing_failed else processed) now db

unfoldable pub finish_link : String → Time → LinkOutcome × Database → WebhookReply × Database
finish_link event_id now (o, db) = (link_paid o, finish (link_failed o) event_id now db)

unfoldable pub finish_detection : String → Time → Bool × Database → WebhookReply × Database
finish_detection event_id now (ok_, db) =
    (detected ok_, finish (if ok_ then false else true) event_id now db)

unfoldable pub detect_event : Hub → Normalized → String → Time → Database → WebhookReply × Database
detect_event hub (not_normalized x) event_id now db = (not_an_event x, finish true event_id now db)
detect_event hub (normalized e) event_id now db =
    finish_detection event_id now (hub.detect e event_id db)

-- What follows the reservation of the event.
unfoldable pub process_webhook :
    Hub → String → Envelope → String → Time → Database → WebhookReply × Database
unfolding detect_event finish_link
process_webhook hub body e event_id now db =
    if str_eq e.event "payment_link.paid"
    then finish_link event_id now (observe_link hub.decoding hub.recovery e event_id now db)
    else detect_event hub (normalize_webhook hub.decoding now body) event_id now db

unfoldable pub reserve :
    Bool → Hub → String → Envelope → String → Time → Database → WebhookReply × Database
reserve true hub body e event_id now db = (duplicate, db)
reserve false hub body e event_id now db =
    process_webhook hub body e event_id now (insert_webhook (new_webhook event_id e.event now) db)

unfoldable pub ingest_decoded :
    Hub → String → Option Envelope → String → Time → Database → WebhookReply × Database
ingest_decoded hub body none event_id now db = (webhook_not_decoded, db)
ingest_decoded hub body (some e) event_id now db =
    if str_eq e.event ""
    then (webhook_without_event, db)
    else reserve (is_reserved event_id db.webhooks) hub body e event_id now db

unfoldable pub ingest_verified :
    Option VerifyError → Hub → String → String → Time → Database → WebhookReply × Database
ingest_verified (some x) hub body event_id now db = (not_verified x, db)
ingest_verified none hub body event_id now db =
    ingest_decoded hub body (hub.decoding.decode body) event_id now db

-- `Ingest`
unfoldable pub ingest_webhook :
    Hub → String → String → String → Time → Database → WebhookReply × Database
ingest_webhook hub body signature event_id now db =
    if str_eq event_id ""
    then (no_event_id, db)
    else ingest_verified (verify hub.decoding hub.secret body signature) hub body event_id now db
