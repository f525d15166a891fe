-- ===== src/Tests/Webhooks.antt =====
-- A webhook of Razorpay that tells of a paid link.
use razorpay_ai_revenue_reco.Base.{◌≡◌, refl, true, none, some, [], ◌∷◌, ◌⊎◌, ◌*◌}
use razorpay_ai_revenue_reco.Base.Int.{pos}
use razorpay_ai_revenue_reco.Domain.States.{waiting_outcome}
use razorpay_ai_revenue_reco.Store.Webhooks.{is_reserved}
use razorpay_ai_revenue_reco.Webhook.Payload.{
  Envelope, Decoding, text_note, normalize_webhook, note_text, find_note, notes_of,
}
use razorpay_ai_revenue_reco.Webhook
use razorpay_ai_revenue_reco.Webhook.Duplicates.{
  KeepsEvents, IsGenuine, ingest_webhook-IsGenuine, was_processed,
}
use razorpay_ai_revenue_reco.Webhook.Repeats.{ingest_webhook-once}
use razorpay_ai_revenue_reco.Tests.Samples.{noon, database}

abbrev envelope : Envelope
envelope = record {
  event = "payment.failed";
  created_at = pos 0;
  payment = record {
    id = "pay-1";
    amount = pos 50000;
    currency = "INR";
    order_id = "o-1";
    error_code = "BAD";
    created_at = pos 0;
    notes = ("merchant_id", text_note "m-1") ∷ ("customer_id", text_note "c-1") ∷ [];
  };
  subscription = record { id = "sub-1"; status = "halted"; notes = [] };
  payment_link = record { id = ""; amount_paid = pos 0; reference_id = ""; notes = [] };
}

abbrev decoding : Decoding
decoding = record {
  decode = λ s. some envelope;
  decode_hex = λ s. some s;
  hmac = λ secret body. "signed";
  unix = λ s. noon;
  truncate = λ f. pos 0;
  sprint = λ f. "";
}

-- The detection finds the risk and leaves the tables as they are.
abbrev hub : Webhook.Hub
hub = record {
  decoding = decoding;
  secret = "secret";
  detect = λ e id db. (true, db);
  recovery = none;
}

hub-KeepsEvents : KeepsEvents hub
hub-KeepsEvents = record {
  by_detection = λ e event_id id db h. h;
  by_observation = λ s i a created id db db' e q h. cc e;
}

ingest_webhook-IsGenuine_example :
    ((Webhook.ingest_webhook hub "{}" "signed" "ev-1" noon (database waiting_outcome)).1
      ≡ database waiting_outcome)
    ⊎ IsGenuine hub "{}" "signed" "ev-1" (database waiting_outcome)
ingest_webhook-IsGenuine_example =
    ingest_webhook-IsGenuine hub "{}" "ev-1" noon (database waiting_outcome) "signed"

processes :
    was_processed
      (Webhook.ingest_webhook hub "{}" "signed" "ev-1" noon (database waiting_outcome)).0
    ≡ true
unfolding was_processed Webhook.ingest_webhook Webhook.ingest_verified Webhook.verify
    Webhook.ingest_decoded Webhook.reserve is_reserved Webhook.process_webhook normalize_webhook
    note_text find_note notes_of Webhook.finish_detection
processes = refl

ingest_webhook-once_example :
    (Webhook.ingest_webhook hub "{}" "signed" "ev-1"
      (noon * 2)
      (Webhook.ingest_webhook hub "{}" "signed" "ev-1" noon (database waiting_outcome)).1).1
    ≡ (Webhook.ingest_webhook hub "{}" "signed" "ev-1" noon (database waiting_outcome)).1
ingest_webhook-once_example =
    ingest_webhook-once hub hub-KeepsEvents "{}" "ev-1" noon (database waiting_outcome) "signed"
      processes "{}" "signed" (noon * 2)
