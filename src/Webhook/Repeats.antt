-- ===== src/Webhook/Repeats.antt =====
-- A webhook that is delivered again: backend/internal/integrations/razorpay/webhook.go.
use razorpay_ai_revenue_reco.Base.{
  String, ◌≡◌, Bool, true, false, Option, none, some, str_eq, ◌⊎◌, inl, inr, sym, ◌∙◌,
}
use razorpay_ai_revenue_reco.Base.Tests.{if◌then◌else◌}
use razorpay_ai_revenue_reco.Base.Clock.{Time}
use razorpay_ai_revenue_reco.Store.Tables.{Database}
use razorpay_ai_revenue_reco.Store.Webhooks.{
  is_reserved, new_webhook, insert_webhook, insert_webhook-is_reserved,
}
use razorpay_ai_revenue_reco.Webhook.Payload.{Envelope}
use razorpay_ai_revenue_reco.Webhook
use razorpay_ai_revenue_reco.Webhook.Duplicates.{
  was_processed, KeepsEvents, IsGenuine, process-IsKept, ingest_webhook-IsGenuine,
}

module _ (hub : Webhook.Hub) (keeps : KeepsEvents hub) (body event_id : String) (now : Time)
    (db : Database) where
  -- A reply that tells of a processing comes with a database that holds the event.
  abbrev Leaves : Webhook.WebhookReply × Database → Type 0
  Leaves r = was_processed r.0 ≡ true → is_reserved event_id r.1.webhooks ≡ true

  reserve-Leaves : (b : Bool) (e : Envelope) → Leaves (Webhook.reserve b hub body e event_id now db)
  unfolding Webhook.reserve was_processed
  reserve-Leaves true e h = cc h
  reserve-Leaves false e h =
      process-IsKept hub keeps body event_id now e
        (insert_webhook (new_webhook event_id e.event now) db)
        (insert_webhook-is_reserved event_id e.event now db)

  decoded-Leaves :
      (o : Option Envelope) → Leaves (Webhook.ingest_decoded hub body o event_id now db)
  unfolding Webhook.ingest_decoded was_processed
  decoded-Leaves none h = cc h
  decoded-Leaves (some e) h = go (str_eq e.event "") h
    where
      go :
          (b : Bool)
          → Leaves (
              if b
              then (Webhook.webhook_without_event, db)
              else Webhook.reserve (is_reserved event_id db.webhooks) hub body e event_id now db)
      go true g = cc g
      go false g = reserve-Leaves (is_reserved event_id db.webhooks) e g

  verified-Leaves :
      (v : Option Webhook.VerifyError) → Leaves (Webhook.ingest_verified v hub body event_id now db)
  unfolding Webhook.ingest_verified was_processed
  verified-Leaves (some x) h = cc h
  verified-Leaves none h = decoded-Leaves (hub.decoding.decode body) h

  ingest-Leaves :
      (signature : String) → Leaves (Webhook.ingest_webhook hub body signature event_id now db)
  unfolding Webhook.ingest_webhook was_processed
  ingest-Leaves signature h = go (str_eq event_id "") h
    where
      go :
          (b : Bool)
          → Leaves (
              if b
              then (Webhook.no_event_id, db)
              else Webhook.ingest_verified
                  (Webhook.verify hub.decoding hub.secret body signature)
                  hub
                  body
                  event_id
                  now
                  db)
      go true g = cc g
      go false g = verified-Leaves (Webhook.verify hub.decoding hub.secret body signature) g

  unchanged :
      (body' signature' : String) (now' : Time) (db' : Database)
      → is_reserved event_id db'.webhooks ≡ true
      → ((Webhook.ingest_webhook hub body' signature' event_id now' db').1 ≡ db')
        ⊎ IsGenuine hub body' signature' event_id db'
      → (Webhook.ingest_webhook hub body' signature' event_id now' db').1 ≡ db'
  unchanged body' signature' now' db' h (inl e) = e
  unchanged body' signature' now' db' h (inr (v, free)) =
      let clash : true ≡ false = sym h ∙ free in cc clash

  -- Once a webhook has been processed, with an error or without one, no webhook with its event
  -- identifier changes the database again, whatever its body; the services that process webhooks
  -- keep their table.
  pub ingest_webhook-once :
      (signature : String)
      → was_processed (Webhook.ingest_webhook hub body signature event_id now db).0 ≡ true
      → (body' signature' : String) (now' : Time)
      → (Webhook.ingest_webhook hub body' signature' event_id now'
          (Webhook.ingest_webhook hub body signature event_id now db).1).1
        ≡ (Webhook.ingest_webhook hub body signature event_id now db).1
  ingest_webhook-once signature h body' signature' now' =
      unchanged body' signature' now' (Webhook.ingest_webhook hub body signature event_id now db).1
        (ingest-Leaves signature h)
        (ingest_webhook-IsGenuine hub body' event_id now'
          (Webhook.ingest_webhook hub body signature event_id now db).1 signature')
