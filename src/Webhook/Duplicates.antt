-- ===== src/Webhook/Duplicates.antt =====
-- What a webhook may change, and its repetition: backend/internal/integrations/razorpay/webhook.go.
use razorpay_ai_revenue_reco.Base.{
  String, ◌≡◌, refl, Bool, true, false, Option, none, some, str_eq, ◌⊎◌, inl, inr, ◌∙◌,
}
use razorpay_ai_revenue_reco.Base.Tests.{if◌then◌else◌}
use razorpay_ai_revenue_reco.Base.Clock.{Time}
use razorpay_ai_revenue_reco.Store.Rows.{Attribution}
use razorpay_ai_revenue_reco.Store.Tables.{Database, case_terminal}
use razorpay_ai_revenue_reco.Store.Webhooks.{is_reserved, mark_webhook, mark_rows-is_reserved}
use razorpay_ai_revenue_reco.Store.Attributions.Weighing.{ObserveInput}
use razorpay_ai_revenue_reco.Attribution.{ObserveReply, observed, bad_observation, not_observed}
use razorpay_ai_revenue_reco.Webhook.Payload.{
  Envelope, SubscriptionEvent, Normalized, normalized, not_normalized, normalize_webhook,
}
use razorpay_ai_revenue_reco.Webhook

-- The webhook has been processed, with an error or without one.
unfoldable pub was_processed : Webhook.WebhookReply → Bool
was_processed (Webhook.link_paid o) = true
was_processed (Webhook.not_an_event x) = true
was_processed (Webhook.detected b) = true
was_processed _ = false

-- What a change of the database needs.
abbrev pub IsGenuine : Webhook.Hub → String → String → String → Database → Type 0
IsGenuine hub body signature event_id db =
    (Webhook.verify hub.decoding hub.secret body signature ≡ none)
    × (is_reserved event_id db.webhooks ≡ false)

module _ (hub : Webhook.Hub) (body event_id : String) (now : Time) (db : Database) where
  reserve-changes :
      (b : Bool) (e : Envelope)
      → ((Webhook.reserve b hub body e event_id now db).1 ≡ db) ⊎ (b ≡ false)
  unfolding Webhook.reserve
  reserve-changes true e = inl refl
  reserve-changes false e = inr refl

  decoded-changes :
      (o : Option Envelope)
      → ((Webhook.ingest_decoded hub body o event_id now db).1 ≡ db)
        ⊎ (is_reserved event_id db.webhooks ≡ false)
  unfolding Webhook.ingest_decoded
  decoded-changes none = inl refl
  decoded-changes (some e) = go (str_eq e.event "")
    where
      go :
          (b : Bool)
          → ((if b
                then (Webhook.webhook_without_event, db)
                else Webhook.reserve
                    (is_reserved event_id db.webhooks)
                    hub
                    body
                    e
                    event_id
                    now
                    db).1
              ≡ db)
            ⊎ (is_reserved event_id db.webhooks ≡ false)
      go true = inl refl
      go false = reserve-changes (is_reserved event_id db.webhooks) e

  verified-changes :
      (v : Option Webhook.VerifyError)
      → ((Webhook.ingest_verified v hub body event_id now db).1 ≡ db)
        ⊎ ((v ≡ none) × (is_reserved event_id db.webhooks ≡ false))
  unfolding Webhook.ingest_verified
  verified-changes (some x) = inl refl
  verified-changes none = with_none (decoded-changes (hub.decoding.decode body))
    where
      with_none : {A B : Type 0} → A ⊎ B → A ⊎ (◌≡◌ {A = Option Webhook.VerifyError} none none × B)
      with_none (inl a) = inl a
      with_none (inr b) = inr (refl, b)

  -- A webhook leaves the database as it is, or its signature is that of the body under the
  -- configured secret and its event was not received before.
  pub ingest_webhook-IsGenuine :
      (signature : String)
      → ((Webhook.ingest_webhook hub body signature event_id now db).1 ≡ db)
        ⊎ IsGenuine hub body signature event_id db
  unfolding Webhook.ingest_webhook
  ingest_webhook-IsGenuine signature = go (str_eq event_id "")
    where
      go :
          (b : Bool)
          → ((if b
                then (Webhook.no_event_id, db)
                else Webhook.ingest_verified
                    (Webhook.verify hub.decoding hub.secret body signature)
                    hub
                    body
                    event_id
                    now
                    db).1
              ≡ db)
            ⊎ IsGenuine hub body signature event_id db
      go true = inl refl
      go false = verified-changes (Webhook.verify hub.decoding hub.secret body signature)

-- The services keep the table of webhooks: an event that is received stays received.
pub record KeepsEvents (hub : Webhook.Hub) : Type 0 where
  pub by_detection :
      (e : SubscriptionEvent) (event_id id : String) (db : Database)
      → is_reserved id db.webhooks ≡ true
      → is_reserved id (hub.detect e event_id db).1.webhooks ≡ true
  pub by_observation :
      (s : Webhook.LinkServices) (i : ObserveInput) (a : Attribution) (created : Bool) (id : String)
      (db db' : Database)
      → hub.recovery ≡ some s
      → s.observe i db ≡ observed a created db'
      → is_reserved id db.webhooks ≡ true
      → is_reserved id db'.webhooks ≡ true

marked :
    (id : String) (failed : Bool) (now : Time) (db : Database)
    → is_reserved id db.webhooks ≡ true
    → is_reserved id (Webhook.finish failed id now db).webhooks ≡ true
unfolding Webhook.finish mark_webhook
marked id failed now db h = mark_rows-is_reserved id id _ now db.webhooks ∙ h

module _ (hub : Webhook.Hub) (keeps : KeepsEvents hub) (body event_id : String) (now : Time) where
  abbrev IsKept : Database → Type 0
  IsKept db = is_reserved event_id db.webhooks ≡ true

  after_observe-IsKept :
      (s : Webhook.LinkServices) (i : ObserveInput) (db : Database)
      → hub.recovery ≡ some s
      → IsKept db
      → IsKept (Webhook.after_observe (s.observe i db) db).1
  unfolding Webhook.after_observe
  after_observe-IsKept s i db e h = go (s.observe i db) refl
    where
      go : (r : ObserveReply) → s.observe i db ≡ r → IsKept (Webhook.after_observe r db).1
      go (observed a created db') q = keeps.by_observation s i a created event_id db db' e q h
      go (not_observed case_terminal) q = h
      go (not_observed _) q = h
      go bad_observation q = h

  resolved-IsKept :
      (s : Webhook.LinkServices) (e : Envelope) (o : Option String) (db : Database)
      → hub.recovery ≡ some s
      → IsKept db
      → IsKept (Webhook.observe_resolved hub.decoding s e event_id now o db).1
  unfolding Webhook.observe_resolved
  resolved-IsKept s e none db q h = h
  resolved-IsKept s e (some c) db q h = after_observe-IsKept s _ db q h

  link-IsKept :
      (o : Option Webhook.LinkServices) (e : Envelope) (db : Database)
      → hub.recovery ≡ o
      → IsKept db
      → IsKept (Webhook.observe_link hub.decoding o e event_id now db).1
  unfolding Webhook.observe_link
  link-IsKept none e db q h = h
  link-IsKept (some s) e db q h = go (str_eq e.payment_link.id "")
    where
      go :
          (b : Bool)
          → IsKept
              (if b
                then (Webhook.no_link_id, db)
                else Webhook.observe_resolved hub.decoding s e event_id now
                    (s.resolve (Webhook.link_query hub.decoding e.payment_link) db)
                    db).1
      go true = h
      go false = resolved-IsKept s e _ db q h

  detect-IsKept :
      (n : Normalized) (db : Database)
      → IsKept db
      → IsKept (Webhook.detect_event hub n event_id now db).1
  unfolding Webhook.detect_event Webhook.finish_detection
  detect-IsKept (not_normalized x) db h = marked event_id true now db h
  detect-IsKept (normalized e) db h =
      marked event_id _ now (hub.detect e event_id db).1
        (keeps.by_detection e event_id event_id db h)

  pub process-IsKept :
      (e : Envelope) (db : Database)
      → IsKept db
      → IsKept (Webhook.process_webhook hub body e event_id now db).1
  unfolding Webhook.process_webhook Webhook.finish_link
  process-IsKept e db h = go (str_eq e.event "payment_link.paid")
    where
      go :
          (b : Bool)
          → IsKept
              (if b
                then Webhook.finish_link event_id now
                    (Webhook.observe_link hub.decoding hub.recovery e event_id now db)
                else Webhook.detect_event hub
                    (normalize_webhook hub.decoding now body)
                    event_id
                    now
                    db).1
      go true = marked event_id _ now _ (link-IsKept hub.recovery e db refl h)
      go false = detect-IsKept _ db h
