-- ===== src/Store/Webhooks.antt =====
-- The table of received webhooks: `InsertWebhook` and `MarkWebhookProcessed` of
-- backend/internal/store/integrations.go.
use razorpay_ai_revenue_reco.Base.{
  String, ◌≡◌, refl, Bool, true, none, some, List, [], ◌∷◌, str_eq, arith, eq_iff,
}
use razorpay_ai_revenue_reco.Base.Tests.{if◌then◌else◌}
use razorpay_ai_revenue_reco.Base.Lists.{any}
use razorpay_ai_revenue_reco.Base.Clock.{Time}
use razorpay_ai_revenue_reco.Store.Rows.{WebhookRow, WebhookStatus, received}
use razorpay_ai_revenue_reco.Store.Tables.{Database}

unfoldable pub is_reserved : String → List WebhookRow → Bool
is_reserved id rows = any (λ r. str_eq r.event_id id) rows

unfoldable pub new_webhook : String → String → Time → WebhookRow
new_webhook id event_type now = record {
  event_id = id;
  event_type = event_type;
  status = received;
  received_at = now;
  processed_at = none;
}

-- `INSERT … ON CONFLICT(provider,provider_event_id) DO NOTHING`, where the row is new.
unfoldable pub insert_webhook : WebhookRow → Database → Database
insert_webhook r db = record db { webhooks = r ∷ db.webhooks }

unfoldable pub mark_rows : String → WebhookStatus → Time → List WebhookRow → List WebhookRow
mark_rows id st now [] = []
mark_rows id st now (r ∷ rs) =
    (if str_eq r.event_id id then record r { status = st; processed_at = some now } else r)
    ∷ mark_rows id st now rs

-- `MarkWebhookProcessed`
unfoldable pub mark_webhook : String → WebhookStatus → Time → Database → Database
mark_webhook id st now db = record db { webhooks = mark_rows id st now db.webhooks }

pub mark_rows-is_reserved :
    (id j : String) (st : WebhookStatus) (now : Time) (rs : List WebhookRow)
    → is_reserved j (mark_rows id st now rs) ≡ is_reserved j rs
unfolding is_reserved mark_rows
mark_rows-is_reserved id j st now [] = refl
mark_rows-is_reserved id j st now (r ∷ rs) = ground (arith, mark_rows-is_reserved id j st now rs)

pub insert_webhook-is_reserved :
    (id event_type : String) (now : Time) (db : Database)
    → is_reserved id (insert_webhook (new_webhook id event_type now) db).webhooks ≡ true
unfolding is_reserved insert_webhook new_webhook
insert_webhook-is_reserved id event_type now db = ground (arith, eq_iff id id)
