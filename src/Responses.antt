-- ===== src/Responses.antt =====
-- The intake of customer responses: `Ingest` of backend/internal/responses/service.go, with the
-- creation of a promise that it calls.
pub mod Repeats
use razorpay_ai_revenue_reco.Base.{
  String, ◌≡◌, refl, Bool, true, false, ◌&&◌, ◌||◌, not, Option, none, some, str_eq,
}
use razorpay_ai_revenue_reco.Base.Tests.{if◌then◌else◌}
use razorpay_ai_revenue_reco.Base.Clock.{Time, is_zero}
use razorpay_ai_revenue_reco.Domain.Entities.{RawJson}
use razorpay_ai_revenue_reco.Store.Rows.{Response, ResponseType, promise_to_pay, other_response}
use razorpay_ai_revenue_reco.Store.Tables.{Database, StoreError, Result, ok, err}
use razorpay_ai_revenue_reco.Store.Responses.{save_customer_response}

pub data IngestError : Type 0 where
  bad_type missing_fields bad_payload : IngestError
  response_not_saved : StoreError → IngestError

-- What `Ingest` calls: `json.Valid`, and the creator of promises, which returns the database that
-- it leaves, where one is set.
pub record Intake : Type 0 where
  pub is_json : RawJson → Bool
  pub create_promise : Option (Response → Database → Database)

unfoldable pub is_valid_type : ResponseType → Bool
is_valid_type (other_response s) = false
is_valid_type _ = true

or_object : RawJson → RawJson
or_object s = if str_eq s "" then "{}" else s

-- The checks, in their order.
unfoldable pub ingest_refusal : Intake → Response → Option IngestError
unfolding is_valid_type or_object
ingest_refusal i r =
    if not (is_valid_type r.type_)
    then some bad_type
    else if str_eq r.case_id "" || str_eq r.source "" || str_eq r.correlation_id ""
    then some missing_fields
    else if not (i.is_json (or_object r.payload))
    then some bad_payload
    else none

-- The response with its defaults filled in.
unfoldable pub completed_response : String → Time → Response → Response
unfolding or_object
completed_response fresh now r = record r {
  payload = or_object r.payload;
  id = if str_eq r.id "" then fresh else r.id;
  received_at = if is_zero r.received_at then now else r.received_at;
}

-- A reply with the database it leaves: whether the response is new.
pub data Ingested : Type 0 where
  ingested : Bool → Database → Ingested
  not_ingested : IngestError → Ingested

is_promise : ResponseType → Bool
is_promise promise_to_pay = true
is_promise _ = false

-- The creation is a transaction of its own; its error does not undo the response.
promise_if : Bool → Option (Response → Database → Database) → Response → Database → Database
promise_if true (some create) r db = create r db
promise_if _ _ r db = db

unfoldable pub after_save : Intake → Response → Result (Bool × Database) → Ingested
unfolding promise_if is_promise
after_save i r (err e) = not_ingested (response_not_saved e)
after_save i r (ok (created, db)) =
    ingested created (promise_if (created && is_promise r.type_) i.create_promise r db)

unfoldable pub ingest_checked : Option IngestError → Intake → Response → Database → Ingested
unfolding after_save
ingest_checked (some e) i r db = not_ingested e
ingest_checked none i r db = after_save i r (save_customer_response r db)

-- `Ingest`
unfoldable pub ingest : Intake → String → Time → Response → Database → Ingested
unfolding ingest_checked
ingest i fresh now r db = ingest_checked (ingest_refusal i r) i (completed_response fresh now r) db
