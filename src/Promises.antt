-- ===== src/Promises.antt =====
-- Promises to pay: the service of backend/internal/promises/promises.go. Each call of the store is a
-- transaction of its own. Go's calendar, the identifiers of `id.New` and the reassessor are arguments.
pub mod Texts
use razorpay_ai_revenue_reco.Base.{
  ℕ, String, ◌≡◌, refl, Bool, true, false, not, Option, none, some, str_eq, ◌*◌,
}
use razorpay_ai_revenue_reco.Base.Tests.{if◌then◌else◌}
use razorpay_ai_revenue_reco.Base.Int.{ℤ, pos, leb_ℤ}
use razorpay_ai_revenue_reco.Base.Clock.{Time}
use razorpay_ai_revenue_reco.Domain.Entities.{
  Float64, RawJson, PromiseToPay, PromiseStatus, active, fulfilled, broken,
}
use razorpay_ai_revenue_reco.Store.Tables.{Database, StoreError, Result, ok, err, after_tx}
use razorpay_ai_revenue_reco.Store.Promises.{create_promise, get_promise}
use razorpay_ai_revenue_reco.Store.Promises.Checks.{claim_due_check}
use razorpay_ai_revenue_reco.Store.Promises.Outcomes.{
  resolve_promise, resolve_for_demo, cancel_promise,
}
use razorpay_ai_revenue_reco.Promises.Texts.{
  Calendar, Extraction, ExtractError, Extracted, extracted, not_extracted, extract,
}

pub data PromiseError : Type 0 where
  bad_timezone low_confidence bad_amount bad_outcome : PromiseError
  extraction_failed : ExtractError → PromiseError
  promise_store_failed : StoreError → PromiseError

-- What the service calls.
pub record PromiseDesk : Type 0 where
  pub calendar : Calendar
  -- `time.LoadLocation`: the location of a name, if there is one
  pub load_location : String → Option String
  -- `confidence < minimumConfidence`
  pub is_low : Float64 → Bool
  -- the quotient of two integers
  pub ratio : ℕ → ℕ → Float64
  -- "promise-check:" and the identifier
  pub check_correlation : String → String
  pub reassess : Option (String → Time → Database → Database)

pub record CreateInput : Type 0 where
  pub case_id : String
  pub text : String
  pub promised_for : Option Time
  pub promised_amount_minor : Option ℤ
  pub source : RawJson
  pub source_response_id : Option String
  pub correlation_id : String
  pub timezone : String

-- The identifiers of a new promise, of its check and of a correlation that is missing.
pub record PromiseIds : Type 0 where
  pub promise_id : String
  pub check_id : String
  pub correlation : String

pub data PromiseReply : Type 0 where
  promise_saved : PromiseToPay → Bool → Database → PromiseReply
  promise_refused : PromiseError → PromiseReply

located : Option String → String → Option String
located (some l) zone = some l
located none zone = if str_eq zone "" then some "UTC" else none

unfoldable pub not_positive : Option ℤ → Bool
not_positive none = false
not_positive (some a) = leb_ℤ a (pos 0)

unfoldable pub new_promise : CreateInput → PromiseIds → Extraction → PromiseToPay
new_promise i ids e = record {
  id = ids.promise_id;
  case_id = i.case_id;
  customer_id = "";
  status = active;
  due_at = e.promised_for;
  confidence = e.confidence;
  source = if str_eq i.source "" then "{}" else i.source;
  created_at = e.extracted_at;
  resolved_at = none;
  promised_amount_minor = i.promised_amount_minor;
  extractor_version = "ptp-extractor-v1";
  extraction_timestamp = some e.extracted_at;
  source_response_id = i.source_response_id;
  fulfilled_at = none;
  broken_at = none;
  expired_at = none;
  cancelled_at = none;
  verification_reference = "";
}

saved : Result ((PromiseToPay × Bool) × Database) → PromiseReply
saved (ok ((p, created), db)) = promise_saved p created db
saved (err e) = promise_refused (promise_store_failed e)

unfoldable pub create_extracted :
    PromiseDesk → CreateInput → PromiseIds → Extracted → Database → PromiseReply
unfolding not_positive saved
create_extracted desk i ids (not_extracted e) db = promise_refused (extraction_failed e)
create_extracted desk i ids (extracted e) db =
    if desk.is_low e.confidence
    then promise_refused low_confidence
    else if not_positive i.promised_amount_minor
    then promise_refused bad_amount
    else saved (
        create_promise (new_promise i ids e) ids.check_id
          (if str_eq i.correlation_id "" then ids.correlation else i.correlation_id) db)

unfoldable pub create_located :
    PromiseDesk → CreateInput → PromiseIds → Time → Option String → Database → PromiseReply
unfolding create_extracted
create_located desk i ids now none db = promise_refused bad_timezone
create_located desk i ids now (some location) db =
    create_extracted desk i ids (extract desk.calendar i.text i.promised_for now location) db

-- `Create`
unfoldable pub create : PromiseDesk → CreateInput → PromiseIds → Time → Database → PromiseReply
unfolding create_located located
create desk i ids now db =
    create_located desk i ids now (located (desk.load_location i.timezone) i.timezone) db

-- A promise that is broken hands its case to the reassessor, where one is set.
reassess_if :
    PromiseStatus
    → Option (String → Time → Database → Database)
    → String
    → Time
    → Database
    → Database
reassess_if broken (some f) case_id now db = f case_id now db
reassess_if _ _ case_id now db = db

-- What a due check comes to: its error, or the promise as it ended.
pub data CheckReply : Type 0 where
  check_failed : StoreError → CheckReply
  checked : PromiseToPay → CheckReply
  bad_demo_outcome : CheckReply

unfoldable pub after_resolution :
    PromiseDesk → Time → Result (PromiseToPay × Database) → Database → CheckReply × Database
unfolding reassess_if
after_resolution desk now (err e) db = (check_failed e, db)
after_resolution desk now (ok (p, db')) db =
    (checked p, reassess_if p.status desk.reassess p.case_id now db')

check_read :
    PromiseDesk → Time → Result (PromiseToPay × Database) → Database → CheckReply × Database
unfolding after_resolution
check_read desk now (err e) db = (check_failed e, db)
check_read desk now (ok (p, same)) db =
    after_resolution desk now
      (resolve_promise desk.ratio (desk.check_correlation p.id) p.id none now db) db

check_claimed_by :
    PromiseDesk → Time → Result (String × Database) → Database → CheckReply × Database
unfolding check_read
check_claimed_by desk now (err e) db = (check_failed e, db)
check_claimed_by desk now (ok (id, db')) db = check_read desk now (get_promise id db') db'

-- `RunDueCheck`: the claim, the read and the resolution, and then the reassessment.
unfoldable pub run_due_check : PromiseDesk → String → Time → Database → CheckReply × Database
unfolding check_claimed_by
run_due_check desk worker now db =
    check_claimed_by desk now (claim_due_check worker now (2 * 60 * 1000000000) db) db

-- `ResolveForDemo`, where the outcome's name has been read.
unfoldable pub resolve_demo :
    PromiseDesk → String → Option PromiseStatus → Time → Database → CheckReply × Database
unfolding after_resolution
resolve_demo desk id none now db = (bad_demo_outcome, db)
resolve_demo desk id (some outcome) now db =
    after_resolution desk now
      (resolve_for_demo desk.ratio (desk.check_correlation id) id outcome now db) db
