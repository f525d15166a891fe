-- ===== src/Tests/Payments.antt =====
-- A promise of the sample case, and payments for it.
use razorpay_ai_revenue_reco.Base.{
  String, ◌≡◌, ◌≤◌, ◌<◌, ◌+◌, ◌*◌, refl, true, false, none, some, [], ◌∷◌, str_eq, arith,
}
use razorpay_ai_revenue_reco.Base.Int.{pos}
use razorpay_ai_revenue_reco.Base.Clock.{hour_ns}
use razorpay_ai_revenue_reco.Domain.Actions.{send_reminder}
use razorpay_ai_revenue_reco.Domain.States.{waiting_outcome, state_eq}
use razorpay_ai_revenue_reco.Domain.Entities.{
  RecoveryCase, PromiseToPay, active, cancelled, is_active,
}
use razorpay_ai_revenue_reco.Store.Rows.{Attribution, Category}
use razorpay_ai_revenue_reco.Store.Tables.{
  Database, ok, err, after_tx, update_case, ExecutionRow, ActionRow, succeeded, action_executed_,
  case_terminal,
}
use razorpay_ai_revenue_reco.Store.Promises
use razorpay_ai_revenue_reco.Store.Promises.{find_promise, is_open}
use razorpay_ai_revenue_reco.Store.Promises.Outcomes.{
  cancel_promise, resolve, transition_promise_tx, lock_promise, update_promises,
}
use razorpay_ai_revenue_reco.Store.Promises.Endings.{active_count}
use razorpay_ai_revenue_reco.Store.Promises.Histories.{
  PromiseRun, no_promise_step, promise_step, withdrawn, elsewhere, PromiseRun-keeps_ended,
  PromiseRun-one_active,
}
use razorpay_ai_revenue_reco.Promises.Texts.{
  Calendar, Extraction, extracted, extract, read_text, parse_clock, extract_future,
  parse_clock-bounds,
}
use razorpay_ai_revenue_reco.Store.Attributions
use razorpay_ai_revenue_reco.Store.Attributions.{attribute_recovery, recover, find_attribution}
use razorpay_ai_revenue_reco.Store.Attributions.Weighing
use razorpay_ai_revenue_reco.Store.Attributions.Weighing.{
  ObserveInput, Windows, Match, Evidence, gather, weigh,
}
use razorpay_ai_revenue_reco.Attribution.Effects.{
  IsRecovered, attribute_recovery-IsRecovered, attribute_recovery-once,
}
use razorpay_ai_revenue_reco.Tests.Samples.{noon, half, database}

abbrev promise : PromiseToPay
promise = record {
  id = "pr-1";
  case_id = "case-1";
  customer_id = "c-1";
  status = active;
  due_at = noon + hour_ns;
  confidence = half;
  source = "{}";
  created_at = noon;
  resolved_at = none;
  promised_amount_minor = none;
  extractor_version = "ptp-extractor-v1";
  extraction_timestamp = some noon;
  source_response_id = none;
  fulfilled_at = none;
  broken_at = none;
  expired_at = none;
  cancelled_at = none;
  verification_reference = "";
}

abbrev promised_database : Database
promised_database = record (database waiting_outcome) { promises = promise ∷ [] }

abbrev withdrawn_promise : PromiseToPay
withdrawn_promise = record promise {
  status = cancelled;
  resolved_at = some noon;
  cancelled_at = some noon;
}

abbrev withdrawn_database : Database
withdrawn_database = after_tx promised_database (cancel_promise "pr-1" "c-2" noon promised_database)

withdrawal :
    cancel_promise "pr-1" "c-2" noon promised_database ≡ ok (withdrawn_promise, withdrawn_database)
unfolding cancel_promise lock_promise find_promise transition_promise_tx is_active
    Promises.insert_promise_event resolve
withdrawal = refl

withdrawn_row : find_promise "pr-1" withdrawn_database.promises ≡ some withdrawn_promise
unfolding find_promise cancel_promise lock_promise transition_promise_tx is_active
    Promises.insert_promise_event update_promises resolve
withdrawn_row = refl

after_withdrawal : PromiseRun promised_database withdrawn_database
after_withdrawal =
    promise_step no_promise_step (withdrawn "pr-1" "c-2" noon withdrawn_promise withdrawal)

one_promise : active_count "case-1" promised_database.promises ≤ 1
unfolding active_count is_open is_active
one_promise = omega arith

PromiseRun-one_active_example : active_count "case-1" withdrawn_database.promises ≤ 1
PromiseRun-one_active_example = PromiseRun-one_active after_withdrawal "case-1" one_promise

is_withdrawn : is_active withdrawn_promise.status ≡ false
unfolding is_active
is_withdrawn = refl

PromiseRun-keeps_ended_example :
    find_promise "pr-1" (record withdrawn_database { events = [] }).promises
    ≡ some withdrawn_promise
PromiseRun-keeps_ended_example =
    PromiseRun-keeps_ended {db = withdrawn_database}
      {db' = record withdrawn_database { events = [] }}
      (promise_step no_promise_step (elsewhere refl)) "pr-1" withdrawn_promise withdrawn_row
      is_withdrawn

-- A calendar in which every day is a Sunday.
abbrev calendar : Calendar
calendar = record {
  lower_trim = λ s. s;
  contains = λ s t. str_eq t "tomorrow";
  find_clock = λ s. some (record { hour = 6; minute = none; meridiem = "pm" });
  find_date = λ s. none;
  parse_day = λ s l. none;
  day_of = λ l t. 100;
  weekday = λ l t. 0;
  at_clock = λ l day hour minute. day * 24 * hour_ns + hour * hour_ns;
  weekdays = [];
  sure = half;
  of_date = half;
  of_tomorrow = half;
  of_weekday = half;
}

parse_clock-bounds_example :
    ((parse_clock calendar "at 6 pm" 10 0).0 ≤ 23) × ((parse_clock calendar "at 6 pm" 10 0).1 ≤ 59)
parse_clock-bounds_example = parse_clock-bounds calendar "at 6 pm" 10 0 (omega arith) (omega arith)

abbrev tomorrow : Extraction
tomorrow = record {
  promised_for = 101 * 24 * hour_ns + 18 * hour_ns;
  confidence = half;
  extracted_at = noon;
}

reads_tomorrow : extract calendar "tomorrow at 6 pm" none noon "UTC" ≡ extracted tomorrow
unfolding extract read_text parse_clock
reads_tomorrow = refl

extract_future_example : (noon < tomorrow.promised_for) × (tomorrow.extracted_at ≡ noon)
extract_future_example =
    extract_future calendar "tomorrow at 6 pm" none noon "UTC" tomorrow reads_tomorrow

abbrev pub spell : Category → String
spell c = "NATURAL_RECOVERY"

abbrev pub payment : ObserveInput
payment = record {
  case_id = "case-1";
  recovered_amount_minor = pos 50000;
  payment_reference = "pay-1";
  observed_at = noon;
  correlation_id = "payment:pay-1";
}

abbrev pub windows : Windows
windows = record { retry = 1440; direct = 10080; ptp = 1440 }

abbrev paid_database : Database
paid_database =
    after_tx (database waiting_outcome)
      (attribute_recovery spell "at-1" payment (some windows) (database waiting_outcome))

abbrev paid : Attribution
paid = Attributions.attribution_row "at-1" payment (Weighing.of_none false) none

payment_attributed :
    attribute_recovery spell "at-1" payment (some windows) (database waiting_outcome)
    ≡ ok ((paid, true), paid_database)
unfolding attribute_recovery Attributions.attribute_at Attributions.has_ended state_eq
    find_attribution Attributions.attribute_unless Attributions.attribute_new gather weigh
    Attributions.write_finding Attributions.write_attribution Attributions.fulfil_if update_case
    Attributions.feedback_if Attributions.latest_decision
payment_attributed = refl

attribute_recovery-IsRecovered_example :
    (c : RecoveryCase) × ((database waiting_outcome).cases "case-1" ≡ some c)
    × (d : RecoveryCase) × (paid_database.cases "case-1" ≡ some d)
    × IsRecovered payment c d
attribute_recovery-IsRecovered_example =
    attribute_recovery-IsRecovered spell "at-1" payment (some windows) (database waiting_outcome)
      paid paid_database payment_attributed

attribute_recovery-once_example :
    attribute_recovery spell "at-2" payment (some windows) paid_database ≡ err case_terminal
attribute_recovery-once_example =
    attribute_recovery-once spell spell "at-1" "at-2" payment payment (some windows) (some windows)
      (database waiting_outcome) paid paid_database payment_attributed refl

abbrev an_execution : ExecutionRow
an_execution = record {
  id = "e-1";
  case_id = "case-1";
  action_id = "a-1";
  attempt = 1;
  status = succeeded;
  provider_reference = "pay-1";
  completed_at = noon;
  scheduled_action_id = "s-1";
  idempotency_key = "k-1";
  failure_class = "";
  retryable = false;
}

abbrev an_action : ActionRow
an_action = record {
  id = "a-1";
  case_id = "case-1";
  action_type = send_reminder;
  status = action_executed_;
  idempotency_key = "k-1";
  scheduled_at = noon;
  updated_at = noon;
}

-- The payment of a link that was sent, for a case with a promise.
abbrev busy_database : Database
busy_database = record promised_database {
  executions = an_execution ∷ [];
  actions = an_action ∷ [];
}
