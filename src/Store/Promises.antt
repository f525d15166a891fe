-- ===== src/Store/Promises.antt =====
-- Promises to pay: backend/internal/store/promises.go. Identifiers from `id.New` are arguments;
-- payloads are left out. The inserts fail where they break a unique key of infra/migrations.
pub mod Checks
pub mod Lifecycle
pub mod Outcomes
pub mod Endings
pub mod Table
pub mod Writes
pub mod Histories
use razorpay_ai_revenue_reco.Base.{
  ℕ, suc, String, ◌+◌, Bool, true, false, ◌&&◌, ◌||◌, not, Option, none, some, List, [], ◌∷◌,
  str_eq, ◌++◌,
}
use razorpay_ai_revenue_reco.Base.Tests.{◌==◌, ltb, leb, ltb_text, if◌then◌else◌}
use razorpay_ai_revenue_reco.Base.Lists.{any, length, keep, find_first}
use razorpay_ai_revenue_reco.Base.Clock.{Time, after}
use razorpay_ai_revenue_reco.Domain.States.{
  CaseState, action_pending, waiting_outcome, reassessing, recovered, escalated, state_eq,
}
use razorpay_ai_revenue_reco.Domain.Events.{
  EventType, Actor, state_transitioned, promise_created, promise_check_scheduled, promise_fulfilled,
  promise_broken, promise_expired, promise_cancelled, unlisted,
}
use razorpay_ai_revenue_reco.Domain.Entities.{
  Float64, bits, RecoveryCase, PromiseToPay, PromiseStatus, active, fulfilled, broken, expired,
  cancelled, is_active,
}
use razorpay_ai_revenue_reco.Store.Rows.{
  PromiseCheck, CheckStatus, check_pending, check_claimed, check_completed, check_cancelled,
  PromiseEvent, CustomerProfileRow,
}
use razorpay_ai_revenue_reco.Store.Tables.{
  Database, Tx, Result, ok, err, ◌>>=◌, ◌>>◌, pure, fail, demand, lock_case, lock_row, update_case,
  move, record_events, draft, system_actor, Draft, conflict, no_rows, not_found, duplicate_key,
  no_due_promise, invalid_promise_transition, invalid_outcome,
}
use razorpay_ai_revenue_reco.Store.Queue.{lease_over}

abbrev pub has_promise_id : String → PromiseToPay → Bool
has_promise_id id p = str_eq p.id id

unfoldable pub find_promise : String → List PromiseToPay → Option PromiseToPay
find_promise id [] = none
find_promise id (p ∷ ps) = let rest = find_promise id ps in if str_eq p.id id then some p else rest

abbrev pub answers : String → Option String → Bool
answers r none = false
answers r (some q) = str_eq q r

-- The promise of a response, where there is one.
unfoldable pub find_answer : Option String → List PromiseToPay → Option PromiseToPay
find_answer none ps = none
find_answer (some r) ps = find_first (λ p. answers r p.source_response_id) ps

unfoldable pub is_open : String → PromiseToPay → Bool
unfolding is_active
is_open case_id p = str_eq p.case_id case_id && is_active p.status

abbrev pub insert_row : PromiseToPay → Tx (Unit {0})
insert_row p db = ok (tt, record db { promises = p ∷ db.promises })

-- The keys of `promises_to_pay`: the identifier, and one active promise of a case.
unfoldable pub is_free : PromiseToPay → List PromiseToPay → Bool
unfolding is_open
is_free p ps = not (any (has_promise_id p.id) ps) && not (any (is_open p.case_id) ps)

unfoldable pub insert_promise : PromiseToPay → Tx (Unit {0})
insert_promise p db = (demand (is_free p db.promises) duplicate_key >> insert_row p) db

abbrev pub insert_check_row : PromiseCheck → Tx (Unit {0})
insert_check_row c db = ok (tt, record db { promise_checks = c ∷ db.promise_checks })

unfoldable pub insert_check : PromiseCheck → Tx (Unit {0})
insert_check c db =
    (demand
          (not (any (λ d. str_eq d.id c.id || str_eq d.promise_id c.promise_id) db.promise_checks))
          duplicate_key
        >> insert_check_row c)
      db

abbrev pub insert_event_row : PromiseEvent → Tx (Unit {0})
insert_event_row e db = ok (tt, record db { promise_events = e ∷ db.promise_events })

unfoldable pub insert_promise_event : PromiseEvent → Tx (Unit {0})
insert_promise_event e db =
    (demand
          (not (
            any (λ f. str_eq f.promise_id e.promise_id && str_eq f.correlation_id e.correlation_id)
              db.promise_events))
          duplicate_key
        >> insert_event_row e)
      db

-- The row of a new promise; the columns that the statement leaves out are NULL.
unfoldable pub new_row : PromiseToPay → PromiseToPay
new_row p = record p {
  status = active;
  resolved_at = none;
  fulfilled_at = none;
  broken_at = none;
  expired_at = none;
  cancelled_at = none;
  verification_reference = "";
}

unfoldable pub new_check : String → PromiseToPay → PromiseCheck
new_check check_id p = record {
  id = check_id;
  promise_id = p.id;
  case_id = p.case_id;
  scheduled_for = p.due_at;
  status = check_pending;
  attempt_count = 0;
  lease_owner = none;
  lease_expires_at = none;
  completed_at = none;
  result = none;
}

unfoldable pub creation_event : PromiseToPay → String → PromiseEvent
creation_event p correlation = record {
  promise_id = p.id;
  case_id = p.case_id;
  from_status = none;
  to_status = active;
  reason_code = "CUSTOMER_PROMISE_CREATED";
  occurred_at = p.created_at;
  correlation_id = correlation;
}

unfoldable pub creation_drafts : PromiseToPay → String → List Draft
creation_drafts p correlation =
    draft promise_created p.created_at (record { type_ = "CUSTOMER"; id = p.customer_id })
      correlation
    ∷ draft promise_check_scheduled p.created_at (system_actor "promise-worker-v1") correlation
    ∷ []

unfoldable pub write_promise : PromiseToPay → String → String → Tx (PromiseToPay × Bool)
unfolding new_row new_check creation_event creation_drafts
write_promise p check_id correlation =
    insert_promise (new_row p)
    >> insert_check (new_check check_id p)
    >> insert_promise_event (creation_event p correlation)
    >> record_events p.case_id (creation_drafts p correlation)
    >> pure (p, true)

unfoldable pub write_unless :
    Option PromiseToPay → PromiseToPay → String → String → Tx (PromiseToPay × Bool)
write_unless (some old) p check_id correlation = pure (old, false)
write_unless none p check_id correlation = write_promise p check_id correlation

unfoldable pub create_at : PromiseToPay → String → String → RecoveryCase → Tx (PromiseToPay × Bool)
create_at p check_id correlation c db =
    write_unless (find_answer p.source_response_id db.promises)
      (record p { customer_id = c.customer_id }) check_id correlation db

-- `CreatePromise`
unfoldable pub create_promise : PromiseToPay → String → String → Tx (PromiseToPay × Bool)
create_promise p check_id correlation = lock_case p.case_id >>= create_at p check_id correlation

or_not_found : Option PromiseToPay → Tx PromiseToPay
or_not_found none db = err not_found
or_not_found (some p) db = ok (p, db)

-- `GetPromise`
unfoldable pub get_promise : String → Tx PromiseToPay
unfolding or_not_found
get_promise id db = or_not_found (find_promise id db.promises) db
