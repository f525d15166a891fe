-- ===== src/Store/Promises/Outcomes.antt =====
-- How a promise ends: `transitionPromiseTx`, `resolvePromise` and `CancelPromise` of
-- backend/internal/store/promises.go.
use razorpay_ai_revenue_reco.Base.{
  ℕ, suc, String, ◌+◌, Bool, true, false, ◌&&◌, not, Option, none, some, List, [], ◌∷◌, str_eq,
}
use razorpay_ai_revenue_reco.Base.Tests.{ltb, if◌then◌else◌}
use razorpay_ai_revenue_reco.Base.Lists.{length, keep}
use razorpay_ai_revenue_reco.Base.Clock.{Time, after}
use razorpay_ai_revenue_reco.Domain.States.{
  CaseState, action_pending, waiting_outcome, reassessing, recovered, escalated, state_eq,
}
use razorpay_ai_revenue_reco.Domain.Events.{
  EventType, state_transitioned, promise_fulfilled, promise_broken, promise_expired,
  promise_cancelled, unlisted,
}
use razorpay_ai_revenue_reco.Domain.Entities.{
  Float64, bits, PromiseToPay, PromiseStatus, active, fulfilled, broken, expired, cancelled,
  is_active,
}
use razorpay_ai_revenue_reco.Store.Rows.{
  PromiseCheck, CheckStatus, check_pending, check_claimed, check_completed, check_cancelled,
  PromiseEvent, CustomerProfileRow,
}
use razorpay_ai_revenue_reco.Store.Tables.{
  Tx, ok, err, ◌>>=◌, ◌>>◌, pure, demand, lock_row, update_case, move, record_events, draft,
  system_actor, Draft, conflict, no_rows, invalid_promise_transition, invalid_outcome,
}
use razorpay_ai_revenue_reco.Store.Promises.{find_promise, insert_promise_event}
use razorpay_ai_revenue_reco.Store.Promises.Checks.{update_checks}

unfoldable pub update_promises :
    String → (PromiseToPay → PromiseToPay) → List PromiseToPay → List PromiseToPay
update_promises id f [] = []
update_promises id f (p ∷ ps) = (if str_eq p.id id then f p else p) ∷ update_promises id f ps

-- The columns that the transition sets, and the fields of the promise that it returns.
unfoldable pub resolve : PromiseStatus → Time → String → PromiseToPay → PromiseToPay
resolve fulfilled now ref p = record p {
  status = fulfilled;
  resolved_at = some now;
  verification_reference = ref;
  fulfilled_at = some now;
}
resolve broken now ref p = record p {
  status = broken;
  resolved_at = some now;
  verification_reference = ref;
  broken_at = some now;
}
resolve expired now ref p = record p {
  status = expired;
  resolved_at = some now;
  verification_reference = ref;
  expired_at = some now;
}
resolve cancelled now ref p = record p {
  status = cancelled;
  resolved_at = some now;
  verification_reference = ref;
  cancelled_at = some now;
}
resolve active now ref p = p

outcome_event : PromiseStatus → EventType
outcome_event fulfilled = promise_fulfilled
outcome_event broken = promise_broken
outcome_event expired = promise_expired
outcome_event cancelled = promise_cancelled
outcome_event active = unlisted ""

abbrev pub write_outcome : String → (PromiseToPay → PromiseToPay) → Tx (Unit {0})
write_outcome id f db = ok (tt, record db { promises = update_promises id f db.promises })

unfoldable pub change_event : PromiseToPay → PromiseStatus → String → String → Time → PromiseEvent
change_event p target reason correlation now = record {
  promise_id = p.id;
  case_id = p.case_id;
  from_status = some p.status;
  to_status = target;
  reason_code = reason;
  occurred_at = now;
  correlation_id = correlation;
}

unfoldable pub change_draft : PromiseStatus → String → Time → Draft
unfolding outcome_event
change_draft target correlation now =
    draft (outcome_event target) now (system_actor "promise-engine-v1") correlation

-- `transitionPromiseTx`
unfoldable pub transition_promise_tx :
    PromiseToPay → PromiseStatus → String → String → String → Time → Tx PromiseToPay
transition_promise_tx p target reason correlation ref now =
    demand (is_active p.status) conflict
    >> demand (not (is_active target)) invalid_promise_transition
    >> write_outcome p.id (resolve target now ref)
    >> insert_promise_event (change_event p target reason correlation now)
    >> record_events p.case_id (change_draft target correlation now ∷ [])
    >> pure (resolve target now ref p)

unfoldable pub or_no_promise : Option PromiseToPay → Tx PromiseToPay
or_no_promise none db = err no_rows
or_no_promise (some p) db = ok (p, db)

-- `SELECT … FROM promises_to_pay WHERE id=$1 FOR UPDATE`
unfoldable pub lock_promise : String → Tx PromiseToPay
unfolding or_no_promise
lock_promise id db = or_no_promise (find_promise id db.promises) db

unfoldable pub count_of : String → PromiseStatus → List PromiseToPay → ℕ
count_of customer st ps = length (keep (λ p. str_eq p.customer_id customer && same p.status st) ps)
  where
    same : PromiseStatus → PromiseStatus → Bool
    same fulfilled fulfilled = true
    same broken broken = true
    same _ _ = false

later_profile : CustomerProfileRow → Option CustomerProfileRow → CustomerProfileRow
later_profile r none = r
later_profile r (some t) = if ltb r.version t.version then t else r

-- `ORDER BY version DESC LIMIT 1`
unfoldable pub latest_profile : String → List CustomerProfileRow → Option CustomerProfileRow
unfolding later_profile
latest_profile customer [] = none
latest_profile customer (r ∷ rs) =
    let rest = latest_profile customer rs in
    if str_eq r.customer_id customer then some (later_profile r rest) else rest

-- The zero values of the source where the customer has no profile.
unfoldable pub next_profile :
    String → Float64 → Time → Option CustomerProfileRow → CustomerProfileRow
next_profile customer reliability now none = record {
  customer_id = customer;
  successful_payments = 0;
  failed_payments = 0;
  subscription_tenure_days = 0;
  promise_reliability = reliability;
  fatigue_score = bits 0;
  features = "{}";
  version = 1;
  updated_at = now;
}
next_profile customer reliability now (some r) = record r {
  customer_id = customer;
  promise_reliability = reliability;
  version = suc r.version;
  updated_at = now;
}

-- `updatePromiseReliability`; `ratio a b` is the float64 quotient of two integers.
unfoldable pub update_reliability : (ℕ → ℕ → Float64) → String → Time → Tx (Unit {0})
unfolding count_of latest_profile next_profile
update_reliability ratio customer now db =
    let kept = count_of customer fulfilled db.promises in
    let missed = count_of customer broken db.promises in
    let row =
      next_profile customer (ratio (suc kept) (kept + missed + 2)) now
        (latest_profile customer db.profiles) in
    ok (tt, record db { profiles = row ∷ db.profiles })

-- The target, the reason and the reference of `resolvePromise`.
pub record Outcome : Type 0 where
  pub target : PromiseStatus
  pub reason : String
  pub reference : String

-- `none` is the empty `forcedOutcome`.
unfoldable pub outcome_of : Option PromiseStatus → CaseState → Time → Time → Outcome
outcome_of (some st) state deadline now = record {
  target = st;
  reason = "DEMO_OUTCOME_SIMULATION";
  reference = "demo-control";
}
outcome_of none state deadline now =
    if state_eq state recovered
    then record { target = fulfilled; reason = "CASE_RECOVERED"; reference = "case-state" }
    else if not (after deadline now)
    then record { target = expired; reason = "RECOVERY_WINDOW_EXPIRED"; reference = "" }
    else record { target = broken; reason = "PAYMENT_NOT_OBSERVED"; reference = "" }

abbrev pub finish_checks : (PromiseCheck → Bool) → (PromiseCheck → PromiseCheck) → Tx (Unit {0})
finish_checks p f db = ok (tt, record db { promise_checks = update_checks p f db.promise_checks })

unfoldable pub complete_check : Time → PromiseStatus → PromiseCheck → PromiseCheck
complete_check now target c = record c {
  status = check_completed;
  completed_at = some now;
  result = some target;
  lease_owner = none;
  lease_expires_at = none;
}

unfoldable pub reopens : PromiseStatus → CaseState → Bool
reopens broken waiting_outcome = true
reopens broken escalated = true
reopens _ _ = false

-- A broken promise hands a waiting case back to the decision.
unfoldable pub reopen : Bool → String → String → Time → Tx (Unit {0})
reopen true id correlation now =
    update_case id (move reassessing now)
    >> update_case id (move action_pending now)
    >> record_events id (moved ∷ moved ∷ [])
  where
    moved : Draft
    moved = draft state_transitioned now (system_actor "promise-engine-v1") correlation
reopen false id correlation now = pure tt

unfoldable pub counts_for_reliability : PromiseStatus → Bool
counts_for_reliability fulfilled = true
counts_for_reliability broken = true
counts_for_reliability _ = false

unfoldable pub reliability_if : Bool → (ℕ → ℕ → Float64) → String → Time → Tx (Unit {0})
reliability_if true ratio customer now = update_reliability ratio customer now
reliability_if false ratio customer now = pure tt

-- `resolvePromise` for the rows that it has locked; `correlation` is made from the promise.
unfoldable pub resolve_with :
    (ℕ → ℕ → Float64) → String → PromiseToPay → CaseState → Outcome → Time → Tx PromiseToPay
resolve_with ratio correlation p state o now =
    transition_promise_tx p o.target o.reason correlation o.reference now >>= λ resolved.
    finish_checks (λ c. str_eq c.promise_id p.id) (complete_check now o.target)
    >> reopen (reopens o.target state) p.case_id correlation now
    >> reliability_if (counts_for_reliability o.target) ratio p.customer_id now
    >> pure resolved

unfoldable pub resolve_promise :
    (ℕ → ℕ → Float64) → String → String → Option PromiseStatus → Time → Tx PromiseToPay
resolve_promise ratio correlation id forced now = lock_promise id >>= λ p.
    demand (is_active p.status) conflict >> lock_row p.case_id >>= λ c.
    resolve_with ratio correlation p c.current_state
      (outcome_of forced c.current_state c.recovery_deadline now) now

-- `ResolvePromiseForDemo`
unfoldable pub resolve_for_demo :
    (ℕ → ℕ → Float64) → String → String → PromiseStatus → Time → Tx PromiseToPay
resolve_for_demo ratio correlation id outcome now =
    demand (counts_for_reliability outcome) invalid_outcome
    >> resolve_promise ratio correlation id (some outcome) now

is_unfinished : CheckStatus → Bool
is_unfinished check_pending = true
is_unfinished check_claimed = true
is_unfinished _ = false

unfoldable pub cancel_check : Time → PromiseCheck → PromiseCheck
cancel_check now c = record c {
  status = check_cancelled;
  completed_at = some now;
  result = some cancelled;
}

-- `CancelPromise`, which is `transitionPromise` for one target.
unfoldable pub cancel_promise : String → String → Time → Tx PromiseToPay
unfolding is_unfinished
cancel_promise id correlation now = lock_promise id >>= λ p.
    transition_promise_tx p cancelled "EXPLICIT_CANCELLATION" correlation "" now >>= λ resolved.
    finish_checks (λ c. str_eq c.promise_id id && is_unfinished c.status) (cancel_check now)
    >> pure resolved
