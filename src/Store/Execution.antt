-- ===== src/Store/Execution.antt =====
-- The execution of a claimed schedule, in backend/internal/store/workflow.go: `MarkExecuting`,
-- `CompleteExecution` and `MarkSuppressed`.
use razorpay_ai_revenue_reco.Base.{
  ℕ, zero, suc, String, ◌+◌, ◌*◌, ◌^◌, Bool, true, false, ◌&&◌, Option, none, some, List, [], ◌∷◌,
  str_eq,
}
use razorpay_ai_revenue_reco.Base.Tests.{ltb, if◌then◌else◌}
use razorpay_ai_revenue_reco.Base.Lists.{any}
use razorpay_ai_revenue_reco.Base.Clock.{Time}
use razorpay_ai_revenue_reco.Domain.States.{
  CaseState, action_pending, scheduled, executing, waiting_outcome, reassessing, state_eq,
}
use razorpay_ai_revenue_reco.Domain.Events.{action_executed, action_failed, action_suppressed}
use razorpay_ai_revenue_reco.Domain.Entities.{RecoveryCase}
use razorpay_ai_revenue_reco.Store.Decisions.{day}
use razorpay_ai_revenue_reco.Store.Tables.{
  conflict, Tx, ok, ◌>>=◌, ◌>>◌, pure, demand, lock_row, update_case, move, record_events, draft,
  worker_actor, has_id, update_schedules, Draft, ScheduledAction, ScheduleStatus, pending, claimed,
  executing_, retry_pending, observation_pending, failed, superseded, ActionRow, ActionStatus,
  action_executed_, action_failed_, ExecutionRow, ExecutionStatus, succeeded, outcome_pending,
  execution_failed,
}

-- What the provider's executor returns; `other_status` is any other status string.
pub data ResultStatus : Type 0 where
  result_succeeded result_outcome_pending : ResultStatus
  other_status : String → ResultStatus

pub record ExecutorResult : Type 0 where
  pub execution_id : String
  pub status : ResultStatus
  pub provider_reference : String
  pub failure_class : String
  pub retryable : Bool

unfoldable pub status_of : ResultStatus → ExecutionStatus
status_of result_succeeded = succeeded
status_of result_outcome_pending = outcome_pending
status_of (other_status s) = execution_failed

unfoldable pub is_failed : ExecutionStatus → Bool
is_failed execution_failed = true
is_failed _ = false

unfoldable pub is_claimed : ScheduleStatus → Bool
is_claimed claimed = true
is_claimed _ = false

keep_first_start : Time → Option Time → Option Time
keep_first_start now none = some now
keep_first_start now (some t) = some t

unfoldable pub begin : Time → ScheduledAction → ScheduledAction
unfolding keep_first_start
begin now s = record s { status = executing_; started_at = keep_first_start now s.started_at }

abbrev pub any_schedule : (ScheduledAction → Bool) → Tx Bool
any_schedule p db = ok (any p db.schedules, db)

-- The first attempt advances SCHEDULED -> EXECUTING.
unfoldable pub start_if : Bool → ScheduledAction → Time → ℕ → Tx (Unit {0})
start_if true s now version =
    update_case s.case_id (move executing now)
    >> update_schedules (has_id s.id) (λ r. record r { case_version_at_schedule = suc version })
start_if false s now version = pure tt

unfoldable pub start_case : ScheduledAction → Time → RecoveryCase → Tx (Unit {0})
unfolding start_if
start_case s now c = start_if (state_eq c.current_state scheduled) s now c.version

unfoldable pub mark_executing : ScheduledAction → Time → Tx (Unit {0})
mark_executing s now = any_schedule matches >>= λ found.
    update_schedules matches (begin now)
    >> demand found conflict
    >> lock_row s.case_id
    >>= start_case s now
  where
    matches : ScheduledAction → Bool
    matches r = has_id s.id r && is_claimed r.status

-- `attempt := min(scheduled.AttemptCount-1, 6)`, and `1<<attempt` minutes. The attempt is at
-- least 1, since `ClaimDue` has counted it.
unfoldable pub capped : ℕ → ℕ
capped n = if ltb n 6 then n else 6

unfoldable pub pred : ℕ → ℕ
pred zero = zero
pred (suc n) = n

unfoldable pub retry_delay : ℕ → ℕ
unfolding capped pred
retry_delay attempt = 2 ^ capped (pred attempt) * (60 * 1000000000)

abbrev pub add_execution : ExecutionRow → Tx (Unit {0})
add_execution e db = ok (
  tt,
  record db {
    executions =
        if any (λ f. str_eq f.idempotency_key e.idempotency_key) db.executions
        then db.executions
        else e ∷ db.executions;
  },
)

unfoldable pub set_action : String → ActionStatus → Time → List ActionRow → List ActionRow
set_action id st now [] = []
set_action id st now (a ∷ as_) =
    (if str_eq a.id id then record a { status = st; updated_at = now } else a)
    ∷ set_action id st now as_

unfoldable pub update_action : String → ActionStatus → Time → Tx (Unit {0})
unfolding set_action
update_action id st now db = ok (tt, record db { actions = set_action id st now db.actions })

-- `NULLIF($4,'')`
null_if_empty : String → Option String
null_if_empty s = if str_eq s "" then none else some s

unfoldable pub postpone : ScheduledAction → ExecutorResult → Time → Tx (Unit {0})
unfolding retry_delay
postpone s r now = update_schedules (has_id s.id) (λ row. record row {
  status = retry_pending;
  next_retry_at = some (now + retry_delay s.attempt_count);
  lease_owner = none;
  lease_expires_at = none;
  failure_reason = some r.failure_class;
})

unfoldable pub finish : ScheduledAction → ExecutorResult → Bool → Time → Tx (Unit {0})
unfolding null_if_empty
finish s r failure now = update_schedules (has_id s.id) (λ row. record row {
  status = if failure then failed else observation_pending;
  completed_at = some now;
  next_retry_at = if failure then none else some (now + day);
  lease_owner = none;
  lease_expires_at = none;
  failure_reason = null_if_empty r.failure_class;
})

unfoldable pub move_on : Bool → String → Time → CaseState → Tx (Unit {0})
move_on true id now executing =
    update_case id (move reassessing now) >> update_case id (move action_pending now)
move_on false id now executing = update_case id (move waiting_outcome now)
move_on failure id now _ = pure tt

unfoldable pub settled_event : Bool → Time → String → Draft
settled_event failure now id =
    draft (if failure then action_failed else action_executed) now
      (worker_actor "durable-worker-v1") id

-- The rest of `CompleteExecution` where no retry is scheduled.
unfoldable pub settle : ScheduledAction → ExecutorResult → Bool → Time → Tx (Unit {0})
unfolding finish update_action settled_event
settle s r failure now =
    finish s r failure now
    >> update_action s.recovery_action_id (if failure then action_failed_ else action_executed_) now
    >> lock_row s.case_id
    >>= λ c.
        move_on failure s.case_id now c.current_state
        >> record_events s.case_id (settled_event failure now s.id ∷ [])

unfoldable pub retry_or_settle :
    Bool → ScheduledAction → ExecutorResult → Bool → Time → Tx (Unit {0})
unfolding postpone
retry_or_settle true s r failure now = postpone s r now
retry_or_settle false s r failure now = settle s r failure now

unfoldable pub wants_retry : ScheduledAction → ExecutorResult → Bool
wants_retry s r =
    is_failed (status_of r.status) && r.retryable && ltb s.attempt_count s.max_attempts

-- `key` formats the idempotency key and the attempt.
unfoldable pub complete_execution :
    (String → ℕ → String) → ScheduledAction → ExecutorResult → Time → Tx (Unit {0})
complete_execution key s r now =
    add_execution (record {
      id = r.execution_id;
      case_id = s.case_id;
      action_id = s.recovery_action_id;
      attempt = s.attempt_count;
      status = status_of r.status;
      provider_reference = r.provider_reference;
      completed_at = now;
      scheduled_action_id = s.id;
      idempotency_key = key s.idempotency_key s.attempt_count;
      failure_class = r.failure_class;
      retryable = r.retryable;
    })
    >> retry_or_settle (wants_retry s r) s r (is_failed (status_of r.status)) now

unfoldable pub is_open : ScheduleStatus → Bool
is_open claimed = true
is_open pending = true
is_open retry_pending = true
is_open _ = false

unfoldable pub suppress : Time → String → ScheduledAction → ScheduledAction
suppress now reason s = record s {
  status = superseded;
  failure_reason = some reason;
  completed_at = some now;
  lease_owner = none;
  lease_expires_at = none;
}

unfoldable pub mark_suppressed : ScheduledAction → String → Time → Tx (Unit {0})
unfolding suppress
mark_suppressed s reason now =
    update_schedules (λ r. has_id s.id r && is_open r.status) (suppress now reason)
    >> record_events s.case_id
        (draft action_suppressed now (worker_actor "durable-worker-v1") s.id ∷ [])
