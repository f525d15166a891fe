-- ===== src/Worker.antt =====
-- The durable worker and the decision coordinator: backend/internal/orchestrator/orchestrator.go.
-- The collaborators that the source takes as interfaces are the fields of `World`. Nothing else is
-- committed while a round runs; what others commit is in Recovery/Runs.antt.
pub mod Authority
use razorpay_ai_revenue_reco.Base.{
  ℕ, suc, String, str_eq, ◌≡◌, ◌*◌, Bool, true, false, not, ◌&&◌, ◌||◌, Option, none, some, List,
  [], ◌∷◌,
}
use razorpay_ai_revenue_reco.Base.Tests.{◌==◌, ltb, if◌then◌else◌}
use razorpay_ai_revenue_reco.Base.Clock.{Time}
use razorpay_ai_revenue_reco.Domain.Actions.{ActionType}
use razorpay_ai_revenue_reco.Domain.States.{recovered, state_eq}
use razorpay_ai_revenue_reco.Context.{DecisionContext, Platform}
use razorpay_ai_revenue_reco.Optimizer.Candidate.{Candidate}
use razorpay_ai_revenue_reco.Gate.{GateResult}
use razorpay_ai_revenue_reco.Policy.Tally.{Decision, approve, deny, stop, escalate, evaluate}
use razorpay_ai_revenue_reco.Store.Tables.{
  Database, StoreError, Result, ok, err, after_tx, Snapshot, ScheduledAction,
}
use razorpay_ai_revenue_reco.Store.Decisions.{
  FreshIds, gate_is_allow, prepare_for_decision, save_decision_and_schedule,
}
use razorpay_ai_revenue_reco.Store.Queue.{claim_due, claim_due_observation}
use razorpay_ai_revenue_reco.Store.Observation.{prepare_reassessment}
use razorpay_ai_revenue_reco.Store.Execution.{
  ExecutorResult, ResultStatus, other_status, mark_executing, complete_execution, mark_suppressed,
}

pub record Authorization : Type 0 where
  pub decision_case_version : ℕ
  pub candidate : Candidate
  pub gate : GateResult
  pub human_approved : Bool

pub record World : Type 0 where
  pub platform : Platform
  -- `ContextProvider.Get` and `Repository.LoadAuthorization`; `none` is an error
  pub context_of : String → Database → Option DecisionContext
  pub authorization_of : String → String → Database → Option Authorization
  -- `Registry.Reconcile`, where `none` is an error or an empty status, and `Registry.Execute`
  pub reconcile : ActionType → String → Option ExecutorResult
  pub execute : ScheduledAction → DecisionContext → ExecutorResult
  -- the key of an execution, and the correlation of a preparation
  pub execution_key : String → ℕ → String
  pub correlation : String → ℕ → String
  -- `DecisionEvaluator.Evaluate`, and the identifiers drawn for what it decides
  pub decision_of : String → Database → Option Snapshot
  pub ids_for : Snapshot → FreshIds
  pub has_reassessor : Bool

pub data RunResult : Type 0 where
  no_work no_context no_authorization : RunResult
  suppressed_for : String → RunResult
  not_started : StoreError → RunResult
  reconciled_with : ExecutorResult → RunResult
  executed : ExecutorResult → RunResult
  not_recorded : ExecutorResult → StoreError → RunResult

-- `2*time.Minute`
abbrev pub lease : ℕ
lease = 2 * 60 * 1000000000

unfoldable pub is_stale : DecisionContext → ScheduledAction → Bool
is_stale ctx s =
    not (ctx.case_.version == s.case_version_at_schedule)
    || state_eq ctx.case_.current_state recovered
    || ctx.payment.already_recovered

unfoldable pub may_run : Decision → Bool → Bool
may_run approve human = true
may_run escalate human = human
may_run _ human = false

unfoldable pub decision_name : Decision → String
decision_name approve = "POLICY_RECHECK_APPROVE"
decision_name deny = "POLICY_RECHECK_DENY"
decision_name stop = "POLICY_RECHECK_STOP"
decision_name escalate = "POLICY_RECHECK_ESCALATE"

-- The gate and the fresh policy: `none`, or the reason to suppress.
unfoldable pub recheck :
    Platform → DecisionContext → ScheduledAction → Authorization → Time → Option String
unfolding decision_name
recheck p ctx s auth now =
    if not (gate_is_allow auth.gate.decision)
    then some "ECONOMIC_GATE_BLOCKED"
    else if may_run fresh auth.human_approved
    then none
    else some (decision_name fresh)
  where
    fresh : Decision
    fresh = (evaluate p ctx s.decision_id ctx.case_.version auth.candidate auth.gate now).decision

-- `DecisionCoordinator.Decide`: the preparation is committed before the evaluation. The clock is
-- read once, where the source reads it again to schedule.
unfoldable pub decide_with :
    World → Time → Result (Unit {0} × Database) → Database → Option Snapshot → Database
decide_with w now (err e) db s = db
decide_with w now (ok r) db none = db
decide_with w now (ok r) db (some s) =
    after_tx db (save_decision_and_schedule (w.ids_for s) now s db)

unfoldable pub decide : World → String → Time → Database → Database
decide w id now db =
    decide_with w now (prepare_for_decision w.correlation id now db) prepared
      (w.decision_of id prepared)
  where
    prepared : Database
    prepared = after_tx db (prepare_for_decision w.correlation id now db)

-- `result.Status == "FAILED"`
unfoldable pub reports_failed : ResultStatus → Bool
reports_failed (other_status s) = str_eq s "FAILED"
reports_failed _ = false

-- What follows the call of the provider.
unfoldable pub record_result :
    World
    → ScheduledAction
    → Time
    → Bool
    → ExecutorResult
    → Result (Unit {0} × Database)
    → Database
    → RunResult × Database
record_result w s later was_called r (err e) db = (not_recorded r e, db)
record_result w s later false r (ok (u, db')) db = (reconciled_with r, db')
record_result w s later true r (ok (u, db')) db = (
  executed r,
  (if reports_failed r.status && not r.retryable && w.has_reassessor
      then decide w s.case_id later db'
      else db'),
)

unfoldable pub start_with :
    World
    → ScheduledAction
    → Time
    → Bool
    → ExecutorResult
    → Result (Unit {0} × Database)
    → Database
    → RunResult × Database
start_with w s later was_called r (err e) db = (not_started e, db)
start_with w s later was_called r (ok (u, db')) db =
    record_result w s later was_called r (complete_execution w.execution_key s r later db') db'

-- The reconciled result of an earlier attempt, or else a call of the provider.
unfoldable pub call_with :
    World
    → DecisionContext
    → ScheduledAction
    → Time
    → Time
    → Option ExecutorResult
    → Database
    → RunResult × Database
call_with w ctx s now later (some r) db = start_with w s later false r (mark_executing s now db) db
call_with w ctx s now later none db =
    start_with w s later true (w.execute s ctx) (mark_executing s now db) db

unfoldable pub earlier_result : World → ScheduledAction → Option ExecutorResult
earlier_result w s = if ltb 1 s.attempt_count then w.reconcile s.action s.idempotency_key else none

-- An error of `MarkSuppressed` is dropped.
unfoldable pub suppress_run : ScheduledAction → String → Time → Database → RunResult × Database
suppress_run s reason now db =
    (suppressed_for reason, after_tx db (mark_suppressed s reason now db))

unfoldable pub checked_run :
    World
    → DecisionContext
    → ScheduledAction
    → Time
    → Time
    → Option String
    → Database
    → RunResult × Database
checked_run w ctx s now later (some reason) db = suppress_run s reason now db
checked_run w ctx s now later none db = call_with w ctx s now later (earlier_result w s) db

unfoldable pub authorized_run :
    World
    → DecisionContext
    → ScheduledAction
    → Time
    → Time
    → Option Authorization
    → Database
    → RunResult × Database
authorized_run w ctx s now later none db = (no_authorization, db)
authorized_run w ctx s now later (some auth) db =
    checked_run w ctx s now later (recheck w.platform ctx s auth now) db

unfoldable pub fresh_run :
    World → DecisionContext → ScheduledAction → Time → Time → Bool → Database → RunResult × Database
fresh_run w ctx s now later true db = suppress_run s "STALE_OR_RECOVERED" now db
fresh_run w ctx s now later false db =
    authorized_run w ctx s now later (w.authorization_of s.decision_id s.policy_evaluation_id db) db

unfoldable pub context_run :
    World → ScheduledAction → Time → Time → Option DecisionContext → Database → RunResult × Database
context_run w s now later none db = (no_context, db)
context_run w s now later (some ctx) db = fresh_run w ctx s now later (is_stale ctx s) db

unfoldable pub claimed_run :
    World → Time → Time → Result (ScheduledAction × Database) → Database → RunResult × Database
claimed_run w now later (err e) db = (no_work, db)
claimed_run w now later (ok (s, db')) db =
    context_run w s now later (w.context_of s.case_id db') db'

-- `RunOnce`, which reads the clock at `now`, and at `later` after the call.
unfoldable pub run_once : World → String → Time → Time → Database → RunResult × Database
run_once w worker now later db = claimed_run w now later (claim_due worker now lease db) db

-- What `RunObservationOnce` comes to; the error of `Reassess` is not told apart.
pub data ObservationResult : Type 0 where
  no_observation nothing_to_do no_reassessor handed_over : ObservationResult
  not_prepared : StoreError → ObservationResult

unfoldable pub hand_over :
    World → ScheduledAction → Time → Bool → Database → ObservationResult × Database
hand_over w s later true db = (handed_over, decide w s.case_id later db)
hand_over w s later false db = (no_reassessor, db)

unfoldable pub prepared_observation :
    World
    → ScheduledAction
    → Time
    → Result (Bool × Database)
    → Database
    → ObservationResult × Database
prepared_observation w s later (err e) db = (not_prepared e, db)
prepared_observation w s later (ok (false, db')) db = (nothing_to_do, db')
prepared_observation w s later (ok (true, db')) db = hand_over w s later w.has_reassessor db'

unfoldable pub claimed_observation_run :
    World
    → Time
    → Time
    → Result (ScheduledAction × Database)
    → Database
    → ObservationResult × Database
claimed_observation_run w now later (err e) db = (no_observation, db)
claimed_observation_run w now later (ok (s, db')) db =
    prepared_observation w s later (prepare_reassessment s now db') db'

unfoldable pub run_observation_once :
    World → String → Time → Time → Database → ObservationResult × Database
run_observation_once w worker now later db =
    claimed_observation_run w now later (claim_due_observation worker now lease db) db
