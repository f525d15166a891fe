-- ===== src/Store/Decisions.antt =====
-- From a decision to its schedule: `PrepareForDecision` and `SaveDecisionAndSchedule` of
-- backend/internal/store/decision_workflow.go, `saveDecisionTx` of decisions.go and
-- `scheduleDecisionTx` of workflow.go. Identifiers from `id.New` are arguments.
use razorpay_ai_revenue_reco.Base.{
  ℕ, suc, String, ◌+◌, ◌*◌, Bool, true, false, ◌&&◌, not, Option, none, some, List, [], ◌∷◌,
}
use razorpay_ai_revenue_reco.Base.Tests.{◌==◌, if◌then◌else◌}
use razorpay_ai_revenue_reco.Base.Clock.{Time}
use razorpay_ai_revenue_reco.Domain.Actions.{ActionType, retry_later, wait, action_eq}
use razorpay_ai_revenue_reco.Domain.States.{
  CaseState, detected, diagnosing, action_pending, policy_review, scheduled, reassessing, state_eq,
  can_transition, escalated, stopped, is_valid, is_terminal,
}
use razorpay_ai_revenue_reco.Domain.Events.{
  EventType, diagnosis_started, diagnosis_completed, state_transitioned, action_scheduled,
  decision_created, economic_gate_allowed, economic_gate_blocked, policy_approved, policy_denied,
  policy_escalated, case_stopped, policy_evaluated, human_review_requested,
}
use razorpay_ai_revenue_reco.Domain.Entities.{RecoveryCase}
use razorpay_ai_revenue_reco.Gate.{GateDecision, allow}
use razorpay_ai_revenue_reco.Policy.Tally.{Decision, approve, deny, escalate, stop}
use razorpay_ai_revenue_reco.Store.Tables.{
  conflict, invalid_configured_transition, blocked_decision, Tx, ok, ◌>>=◌, ◌>>◌, pure, fail,
  demand, lock_case, update_case_if, move, insert_event, next_sequence, record_events, draft,
  system_actor, Snapshot, ScheduledAction, pending, ActionRow, action_scheduled_, Draft,
}

-- One entry of `targets`.
pub record Target : Type 0 where
  pub from_state : CaseState
  pub to_state : CaseState
  pub event_type : EventType

target : CaseState → CaseState → EventType → Target
target from to t = record { from_state = from; to_state = to; event_type = t }

-- The switch on the state: `none` is its default.
unfoldable pub decision_targets : CaseState → Option (List Target)
unfolding target
decision_targets detected = some (
    target detected diagnosing diagnosis_started
    ∷ target diagnosing action_pending diagnosis_completed
    ∷ [])
decision_targets diagnosing = some (target diagnosing action_pending diagnosis_completed ∷ [])
decision_targets reassessing = some (target reassessing action_pending state_transitioned ∷ [])
decision_targets action_pending = some []
decision_targets _ = none

unfoldable pub is_row : CaseState → ℕ → RecoveryCase → Bool
is_row s v c = state_eq c.current_state s && (c.version == v)

-- The loop over the targets. `correlation` formats the case and the version.
unfoldable pub advance : (String → ℕ → String) → String → Time → ℕ → ℕ → List Target → Tx (Unit {0})
advance correlation id now sequence version [] = pure tt
advance correlation id now sequence version (t ∷ ts) =
    demand (can_transition t.from_state t.to_state) invalid_configured_transition
    >> update_case_if id (is_row t.from_state version) (move t.to_state now)
    >> insert_event id sequence
        (draft t.event_type now (system_actor "decision-lifecycle-v1") (correlation id version))
    >> advance correlation id now (suc sequence) (suc version) ts

unfoldable pub advance_to :
    (String → ℕ → String) → String → Time → ℕ → Option (List Target) → Tx (Unit {0})
unfolding advance
advance_to correlation id now version none = fail conflict
advance_to correlation id now version (some []) = pure tt
advance_to correlation id now version (some (t ∷ ts)) =
    next_sequence id >>= λ n. advance correlation id now n version (t ∷ ts)

unfoldable pub prepare_for_decision : (String → ℕ → String) → String → Time → Tx (Unit {0})
unfolding advance_to decision_targets
prepare_for_decision correlation id now =
    lock_case id >>= λ c. advance_to correlation id now c.version (decision_targets c.current_state)

abbrev pub add_snapshot : Snapshot → Tx (Unit {0})
add_snapshot s db = ok (tt, record db { decisions = s ∷ db.decisions })

unfoldable pub gate_event : GateDecision → EventType
gate_event allow = economic_gate_allowed
gate_event _ = economic_gate_blocked

-- `policyEvent`.
unfoldable pub policy_event : Decision → EventType
policy_event approve = policy_approved
policy_event deny = policy_denied
policy_event escalate = policy_escalated
policy_event stop = case_stopped

review_events : Decision → Draft → List Draft
review_events escalate e = e ∷ []
review_events _ e = []

unfoldable pub decision_events : Snapshot → List Draft
unfolding gate_event policy_event review_events
decision_events s =
    draft decision_created s.created_at (system_actor s.optimizer_version) s.decision_id
    ∷ draft (gate_event s.gate.decision) s.gate.created_at (system_actor s.gate.gate_version)
        s.decision_id
    ∷ by_policy policy_evaluated
    ∷ by_policy (policy_event s.policy.decision)
    ∷ review_events s.policy.decision (by_policy human_review_requested)
  where
    by_policy : EventType → Draft
    by_policy t =
        draft t s.policy.created_at (record { type_ = "POLICY"; id = s.policy.policy_version })
          s.decision_id

-- `NOT(current_state IN('RECOVERED','EXHAUSTED','STOPPED')) AND version=$3`, where the column holds
-- one of the twelve states, by its constraint in infra/migrations.
unfoldable pub is_live : ℕ → RecoveryCase → Bool
is_live v c = is_valid c.current_state && not (is_terminal c.current_state) && (c.version == v)

-- The state that the verdict calls for; the flag is `!currentState.IsTerminal()`.
unfoldable pub close_case : Decision → Bool → Snapshot → Tx (Unit {0})
close_case escalate live s =
    update_case_if s.case_id (is_row action_pending s.case_version)
      (move escalated s.policy.created_at)
    >> pure tt
close_case stop true s =
    update_case_if s.case_id (is_live s.case_version) (move stopped s.policy.created_at) >> pure tt
close_case _ live s = pure tt

-- `saveDecisionTx`, whose five kinds of row are one snapshot.
unfoldable pub save_decision : Snapshot → Tx (Unit {0})
save_decision s = lock_case s.case_id >>= λ c.
    demand (c.version == s.case_version) conflict
    >> add_snapshot s
    >> record_events s.case_id (decision_events s)
    >> close_case s.policy.decision (not (is_terminal c.current_state)) s

-- `24 * time.Hour`
unfoldable pub day : ℕ
day = 24 * 60 * 60 * 1000000000

abbrev pub add_action : ActionRow → Tx (Unit {0})
add_action a db = ok (tt, record db { actions = a ∷ db.actions })

abbrev pub add_schedule : ScheduledAction → Tx (Unit {0})
add_schedule s db = ok (tt, record db { schedules = s ∷ db.schedules })

-- The two identifiers that `id.New` returns, and the key made from the second.
pub record FreshIds : Type 0 where
  pub action_id : String
  pub scheduled_id : String
  pub idempotency_key : String

-- The row that is inserted and returned.
unfoldable pub new_schedule : FreshIds → Time → Time → ℕ → Snapshot → ScheduledAction
new_schedule ids now due v s = record {
  id = ids.scheduled_id;
  case_id = s.case_id;
  decision_id = s.decision_id;
  policy_evaluation_id = s.policy.id;
  recovery_action_id = ids.action_id;
  action = s.selected.action;
  scheduled_for = due;
  status = pending;
  attempt_count = 0;
  max_attempts = 3;
  idempotency_key = ids.idempotency_key;
  case_version_at_schedule = v;
  next_retry_at = none;
  lease_owner = none;
  lease_expires_at = none;
  started_at = none;
  completed_at = none;
  failure_reason = none;
}

unfoldable pub due_time : Time → ActionType → Time
unfolding day
due_time now a = if action_eq a retry_later then now + day else now

unfoldable pub scheduler_event : FreshIds → Time → EventType → Draft
scheduler_event ids now t = draft t now (system_actor "durable-scheduler-v1") ids.scheduled_id

unfoldable pub new_action : FreshIds → Time → Snapshot → ActionRow
new_action ids now s = record {
  id = ids.action_id;
  case_id = s.case_id;
  action_type = s.selected.action;
  status = action_scheduled_;
  idempotency_key = ids.idempotency_key;
  scheduled_at = due_time now s.selected.action;
  updated_at = now;
}

unfoldable pub insert_schedule : FreshIds → Time → Snapshot → ScheduledAction → Tx ScheduledAction
insert_schedule ids now s row =
    add_schedule row
    >> record_events s.case_id (
        scheduler_event ids now state_transitioned
        ∷ scheduler_event ids now state_transitioned
        ∷ scheduler_event ids now action_scheduled
        ∷ [])
    >> pure row

-- `scheduleDecisionTx` after its guards, for the version that it has read.
unfoldable pub schedule_writes : FreshIds → Time → Snapshot → ℕ → Tx ScheduledAction
schedule_writes ids now s v =
    add_action (new_action ids now s)
    >> update_case_if s.case_id (is_row action_pending v) (move policy_review now)
    >> update_case_if s.case_id (is_row policy_review (suc v)) (move scheduled now)
    >> insert_schedule ids now s
        (new_schedule ids now (due_time now s.selected.action) (suc (suc v)) s)

-- `scheduleDecisionTx`.
unfoldable pub schedule_decision : FreshIds → Time → Snapshot → Tx ScheduledAction
schedule_decision ids now s = lock_case s.case_id >>= λ c.
    demand (state_eq c.current_state action_pending && (c.version == s.case_version)) conflict
    >> schedule_writes ids now s c.version

unfoldable pub decision_is_approve : Decision → Bool
decision_is_approve approve = true
decision_is_approve _ = false

unfoldable pub gate_is_allow : GateDecision → Bool
gate_is_allow allow = true
gate_is_allow _ = false

-- The end of `SaveDecisionAndSchedule`: `none` is the nil schedule.
abbrev pub schedule_if : Bool → Bool → Bool → Tx ScheduledAction → Tx (Option ScheduledAction)
schedule_if false allowed waits m = pure none
schedule_if true false waits m = fail blocked_decision
schedule_if true true true m = pure none
schedule_if true true false m = m >>= λ s. pure (some s)

unfoldable pub save_decision_and_schedule : FreshIds → Time → Snapshot → Tx (Option ScheduledAction)
save_decision_and_schedule ids now s =
    save_decision s
    >> schedule_if (decision_is_approve s.policy.decision) (gate_is_allow s.gate.decision)
        (action_eq s.selected.action wait) (schedule_decision ids now s)
