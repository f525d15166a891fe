-- ===== src/Store/Observation.antt =====
-- `PrepareReassessment` of backend/internal/store/workflow.go: what follows the observation
-- period of an executed action.
use razorpay_ai_revenue_reco.Base.{String, Bool, true, false, ◌&&◌, none, [], ◌∷◌}
use razorpay_ai_revenue_reco.Base.Tests.{if◌then◌else◌}
use razorpay_ai_revenue_reco.Base.Clock.{Time, after}
use razorpay_ai_revenue_reco.Domain.States.{
  CaseState, action_pending, waiting_outcome, reassessing, exhausted,
}
use razorpay_ai_revenue_reco.Domain.Events.{outcome_observed}
use razorpay_ai_revenue_reco.Store.Tables.{
  Tx, ◌>>=◌, ◌>>◌, pure, lock_row, update_case, move, record_events, draft, worker_actor, Draft,
  has_id, update_schedules, ScheduledAction, ScheduleStatus, observation_claimed, observed,
}

unfoldable pub reassess : Bool → String → Time → CaseState → Tx Bool
reassess in_window id now waiting_outcome =
    if in_window
    then (update_case id (move reassessing now)
        >> update_case id (move action_pending now)
        >> pure true)
    else (update_case id (move exhausted now) >> pure false)
reassess in_window id now _ = pure false

unfoldable pub is_observation_claimed : ScheduleStatus → Bool
is_observation_claimed observation_claimed = true
is_observation_claimed _ = false

unfoldable pub close : ScheduledAction → ScheduledAction
close s = record s { status = observed; lease_owner = none; lease_expires_at = none }

observation_event : Time → ScheduledAction → Draft
observation_event now s = draft outcome_observed now (worker_actor "outcome-observer-v1") s.id

unfoldable pub observe : ScheduledAction → Time → Bool → Tx Bool
unfolding close observation_event
observe s now ready =
    update_schedules (λ r. has_id s.id r && is_observation_claimed r.status) close
    >> record_events s.case_id (observation_event now s ∷ [])
    >> pure ready

-- The result is `ready`; the outcome stands in the payload of the event only.
unfoldable pub prepare_reassessment : ScheduledAction → Time → Tx Bool
prepare_reassessment s now = lock_row s.case_id >>= λ c.
    reassess (after c.recovery_deadline now) s.case_id now c.current_state >>= observe s now
