-- ===== src/Store/Reviews.antt =====
-- The transaction of a human review: `ApplyHumanReview` of backend/internal/store/operations.go.
-- Identifiers from `id.New` are arguments, and so is `json.Valid`.
use razorpay_ai_revenue_reco.Base.{
  ℕ, String, ◌+◌, Bool, true, false, ◌||◌, not, Option, none, some, List, [], ◌∷◌, ◌++◌, str_eq,
}
use razorpay_ai_revenue_reco.Base.Tests.{if◌then◌else◌}
use razorpay_ai_revenue_reco.Domain.States.{
  CaseState, action_pending, policy_review, scheduled, escalated, stopped, state_eq,
}
use razorpay_ai_revenue_reco.Domain.Events.{
  EventType, Actor, action_scheduled, case_stopped, operator_approved, operator_rejected,
  operator_deferred, operator_stopped, policy_revalidated, stale_approval, unlisted,
}
use razorpay_ai_revenue_reco.Domain.Entities.{RecoveryCase, RawJson}
use razorpay_ai_revenue_reco.Store.Rows.{
  Review, ReviewDecision, review_approve, review_reject, review_defer, review_stop, other_review,
  Reauthorization, not_required, approval_stale, approval_stopped, approval_denied, ReviewReason,
  human_approval_satisfied, ApprovedPolicy,
}
use razorpay_ai_revenue_reco.Store.Tables.{
  Tx, ok, ◌>>=◌, ◌>>◌, pure, demand, lock_row, update_case_if, move, record_events, draft, Draft,
  ScheduledAction, pending, ActionRow, action_scheduled_, not_reviewable, no_rows, fail,
}
use razorpay_ai_revenue_reco.Store.Decisions.{add_action, add_schedule, due_time}
use razorpay_ai_revenue_reco.Operations.Approval.{ApplyCommand, Authorized, authorize_approval}

pub record ReviewIds : Type 0 where
  pub review_id : String
  pub action_id : String
  pub scheduled_id : String
  pub policy_id : String
  -- "human-approved:" and the identifier of the schedule
  pub key : String

-- The review, the schedule, and whether the review is new.
pub record Applied : Type 0 where
  pub review : Review
  pub schedule : Option ScheduledAction
  pub created : Bool

unfoldable pub find_review : String → List Review → Option Review
find_review key [] = none
find_review key (r ∷ rs) =
    let rest = find_review key rs in if str_eq r.idempotency_key key then some r else rest

unfoldable pub is_approval : ReviewDecision → Bool
is_approval review_approve = true
is_approval _ = false

unfoldable pub is_stop : ReviewDecision → Bool
is_stop review_stop = true
is_stop _ = false

unfoldable pub reauthorize : ReviewDecision → Authorized → Authorized
reauthorize review_approve a = a
reauthorize _ a = record { result = not_required; reasons = []; can_schedule = false }

unfoldable pub in_state : CaseState → RecoveryCase → Bool
in_state s c = state_eq c.current_state s

abbrev pub add_approval : ApprovedPolicy → Tx (Unit {0})
add_approval p db = ok (tt, record db { approvals = p ∷ db.approvals })

abbrev pub add_review : Review → Tx (Unit {0})
add_review r db = ok (tt, record db { reviews = r ∷ db.reviews })

unfoldable pub approved_policy : ReviewIds → ApplyCommand → ℕ → List ReviewReason → ApprovedPolicy
approved_policy ids cmd version reasons = record {
  id = ids.policy_id;
  decision_id = cmd.item.decision_id;
  economic_gate_id = cmd.item.economic_gate_id;
  case_id = cmd.item.case_id;
  case_version = version;
  selected_action = cmd.item.recommended_action;
  policy_version = cmd.fresh_policy.policy_version;
  reason_codes = reasons ++ human_approval_satisfied ∷ [];
  created_at = cmd.now;
}

unfoldable pub approved_action : ReviewIds → ApplyCommand → ActionRow
unfolding due_time
approved_action ids cmd = record {
  id = ids.action_id;
  case_id = cmd.item.case_id;
  action_type = cmd.item.recommended_action;
  status = action_scheduled_;
  idempotency_key = ids.key;
  scheduled_at = due_time cmd.now cmd.item.recommended_action;
  updated_at = cmd.now;
}

unfoldable pub approved_schedule : ReviewIds → ApplyCommand → ℕ → ScheduledAction
unfolding due_time
approved_schedule ids cmd version = record {
  id = ids.scheduled_id;
  case_id = cmd.item.case_id;
  decision_id = cmd.item.decision_id;
  policy_evaluation_id = ids.policy_id;
  recovery_action_id = ids.action_id;
  action = cmd.item.recommended_action;
  scheduled_for = due_time cmd.now cmd.item.recommended_action;
  status = pending;
  attempt_count = 0;
  max_attempts = 3;
  idempotency_key = ids.key;
  case_version_at_schedule = version;
  next_retry_at = none;
  lease_owner = none;
  lease_expires_at = none;
  started_at = none;
  completed_at = none;
  failure_reason = none;
}

-- The writes of an approval that may be scheduled.
unfoldable pub schedule_approved :
    ReviewIds → ApplyCommand → ℕ → List ReviewReason → Tx (Option ScheduledAction)
schedule_approved ids cmd version reasons =
    add_approval (approved_policy ids cmd version reasons)
    >> add_action (approved_action ids cmd)
    >> update_case_if cmd.item.case_id (in_state escalated) (move action_pending cmd.now)
    >> update_case_if cmd.item.case_id (in_state action_pending) (move policy_review cmd.now)
    >> update_case_if cmd.item.case_id (in_state policy_review) (move scheduled cmd.now)
    >> add_schedule (approved_schedule ids cmd (version + 3))
    >> pure (some (approved_schedule ids cmd (version + 3)))

unfoldable pub schedule_allowed :
    Bool → ReviewIds → ApplyCommand → ℕ → List ReviewReason → Tx (Option ScheduledAction)
schedule_allowed true ids cmd version reasons = schedule_approved ids cmd version reasons
schedule_allowed false ids cmd version reasons = pure none

unfoldable pub stop_if : Bool → ApplyCommand → Tx (Unit {0})
stop_if true cmd = update_case_if cmd.item.case_id (in_state escalated) (move stopped cmd.now)
stop_if false cmd = pure tt

operator_event : ReviewDecision → EventType
operator_event review_approve = operator_approved
operator_event review_reject = operator_rejected
operator_event review_defer = operator_deferred
operator_event review_stop = operator_stopped
operator_event (other_review s) = unlisted ""

-- `eventType`.
unfoldable pub review_event : ReviewDecision → Reauthorization → EventType
unfolding operator_event
review_event d approval_stale = stale_approval
review_event d approval_denied = stale_approval
review_event d approval_stopped = stale_approval
review_event d _ = operator_event d

unfoldable pub review_drafts : ApplyCommand → Authorized → List Draft
review_drafts cmd a =
    event (review_event cmd.input.decision a.result) actor
      ∷ (if a.can_schedule
          then event policy_revalidated
              (record { type_ = "POLICY"; id = cmd.fresh_policy.policy_version })
            ∷ event action_scheduled actor
            ∷ []
          else [])
    ++ (if is_stop cmd.input.decision then event case_stopped actor ∷ [] else [])
  where
    actor : Actor
    actor = record { type_ = cmd.input.actor_type; id = cmd.input.operator_id }

    event : EventType → Actor → Draft
    event t a = draft t cmd.now a cmd.input.idempotency_key

unfoldable pub new_review :
    (RawJson → Bool)
    → ReviewIds
    → ApplyCommand
    → ℕ
    → ℕ
    → Authorized
    → Option ScheduledAction
    → Review
new_review is_json ids cmd version policy_version a s = record {
  id = ids.review_id;
  case_id = cmd.item.case_id;
  decision_id = cmd.item.decision_id;
  policy_evaluation_id = cmd.item.policy_evaluation_id;
  recommended_action = cmd.item.recommended_action;
  operator_id = cmd.input.operator_id;
  actor_type = cmd.input.actor_type;
  actor_metadata =
      if str_eq cmd.input.actor_metadata "" || not (is_json cmd.input.actor_metadata)
      then "{}"
      else cmd.input.actor_metadata;
  decision = cmd.input.decision;
  reason_code = cmd.input.reason_code;
  notes = cmd.input.notes;
  case_version_at_review = version;
  merchant_policy_version_at_review = policy_version;
  review_after = cmd.input.review_after;
  idempotency_key = cmd.input.idempotency_key;
  reauthorization_result = a.result;
  reauthorization_reason_codes = a.reasons;
  scheduled_action_id = scheduled_id s;
  created_at = cmd.now;
}
  where
    scheduled_id : Option ScheduledAction → Option String
    scheduled_id none = none
    scheduled_id (some t) = some t.id

-- The insert of the review, and its events.
unfoldable pub record_review : Review → Option ScheduledAction → List Draft → Tx Applied
record_review r s events =
    add_review r
    >> record_events r.case_id events
    >> pure (record { review = r; schedule = s; created = true })

-- The writes, for the row and the policy version that the transaction has read.
unfoldable pub apply_authorized :
    (RawJson → Bool) → ReviewIds → ApplyCommand → RecoveryCase → ℕ → Authorized → Tx Applied
apply_authorized is_json ids cmd c policy_version a =
    demand (is_approval cmd.input.decision || state_eq c.current_state escalated) not_reviewable
    >> schedule_allowed a.can_schedule ids cmd c.version a.reasons
    >>= λ s.
        stop_if (is_stop cmd.input.decision) cmd
        >> record_review (new_review is_json ids cmd c.version policy_version a s) s
            (review_drafts cmd a)

-- `none` is a NULL, which the driver does not scan into an `int`.
unfoldable pub apply_locked :
    (RawJson → Bool) → ReviewIds → ApplyCommand → RecoveryCase → Option ℕ → Tx Applied
apply_locked is_json ids cmd c none = fail no_rows
apply_locked is_json ids cmd c (some policy_version) =
    apply_authorized is_json ids cmd c policy_version (
      reauthorize cmd.input.decision (
        authorize_approval c.current_state c.version cmd.input.expected_case_version policy_version
          cmd.item.merchant_policy_version cmd.item.recovery_deadline cmd.now cmd.fresh_policy))

unfoldable pub apply_row : (RawJson → Bool) → ReviewIds → ApplyCommand → RecoveryCase → Tx Applied
apply_row is_json ids cmd c db =
    apply_locked is_json ids cmd c (db.merchant_policies c.merchant_id) db

unfoldable pub apply_new : (RawJson → Bool) → ReviewIds → ApplyCommand → Option Review → Tx Applied
apply_new is_json ids cmd (some r) = pure (record { review = r; schedule = none; created = false })
apply_new is_json ids cmd none = lock_row cmd.item.case_id >>= apply_row is_json ids cmd

unfoldable pub apply_human_review : (RawJson → Bool) → ReviewIds → ApplyCommand → Tx Applied
apply_human_review is_json ids cmd db =
    apply_new is_json ids cmd (find_review cmd.input.idempotency_key db.reviews) db
