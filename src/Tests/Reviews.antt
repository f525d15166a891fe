-- ===== src/Tests/Reviews.antt =====
-- A review of the sample case, a list of the queue, and an answer of the customer.
use mathlib.Core.List.{Perm}
use razorpay_ai_revenue_reco.Base.{String, ◌≡◌, ◌+◌, refl, true, false, none, some, List, [], ◌∷◌}
use razorpay_ai_revenue_reco.Base.Lists.{keep}
use razorpay_ai_revenue_reco.Base.Sort.{Ordered}
use razorpay_ai_revenue_reco.Base.Int.{pos}
use razorpay_ai_revenue_reco.Domain.Actions.{send_reminder}
use razorpay_ai_revenue_reco.Domain.States.{
  escalated, waiting_outcome, state_eq, action_pending, reassessing,
}
use razorpay_ai_revenue_reco.Domain.Entities.{RecoveryCase, LeakType, failed_subscription}
use razorpay_ai_revenue_reco.Policy.Tally.{PolicyResult, approve}
use razorpay_ai_revenue_reco.Store.Rows.{Response, intent_to_pay, review_approve, approval_given}
use razorpay_ai_revenue_reco.Store.Tables.{
  Database, Result, ok, ScheduledAction, update_case_if, update_case, lock_row, move, after_tx,
}
use razorpay_ai_revenue_reco.Store.Reviews.{
  ReviewIds, Applied, apply_human_review, approved_schedule,
}
use razorpay_ai_revenue_reco.Store.Reviews
use razorpay_ai_revenue_reco.Operations.Approval.{
  QueueItem, ReviewInput, ApplyCommand, authorize_approval, by_policy,
}
use razorpay_ai_revenue_reco.Operations.{Desk, review, reviewed, review_refusal, fresh_policy}
use razorpay_ai_revenue_reco.Gate
use razorpay_ai_revenue_reco.Store.Rows.{policy_reason}
use razorpay_ai_revenue_reco.Domain.States.{is_terminal}
use razorpay_ai_revenue_reco.Base.Clock.{sub_time, minutes}
use razorpay_ai_revenue_reco.Base.Int.{◌*₆₄◌, wrap64, ◌*ℤ◌}
use razorpay_ai_revenue_reco.Policy.History.{history, contacts, retries, in_quiet_hours}
use razorpay_ai_revenue_reco.Policy.Rules.{
  all_policy_checks_passed, rules, is_blocked, has_active_promise, cooling, contains_action,
}
use razorpay_ai_revenue_reco.Policy.Tally.{tally, add_all, add, verdict}
use razorpay_ai_revenue_reco.Operations.Authority.{IsScheduled, review-IsReauthorized}
use razorpay_ai_revenue_reco.Policy.Tally.{evaluate}
use razorpay_ai_revenue_reco.Context.{DecisionContext}
use razorpay_ai_revenue_reco.Operations.Repeats.{apply_human_review-repeat}
use razorpay_ai_revenue_reco.Operations.Queue.{
  Filter, list_queue, passes, IsNotAfter, list_queue_lem,
}
use razorpay_ai_revenue_reco.Store.Responses.{save_customer_response}
use razorpay_ai_revenue_reco.Store.Responses
use razorpay_ai_revenue_reco.Responses.Repeats.{save_customer_response-repeat}
use razorpay_ai_revenue_reco.Tests.Samples.{
  noon, case_at, context_at, platform, database, candidate, gate,
}

abbrev item : QueueItem
item = record {
  case_id = "case-1";
  priority = "HIGH";
  category = "HIGH_VALUE";
  amount_at_risk_minor = pos 50000;
  merchant_id = "m-1";
  merchant_policy_version = 7;
  leak_type = failed_subscription;
  decision_id = "d-1";
  policy_evaluation_id = "p-1";
  economic_gate_id = "g-1";
  recommended_action = send_reminder;
  expected_nerv_minor = pos 4965;
  recovery_deadline = noon + 1;
  review_status = "PENDING";
  candidate = candidate send_reminder;
  gate = gate send_reminder;
}

abbrev approval : ReviewInput
approval = record {
  decision = review_approve;
  operator_id = "o-1";
  actor_type = "OPERATOR";
  actor_metadata = "{}";
  reason_code = "CHECKED";
  notes = "";
  expected_case_version = 3;
  review_after = none;
  idempotency_key = "k-1";
}

abbrev fresh : PolicyResult
fresh = record {
  id = "";
  decision_id = "d-1";
  economic_gate_id = "";
  case_id = "case-1";
  case_version = 3;
  selected_action = send_reminder;
  policy_version = "policy-v1";
  decision = approve;
  reason_codes = [];
  checks = [];
  created_at = noon;
}

abbrev command : ApplyCommand
command = record { item = item; input = approval; fresh_policy = fresh; now = noon }

abbrev ids : ReviewIds
ids = record {
  review_id = "r-1";
  action_id = "a-9";
  scheduled_id = "s-9";
  policy_id = "p-9";
  key = "human-approved:s-9";
}

abbrev reply : Result (Applied × Database)
reply = apply_human_review (λ j. true) ids command (database escalated)

abbrev reviewed_database : Database
reviewed_database = after_tx (database escalated) reply

abbrev new_schedule : ScheduledAction
new_schedule = approved_schedule ids command 6

abbrev the_review : Applied
the_review = record {
  review =
      Reviews.new_review (λ j. true) ids command 3 7
        (record { result = approval_given; reasons = []; can_schedule = true }) (some new_schedule);
  schedule = some new_schedule;
  created = true;
}

review_succeeds : reply ≡ ok (the_review, reviewed_database)
unfolding apply_human_review Reviews.apply_new Reviews.find_review lock_row Reviews.apply_row
    Reviews.apply_locked Reviews.apply_authorized Reviews.is_approval Reviews.schedule_allowed
    Reviews.reauthorize authorize_approval state_eq Reviews.schedule_approved update_case_if
    Reviews.in_state move Reviews.stop_if by_policy Reviews.is_stop Reviews.record_review
review_succeeds = refl

-- A second command with the same key.
apply_human_review-repeat_example :
    apply_human_review (λ j. true) ids command reviewed_database
    ≡ ok
        (record { review = the_review.review; schedule = none; created = false }, reviewed_database)
apply_human_review-repeat_example =
    apply_human_review-repeat (λ j. true) ids command (database escalated) the_review
      reviewed_database review_succeeds (λ j. true) ids command refl

abbrev desk : Desk
desk = record {
  platform = platform;
  trim_space = λ s. s;
  is_json = λ j. true;
  item_of = λ id db. some item;
  context_of = λ id db. some (context_at escalated 3);
}

-- What the policy says of the escalated case, which it approves.
abbrev evaluation : PolicyResult
evaluation = evaluate platform (context_at escalated 3) "d-1" 3 item.candidate item.gate noon

abbrev evaluated_command : ApplyCommand
evaluated_command = record { item = item; input = approval; fresh_policy = evaluation; now = noon }

abbrev desk_database : Database
desk_database =
    after_tx (database escalated)
      (apply_human_review (λ j. true) ids evaluated_command (database escalated))

abbrev desk_schedule : ScheduledAction
desk_schedule = approved_schedule ids evaluated_command 6

abbrev desk_review : Applied
desk_review = record {
  review =
      Reviews.new_review (λ j. true) ids evaluated_command 3 7
        (record {
          result = approval_given;
          reasons = policy_reason all_policy_checks_passed ∷ [];
          can_schedule = true;
        })
        (some desk_schedule);
  schedule = some desk_schedule;
  created = true;
}

desk_approves :
    review desk ids "case-1" approval noon (database escalated) ≡ reviewed desk_review desk_database
unfolding review review_refusal fresh_policy Reviews.is_approval apply_human_review
    Reviews.apply_new Reviews.find_review lock_row Reviews.apply_row Reviews.apply_locked
    Reviews.apply_authorized Reviews.schedule_allowed Reviews.reauthorize authorize_approval
    state_eq Reviews.schedule_approved update_case_if Reviews.in_state move Reviews.stop_if
    by_policy Reviews.is_stop Reviews.record_review evaluate rules tally add_all add verdict
    is_blocked history contacts retries Gate.evaluate in_quiet_hours is_terminal has_active_promise
    cooling sub_time minutes ◌*₆₄◌ wrap64 ◌*ℤ◌ contains_action
desk_approves = refl

review-IsReauthorized_example :
    (x : QueueItem) × (some item ≡ some x)
    × (fresh : PolicyResult) × ((ctx : DecisionContext) × (some (context_at escalated 3) ≡ some ctx)
        × (fresh ≡ evaluate platform ctx x.decision_id ctx.case_.version x.candidate x.gate noon))
    × IsScheduled
        (record { item = x; input = approval; fresh_policy = fresh; now = noon })
        (database escalated)
        desk_database
        desk_schedule
review-IsReauthorized_example =
    review-IsReauthorized desk ids "case-1" approval noon (database escalated) desk_review
      desk_database desk_schedule desk_approves refl

abbrev filter : Filter
filter = record {
  category = "";
  merchant_id = "m-1";
  status = "";
  priority = "";
  leak_type = "";
  min_amount_minor = pos 0;
  max_amount_minor = pos 0;
  deadline_before = none;
  sort = "amount_asc";
}

abbrev spell_leak : LeakType → String
spell_leak t = "FAILED_SUBSCRIPTION"

abbrev queue : List QueueItem
queue = item ∷ record item { case_id = "case-2"; amount_at_risk_minor = pos 40000 } ∷ []

list_queue_lem_example :
    Perm (list_queue spell_leak filter queue) (keep (passes spell_leak filter) queue)
    × Ordered (IsNotAfter "amount_asc") (list_queue spell_leak filter queue)
list_queue_lem_example = list_queue_lem spell_leak filter queue

abbrev answer : Response
answer = record {
  id = "x-1";
  case_id = "case-1";
  type_ = intent_to_pay;
  payload = "{}";
  source = "email";
  received_at = noon;
  correlation_id = "c-9";
}

abbrev answered_database : Database
answered_database =
    after_tx (database waiting_outcome) (save_customer_response answer (database waiting_outcome))

answer_saved :
    save_customer_response answer (database waiting_outcome) ≡ ok (true, answered_database)
unfolding save_customer_response Responses.save_at Responses.save_if_new Responses.is_repeated
    Responses.process_response Responses.add_response Responses.opt_out_if Responses.is_opt_out
    Responses.reassess_answered Responses.needs_decision state_eq update_case
answer_saved = refl

abbrev answered_case : RecoveryCase
answered_case = move action_pending noon (move reassessing noon (case_at waiting_outcome 3))

answered_row : answered_database.cases "case-1" ≡ some answered_case
unfolding save_customer_response Responses.save_at Responses.save_if_new Responses.is_repeated
    Responses.process_response Responses.add_response Responses.opt_out_if Responses.is_opt_out
    Responses.reassess_answered Responses.needs_decision state_eq update_case
answered_row = refl

save_customer_response-repeat_example :
    save_customer_response (record answer { id = "x-2" }) answered_database
    ≡ ok (false, answered_database)
save_customer_response-repeat_example =
    save_customer_response-repeat answer (database waiting_outcome) true answered_database
      answer_saved (record answer { id = "x-2" }) answered_case refl answered_row
