-- ===== src/Tests/Workflows.antt =====
-- The store, the recovery service and the worker on the sample database.
use razorpay_ai_revenue_reco.Base.{ℕ, List, ◌≡◌, ◌+◌, refl, true, false, some, [], ◌∷◌, arith}
use razorpay_ai_revenue_reco.Domain.States.{scheduled, is_terminal}
use razorpay_ai_revenue_reco.Store.Tables.{Database, ok, ScheduledAction, has_id, move}
use razorpay_ai_revenue_reco.Store.Queue.{claim_due, claim, is_due}
use razorpay_ai_revenue_reco.Store.Queue.Leases.{no_claim, claim_step, claim_due-excludes}
use razorpay_ai_revenue_reco.Worker.{Authorization, run_once, lease}
use razorpay_ai_revenue_reco.Worker.Authority.{has_acted, IsAuthorized, run_once-IsAuthorized}
use razorpay_ai_revenue_reco.Context.{DecisionContext}
use razorpay_ai_revenue_reco.Base.Tests.{leb, if◌then◌else◌}
use razorpay_ai_revenue_reco.Base.Clock.{sub_time, minutes}
use razorpay_ai_revenue_reco.Base.Int.{◌*₆₄◌, wrap64, ◌*ℤ◌}
use razorpay_ai_revenue_reco.Domain.States.{state_eq}
use razorpay_ai_revenue_reco.Gate
use razorpay_ai_revenue_reco.Policy.History.{history, contacts, retries, in_quiet_hours}
use razorpay_ai_revenue_reco.Policy.Rules.{
  rules, is_blocked, has_active_promise, cooling, contains_action,
}
use razorpay_ai_revenue_reco.Policy.Tally.{evaluate, tally, add_all, add, verdict}
use razorpay_ai_revenue_reco.Store.Tables.{update_where, update_case, lock_row}
use razorpay_ai_revenue_reco.Store.Queue.{first_of}
use razorpay_ai_revenue_reco.Store.Decisions.{gate_is_allow}
use razorpay_ai_revenue_reco.Store.Execution.{
  mark_executing, start_case, complete_execution, is_claimed, retry_or_settle, wants_retry,
  is_failed, status_of, settle, move_on,
}
use razorpay_ai_revenue_reco.Worker.{
  claimed_run, context_run, fresh_run, is_stale, authorized_run, checked_run, recheck, may_run,
  call_with, earlier_result, start_with, record_result,
}
use razorpay_ai_revenue_reco.Tests.Samples.{noon, database, schedule, second_schedule, world}

-- The database after the first claim.
abbrev pub claimed_database : Database
claimed_database = record (database scheduled) {
  schedules = claim "w-1" (noon + lease) schedule ∷ second_schedule ∷ [];
}

pub first_claim :
    claim_due "w-1" noon lease (database scheduled)
    ≡ ok (claim "w-1" (noon + lease) schedule, claimed_database)
unfolding claim_due first_of is_due update_where
first_claim = refl

abbrev pub second_claimed : Database
second_claimed = record (database scheduled) {
  schedules =
      claim "w-1" (noon + lease) schedule ∷ claim "w-2" (noon + 1 + lease) second_schedule ∷ [];
}

pub second_claim :
    claim_due "w-2" (noon + 1) lease claimed_database
    ≡ ok (claim "w-2" (noon + 1 + lease) second_schedule, second_claimed)
unfolding claim_due first_of is_due claim update_where
second_claim = refl

abbrev third_schedule : ScheduledAction
third_schedule = record schedule { id = "s-3"; scheduled_for = noon + 2 }

-- The third row, after the claims of the other two.
abbrev with_third : List ScheduledAction → Database
with_third ss = record (database scheduled) { schedules = ss }

abbrev claims_of : ℕ → List ScheduledAction
claims_of n =
    (if leb 1 n then claim "w-1" (noon + lease) schedule else schedule)
    ∷ (if leb 2 n then claim "w-2" (noon + 1 + lease) second_schedule else second_schedule)
    ∷ (if leb 3 n then claim "w-3" (noon + 2 + lease) third_schedule else third_schedule)
    ∷ []

claim_1 :
    claim_due "w-1" noon lease (with_third (claims_of 0))
    ≡ ok (claim "w-1" (noon + lease) schedule, with_third (claims_of 1))
unfolding claim_due first_of is_due update_where
claim_1 = refl

claim_2 :
    claim_due "w-2" (noon + 1) lease (with_third (claims_of 1))
    ≡ ok (claim "w-2" (noon + 1 + lease) second_schedule, with_third (claims_of 2))
unfolding claim_due first_of is_due claim update_where
claim_2 = refl

claim_3 :
    claim_due "w-3" (noon + 2) lease (with_third (claims_of 2))
    ≡ ok (claim "w-3" (noon + 2 + lease) third_schedule, with_third (claims_of 3))
unfolding claim_due first_of is_due claim update_where
claim_3 = refl

claim_due-excludes_example :
    has_id (claim "w-1" (noon + lease) schedule).id (claim "w-3" (noon + 2 + lease) third_schedule)
    ≡ false
claim_due-excludes_example =
    claim_due-excludes "w-1" "w-3" noon (noon + 2) lease lease (with_third (claims_of 0))
      (with_third (claims_of 1)) (with_third (claims_of 2)) (with_third (claims_of 3))
      (claim "w-1" (noon + lease) schedule) (claim "w-3" (noon + 2 + lease) third_schedule) claim_1
      (claim_step (with_third (claims_of 1)) (with_third (claims_of 2)) "w-2" (noon + 1) lease
        (claim "w-2" (noon + 1 + lease) second_schedule) no_claim (omega arith) claim_2)
      (omega arith) claim_3

run_acts : has_acted (run_once world "w-1" noon (noon + 1) (database scheduled)).0 ≡ true
unfolding run_once has_acted claimed_run claim_due first_of is_due context_run fresh_run is_stale
    claim state_eq authorized_run checked_run recheck gate_is_allow Gate.evaluate may_run evaluate
    rules tally add_all add verdict is_blocked history contacts retries in_quiet_hours is_terminal
    has_active_promise cooling sub_time minutes ◌*₆₄◌ wrap64 ◌*ℤ◌ contains_action call_with
    earlier_result start_with mark_executing update_where lock_row start_case record_result
    complete_execution is_claimed update_case retry_or_settle wants_retry is_failed status_of settle
    move_on move
run_acts = refl

run_once-IsAuthorized_example :
    (s : ScheduledAction) × (d : Database) × (ctx : DecisionContext) × (auth : Authorization)
    × (claim_due "w-1" noon lease (database scheduled) ≡ ok (s, d))
    × (world.context_of s.case_id d ≡ some ctx)
    × (world.authorization_of s.decision_id s.policy_evaluation_id d ≡ some auth)
    × IsAuthorized world.platform ctx s auth noon
run_once-IsAuthorized_example =
    run_once-IsAuthorized world "w-1" noon (noon + 1) (database scheduled) run_acts
