-- ===== src/Tests/Histories.antt =====
-- Histories of the sample database: a claim of work, a payment that is attributed, and a transition that
-- has other transactions between its read and its write.
use razorpay_ai_revenue_reco.Base.{◌≡◌, ◌+◌, refl, true, false, none, some, [], ◌∷◌, str_eq}
use razorpay_ai_revenue_reco.Base.Tests.{if◌then◌else◌}
use razorpay_ai_revenue_reco.Domain.States.{
  scheduled, recovered, stopped, can_transition, is_terminal, state_eq, is_valid,
  validate_transition,
}
use razorpay_ai_revenue_reco.Domain.Entities.{RecoveryCase}
use razorpay_ai_revenue_reco.Store.Rows.{Attribution}
use razorpay_ai_revenue_reco.Store.Tables.{
  Database, ok, after_tx, move, insert_events, last_sequence, update_case, update_where,
}
use razorpay_ai_revenue_reco.Store.Queue.{claim_due, claim, first_of, is_due}
use razorpay_ai_revenue_reco.Store.Cases.{transition_case, get_case}
use razorpay_ai_revenue_reco.Store.Attributions
use razorpay_ai_revenue_reco.Store.Attributions.{attribute_recovery, find_attribution}
use razorpay_ai_revenue_reco.Store.Attributions.Weighing
use razorpay_ai_revenue_reco.Store.Attributions.Weighing.{gather, weigh}
use razorpay_ai_revenue_reco.Recovery.{
  transition, done, transition_from, write_transition, transition_event, refusal_of,
}
use razorpay_ai_revenue_reco.Recovery.Commits.{claimed_work}
use razorpay_ai_revenue_reco.Recovery.Runs.{
  Run, no_step, commit, Run-keeps_terminal, transition-IsAllowed,
}
use razorpay_ai_revenue_reco.Worker.{lease}
use razorpay_ai_revenue_reco.Tests.Payments.{spell, payment, windows}
use razorpay_ai_revenue_reco.Tests.Samples.{
  noon, case_at, database, schedule, second_schedule, to_stopped,
}
use razorpay_ai_revenue_reco.Tests.Workflows.{claimed_database, first_claim}

abbrev paid_database : Database
paid_database =
    after_tx claimed_database
      (attribute_recovery spell "at-1" payment (some windows) claimed_database)

abbrev paid : Attribution
paid = Attributions.attribution_row "at-1" payment (Weighing.of_none false) none

claimed_run : Run (database scheduled) claimed_database
claimed_run =
    commit no_step (claimed_work "w-1" noon lease (claim "w-1" (noon + lease) schedule) first_claim)

abbrev later_database : Database
later_database = record paid_database {
  schedules =
      claim "w-1" (noon + lease) schedule ∷ claim "w-2" (noon + 1 + lease) second_schedule ∷ [];
}

claim_after_payment :
    claim_due "w-2" (noon + 1) lease paid_database
    ≡ ok (claim "w-2" (noon + 1 + lease) second_schedule, later_database)
unfolding claim_due first_of is_due claim update_where attribute_recovery Attributions.attribute_at
    Attributions.has_ended Attributions.attribute_unless find_attribution Attributions.attribute_new
    Attributions.write_finding weigh gather Attributions.write_attribution Attributions.fulfil_if
    update_case Attributions.feedback_if Attributions.latest_decision
claim_after_payment = refl

Run-keeps_terminal_example :
    (d : RecoveryCase) × (later_database.cases "case-1" ≡ some d) × (d.current_state ≡ recovered)
unfolding is_terminal attribute_recovery Attributions.attribute_at Attributions.has_ended
    Attributions.attribute_unless find_attribution Attributions.attribute_new
    Attributions.write_finding weigh gather Attributions.write_attribution Attributions.fulfil_if
    update_case Attributions.feedback_if Attributions.latest_decision Attributions.recover state_eq
Run-keeps_terminal_example =
    Run-keeps_terminal
      (commit {db = paid_database} no_step (
        claimed_work "w-2" (noon + 1) lease (claim "w-2" (noon + 1 + lease) second_schedule)
          claim_after_payment))
      "case-1" (Attributions.recover payment "NATURAL_RECOVERY" (case_at scheduled 3)) refl refl

abbrev stopped_database : Database
stopped_database = record claimed_database {
  cases = λ j.
      if str_eq j "case-1"
      then some (move stopped noon (case_at scheduled 3))
      else claimed_database.cases j;
  events = insert_events "case-1" 1 (transition_event to_stopped "r-2" noon ∷ []) [];
}

stop_succeeds :
    transition to_stopped "r-2" noon "case-1" (database scheduled) claimed_database
    ≡ done (move stopped noon (case_at scheduled 3), stopped_database)
unfolding transition transition_from get_case write_transition refusal_of validate_transition
    is_valid can_transition transition_case transition_event last_sequence
stop_succeeds = refl

transition-IsAllowed_example :
    (can_transition scheduled stopped ≡ true)
    × (move stopped noon (case_at scheduled 3) ≡ move stopped noon (case_at scheduled 3))
    × (stopped_database.cases "case-1" ≡ some (move stopped noon (case_at scheduled 3)))
transition-IsAllowed_example =
    transition-IsAllowed to_stopped "r-2" noon "case-1" (database scheduled) claimed_database
      stopped_database (case_at scheduled 3) (move stopped noon (case_at scheduled 3)) claimed_run
      stop_succeeds refl
