-- ===== src/Tests/Policies.antt =====
-- The policy, the eligibility rules and the gate on the sample case.
use razorpay_ai_revenue_reco.Base.{
  ◌+◌, ◌≡◌, ◌↔◌, ◌⊎◌, ◌<◌, ◌%◌, ◌-◌, refl, true, false, none, some, [], ◌∷◌, map, arith, str_eq,
}
use razorpay_ai_revenue_reco.Base.Int.{◌*₆₄◌, wrap64, ◌*ℤ◌}
use razorpay_ai_revenue_reco.Base.Clock.{utc_minute, in_window, in_window_iff, sub_time, minutes}
use razorpay_ai_revenue_reco.Domain.Actions.{
  ActionType, send_reminder, retry_now, wait, escalate_to_human, stop, occurrences,
}
use razorpay_ai_revenue_reco.Base.Tests.{if◌then◌else◌}
use razorpay_ai_revenue_reco.Domain.States.{
  action_pending, recovered, is_valid, is_terminal, state_eq, detected, can_transition, CaseState,
}
use razorpay_ai_revenue_reco.Domain.Lifecycle.{
  here, Outcomes, every_outcome_reachable, terminal_iff_dead_end, Reaches-of_terminal,
}
use razorpay_ai_revenue_reco.Context.{Platform, is_non_recoverable}
use razorpay_ai_revenue_reco.Gate
use razorpay_ai_revenue_reco.Gate.{allow, gate_allows_iff}
use razorpay_ai_revenue_reco.Policy.History.{contacts, retries, history, in_quiet_hours}
use razorpay_ai_revenue_reco.Policy.Rules.{
  stops, denies, escalates, rules, is_blocked, cooling, contains_action, has_active_promise,
}
use razorpay_ai_revenue_reco.Policy.Tally.{approve, evaluate, tally, add_all, add, verdict}
use razorpay_ai_revenue_reco.Policy.Approval.{policy_verdict, outcome_of, ranked, fired}
use razorpay_ai_revenue_reco.Policy.Safety.{
  IsCurrent, MayContact, MayRetry, approve-IsCurrent, approve-MayContact, approve-MayRetry,
}
use razorpay_ai_revenue_reco.Eligibility.Rules.{
  setting, counts, quiet_now, compatible, set_has, promise_is_active, contact_actions, intersection,
  retry_actions, in_cooldown,
}
use razorpay_ai_revenue_reco.Eligibility.Partition.{
  exclusion_reason, is_eligible, IsClosed, IsOpen, is_named, evaluate_partitions,
}
use razorpay_ai_revenue_reco.Eligibility.Partition
use razorpay_ai_revenue_reco.Eligibility.Agreement.{
  ContactLimitsHold, RetryLimitsHold, eligible-ContactLimitsHold, eligible-RetryLimitsHold,
  counts-history, IsWithin, quiet_hours_lem,
}
use razorpay_ai_revenue_reco.Tests.Samples.{
  noon, platform, context_at, candidate, gate, an_earlier_contact,
}

reminder_approved :
    (evaluate platform
      (context_at action_pending 3)
      "d-1"
      3
      (candidate send_reminder)
      (gate send_reminder)
      noon).decision
    ≡ approve
unfolding evaluate rules tally add_all add verdict is_blocked history contacts retries Gate.evaluate
    in_quiet_hours is_terminal has_active_promise cooling sub_time minutes ◌*₆₄◌ wrap64 ◌*ℤ◌
    contains_action
reminder_approved = refl

retry_approved :
    (evaluate platform
      (context_at action_pending 3)
      "d-1"
      3
      (candidate retry_now)
      (gate retry_now)
      noon).decision
    ≡ approve
unfolding evaluate rules tally add_all add verdict is_blocked history contacts retries Gate.evaluate
    in_quiet_hours is_terminal has_active_promise cooling is_non_recoverable contains_action
retry_approved = refl

approve-MayContact_example : MayContact platform (context_at action_pending 3) noon
unfolding contacts
approve-MayContact_example =
    approve-MayContact platform (context_at action_pending 3) "d-1" 3 (candidate send_reminder)
      (gate send_reminder) noon reminder_approved refl

approve-IsCurrent_example : IsCurrent (context_at action_pending 3) 3 (gate send_reminder) noon
approve-IsCurrent_example =
    approve-IsCurrent platform (context_at action_pending 3) "d-1" 3 (candidate send_reminder)
      (gate send_reminder) noon reminder_approved

approve-MayRetry_example : MayRetry (context_at action_pending 3)
unfolding retries
approve-MayRetry_example =
    approve-MayRetry platform (context_at action_pending 3) "d-1" 3 (candidate retry_now)
      (gate retry_now) noon retry_approved refl

reminder_free :
    exclusion_reason
      (context_at action_pending 3)
      (setting platform (context_at action_pending 3))
      send_reminder
    ≡ none
unfolding exclusion_reason setting counts quiet_now state_eq compatible set_has promise_is_active
    contact_actions intersection sub_time retry_actions in_cooldown minutes ◌*₆₄◌ wrap64 ◌*ℤ◌
reminder_free = refl

retry_free :
    exclusion_reason
      (context_at action_pending 3)
      (setting platform (context_at action_pending 3))
      retry_now
    ≡ none
unfolding exclusion_reason setting counts quiet_now state_eq compatible set_has promise_is_active
    contact_actions retry_actions in_cooldown
retry_free = refl

eligible-ContactLimitsHold_example : ContactLimitsHold (context_at action_pending 3) send_reminder
unfolding contacts
eligible-ContactLimitsHold_example =
    eligible-ContactLimitsHold platform (context_at action_pending 3) send_reminder reminder_free
      refl

eligible-RetryLimitsHold_example : RetryLimitsHold (context_at action_pending 3) retry_now
unfolding retries
eligible-RetryLimitsHold_example =
    eligible-RetryLimitsHold platform (context_at action_pending 3) retry_now retry_free refl

-- A window from ten in the evening to eight in the morning, for a merchant whose clock shows half
-- past eleven in the evening at noon UTC.
abbrev far_platform : Platform
far_platform = record platform {
  decode_window = λ raw. some ("22:00", "08:00");
  parse_clock = λ t. some (if str_eq t "22:00" then 22 else 8, 0);
  local_clock = λ zone t. some (23, 30);
}

quiet_hours_lem_example :
    ((in_quiet_hours far_platform "{}" "Pacific/Auckland" noon ≡ true) ↔ IsWithin 1320 480 1410)
    × ((quiet_now far_platform "{}" noon ≡ true) ↔ IsWithin 1320 480 (utc_minute noon))
quiet_hours_lem_example =
    quiet_hours_lem far_platform "{}" "Pacific/Auckland" "22:00" "08:00" noon 23 30 22 0 8 0 refl
      refl refl refl refl refl (omega arith) (omega arith) (omega arith)

evaluate_partitions_example :
    let r = Partition.evaluate platform (context_at action_pending 3) in
    ((a : ActionType)
      → occurrences a r.eligible_actions + occurrences a (Partition.excluded r)
        ≡ (if is_named a then 1 else 0))
    × (IsClosed (context_at action_pending 3) → r.eligible_actions ≡ stop ∷ [])
    × (IsOpen (context_at action_pending 3)
        → (a : ActionType) → (a ≡ wait) ⊎ (a ≡ escalate_to_human) ⊎ (a ≡ stop)
        → occurrences a r.eligible_actions ≡ 1)
evaluate_partitions_example = evaluate_partitions platform (context_at action_pending 3)

counts-history_example :
    let c = counts (an_earlier_contact ∷ []) noon in
    let t = history (an_earlier_contact ∷ []) noon in
    (c.day ≡ t.day) × (c.week ≡ t.week) × (c.retries ≡ t.retry)
counts-history_example = counts-history (an_earlier_contact ∷ []) noon

terminal_iff_dead_end_example :
    (is_terminal recovered ≡ true) ↔ ((t : CaseState) → can_transition recovered t ≡ false)
unfolding is_valid
terminal_iff_dead_end_example = terminal_iff_dead_end recovered refl

policy_verdict_example :
    let cs =
      rules platform
        (context_at recovered 3)
        3
        (candidate send_reminder)
        (gate send_reminder)
        noon in
    let r =
      evaluate platform
        (context_at recovered 3)
        "d-1"
        3
        (candidate send_reminder)
        (gate send_reminder)
        noon in
    ((r.decision, r.reason_codes) ≡ ranked (fired stops cs) (fired denies cs) (fired escalates cs))
    × (r.checks ≡ map outcome_of cs)
policy_verdict_example =
    policy_verdict platform (context_at recovered 3) "d-1" 3 (candidate send_reminder)
      (gate send_reminder) noon

every_outcome_reachable_example : Outcomes detected
unfolding is_valid is_terminal
every_outcome_reachable_example = every_outcome_reachable detected refl refl

Reaches-of_terminal_example : recovered ≡ recovered
unfolding is_terminal
Reaches-of_terminal_example = Reaches-of_terminal {s = recovered} {t = recovered} refl here

in_window_iff_example :
    (in_window 1320 480 720 ≡ true) ↔ ((720 + 1440 - 1320) % 1440 < (480 + 1440 - 1320) % 1440)
in_window_iff_example = in_window_iff 1320 480 720 (omega arith) (omega arith) (omega arith)
