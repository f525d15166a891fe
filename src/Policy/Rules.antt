-- ===== src/Policy/Rules.antt =====
-- The conditions of `Evaluate` in backend/internal/policy/policy.go, in its order.
use razorpay_ai_revenue_reco.Base.{
  ℕ, Bool, true, false, not, ◌&&◌, ◌||◌, Option, none, some, List, [], ◌∷◌, str_eq,
}
use razorpay_ai_revenue_reco.Base.Tests.{◌==◌}
use razorpay_ai_revenue_reco.Base.Int.{ℤ, pos, leb_ℤ, ltb_ℤ}
use razorpay_ai_revenue_reco.Base.Lists.{any, is_empty}
use razorpay_ai_revenue_reco.Base.Clock.{Time, after, is_zero, sub_time, minutes}
use razorpay_ai_revenue_reco.Domain.Actions.{ActionType, action_eq}
use razorpay_ai_revenue_reco.Domain.States.{recovered, state_eq, is_terminal}
use razorpay_ai_revenue_reco.Domain.Entities.{PromiseToPay, is_active}
use razorpay_ai_revenue_reco.Context.{DecisionContext, Platform, is_non_recoverable}
use razorpay_ai_revenue_reco.Optimizer.Candidate.{Candidate}
use razorpay_ai_revenue_reco.Gate.{GateDecision, GateResult, allow, block}
use razorpay_ai_revenue_reco.Policy.History.{Tallies, contacts, retries, history, in_quiet_hours}

pub data PolicyReason : Type 0 where
  payment_already_recovered terminal_case_state subscription_cancelled : PolicyReason
  recovery_window_expired stale_decision economic_gate_blocked action_not_allowed : PolicyReason
  channel_not_allowed customer_opt_out max_retries known_permanent_failure : PolicyReason
  retry_cooldown max_contacts_per_day max_contacts_per_week min_contact_interval : PolicyReason
  active_promise_to_pay mandate_invalid payment_method_invalid max_discount : PolicyReason
  quiet_hours channel_unavailable high_value_approval low_confidence_escalation : PolicyReason
  all_policy_checks_passed human_review_not_required : PolicyReason

-- The list that a reason goes to.
pub data Level : Type 0 where
  stops denies escalates : Level

pub record Check : Type 0 where
  pub level : Level
  pub reason : PolicyReason
  pub fires : Bool

abbrev pub check : Level → PolicyReason → Bool → Check
check level reason fires = record { level = level; reason = reason; fires = fires }

unfoldable pub contains_action : List ActionType → ActionType → Bool
unfolding action_eq
contains_action actions wanted = any (λ a. action_eq a wanted) actions

unfoldable pub has_active_promise : Option PromiseToPay → Bool
unfolding is_active
has_active_promise none = false
has_active_promise (some p) = is_active p.status

unfoldable pub is_blocked : GateDecision → Bool
is_blocked allow = false
is_blocked block = true

-- `!last.IsZero() && now.Sub(last) < time.Duration(interval)*time.Minute`
unfoldable pub cooling : Time → ℤ → Time → Bool
cooling now interval last = not (is_zero last) && ltb_ℤ (sub_time now last) (minutes interval)

unfoldable pub rules : Platform → DecisionContext → ℕ → Candidate → GateResult → Time → List Check
rules p ctx decision_version c gate now =
    check stops payment_already_recovered
      (ctx.payment.already_recovered || state_eq ctx.case_.current_state recovered)
    ∷ check stops terminal_case_state (is_terminal ctx.case_.current_state)
    ∷ check stops subscription_cancelled (str_eq ctx.case_.source_status "CANCELLED")
    ∷ check stops recovery_window_expired (not (after ctx.case_.recovery_deadline now))
    ∷ check denies stale_decision (not (ctx.case_.version == decision_version))
    ∷ check denies economic_gate_blocked (is_blocked gate.decision)
    ∷ check denies action_not_allowed
        (not (is_empty m.allowed_actions) && not (contains_action m.allowed_actions a))
    ∷ check denies channel_not_allowed (contacts a && is_empty m.allowed_channels)
    ∷ check denies customer_opt_out (ctx.profile.opted_out && contacts a)
    ∷ check denies max_retries (retries a && leb_ℤ m.max_retries (pos h.retry))
    ∷ check denies known_permanent_failure
        (retries a && is_non_recoverable ctx.diagnosis.recoverability)
    ∷ check denies retry_cooldown
        (retries a && cooling now m.minimum_contact_interval_minutes h.last_retry)
    ∷ check denies max_contacts_per_day (contacts a && leb_ℤ m.max_contacts_per_day (pos h.day))
    ∷ check denies max_contacts_per_week (contacts a && leb_ℤ m.max_contacts_per_week (pos h.week))
    ∷ check denies min_contact_interval
        (contacts a && cooling now m.minimum_contact_interval_minutes h.last_contact)
    ∷ check denies active_promise_to_pay
        (has_active_promise ctx.active_promise && (contacts a || retries a))
    ∷ check denies mandate_invalid (
        retries a
        && (str_eq ctx.payment.mandate_status "REVOKED"
            || str_eq ctx.payment.mandate_status "FAILED"))
    ∷ check denies payment_method_invalid
        (retries a && str_eq ctx.payment.payment_method_status "INVALID")
    ∷ check denies max_discount (
        ltb_ℤ m.maximum_incentive_minor c.incentive_cost_minor
        && leb_ℤ (pos 0) m.maximum_incentive_minor)
    ∷ check denies quiet_hours (contacts a && in_quiet_hours p m.quiet_hours m.timezone now)
    ∷ check denies channel_unavailable (contacts a && is_empty ctx.payment.available_channels)
    ∷ check escalates high_value_approval (
        ltb_ℤ (pos 0) m.high_value_threshold_minor
        && leb_ℤ m.high_value_threshold_minor ctx.case_.amount_at_risk_minor)
    ∷ check escalates low_confidence_escalation
        (p.float_less ctx.diagnosis.confidence m.low_confidence_threshold)
    ∷ []
  where
    open ctx use {merchant as m}
    open c use {action as a}

    h : Tallies
    h = history ctx.recent_actions now
