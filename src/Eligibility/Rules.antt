-- ===== src/Eligibility/Rules.antt =====
-- `Evaluate` of backend/internal/eligibility/eligibility.go and what it calls.
use razorpay_ai_revenue_reco.Base.{
  ℕ, String, ◌+◌, ◌*◌, Bool, true, false, ◌&&◌, ◌||◌, Option, none, some, List, [], ◌∷◌, str_eq,
}
use razorpay_ai_revenue_reco.Base.Tests.{ltb_text, if◌then◌else◌}
use razorpay_ai_revenue_reco.Base.Int.{ℤ, pos, leb_ℤ, ltb_ℤ}
use razorpay_ai_revenue_reco.Base.Lists.{any, keep}
use razorpay_ai_revenue_reco.Base.Sort.{sort_by}
use razorpay_ai_revenue_reco.Base.Clock.{Time, hour_ns, sub_time, minutes, utc_minute, in_window}
use razorpay_ai_revenue_reco.Domain.Actions.{
  ActionType, wait, retry_now, retry_later, send_reminder, send_payment_link,
  send_checkout_recovery_link, request_payment_method_update, suggest_alternate_method,
  wait_for_promise_to_pay, retention_action, escalate_to_human, stop, action_eq,
}
use razorpay_ai_revenue_reco.Domain.Entities.{
  RawJson, LeakType, failed_subscription, checkout_abandonment, PromiseToPay, is_active,
}
use razorpay_ai_revenue_reco.Context.{RecentAction, DecisionContext, Platform}

pub data ExclusionReason : Type 0 where
  payment_already_recovered recovery_window_expired leak_type_incompatible : ExclusionReason
  merchant_action_not_allowed active_promise_to_pay customer_opt_out : ExclusionReason
  channel_unavailable quiet_hours max_contacts_reached max_retries_reached : ExclusionReason
  mandate_unavailable payment_method_invalid retry_cooldown action_cooldown : ExclusionReason

-- `Explanation` is always empty.
pub record Exclusion : Type 0 where
  pub action : ActionType
  pub reason : ExclusionReason

pub record Result : Type 0 where
  pub eligible_actions : List ActionType
  pub excluded_actions : List Exclusion
  pub evaluated_at : Time

unfoldable pub all_actions : List ActionType
all_actions =
    wait ∷ retry_now ∷ retry_later ∷ send_reminder ∷ send_payment_link ∷ send_checkout_recovery_link
    ∷ request_payment_method_update ∷ suggest_alternate_method ∷ wait_for_promise_to_pay
    ∷ retention_action ∷ escalate_to_human ∷ stop ∷ []

-- The map `contactActions`.
unfoldable pub contact_actions : ActionType → Bool
contact_actions send_reminder = true
contact_actions send_payment_link = true
contact_actions send_checkout_recovery_link = true
contact_actions request_payment_method_update = true
contact_actions suggest_alternate_method = true
contact_actions wait_for_promise_to_pay = true
contact_actions retention_action = true
contact_actions _ = false

-- The map `retryActions`.
unfoldable pub retry_actions : ActionType → Bool
retry_actions retry_now = true
retry_actions retry_later = true
retry_actions _ = false

is_subscription : LeakType → Bool
is_subscription failed_subscription = true
is_subscription _ = false

is_checkout : LeakType → Bool
is_checkout checkout_abandonment = true
is_checkout _ = false

unfoldable pub compatible : LeakType → ActionType → Bool
unfolding is_subscription is_checkout
compatible leak retry_now = is_subscription leak
compatible leak retry_later = is_subscription leak
compatible leak request_payment_method_update = is_subscription leak
compatible leak wait_for_promise_to_pay = is_subscription leak
compatible leak send_checkout_recovery_link = is_checkout leak
compatible leak _ = true

-- The set of `values`, asked for `action`.
unfoldable pub set_has : List ActionType → ActionType → Bool
unfolding action_eq
set_has values action = any (λ v. action_eq v action) values

unfoldable pub intersection : List String → List String → List String
unfolding sort_by
intersection a b = sort_by ltb_text (keep (λ v. any (λ w. str_eq w v) b) a)

pub record ActionCounts : Type 0 where
  pub day : ℕ
  pub week : ℕ
  pub retries : ℕ

-- One round of the loop of `counts`.
unfoldable pub count_one : Time → RecentAction → ActionCounts → ActionCounts
count_one now a c =
    let retried = if retry_actions a.action then record c { retries = c.retries + 1 } else c in
    if contact_actions a.action
    then record retried {
      day = if leb_ℤ (sub_time now a.created_at) (pos (24 * hour_ns)) then c.day + 1 else c.day;
      week =
          if leb_ℤ (sub_time now a.created_at) (pos (7 * (24 * hour_ns)))
          then c.week + 1
          else c.week;
    }
    else retried

unfoldable pub counts_from : Time → List RecentAction → ActionCounts → ActionCounts
unfolding count_one
counts_from now [] c = c
counts_from now (a ∷ rest) c = counts_from now rest (count_one now a c)

unfoldable pub counts : List RecentAction → Time → ActionCounts
unfolding counts_from
counts actions now = counts_from now actions (record { day = 0; week = 0; retries = 0 })

unfoldable pub in_cooldown : List RecentAction → ActionType → Time → ℤ → Bool
unfolding action_eq
in_cooldown actions action now interval =
    if leb_ℤ interval (pos 0)
    then false
    else any
        (λ a. action_eq a.action action && ltb_ℤ (sub_time now a.created_at) (minutes interval))
        actions

-- The two parsed ends of the window; an end that cannot be parsed counts as not quiet.
unfoldable pub window_holds : ℕ → Option (ℕ × ℕ) → Option (ℕ × ℕ) → Bool
window_holds minute (some (sh, sm)) (some (eh, em)) = in_window (sh * 60 + sm) (eh * 60 + em) minute
window_holds minute _ _ = false

unfoldable pub quiet_now : Platform → RawJson → Time → Bool
unfolding window_holds
quiet_now p raw now = elim (p.decode_window raw) [
  | none ↦ false
  | some (from, until) ↦
      if str_eq from "" || str_eq until ""
      then false
      else window_holds (utc_minute now) (p.parse_clock from) (p.parse_clock until)
]

unfoldable pub promise_is_active : Option PromiseToPay → Bool
unfolding is_active
promise_is_active none = false
promise_is_active (some p) = is_active p.status

-- The variables that `Evaluate` computes before its loop.
pub record Setting : Type 0 where
  pub now : Time
  pub channels : List String
  pub tallies : ActionCounts
  pub in_quiet : Bool

unfoldable pub setting : Platform → DecisionContext → Setting
setting p ctx =
    let now = ctx.timing.evaluated_at in
    record {
      now = now;
      channels = intersection ctx.merchant.allowed_channels ctx.payment.available_channels;
      tallies = counts ctx.recent_actions now;
      in_quiet = quiet_now p ctx.merchant.quiet_hours now;
    }
