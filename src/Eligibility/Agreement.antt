-- ===== src/Eligibility/Agreement.antt =====
-- The checks that the eligibility rules (backend/internal/eligibility/eligibility.go) and the policy
-- (backend/internal/policy/policy.go) share.
use razorpay_ai_revenue_reco.Base.{
  ℕ, String, ◌+◌, ◌-◌, ◌%◌, ◌*◌, ◌<◌, ◌↔◌, sym, ◌∙◌, ◌≡◌, refl, ◌≢◌, inl, inr, true, false, ◌||◌,
  Option, none, some, List, [], ◌∷◌, arith, str_eq,
}
use razorpay_ai_revenue_reco.Base.Tests.{Bool-cases}
use razorpay_ai_revenue_reco.Base.Int.{pos, ◌<ℤ◌}
use razorpay_ai_revenue_reco.Base.Clock.{Time, utc_minute, in_window, in_window_iff}
use razorpay_ai_revenue_reco.Domain.Actions.{
  ActionType, wait, wait_for_promise_to_pay, escalate_to_human, stop, action_eq, action_eq→≡,
}
use razorpay_ai_revenue_reco.Domain.Entities.{RawJson, PromiseToPay}
use razorpay_ai_revenue_reco.Context.{RecentAction, DecisionContext, Platform}
use razorpay_ai_revenue_reco.Eligibility.Rules.{
  ActionCounts, Setting, contact_actions, retry_actions, counts, counts_from, quiet_now,
  promise_is_active, setting, set_has, window_holds, count_one,
}
use razorpay_ai_revenue_reco.Eligibility.Partition.{exclusion_reason}
use razorpay_ai_revenue_reco.Policy.History.{
  Tallies, contacts, retries, history, history_from, note_contact, note_retry, quiet_at,
  in_quiet_hours,
}
use razorpay_ai_revenue_reco.Policy.Rules.{contains_action, has_active_promise}

-- The two copies of the action classes are the same.
pub classes_agree :
    (a : ActionType) → (contact_actions a ≡ contacts a) × (retry_actions a ≡ retries a)
unfolding contact_actions contacts retry_actions retries
classes_agree a = ground arith

counts_from-history :
    (now : Time) (actions : List RecentAction) (c : ActionCounts) (t : Tallies)
    → c.day ≡ t.day
    → c.week ≡ t.week
    → c.retries ≡ t.retry
    → let c' = counts_from now actions c in
      let t' = history_from now actions t in
      (c'.day ≡ t'.day) × (c'.week ≡ t'.week) × (c'.retries ≡ t'.retry)
unfolding counts_from history_from
counts_from-history now [] c t d w r = (d, w, r)
counts_from-history now (a ∷ rest) c t d w r =
    counts_from-history now rest _ _ (step.0) (step.1) (step.2)
  where
    step :
        let c' = count_one now a c in
        let t' = note_contact now a (note_retry a t) in
        (c'.day ≡ t'.day) × (c'.week ≡ t'.week) × (c'.retries ≡ t'.retry)
    step = ground (arith, classes_agree a.action)

-- The two packages count the same contacts and retries in the same history.
pub counts-history :
    (actions : List RecentAction) (now : Time)
    → let c = counts actions now in
      let t = history actions now in (c.day ≡ t.day) × (c.week ≡ t.week) × (c.retries ≡ t.retry)
unfolding counts history
counts-history actions now = counts_from-history now actions _ _ refl refl refl

-- Nothing that the policy checks of any action's timing and limits, and that the eligibility rules
-- check too, can deny an action that the rules let through.
pub record PolicyLimitsHold (ctx : DecisionContext) (a : ActionType) : Type 0 where
  pub before_deadline : ctx.timing.evaluated_at < ctx.case_.recovery_deadline
  pub unpaid : ctx.payment.already_recovered ≡ false
  pub listed : contains_action ctx.merchant.allowed_actions a ≡ true
  pub retries_below :
      retries a ≡ true
      → pos (history ctx.recent_actions ctx.timing.evaluated_at).retry <ℤ ctx.merchant.max_retries
  pub mandate_alive :
      retries a ≡ true
      → (str_eq ctx.payment.mandate_status "REVOKED" ≡ false)
        × (str_eq ctx.payment.mandate_status "FAILED" ≡ false)
  pub method_valid : retries a ≡ true → str_eq ctx.payment.payment_method_status "INVALID" ≡ false
  pub opted_in : contacts a ≡ true → ctx.profile.opted_out ≡ false
  pub day_below :
      contacts a ≡ true
      → pos (history ctx.recent_actions ctx.timing.evaluated_at).day
        <ℤ ctx.merchant.max_contacts_per_day
  pub week_below :
      contacts a ≡ true
      → pos (history ctx.recent_actions ctx.timing.evaluated_at).week
        <ℤ ctx.merchant.max_contacts_per_week
  pub no_promise :
      (contacts a || retries a) ≡ true
      → a ≢ wait_for_promise_to_pay
      → has_active_promise ctx.active_promise ≡ false

promises_agree : (o : Option PromiseToPay) → promise_is_active o ≡ has_active_promise o
unfolding promise_is_active has_active_promise
promises_agree none = refl
promises_agree (some p) = refl

lists_agree : (l : List ActionType) (a : ActionType) → set_has l a ≡ contains_action l a
unfolding set_has contains_action
lists_agree l a = refl

plain :
    (a : ActionType)
    → (contacts a || retries a) ≡ true
    → (action_eq a stop ≡ false)
      × (action_eq a escalate_to_human ≡ false)
      × (action_eq a wait ≡ false)
unfolding contacts retries action_eq
plain a kind = ground arith

not_the_promise :
    (a : ActionType) → a ≢ wait_for_promise_to_pay → action_eq a wait_for_promise_to_pay ≡ false
not_the_promise a n = elim (Bool-cases (action_eq a wait_for_promise_to_pay)) [
  | inl e ↦ absurd (n (action_eq→≡ a wait_for_promise_to_pay e))
  | inr e ↦ e
]

free-PolicyLimitsHold :
    (ctx : DecisionContext) (s : Setting) (a : ActionType)
    → let t = history ctx.recent_actions ctx.timing.evaluated_at in
      s.now ≡ ctx.timing.evaluated_at
      → s.tallies.day ≡ t.day
      → s.tallies.week ≡ t.week
      → s.tallies.retries ≡ t.retry
      → (contacts a || retries a) ≡ true
      → exclusion_reason ctx s a ≡ none
      → PolicyLimitsHold ctx a
unfolding exclusion_reason
free-PolicyLimitsHold ctx s a at_now d w r kind free =
    let (cs, rs) = classes_agree a in
    let active = promises_agree ctx.active_promise in
    let listed = lists_agree ctx.merchant.allowed_actions a in
    let (not_stop, not_human, not_wait) = plain a kind in
    record {
      before_deadline = ground arith;
      unpaid = ground arith;
      listed = ground arith;
      retries_below = λ e. ground arith;
      mandate_alive = λ e. (ground arith, ground arith);
      method_valid = λ e. ground arith;
      opted_in = λ e. ground arith;
      day_below = λ e. ground arith;
      week_below = λ e. ground arith;
      no_promise = λ e n. ground (arith, not_the_promise a n);
    }

eligible-PolicyLimitsHold :
    (p : Platform) (ctx : DecisionContext) (a : ActionType)
    → (contacts a || retries a) ≡ true
    → exclusion_reason ctx (setting p ctx) a ≡ none
    → PolicyLimitsHold ctx a
unfolding setting
eligible-PolicyLimitsHold p ctx a kind free =
    let (d, w, r) = counts-history ctx.recent_actions ctx.timing.evaluated_at in
    free-PolicyLimitsHold ctx (setting p ctx) a refl d w r kind free

-- What the policy too asks of any retry or contact, and of each of the two.
pub record IsOpenTo (ctx : DecisionContext) (a : ActionType) : Type 0 where
  pub before_deadline : ctx.timing.evaluated_at < ctx.case_.recovery_deadline
  pub unpaid : ctx.payment.already_recovered ≡ false
  pub listed : contains_action ctx.merchant.allowed_actions a ≡ true

pub record ContactLimitsHold (ctx : DecisionContext) (a : ActionType) : Type 0 where
  pub open_to : IsOpenTo ctx a
  pub opted_in : ctx.profile.opted_out ≡ false
  pub day_below :
      pos (history ctx.recent_actions ctx.timing.evaluated_at).day
      <ℤ ctx.merchant.max_contacts_per_day
  pub week_below :
      pos (history ctx.recent_actions ctx.timing.evaluated_at).week
      <ℤ ctx.merchant.max_contacts_per_week

pub record RetryLimitsHold (ctx : DecisionContext) (a : ActionType) : Type 0 where
  pub open_to : IsOpenTo ctx a
  pub retries_below :
      pos (history ctx.recent_actions ctx.timing.evaluated_at).retry <ℤ ctx.merchant.max_retries
  pub mandate_alive :
      (str_eq ctx.payment.mandate_status "REVOKED" ≡ false)
      × (str_eq ctx.payment.mandate_status "FAILED" ≡ false)
  pub method_valid : str_eq ctx.payment.payment_method_status "INVALID" ≡ false

module _ (p : Platform) (ctx : DecisionContext) (a : ActionType)
    (free : exclusion_reason ctx (setting p ctx) a ≡ none) where
  -- An eligible contact meets the limits of the policy at the same instant: the deadline, the
  -- payment, the list of allowed actions, the opt-out, and the daily and the weekly limit on contacts.
  pub eligible-ContactLimitsHold : contacts a ≡ true → ContactLimitsHold ctx a
  eligible-ContactLimitsHold k =
      let l = eligible-PolicyLimitsHold p ctx a (ground arith) free in
      record {
        open_to = record {
          before_deadline = l.before_deadline;
          unpaid = l.unpaid;
          listed = l.listed;
        };
        opted_in = l.opted_in k;
        day_below = l.day_below k;
        week_below = l.week_below k;
      }

  -- An eligible retry meets the limits of the policy at the same instant: the deadline, the payment,
  -- the list of allowed actions, the limit on retries, the mandate and the payment method.
  pub eligible-RetryLimitsHold : retries a ≡ true → RetryLimitsHold ctx a
  eligible-RetryLimitsHold k =
      let l = eligible-PolicyLimitsHold p ctx a (ground arith) free in
      record {
        open_to = record {
          before_deadline = l.before_deadline;
          unpaid = l.unpaid;
          listed = l.listed;
        };
        retries_below = l.retries_below k;
        mandate_alive = l.mandate_alive k;
        method_valid = l.method_valid k;
      }

-- Minute `m` of a day lies in the daily window from `s` up to `e`, which may pass midnight.
abbrev pub IsWithin : ℕ → ℕ → ℕ → Type 0
IsWithin s e m = (m + 1440 - s) % 1440 < (e + 1440 - s) % 1440

utc_minute-bound : (now : Time) → utc_minute now < 1440
unfolding utc_minute
utc_minute-bound now = omega arith

-- For a window whose two ends can be read as times of a day, the policy is quiet exactly where the
-- merchant's clock lies in the window, and the eligibility rules are quiet exactly where the UTC clock
-- does, also for a window that passes midnight. The zone of the merchant can be loaded.
pub quiet_hours_lem :
    (p : Platform) (raw : RawJson) (zone from until : String) (now : Time) (h m sh sm eh em : ℕ)
    → p.decode_window raw ≡ some (from, until)
    → str_eq from "" ≡ false
    → str_eq until "" ≡ false
    → p.local_clock zone now ≡ some (h, m)
    → p.parse_clock from ≡ some (sh, sm)
    → p.parse_clock until ≡ some (eh, em)
    → h * 60 + m < 1440
    → sh * 60 + sm < 1440
    → eh * 60 + em < 1440
    → ((in_quiet_hours p raw zone now ≡ true) ↔ IsWithin (sh * 60 + sm) (eh * 60 + em) (h * 60 + m))
      × ((quiet_now p raw now ≡ true) ↔ IsWithin (sh * 60 + sm) (eh * 60 + em) (utc_minute now))
unfolding in_quiet_hours quiet_now quiet_at window_holds
quiet_hours_lem p raw zone from until now h m sh sm eh em e f u l k k' hm hs he =
    let policy : in_quiet_hours p raw zone now
        ≡ in_window (sh * 60 + sm) (eh * 60 + em) (h * 60 + m) =
      ground arith in
    let rules : quiet_now p raw now ≡ in_window (sh * 60 + sm) (eh * 60 + em) (utc_minute now) =
      ground arith in
    let (a, b) = in_window_iff (sh * 60 + sm) (eh * 60 + em) (h * 60 + m) hs he hm in
    let (c, d) =
      in_window_iff (sh * 60 + sm) (eh * 60 + em) (utc_minute now) hs he (utc_minute-bound now) in
    (((λ q. a (sym policy ∙ q)), λ q. policy ∙ b q), ((λ q. c (sym rules ∙ q)), λ q. rules ∙ d q))
