-- ===== src/Policy/Safety.antt =====
-- What an approval of backend/internal/policy/policy.go guarantees of the case and the customer.
use razorpay_ai_revenue_reco.Base.{ℕ, String, ◌<◌, ◌*◌, ◌≡◌, ◌≢◌, true, false, [], arith, str_eq}
use razorpay_ai_revenue_reco.Base.Int.{pos, ◌<ℤ◌}
use razorpay_ai_revenue_reco.Base.Lists.{keep, length}
use razorpay_ai_revenue_reco.Base.Clock.{Time, hour_ns}
use razorpay_ai_revenue_reco.Domain.States.{is_terminal}
use razorpay_ai_revenue_reco.Context.{DecisionContext, Platform, is_non_recoverable}
use razorpay_ai_revenue_reco.Optimizer.Candidate.{Candidate}
use razorpay_ai_revenue_reco.Gate.{GateResult, allow}
use razorpay_ai_revenue_reco.Policy.History.{
  contacts, retries, in_quiet_hours, is_retry, contact_within, history_counts,
}
use razorpay_ai_revenue_reco.Policy.Rules.{rules, has_active_promise, is_blocked}
use razorpay_ai_revenue_reco.Policy.Tally.{approve, evaluate}
use razorpay_ai_revenue_reco.Policy.Approval.{approve_means_none}

-- The contacts of a span of time that ends at `now`.
abbrev pub contacts_within : ℕ → DecisionContext → Time → ℕ
contacts_within span ctx now = length (keep (contact_within span now) ctx.recent_actions)

-- What protects the merchant, for any action.
pub record IsCurrent (ctx : DecisionContext) (v : ℕ) (g : GateResult) (now : Time) : Type 0 where
  pub in_window : now < ctx.case_.recovery_deadline
  pub in_progress : is_terminal ctx.case_.current_state ≡ false
  pub unpaid : ctx.payment.already_recovered ≡ false
  pub same_version : ctx.case_.version ≡ v
  pub worth_it : g.decision ≡ allow

-- What protects the customer, for an action that contacts one.
pub record MayContact (p : Platform) (ctx : DecisionContext) (now : Time) : Type 0 where
  pub opted_in : ctx.profile.opted_out ≡ false
  pub day_below : pos (contacts_within (24 * hour_ns) ctx now) <ℤ ctx.merchant.max_contacts_per_day
  pub week_below :
      pos (contacts_within (7 * (24 * hour_ns)) ctx now) <ℤ ctx.merchant.max_contacts_per_week
  pub awake : in_quiet_hours p ctx.merchant.quiet_hours ctx.merchant.timezone now ≡ false
  pub no_promise : has_active_promise ctx.active_promise ≡ false
  pub has_channel : (ctx.merchant.allowed_channels ≢ []) × (ctx.payment.available_channels ≢ [])

-- What an action that retries a payment needs.
pub record MayRetry (ctx : DecisionContext) : Type 0 where
  pub retries_below : pos (length (keep is_retry ctx.recent_actions)) <ℤ ctx.merchant.max_retries
  pub recoverable : is_non_recoverable ctx.diagnosis.recoverability ≡ false
  pub no_promise : has_active_promise ctx.active_promise ≡ false
  pub mandate_alive :
      (str_eq ctx.payment.mandate_status "REVOKED" ≡ false)
      × (str_eq ctx.payment.mandate_status "FAILED" ≡ false)
  pub method_valid : str_eq ctx.payment.payment_method_status "INVALID" ≡ false

module _ (p : Platform) (ctx : DecisionContext) (id : String) (v : ℕ) (c : Candidate)
    (g : GateResult) (now : Time)
    (approved : (evaluate p ctx id v c g now).decision ≡ approve) where
  -- An approved decision is current: the deadline lies ahead, the case is neither terminal nor paid,
  -- its version is the decision's, and the economic gate allowed the candidate.
  pub approve-IsCurrent : IsCurrent ctx v g now
  unfolding rules is_blocked
  approve-IsCurrent =
      let none_fires = approve_means_none p ctx id v c g now approved in ground arith

  -- An approved action that contacts the customer reaches one who has not opted out, who has been
  -- contacted less often than the daily and the weekly limit, outside the quiet hours, with no
  -- active promise to pay, and on a channel.
  pub approve-MayContact : contacts c.action ≡ true → MayContact p ctx now
  unfolding rules
  approve-MayContact h =
      let none_fires = approve_means_none p ctx id v c g now approved in
      let (r, d, w, lc, lr) = history_counts ctx.recent_actions now in ground arith

  -- An approved retry stays below the merchant's limit, the failure is not one that cannot be
  -- recovered, no promise is active, the mandate is neither revoked nor failed, and the payment
  -- method is not invalid.
  pub approve-MayRetry : retries c.action ≡ true → MayRetry ctx
  unfolding rules
  approve-MayRetry h =
      let none_fires = approve_means_none p ctx id v c g now approved in
      let (r, d, w, lc, lr) = history_counts ctx.recent_actions now in ground arith
