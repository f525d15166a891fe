-- ===== src/Eligibility/Partition.antt =====
-- The `switch` and the loop of `Evaluate` in backend/internal/eligibility/eligibility.go.
use razorpay_ai_revenue_reco.Base.{
  ℕ, ◌≡◌, refl, ap, sym, subst, ◌∙◌, ◌≤◌, ◌<◌, ◌≢◌, ◌+◌, ◌⊎◌, inl, inr, map, Bool, true, false, not,
  ◌&&◌, ◌||◌, Option, none, some, List, [], ◌∷◌, ◌++◌, arith, str_eq,
}
use razorpay_ai_revenue_reco.Base.Tests.{if◌then◌else◌, Bool-cases}
use mathlib.Core.Path.{fun_ext}
use mathlib.Core.List.{append-nil, append_assoc, map-append}
use razorpay_ai_revenue_reco.Base.Int.{pos, leb_ℤ}
use razorpay_ai_revenue_reco.Base.Lists.{is_empty, keep}
use razorpay_ai_revenue_reco.Base.Clock.{after}
use razorpay_ai_revenue_reco.Domain.Actions.{
  ActionType, wait, wait_for_promise_to_pay, escalate_to_human, stop, action_eq, other, action_eq→≡,
  occurrences,
}
use razorpay_ai_revenue_reco.Domain.States.{recovered, state_eq, state_eq_refl, state_eq→≡}
use razorpay_ai_revenue_reco.Context.{DecisionContext, Platform}
use razorpay_ai_revenue_reco.Eligibility.Rules.{
  ExclusionReason, Result, Setting, setting, all_actions, contact_actions, retry_actions,
  compatible, set_has, in_cooldown, promise_is_active, payment_already_recovered,
  recovery_window_expired, leak_type_incompatible, merchant_action_not_allowed,
  active_promise_to_pay, customer_opt_out, channel_unavailable, quiet_hours, max_contacts_reached,
  max_retries_reached, mandate_unavailable, payment_method_invalid, retry_cooldown, action_cooldown,
}

-- The cases of the `switch` from the mandate on.
reason_for_retry : DecisionContext → Setting → ActionType → Option ExclusionReason
reason_for_retry ctx s a =
    if retry_actions a
      && (str_eq ctx.payment.mandate_status "REVOKED" || str_eq ctx.payment.mandate_status "FAILED")
    then some mandate_unavailable
    else if retry_actions a && str_eq ctx.payment.payment_method_status "INVALID"
    then some payment_method_invalid
    else if retry_actions a && in_cooldown ctx.recent_actions a s.now interval
    then some retry_cooldown
    else if contact_actions a && in_cooldown ctx.recent_actions a s.now interval
    then some action_cooldown
    else none
  where
    open ctx.merchant use {minimum_contact_interval_minutes as interval}

-- The cases from the active promise to the limit on retries.
reason_for_contact : DecisionContext → Setting → ActionType → Option ExclusionReason
unfolding reason_for_retry action_eq
reason_for_contact ctx s a =
    if promise_is_active ctx.active_promise
      && (retry_actions a || contact_actions a)
      && not (action_eq a wait_for_promise_to_pay)
    then some active_promise_to_pay
    else if ctx.profile.opted_out && contact_actions a
    then some customer_opt_out
    else if contact_actions a && is_empty s.channels
    then some channel_unavailable
    else if contact_actions a && s.in_quiet
    then some quiet_hours
    else if contact_actions a
        && (leb_ℤ ctx.merchant.max_contacts_per_day (pos s.tallies.day)
            || leb_ℤ ctx.merchant.max_contacts_per_week (pos s.tallies.week))
    then some max_contacts_reached
    else if retry_actions a && leb_ℤ ctx.merchant.max_retries (pos s.tallies.retries)
    then some max_retries_reached
    else reason_for_retry ctx s a

-- The first two cases select by the state of the case, and then exclude all but `stop`.
unfoldable pub exclusion_reason : DecisionContext → Setting → ActionType → Option ExclusionReason
unfolding reason_for_contact action_eq
exclusion_reason ctx s a =
    if ctx.payment.already_recovered || state_eq ctx.case_.current_state recovered
    then (if action_eq a stop then none else some payment_already_recovered)
    else if not (after ctx.case_.recovery_deadline s.now)
    then (if action_eq a stop then none else some recovery_window_expired)
    else if not (compatible ctx.case_.leak_type a)
    then some leak_type_incompatible
    else if not (action_eq a stop)
        && not (action_eq a escalate_to_human)
        && not (action_eq a wait)
        && not (set_has ctx.merchant.allowed_actions a)
    then some merchant_action_not_allowed
    else reason_for_contact ctx s a

place : ActionType → Option ExclusionReason → Result → Result
place a none r = record r { eligible_actions = r.eligible_actions ++ a ∷ [] }
place a (some why) r = record r {
  excluded_actions = r.excluded_actions ++ record { action = a; reason = why } ∷ [];
}

evaluate_from : DecisionContext → Setting → List ActionType → Result → Result
unfolding place
evaluate_from ctx s [] r = r
evaluate_from ctx s (a ∷ rest) r = evaluate_from ctx s rest (place a (exclusion_reason ctx s a) r)

unfoldable pub evaluate : Platform → DecisionContext → Result
unfolding evaluate_from
evaluate p ctx = evaluate_from ctx (setting p ctx) all_actions (record {
  eligible_actions = [];
  excluded_actions = [];
  evaluated_at = ctx.timing.evaluated_at;
})

is_free : Option ExclusionReason → Bool
is_free none = true
is_free (some why) = false

unfoldable pub is_eligible : DecisionContext → Setting → ActionType → Bool
unfolding is_free
is_eligible ctx s a = is_free (exclusion_reason ctx s a)

-- The actions of the exclusions, in order.
abbrev pub excluded : Result → List ActionType
excluded r = map (λ e. e.action) r.excluded_actions

is_excluded : DecisionContext → Setting → ActionType → Bool
is_excluded ctx s a = not (is_eligible ctx s a)

place_lem :
    (a : ActionType) (o : Option ExclusionReason) (es xs : List ActionType) (r : Result)
    → let t = place a o r in
      (t.eligible_actions ++ es ≡ r.eligible_actions ++ (if is_free o then a ∷ es else es))
      × (excluded t ++ xs ≡ excluded r ++ (if not (is_free o) then a ∷ xs else xs))
unfolding place is_free
place_lem a none es xs r = (append_assoc r.eligible_actions (a ∷ []) es, refl)
place_lem a (some why) es xs r = (refl, simp map-append (append_assoc (excluded r) (a ∷ []) xs))

evaluate_from_lem :
    (ctx : DecisionContext) (s : Setting) (actions : List ActionType) (r : Result)
    → let t = evaluate_from ctx s actions r in
      (t.eligible_actions ≡ r.eligible_actions ++ keep (is_eligible ctx s) actions)
      × (excluded t ≡ excluded r ++ keep (is_excluded ctx s) actions)
unfolding evaluate_from is_eligible is_excluded
evaluate_from_lem ctx s [] r = (simp append-nil, simp append-nil)
evaluate_from_lem ctx s (a ∷ rest) r =
    let (e, x) = evaluate_from_lem ctx s rest (place a (exclusion_reason ctx s a) r) in
    let (e', x') = place_lem a (exclusion_reason ctx s a) _ _ r in (e ∙ e', x ∙ x')

evaluate_keeps :
    (p : Platform) (ctx : DecisionContext)
    → let r = evaluate p ctx in
      let ok = is_eligible ctx (setting p ctx) in
      (r.eligible_actions ≡ keep ok all_actions) × (excluded r ≡ keep (λ a. not (ok a)) all_actions)
unfolding evaluate is_excluded
evaluate_keeps p ctx = evaluate_from_lem ctx (setting p ctx) all_actions _

abbrev pub IsClosed : DecisionContext → Type 0
IsClosed ctx =
    (ctx.payment.already_recovered ≡ true)
    ⊎ (ctx.case_.current_state ≡ recovered)
    ⊎ (ctx.case_.recovery_deadline ≤ ctx.timing.evaluated_at)

-- A case that is neither paid nor past its deadline.
abbrev pub IsOpen : DecisionContext → Type 0
IsOpen ctx =
    (ctx.payment.already_recovered ≡ false)
    × (ctx.case_.current_state ≢ recovered)
    × (ctx.timing.evaluated_at < ctx.case_.recovery_deadline)

-- The constants of `ActionType`.
abbrev pub is_named : ActionType → Bool
is_named (other s) = false
is_named _ = true

occurrences-keep :
    (a : ActionType) (ok : ActionType → Bool) (l : List ActionType)
    → (occurrences a (keep ok l) + occurrences a (keep (λ b. not (ok b)) l) ≡ occurrences a l)
      × (ok a ≡ true → occurrences a (keep ok l) ≡ occurrences a l)
unfolding occurrences
occurrences-keep a ok [] = (omega arith, λ h. omega arith)
occurrences-keep a ok (b ∷ l) =
    let (n, k) = occurrences-keep a ok l in
    (ground arith, λ h. go h k (action_eq a b) refl (ok b) refl)
  where
    go :
        ok a ≡ true
        → (ok a ≡ true → occurrences a (keep ok l) ≡ occurrences a l)
        → (c : Bool) → action_eq a b ≡ c
        → (d : Bool) → ok b ≡ d
        → occurrences a (if d then b ∷ keep ok l else keep ok l)
          ≡ (if c then 1 else 0) + occurrences a l
    go h k c e true f = ground (arith, k h)
    go h k false e false f = ground (arith, k h)
    go h k true e false f = cc (ap ok (action_eq→≡ a b e), h, f)

all_once : (a : ActionType) → occurrences a all_actions ≡ (if is_named a then 1 else 0)
unfolding occurrences all_actions action_eq
all_once a = ground arith

is_eligible_closed :
    (p : Platform) (ctx : DecisionContext)
    → IsClosed ctx
    → (a : ActionType) → is_eligible ctx (setting p ctx) a ≡ action_eq a stop
unfolding exclusion_reason setting is_eligible
is_eligible_closed p ctx (inl e) a = ground arith
is_eligible_closed p ctx (inr (inl e)) a = ground (arith, state_eq_refl recovered)
is_eligible_closed p ctx (inr (inr e)) a = ground arith

-- A case that is paid, or whose deadline has come, leaves `STOP` as the only eligible action.
evaluate_closed :
    (p : Platform) (ctx : DecisionContext)
    → IsClosed ctx
    → (evaluate p ctx).eligible_actions ≡ stop ∷ []
unfolding all_actions action_eq
evaluate_closed p ctx h =
    (evaluate_keeps p ctx).0 ∙ ap (λ ok. keep ok all_actions) (fun_ext (is_eligible_closed p ctx h))

open_eligible :
    (p : Platform) (ctx : DecisionContext) (a : ActionType)
    → IsOpen ctx
    → (a ≡ wait) ⊎ (a ≡ escalate_to_human) ⊎ (a ≡ stop)
    → is_eligible ctx (setting p ctx) a ≡ true
unfolding exclusion_reason setting is_eligible compatible action_eq contact_actions retry_actions
open_eligible p ctx a (u, v, w) k =
    let live : state_eq ctx.case_.current_state recovered ≡ false =
      elim (Bool-cases (state_eq ctx.case_.current_state recovered)) [
        | inl e ↦ absurd (v (state_eq→≡ ctx.case_.current_state recovered e))
        | inr e ↦ e
      ] in
    elim k [
      | inl e ↦ subst (λ b. is_eligible ctx (setting p ctx) b ≡ true) (sym e) (ground (arith, live))
      | inr (inl e) ↦
          subst (λ b. is_eligible ctx (setting p ctx) b ≡ true) (sym e) (ground (arith, live))
      | inr (inr e) ↦
          subst (λ b. is_eligible ctx (setting p ctx) b ≡ true) (sym e) (ground (arith, live))
    ]

-- Each of the twelve actions is placed exactly once, among the eligible ones or among the excluded
-- ones, and no other is placed. A case that is paid, or whose deadline has come, leaves `STOP` as the
-- only eligible action, and a case that is neither always leaves `WAIT`, `ESCALATE_TO_HUMAN` and
-- `STOP`, each once.
pub evaluate_partitions :
    (p : Platform) (ctx : DecisionContext)
    → let r = evaluate p ctx in
      ((a : ActionType)
        → occurrences a r.eligible_actions + occurrences a (excluded r)
          ≡ (if is_named a then 1 else 0))
      × (IsClosed ctx → r.eligible_actions ≡ stop ∷ [])
      × (IsOpen ctx
          → (a : ActionType) → (a ≡ wait) ⊎ (a ≡ escalate_to_human) ⊎ (a ≡ stop)
          → occurrences a r.eligible_actions ≡ 1)
evaluate_partitions p ctx =
    let ok = is_eligible ctx (setting p ctx) in
    let (e, x) = evaluate_keeps p ctx in
    (
      λ a.
          ap (λ l. occurrences a l + occurrences a (excluded (evaluate p ctx))) e
          ∙ ap (λ l. occurrences a (keep ok all_actions) + occurrences a l) x
          ∙ (occurrences-keep a ok all_actions).0
          ∙ all_once a,
      evaluate_closed p ctx,
      λ o a k.
          ap (occurrences a) e
          ∙ (occurrences-keep a ok all_actions).1 (open_eligible p ctx a o k)
          ∙ all_once a
          ∙ named k,
    )
  where
    named :
        {a : ActionType}
        → (a ≡ wait) ⊎ (a ≡ escalate_to_human) ⊎ (a ≡ stop)
        → ◌≡◌ {A = ℕ} (if is_named a then 1 else 0) 1
    named (inl q) = ap (λ b. if is_named b then 1 else 0) q
    named (inr (inl q)) = ap (λ b. if is_named b then 1 else 0) q
    named (inr (inr q)) = ap (λ b. if is_named b then 1 else 0) q
