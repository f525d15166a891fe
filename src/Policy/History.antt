-- ===== src/Policy/History.antt =====
-- The action classes, the loop `history` and the quiet hours of backend/internal/policy/policy.go.
use razorpay_ai_revenue_reco.Base.{
  ℕ, String, ◌+◌, ◌*◌, ◌≤◌, ◌≡◌, Bool, true, false, ◌&&◌, ◌||◌, Option, none, some, List, [], ◌∷◌,
  arith, str_eq,
}
use razorpay_ai_revenue_reco.Base.Tests.{leb, if◌then◌else◌}
use razorpay_ai_revenue_reco.Base.Int.{pos, leb_ℤ}
use razorpay_ai_revenue_reco.Base.Lists.{All, keep, length}
use razorpay_ai_revenue_reco.Base.Clock.{Time, hour_ns, after, sub_time, in_window, sub_time-le_iff}
use razorpay_ai_revenue_reco.Domain.Actions.{
  ActionType, retry_now, retry_later, send_reminder, send_payment_link, send_checkout_recovery_link,
  request_payment_method_update, suggest_alternate_method, wait_for_promise_to_pay,
  retention_action,
}
use razorpay_ai_revenue_reco.Domain.Entities.{RawJson}
use razorpay_ai_revenue_reco.Context.{RecentAction, Platform}

-- The map `contacts`.
unfoldable pub contacts : ActionType → Bool
contacts send_reminder = true
contacts send_payment_link = true
contacts send_checkout_recovery_link = true
contacts request_payment_method_update = true
contacts suggest_alternate_method = true
contacts wait_for_promise_to_pay = true
contacts retention_action = true
contacts _ = false

-- The map `retries`.
unfoldable pub retries : ActionType → Bool
retries retry_now = true
retries retry_later = true
retries _ = false

-- The named results of `history`.
pub record Tallies : Type 0 where
  pub retry : ℕ
  pub day : ℕ
  pub week : ℕ
  pub last_contact : Time
  pub last_retry : Time

unfoldable pub note_retry : RecentAction → Tallies → Tallies
note_retry a t =
    if retries a.action
    then record t {
      retry = t.retry + 1;
      last_retry = if after a.created_at t.last_retry then a.created_at else t.last_retry;
    }
    else t

unfoldable pub note_contact : Time → RecentAction → Tallies → Tallies
note_contact now a t =
    if contacts a.action
    then record t {
      day = if leb_ℤ (sub_time now a.created_at) (pos (24 * hour_ns)) then t.day + 1 else t.day;
      week =
          if leb_ℤ (sub_time now a.created_at) (pos (7 * (24 * hour_ns)))
          then t.week + 1
          else t.week;
      last_contact = if after a.created_at t.last_contact then a.created_at else t.last_contact;
    }
    else t

unfoldable pub history_from : Time → List RecentAction → Tallies → Tallies
unfolding note_retry note_contact
history_from now [] t = t
history_from now (a ∷ rest) t = history_from now rest (note_contact now a (note_retry a t))

abbrev start : Tallies
start = record { retry = 0; day = 0; week = 0; last_contact = 0; last_retry = 0 }

unfoldable pub history : List RecentAction → Time → Tallies
unfolding history_from
history actions now = history_from now actions start

-- From the decoded window on: a zone or a time that cannot be read counts as quiet.
unfoldable pub quiet_at : Option (ℕ × ℕ) → Option (ℕ × ℕ) → Option (ℕ × ℕ) → Bool
quiet_at (some (h, m)) (some (sh, sm)) (some (eh, em)) =
    in_window (sh * 60 + sm) (eh * 60 + em) (h * 60 + m)
quiet_at _ _ _ = true

unfoldable pub in_quiet_hours : Platform → RawJson → String → Time → Bool
unfolding quiet_at
in_quiet_hours p raw timezone now = elim (p.decode_window raw) [
  | none ↦ false
  | some (from, until) ↦
      if str_eq from "" || str_eq until ""
      then false
      else quiet_at (p.local_clock timezone now) (p.parse_clock from) (p.parse_clock until)
]

pub is_retry : RecentAction → Bool
is_retry a = retries a.action

pub contact_within : ℕ → Time → RecentAction → Bool
contact_within span now a = contacts a.action && leb now (a.created_at + span)

history_from_retries :
    (now : Time) (actions : List RecentAction) (t : Tallies)
    → (history_from now actions t).retry ≡ t.retry + length (keep is_retry actions)
unfolding history_from is_retry
history_from_retries now [] t = omega arith
history_from_retries now (a ∷ rest) t =
    ground (arith, history_from_retries now rest (note_contact now a (note_retry a t)))

history_from_days :
    (now : Time) (actions : List RecentAction) (t : Tallies)
    → (history_from now actions t).day
      ≡ t.day + length (keep (contact_within (24 * hour_ns) now) actions)
unfolding history_from contact_within
history_from_days now [] t = omega arith
history_from_days now (a ∷ rest) t = ground (
  arith,
  history_from_days now rest (note_contact now a (note_retry a t)),
  sub_time-le_iff now a.created_at (24 * hour_ns) (omega arith),
)

history_from_weeks :
    (now : Time) (actions : List RecentAction) (t : Tallies)
    → (history_from now actions t).week
      ≡ t.week + length (keep (contact_within (7 * (24 * hour_ns)) now) actions)
unfolding history_from contact_within
history_from_weeks now [] t = omega arith
history_from_weeks now (a ∷ rest) t = ground (
  arith,
  history_from_weeks now rest (note_contact now a (note_retry a t)),
  sub_time-le_iff now a.created_at (7 * (24 * hour_ns)) (omega arith),
)

history_from_last :
    (now : Time) (actions : List RecentAction) (t : Tallies)
    → let r = history_from now actions t in
      (t.last_contact ≤ r.last_contact)
      × (t.last_retry ≤ r.last_retry)
      × All (λ a. contacts a.action ≡ true → a.created_at ≤ r.last_contact) actions
      × All (λ a. retries a.action ≡ true → a.created_at ≤ r.last_retry) actions
unfolding history_from
history_from_last now [] t = (omega arith, omega arith, tt, tt)
history_from_last now (a ∷ rest) t =
    let (c, r, cs, rs) = history_from_last now rest (note_contact now a (note_retry a t)) in
    (ground arith, ground arith, (λ e. ground arith, cs), (λ e. ground arith, rs))

-- What the loop counts: the retries, and the contacts of the last 24 hours and of the last seven
-- days, whatever the saturation of `Sub`.
pub history_tallies :
    (actions : List RecentAction) (now : Time)
    → let r = history actions now in
      (r.retry ≡ length (keep is_retry actions))
      × (r.day ≡ length (keep (contact_within (24 * hour_ns) now) actions))
      × (r.week ≡ length (keep (contact_within (7 * (24 * hour_ns)) now) actions))
unfolding history
history_tallies actions now = (
  omega (arith, history_from_retries now actions start),
  omega (arith, history_from_days now actions start),
  omega (arith, history_from_weeks now actions start),
)

-- No contact is later than the last one that the loop finds, and no retry.
pub history_counts :
    (actions : List RecentAction) (now : Time)
    → let r = history actions now in
      (r.retry ≡ length (keep is_retry actions))
      × (r.day ≡ length (keep (contact_within (24 * hour_ns) now) actions))
      × (r.week ≡ length (keep (contact_within (7 * (24 * hour_ns)) now) actions))
      × All (λ a. contacts a.action ≡ true → a.created_at ≤ r.last_contact) actions
      × All (λ a. retries a.action ≡ true → a.created_at ≤ r.last_retry) actions
unfolding history
history_counts actions now = (
  omega (arith, history_from_retries now actions start),
  omega (arith, history_from_days now actions start),
  omega (arith, history_from_weeks now actions start),
  (history_from_last now actions start).2,
  (history_from_last now actions start).3,
)
