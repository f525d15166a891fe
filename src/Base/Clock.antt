-- ===== src/Base/Clock.antt =====
-- What the program uses of Go's package `time`. A time is a number of nanoseconds since the zero
-- time, midnight of 1 January of year 1 in UTC; a duration is an `int64` number of nanoseconds.
use razorpay_ai_revenue_reco.Base.Tests.{ltb, leb, if◌then◌else◌}
use razorpay_ai_revenue_reco.Base.Int.{ℤ, pos, negsuc, two63, leb_ℤ, ltb_ℤ, ◌*₆₄◌}
use Prim.Native.Nat.{ℕ, ◌+◌, ◌-◌, ◌*◌, ◌/◌, ◌%◌, ◌<◌}
use mathlib.Core.Path.{◌≡◌}
use mathlib.Core.Logic.{◌↔◌}
use mathlib.Core.Bool.{Bool, true, ◌&&◌, ◌||◌}
use native.Mathlib.Omega.{arith}

abbrev pub Time : Type 0
Time = ℕ

abbrev pub minute_ns : ℕ
minute_ns = 60000000000

abbrev pub hour_ns : ℕ
hour_ns = 60 * minute_ns

-- `t.After(u)`
abbrev pub after : Time → Time → Bool
after t u = ltb u t

-- `t.IsZero()`
abbrev pub is_zero : Time → Bool
is_zero t = leb t 0

-- `t.Sub(u)`, which saturates at the ends of the range of a duration.
unfoldable pub sub_time : Time → Time → ℤ
sub_time t u =
    if leb u t
    then (if ltb (t - u) two63 then pos (t - u) else pos (two63 - 1))
    else (if leb (u - t) two63 then negsuc (u - t - 1) else negsuc (two63 - 1))

-- `time.Duration(n) * time.Minute`
unfoldable pub minutes : ℤ → ℤ
minutes n = n *₆₄ pos minute_ns

-- `t.Hour()*60 + t.Minute()` of a time in UTC.
unfoldable pub utc_minute : Time → ℕ
utc_minute t = (t / minute_ns) % 1440

-- The test of a daily window that may pass midnight: from minute `s` up to minute `e`.
unfoldable pub in_window : ℕ → ℕ → ℕ → Bool
in_window s e minute =
    if leb s e then leb s minute && ltb minute e else leb s minute || ltb minute e

-- A bounded age is a bound on the time, whether or not the subtraction saturates.
pub sub_time-le_iff : (t u k : ℕ) → k < two63 - 1 → (leb_ℤ (sub_time t u) (pos k) ≡ leb t (u + k))
unfolding sub_time
sub_time-le_iff t u k h = ground arith

pub sub_time-lt_iff : (t u k : ℕ) → k < two63 → (ltb_ℤ (sub_time t u) (pos k) ≡ ltb t (u + k))
unfolding sub_time
sub_time-lt_iff t u k h = ground arith

-- The minutes of a day that the window holds, counted from its start.
pub in_window_iff :
    (s e m : ℕ)
    → s < 1440
    → e < 1440
    → m < 1440
    → (in_window s e m ≡ true) ↔ ((m + 1440 - s) % 1440 < (e + 1440 - s) % 1440)
unfolding in_window
in_window_iff s e m hs he hm = (λ h. ground arith, λ h. ground arith)
