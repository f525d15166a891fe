-- ===== src/Promises/Texts.antt =====
-- The promised time that a text names: `Extract` and `parseClock` of
-- backend/internal/promises/promises.go. The regular expressions, the calendar of a location and
-- the string functions of Go's library are arguments.
use razorpay_ai_revenue_reco.Base.{
  ℕ, String, ◌+◌, ◌-◌, ◌%◌, ◌≤◌, ◌<◌, ◌≡◌, Bool, false, ◌&&◌, ◌||◌, not, Option, none, some, List,
  [], ◌∷◌, str_eq, arith,
}
use razorpay_ai_revenue_reco.Base.Tests.{◌==◌, ltb, if◌then◌else◌}
use razorpay_ai_revenue_reco.Base.Clock.{Time, after, is_zero}
use razorpay_ai_revenue_reco.Domain.Entities.{Float64}

-- A match of `clockTime`: the hour, the minute where there is one, and "am", "pm" or "".
pub record ClockMatch : Type 0 where
  pub hour : ℕ
  pub minute : Option ℕ
  pub meridiem : String

-- A match of `isoDate`: the date, and the hour and the minute where a time follows (0 and 0 where it
-- cannot be parsed).
pub record DateMatch : Type 0 where
  pub date : String
  pub clock : Option (ℕ × ℕ)

-- Days are numbered; `weekday` counts from Sunday, 0, to Saturday, 6.
pub record Calendar : Type 0 where
  pub lower_trim : String → String
  pub contains : String → String → Bool
  pub find_clock : String → Option ClockMatch
  pub find_date : String → Option DateMatch
  -- `time.ParseInLocation("2006-01-02", …)`
  pub parse_day : String → String → Option ℕ
  pub day_of : String → Time → ℕ
  pub weekday : String → Time → ℕ
  -- `time.Date` of a day, an hour and a minute in a location
  pub at_clock : String → ℕ → ℕ → ℕ → Time
  -- the names and the numbers of `weekdays`, in the order in which the map is ranged over
  pub weekdays : List (String × ℕ)
  -- .99, .95, .88 and .82
  pub sure : Float64
  pub of_date : Float64
  pub of_tomorrow : Float64
  pub of_weekday : Float64

pub record Extraction : Type 0 where
  pub promised_for : Time
  pub confidence : Float64
  pub extracted_at : Time

pub data ExtractError : Type 0 where
  not_in_future no_text invalid_date ambiguous_date : ExtractError

pub data Extracted : Type 0 where
  extracted : Extraction → Extracted
  not_extracted : ExtractError → Extracted

or_zero : Option ℕ → ℕ
or_zero none = 0
or_zero (some m) = m

-- The two adjustments of the hour, one after the other.
unfoldable pub to_24_hours : ℕ → String → ℕ
to_24_hours hour meridiem =
    let raised = if str_eq meridiem "pm" && ltb hour 12 then hour + 12 else hour in
    if str_eq meridiem "am" && (raised == 12) then 0 else raised

unfoldable pub clock_of : Option ClockMatch → ℕ → ℕ → ℕ × ℕ
unfolding or_zero to_24_hours
clock_of none fallback_hour fallback_minute = (fallback_hour, fallback_minute)
clock_of (some m) fallback_hour fallback_minute =
    let hour = to_24_hours m.hour m.meridiem in
    let minute = or_zero m.minute in
    if ltb 23 hour || ltb 59 minute then (fallback_hour, fallback_minute) else (hour, minute)

-- `parseClock`
unfoldable pub parse_clock : Calendar → String → ℕ → ℕ → ℕ × ℕ
unfolding clock_of
parse_clock cal text hour minute = clock_of (cal.find_clock text) hour minute

-- Days from a weekday to the next day of that name: a week where it is the same.
unfoldable pub days_until : ℕ → ℕ → ℕ
days_until weekday today = let days = (weekday + 7 - today) % 7 in if days == 0 then 7 else days

-- The first weekday, in the order of the range, whose name the text contains.
unfoldable pub find_weekday : Calendar → String → List (String × ℕ) → Option ℕ
find_weekday cal text [] = none
find_weekday cal text ((name, weekday) ∷ ws) =
    let rest = find_weekday cal text ws in if cal.contains text name then some weekday else rest

-- A promised time before it is compared with the clock.
pub data Reading : Type 0 where
  reading : Time → Float64 → Reading
  no_reading : ExtractError → Reading

on_day : Calendar → String → String → Time → ℕ → Float64 → Reading
on_day cal location text now days confidence =
    let clock = parse_clock cal text 10 0 in
    reading (cal.at_clock location (cal.day_of location now + days) clock.0 clock.1) confidence

of_weekday_found : Calendar → String → String → Time → Option ℕ → Reading
unfolding on_day
of_weekday_found cal location text now none = no_reading ambiguous_date
of_weekday_found cal location text now (some w) =
    on_day cal location text now (days_until w (cal.weekday location now)) cal.of_weekday

date_clock : Option (ℕ × ℕ) → ℕ × ℕ
date_clock none = (10, 0)
date_clock (some c) = c

of_day : Calendar → String → Option (ℕ × ℕ) → Option ℕ → Reading
unfolding date_clock
of_day cal location clock none = no_reading invalid_date
of_day cal location clock (some d) =
    reading (cal.at_clock location d (date_clock clock).0 (date_clock clock).1) cal.of_date

unfoldable pub read_text : Calendar → String → String → Time → Option DateMatch → Reading
unfolding of_day on_day of_weekday_found
read_text cal location text now (some m) =
    of_day cal location m.clock (cal.parse_day m.date location)
read_text cal location text now none =
    if cal.contains text "tomorrow"
    then on_day cal location text now 1 cal.of_tomorrow
    else of_weekday_found cal location text now (find_weekday cal text cal.weekdays)

-- The two checks at the end.
unfoldable pub checked_reading : Time → Reading → Extracted
checked_reading now (no_reading e) = not_extracted e
checked_reading now (reading t confidence) =
    if is_zero t
    then not_extracted ambiguous_date
    else if not (after t now)
    then not_extracted not_in_future
    else extracted (record { promised_for = t; confidence = confidence; extracted_at = now })

-- `Extract`, for a location that is not nil.
unfoldable pub extract : Calendar → String → Option Time → Time → String → Extracted
unfolding checked_reading
extract cal text (some t) now location =
    if not (after t now)
    then not_extracted not_in_future
    else extracted (record { promised_for = t; confidence = cal.sure; extracted_at = now })
extract cal text none now location =
    let lower = cal.lower_trim text in
    if str_eq lower ""
    then not_extracted no_text
    else checked_reading now (read_text cal location lower now (cal.find_date lower))

to_24_hours-le : (h : ℕ) (m : String) → ltb 23 (to_24_hours h m) ≡ false → to_24_hours h m ≤ 23
to_24_hours-le h m e = ground arith

-- A clock time that is read from a text is a time of day, whatever the text says, where the
-- fallback is one.
pub parse_clock-bounds :
    (cal : Calendar) (text : String) (hour minute : ℕ)
    → hour ≤ 23
    → minute ≤ 59
    → ((parse_clock cal text hour minute).0 ≤ 23) × ((parse_clock cal text hour minute).1 ≤ 59)
unfolding parse_clock clock_of
parse_clock-bounds cal text hour minute h m = go (cal.find_clock text)
  where
    go :
        (o : Option ClockMatch)
        → ((clock_of o hour minute).0 ≤ 23) × ((clock_of o hour minute).1 ≤ 59)
    go none = (h, m)
    go (some c) = ground arith

-- A weekday is reached after at least one day and at most seven.
pub days_until_lem :
    (weekday today : ℕ)
    → weekday < 7
    → today < 7
    → (1 ≤ days_until weekday today)
      × (days_until weekday today ≤ 7)
      × ((today + days_until weekday today) % 7 ≡ weekday)
unfolding days_until
days_until_lem weekday today h g = ground arith

future :
    (now : Time) (r : Reading) (e : Extraction)
    → checked_reading now r ≡ extracted e
    → (now < e.promised_for) × (e.extracted_at ≡ now)
unfolding checked_reading
future now (no_reading x) e h = cc h
future now (reading t c) e h = ground arith

-- A promise is extracted only where its time lies after the clock, from whichever form of the
-- text or of the request it is read.
pub extract_future :
    (cal : Calendar) (text : String) (explicit : Option Time) (now : Time) (location : String)
    (e : Extraction)
    → extract cal text explicit now location ≡ extracted e
    → (now < e.promised_for) × (e.extracted_at ≡ now)
unfolding extract
extract_future cal text (some t) now location e h = ground arith
extract_future cal text none now location e h = ground (
  arith,
  future now
      (read_text cal location (cal.lower_trim text) now (cal.find_date (cal.lower_trim text))) e,
)
