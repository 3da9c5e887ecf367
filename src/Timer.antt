-- ===== src/Timer.antt =====
-- Time triggers and time conditions (custom_components/pyscript/trigger.py, class `TrigTime`): this
-- file has `parse_time_offset` and `parse_date_time`. A time is a number of microseconds on the
-- local calendar, day 1 being the first of January of year 1. The text of a date is given as what
-- the regular expressions of the source match, one token after another.
mod Next
mod Active
mod Later
mod Daily
mod Earliest
mod CronTime
mod Window
mod Tests
use pyscript.Base.{
  ℕ, zero, suc, ◌+◌, ◌-◌, String, ◌==◌, nat_key, string_key, Bool, true, false, not, ◌&&◌, ◌||◌,
  Option, none, some, List, [], ◌∷◌, if◌then◌else◌, leb,
}
use Prim.Native.Nat.{◌*◌, ◌/◌, ◌%◌}
use pyscript.Base.Dict.{Dict, get}
use pyscript.Base.Lists.{contains}
use pyscript.Base.Result.{Result, ok, err, value_error, overflow_error, then_try}

-- a whole number with its sign; `negsuc n` is -(n + 1)
pub data ℤ : Type 0 where
  pos : ℕ → ℤ
  negsuc : ℕ → ℤ

abbrev pub times : ℕ → ℤ → ℤ
times zero z = pos 0
times (suc k) (pos n) = pos (suc k * n)
times (suc k) (negsuc n) = negsuc (suc k * suc n - 1)

abbrev pub is_zero : ℤ → Bool
is_zero (pos n) = n == 0
is_zero (negsuc n) = false

abbrev pub Time : Type 0
Time = ℕ

-- microseconds in a second and in a day
abbrev pub second : ℕ
second = 1000000

abbrev pub day : ℕ
day = 86400000000

-- `datetime + timedelta`; before year 1 there are no dates
abbrev pub shift : Time → ℤ → Result Time
shift t (pos n) = ok (t + n)
shift t (negsuc n) = if leb (day + suc n) t then ok (t - suc n) else err overflow_error

-- midnight at the start of the day of `t`
abbrev pub midnight : Time → Time
midnight t = t / day * day

-- the calendar of `datetime`
abbrev pub is_leap : ℕ → Bool
is_leap y = y % 4 == 0 && (not (y % 100 == 0) || y % 400 == 0)

abbrev pub days_in_month : ℕ → ℕ → ℕ
days_in_month y m =
    if m == 2
    then (if is_leap y then 29 else 28)
    else if contains (4 ∷ 6 ∷ 9 ∷ 11 ∷ []) m
    then 30
    else 31

abbrev pub days_to_month : ℕ → ℕ → ℕ
days_to_month y zero = 0
days_to_month y (suc zero) = 0
days_to_month y (suc (suc m)) = days_to_month y (suc m) + days_in_month y (suc m)

abbrev pub days_to_year : ℕ → ℕ
days_to_year y = 365 * (y - 1) + (y - 1) / 4 - (y - 1) / 100 + (y - 1) / 400

-- `datetime(year, month, day)`
unfoldable pub datetime : ℕ → ℕ → ℕ → Result Time
datetime y m d =
    if leb 1 y && leb y 9999 && leb 1 m && leb m 12 && leb 1 d && leb d (days_in_month y m)
    then ok ((days_to_year y + days_to_month y m + d) * day)
    else err value_error

abbrev pub year_in : ℕ → ℕ → ℕ → ℕ
year_in n400 n r =
    400 * n400
    + 100 * (n / 36524)
    + 4 * (r / 1461)
    + r % 1461 / 365
    + (if n / 36524 == 4 || r % 1461 / 365 == 4 then 0 else 1)

-- `t.year`
unfoldable pub year_of : Time → ℕ
year_of t = let n = t / day - 1 in year_in (n / 146097) (n % 146097) (n % 146097 % 36524)

-- a piece of the text of a date, by the regular expression that matches it; the seconds of a clock
-- and the number of an offset are in millionths
pub data Token : Type 0 where
  year_month_day : ℕ → ℕ → ℕ → Token
  month_day : ℕ → ℕ → Token
  word : String → Token
  clock : ℕ → ℕ → ℕ → Token
  offset : ℤ → String → Token
  garbage : Token

abbrev pub minutes : List String
minutes = "m" ∷ "min" ∷ "mins" ∷ "minute" ∷ "minutes" ∷ []

abbrev pub hours : List String
hours = "h" ∷ "hr" ∷ "hour" ∷ "hours" ∷ []

abbrev pub days : List String
days = "d" ∷ "day" ∷ "days" ∷ []

abbrev pub weeks : List String
weeks = "w" ∷ "week" ∷ "weeks" ∷ []

-- a unit that is not known is logged and counts as seconds
abbrev pub scale : String → ℕ
scale unit =
    if contains minutes unit
    then 60
    else if contains hours unit
    then 60 * 60
    else if contains days unit
    then 60 * 60 * 24
    else if contains weeks unit
    then 60 * 60 * 24 * 7
    else 1

-- the numbers in the text, each with the word after it; a date and a clock have several
abbrev pub numbers : List Token → List (ℤ × String)
numbers [] = []
numbers (offset value unit ∷ ts) = (value, unit) ∷ numbers ts
numbers (word w ∷ ts) = numbers ts
numbers (garbage ∷ ts) = numbers ts
numbers (x ∷ ts) = (pos 0, "") ∷ (pos 0, "") ∷ numbers ts

abbrev pub scaled : List (ℤ × String) → ℤ
scaled ((value, unit) ∷ []) = times (scale unit) value
scaled numbers = pos 0

-- `parse_time_offset`, in microseconds: the text has to have one number
unfoldable pub parse_time_offset : List Token → ℤ
parse_time_offset ts = scaled (numbers ts)

-- what is read once the date is: the midnight, whether a date was given, what is left of the text,
-- and whether that is all of it
pub record Dated : Type 0 where
  pub now : Time
  pub fixed_date : Bool
  pub rest : List Token
  pub is_whole : Bool

-- the sun's times at the place of the installation, none where it does not rise or set
pub record Sun : Type 0 where
  pub sunrise : ℕ → Option Time
  pub sunset : ℕ → Option Time

abbrev pub dated : Bool → List Token → Bool → Time → Dated
dated fixed ts whole now = record { now = now; fixed_date = fixed; rest = ts; is_whole = whole }

abbrev pub dated_from : Time → ℤ → Bool → List Token → Bool → Result Dated
dated_from now day_offset fixed ts whole =
    then_try (shift (midnight now) (times day day_offset)) (λ t. ok (dated fixed ts whole t))

abbrev pub dated_at : Result Time → List Token → Result Dated
dated_at t ts = then_try t (λ t. ok (dated true ts false t))

-- the days from now to a day of the week; Sunday is 0
abbrev pub days_ahead : ℕ → Time → ℕ
days_ahead dow now =
    let today = now / day % 7 in if leb today dow then dow - today else 7 + dow - today

module _ (dow2int : Dict String ℕ) (sun : Sun) where
  abbrev pub word_date : Option ℕ → String → List Token → ℤ → Time → Result Dated
  word_date (some dow) w ts day_offset now = dated_from now (pos (days_ahead dow now)) true ts false
  word_date none w ts day_offset now =
      if w == "today"
      then dated_from now (pos 0) true ts false
      else if w == "tomorrow"
      then dated_from now (pos 1) true ts false
      else if w == "now"
      then dated_from now (pos 0) true (word w ∷ ts) true
      else dated_from now day_offset false (word w ∷ ts) true

  -- "parse the date" of `parse_date_time`
  unfoldable pub read_date : List Token → ℤ → Time → Result Dated
  unfolding datetime year_of
  read_date (year_month_day y m d ∷ ts) day_offset now = dated_at (datetime y m d) ts
  read_date (month_day m d ∷ ts) day_offset now = dated_at (datetime (year_of now) m d) ts
  read_date (word w ∷ ts) day_offset now = word_date (get dow2int w) w ts day_offset now
  read_date ts day_offset now = dated_from now day_offset false ts true

  -- "parse the offset" of `parse_date_time`
  abbrev pub with_offset : Time → List Token → Result Time
  with_offset t [] = ok t
  with_offset t (x ∷ ts) = shift t (parse_time_offset (x ∷ ts))

  -- sunrise or sunset, to the second; where there is none, a time that is long past
  abbrev pub with_sun : Option Time → Time → List Token → Result Time
  with_sun none now ts = shift now (negsuc (100 * day - 1))
  with_sun (some t) now ts = with_offset (midnight t + t % day / second * second) ts

  abbrev pub word_time : String → List Token → Dated → Time → Result Time
  word_time w ts d startup_time =
      if w == "sunrise"
      then with_sun (sun.sunrise (d.now / day)) d.now ts
      else if w == "sunset"
      then with_sun (sun.sunset (d.now / day)) d.now ts
      else if w == "noon"
      then with_offset (d.now + 12 * 60 * 60 * second) ts
      else if w == "midnight"
      then with_offset d.now ts
      else if w == "now" && d.is_whole
      then with_offset startup_time ts
      else with_offset d.now (word w ∷ ts)

  -- "parse the time" of `parse_date_time`
  abbrev pub read_time : List Token → Dated → Time → Result Time
  read_time [] d startup_time = ok d.now
  read_time (clock h m s ∷ ts) d startup_time =
      with_offset (d.now + (s + 60 * (m + 60 * h) * second)) ts
  read_time (word w ∷ ts) d startup_time = word_time w ts d startup_time
  read_time ts d startup_time = with_offset d.now ts

  -- `parse_date_time`: the time, and whether its date is fixed
  unfoldable pub parse_date_time : List Token → ℤ → Time → Time → Result (Time × Bool)
  parse_date_time ts day_offset now startup_time =
      then_try (read_date ts day_offset now)
        (λ d. then_try (read_time d.rest d startup_time) (λ t. ok (t, d.fixed_date)))
