-- ===== src/Timer/Tests.antt =====
-- Times of triggers and time conditions on concrete dates and clocks.
use pyscript.Base.{
  ℕ, String, suc, ◌+◌, ◌-◌, ◌≤◌, ◌<◌, nat_key, true, false, ◌≡◌, refl, ◌⊎◌, none, some, [], ◌∷◌,
  if◌then◌else◌, leb, arith,
}
use Prim.Native.Nat.{◌*◌, ◌%◌}
use pyscript.Base.Dict.{Dict, get}
use pyscript.Base.Result.{ok}
use pyscript.Timer.{
  pos, Time, day, second, datetime, year_of, word, clock, offset, month_day, Sun, read_date,
  parse_time_offset, parse_date_time,
}
use pyscript.Timer.Next.{
  TimeSpec, on_once, on_period, Cron, cron_wait, once_next, period_to, period_next, candidate,
  next_of, timer_trigger_next,
}
use pyscript.Timer.Active.{in_range, CronMatch, timer_active_check}
use pyscript.Timer.Later.{timer_trigger_next-later}
use pyscript.Timer.Daily.{timer_trigger_next-daily}
use pyscript.Timer.Earliest.{timer_trigger_next-earliest}
use pyscript.Timer.CronTime.{cron_wait-ends}
use pyscript.Timer.Window.{timer_active_check-window}

-- the clock goes back by two steps at 10
abbrev croniter : Cron ℕ
croniter = record {
  is_valid = λ c. true;
  get_next = λ c t. suc t;
  utc = λ t. if leb 10 t then t - 2 else t;
}

abbrev no_sun : Sun
no_sun = record { sunrise = λ d. none; sunset = λ d. none }

abbrev dow2int : Dict String ℕ
dow2int = ("sun", 0) ∷ ("mon", 1) ∷ []

-- 2024-02-29 10:30, a Thursday
abbrev leap_day : Time
leap_day = 738945 * day + (10 * 60 + 30) * 60 * second

datetime_test : datetime 2024 2 29 ≡ ok (738945 * day)
unfolding datetime
datetime_test = refl

year_test : year_of leap_day ≡ 2024
unfolding year_of
year_test = refl

-- "monday 6:00 + 5 min"
parse_test :
    parse_date_time dow2int no_sun
      (word "mon" ∷ clock 6 0 0 ∷ offset (pos 5000000) "min" ∷ [])
      (pos 0)
      leap_day
      leap_day
    ≡ ok (738949 * day + (6 * 60 + 5) * 60 * second, true)
unfolding parse_date_time read_date parse_time_offset get
parse_test = refl

-- the end of February
month_test :
    parse_date_time dow2int no_sun (month_day 3 1 ∷ word "noon" ∷ []) (pos 0) leap_day leap_day
    ≡ ok (738946 * day + 12 * 60 * 60 * second, true)
unfolding parse_date_time read_date datetime year_of
month_test = refl

abbrev every_minute : TimeSpec ℕ
every_minute = on_period (clock 9 0 0 ∷ []) (offset (pos 60000000) "" ∷ []) none

abbrev at_ten : TimeSpec ℕ
at_ten = on_once (clock 10 0 0 ∷ [])

period_test :
    timer_trigger_next croniter dow2int no_sun 5 (every_minute ∷ at_ten ∷ []) (leap_day + 1) 7
    ≡ ok (some (leap_day + 60 * second, leap_day + 60 * second))
unfolding timer_trigger_next next_of candidate period_to period_next parse_date_time read_date
    parse_time_offset once_next
period_test = refl

once_test :
    timer_trigger_next croniter dow2int no_sun 5 (at_ten ∷ []) (leap_day + 1) 7
    ≡ ok (some (leap_day + 84600 * second, leap_day + 84600 * second))
unfolding timer_trigger_next next_of candidate once_next parse_date_time read_date
once_test = refl

timer_trigger_next-later_example :
    ((leap_day + 1 < leap_day + 84600 * second) × (leap_day + 1 < leap_day + 84600 * second))
    ⊎ ((leap_day + 84600 * second ≡ leap_day + 1)
        × (leap_day + 84600 * second ≡ leap_day + 1)
        × (leap_day + 1 ≡ 7))
timer_trigger_next-later_example =
    timer_trigger_next-later croniter dow2int no_sun (λ c t. omega arith) 5 (at_ten ∷ [])
      (leap_day + 1) 7 (leap_day + 84600 * second, leap_day + 84600 * second) refl once_test

at_ten_test :
    candidate croniter dow2int no_sun 5 at_ten (leap_day + 1) 7
    ≡ ok (some (leap_day + 84600 * second, leap_day + 84600 * second))
unfolding candidate once_next parse_date_time read_date
at_ten_test = refl

timer_trigger_next-earliest_example :
    (m : Time × Time) × (some (leap_day + 60 * second, leap_day + 60 * second) ≡ some m)
    × (m.0 ≤ leap_day + 84600 * second)
timer_trigger_next-earliest_example =
    timer_trigger_next-earliest croniter dow2int no_sun 5 (leap_day + 1) 7 (every_minute ∷ []) []
      at_ten (leap_day + 84600 * second, leap_day + 84600 * second)
      (some (leap_day + 60 * second, leap_day + 60 * second)) at_ten_test period_test

timer_trigger_next-daily_example :
    (t : Time) × (timer_trigger_next croniter dow2int no_sun 5
        (on_once (clock 10 0 0 ∷ []) ∷ [])
        leap_day
        7
      ≡ ok (some (t, t)))
    × (leap_day < t)
    × (t ≤ leap_day + day)
    × (t % day ≡ 36000 * second)
timer_trigger_next-daily_example =
    timer_trigger_next-daily croniter dow2int no_sun 5 10 0 0 leap_day 7 (omega arith)
      (λ e. omega arith)

cron_wait-ends_example :
    (w : Time × ℕ) × (cron_wait croniter 5 3 9 9 ≡ some w)
    × (9 < w.0)
    × (0 < w.1)
    × (w.1 + 9 ≡ croniter.utc w.0)
cron_wait-ends_example =
    cron_wait-ends croniter 2 (λ c t. omega arith) (λ t. ground arith) 3 9 5 (omega arith)

abbrev matcher : CronMatch ℕ
matcher = record { is_valid = λ c. true; matches = λ c t. false }

-- not between 22:00 and 6:00
timer_active_check-window_example :
    timer_active_check matcher dow2int no_sun
      (record { is_negated = true; active = in_range (clock 22 0 0 ∷ []) (clock 6 0 0 ∷ []) } ∷ [])
      leap_day
      7
    ≡ ok true
timer_active_check-window_example =
    timer_active_check-window matcher dow2int no_sun true 22 0 0 6 0 0 leap_day 7 (omega arith)
