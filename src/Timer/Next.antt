-- ===== src/Timer/Next.antt =====
-- The next time of a time trigger (custom_components/pyscript/trigger.py): `timer_trigger_next`.
use pyscript.Base.{
  ℕ, zero, suc, ◌+◌, ◌-◌, String, ◌==◌, nat_key, Bool, true, false, not, ◌&&◌, ◌||◌, Option, none,
  some, List, [], ◌∷◌, if◌then◌else◌, leb, ltb,
}
use Prim.Native.Nat.{◌*◌, ◌/◌}
use pyscript.Base.Dict.{Dict}
use pyscript.Base.Result.{Result, ok, err, runtime_error, then_try}
use pyscript.Timer.{
  ℤ, pos, negsuc, Time, day, Token, Sun, parse_time_offset, parse_date_time, is_zero,
}

-- a specification, by the regular expression that matches it
pub data TimeSpec (C : Type 0) : Type 0 where
  on_cron : C → TimeSpec C
  on_once : List Token → TimeSpec C
  on_period : List Token → List Token → Option (List Token) → TimeSpec C
  unreadable : TimeSpec C

-- the package `croniter`, and the local time in UTC
pub record Cron (C : Type 0) : Type 0 where
  pub is_valid : C → Bool
  pub get_next : C → Time → Time
  pub utc : Time → Time

-- a time to trigger at, and the time that the wait is measured to
abbrev pub Next : Type 0
Next = Option (Time × Time)

-- keep the earlier one
abbrev pub offer : Next → Next → Next
offer none next = next
offer (some c) none = some c
offer (some c) (some n) = if ltb c.0 n.0 then some c else some n

abbrev pub same : Time → Next
same t = some (t, t)

abbrev pub next_day : Bool → ℤ → ℤ
next_day true (pos n) = pos (suc n)
next_day true (negsuc zero) = pos 0
next_day true (negsuc (suc n)) = negsuc n
next_day false z = z

-- `(now - t).days + 1`
abbrev pub days_since : Time → Time → ℤ
days_since now t =
    if leb t now then pos (suc ((now - t) / day)) else next_day true (negsuc ((t - now - 1) / day))

-- The point of the grid of `period` from `start` that follows `now`. The source divides floats, which
-- may round; here the division is exact.
abbrev pub grid_next : Time → ℕ → Time → Time
grid_next start period now =
    if leb start now
    then start + period * suc ((now - start) / period)
    else start + period - period * suc ((start - now - 1) / period)

-- whether `t` can still be waited for, or is the start itself
abbrev pub is_ahead : Time → Time → Time → Bool
is_ahead t now startup_time = ltb now t || (now == t && now == startup_time)

module _ {C : Type 0} (croniter : Cron C) where
  -- the loop over `get_next`, until the time to wait is positive: the local time and the wait
  unfoldable pub cron_wait : ℕ → C → Time → Time → Option (Time × ℕ)
  cron_wait zero c now val = none
  cron_wait (suc fuel) c now val =
      let val' = croniter.get_next c val in
      let rest = cron_wait fuel c now val' in
      if ltb (croniter.utc now) (croniter.utc val')
      then some (val', croniter.utc val' - croniter.utc now)
      else rest

abbrev pub after : Time → Option (Time × ℕ) → Result Next
after now none = err runtime_error
after now (some w) = ok (some (w.0, now + w.1))

abbrev pub once_at : Time → Time → Time → Next
once_at t now startup_time = if is_ahead t now startup_time then same t else none

-- `period(start, period)`
unfoldable pub period_next : Time → ℕ → Time → Time → Next
period_next start period now startup_time =
    if is_ahead start now startup_time
    then same start
    else if ltb now (grid_next start period now)
    then same (grid_next start period now)
    else none

-- the body of the loop over the days of `period(start, period, end)`
abbrev pub on_day : Time → Time → ℕ → Time → Time → Result Next → Result Next
on_day start end period now startup_time rest =
    if is_ahead start now startup_time && leb start end
    then ok (same start)
    else if leb start (grid_next start period now) && leb (grid_next start period now) end
    then ok (same (grid_next start period now))
    else rest

abbrev pub if_positive : ℤ → (ℕ → Result Next) → Result Next
if_positive (pos (suc n)) f = f (suc n)
if_positive period f = ok none

abbrev pub days_tried : Bool → List ℤ
days_tried true = pos 0 ∷ []
days_tried false = negsuc 0 ∷ pos 0 ∷ pos 1 ∷ []

module _ (dow2int : Dict String ℕ) (sun : Sun) where
  abbrev pub date_time : List Token → ℤ → Time → Time → Result Time
  date_time ts day_offset now startup_time =
      then_try (parse_date_time dow2int sun ts day_offset now startup_time) (λ t. ok t.0)

  -- "Try a day offset"
  abbrev pub once_again : List Token → Time → Time → Time → Result Time
  once_again ts t now startup_time =
      if not (is_zero (days_since now t)) && not (t == startup_time)
      then date_time ts (days_since now t) now startup_time
      else ok t

  -- `once(...)`
  unfoldable pub once_next : List Token → Time → Time → Result Next
  once_next ts now startup_time =
      then_try (date_time ts (pos 0) now startup_time)
        (λ t. then_try (once_again ts t now startup_time) (λ t'. ok (once_at t' now startup_time)))

  -- `period(start, period, end)`, on one day after another
  unfoldable pub dither : List Token → List Token → Bool → ℕ → Time → Time → List ℤ → Result Next
  dither start_str end_str end_offset period now startup_time [] = ok none
  dither start_str end_str end_offset period now startup_time (d ∷ ds) =
      let rest = dither start_str end_str end_offset period now startup_time ds in
      then_try (date_time start_str d now startup_time) (λ start.
        then_try (date_time end_str (next_day end_offset d) now startup_time)
          (λ end. on_day start end period now startup_time rest))

  unfoldable pub period_to :
      List Token → ℕ → Option (List Token) → Time × Bool → Time → Time → Result Next
  unfolding period_next dither
  period_to start_str period none start now startup_time =
      ok (period_next start.0 period now startup_time)
  period_to start_str period (some end_str) start now startup_time =
      then_try (parse_date_time dow2int sun end_str (pos 0) now startup_time) (λ end.
        dither start_str end_str (not (start.1 || end.1) && ltb end.0 start.0) period now
          startup_time (days_tried (start.1 || end.1)))

module _ {C : Type 0} (croniter : Cron C) (dow2int : Dict String ℕ) (sun : Sun) where
  -- what one specification asks for
  unfoldable pub candidate : ℕ → TimeSpec C → Time → Time → Result Next
  candidate fuel (on_cron c) now startup_time =
      if croniter.is_valid c then after now (cron_wait croniter fuel c now now) else ok none
  candidate fuel (on_once ts) now startup_time = once_next dow2int sun ts now startup_time
  candidate fuel (on_period start_str period_str end_str) now startup_time =
      then_try (parse_date_time dow2int sun start_str (pos 0) now startup_time) (λ start.
        if_positive (parse_time_offset period_str)
          (λ period. period_to dow2int sun start_str period end_str start now startup_time))
  candidate fuel unreadable now startup_time = ok none

  -- the loop of `timer_trigger_next`
  unfoldable pub next_of : ℕ → List (TimeSpec C) → Time → Time → Next → Result Next
  next_of fuel [] now startup_time next = ok next
  next_of fuel (spec ∷ time_spec) now startup_time next =
      then_try (candidate fuel spec now startup_time)
        (λ c. next_of fuel time_spec now startup_time (offer c next))

  -- `timer_trigger_next`
  unfoldable pub timer_trigger_next : ℕ → List (TimeSpec C) → Time → Time → Result Next
  timer_trigger_next fuel time_spec now startup_time = next_of fuel time_spec now startup_time none
