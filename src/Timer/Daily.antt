-- ===== src/Timer/Daily.antt =====
-- `once` with a time of day comes every day, and the earliest of the specifications is taken.
use pyscript.Base.{
  ℕ, ◌+◌, ◌-◌, ◌≤◌, ◌<◌, String, ◌==◌, nat_key, Bool, true, false, not, ◌&&◌, ◌≡◌, ◌≢◌, refl, inl,
  inr, none, some, List, [], ◌∷◌, if◌then◌else◌, leb, arith, sym, ap, ◌∙◌, Bool-cases,
}
use Prim.Native.Nat.{◌*◌, ◌/◌, ◌%◌}
use mathlib.Core.Path.{subst}
use pyscript.Base.Dict.{Dict}
use pyscript.Base.Result.{ok, then_try}
use pyscript.Timer.{
  pos, Time, day, second, midnight, Token, clock, Sun, read_date, parse_date_time, is_zero,
}
use pyscript.Timer.Next.{
  on_once, Cron, offer, same, days_since, once_at, once_next, once_again, date_time, candidate,
  next_of, timer_trigger_next,
}

abbrev pub time_of_day : ℕ → ℕ → ℕ → ℕ
time_of_day h m s = s + 60 * (m + 60 * h) * second

-- A clock is read as that time on the day of `now`, and so many days later.
parse-clock :
    (dow2int : Dict String ℕ) (sun : Sun) (h m s k : ℕ) (now startup_time : Time)
    → parse_date_time dow2int sun (clock h m s ∷ []) (pos k) now startup_time
      ≡ ok (midnight now + day * k + time_of_day h m s, false)
unfolding parse_date_time read_date
parse-clock dow2int sun h m s k now startup_time = refl

pub date_time-clock :
    (dow2int : Dict String ℕ) (sun : Sun) (h m s k : ℕ) (now startup_time : Time)
    → date_time dow2int sun (clock h m s ∷ []) (pos k) now startup_time
      ≡ ok (midnight now + day * k + time_of_day h m s)
date_time-clock dow2int sun h m s k now startup_time =
    ap (λ r. then_try r (λ t. ok t.0)) (parse-clock dow2int sun h m s k now startup_time)

day_parts : (now : ℕ) → (midnight now ≤ now) × (now < midnight now + day)
day_parts now = omega arith

same_day : (x : ℕ) → x < day → x / day ≡ 0
same_day x h = omega arith

-- how many days to go on where the time of today has passed, and where it has not
days_since-passed : (now t : ℕ) → t ≤ now → now < t + day → days_since now t ≡ pos 1
days_since-passed now t le lt = ground (arith, same_day (now - t) (omega arith))

days_since-ahead : (now t : ℕ) → now < t → t < now + 1 + day → days_since now t ≡ pos 0
days_since-ahead now t lt h = ground (arith, same_day (t - now - 1) (omega arith))

once_at-later : (t now startup_time : Time) → now < t → once_at t now startup_time ≡ same t
once_at-later t now startup_time h = ground arith

if-no : {A : Type 0} (b : Bool) (x y : A) → b ≡ false → (if not b then x else y) ≡ x
if-no true x y h = ground (arith, h)
if-no false x y h = refl

differs : (a b : ℕ) → a ≢ b → (a == b) ≡ false
differs a b h = ground (arith, h)

module _ (dow2int : Dict String ℕ) (sun : Sun) (h m s : ℕ) (now startup_time : Time)
    (ne : midnight now + time_of_day h m s ≢ startup_time) where
  abbrev at_clock : List Token
  at_clock = clock h m s ∷ []

  abbrev today : Time
  today = midnight now + day * 0 + time_of_day h m s

  abbrev tomorrow : Time
  tomorrow = midnight now + day * 1 + time_of_day h m s

  once_again-passed :
      days_since now today ≡ pos 1
      → once_again dow2int sun at_clock today now startup_time ≡ ok tomorrow
  once_again-passed e =
      subst
        (λ z.
          (if not (is_zero z) && not (today == startup_time)
            then date_time dow2int sun at_clock z now startup_time
            else ok today)
          ≡ ok tomorrow)
        (sym e)
        (if-no (today == startup_time) (date_time dow2int sun at_clock (pos 1) now startup_time)
            (ok today) (differs today startup_time (λ q. ne (ground (arith, q))))
          ∙ date_time-clock dow2int sun h m s 1 now startup_time)

  once_again-ahead :
      days_since now today ≡ pos 0
      → once_again dow2int sun at_clock today now startup_time ≡ ok today
  once_again-ahead e =
      subst
        (λ z.
          (if not (is_zero z) && not (today == startup_time)
            then date_time dow2int sun at_clock z now startup_time
            else ok today)
          ≡ ok today)
        (sym e) refl

  once_next-clock :
      (t : Time)
      → now < t
      → once_again dow2int sun at_clock today now startup_time ≡ ok t
      → once_next dow2int sun at_clock now startup_time ≡ ok (same t)
  unfolding once_next
  once_next-clock t later e =
      ap
        (λ r. then_try r (λ t.
          then_try (once_again dow2int sun at_clock t now startup_time)
            (λ t'. ok (once_at t' now startup_time))))
        (date_time-clock dow2int sun h m s 0 now startup_time)
      ∙ ap (λ r. then_try r (λ t'. ok (once_at t' now startup_time))) e
      ∙ ap ok (once_at-later t now startup_time later)

  -- `once` with the time of a day
  once_next-daily :
      time_of_day h m s < day
      → (t : Time) × (once_next dow2int sun at_clock now startup_time ≡ ok (same t))
        × (now < t)
        × (t ≤ now + day)
        × (t % day ≡ time_of_day h m s)
  once_next-daily in_day = elim (Bool-cases (leb today now)) [
    | inl e ↦ (
      tomorrow,
      once_next-clock tomorrow (omega (arith, day_parts now)) (
          once_again-passed
            (days_since-passed now today (ground arith) (omega (arith, day_parts now)))),
      omega (arith, day_parts now),
      ground arith,
      omega (arith, day_parts now),
    )
    | inr e ↦ (
      today,
      once_next-clock today (ground arith) (
          once_again-ahead
            (days_since-ahead now today (ground arith) (omega (arith, day_parts now)))),
      ground arith,
      omega (arith, day_parts now),
      omega (arith, day_parts now),
    )
  ]

-- A trigger `once` with a time of the day has a next time whatever the time is: after `now`, within
-- a day of it, and at that time of the day. The conditions are that the time of the day is below 24
-- hours, and that today's is not the startup time to the microsecond.
pub timer_trigger_next-daily :
    {C : Type 0} (croniter : Cron C) (dow2int : Dict String ℕ) (sun : Sun) (fuel : ℕ) (h m s : ℕ)
    (now startup_time : Time)
    → time_of_day h m s < day
    → midnight now + time_of_day h m s ≢ startup_time
    → (t : Time) × (timer_trigger_next croniter dow2int sun fuel
          (on_once (clock h m s ∷ []) ∷ [])
          now
          startup_time
        ≡ ok (some (t, t)))
      × (now < t)
      × (t ≤ now + day)
      × (t % day ≡ time_of_day h m s)
unfolding timer_trigger_next next_of candidate
timer_trigger_next-daily croniter dow2int sun fuel h m s now startup_time in_day ne =
    let (t, e, later, soon, at) = once_next-daily dow2int sun h m s now startup_time ne in_day in
    (t, ap (λ r. then_try r (λ c. ok (offer c none))) e, later, soon, at)
