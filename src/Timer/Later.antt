-- ===== src/Timer/Later.antt =====
-- The next time of a trigger lies ahead, and the points of a period's grid.
use pyscript.Base.{
  ℕ, zero, suc, ◌+◌, ◌-◌, ◌≤◌, ◌<◌, String, nat_key, Bool, true, false, ◌≡◌, ◌≢◌, refl, ◌⊎◌, inl,
  inr, Option, none, some, List, [], ◌∷◌, if◌then◌else◌, ltb, arith, Bool-cases,
}
use Prim.{Unit, tt}
use pyscript.Base.Lists.{any}
use mathlib.Core.Path.{subst}
use Prim.Native.Nat.{◌*◌, ◌/◌}
use native.Mathlib.Nat.{mul-le-mul_left}
use pyscript.Base.Dict.{Dict}
use pyscript.Base.Result.{Result, ok, err, then_try}
use pyscript.Timer.{pos, Time, Token, Sun}
use pyscript.Timer.Next.{
  TimeSpec, on_cron, on_once, on_period, unreadable, Cron, Next, offer, same, is_ahead, cron_wait,
  after, once_at, period_next, date_time, once_next, once_again, candidate, next_of,
  timer_trigger_next,
}

-- a next time that lies ahead of now, or is now where now is the start
abbrev pub Ahead : Time → Time → Next → Type 0
Ahead now startup_time none = Unit
Ahead now startup_time (some n) =
    ((now < n.0) × (now < n.1)) ⊎ ((n.0 ≡ now) × (n.1 ≡ now) × (now ≡ startup_time))

abbrev pub AheadResult : Time → Time → Result Next → Type 0
AheadResult now startup_time (ok next) = Ahead now startup_time next
AheadResult now startup_time (err e) = Unit

if-Ahead :
    (now startup_time : Time) (b : Bool) (c next : Next)
    → (b ≡ true → Ahead now startup_time c)
    → (b ≡ false → Ahead now startup_time next)
    → Ahead now startup_time (if b then c else next)
if-Ahead now startup_time true c next f g = f refl
if-Ahead now startup_time false c next f g = g refl

if-AheadResult :
    (now startup_time : Time) (b : Bool) (c next : Result Next)
    → (b ≡ true → AheadResult now startup_time c)
    → (b ≡ false → AheadResult now startup_time next)
    → AheadResult now startup_time (if b then c else next)
if-AheadResult now startup_time true c next f g = f refl
if-AheadResult now startup_time false c next f g = g refl

try-Ahead :
    {A : Type 0} (now startup_time : Time) (r : Result A) (f : A → Result Next)
    → ((a : A) → AheadResult now startup_time (f a))
    → AheadResult now startup_time (then_try r f)
try-Ahead now startup_time (ok a) f h = h a
try-Ahead now startup_time (err e) f h = tt

then-Ahead :
    (now startup_time : Time) (r : Result Next) (f : Next → Result Next)
    → AheadResult now startup_time r
    → ((c : Next) → Ahead now startup_time c → AheadResult now startup_time (f c))
    → AheadResult now startup_time (then_try r f)
then-Ahead now startup_time (ok c) f a h = h c a
then-Ahead now startup_time (err e) f a h = tt

if-after :
    (now startup_time : Time) (b : Bool) (w : Time × ℕ) (rest : Option (Time × ℕ))
    → (b ≡ true → Ahead now startup_time (some (w.0, now + w.1)))
    → AheadResult now startup_time (after now rest)
    → AheadResult now startup_time (after now (if b then some w else rest))
if-after now startup_time true w rest f h = f refl
if-after now startup_time false w rest f h = h

offer-Ahead :
    (now startup_time : Time) (c next : Next)
    → Ahead now startup_time c
    → Ahead now startup_time next
    → Ahead now startup_time (offer c next)
offer-Ahead now startup_time none next a b = b
offer-Ahead now startup_time (some c) none a b = a
offer-Ahead now startup_time (some c) (some n) a b =
    if-Ahead now startup_time (ltb c.0 n.0) (some c) (some n) (λ e. a) (λ e. b)

quotient_bounds : (x p : ℕ) → 0 < p → (x < p * suc (x / p)) × (p * (x / p) ≤ x)
quotient_bounds x p h = omega arith

quotient_least : (x p k : ℕ) → 0 < p → x < p * k → p * suc (x / p) ≤ p * k
quotient_least x p k h lt = elim (Bool-cases (ltb (x / p) k)) [
  | inl e ↦ mul-le-mul_left p (ground arith)
  | inr e ↦
      let k_small : p * k ≤ p * (x / p) = mul-le-mul_left p (ground arith) in
      omega (arith, quotient_bounds x p h)
]

is_ahead-same :
    (t now startup_time : Time)
    → is_ahead t now startup_time ≡ true
    → Ahead now startup_time (same t)
is_ahead-same t now startup_time h = ground arith

-- A period without an end triggers next at the first point of its grid, the start and its multiples
-- from there, that lies after `now`. The conditions are that the period is positive, that the start
-- is not after `now`, and that `now` is not the startup time.
period_next-grid :
    (start p now startup_time : ℕ)
    → 0 < p
    → start ≤ now
    → now ≢ startup_time
    → (k : ℕ) × (period_next start p now startup_time ≡ same (start + p * k))
      × (now < start + p * k)
      × ((j : ℕ) → now < start + p * j → start + p * k ≤ start + p * j)
unfolding period_next
period_next-grid start p now startup_time hp h ne = (
  suc ((now - start) / p),
  ground (arith, ne, quotient_bounds (now - start) p hp),
  ground (arith, quotient_bounds (now - start) p hp),
  λ j lt. ground (arith, quotient_least (now - start) p j hp),
)

once_at-Ahead : (t now startup_time : Time) → Ahead now startup_time (once_at t now startup_time)
once_at-Ahead t now startup_time =
    if-Ahead now startup_time (is_ahead t now startup_time) (same t) none
      (is_ahead-same t now startup_time) (λ e. tt)

module _ (dow2int : Dict String ℕ) (sun : Sun) (now startup_time : Time) where
  once_next-Ahead :
      (ts : List Token) → AheadResult now startup_time (once_next dow2int sun ts now startup_time)
  unfolding once_next
  once_next-Ahead ts =
      try-Ahead now startup_time (date_time dow2int sun ts (pos 0) now startup_time)
        (λ t.
          then_try (once_again dow2int sun ts t now startup_time)
            (λ t'. ok (once_at t' now startup_time)))
        (λ t.
          try-Ahead now startup_time (once_again dow2int sun ts t now startup_time)
            (λ t'. ok (once_at t' now startup_time)) (λ t'. once_at-Ahead t' now startup_time))

abbrev pub is_period : {C : Type 0} → TimeSpec C → Bool
is_period (on_period start_str period_str end_str) = true
is_period spec = false

module _ {C : Type 0} (croniter : Cron C) (dow2int : Dict String ℕ) (sun : Sun)
    (later : (c : C) (t : Time) → t < croniter.get_next c t) where
  cron_wait-after :
      (fuel : ℕ) (c : C) (now val startup_time : Time)
      → now ≤ val
      → AheadResult now startup_time (after now (cron_wait croniter fuel c now val))
  unfolding cron_wait
  cron_wait-after zero c now val startup_time h = tt
  cron_wait-after (suc fuel) c now val startup_time h =
      if-after now startup_time (ltb (croniter.utc now) (croniter.utc (croniter.get_next c val)))
        (croniter.get_next c val, croniter.utc (croniter.get_next c val) - croniter.utc now)
        (cron_wait croniter fuel c now (croniter.get_next c val))
        (λ e. inl (omega (arith, later c val), ground arith))
        (cron_wait-after fuel c now (croniter.get_next c val) startup_time
          (omega (arith, later c val)))

  candidate-Ahead :
      (fuel : ℕ) (spec : TimeSpec C) (now startup_time : Time)
      → is_period spec ≡ false
      → AheadResult now startup_time (candidate croniter dow2int sun fuel spec now startup_time)
  unfolding candidate
  candidate-Ahead fuel (on_cron c) now startup_time h =
      if-AheadResult now startup_time (croniter.is_valid c)
        (after now (cron_wait croniter fuel c now now)) (ok none)
        (λ e. cron_wait-after fuel c now now startup_time (omega arith)) (λ e. tt)
  candidate-Ahead fuel (on_once ts) now startup_time h =
      once_next-Ahead dow2int sun now startup_time ts
  candidate-Ahead fuel (on_period start_str period_str end_str) now startup_time h =
      ground (arith, h)
  candidate-Ahead fuel unreadable now startup_time h = tt

  next_of-Ahead :
      (fuel : ℕ) (time_spec : List (TimeSpec C)) (now startup_time : Time) (next : Next)
      → any is_period time_spec ≡ false
      → Ahead now startup_time next
      → AheadResult now startup_time
          (next_of croniter dow2int sun fuel time_spec now startup_time next)
  unfolding next_of
  next_of-Ahead fuel [] now startup_time next n h = h
  next_of-Ahead fuel (spec ∷ time_spec) now startup_time next n h =
      then-Ahead now startup_time (candidate croniter dow2int sun fuel spec now startup_time)
        (λ c. next_of croniter dow2int sun fuel time_spec now startup_time (offer c next))
        (candidate-Ahead fuel spec now startup_time (ground (arith, n)))
        (λ c a.
          next_of-Ahead fuel time_spec now startup_time (offer c next) (ground (arith, n))
            (offer-Ahead now startup_time c next a h))

  -- A time that `timer_trigger_next` returns lies after `now`, and so does the time that the wait is
  -- measured to; or all of them are `now`, which is the startup time. The conditions are that
  -- `croniter` steps forward, and that no specification is a period, whose next point the code
  -- computes in floats.
  pub timer_trigger_next-later :
      (fuel : ℕ) (time_spec : List (TimeSpec C)) (now startup_time : Time) (r : Time × Time)
      → any is_period time_spec ≡ false
      → timer_trigger_next croniter dow2int sun fuel time_spec now startup_time ≡ ok (some r)
      → ((now < r.0) × (now < r.1)) ⊎ ((r.0 ≡ now) × (r.1 ≡ now) × (now ≡ startup_time))
  unfolding timer_trigger_next
  timer_trigger_next-later fuel time_spec now startup_time r n e =
      subst (λ x. AheadResult now startup_time x) e
        (next_of-Ahead fuel time_spec now startup_time none n tt)
