-- ===== src/Timer/CronTime.antt =====
-- The loop over `croniter` ends (custom_components/pyscript/trigger.py, in `timer_trigger_next`):
-- across a change of the clocks the time to wait is made positive by more steps.
use pyscript.Base.{
  ℕ, zero, suc, ◌+◌, ◌-◌, ◌≤◌, ◌<◌, ◌≡◌, some, if◌then◌else◌, ltb, arith, ap, ◌∙◌, inl, inr,
  Bool-cases,
}
use Prim.Native.Nat.{◌*◌}
use pyscript.Timer.{Time}
use pyscript.Timer.Next.{Cron, cron_wait}

module _ {C : Type 0} (croniter : Cron C) (bound : ℕ)
    (later : (c : C) (t : Time) → t < croniter.get_next c t)
    (near : (t : Time) → (croniter.utc t ≤ t + bound) × (t ≤ croniter.utc t + bound)) where
  cron_wait-far :
      (fuel : ℕ) (c : C) (now val : Time)
      → now + 2 * bound < val + fuel
      → now ≤ val
      → 0 < fuel
      → (w : Time × ℕ) × (cron_wait croniter fuel c now val ≡ some w)
        × (now < w.0)
        × (0 < w.1)
        × (w.1 + croniter.utc now ≡ croniter.utc w.0)
  unfolding cron_wait
  cron_wait-far zero c now val far le h = ground arith
  cron_wait-far (suc fuel) c now val far le h =
      let val' = croniter.get_next c val in
      elim (Bool-cases (ltb (croniter.utc now) (croniter.utc val'))) [
        | inl e ↦ (
          (val', croniter.utc val' - croniter.utc now),
          ap
              (λ b.
                if b
                then some (val', croniter.utc val' - croniter.utc now)
                else cron_wait croniter fuel c now val')
              e,
          omega (arith, later c val),
          ground arith,
          ground arith,
        )
        | inr e ↦
            let (w, at, later_w, positive, sum) =
              cron_wait-far fuel c now val' (omega (arith, later c val))
                (omega (arith, later c val)) (ground (arith, near val', near now, later c val)) in
            (
              w,
              ap
                    (λ b.
                      if b
                      then some (val', croniter.utc val' - croniter.utc now)
                      else cron_wait croniter fuel c now val')
                    e
                  ∙ at,
              later_w,
              positive,
              sum,
            )
      ]

  -- The loop over `croniter` ends with a positive wait, for a time after `now`, and the wait is the
  -- difference of the two times in UTC. The conditions are that `croniter` steps forward, that the
  -- local time differs from UTC by at most `bound`, and that the fuel is more than twice that.
  pub cron_wait-ends :
      (c : C) (now : Time) (fuel : ℕ)
      → 2 * bound < fuel
      → (w : Time × ℕ) × (cron_wait croniter fuel c now now ≡ some w)
        × (now < w.0)
        × (0 < w.1)
        × (w.1 + croniter.utc now ≡ croniter.utc w.0)
  cron_wait-ends c now fuel h =
      cron_wait-far fuel c now now (omega arith) (omega arith) (omega arith)
