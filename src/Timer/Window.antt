-- ===== src/Timer/Window.antt =====
-- A range of the time of day, as a time condition: before midnight, and across it.
use pyscript.Base.{
  ℕ, ◌+◌, ◌<◌, String, Bool, true, false, not, ◌&&◌, ◌||◌, ◌≡◌, refl, some, [], ◌∷◌, if◌then◌else◌,
  leb, arith, ap, ◌∙◌,
}
use Prim.Native.Nat.{◌*◌, ◌%◌}
use pyscript.Base.Dict.{Dict}
use pyscript.Base.Result.{ok, then_try}
use pyscript.Timer.{pos, Time, day, midnight, Sun, clock}
use pyscript.Timer.Next.{date_time}
use pyscript.Timer.Active.{
  in_range, CronMatch, in_times, this_match, timer_active_check, check_entries, verdict,
  after_entry, note,
}
use pyscript.Timer.Daily.{time_of_day, date_time-clock}

-- whether a time of the day lies in a window, which may go over midnight
abbrev pub in_window : ℕ → ℕ → ℕ → Bool
in_window from till tod =
    if leb from till then leb from tod && leb tod till else leb from tod || leb tod till

window_parts :
    (now a : ℕ)
    → a < day
    → (midnight (midnight now + day * 0 + a) ≡ midnight now) × (midnight now + now % day ≡ now)
window_parts now a h = omega arith

in_times-window :
    (a b now : ℕ)
    → a < day
    → in_times
        (midnight now + day * 0 + a)
        (midnight (midnight now + day * 0 + a) + day * 0 + b)
        now
      ≡ in_window a b (now % day)
in_times-window a b now h = ground (arith, window_parts now a h)

verdict-one :
    (is_negated b : Bool)
    → ok (verdict (note is_negated b (record { plus = []; minus = [] })))
      ≡ ok (if is_negated then not b else b)
verdict-one true true = refl
verdict-one true false = refl
verdict-one false true = refl
verdict-one false false = refl

module _ {C : Type 0} (croniter : CronMatch C) (dow2int : Dict String ℕ) (sun : Sun) where
  this_match-clock :
      (h m s h' m' s' : ℕ) (now startup_time : Time)
      → time_of_day h m s < day
      → this_match croniter dow2int sun
          (in_range (clock h m s ∷ []) (clock h' m' s' ∷ []))
          now
          startup_time
        ≡ ok (some (in_window (time_of_day h m s) (time_of_day h' m' s') (now % day)))
  unfolding this_match
  this_match-clock h m s h' m' s' now startup_time lt =
      let start = midnight now + day * 0 + time_of_day h m s in
      ap
        (λ r. then_try r (λ start.
          then_try (date_time dow2int sun (clock h' m' s' ∷ []) (pos 0) start startup_time)
            (λ end. ok (some (in_times start end now)))))
        (date_time-clock dow2int sun h m s 0 now startup_time)
      ∙ ap (λ r. then_try r (λ end. ok (some (in_times start end now))))
          (date_time-clock dow2int sun h' m' s' 0 start startup_time)
      ∙ ap (λ b. ok (some b)) (in_times-window (time_of_day h m s) (time_of_day h' m' s') now lt)

  -- A time condition with one range between two clocks holds where the time of the day lies between
  -- them, over midnight where the first is the later one, and with `not` where it does not. The
  -- condition is that the first clock is below 24 hours.
  pub timer_active_check-window :
      (is_negated : Bool) (h m s h' m' s' : ℕ) (now startup_time : Time)
      → time_of_day h m s < day
      → timer_active_check croniter dow2int sun
          (record {
            is_negated = is_negated;
            active = in_range (clock h m s ∷ []) (clock h' m' s' ∷ []);
          }
            ∷ [])
          now
          startup_time
        ≡ (let inside = in_window (time_of_day h m s) (time_of_day h' m' s') (now % day) in
            ok (if is_negated then not inside else inside))
  unfolding timer_active_check check_entries
  timer_active_check-window is_negated h m s h' m' s' now startup_time lt =
      ap
        (λ r. then_try r (λ m.
          after_entry m (λ b. ok (verdict (note is_negated b (record { plus = []; minus = [] }))))))
        (this_match-clock h m s h' m' s' now startup_time lt)
      ∙ verdict-one is_negated (in_window (time_of_day h m s) (time_of_day h' m' s') (now % day))
