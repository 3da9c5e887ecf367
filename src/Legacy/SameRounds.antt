-- ===== src/Legacy/SameRounds.antt =====
-- The hold times of `trigger_watch` are those of the decorators that replace it.
use pyscript.Base.{
  ℕ, ◌-◌, ◌<◌, Bool, true, false, not, ◌&&◌, ◌||◌, ◌≡◌, refl, Option, none, some, List, [], ◌∷◌,
  is_some, ltb, leb, arith, ap, ◌∙◌, and_parts,
}
use pyscript.Manager.Hold.{
  Hold, Event, changed, elapsed, cycle_round, check_new_state, check_state_hold,
}
use pyscript.Legacy.{
  Config, Loop, Change, Wake, state, hold_timeout, watch_round, check, check_state,
}

-- what the decorator would keep of the loop's variables
abbrev pub entered : Bool → Option ℕ → Option ℕ
entered true last = last
entered false last = none

abbrev pub hold_of : {N : Type 0} → Config → Loop N → Hold
hold_of cfg s = record {
  has_expression = cfg.has_expression;
  state_hold = cfg.state_hold;
  state_hold_false = cfg.state_hold_false;
  true_entered_at = entered s.state_trig_waiting s.last_state_trig_time;
  false_entered_at = s.state_false_time;
}

-- a time that the clock can give
abbrev pub is_time : Option ℕ → Bool
is_time none = true
is_time (some t) = ltb 0 t

-- the loop waits only where there is a hold time, from a time on, with the notification of it
abbrev pub is_sound : {N : Type 0} → Config → Loop N → Bool
is_sound cfg s =
    is_time s.state_false_time
    && (not s.state_trig_waiting
        || (is_some cfg.state_hold
            && is_some s.last_state_trig_time
            && is_time s.last_state_trig_time
            && is_some s.state_trig_notify_info))

-- the change of a watched variable that the expression is evaluated for
abbrev pub evaluated : {N : Type 0} → N → Bool → Change N
evaluated info b = record {
  info = info;
  any_changed = false;
  has_var_name = true;
  values_changed = true;
  expression = b;
}

-- the rest of the hold time is positive, or over
abbrev pub is_over : Option ℕ → Option ℕ → ℕ → Bool
is_over (some last) (some hold) now = leb hold (now - last)
is_over _ _ now = false

module _ {N : Type 0} (cfg : Config) (e : cfg.has_expression ≡ true)
    (no : cfg.hold_off ≡ none) where
  abbrev Same : Event → Option (Option N) × Loop N → ℕ → Hold → Type 0
  Same event r now h =
      (is_some r.0 ≡ (cycle_round event now h).0)
      × (hold_of cfg r.1 ≡ (cycle_round event now h).1)
      × (is_sound cfg r.1 ≡ true)

  changed-Same :
      (info : N) (b : Bool) (now : ℕ) (s : Loop N)
      → 0 < now
      → is_sound cfg s ≡ true
      → is_over (entered s.state_trig_waiting s.last_state_trig_time) cfg.state_hold now ≡ false
      → Same
          (changed b)
          (watch_round cfg (state (evaluated info b)) true true now s)
          now
          (hold_of cfg s)
  unfolding watch_round check check_state cycle_round check_new_state
  changed-Same info b now s h i o = ground arith

  elapsed-Same :
      (now : ℕ) (s : Loop N)
      → is_sound cfg s ≡ true
      → is_over (entered s.state_trig_waiting s.last_state_trig_time) cfg.state_hold now ≡ true
      → Same elapsed (watch_round cfg hold_timeout true true now s) now (hold_of cfg s)
  unfolding watch_round check check_state cycle_round check_state_hold
  elapsed-Same now s i o = ground arith

-- what happens at a time: a change, with its notification, or the end of the hold time
pub record Tick (N : Type 0) : Type 0 where
  pub event : Event
  pub info : N
  pub now : ℕ

abbrev pub wake_of : {N : Type 0} → Event → N → Wake N
wake_of (changed b) info = state (evaluated info b)
wake_of elapsed info = hold_timeout

-- a change comes before the hold time is over, its end when it is
abbrev pub is_due : Event → ℕ → Hold → Bool
is_due (changed b) now h = not (is_over h.true_entered_at h.state_hold now)
is_due elapsed now h = is_over h.true_entered_at h.state_hold now

-- which ticks call the function, by the loop and by the decorator
abbrev pub watched : {N : Type 0} → Config → List (Tick N) → Loop N → List Bool
watched cfg [] s = []
watched cfg (t ∷ ticks) s =
    let (called, s') = watch_round cfg (wake_of t.event t.info) true true t.now s in
    is_some called ∷ watched cfg ticks s'

abbrev pub dispatched : {N : Type 0} → List (Tick N) → Hold → List Bool
dispatched [] h = []
dispatched (t ∷ ticks) h =
    let (called, h') = cycle_round t.event t.now h in called ∷ dispatched ticks h'

abbrev pub is_timely : {N : Type 0} → List (Tick N) → Hold → Bool
is_timely [] h = true
is_timely (t ∷ ticks) h =
    ltb 0 t.now && is_due t.event t.now h && is_timely ticks (cycle_round t.event t.now h).1

module _ {N : Type 0} (cfg : Config) (e : cfg.has_expression ≡ true)
    (no : cfg.hold_off ≡ none) where
  tick-Same :
      (event : Event) (info : N) (now : ℕ) (s : Loop N)
      → is_sound cfg s ≡ true
      → ltb 0 now ≡ true
      → is_due event now (hold_of cfg s) ≡ true
      → (is_some (watch_round cfg (wake_of event info) true true now s).0
          ≡ (cycle_round event now (hold_of cfg s)).0)
        × (hold_of cfg (watch_round cfg (wake_of event info) true true now s).1
            ≡ (cycle_round event now (hold_of cfg s)).1)
        × (is_sound cfg (watch_round cfg (wake_of event info) true true now s).1 ≡ true)
  tick-Same (changed b) info now s i h d =
      changed-Same cfg e no info b now s (ground arith) i (ground arith)
  tick-Same elapsed info now s i h d = elapsed-Same cfg e no now s i d

  -- The loop of `TrigInfo` calls the function at the same changes and timeouts as the decorator that
  -- replaces it does, over any history of changes that the expression is evaluated for and of
  -- timeouts of `state_hold`. The conditions are that the trigger has an expression and no
  -- `hold_off`, that no `@state_active` or `@time_active` stops it, that the clock is positive, and
  -- that a change comes before the hold time is over and a timeout when it is.
  pub watched-dispatched :
      (ticks : List (Tick N)) (s : Loop N)
      → is_sound cfg s ≡ true
      → is_timely ticks (hold_of cfg s) ≡ true
      → watched cfg ticks s ≡ dispatched ticks (hold_of cfg s)
  watched-dispatched [] s i d = refl
  watched-dispatched (t ∷ ticks) s i d =
      let h = hold_of cfg s in
      let next = is_timely ticks (cycle_round t.event t.now h).1 in
      let (begin, later) = and_parts (ltb 0 t.now && is_due t.event t.now h) next d in
      let (now_ok, due) = and_parts (ltb 0 t.now) (is_due t.event t.now h) begin in
      let (same, hold, sound) = tick-Same t.event t.info t.now s i now_ok due in
      let s' = (watch_round cfg (wake_of t.event t.info) true true t.now s).1 in
      ap (λ b. b ∷ watched cfg ticks s') same
      ∙ ap (λ l. (cycle_round t.event t.now (hold_of cfg s)).0 ∷ l)
          (watched-dispatched ticks s' sound (ap (is_timely ticks) hold ∙ later)
            ∙ ap (dispatched ticks) hold)
