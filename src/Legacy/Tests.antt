-- ===== src/Legacy/Tests.antt =====
-- Triggers and waits with concrete times.
use pyscript.Base.{ℕ, ◌&&◌, true, false, ◌≡◌, refl, Option, none, some, List, [], ◌∷◌}
use pyscript.Manager.Hold.{changed, elapsed, cycle_round, check_new_state, check_state_hold}
use pyscript.Legacy.{Config, Loop, state, watch_round, check, check_state}
use pyscript.Legacy.WaitUntil.{
  Triggers, given, absent, broken, events, left_by_wait_until, wait_plan, for, the_hold,
  check_wait_state, is_evaluated, fails,
}
use pyscript.Legacy.SameRounds.{Tick, watched, dispatched, hold_of, evaluated, watched-dispatched}
use pyscript.Legacy.Bounded.{SameRound, check_wait_state-watch_round}

-- @state_trigger("...", state_hold=10)
abbrev ten : Config
ten = record {
  state_hold = some 10;
  state_hold_false = none;
  state_check_now = false;
  has_expression = true;
  have_trigger = true;
  hold_off = none;
}

abbrev fresh : Loop ℕ
fresh = record {
  run_on_startup = false;
  check_state_expr_on_start = false;
  last_trig_time = none;
  last_state_trig_time = none;
  state_trig_waiting = false;
  state_trig_notify_info = none;
  state_false_time = none;
}

-- true at 5, true again at 9, and the hold time is over at 15
abbrev ticks : List (Tick ℕ)
ticks =
    record { event = changed true; info = 1; now = 5 }
    ∷ record { event = changed true; info = 2; now = 9 }
    ∷ record { event = elapsed; info = 0; now = 15 }
    ∷ []

watched_test : watched ten ticks fresh ≡ false ∷ false ∷ true ∷ []
unfolding watch_round check check_state
watched_test = refl

watched-dispatched_example : watched ten ticks fresh ≡ dispatched ticks (hold_of ten fresh)
unfolding cycle_round check_new_state check_state_hold
watched-dispatched_example = watched-dispatched ten refl refl ticks fresh refl refl

-- an event trigger, and an MQTT trigger whose expression does not parse
abbrev bad_mqtt : Triggers
bad_mqtt = record {
  watches = false;
  event_trigger = given true;
  mqtt_trigger = given false;
  webhook_trigger = absent;
  subscribes = true;
  registers = true;
}

leak_test : left_by_wait_until bad_mqtt (broken false) ≡ events ∷ []
unfolding left_by_wait_until
leak_test = refl

plan_test : wait_plan (some 30) (some 20) (some 4) true ≡ for 4 the_hold
unfolding wait_plan
plan_test = refl

abbrev to_time : Option ℕ
to_time = some 30

abbrev to_timeout : Option ℕ
to_timeout = some 20

abbrev to_hold : Option ℕ
to_hold = some 4

check_wait_state-watch_round_example :
    ((false && is_evaluated {N = ℕ} ten (evaluated 1 true)) ≡ false
      → SameRound
          (check_wait_state ten false (evaluated 1 true) 5 fresh)
          (watch_round ten (state (evaluated 1 true)) true true 5 fresh))
    × ((false && is_evaluated {N = ℕ} ten (evaluated 1 true)) ≡ true
        → check_wait_state ten false (evaluated 1 true) 5 fresh ≡ (fails, fresh))
check_wait_state-watch_round_example =
    check_wait_state-watch_round ten false (evaluated 1 true) 5 fresh refl refl refl

raises_test : check_wait_state ten true (evaluated 1 true) 5 fresh ≡ (fails, fresh)
unfolding check_wait_state
raises_test = refl
