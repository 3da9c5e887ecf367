-- ===== src/Legacy/Bounded.antt =====
-- How long `task.wait_until` sleeps, and that its rounds are those of a trigger.
use pyscript.Base.{
  ℕ, Bool, true, false, if◌then◌else◌, ap, sym, ◌&&◌, ◌||◌, ◌≡◌, Option, none, some, is_some, arith,
}
use mathlib.Core.Path.{subst}
use pyscript.Legacy.{Config, Loop, Change, state, watch_round, check, check_state}
use pyscript.Legacy.WaitUntil.{
  Kind, for, for_ever, ends_timeout, wait_plan, check_wait_state, at_most, wait_round, Waited,
  fails, waited, is_return, is_evaluated,
}

-- A round of `task.wait_until` sleeps at most until the next time of its trigger, the timeout and
-- the end of the hold time, whichever of them there are. It sleeps without a limit only where there
-- is none of the three and a notification can come, and with a timeout that is over it does not sleep.
wait_plan-bounded :
    (time_next time_left hold_left : Option ℕ) (has_trigger : Bool)
    → ((t : ℕ) (kind : Kind)
        → wait_plan time_next time_left hold_left has_trigger ≡ for t kind
        → (at_most t time_next && at_most t time_left && at_most t hold_left) ≡ true)
      × (wait_plan time_next time_left hold_left has_trigger ≡ for_ever
          → (time_next ≡ none) × (time_left ≡ none) × (hold_left ≡ none) × (has_trigger ≡ true))
      × (time_left ≡ some 0 → wait_plan time_next time_left hold_left has_trigger ≡ ends_timeout)
unfolding wait_plan
wait_plan-bounded time_next time_left hold_left has_trigger = ground arith

-- a round in which the expression does not raise, against a round of a trigger
wait_round-watch_round :
    {N : Type 0} (cfg : Config) (c : Change N) (now : ℕ) (s : Loop N)
    → c.has_var_name ≡ true
    → (c.any_changed || cfg.has_expression) ≡ true
    → cfg.hold_off ≡ none
    → (is_some (wait_round cfg c now s).0 ≡ is_some (watch_round cfg (state c) true true now s).0)
      × ((wait_round cfg c now s).1.state_false_time
          ≡ (watch_round cfg (state c) true true now s).1.state_false_time)
      × ((wait_round cfg c now s).1.state_trig_waiting
          ≡ (watch_round cfg (state c) true true now s).1.state_trig_waiting)
      × ((wait_round cfg c now s).1.last_state_trig_time
          ≡ (watch_round cfg (state c) true true now s).1.last_state_trig_time)
unfolding wait_round watch_round check check_state
wait_round-watch_round cfg c now s v h o = ground arith

-- a round of `task.wait_until` and one of the trigger: the same end, times and hold
abbrev pub SameRound : {N : Type 0} → Waited N × Loop N → Option (Option N) × Loop N → Type 0
SameRound w r =
    (is_return w.0 ≡ is_some r.0)
    × (w.1.state_false_time ≡ r.1.state_false_time)
    × (w.1.state_trig_waiting ≡ r.1.state_trig_waiting)
    × (w.1.last_state_trig_time ≡ r.1.last_state_trig_time)

waited-SameRound :
    {N : Type 0} (w : Option N × Loop N) (r : Option (Option N) × Loop N)
    → (is_some w.0 ≡ is_some r.0)
      × (w.1.state_false_time ≡ r.1.state_false_time)
      × (w.1.state_trig_waiting ≡ r.1.state_trig_waiting)
      × (w.1.last_state_trig_time ≡ r.1.last_state_trig_time)
    → SameRound (waited w) r
waited-SameRound (none, s) r h = h
waited-SameRound (some info, s) r h = h

-- A change that is not the check on start ends a call of `task.wait_until` exactly where it makes a
-- trigger with the same arguments call its function, and both keep the same times and hold, where
-- the expression is not evaluated or does not raise. Where it raises, the call ends with the
-- exception and its times stay. The conditions are that there is an expression or a watched name
-- without one changed, and that no other decorator stops the trigger.
pub check_wait_state-watch_round :
    {N : Type 0} (cfg : Config) (raises : Bool) (c : Change N) (now : ℕ) (s : Loop N)
    → c.has_var_name ≡ true
    → (c.any_changed || cfg.has_expression) ≡ true
    → cfg.hold_off ≡ none
    → ((raises && is_evaluated cfg c) ≡ false
        → SameRound
            (check_wait_state cfg raises c now s)
            (watch_round cfg (state c) true true now s))
      × ((raises && is_evaluated cfg c) ≡ true → check_wait_state cfg raises c now s ≡ (fails, s))
unfolding check_wait_state
check_wait_state-watch_round {N = N} cfg raises c now s v h o =
    let branch = λ (b : Bool).
      if◌then◌else◌ {A = Waited N × Loop N} b (fails, s) (waited (wait_round cfg c now s)) in
    (
      λ e.
          subst (λ b. SameRound (branch b) (watch_round cfg (state c) true true now s)) (sym e)
            (waited-SameRound (wait_round cfg c now s) (watch_round cfg (state c) true true now s)
              (wait_round-watch_round cfg c now s v h o)),
      λ e. ap branch e,
    )
