-- ===== src/Legacy.antt =====
-- The loop of a trigger in the class `TrigInfo` (custom_components/pyscript/trigger.py):
-- `trigger_watch` from its `while` on, and `call_action` as far as it decides. Times are whole
-- microseconds of the monotonic clock. A notification is of type `N`; what the expressions say of it
-- is given with it.
mod SameRounds
mod Tests
mod Bounded
pub mod WaitUntil
use pyscript.Base.{
  ℕ, ◌+◌, ◌-◌, Bool, true, false, not, ◌&&◌, ◌||◌, Option, none, some, if◌then◌else◌, is_some, ltb,
}

-- the arguments of the decorators that the loop looks at
pub record Config : Type 0 where
  pub state_hold : Option ℕ
  pub state_hold_false : Option ℕ
  pub state_check_now : Bool
  pub has_expression : Bool
  pub have_trigger : Bool
  pub hold_off : Option ℕ

-- the variables of the loop
pub record Loop (N : Type 0) : Type 0 where
  pub run_on_startup : Bool
  pub check_state_expr_on_start : Bool
  pub last_trig_time : Option ℕ
  pub last_state_trig_time : Option ℕ
  pub state_trig_waiting : Bool
  pub state_trig_notify_info : Option N
  pub state_false_time : Option ℕ

-- A change of a state variable: whether it is of a watched name without an expression
-- (`ident_any_values_changed`), whether it names a variable and changes a watched value
-- (`ident_values_changed`), and what the expression says, false where it raises.
pub record Change (N : Type 0) : Type 0 where
  pub info : N
  pub any_changed : Bool
  pub has_var_name : Bool
  pub values_changed : Bool
  pub expression : Bool

-- what the loop is woken up by
pub data Wake (N : Type 0) : Type 0 where
  state : Change N → Wake N
  message : N → Bool → Wake N
  time : N → Wake N
  hold_timeout : Wake N

-- what the wait of a round is: not at all, until a message, or for a time, with whether that is the
-- rest of `state_hold`; `finished` ends the loop
pub data Wait : Type 0 where
  at_startup at_check finished : Wait
  for_message : Wait
  for_time : ℕ → Bool → Wait

-- what follows from a notification: the round ends, or it goes on with what the trigger says
pub data Checked (N : Type 0) : Type 0 where
  continue_loop : Checked N
  go_on : Option N → Bool → Checked N

abbrev pub until : Option ℕ → Option ℕ → ℕ → ℕ
until (some last) (some hold) now = last + hold - now
until _ _ now = 0

-- `state_hold` against the time of a time trigger
abbrev pub sooner : Option ℕ → ℕ → Wait
sooner none left = for_time left true
sooner (some timeout) left = if ltb left timeout then for_time left true else for_time timeout false

abbrev pub or_message : Option ℕ → Bool → Wait
or_message (some timeout) have_trigger = for_time timeout false
or_message none true = for_message
or_message none false = finished

abbrev pub too_soon : Option ℕ → ℕ → ℕ → Bool
too_soon none hold now = false
too_soon (some t) hold now = ltb (now - t) hold

-- `time.monotonic() < last_trig_time + self.time_active_hold_off`
abbrev pub is_held_off : Option ℕ → Option ℕ → ℕ → Bool
is_held_off (some hold_off) (some last) now = ltb now (last + hold_off)
is_held_off _ _ now = false

module _ {N : Type 0} where
  -- up to the wait; `timeout` is the time to the next time trigger
  unfoldable pub next_wait : Config → Option ℕ → ℕ → Loop N → Wait
  next_wait cfg timeout now s =
      if s.run_on_startup
      then at_startup
      else if s.check_state_expr_on_start
      then at_check
      else if s.state_trig_waiting
      then sooner timeout (until s.last_state_trig_time cfg.state_hold now)
      else or_message timeout cfg.have_trigger

  abbrev pub set_false : Option ℕ → Loop N → Loop N
  set_false t s = record s { state_false_time = t }

  abbrev pub begin_wait : Change N → ℕ → Loop N → Loop N
  begin_wait c now s = if s.state_trig_waiting then s else record s {
    state_trig_waiting = true;
    state_trig_notify_info = some c.info;
    last_state_trig_time = some now;
  }

  abbrev pub stop_wait : Loop N → Loop N
  stop_wait s = record s { state_trig_waiting = false }

  -- "if self.state_hold is not None"
  abbrev pub check_hold : Option ℕ → Change N → Bool → ℕ → Loop N → Checked N × Loop N
  check_hold none c trig_ok now s = (go_on (some c.info) trig_ok, s)
  check_hold (some hold) c true now s = (continue_loop, begin_wait c now s)
  check_hold (some hold) c false now s =
      if s.state_trig_waiting then (continue_loop, stop_wait s) else (go_on (some c.info) false, s)

  -- "if self.state_hold_false is not None", after the check on start: whether the round ends
  abbrev pub check_false : Bool → ℕ → Bool → ℕ → Loop N → Bool × Loop N
  check_false has_var hold true now s =
      if is_some s.state_false_time
      then (if has_var
          then (too_soon s.state_false_time hold now, set_false none s)
          else (false, s))
      else (has_var, s)
  check_false has_var hold false now s =
      if is_some s.state_false_time then (false, s) else (false, set_false (some now) s)

  -- the check on start
  abbrev pub check_start : Bool → Bool → ℕ → Loop N → Loop N
  check_start true trig_ok now s = s
  check_start false trig_ok now s = set_false (if trig_ok then none else some now) s

  abbrev pub hold_false : Config → Option ℕ → Change N → Bool → ℕ → Loop N → Bool × Loop N
  hold_false cfg none c trig_ok now s = (false, s)
  hold_false cfg (some hold) c trig_ok now s =
      let s1 = check_start c.has_var_name trig_ok now s in
      if not c.has_var_name && not cfg.state_check_now
      then (true, s1)
      else check_false c.has_var_name hold trig_ok now s1

  abbrev pub end_or_hold : Config → Change N → Bool → ℕ → Bool × Loop N → Checked N × Loop N
  end_or_hold cfg c trig_ok now (true, s) = (continue_loop, s)
  end_or_hold cfg c trig_ok now (false, s) = check_hold cfg.state_hold c trig_ok now s

  -- the branch for `notify_type == "state"`
  unfoldable pub check_state : Config → Change N → ℕ → Loop N → Checked N × Loop N
  check_state cfg c now s =
      if c.any_changed
      then check_hold cfg.state_hold c true now s
      else if c.has_var_name && not c.values_changed
      then (continue_loop, s)
      else if cfg.has_expression
      then end_or_hold cfg c c.expression now
          (hold_false cfg cfg.state_hold_false c c.expression now s)
      else check_hold cfg.state_hold c false now s

  -- "check the trigger-specific expressions"
  unfoldable pub check : Config → Wake N → ℕ → Loop N → Checked N × Loop N
  unfolding check_state
  check cfg (state c) now s = check_state cfg c now s
  check cfg (message info ok) now s = (go_on (some info) ok, s)
  check cfg (time info) now s = (go_on (some info) true, s)
  check cfg hold_timeout now s = (go_on s.state_trig_notify_info true, stop_wait s)

  abbrev pub note_time : Bool → ℕ → Loop N → Loop N
  note_time called now s = if called then record s { last_trig_time = some now } else s

  -- The end of a round. `is_active` is what the expression of `@state_active` and the times of
  -- `@time_active` say, and `is_called` what `call_action` returns, which is false where
  -- `@task_unique` with `kill_me` finds the name used. The result is the notification that the
  -- function is called with.
  abbrev pub act : Config → Bool → Bool → ℕ → Checked N × Loop N → Option (Option N) × Loop N
  act cfg is_active is_called now (continue_loop, s) = (none, s)
  act cfg is_active is_called now (go_on info trig_ok, s) =
      if trig_ok && is_active && not (is_held_off cfg.hold_off s.last_trig_time now)
      then (if is_called then some info else none, note_time is_called now s)
      else (none, s)

  -- one round of the loop, from the end of its wait on
  unfoldable pub watch_round :
      Config → Wake N → Bool → Bool → ℕ → Loop N → Option (Option N) × Loop N
  unfolding check
  watch_round cfg wake is_active is_called now s =
      act cfg is_active is_called now (check cfg wake now s)
