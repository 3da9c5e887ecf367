-- ===== src/Manager/Hold.antt =====
-- The hold times of a state trigger (custom_components/pyscript/decorators/state.py):
-- `_check_new_state`, `_check_state_hold`, and one round of `_cycle`. Times are whole microseconds of
-- the loop's clock.
use pyscript.Base.{
  ℕ, ◌-◌, ◌==◌, nat_key, Bool, true, false, not, ◌&&◌, ◌||◌, Option, none, some, if◌then◌else◌,
  is_some, leb,
}
use pyscript.Base.Result.{runtime_error, type_error, Result, ok, err}

pub record Hold : Type 0 where
  pub has_expression : Bool
  pub state_hold : Option ℕ
  pub state_hold_false : Option ℕ
  pub true_entered_at : Option ℕ
  pub false_entered_at : Option ℕ

-- `if self.true_entered_at:`
abbrev pub truthy : Option ℕ → Bool
truthy none = false
truthy (some t) = not (t == 0)

-- `now - entered >= hold`
abbrev pub lasted : Option ℕ → ℕ → ℕ → Bool
lasted none hold now = false
lasted (some t) hold now = leb hold (now - t)

abbrev pub enter_true : Option ℕ → Hold → Hold
enter_true t h = record h { true_entered_at = t }

abbrev pub enter_false : Option ℕ → Hold → Hold
enter_false t h = record h { false_entered_at = t }

-- whether `state_hold_false` has passed where the expression is true
abbrev pub false_passed : Option ℕ → ℕ → Hold → Bool × Hold
false_passed none now h = (true, h)
false_passed (some hold) now h =
    if not h.has_expression
    then (true, h)
    else if truthy h.false_entered_at
    then (lasted h.false_entered_at hold now, enter_false none h)
    else (false, h)

-- whether `state_hold` has passed
abbrev pub true_passed : Option ℕ → ℕ → Hold → Bool × Hold
true_passed none now h = (true, h)
true_passed (some hold) now h =
    if truthy h.true_entered_at
    then (if lasted h.true_entered_at hold now then (true, enter_true none h) else (false, h))
    else (false, enter_true (some now) h)

-- both, and the reset before the dispatch
abbrev pub if_passed : Bool × Hold → ℕ → Bool × Hold
if_passed (false, h) now = (false, h)
if_passed (true, h) now =
    let (passed, h') = true_passed h.state_hold now h in
    (passed, if passed then enter_true none h' else h')

abbrev pub begin_false : Option ℕ → ℕ → Hold → Hold
begin_false none now h = h
begin_false (some hold) now h = if truthy h.false_entered_at then h else enter_false (some now) h

-- `_check_new_state`: whether it dispatches
unfoldable pub check_new_state : Bool → ℕ → Hold → Bool × Hold
check_new_state true now h = if_passed (false_passed h.state_hold_false now h) now
check_new_state false now h = (false, begin_false h.state_hold_false now (enter_true none h))

-- `_check_state_hold`: whether it dispatches
abbrev pub check_hold : Option ℕ → Option ℕ → ℕ → Hold → Result Bool × Hold
check_hold none hold now h = (err runtime_error, h)
check_hold (some t) none now h = (err type_error, h)
check_hold (some t) (some hold) now h =
    if leb hold (now - t) then (ok true, enter_true none h) else (ok false, h)

unfoldable pub check_state_hold : ℕ → Hold → Result Bool × Hold
check_state_hold now h = check_hold h.true_entered_at h.state_hold now h

-- what ends the wait of one round: a change, with whether the trigger is true, or the timeout
pub data Event : Type 0 where
  changed : Bool → Event
  elapsed : Event

abbrev pub is_ok_true : Result Bool × Hold → Bool × Hold
is_ok_true (ok b, h) = (b, h)
is_ok_true (err e, h) = (false, h)

-- One round of the loop of `_cycle`. A timeout is waited for only where `true_entered_at` is set.
unfoldable pub cycle_round : Event → ℕ → Hold → Bool × Hold
unfolding check_new_state check_state_hold
cycle_round (changed trig_ok) now h = check_new_state trig_ok now h
cycle_round elapsed now h =
    if is_some h.true_entered_at then is_ok_true (check_state_hold now h) else (false, h)

-- `_cycle` up to the loop: the checks on the start, in a function's decorator or in `task.wait_until`
unfoldable pub cycle_start : Bool → Bool → Bool → ℕ → Hold → Bool × Hold
unfolding check_new_state
cycle_start in_wait_until_function state_check_now trig_ok now h0 =
    let h1 = enter_false none (enter_true none h0) in
    let h =
      if in_wait_until_function && trig_ok && state_check_now
      then record h1 { state_hold_false = none }
      else h1 in
    if state_check_now || is_some h0.state_hold_false
    then (if state_check_now && h.has_expression then check_new_state trig_ok now h else (
      false,
      if not trig_ok && is_some h.state_hold_false then enter_false (some now) h else h,
    ))
    else (false, h1)
