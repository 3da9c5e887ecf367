-- ===== src/Manager/Tests.antt =====
-- Decorator managers on small inputs.
use pyscript.Base.{
  ◌&&◌, ℕ, ◌==◌, nat_key, string_key, String, true, ◌↔◌, ◌≡◌, refl, Option, none, some, List, [],
  ◌∷◌, if◌then◌else◌,
}
use pyscript.Base.Dict.{Dict}
use pyscript.Base.Lists.{any, all, contains}
use pyscript.Base.Result.{Error, value_error, is_ok}
use pyscript.Manager.{validated, running, Manager, same_status}
use pyscript.Manager.Live.{start_at, stop_now, run, contains-run}
use pyscript.Manager.Dispatch.{
  DecoratorClass, wait_until_decorators, dispatch, guards, call, falsy, truthy, the_false,
  no_answer, handle_call, handle_call_result, is_run,
}
use pyscript.Manager.Passed.{Passes, is_run-dispatch}
use pyscript.Manager.Waiting.{is_known, is_ok-wait_until_decorators}
use pyscript.Manager.Hold.{Hold, changed, elapsed}
use pyscript.Manager.HoldSpec.{all_held, in_order, all_held-history}

-- decorator 2 fails to start
abbrev second_fails : ℕ → Option Error
second_fails d = if d == 2 then some value_error else none

abbrev two_decorators : Manager
two_decorators = record { status = validated; startup_time = none; decorators = 1 ∷ 2 ∷ [] }

contains-run_example :
    contains (run (λ d. none) second_fails (start_at 5 ∷ stop_now ∷ []) (two_decorators, [])).1 1
    ≡ (same_status
          (run (λ d. none) second_fails (start_at 5 ∷ stop_now ∷ []) (two_decorators, [])).0.status
          running
        && contains
            (run
              (λ d. none)
              second_fails
              (start_at 5 ∷ stop_now ∷ [])
              (two_decorators, [])).0.decorators
            1)
contains-run_example =
    contains-run (λ d. none) second_fails (start_at 5 ∷ stop_now ∷ []) (two_decorators, []) 1
      (λ d. refl)

-- a guard that answers the number zero
zero_test : any (is_run {V = ℕ}) (dispatch (λ d. falsy) (λ d. truthy) (7 ∷ []) (8 ∷ []) [] 5) ≡ true
unfolding dispatch guards call
zero_test = refl

-- a call handler that raises: no other handler is told
raise_test :
    dispatch {V = ℕ} (λ d. truthy) (λ d. no_answer) [] (8 ∷ []) (9 ∷ []) 5 ≡ handle_call 8 ∷ []
unfolding dispatch guards call
raise_test = refl

-- one that answers `False`
refused_test :
    dispatch {V = ℕ} (λ d. truthy) (λ d. the_false) [] (8 ∷ []) (9 ∷ []) 5
    ≡ handle_call 8 ∷ handle_call_result 9 none ∷ []
unfolding dispatch guards call
refused_test = refl

is_run-dispatch_example :
    (any (is_run {V = ℕ}) (dispatch (λ d. falsy) (λ d. truthy) (7 ∷ []) (8 ∷ []) [] 5) ≡ true) ↔ (
      ((d : ℕ) → contains (7 ∷ []) d ≡ true → Passes falsy)
      × ((d : ℕ) → contains (8 ∷ []) d ≡ true → Passes truthy))
is_run-dispatch_example = is_run-dispatch (λ d. falsy) (λ d. truthy) (7 ∷ []) (8 ∷ []) [] 5

abbrev alone : ℕ → List ℕ
alone v = v ∷ []

abbrev classes : Dict String DecoratorClass
classes =
    ("state_trigger", record { is_trigger = true; kwargs_schema_keys = "state_hold" ∷ [] }) ∷ []

is_ok-wait_until_decorators_example :
    is_ok (wait_until_decorators alone classes (("state_trigger", 1) ∷ ("state_hold", 2) ∷ []))
    ≡ all {A = String × ℕ}
        (λ kv. is_known alone classes (("state_trigger", 1) ∷ ("state_hold", 2) ∷ []) kv.0)
        (("state_trigger", 1) ∷ ("state_hold", 2) ∷ [])
is_ok-wait_until_decorators_example =
    is_ok-wait_until_decorators alone classes (("state_trigger", 1) ∷ ("state_hold", 2) ∷ [])

abbrev two_seconds : Hold
two_seconds = record {
  has_expression = true;
  state_hold = some 2000000;
  state_hold_false = none;
  true_entered_at = none;
  false_entered_at = none;
}

all_held-history_example :
    all_held 2000000
      ((changed true, 1000000) ∷ (changed true, 2000000) ∷ (elapsed, 3000000) ∷ [])
      two_seconds
      none
    ≡ true
unfolding in_order
all_held-history_example =
    all_held-history 2000000
      ((changed true, 1000000) ∷ (changed true, 2000000) ∷ (elapsed, 3000000) ∷ []) 0 two_seconds
      none refl refl refl
