-- ===== src/Manager.antt =====
-- Decorator managers (custom_components/pyscript/decorator_abc.py): the status of a manager, and the
-- validation, start and stop of its decorators. Decorators are numbered; what `validate` and
-- `start` of each raise is a parameter, and they leave the manager alone.
mod Live
pub mod Dispatch
mod Waiting
mod Passed
pub mod Hold
mod HoldSpec
pub mod Active
mod Tests
use pyscript.Base.{
  ℕ, ◌==◌, nat_key, Bool, true, false, ◌||◌, ◌≡◌, Option, none, some, List, [], ◌∷◌, ◌++◌, map,
  if◌then◌else◌, is_some,
}
use pyscript.Base.Lists.{is_empty}
use pyscript.Base.Result.{Error, runtime_error}

-- `DecoratorManagerStatus`
pub data Status : Type 0 where
  init no_decorators validated invalid running stopped : Status

-- `is` of two statuses
abbrev pub code_of : Status → ℕ
code_of init = 0
code_of no_decorators = 1
code_of validated = 2
code_of invalid = 3
code_of running = 4
code_of stopped = 5

abbrev pub same_status : Status → Status → Bool
same_status a b = code_of a == code_of b

abbrev pub Decorator : Type 0
Decorator = ℕ

pub record Manager : Type 0 where
  pub status : Status
  pub startup_time : Option ℕ
  pub decorators : List Decorator

-- the calls of a decorator's methods
pub data Call : Type 0 where
  validating starting stopping : Decorator → Call

-- `DecoratorManager.__init__`
unfoldable pub new_manager : Manager
new_manager = record { status = init; startup_time = none; decorators = [] }

-- `update_status`
abbrev clears : Status → Bool
clears s = same_status s stopped || same_status s invalid

unfoldable pub update_status : Status → Manager → Manager
update_status new_status m = if same_status m.status new_status then m else record {
  status = new_status;
  startup_time = m.startup_time;
  decorators = (if clears new_status then [] else m.decorators);
}

-- `add`
unfoldable pub add : Decorator → Manager → Manager
add d m = record m { decorators = m.decorators ++ d ∷ [] }

module _ (validate_error start_error : Decorator → Option Error) where
  -- the loop of `validate`: the error that ends it, if one does, and the calls
  unfoldable pub validate_each : List Decorator → Option Error × List Call
  validate_each [] = (none, [])
  validate_each (d ∷ ds) =
      let (e, calls) = validate_each ds in
      if is_some (validate_error d)
      then (validate_error d, validating d ∷ [])
      else (e, validating d ∷ calls)

  abbrev pub after_validate : Option Error → Manager → Manager
  after_validate (some e) m = update_status invalid m
  after_validate none m =
      if is_empty m.decorators then update_status no_decorators m else update_status validated m

  -- `validate`: what it raises, the calls, and the manager
  unfoldable pub validate : Manager → Option Error × List Call × Manager
  unfolding validate_each
  validate m = let (e, calls) = validate_each m.decorators in (e, calls, after_validate e m)

  -- The loop of `start`: where a decorator fails, those that were started are stopped by order.
  unfoldable pub start_each : List Decorator → List Decorator → Option Error × List Call
  start_each [] started = (none, [])
  start_each (d ∷ ds) started =
      let (e, calls) = start_each ds (started ++ d ∷ []) in
      if is_some (start_error d)
      then (start_error d, starting d ∷ map stopping started)
      else (e, starting d ∷ calls)

  abbrev pub after_start : Option Error → Manager → Manager
  after_start none m = m
  after_start (some e) m = update_status invalid (record m { startup_time = none })

  -- `start` at the time `now`
  unfoldable pub start : ℕ → Manager → Option Error × List Call × Manager
  unfolding start_each
  start now m =
      let (e, calls) = start_each m.decorators [] in
      if same_status m.status validated
      then (e, calls, after_start e (update_status running (record m { startup_time = some now })))
      else (some runtime_error, [], m)

-- `stop`; an error of a decorator's `stop` is logged, and the next one is stopped
unfoldable pub stop : Manager → List Call × Manager
stop m =
    if same_status m.status running
    then (map stopping m.decorators, update_status stopped m)
    else ([], m)
