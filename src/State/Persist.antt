-- ===== src/State/Persist.antt =====
-- The persisted variables of state.py: `register_persist`, `persist`, and `getattr`.
use Prim.{Unit, tt}
use pyscript.Base.{
  String, ◌==◌, string_key, nat_key, not, ◌&&◌, ◌||◌, Option, none, some, [], ◌∷◌, if◌then◌else◌,
}
use pyscript.Base.Dict.{Dict, get, put, remove, has}
use pyscript.Base.Text.{dots, starts_with}
use pyscript.Base.Result.{name_error, type_error, Result, ok, err, Method, return, raise}
use pyscript.State.Machine.{CoreState, Machine, StateVal, Values, state_virtual_attrs, discard_all}
use pyscript.State.Access.{State, set}

module _ {V C : Type 0} (M : Machine V C) (P : Values V C) where
  -- `register_persist`, less the hand-over to the restore data, which are Home Assistant's
  unfoldable pub register_persist : String → State M → State M
  register_persist var_name s =
      if starts_with "pyscript." var_name && not (has s.persisted_vars var_name)
      then record {
        states = s.states;
        notify = s.notify;
        notify_var_last = s.notify_var_last;
        persisted_vars =
            put s.persisted_vars var_name
              (record { attr_state = none; extra_state_attributes = none });
        service2args = s.service2args;
      }
      else s

  -- `{k: v for (k, v) in default_attributes.items() if k not in current.attributes}`
  unfoldable pub missing : Dict String V → Dict String V → Dict String V
  missing attributes [] = []
  missing attributes ((k, v) ∷ defaults) =
      let rest = missing attributes defaults in if has attributes k then rest else (k, v) ∷ rest

  -- the call `set(var_name, value, **d)`
  unfoldable pub set_keywords : String → V → Dict String V → Option C → Method (State M) (Unit {0})
  set_keywords var_name value d task_context =
      if has d "cls" || has d "var_name" || has d "value"
      then raise type_error
      else given (get d "new_attributes")
    where
      checked : Result (Option (Dict String V)) → Method (State M) (Unit {0})
      checked (ok a) = set M P var_name value a (remove d "new_attributes") task_context
      checked (err e) = raise e

      given : Option V → Method (State M) (Unit {0})
      given none = set M P var_name value none d task_context
      given (some v) = checked (P.as_attributes v)

  -- `persist` after the registration
  unfoldable pub persist_default :
      String
      → V
      → Option (Dict String V)
      → Option C
      → Option (CoreState V)
      → Method (State M) (Unit {0})
  persist_default var_name default_value default_attributes task_context none =
      if P.is_none default_value
      then return tt
      else set M P var_name default_value default_attributes [] task_context
  persist_default var_name default_value none task_context (some current) = return tt
  persist_default var_name default_value (some d) task_context (some current) =
      set_keywords var_name current.state (missing current.attributes d) task_context

  -- `persist`; for a name with one dot `exist` asks whether there is a state
  unfoldable pub persist :
      String → V → Option (Dict String V) → Option C → Method (State M) (Unit {0})
  persist var_name default_value default_attributes task_context s =
      if dots var_name == 1 && starts_with "pyscript." var_name
      then (let s' = register_persist var_name s in
          persist_default var_name default_value default_attributes task_context
            (M.find s'.states var_name) s')
      else (err name_error, s)

  -- `getattr`
  unfoldable pub getattr_value : StateVal V → Dict String V
  getattr_value x = discard_all state_virtual_attrs x.dict

  abbrev shown_attributes : Option (CoreState V) → Option (Dict String V)
  shown_attributes none = none
  shown_attributes (some s) = some s.attributes

  unfoldable pub getattr : String → State M → Result (Option (Dict String V))
  getattr var_name s =
      if dots var_name == 1
      then ok (shown_attributes (M.find s.states var_name))
      else err name_error
