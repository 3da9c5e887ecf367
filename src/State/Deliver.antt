-- ===== src/State/Deliver.antt =====
-- The delivery of state changes: `update` and `notify_var_get`.
use pyscript.Base.{
  String, ◌==◌, string_key, nat_key, Bool, Option, none, some, List, [], ◌∷◌, if◌then◌else◌, map,
}
use pyscript.Base.Dict.{Dict, get, put, has}
use pyscript.Base.Text.{split, dotted}
use pyscript.Base.Result.{Result, ok, err}
use pyscript.Notify.{Queue}
use pyscript.State.Machine.{Machine, StateVal}
use pyscript.State.Access.{State, exist}
use pyscript.State.Read.{Got, variable, getattr_of}

-- the names that a trigger's expression sees: a value, or `None`
abbrev pub Names : Type 0 → Type 0
Names V = Dict String (Option (Got V))

abbrev pub as_got : {V : Type 0} → Option (StateVal V) → Option (Got V)
as_got none = none
as_got (some x) = some (variable x)

module _ {V C : Type 0} (M : Machine V C) (str_method : String → Bool) where
  abbrev or_none : Result (Got V) → Option (Got V)
  or_none (ok g) = some g
  or_none (err e) = none

  -- `getattr(x, attr, None)` for a variable or `None`
  abbrev pub getattr_or_none : Option (Got V) → String → Option (Got V)
  getattr_or_none (some (variable x)) attr =
      or_none (getattr_of M str_method x attr (get x.dict attr))
  getattr_or_none o attr = none

  abbrev pub with_last : State M → Dict String (Option (StateVal V)) → State M
  with_last s last = record {
    states = s.states;
    notify = s.notify;
    notify_var_last = last;
    persisted_vars = s.persisted_vars;
    service2args = s.service2args;
  }

  -- The value that is added for a name, if one is.
  abbrev pub by_parts : State M → Names V → String → List String → Option (Option (Got V))
  by_parts s vars name (d ∷ e ∷ attr ∷ []) = last_attr (get s.notify_var_last (dotted d e))
    where
      last_attr : Option (Option (StateVal V)) → Option (Option (Got V))
      last_attr (some x) = some (getattr_or_none (as_got x) attr)
      last_attr none = if exist M name s then none else some none
  by_parts s vars name (d ∷ e ∷ old ∷ attr ∷ []) =
      old_attr (if old == "old" then get vars (dotted (dotted d e) "old") else none)
    where
      old_attr : Option (Option (Got V)) → Option (Option (Got V))
      old_attr (some x) = some (getattr_or_none x attr)
      old_attr none = if exist M name s then none else some none
  by_parts s vars name (d ∷ e ∷ []) = if exist M name s then none else some none
  by_parts s vars name _ = none

  abbrev pub last_or :
      Option (Option (StateVal V)) → Option (Option (Got V)) → Option (Option (Got V))
  last_or (some x) o = some (as_got x)
  last_or none o = o

  -- the value for a name that has none, if it gets one
  unfoldable pub new_value : State M → String → Names V → Option (Option (Got V))
  new_value s name vars = last_or (get s.notify_var_last name) (by_parts s vars name (split name))

  abbrev pub put_new : String → Option (Option (Got V)) → Names V → Names V
  put_new name none vars = vars
  put_new name (some x) vars = put vars name x

  -- one round of the loop of `notify_var_get`
  unfoldable pub add_name : State M → String → Names V → Names V
  add_name s name vars = if has vars name then vars else put_new name (new_value s name vars) vars

  -- `notify_var_get`
  unfoldable pub notify_var_get : List String → Names V → State M → Names V
  notify_var_get [] vars s = vars
  notify_var_get (name ∷ names) vars s = notify_var_get names (add_name s name vars) s

  abbrev pub variable_of : Option (Got V) → Option (StateVal V)
  variable_of (some (variable x)) = some x
  variable_of o = none

  -- `notify.update(d)`
  unfoldable pub merge :
      Dict Queue (List String) → Dict Queue (List String) → Dict Queue (List String)
  merge d [] = d
  merge d ((q, names) ∷ e) = merge (put d q names) e

  abbrev pub note_last :
      Option (Dict Queue (List String)) → String → Option (Got V) → State M → State M
  note_last none name x s = s
  note_last (some queues) name x s = with_last s (put s.notify_var_last name (variable_of x))

  abbrev pub merge_watchers :
      Dict Queue (List String) → Option (Dict Queue (List String)) → Dict Queue (List String)
  merge_watchers told none = told
  merge_watchers told (some queues) = merge told queues

  -- the queues to tell, and the last values
  unfoldable pub collect :
      Names V → State M → Dict Queue (List String) → Dict Queue (List String) × State M
  collect [] s told = (told, s)
  collect ((name, x) ∷ vars) s told =
      let w = get s.notify name in collect vars (note_last w name x s) (merge_watchers told w)

  -- what each queue gets, by the order of the puts: the names of its trigger
  abbrev pub messages : Names V → State M → Dict Queue (List String) → List (Queue × Names V)
  messages new_vars s told = map (λ m. (m.0, notify_var_get m.1 new_vars s)) told

  -- `update`; the other arguments go to every queue unchanged
  unfoldable pub update : Names V → State M → List (Queue × Names V) × State M
  unfolding collect
  update new_vars s = let (told, s') = collect new_vars s [] in (messages new_vars s' told, s')
