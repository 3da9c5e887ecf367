-- ===== src/State/Access.antt =====
-- The state that state.py keeps, and the operations that write: `set`, `setattr`, `delete`,
-- `register_persist` and `persist`, with `exist`.
use Prim.{Unit, tt}
use pyscript.Base.{
  String, ◌==◌, string_key, nat_key, Bool, false, ◌&&◌, ◌||◌, Option, none, some, List, [], ◌∷◌,
  if◌then◌else◌, is_some,
}
use pyscript.Base.Dict.{Dict, get, put, remove, has}
use pyscript.Base.Lists.{contains}
use pyscript.Base.Text.{split, dotted, dots}
use pyscript.Base.Result.{name_error, type_error, attribute_error, Result, ok, err, Method, raise}
use pyscript.State.Machine.{
  CoreState, Machine, StateVal, Values, state_virtual_attrs, state_callable_attrs, state_val,
  discard_all,
}
use pyscript.State.Watch.{Watchers}

-- `PyscriptEntity` of entity.py, as persisted: the state and the attributes, once set
pub record PyscriptEntity (V : Type 0) : Type 0 where
  pub attr_state : Option V
  pub extra_state_attributes : Option (Dict String V)

module _ {V C : Type 0} (M : Machine V C) where
  -- The variables of the class `State`, with the store of `hass.states`.
  pub record State : Type 0 where
    pub states : M.Store
    pub notify : Watchers
    pub notify_var_last : Dict String (Option (StateVal V))
    pub persisted_vars : Dict String (PyscriptEntity V)
    -- for each domain the services that take an `entity_id`, with their other parameters
    pub service2args : Dict String (Dict String (List String))

-- `None` or a value, by the test on `None`
abbrev pub or_else : {A : Type 0} → Option A → A → A
or_else none d = d
or_else (some a) d = a

-- the state and attributes of a state, where there is one
abbrev pub attributes_of : {V : Type 0} → Option (CoreState V) → Dict String V
attributes_of none = []
attributes_of (some s) = s.attributes

abbrev pub state_or : {V : Type 0} → Option (CoreState V) → V → V
state_or none v = v
state_or (some s) v = s.state

-- whether `domain.attr` is a service that takes an `entity_id`
abbrev pub or_no_services : Option (Dict String (List String)) → Dict String (List String)
or_no_services none = []
or_no_services (some d) = d

abbrev pub is_service : Dict String (Dict String (List String)) → String → String → Bool
is_service service2args domain name = has (or_no_services (get service2args domain)) name

-- `d.update(e)`
unfoldable pub update_all : {V : Type 0} → Dict String V → Dict String V → Dict String V
update_all d [] = d
update_all d ((k, v) ∷ e) = update_all (put d k v) e

module _ {V C : Type 0} (M : Machine V C) where
  abbrev pub exist_parts : State M → List String → Bool
  exist_parts s (domain ∷ entity ∷ []) = is_some (M.find s.states (dotted domain entity))
  exist_parts s (domain ∷ entity ∷ attr ∷ []) =
      is_some (M.find s.states (dotted domain entity))
      && (is_service s.service2args domain attr
          || has (attributes_of (M.find s.states (dotted domain entity))) attr
          || contains state_virtual_attrs attr
          || contains state_callable_attrs attr)
  exist_parts s _ = false

  -- `exist`
  unfoldable pub exist : String → State M → Bool
  exist var_name s = exist_parts s (split var_name)

module _ {V C : Type 0} (M : Machine V C) (P : Values V C) where
  -- a `StateVal` as the value gives its attributes, unless there are others, and its string
  abbrev pub unpack_attributes :
      Option (StateVal V) → Option (Dict String V) → Option (Dict String V)
  unpack_attributes (some x) none = some (discard_all state_virtual_attrs x.dict)
  unpack_attributes _ a = a

  abbrev pub unpack_value : V → Option (StateVal V) → V
  unpack_value v none = v
  unpack_value v (some x) = P.str v

  abbrev pub set_value : M.Store → String → V → V
  set_value s name v = if P.is_none v then state_or (M.find s name) v else v

  abbrev pub set_attributes : M.Store → String → Option (Dict String V) → Dict String V
  set_attributes s name none = attributes_of (M.find s name)
  set_attributes s name (some a) = a

  -- the argument `context`, if it is one, or else the task's; and the other keywords
  abbrev pub context_argument : Option V → Option C
  context_argument none = none
  context_argument (some v) = P.as_context v

  abbrev pub split_context : Dict String V → Option C → Option C → Option C × Dict String V
  split_context kwargs none task_context = (task_context, kwargs)
  split_context kwargs (some c) task_context = (some c, remove kwargs "context")

  -- the variable is monitored
  abbrev pub monitored : String → State M → Bool
  monitored name s = has s.notify_var_last name || has s.notify name

  abbrev pub option_state_val : Option (CoreState V) → Option (StateVal V)
  option_state_val none = none
  option_state_val (some s) = some (state_val s)

  abbrev pub persisted_set :
      Dict String (PyscriptEntity V) → String → V → Dict String V → Dict String (PyscriptEntity V)
  persisted_set vars name v a =
      if has vars name
      then put vars name (record { attr_state = some v; extra_state_attributes = some a })
      else vars

  -- From the value and the attributes on: the call of the state machine, the last value of a
  -- monitored variable, and the persisted entity.
  unfoldable pub store_state : String → V → Dict String V → Option C → State M → State M
  store_state name v a context s =
      let states' = M.async_set name v a context s.states in
      let last =
        if monitored name s
        then put s.notify_var_last name (option_state_val (M.find states' name))
        else s.notify_var_last in
      record {
        states = states';
        notify = s.notify;
        notify_var_last = last;
        persisted_vars = persisted_set s.persisted_vars name v a;
        service2args = s.service2args;
      }

  -- the body of `set` for a name with one dot
  unfoldable pub set_named :
      String → V → Option (Dict String V) → Dict String V → Option C → State M → State M
  set_named name value new_attributes kwargs task_context s =
      let as_val = P.as_state_val value in
      let v = set_value s.states name (unpack_value value as_val) in
      let a = set_attributes s.states name (unpack_attributes as_val new_attributes) in
      let (context, extra) =
        split_context kwargs (context_argument (get kwargs "context")) task_context in
      store_state name v (update_all a extra) context s

  -- `set`: a dot must stand in the name, and only one. `task_context` is the context stored for
  -- the current task.
  unfoldable pub set :
      String → V → Option (Dict String V) → Dict String V → Option C → Method (State M) (Unit {0})
  set var_name value new_attributes kwargs task_context s =
      if dots var_name == 1
      then (ok tt, set_named var_name value new_attributes kwargs task_context s)
      else (err name_error, s)

  -- `set` called with one keyword argument besides the name
  unfoldable pub set_keyword : String → String → V → Option C → Method (State M) (Unit {0})
  set_keyword var_name keyword value task_context =
      if keyword == "cls" || keyword == "var_name"
      then raise type_error
      else if keyword == "value"
      then set var_name value none [] task_context
      else if keyword == "new_attributes"
      then set_attributes_keyword var_name (P.as_attributes value) task_context
      else set var_name P.python_none none ((keyword, value) ∷ []) task_context
    where
      set_attributes_keyword :
          String → Result (Option (Dict String V)) → Option C → Method (State M) (Unit {0})
      set_attributes_keyword name (ok a) context = set name P.python_none a [] context
      set_attributes_keyword name (err e) context = raise e

  abbrev pub setattr_parts : List String → V → Option C → Method (State M) (Unit {0})
  setattr_parts (domain ∷ entity ∷ attr ∷ []) value task_context s =
      if exist M (dotted domain entity) s
      then set_keyword (dotted domain entity) attr value task_context s
      else (err name_error, s)
  setattr_parts _ value task_context s = (err name_error, s)

  -- `setattr`
  unfoldable pub setattr : String → V → Option C → Method (State M) (Unit {0})
  setattr var_attr_name value task_context = setattr_parts (split var_attr_name) value task_context

  abbrev pub first_of : Option C → Option C → Option C
  first_of none d = d
  first_of (some c) d = some c

  -- the state machine's part of `delete` for a state
  abbrev pub with_states : State M → M.Store → State M
  with_states s states' = record {
    states = states';
    notify = s.notify;
    notify_var_last = s.notify_var_last;
    persisted_vars = s.persisted_vars;
    service2args = s.service2args;
  }

  abbrev pub forget_last : String → State M → State M
  forget_last name s = record {
    states = s.states;
    notify = s.notify;
    notify_var_last =
        (if monitored name s then put s.notify_var_last name none else s.notify_var_last);
    persisted_vars = s.persisted_vars;
    service2args = s.service2args;
  }

  -- `delete` of a state
  unfoldable pub delete_state : String → Option C → Method (State M) (Unit {0})
  delete_state name context s =
      let s' = forget_last name s in
      let (removed, states') = M.async_remove name context s'.states in
      (if removed then ok tt else err name_error, with_states s' states')

  -- `delete` of an attribute
  unfoldable pub delete_attr :
      String → String → Option C → Option (CoreState V) → Method (State M) (Unit {0})
  delete_attr name attr context none s = (err name_error, s)
  delete_attr name attr context (some value) s =
      if has value.attributes attr
      then set name value.state (some (remove value.attributes attr)) [] context s
      else (err attribute_error, s)

  abbrev pub delete_parts : String → List String → Option C → Method (State M) (Unit {0})
  delete_parts var_name (domain ∷ entity ∷ []) context s = delete_state var_name context s
  delete_parts var_name (domain ∷ entity ∷ attr ∷ []) context s =
      delete_attr (dotted domain entity) attr context (M.find s.states (dotted domain entity)) s
  delete_parts var_name _ context s = (err name_error, s)

  -- `delete`, by the context that is given or else the task's
  unfoldable pub delete : String → Option C → Option C → Method (State M) (Unit {0})
  delete var_name context task_context =
      delete_parts var_name (split var_name) (first_of context task_context)
