-- ===== src/State/Read.antt =====
-- Reading state variables: `get`, with the service methods of an entity, and `completions`.
use pyscript.Base.{
  String, string_key, nat_key, Bool, ◌||◌, Option, none, some, List, [], ◌∷◌, if◌then◌else◌,
}
use pyscript.Base.Dict.{Dict, get as look, put}
use pyscript.Base.Lists.{contains}
use pyscript.Base.Text.{split, dotted}
use pyscript.Base.Result.{name_error, type_error, attribute_error, Result, ok, err}
use pyscript.Function.Arguments.{Divided, take_keyword, Values}
use pyscript.State.Machine.{CoreState, Machine, StateVal, state_val, state_callable_attrs}
use pyscript.State.Access.{State, or_no_services}

-- What `get` returns: the variable, a service for an entity with its other parameters, an
-- attribute, or a method of the variable.
pub data Got (V : Type 0) : Type 0 where
  variable : StateVal V → Got V
  service_call : String → String → String → List String → Got V
  attribute : V → Got V
  bound_method : StateVal V → String → Got V

module _ {V C : Type 0} (M : Machine V C) where
  -- `getattr(state, attr)`: an instance's dict comes before the methods of its class. `str_method`
  -- says which other names `str` has.
  abbrev pub getattr_of : (String → Bool) → StateVal V → String → Option V → Result (Got V)
  getattr_of str_method x attr (some v) = ok (attribute v)
  getattr_of str_method x attr none =
      if contains state_callable_attrs attr || str_method attr
      then ok (bound_method x attr)
      else err attribute_error

  abbrev pub get_member :
      (String → Bool)
      → State M
      → String
      → String
      → StateVal V
      → String
      → Option (List String)
      → Result (Got V)
  get_member str_method s domain entity x attr (some params) =
      ok (service_call domain attr (dotted domain entity) params)
  get_member str_method s domain entity x attr none =
      getattr_of str_method x attr (look x.dict attr)

  abbrev pub get_found :
      (String → Bool) → State M → List String → Option (CoreState V) → Result (Got V)
  get_found str_method s parts none = err name_error
  get_found str_method s (domain ∷ entity ∷ attr ∷ []) (some state) =
      get_member str_method s domain entity (state_val state) attr
        (look (or_no_services (look s.service2args domain)) attr)
  get_found str_method s parts (some state) = ok (variable (state_val state))

  abbrev pub get_parts : (String → Bool) → State M → List String → Result (Got V)
  get_parts str_method s (domain ∷ entity ∷ []) =
      get_found str_method s (domain ∷ entity ∷ []) (M.find s.states (dotted domain entity))
  get_parts str_method s (domain ∷ entity ∷ attr ∷ []) =
      get_found str_method s (domain ∷ entity ∷ attr ∷ []) (M.find s.states (dotted domain entity))
  get_parts str_method s _ = err name_error

  -- `get`
  unfoldable pub get : (String → Bool) → String → State M → Result (Got V)
  get str_method var_name s = get_parts str_method s (split var_name)

abbrev pub positional : {V : Type 0} → List V → List String → Dict String V → Result (Dict String V)
positional [] params kwargs = ok kwargs
positional (a ∷ []) (param_name ∷ []) kwargs = ok (put kwargs param_name a)
positional args params kwargs = err type_error

-- What a call of such a service passes on: the keyword arguments for the service and those for
-- Home Assistant. `context` is that of the calling task, if it has one; `entity` is the entity's id.
module _ {V : Type 0} (values : Values V) (is_number : V → Bool) where
  open values use {is_context, is_bool}

  unfoldable pub divide_call : Option V → Dict String V → Divided V
  divide_call context kwargs = take_keyword "limit" is_number none (
      take_keyword "return_response" is_bool none (
        take_keyword "blocking" is_bool none
          (take_keyword "context" is_context context (record { kwargs = kwargs; hass_args = [] }))))

  abbrev pub with_kwargs : Dict String V → Result (Dict String V) → Result (Divided V)
  with_kwargs hass_args (ok kwargs) = ok (record { kwargs = kwargs; hass_args = hass_args })
  with_kwargs hass_args (err e) = err e

  unfoldable pub call_service :
      V → List String → Option V → List V → Dict String V → Result (Divided V)
  unfolding divide_call
  call_service entity params context args kwargs =
      let d = divide_call context kwargs in
      with_kwargs d.hass_args (positional args params (put d.kwargs "entity_id" entity))
