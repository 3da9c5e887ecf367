-- ===== src/Function/Arguments.antt =====
-- How `event.fire` and service calls divide their keyword arguments between Home Assistant and the
-- service, and how a name is looked up as a function or a service. `V` is the type of Python's
-- values.
use text.Mathlib.TextEquality.{eq_iff}
use pyscript.Base.{
  String, ◌==◌, string_key, Bool, true, false, not, ◌&&◌, ◌||◌, ◌≡◌, Option, none, some, List, [],
  ◌∷◌, arith, if◌then◌else◌, is_some,
}
use pyscript.Base.Dict.{Dict, get, put, remove, has, get-put, get-remove}
use pyscript.Base.Text.{split}

-- What the source asks of a value: `isinstance(v, Context)`, `type(v) is bool`, `bool(v)`.
pub record Values (V : Type 0) : Type 0 where
  pub is_context : V → Bool
  pub is_bool : V → Bool
  pub truthy : V → Bool
  -- Python's True
  pub true_value : V
  pub truthy-true : truthy true_value ≡ true

-- the arguments that are left for the service, and those for Home Assistant
pub record Divided (V : Type 0) : Type 0 where
  pub kwargs : Dict String V
  pub hass_args : Dict String V

module _ {V : Type 0} where
  -- `keyword in kwargs and type(kwargs[keyword]) in typ`, as the value that is taken
  abbrev pub typed : (V → Bool) → Option V → Option V
  typed test none = none
  typed test (some v) = if test v then some v else none

  abbrev pub or_else : Option V → Option V → Option V
  or_else none o = o
  or_else (some v) o = some v

  unfoldable pub take_found : String → Option V → Option V → Divided V → Divided V
  take_found keyword (some v) default d = record {
    kwargs = remove d.kwargs keyword;
    hass_args = put d.hass_args keyword v;
  }
  take_found keyword none (some v) d = record d { hass_args = put d.hass_args keyword v }
  take_found keyword none none d = d

  -- one round of the loop over the keywords
  unfoldable pub take_keyword : String → (V → Bool) → Option V → Divided V → Divided V
  unfolding take_found
  take_keyword keyword test default d =
      take_found keyword (typed test (get d.kwargs keyword)) default d

  kwargs-take_keyword :
      (keyword : String) (test : V → Bool) (default : Option V) (d : Divided V) (k : String)
      → get (take_keyword keyword test default d).kwargs k ≡ (
          if keyword == k && is_some (typed test (get d.kwargs keyword))
          then none
          else get d.kwargs k)
  unfolding take_keyword
  kwargs-take_keyword keyword test default d k = ground (arith, get-remove d.kwargs keyword k)

  hass_args-take_found :
      (keyword : String) (o default : Option V) (d : Divided V) (k : String)
      → get (take_found keyword o default d).hass_args k ≡ (
          if keyword == k
          then or_else (or_else o default) (get d.hass_args k)
          else get d.hass_args k)
  unfolding take_found
  hass_args-take_found keyword (some v) default d k =
      ground (arith, get-put d.hass_args keyword k v)
  hass_args-take_found keyword none (some v) d k = ground (arith, get-put d.hass_args keyword k v)
  hass_args-take_found keyword none none d k = ground arith

  -- after one round, an argument for Home Assistant
  pub hass_args-take_keyword :
      (keyword : String) (test : V → Bool) (default : Option V) (d : Divided V) (k : String)
      → get (take_keyword keyword test default d).hass_args k ≡ (
          if keyword == k
          then or_else (or_else (typed test (get d.kwargs keyword)) default) (get d.hass_args k)
          else get d.hass_args k)
  unfolding take_keyword
  hass_args-take_keyword keyword test default d k =
      hass_args-take_found keyword (typed test (get d.kwargs keyword)) default d k

module _ {V : Type 0} (values : Values V) where
  open values use {is_context, is_bool, truthy, true_value, truthy-true}

  -- the loop of `service_call`; `context` is that of the calling task, if it has one
  unfoldable pub divide : Option V → Dict String V → Divided V
  divide context kwargs = take_keyword "return_response" is_bool none (
      take_keyword "blocking" is_bool none
        (take_keyword "context" is_context context (record { kwargs = kwargs; hass_args = [] })))

  abbrev pub is_true : Option V → Bool
  is_true none = false
  is_true (some v) = truthy v

  -- `hass_services_async_call` up to the call: the arguments for Home Assistant; `only` is whether
  -- the service always returns a response
  unfoldable pub final_args : Bool → Dict String V → Dict String V
  final_args only hass_args =
      if is_true (get hass_args "return_response") && not (has hass_args "blocking")
      then put hass_args "blocking" true_value
      else if not (has hass_args "return_response") && only
      then (let a = put hass_args "return_response" true_value in
          if not (has a "blocking") then put a "blocking" true_value else a)
      else hass_args

  -- what a call of a service passes on
  unfoldable pub service_call : Bool → Option V → Dict String V → Divided V
  unfolding divide final_args
  service_call only context kwargs =
      let d = divide context kwargs in record d { hass_args = final_args only d.hass_args }

  abbrev pub fired : Option V → Option V → Dict String V → Option V × Dict String V
  fired (some context) task_context kwargs = (some context, remove kwargs "context")
  fired none task_context kwargs = (task_context, kwargs)

  -- `event.fire`: the context that is passed to the bus, and the event's data
  unfoldable pub event_fire : Option V → Dict String V → Option V × Dict String V
  event_fire task_context kwargs =
      fired (typed is_context (get kwargs "context")) task_context kwargs

  -- A service gets each of its arguments but the three keywords, and these too where their type
  -- is not that of Home Assistant's argument.
  service_call_kwargs :
      (only : Bool) (context : Option V) (kwargs : Dict String V) (k : String)
      → get (service_call only context kwargs).kwargs k ≡ (
          if ("context" == k && is_some (typed is_context (get kwargs "context")))
            || (("blocking" == k && is_some (typed is_bool (get kwargs "blocking")))
                || ("return_response" == k
                    && is_some (typed is_bool (get kwargs "return_response"))))
          then none
          else get kwargs k)
  unfolding service_call
  service_call_kwargs only context kwargs k =
      let d₀ : Divided V = record { kwargs = kwargs; hass_args = [] } in
      let d₁ = take_keyword "context" is_context context d₀ in
      let d₂ = take_keyword "blocking" is_bool none d₁ in
      ground (
        arith,
        kwargs-take_keyword "context" is_context context d₀ k,
        kwargs-take_keyword "context" is_context context d₀ "blocking",
        kwargs-take_keyword "context" is_context context d₀ "return_response",
        kwargs-take_keyword "blocking" is_bool none d₁ k,
        kwargs-take_keyword "blocking" is_bool none d₁ "return_response",
        kwargs-take_keyword "return_response" is_bool none d₂ k,
      )

  final_args_block :
      (only : Bool) (a : Dict String V)
      → is_true (get (final_args only a) "return_response") ≡ true
      → has (final_args only a) "blocking" ≡ true
  unfolding final_args
  final_args_block only a h = ground (
    arith,
    get-put a "blocking" "blocking" true_value,
    get-put a "return_response" "blocking" true_value,
    get-put (put a "return_response" true_value) "blocking" "blocking" true_value,
  )

  final_args_ask : (a : Dict String V) → has (final_args true a) "return_response" ≡ true
  unfolding final_args
  final_args_ask a = ground (
    arith,
    get-put a "blocking" "return_response" true_value,
    get-put a "return_response" "return_response" true_value,
    get-put (put a "return_response" true_value) "blocking" "return_response" true_value,
  )

  final_args_keep :
      (only : Bool) (a : Dict String V) (k : String)
      → has a k ≡ true
      → get (final_args only a) k ≡ get a k
  unfolding final_args
  final_args_keep only a k h = ground (
    arith,
    get-put a "blocking" k true_value,
    get-put a "return_response" k true_value,
    get-put a "return_response" "blocking" true_value,
    get-put (put a "return_response" true_value) "blocking" k true_value,
    eq_iff "blocking" k,
    eq_iff "return_response" k,
  )

  -- A call that asks for a response says whether it blocks; a service that always gives a
  -- response is asked for one or told by the caller; and what the caller says is kept.
  final_args_respond :
      (only : Bool) (hass_args : Dict String V)
      → (is_true (get (final_args only hass_args) "return_response") ≡ true
          → has (final_args only hass_args) "blocking" ≡ true)
        × (has (final_args true hass_args) "return_response" ≡ true)
        × ((k : String)
            → has hass_args k ≡ true
            → get (final_args only hass_args) k ≡ get hass_args k)
  final_args_respond only hass_args =
      (final_args_block only hass_args, final_args_ask hass_args, final_args_keep only hass_args)

-- what `Function.get` finds under a name: a function of pyscript's, or a service
pub data Callable (F : Type 0) : Type 0 where
  function : F → Callable F
  service : String → String → Callable F

module _ {F : Type 0} where
  abbrev pub as_service : (String → String → Bool) → List String → Option (Callable F)
  as_service has_service (domain ∷ name ∷ []) =
      if has_service domain name then some (service domain name) else none
  as_service has_service _ = none

  abbrev pub or_service : Option F → Option (Callable F) → Option (Callable F)
  or_service (some f) o = some (function f)
  or_service none o = o

  -- `Function.get`; `has_service` is Home Assistant's
  unfoldable pub lookup : (String → String → Bool) → Dict String F → String → Option (Callable F)
  lookup has_service functions name =
      or_service (get functions name) (as_service has_service (split name))
