-- ===== src/State/Machine.antt =====
-- Home Assistant's state machine, as far as state.py uses it, and the value class `StateVal`.
use pyscript.Base.{
  String, ◌==◌, string_key, Bool, true, ◌≡◌, Option, none, some, List, [], ◌∷◌, if◌then◌else◌,
}
use pyscript.Base.Dict.{Dict, put, remove}
use pyscript.Base.Result.{Result}

-- A state of Home Assistant's, less the context; `V` is the type of Python's values.
pub record CoreState (V : Type 0) : Type 0 where
  pub state : V
  pub attributes : Dict String V
  pub entity_id : V
  pub last_updated : V
  pub last_changed : V
  pub last_reported : V

-- a state and its attributes, or nothing
abbrev pub shown : {V : Type 0} → Option (CoreState V) → Option (V × Dict String V)
shown none = none
shown (some s) = some (s.state, s.attributes)

-- `hass.states`: `C` is the type of contexts. Entity ids are compared in lower case, and a state
-- is stored as a string.
pub record Machine (V C : Type 0) : Type 1 where
  pub Store : Type 0
  pub lower : String → String
  pub to_str : V → V
  pub find : Store → String → Option (CoreState V)
  pub async_set : String → V → Dict String V → Option C → Store → Store
  -- whether there was a state, and the store without it
  pub async_remove : String → Option C → Store → Bool × Store
  pub shown-async_set :
      (name : String) (v : V) (a : Dict String V) (c : Option C) (s : Store) (j : String)
      → shown (find (async_set name v a c s) j)
        ≡ (if lower name == lower j then some (to_str v, a) else shown (find s j))
  pub shown-async_remove :
      (name : String) (c : Option C) (s : Store) (j : String)
      → shown (find (async_remove name c s).1 j)
        ≡ (if lower name == lower j then none else shown (find s j))

-- `StateVal`: a string with a dict of attributes
pub record StateVal (V : Type 0) : Type 0 where
  pub value : V
  pub dict : Dict String V

-- What the code asks of Python's values: `None`, `str`, and the tests `isinstance`.
pub record Values (V C : Type 0) : Type 0 where
  pub python_none : V
  pub is_none : V → Bool
  pub str : V → V
  pub as_state_val : V → Option (StateVal V)
  pub as_context : V → Option C
  -- what the state machine makes of an argument `new_attributes`: `None`, a mapping, or an error
  pub as_attributes : V → Result (Option (Dict String V))
  pub is_none-python_none : is_none python_none ≡ true

-- `STATE_VIRTUAL_ATTRS`
abbrev pub state_virtual_attrs : List String
state_virtual_attrs = "entity_id" ∷ "last_changed" ∷ "last_updated" ∷ "last_reported" ∷ []

-- `STATE_CALLABLE_ATTRS`: the public methods of `StateVal`
abbrev pub state_callable_attrs : List String
state_callable_attrs =
    "as_float" ∷ "as_int" ∷ "as_bool" ∷ "as_round" ∷ "as_datetime" ∷ "is_unknown" ∷ "is_unavailable"
    ∷ "has_value" ∷ []

-- `StateVal.__new__`
unfoldable pub state_val : {V : Type 0} → CoreState V → StateVal V
state_val s = record {
  value = s.state;
  dict =
      put
        (put (put (put s.attributes "entity_id" s.entity_id) "last_updated" s.last_updated)
          "last_changed" s.last_changed)
        "last_reported" s.last_reported;
}

-- `attrs.pop(discard, None)` for each virtual attribute
unfoldable pub discard_all : {V : Type 0} → List String → Dict String V → Dict String V
discard_all [] attrs = attrs
discard_all (discard ∷ rest) attrs = discard_all rest (remove attrs discard)
