-- ===== src/Trigger.antt =====
-- Which triggers a state change concerns (custom_components/pyscript/trigger.py):
-- `ident_any_values_changed` and `ident_values_changed`.
mod Unchanged
mod Tests
use pyscript.Base.{
  ℕ, String, ◌==◌, nat_key, string_key, Key, Bool, true, false, not, ◌&&◌, ◌||◌, ◌≡◌, Option, none,
  some, List, [], ◌∷◌, ◌++◌, map, if◌then◌else◌, is_some,
}
use Prim.Native.String.{◌++◌ as text_append}
use pyscript.Base.Dict.{Dict, get, has}
use pyscript.Base.Lists.{any, contains, keep}
use pyscript.Base.Text.{split, dotted, starts_with}
use pyscript.State.Machine.{StateVal, state_callable_attrs, state_virtual_attrs}

-- what `getattr(x, attr, None)` finds: `None`, a value, or a method, which no other equals
pub data Seen (V : Type 0) : Type 0 where
  missing : Seen V
  value : V → Seen V
  method : Seen V

-- the change of a state variable, as `func_args` tells it
pub record Change (V : Type 0) : Type 0 where
  pub var_name : String
  pub new : Option (StateVal V)
  pub old : Option (StateVal V)

module _ {V : Type 0} ⦃k : Key V⦄ (is_none : V → Bool) where
  abbrev pub seen_in : Option V → String → Seen V
  seen_in (some v) attr = value v
  seen_in none attr = if contains state_callable_attrs attr then method else missing

  abbrev pub see : Option (StateVal V) → String → Seen V
  see none attr = missing
  see (some x) attr = seen_in (get x.dict attr) attr

  -- `!=` of what two calls of `getattr` find
  abbrev pub differ : Seen V → Seen V → Bool
  differ missing missing = false
  differ missing (value v) = not (is_none v)
  differ (value v) missing = not (is_none v)
  differ (value v) (value w) = not (v == w)
  differ _ _ = true

  -- `value != old_value`
  abbrev pub value_differs : Option (StateVal V) → Option (StateVal V) → Bool
  value_differs none none = false
  value_differs (some x) (some y) = not (x.value == y.value)
  value_differs _ _ = true

  abbrev pub attr_differs : Change V → String → Bool
  attr_differs c attr = differ (see c.new attr) (see c.old attr)

  abbrev pub names_of : Option (StateVal V) → List String
  names_of none = []
  names_of (some x) = map (λ kv. kv.0) x.dict

  -- any attribute, less the virtual ones
  abbrev pub any_attr_differs : Change V → Bool
  any_attr_differs c =
      any (λ attr. not (contains state_virtual_attrs attr) && attr_differs c attr)
        (names_of c.new ++ names_of c.old)

  abbrev pub piece_changed : Change V → List String → Bool
  piece_changed c (d ∷ e ∷ attr ∷ []) =
      dotted d e == c.var_name && (if attr == "*" then any_attr_differs c else attr_differs c attr)
  piece_changed c pieces = false

  -- one round of `ident_any_values_changed`
  unfoldable pub any_round : Change V → String → Bool
  any_round c check_var =
      (check_var == c.var_name && value_differs c.new c.old)
      || (starts_with (text_append c.var_name ".") check_var && piece_changed c (split check_var))

  -- `ident_any_values_changed`
  unfoldable pub ident_any_values_changed : Change V → List String → Bool
  unfolding any_round
  ident_any_values_changed c [] = false
  ident_any_values_changed c (check_var ∷ ident) =
      any_round c check_var || ident_any_values_changed c ident

  -- one round of `ident_values_changed`
  abbrev pub pieces_changed : Change V → List String → Bool
  pieces_changed c (d ∷ e ∷ []) = dotted d e == c.var_name && value_differs c.new c.old
  pieces_changed c (d ∷ e ∷ attr ∷ []) =
      dotted d e == c.var_name
      && (if attr == "old" then value_differs c.new c.old else attr_differs c attr)
  pieces_changed c pieces = false

  -- `ident_values_changed`
  unfoldable pub ident_values_changed : Change V → List String → Bool
  ident_values_changed c [] = false
  ident_values_changed c (check_var ∷ ident) =
      pieces_changed c (split check_var) || ident_values_changed c ident
