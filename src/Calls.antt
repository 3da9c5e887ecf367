-- ===== src/Calls.antt =====
-- Calls of the functions that scripts define (custom_components/pyscript/eval.py, class `EvalFunc`):
-- how `call` binds the arguments. A shared local variable (`EvalLocalVar`) is a number in a store.
pub mod Enter
mod Restored
mod Closures
pub mod Resolve
mod Passed
mod Tagged
mod Tests
use pyscript.Base.{
  ℕ, zero, suc, ◌+◌, ◌-◌, String, ◌==◌, string_key, nat_key, Bool, true, false, not, ◌&&◌, Option,
  none, some, List, [], ◌∷◌, ◌++◌, map, if◌then◌else◌, is_some, leb, ltb,
}
use pyscript.Base.Dict.{Dict, get, put, remove, has}
use pyscript.Base.Lists.{length, is_empty, all, contains}
use pyscript.Base.Result.{Result, ok, err, type_error, then_try}

-- what a parameter is bound to: an argument, the tuple of `*args`, the dict of `**kwargs`
pub data Bound (V : Type 0) : Type 0 where
  value : V → Bound V
  tuple : List V → Bound V
  keywords : Dict String V → Bound V

-- `local_sym_table`: a local variable that inner functions share, not defined yet, or the cell of a
-- function around
pub data Captured : Type 0 where
  own : Captured
  shared : ℕ → Captured

-- the definition of a function, with its defaults
pub record Func (V : Type 0) : Type 0 where
  pub posonlyargs : List String
  pub args : List String
  pub vararg : Option String
  pub kwonlyargs : List String
  pub kwarg : Option String
  pub defaults : List V
  pub kw_defaults : List (Option V)
  pub local_sym_table : Dict String Captured

-- the keywords that a trigger adds to a call
abbrev pub trigger_kwargs : List String
trigger_kwargs =
    "context" ∷ "event_type" ∷ "old_value" ∷ "payload" ∷ "payload_obj" ∷ "qos" ∷ "retain" ∷ "topic"
    ∷ "trigger_type" ∷ "trigger_time" ∷ "var_name" ∷ "value" ∷ "webhook_id" ∷ []

-- the variables of `call` while it binds
pub record Binding (V : Type 0) : Type 0 where
  pub sym_table : Dict String (Bound V)
  pub kwargs : Dict String V
  pub bad_kwargs : List String

module _ {ℓ} {A : Type ℓ} where
  -- `xs[i]` where it is in range, and `xs[i:]`
  abbrev pub nth : List A → ℕ → Option A
  nth [] i = none
  nth (x ∷ xs) zero = some x
  nth (x ∷ xs) (suc i) = nth xs i

  abbrev pub from : List A → ℕ → List A
  from xs zero = xs
  from [] (suc i) = []
  from (x ∷ xs) (suc i) = from xs i

module _ {V : Type 0} where
  -- `get_positional_args`
  abbrev pub get_positional_args : Func V → List String
  get_positional_args f = f.posonlyargs ++ f.args

  -- `num_posn_arg`
  abbrev pub num_posn_arg : Func V → ℕ
  num_posn_arg f = length f.posonlyargs + length f.args - length f.defaults

  abbrev pub default_of : Func V → ℕ → Option V
  default_of f i = if leb (num_posn_arg f) i then nth f.defaults (i - num_posn_arg f) else none

  abbrev pub set_entry : String → Bound V → Binding V → Binding V
  set_entry name b s = record s { sym_table = put s.sym_table name b }

  abbrev pub use_default : Option V → String → Binding V → Result (Binding V)
  use_default none name s = err type_error
  use_default (some v) name s = ok (set_entry name (value v) s)

  abbrev pub use_keyword : Func V → ℕ → String → Option V → Binding V → Result (Binding V)
  use_keyword f i name none s = use_default (default_of f i) name s
  use_keyword f i name (some v) s = ok (
      set_entry name (value v) (record s {
        kwargs = remove s.kwargs name;
        bad_kwargs = s.bad_kwargs ++ (if ltb i (length f.posonlyargs) then name ∷ [] else []);
      }))

  abbrev pub use_arg : Func V → ℕ → String → Option V → Binding V → Result (Binding V)
  use_arg f i name none s = use_keyword f i name (get s.kwargs name) s
  use_arg f i name (some v) s =
      if has s.kwargs name then err type_error else ok (set_entry name (value v) s)

  -- the loop over the positional parameters, from the `i`-th on
  unfoldable pub bind_posn : Func V → List V → ℕ → List String → Binding V → Result (Binding V)
  bind_posn f args i [] s = ok s
  bind_posn f args i (name ∷ names) s =
      then_try (use_arg f i name (nth args i) s) (λ s'. bind_posn f args (suc i) names s')

  abbrev pub kw_default : Option (Option V) → String → Binding V → Result (Binding V)
  kw_default (some (some v)) name s = ok (set_entry name (value v) s)
  kw_default _ name s = err type_error

  abbrev pub use_kwonly : Func V → ℕ → String → Option V → Binding V → Result (Binding V)
  use_kwonly f i name none s = kw_default (nth f.kw_defaults i) name s
  use_kwonly f i name (some v) s =
      ok (set_entry name (value v) (record s { kwargs = remove s.kwargs name }))

  -- the loop over the keyword-only parameters
  unfoldable pub bind_kwonly : Func V → ℕ → List String → Binding V → Result (Binding V)
  bind_kwonly f i [] s = ok s
  bind_kwonly f i (name ∷ names) s =
      then_try (use_kwonly f i name (get s.kwargs name) s) (λ s'. bind_kwonly f (suc i) names s')

  -- the keywords that are left
  abbrev pub bind_kwarg : Option String → Binding V → Result (Binding V)
  bind_kwarg (some name) s = ok (set_entry name (keywords s.kwargs) s)
  bind_kwarg none s =
      if all (λ kv. contains trigger_kwargs kv.0) s.kwargs then ok s else err type_error

  -- the positional arguments that are left
  abbrev pub bind_vararg : Func V → List V → Option String → Binding V → Result (Binding V)
  bind_vararg f args (some name) s =
      ok (set_entry name (tuple (from args (length (get_positional_args f)))) s)
  bind_vararg f args none s =
      if ltb (length (get_positional_args f)) (length args) then err type_error else ok s

  abbrev pub if_good : Binding V → Result (Binding V)
  if_good s = if is_empty s.bad_kwargs then ok s else err type_error

  -- `call` up to the symbol table of the arguments
  unfoldable pub bind : Func V → List V → Dict String V → Result (Dict String (Bound V))
  unfolding bind_posn bind_kwonly
  bind f args kwargs =
      then_try
        (bind_posn f args 0 (get_positional_args f)
          (record { sym_table = []; kwargs = kwargs; bad_kwargs = [] }))
        (λ s1. then_try (if_good s1) (λ s2. then_try (bind_kwonly f 0 f.kwonlyargs s2) (λ s3.
          then_try (bind_kwarg f.kwarg s3)
            (λ s4. then_try (bind_vararg f args f.vararg s4) (λ s5. ok s5.sym_table)))))
