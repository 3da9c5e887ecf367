-- ===== src/Manager/Active.antt =====
-- Guards and arguments of single decorators (custom_components/pyscript/decorators/): `@time_active`
-- and `@time_trigger` of timing.py, `@state_trigger` of state.py and `@event_trigger` of event.py.
-- Times are whole microseconds of the monotonic clock.
use pyscript.Base.{
  ℕ, zero, suc, ◌-◌, ◌==◌, nat_key, string_key, String, Bool, true, false, not, ◌&&◌, ◌||◌, ◌≡◌,
  refl, Option, none, some, List, [], ◌∷◌, ◌++◌, arith, if◌then◌else◌, is_some, ltb, leb,
}
use pyscript.Base.Dict.{Dict}
use pyscript.Base.Lists.{any, all, contains, is_empty, length}
use pyscript.Base.Bag.{discard}
use pyscript.State.Access.{update_all}

-- `TimeActiveDecorator`
pub record TimeActive : Type 0 where
  pub args : List String
  pub hold_off : Option ℕ
  pub last_trig_time : ℕ

abbrev pub held_off : Option ℕ → ℕ → ℕ → Bool
held_off none last now = false
held_off (some hold_off) last now = ltb 0 last && ltb 0 hold_off && ltb (now - last) hold_off

-- `handle_dispatch` of `@time_active` at the time `now`: its answer and the decorator. `active`
-- is what `timer_active_check` says of a time specification.
unfoldable pub handle_dispatch : (String → Bool) → ℕ → TimeActive → Bool × TimeActive
handle_dispatch active now d =
    if held_off d.hold_off d.last_trig_time now
    then (false, d)
    else if is_empty d.args || any active d.args
    then (true, record d { last_trig_time = now })
    else (false, d)

-- `timespec.remove(x)`
unfoldable pub remove_first : String → List String → List String
remove_first x [] = []
remove_first x (y ∷ ys) = if y == x then ys else y ∷ remove_first x ys

-- `while x in timespec: flag = True; timespec.remove(x)`, for at most so many rounds
unfoldable pub remove_while : ℕ → String → Bool × List String → Bool × List String
remove_while zero x (flag, xs) = (flag, xs)
remove_while (suc n) x (flag, xs) =
    let rest = remove_while n x (true, remove_first x xs) in
    if contains xs x then rest else (flag, xs)

-- `TimeTriggerDecorator`
pub record TimeTrigger : Type 0 where
  pub run_on_startup : Bool
  pub run_on_shutdown : Bool
  pub timespec : List String

-- `validate` of `@time_trigger`, once the schema accepts the arguments
unfoldable pub validate_time : List String → TimeTrigger
unfolding remove_while
validate_time args =
    let (startup, rest) = remove_while (length args) "startup" (false, args) in
    let (shutdown, timespec) = remove_while (length rest) "shutdown" (false, rest) in
    if is_empty args
    then record { run_on_startup = true; run_on_shutdown = false; timespec = [] }
    else record { run_on_startup = startup; run_on_shutdown = shutdown; timespec = timespec }

-- A positional argument of `@state_trigger`: a string, a list or set of strings and other
-- values, or another value.
pub data StateArg : Type 0 where
  text : String → StateArg
  texts : List (Option String) → StateArg
  other : StateArg

abbrev pub somes : List (Option String) → List String
somes [] = []
somes (none ∷ xs) = somes xs
somes (some x ∷ xs) = x ∷ somes xs

-- `_validate_state_trigger_args`, less the test that the arguments are a list
abbrev pub normal : StateArg → Option (List String)
normal (text x) = some (x ∷ [])
normal (texts xs) = if all is_some xs then some (somes xs) else none
normal other = none

abbrev pub append_to : Option (List String) → Option (List String) → Option (List String)
append_to (some xs) (some ys) = some (xs ++ ys)
append_to _ _ = none

unfoldable pub normalize : List StateArg → Option (List String)
normalize [] = some []
normalize (a ∷ args) = append_to (normal a) (normalize args)

-- `None` stands for `vol.Invalid`.
unfoldable pub validate_state_trigger_args : List StateArg → Option (List String)
unfolding normalize
validate_state_trigger_args args = if is_empty args then none else normalize args

-- `_event_callback` of `@event_trigger`: the arguments, where the expression accepts them
unfoldable pub event_callback :
    {V : Type 0} → (Dict String V → Bool) → V → V → V → Dict String V → Option (Dict String V)
event_callback accepts trigger_event event_type context event_data =
    let func_args =
      update_all
        (("trigger_type", trigger_event) ∷ ("event_type", event_type) ∷ ("context", context) ∷ [])
        event_data in
    if accepts func_args then some func_args else none

-- The identifiers of `@state_trigger`: `is_name` is the pattern of a state variable. The first
-- list are the arguments that are names, the second the expressions.
unfoldable pub split_args : (String → Bool) → List String → List String × List String
split_args is_name [] = ([], [])
split_args is_name (trig ∷ args) =
    let (idents, exprs) = split_args is_name args in
    if is_name trig then (trig ∷ idents, exprs) else (idents, trig ∷ exprs)

-- the watched names: those that are given, or those of the expression and of the arguments
abbrev pub watched_names : Option (List String) → List String → List String → List String
watched_names (some names) expr_names idents = names
watched_names none expr_names idents = expr_names ++ idents

-- accepted dispatches are further apart than `hold_off`
unfoldable pub spaced : ℕ → (String → Bool) → List ℕ → TimeActive → Bool
spaced hold_off active [] d = true
spaced hold_off active (now ∷ times) d =
    let (passed, d') = handle_dispatch active now d in
    (not (passed && ltb 0 d.last_trig_time && ltb (now - d.last_trig_time) hold_off))
    && spaced hold_off active times d'

-- Between two dispatches that `@time_active` lets pass lies at least its `hold_off`.
spaced-history :
    (hold_off : ℕ) (active : String → Bool) (times : List ℕ) (d : TimeActive)
    → d.hold_off ≡ some hold_off
    → spaced hold_off active times d ≡ true
unfolding spaced handle_dispatch
spaced-history hold_off active [] d h = refl
spaced-history hold_off active (now ∷ times) d h = ground (
  arith,
  spaced-history hold_off active times d h,
  spaced-history hold_off active times (record d { last_trig_time = now }) h,
)

length-remove_first :
    (x : String) (xs : List String)
    → contains xs x ≡ true
    → suc (length (remove_first x xs)) ≡ length xs
unfolding remove_first
length-remove_first x [] h = ground arith
length-remove_first x (y ∷ ys) h = ground (arith, length-remove_first x ys)

discard-remove_first :
    (x : String) (xs : List String)
    → contains xs x ≡ true
    → discard (remove_first x xs) x ≡ discard xs x
unfolding remove_first discard
discard-remove_first x [] h = refl
discard-remove_first x (y ∷ ys) h = ground (arith, discard-remove_first x ys)

discard_absent : (x : String) (xs : List String) → contains xs x ≡ false → discard xs x ≡ xs
unfolding discard
discard_absent x [] h = refl
discard_absent x (y ∷ ys) h = ground (arith, discard_absent x ys)

-- As many rounds as there are elements are enough: the loop ends with the flag raised where the
-- word was there, and without any occurrence of it.
remove_while-discard :
    (n : ℕ) (x : String) (flag : Bool) (xs : List String)
    → leb (length xs) n ≡ true
    → remove_while n x (flag, xs) ≡ (flag || contains xs x, discard xs x)
unfolding remove_while discard
remove_while-discard zero x flag [] h = ground arith
remove_while-discard zero x flag (y ∷ ys) h = ground arith
remove_while-discard (suc n) x flag xs h = ground (
  arith,
  length-remove_first x xs,
  discard-remove_first x xs,
  discard_absent x xs,
  remove_while-discard n x true (remove_first x xs),
)

leb_refl : (n : ℕ) → leb n n ≡ true
leb_refl n = ground arith

discard_empty : (xs : List String) → is_empty xs ≡ true → (xs ≡ [])
discard_empty [] h = refl
discard_empty (x ∷ xs) h = ground arith

-- `validate` of `@time_trigger` takes every `startup` and `shutdown` out of the arguments, keeps
-- the others by their order, and notes which of the two were there; without arguments the
-- function runs on startup.
validate_time-discard :
    (args : List String)
    → validate_time args ≡ record {
      run_on_startup = is_empty args || contains args "startup";
      run_on_shutdown = contains (discard args "startup") "shutdown";
      timespec = discard (discard args "startup") "shutdown";
    }
unfolding validate_time
validate_time-discard args = ground (
  arith,
  remove_while-discard (length args) "startup" false args (leb_refl (length args)),
  remove_while-discard (length (discard args "startup")) "shutdown" false (discard args "startup")
      (leb_refl (length (discard args "startup"))),
  discard_empty args,
)
