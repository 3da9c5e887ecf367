-- ===== src/Setup/Tests.antt =====
-- Decorators of a function, checked and handed out.
use pyscript.Base.{String, nat_key, string_key, false, ◌≡◌, refl, Option, none, some, List, [], ◌∷◌}
use pyscript.Base.Dict.{get, put}
use pyscript.Base.Result.{ok, err, index_error}
use pyscript.Base.{arith, true, leb}
use pyscript.Base.Lists.{all, length}
use pyscript.Setup.{
  Decorator, Arg, str_kind, Decs, check_decorators, pop_each, hand_out, trig_decorators_reqd,
}
use pyscript.Setup.HandedOut.{named, all_named, all_named-hand_out}

abbrev text_arg : Arg
text_arg = record { kind = str_kind; all_text = false }

abbrev decorator : String → Option (List Arg) → Decorator
decorator name args = record { name = name; args = args; kwargs = none }

abbrev on_state : Decorator
on_state = decorator "state_trigger" (some (text_arg ∷ []))

abbrev on_time : Decorator
on_time = decorator "time_trigger" none

abbrev decs : Decs
decs = ("state_trigger", on_state ∷ on_state ∷ []) ∷ ("time_trigger", on_time ∷ []) ∷ []

check_test : check_decorators (on_state ∷ on_time ∷ on_state ∷ []) [] ≡ ok decs
unfolding check_decorators get put
check_test = refl

-- @state_active() with no argument
empty_test : check_decorators (decorator "state_active" (some []) ∷ []) [] ≡ err index_error
unfolding check_decorators get
empty_test = refl

hand_out_test :
    hand_out 3 trig_decorators_reqd decs
    ≡ (("state_trigger", on_state) ∷ ("time_trigger", on_time) ∷ [])
      ∷ (("state_trigger", on_state) ∷ [])
      ∷ []
unfolding hand_out pop_each get put
hand_out_test = refl

all_named-hand_out_example :
    (all_named "state_trigger" (hand_out 2 trig_decorators_reqd decs) ≡ on_state ∷ on_state ∷ [])
    × (all
          (λ args. leb (length (named "state_trigger" args)) 1)
          (hand_out 2 trig_decorators_reqd decs)
        ≡ true)
unfolding get
all_named-hand_out_example =
    all_named-hand_out 2 trig_decorators_reqd decs "state_trigger" refl refl (ground arith)
