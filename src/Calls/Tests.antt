-- ===== src/Calls/Tests.antt =====
-- Calls with concrete arguments, and functions in functions.
use pyscript.Base.{
  ℕ, suc, ◌≤◌, String, nat_key, string_key, true, false, ◌≡◌, refl, Option, none, some, [], ◌∷◌,
  ◌++◌, arith, ◌==◌,
}
use Prim.{tt}
use pyscript.Base.Dict.{Dict, get, put, remove, has}
use pyscript.Base.Lists.{contains, any}
use pyscript.Base.Text.{split}
use pyscript.Base.Result.{ok, err, type_error}
use pyscript.Interpreter.{Statement, raised}
use pyscript.Calls.{
  Bound, value, Captured, own, shared, Func, trigger_kwargs, get_positional_args, bind_posn,
  bind_kwonly, bind,
}
use pyscript.Calls.Enter.{local_var, Cells, is_defined, enter_locals, Frame, Home, call_body}
use pyscript.Calls.Resolve.{Names, resolve, stem, first_of}
use pyscript.Calls.Passed.{bind-argument, bind-no_loss}
use pyscript.Calls.Restored.{call_body-Keeps}
use pyscript.Calls.Closures.{enter_locals-sharing}
use pyscript.Calls.Tagged.{Tagged, resolve-Tagged}

-- def f(a, /, b, c=7, *, k=8)
abbrev f : Func ℕ
f = record {
  posonlyargs = "a" ∷ [];
  args = "b" ∷ "c" ∷ [];
  vararg = none;
  kwonlyargs = "k" ∷ [];
  kwarg = none;
  defaults = 7 ∷ [];
  kw_defaults = some 8 ∷ [];
  local_sym_table = [];
}

abbrev given : Dict String ℕ
given = ("b", 2) ∷ ("trigger_type", 0) ∷ []

abbrev bound : Dict String (Bound ℕ)
bound = ("a", value 1) ∷ ("b", value 2) ∷ ("c", value 7) ∷ ("k", value 8) ∷ []

-- f(1, b=2, trigger_type=0)
bind_test : bind f (1 ∷ []) given ≡ ok bound
unfolding bind bind_posn bind_kwonly get put remove
bind_test = refl

-- f(a=1, b=2)
posonly_test : bind f [] (("a", 1) ∷ ("b", 2) ∷ []) ≡ err type_error
unfolding bind bind_posn bind_kwonly get put remove
posonly_test = refl

bind-argument_example : (get bound "c" ≡ some (value 7)) × (true ≡ true)
unfolding get
bind-argument_example = bind-argument f (1 ∷ []) given bound 2 "c" bind_test refl refl refl

bind-no_loss_example :
    (1 ≤ 3)
    × ((key : String)
        → has given key ≡ true
        → contains (get_positional_args f ++ (f.kwonlyargs ++ trigger_kwargs)) key ≡ true)
bind-no_loss_example = bind-no_loss f (1 ∷ []) given bound bind_test refl refl

abbrev module_frame : Frame
module_frame = record {
  global_sym_table = 1;
  sym_table = 1;
  sym_table_stack = [];
  global_ctx = 10;
  code = 100;
  curr_func = none;
  user_locals = 50;
}

-- of another context
abbrev home : Home
home = record { context = 20; context_table = 2; func_code = 200; func = 7 }

abbrev fails : Statement (ℕ × Frame) ℕ ℕ
fails (w, a) = (raised 3, (suc w, a))

call_body-Keeps_example :
    (call_body {W = ℕ} {V = ℕ} {E = ℕ} home 5 51 (fails ∷ []) (0, module_frame)).1.1 ≡ module_frame
call_body-Keeps_example =
    call_body-Keeps {W = ℕ} {V = ℕ} {E = ℕ} home 5 51 (fails ∷ []) 0 module_frame (λ w a. refl, tt)

-- `x` is defined in the function around, `y` is not yet
abbrev cells : Cells ℕ
cells = record { next = 2; cells = (0, some (value 4)) ∷ (1, none) ∷ [] }

abbrev captured : Dict String Captured
captured = ("x", shared 0) ∷ ("y", shared 1) ∷ ("z", own) ∷ []

abbrev params : Dict String (Bound ℕ)
params = ("z", value 9) ∷ []

enter_test :
    (enter_locals params captured [] cells).0
    ≡ ("x", local_var 0) ∷ ("y", local_var 2) ∷ ("z", local_var 3) ∷ []
unfolding enter_locals get put
enter_test = refl

enter_locals-sharing_example :
    (j : ℕ) × (get (enter_locals params captured [] cells).0 "y" ≡ some (local_var j))
    × ((get params "y" ≡ none → is_defined (shared 1) cells ≡ true → shared 1 ≡ shared j)
        × ((v : Bound ℕ)
            → get params "y" ≡ some v
            → (2 ≤ j) × (get (enter_locals params captured [] cells).1.cells j ≡ some (some v)))
        × (get params "y" ≡ none
            → is_defined (shared 1) cells ≡ false
            → (2 ≤ j) × (get (enter_locals params captured [] cells).1.cells j ≡ some none)))
unfolding get
enter_locals-sharing_example =
    enter_locals-sharing params captured [] cells "y" (shared 1) refl refl
      (λ id e. ground (arith, e))

abbrev inner : Names ℕ
inner = record {
  local_names = "a" ∷ "x" ∷ [];
  nonlocal_names = "x" ∷ [];
  global_names = "g" ∷ [];
  has_closure = true;
  sym_table = ("x", local_var 5) ∷ [];
  sym_table_stack = [];
}

resolve_test :
    resolve (λ name. ok false) inner ("g" ∷ "x" ∷ "a.b" ∷ []) []
    ≡ ok (("x", shared 5) ∷ ("a", own) ∷ [])
unfolding resolve split get put
resolve_test = refl

abbrev tagged : Dict String Captured
tagged = ("x", shared 5) ∷ ("a", own) ∷ []

resolve-Tagged_example :
    (any (λ v. stem v == "x") ("g" ∷ "x" ∷ "a.b" ∷ []) ≡ true
      → (c : Option Captured) × Tagged inner "x" c
        × (get tagged "x" ≡ first_of c (get {K = String} {V = Captured} [] "x")))
    × (any (λ v. stem v == "x") ("g" ∷ "x" ∷ "a.b" ∷ []) ≡ false
        → get tagged "x" ≡ get {K = String} {V = Captured} [] "x")
resolve-Tagged_example =
    resolve-Tagged (λ name. ok false) inner ("g" ∷ "x" ∷ "a.b" ∷ []) [] tagged "x" resolve_test
