-- ===== src/Manager/Dispatch.antt =====
-- Dispatch of triggers: `TriggerDecorator.dispatch` of decorator_abc.py, and the registry and the two
-- managers of decorator.py. A decorator's `stop` neither lets other tasks run nor dispatches, as that
-- of a time trigger for the shutdown does.
use pyscript.Base.{
  String, ◌==◌, nat_key, string_key, Bool, true, false, not, ◌&&◌, ◌||◌, ◌≡◌, refl, Option, none,
  some, List, [], ◌∷◌, ◌++◌, arith, map, if◌then◌else◌, is_some,
}
use pyscript.Base.Dict.{Dict, get, put, has}
use pyscript.Base.Lists.{all, any, contains, any-append}
use pyscript.Base.Bag.{add as add_to}
use pyscript.Base.Result.{Error, type_error, value_error, Result, ok, err}
use pyscript.State.Access.{update_all}
use pyscript.Manager.{Decorator, Manager, Call, stop}

-- `DispatchData`, less the evaluator and the context of the call
pub record DispatchData (V : Type 0) : Type 0 where
  pub func_args : Dict String V
  pub trigger : Option Decorator

abbrev pub or_self : Option Decorator → Decorator → Option Decorator
or_self none d = some d
or_self (some t) d = some t

-- `TriggerDecorator.dispatch` up to the manager's: `kwargs` are the decorator's own
unfoldable pub with_trigger :
    {V : Type 0} → Decorator → Dict String V → DispatchData V → DispatchData V
with_trigger d kwargs dispatch_data = record {
  func_args = update_all dispatch_data.func_args kwargs;
  trigger = or_self dispatch_data.trigger d;
}

-- what the future of `task.wait_until` is set to
pub data Outcome (V : Type 0) : Type 0 where
  dispatched : DispatchData V → Outcome V
  raised : Error → Outcome V

-- `WaitUntilDecoratorManager`
pub record WaitUntil (V : Type 0) : Type 0 where
  pub manager : Manager
  pub future : Option (Outcome V)
  pub timeout_decorator : Option Decorator

abbrev pub same_decorator : Option Decorator → Option Decorator → Bool
same_decorator none none = true
same_decorator (some a) (some b) = a == b
same_decorator _ _ = false

module _ {V : Type 0} where
  abbrev pub resolve : Outcome V → WaitUntil V → List Call × WaitUntil V
  resolve o w =
      let (calls, m) = stop w.manager in
      if is_some w.future
      then ([], w)
      else (calls, record { manager = m; future = some o; timeout_decorator = w.timeout_decorator })

  -- `WaitUntilDecoratorManager.dispatch`
  unfoldable pub wait_dispatch : DispatchData V → WaitUntil V → List Call × WaitUntil V
  wait_dispatch dispatch_data w = resolve (dispatched dispatch_data) w

  -- `WaitUntilDecoratorManager.handle_exception`
  unfoldable pub wait_exception : Error → WaitUntil V → List Call × WaitUntil V
  wait_exception e w = resolve (raised e) w

  -- `WaitUntilDecoratorManager.wait_until`, once the future is set; `timeout` is its string
  unfoldable pub returned : V → Option Decorator → Outcome V → Result (Dict String V)
  returned timeout timeout_decorator (raised e) = err e
  returned timeout timeout_decorator (dispatched dispatch_data) =
      if same_decorator dispatch_data.trigger timeout_decorator
      then ok (("trigger_type", timeout) ∷ [])
      else ok dispatch_data.func_args

-- a class of decorators: whether it is a trigger, and the keys of its schema for keywords
pub record DecoratorClass : Type 0 where
  pub is_trigger : Bool
  pub kwargs_schema_keys : List String

-- `DecoratorRegistry.register`
unfoldable pub register :
    String → DecoratorClass → Dict String DecoratorClass → Result (Dict String DecoratorClass)
register name dec_type decorators =
    if name == "" then err type_error else ok (put decorators name dec_type)

module _ {V : Type 0} (as_list : V → List V) where
  -- a decorator that `task.wait_until` makes: its name, arguments and keywords
  pub record Made : Type 0 where
    pub dec_name : String
    pub dec_args : List V
    pub dec_kwargs : Dict String V

  -- the keywords of one decorator
  abbrev pub add_keyword : String → Option V → Dict String V → Dict String V
  add_keyword key none d = d
  add_keyword key (some v) d = put d key v

  unfoldable pub take_keywords : List String → Dict String V → Dict String V
  take_keywords [] kwargs = []
  take_keywords (key ∷ keys) kwargs = add_keyword key (get kwargs key) (take_keywords keys kwargs)

  -- the loop of `wait_until` over the registry: the arguments found, and the decorators
  abbrev pub add_found : Bool → String → List String → List String
  add_found b key found = if b then add_to found key else found

  unfoldable pub find_keywords : List String → Dict String V → List String → List String
  find_keywords [] kwargs found = found
  find_keywords (key ∷ keys) kwargs found =
      find_keywords keys kwargs (add_found (has kwargs key) key found)

  abbrev pub make_one :
      String
      → DecoratorClass
      → Dict String V
      → Option V
      → List String × List Made
      → List String × List Made
  make_one name c kwargs none (found, made) = (found, made)
  make_one name c kwargs (some args) (found, made) =
      if c.is_trigger
      then (
        find_keywords c.kwargs_schema_keys kwargs (add_to found name),
        made
            ++ record {
              dec_name = name;
              dec_args = as_list args;
              dec_kwargs = take_keywords c.kwargs_schema_keys kwargs;
            }
              ∷ [],
      )
      else (found, made)

  unfoldable pub make_each :
      Dict String DecoratorClass → Dict String V → List String × List Made → List String × List Made
  unfolding find_keywords take_keywords
  make_each [] kwargs x = x
  make_each ((name, c) ∷ classes) kwargs x =
      make_each classes kwargs (make_one name c kwargs (get kwargs name) x)

  abbrev pub all_found : List String → Dict String V → Bool
  all_found found kwargs = all (λ kv. contains found kv.0) kwargs

  -- The decorators that `wait_until` adds to its manager, the one for the timeout excepted; no
  -- keyword at all is another case, which waits for nothing.
  unfoldable pub wait_until_decorators :
      Dict String DecoratorClass → Dict String V → Result (List Made)
  unfolding make_each
  wait_until_decorators classes kwargs =
      let (found, made) = make_each classes kwargs ("timeout" ∷ "__test_handshake__" ∷ [], []) in
      if all_found found kwargs then ok made else err value_error

-- what a dispatch of a function's manager does, by order
pub data Step (V : Type 0) : Type 0 where
  handle_dispatch handle_call : Decorator → Step V
  run_action : Step V
  handle_call_result : Decorator → Option V → Step V

-- What a guard answers, as far as the managers tell answers apart: the object `False`, another object
-- that Python counts as false (zero, None, an empty text), or one that it counts as true. One that
-- raises has no answer.
pub data Answer : Type 0 where
  the_false falsy truthy no_answer : Answer

-- `result is False`
abbrev pub is_false : Answer → Bool
is_false the_false = true
is_false falsy = false
is_false truthy = false
is_false no_answer = false

-- whether the guard raises, which ends `dispatch` or `_call`
abbrev pub is_raise : Answer → Bool
is_raise no_answer = true
is_raise _ = false

abbrev pub lets_pass : Answer → Bool
lets_pass a = not (is_false a || is_raise a)

module _ {V : Type 0} where
  -- Guards by order, up to the first that answers `False` or raises: whether there is none, whether
  -- one answered `False`, and the steps.
  unfoldable pub guards :
      (Decorator → Step V) → (Decorator → Answer) → List Decorator → Bool × (Bool × List (Step V))
  guards ask answer [] = (true, (false, []))
  guards ask answer (d ∷ ds) =
      let (passed, (refused, steps)) = guards ask answer ds in
      if is_false (answer d)
      then (false, (true, ask d ∷ []))
      else if is_raise (answer d)
      then (false, (false, ask d ∷ []))
      else (passed, (refused, ask d ∷ steps))

  -- `FunctionDecoratorManager._call`, for a function that returns `result`
  unfoldable pub call : (Decorator → Answer) → List Decorator → List Decorator → V → List (Step V)
  unfolding guards
  call answer handlers result_handlers result =
      let (passed, (refused, steps)) = guards handle_call answer handlers in
      if passed
      then steps ++ run_action ∷ map (λ d. handle_call_result d (some result)) result_handlers
      else if refused
      then steps ++ map (λ d. handle_call_result d none) result_handlers
      else steps

  -- `FunctionDecoratorManager.dispatch`, with the task that it creates
  unfoldable pub dispatch :
      (Decorator → Answer)
      → (Decorator → Answer)
      → List Decorator
      → List Decorator
      → List Decorator
      → V
      → List (Step V)
  unfolding guards call
  dispatch active answer trigger_handlers handlers result_handlers result =
      let (passed, (refused, steps)) = guards handle_dispatch active trigger_handlers in
      if passed then steps ++ call answer handlers result_handlers result else steps

  -- whether the function is run
  abbrev pub is_run : Step V → Bool
  is_run run_action = true
  is_run _ = false

  any-ask :
      (ask : Decorator → Step V) (answer : Decorator → Answer) (ds : List Decorator)
      → ((d : Decorator) → is_run (ask d) ≡ false)
      → any is_run (guards ask answer ds).1.1 ≡ false
  unfolding guards
  any-ask ask answer [] h = refl
  any-ask ask answer (d ∷ ds) h = ground (arith, h d, any-ask ask answer ds h)

  passed-guards :
      (ask : Decorator → Step V) (answer : Decorator → Answer) (ds : List Decorator)
      → (guards ask answer ds).0 ≡ all (λ d. lets_pass (answer d)) ds
  unfolding guards
  passed-guards ask answer [] = refl
  passed-guards ask answer (d ∷ ds) = ground (arith, passed-guards ask answer ds)

  any-results :
      (o : Option V) (ds : List Decorator)
      → any is_run (map (λ d. handle_call_result d o) ds) ≡ false
  any-results o [] = refl
  any-results o (d ∷ ds) = any-results o ds

  any-call :
      (answer : Decorator → Answer) (hs rs : List Decorator) (result : V)
      → any is_run (call answer hs rs result) ≡ all (λ d. lets_pass (answer d)) hs
  unfolding call
  any-call answer hs rs result = ground (
    arith,
    passed-guards handle_call answer hs,
    any-ask handle_call answer hs (λ d. refl),
    any-append is_run (guards handle_call answer hs).1.1
        (run_action ∷ map (λ d. handle_call_result d (some result)) rs),
    any-append is_run (guards handle_call answer hs).1.1 (map (λ d. handle_call_result d none) rs),
    any-results none rs,
  )

  pub is_run-guards :
      (active answer : Decorator → Answer) (ts hs rs : List Decorator) (result : V)
      → any is_run (dispatch active answer ts hs rs result)
        ≡ (all (λ d. lets_pass (active d)) ts && all (λ d. lets_pass (answer d)) hs)
  unfolding dispatch
  is_run-guards active answer ts hs rs result = ground (
    arith,
    passed-guards handle_dispatch active ts,
    any-ask handle_dispatch active ts (λ d. refl),
    any-append is_run (guards handle_dispatch active ts).1.1 (call answer hs rs result),
    any-call answer hs rs result,
  )
