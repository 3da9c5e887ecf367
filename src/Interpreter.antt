-- ===== src/Interpreter.antt =====
-- The statements of the interpreter (custom_components/pyscript/eval.py) that direct the flow of
-- control. A statement is the function that `aeval` runs for it, on the interpreter's state `S`;
-- values are `V` and exceptions `E`.
mod Loops
pub mod Names
pub mod Unpack
mod Tests
use pyscript.Base.{
  ℕ, zero, suc, Bool, true, false, not, ◌&&◌, ◌||◌, ◌≡◌, Option, none, some, List, [], ◌∷◌,
  if◌then◌else◌, is_some,
}

-- What a statement comes to: a value or `None`, a stop of the flow (`EvalBreak`, `EvalContinue`,
-- `EvalReturn`), an exception, or no end for the rounds that are left.
pub data Flow (V E : Type 0) : Type 0 where
  done : Option V → Flow V E
  eval_break eval_continue : Flow V E
  eval_return : Option V → Flow V E
  raised : E → Flow V E
  unfinished : Flow V E

-- the value of a test, or its exception
pub data Tested (E : Type 0) : Type 0 where
  holds : Bool → Tested E
  fails : E → Tested E

abbrev pub Statement : Type 0 → Type 0 → Type 0 → Type 0
Statement S V E = S → Flow V E × S

-- `isinstance(val, EvalStopFlow)`, or an end by an exception
abbrev pub stops : {V E : Type 0} → Flow V E → Bool
stops (done v) = false
stops f = true

-- `isinstance(val, EvalReturn)`, or an end by an exception
abbrev pub returns : {V E : Type 0} → Flow V E → Bool
returns (done v) = false
returns eval_break = false
returns eval_continue = false
returns f = true

-- A handler of `try`: whether it takes an exception, its name bound to it, and `del` of the name.
pub record Handler (S V E : Type 0) : Type 0 where
  pub matches : E → S → Tested E × S
  pub bind : E → S → S
  pub body : List (Statement S V E)
  pub unbind : S → Option E × S

abbrev pub raise_from : {V E : Type 0} → Option E → Flow V E → Flow V E
raise_from none f = f
raise_from (some e) f = raised e

abbrev pub none_unless_stops : {V E : Type 0} → Flow V E → Flow V E
none_unless_stops (done v) = done none
none_unless_stops f = f

module _ {S V E : Type 0} where
  -- the statements of a block, up to one that stops; `val` is what the last one came to
  unfoldable pub run_block : List (Statement S V E) → Flow V E → Statement S V E
  run_block [] val s = (val, s)
  run_block (x ∷ xs) val s =
      let (f, s') = x s in let rest = run_block xs f s' in if stops f then (f, s') else rest

  abbrev pub branch : List (Statement S V E) → List (Statement S V E) → Tested E → S → Flow V E × S
  branch body orelse (holds b) s =
      if b then run_block body (done none) s else run_block orelse (done none) s
  branch body orelse (fails e) s = (raised e, s)

  -- `ast_if`
  unfoldable pub ast_if :
      (S → Tested E × S) → List (Statement S V E) → List (Statement S V E) → Statement S V E
  unfolding run_block
  ast_if test body orelse s = let (t, s') = test s in branch body orelse t s'

  -- The `else` block of a loop: only `return` and exceptions end it.
  unfoldable pub else_block : List (Statement S V E) → Statement S V E
  else_block [] s = (done none, s)
  else_block (x ∷ xs) s =
      let (f, s') = x s in let rest = else_block xs s' in if returns f then (f, s') else rest

  -- what follows the body of a loop
  abbrev pub after_body : Flow V E → S → (S → Flow V E × S) → Flow V E × S
  after_body (done v) s next = next s
  after_body eval_continue s next = next s
  after_body eval_break s next = (done none, s)
  after_body f s next = (f, s)

  abbrev pub after_assign : Flow V E → S → (S → Flow V E × S) → Flow V E × S
  after_assign (done v) s next = next s
  after_assign f s next = (f, s)

  -- `ast_for`, over the values of the iterator; `assign` is `recurse_assign` of the target
  unfoldable pub ast_for :
      (V → Statement S V E)
      → List V
      → List (Statement S V E)
      → List (Statement S V E)
      → Statement S V E
  unfolding run_block else_block
  ast_for assign [] body orelse s = else_block orelse s
  ast_for assign (v ∷ vs) body orelse s =
      let (a, s1) = assign v s in
      after_assign a s1 (λ s2.
        let (f, s3) = run_block body (done none) s2 in
        after_body f s3 (ast_for assign vs body orelse))

  abbrev pub while_round :
      Tested E
      → S
      → List (Statement S V E)
      → List (Statement S V E)
      → (S → Flow V E × S)
      → Flow V E × S
  while_round (fails e) s body orelse next = (raised e, s)
  while_round (holds b) s body orelse next =
      let (f, s') = run_block body (done none) s in
      if b then after_body f s' next else else_block orelse s

  -- `ast_while`, for at most so many rounds
  unfoldable pub ast_while :
      ℕ → (S → Tested E × S) → List (Statement S V E) → List (Statement S V E) → Statement S V E
  unfolding run_block else_block
  ast_while zero test body orelse s = (unfinished, s)
  ast_while (suc n) test body orelse s =
      let (t, s') = test s in while_round t s' body orelse (ast_while n test body orelse)

  abbrev pub take_handler : Tested E → Handler S V E → E → S → (S → Flow V E × S) → Flow V E × S
  take_handler (fails e') h e s next = (raised e', s)
  take_handler (holds matched) h e s next =
      let (f, s') = run_block h.body (done none) (h.bind e s) in
      let (u, s'') = h.unbind s' in
      let otherwise = next s in
      if matched then (raise_from u (none_unless_stops f), s'') else otherwise

  -- the handlers by order; an exception that none takes goes on
  unfoldable pub handle : List (Handler S V E) → E → Statement S V E
  unfolding run_block
  handle [] e s = (raised e, s)
  handle (h ∷ handlers) e s =
      let (t, s') = h.matches e s in take_handler t h e s' (handle handlers e)

  -- what follows the body of `try`, for exceptions that are `Exception`s
  abbrev pub after_try :
      (E → Bool) → List (Handler S V E) → List (Statement S V E) → Flow V E → S → Flow V E × S
  after_try is_exception handlers orelse (raised e) s =
      if is_exception e then handle handlers e s else (raised e, s)
  after_try is_exception handlers orelse (done v) s =
      let (f, s') = run_block orelse (done none) s in (none_unless_stops f, s')
  after_try is_exception handlers orelse f s = (f, s)

  -- `ast_try`: a stop in the `finally` block goes before what there was
  unfoldable pub ast_try :
      (E → Bool)
      → List (Statement S V E)
      → List (Handler S V E)
      → List (Statement S V E)
      → List (Statement S V E)
      → Statement S V E
  unfolding run_block handle
  ast_try is_exception body handlers orelse finalbody s =
      let (f, s1) = run_block body (done none) s in
      let (g, s2) = after_try is_exception handlers orelse f s1 in
      let (h, s3) = run_block finalbody (done none) s2 in (if stops h then h else g, s3)
