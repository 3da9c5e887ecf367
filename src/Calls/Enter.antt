-- ===== src/Calls/Enter.antt =====
-- How `EvalFunc.call` (custom_components/pyscript/eval.py) enters a function: the cells of its shared
-- local variables, the switch of the interpreter's tables, and their return to what they were.
use pyscript.Base.{
  ℕ, suc, ◌==◌, String, string_key, nat_key, Bool, true, false, Option, none, some, List, [], ◌∷◌,
  if◌then◌else◌,
}
use pyscript.Base.Dict.{Dict, get, put}
use pyscript.Calls.{Bound, Captured, own, shared}
use pyscript.Interpreter.{Flow, done, eval_return, Statement, returns}

-- an entry of a function's table: a value, or a cell by its number
pub data Entry (V : Type 0) : Type 0 where
  plain : Bound V → Entry V
  local_var : ℕ → Entry V

-- all cells (`EvalLocalVar`) with their values, none where one is not defined; `next` is a new one
pub record Cells (V : Type 0) : Type 0 where
  pub next : ℕ
  pub cells : Dict ℕ (Option (Bound V))

module _ {V : Type 0} where
  -- `EvalLocalVar(name, value=...)`, or without a value
  abbrev pub new_cell : Option (Bound V) → Cells V → Cells V
  new_cell v c = record { next = suc c.next; cells = put c.cells c.next v }

  abbrev pub defined_in : Option (Option (Bound V)) → Bool
  defined_in (some (some v)) = true
  defined_in _ = false

  -- `is_defined`
  abbrev pub is_defined : Captured → Cells V → Bool
  is_defined own c = false
  is_defined (shared id) c = defined_in (get c.cells id)

  abbrev pub cell_of : Captured → Entry V
  cell_of own = local_var 0
  cell_of (shared id) = local_var id

  -- the entry of one shared variable, and the cells after it
  abbrev pub enter_local : Option (Bound V) → Captured → Cells V → Entry V × Cells V
  enter_local (some v) x c = (local_var c.next, new_cell (some v) c)
  enter_local none x c =
      if is_defined x c then (cell_of x, c) else (local_var c.next, new_cell none c)

  -- the loop over `local_sym_table`; as its names differ, an entry that it sets is not met again
  unfoldable pub enter_locals :
      Dict String (Bound V)
      → Dict String Captured
      → Dict String (Entry V)
      → Cells V
      → Dict String (Entry V) × Cells V
  enter_locals params [] sym_table c = (sym_table, c)
  enter_locals params ((name, x) ∷ local_sym_table) sym_table c =
      let (e, c') = enter_local (get params name) x c in
      enter_locals params local_sym_table (put sym_table name e) c'

-- What the interpreter switches: its tables, which are objects by number, the stack with its top
-- first, the context, the code, the function that runs and the user's locals.
pub record Frame : Type 0 where
  pub global_sym_table : ℕ
  pub sym_table : ℕ
  pub sym_table_stack : List ℕ
  pub global_ctx : ℕ
  pub code : ℕ
  pub curr_func : Option ℕ
  pub user_locals : ℕ

-- where a function was defined: its context with the table of that, its code, and its number
pub record Home : Type 0 where
  pub context : ℕ
  pub context_table : ℕ
  pub func_code : ℕ
  pub func : ℕ

-- the tables before the call, where the context is another one
abbrev pub switch : Bool → Home → Frame → Frame
switch true h a = record a { sym_table_stack = a.sym_table ∷ a.sym_table_stack }
switch false h a = record a {
  global_sym_table = h.context_table;
  sym_table_stack = h.context_table ∷ [];
  global_ctx = h.context;
}

-- up to the body: `table` and `locals` are the new table and the new dict of the user's locals
abbrev pub enter : Home → ℕ → ℕ → Frame → Frame
enter h table locals a = record (switch (a.global_ctx == h.context) h a) {
  sym_table = table;
  code = h.func_code;
  curr_func = some h.func;
  user_locals = locals;
}

-- `sym_table_stack.pop()`
abbrev pub pop_table : List ℕ → Frame → Frame
pop_table [] a = a
pop_table (t ∷ stack) a = record a { sym_table = t; sym_table_stack = stack }

abbrev pub back : Bool → Frame → Frame → Frame
back true before a = pop_table a.sym_table_stack a
back false before a = record a {
  global_sym_table = before.global_sym_table;
  sym_table = before.sym_table;
  sym_table_stack = before.sym_table_stack;
  global_ctx = before.global_ctx;
}

-- the `finally` clause
abbrev pub leave : Home → Frame → Frame → Frame
leave h before a = back (before.global_ctx == h.context) before (record a {
  curr_func = before.curr_func;
  user_locals = before.user_locals;
  code = before.code;
})

-- what the body's statements come to
abbrev pub value_of : {V E : Type 0} → Flow V E → Flow V E
value_of (eval_return v) = done v
value_of r = r

module _ {W V E : Type 0} where
  -- the loop over the body; a function without a return returns `None`
  unfoldable pub run_body : List (Statement (W × Frame) V E) → Statement (W × Frame) V E
  run_body [] s = (done none, s)
  run_body (statement ∷ body) s =
      let (r, s') = statement s in
      let rest = run_body body s' in if returns r then (value_of r, s') else rest

  -- `call`, from the switch of the tables on
  unfoldable pub call_body :
      Home → ℕ → ℕ → List (Statement (W × Frame) V E) → Statement (W × Frame) V E
  call_body h table locals body (w, a) =
      let (r, (w', a')) = run_body body (w, enter h table locals a) in (r, (w', leave h a a'))
