-- ===== src/Expressions/With.antt =====
-- The statement `with` of the interpreter (custom_components/pyscript/eval.py): `ast_with`, also for
-- `async with`. A context manager is an `M`; `enter_method` and `exit_method` are those of its type.
use pyscript.Base.{Bool, true, ◌&&◌, Option, none, some, List, [], ◌∷◌, ◌++◌, map, if◌then◌else◌}
use pyscript.Interpreter.{Flow, done, unfinished, Statement, stops}
use pyscript.Expressions.{Outcome, value, raised, Run}
use pyscript.Interpreter.{raised as stopped_by}

-- one manager of the statement: its expression, with the look-up of the two methods, and the
-- assignment to its target
pub record Item (S E V M : Type 0) : Type 0 where
  pub context_expr : Run S E M
  pub target : Option (V → Run S E (Option V))

-- `ctx_list`, and the exception that ended it
abbrev pub Listed : Type 0 → Type 0 → Type 0 → Type 0 → Type 0
Listed S E V M = List (M × Option (V → Run S E (Option V))) × (Option E × S)

-- how the `try` block ends: what its last statement came to, and the value before that
pub record Attempt (S E V M : Type 0) : Type 0 where
  pub managers : List M
  pub ending : Flow V E
  pub val : Flow V E
  pub after : S

-- what the statement comes to, with the managers whose exit method was called, one after another
pub record Ended (S E V M : Type 0) : Type 0 where
  pub flow : Flow V E
  pub exited : List M
  pub final : S

abbrev pub reversed {ℓ} : {A : Type ℓ} → List A → List A
reversed [] = []
reversed (x ∷ xs) = reversed xs ++ x ∷ []

module _ {S E V M : Type 0} (enter_method : M → Run S E V)
    (exit_method : M → Option E → Run S E Bool) where
  abbrev pub list_one :
      Option (V → Run S E (Option V)) → Outcome E M × S → (S → Listed S E V M) → Listed S E V M
  list_one target (raised e, s) rest = ([], (some e, s))
  list_one target (value m, s) rest = let (ctxs, end) = rest s in ((m, target) ∷ ctxs, end)

  -- the loop over `arg.items`
  unfoldable pub list_managers : List (Item S E V M) → S → Listed S E V M
  list_managers [] s = ([], (none, s))
  list_managers (item ∷ items) s = list_one item.target (item.context_expr s) (list_managers items)

  abbrev pub assign_target : Option (V → Run S E (Option V)) → V → S → Option E × S
  assign_target none v s = (none, s)
  assign_target (some assign) v s = elim (assign v s).0 [
    | value u ↦ (none, (assign v s).1)
    | raised e ↦ (some e, (assign v s).1)
  ]

  abbrev pub enter_one : Option (V → Run S E (Option V)) → Outcome E V × S → Option E × S
  enter_one target (raised e, s) = (some e, s)
  enter_one target (value v, s) = assign_target target v s

  abbrev pub unless_failed : Option E × S → (S → Option E × S) → Option E × S
  unless_failed (some e, s) rest = (some e, s)
  unless_failed (none, s) rest = rest s

  -- the loop that enters the managers
  unfoldable pub enter_all : List (M × Option (V → Run S E (Option V))) → S → Option E × S
  enter_all [] s = (none, s)
  enter_all (ctx ∷ ctxs) s = unless_failed (enter_one ctx.1 (enter_method ctx.0 s)) (enter_all ctxs)

  -- the loop over the body: what ended it, and the value before
  unfoldable pub with_body : List (Statement S V E) → Flow V E → S → Flow V E × (Flow V E × S)
  with_body [] val s = (val, (val, s))
  with_body (x ∷ body) val s =
      let (f, s') = x s in
      let rest = with_body body f s' in if stops f then (f, (val, s')) else rest

  abbrev pub after_enter : List M → List (Statement S V E) → Option E × S → Attempt S E V M
  after_enter managers body (some e, s) = record {
    managers = managers;
    ending = stopped_by e;
    val = done none;
    after = s;
  }
  after_enter managers body (none, s) =
      let (f, (val, s')) = with_body body (done none) s in
      record { managers = managers; ending = f; val = val; after = s' }

  abbrev pub after_list : List (Statement S V E) → Listed S E V M → Attempt S E V M
  after_list body (ctxs, (some e, s)) = record {
    managers = map (λ c. c.0) ctxs;
    ending = stopped_by e;
    val = done none;
    after = s;
  }
  after_list body (ctxs, (none, s)) = after_enter (map (λ c. c.0) ctxs) body (enter_all ctxs s)

  -- the `try` block
  unfoldable pub attempt : List (Item S E V M) → List (Statement S V E) → S → Attempt S E V M
  unfolding list_managers enter_all with_body
  attempt items body s = after_list body (list_managers items s)

  abbrev pub and_exit : M → Outcome E Bool × S → (Bool → S → Ended S E V M) → Ended S E V M
  and_exit m (raised e, s) rest = record { flow = stopped_by e; exited = m ∷ []; final = s }
  and_exit m (value b, s) rest =
      let r = rest b s in record { flow = r.flow; exited = m ∷ r.exited; final = r.final }

  -- The loops that exit the managers, given in that order, with the exception or without one. At
  -- their end `last` says what the statement comes to, by whether all exit methods said true.
  unfoldable pub exit_each : List M → Option E → (Bool → Flow V E) → Bool → S → Ended S E V M
  exit_each [] e last exit_ok s = record { flow = last exit_ok; exited = []; final = s }
  exit_each (m ∷ managers) e last exit_ok s =
      and_exit m (exit_method m e s) (λ ret. exit_each managers e last (exit_ok && ret))

  -- the `except` and `finally` clauses
  abbrev pub close : Attempt S E V M → Flow V E → Ended S E V M
  close a (stopped_by e) =
      exit_each (reversed a.managers) (some e) (λ exit_ok. if exit_ok then a.val else stopped_by e)
        true a.after
  close a unfinished = record { flow = unfinished; exited = []; final = a.after }
  close a f = exit_each (reversed a.managers) none (λ exit_ok. f) true a.after

  -- `ast_with`
  unfoldable pub ast_with : List (Item S E V M) → List (Statement S V E) → S → Ended S E V M
  unfolding attempt exit_each
  ast_with items body s = let a = attempt items body s in close a a.ending
