-- ===== src/Expressions.antt =====
-- Expressions of the interpreter (custom_components/pyscript/eval.py): comparisons, Boolean
-- operators, lists, and comprehensions with their loop variables. An expression is the function that
-- `aeval` runs for it, on a state `S`; values are `V` and exceptions `E`.
pub mod With
mod Exits
mod Tests
mod Chains
mod Scopes
pub mod Comprehensions
mod Collected
mod Listed
use pyscript.Base.{
  String, ◌==◌, string_key, Bool, true, false, not, ◌&&◌, Option, none, some, List, [], ◌∷◌, ◌++◌,
  if◌then◌else◌, is_some,
}
use pyscript.Base.Dict.{Dict, get, put, remove}

-- what an expression comes to
pub data Outcome (E A : Type 0) : Type 0 where
  value : A → Outcome E A
  raised : E → Outcome E A

abbrev pub Run : Type 0 → Type 0 → Type 0 → Type 0
Run S E A = S → Outcome E A × S

module _ {S E A : Type 0} where
  abbrev pub pure : A → Run S E A
  pure a s = (value a, s)

module _ {S E A B : Type 0} where
  abbrev pub go_on : Outcome E A × S → (A → Run S E B) → Outcome E B × S
  go_on (value a, s) f = f a s
  go_on (raised e, s) f = (raised e, s)

  abbrev pub then_run : Run S E A → (A → Run S E B) → Run S E B
  then_run m f s = go_on (m s) f

-- one comparison of a chain: the operator, on values, which may give any object, and its right operand
pub record Comparison (S E V : Type 0) : Type 0 where
  pub operator : V → V → Outcome E V
  pub right : Run S E V

module _ {S E V : Type 0} where
  -- the operators `ast_cmpop_eq` to `ast_cmpop_notin`: both operands, then the test
  abbrev pub ast_cmpop : (V → V → Outcome E V) → Run S E V → Run S E V → Run S E V
  ast_cmpop operator left right = then_run left (λ a. then_run right (λ b s. (operator a b, s)))

  -- the truth of an object, which may raise, as for an array
  abbrev pub test : (V → Outcome E Bool) → V → Run S E Bool
  test truth v s = (truth v, s)

  -- `ast_compare`
  unfoldable pub ast_compare :
      (V → Outcome E Bool) → Run S E V → List (Comparison S E V) → Run S E Bool
  ast_compare truth left [] = pure true
  ast_compare truth left (c ∷ comparisons) = then_run (ast_cmpop c.operator left c.right) (λ val.
      then_run (test truth val)
        (λ b. if b then ast_compare truth c.right comparisons else pure false))

  -- `ast_boolop`, where `stops` is the truth of a value for `or`, and its opposite for `and`
  unfoldable pub ast_boolop : (V → Bool) → V → List (Run S E V) → Run S E V
  ast_boolop stops val [] = pure val
  ast_boolop stops val (arg ∷ values) =
      then_run arg (λ v. if stops v then pure v else ast_boolop stops v values)

-- an element of a list: an expression, or a starred one, which comes to a list
pub data Element (S E V : Type 0) : Type 0 where
  single : Run S E V → Element S E V
  starred : Run S E (List V) → Element S E V

module _ {S E V : Type 0} where
  abbrev pub elements : Element S E V → Run S E (List V)
  elements (single arg) = then_run arg (λ v. pure (v ∷ []))
  elements (starred arg) = arg

  -- `eval_elt_list`
  unfoldable pub eval_elt_list : List (Element S E V) → Run S E (List V)
  eval_elt_list [] = pure []
  eval_elt_list (arg ∷ elts) =
      then_run (elements arg) (λ vs. then_run (eval_elt_list elts) (λ rest. pure (vs ++ rest)))

module _ {S E : Type 0} where
  -- the loop over the conditions
  unfoldable pub all_ifs : List (Run S E Bool) → Run S E Bool
  all_ifs [] = pure true
  all_ifs (cond ∷ ifs) = then_run cond (λ b. if b then all_ifs ifs else pure false)

-- a `for` clause of a comprehension: what it runs over, the assignment to its target, its conditions
pub record Generator (S E V : Type 0) : Type 0 where
  pub iter : Run S E (List V)
  pub assign : V → Run S E (Option V)
  pub ifs : List (Run S E Bool)

module _ {S E V X : Type 0} where
  -- the loop over the values of one clause, which adds up what each gives
  unfoldable pub over_values : (V → Run S E (List X)) → List V → Run S E (List X)
  over_values f [] = pure []
  over_values f (v ∷ values) =
      then_run (f v) (λ out. then_run (over_values f values) (λ rest. pure (out ++ rest)))

  -- `listcomp_loop`; with no clause left it is the element
  unfoldable pub listcomp_loop : List (Generator S E V) → Run S E X → Run S E (List X)
  unfolding all_ifs over_values
  listcomp_loop [] elt = then_run elt (λ v. pure (v ∷ []))
  listcomp_loop (gen ∷ generators) elt =
      let inner = listcomp_loop generators elt in
      then_run gen.iter (
        over_values (λ v.
          then_run (gen.assign v)
            (λ u. then_run (all_ifs gen.ifs) (λ b. if b then inner else pure []))))

-- The interpreter's state: the table of the scope, and the rest, which has the global table and what
-- is in the cells of shared variables. An entry of the table is a value or such a cell.
pub record Scope (W V : Type 0) : Type 0 where
  pub sym_table : Dict String V
  pub rest : W

module _ {V : Type 0} where
  abbrev pub save_one : String → Option V → Dict String V → Dict String V
  save_one var none saved = saved
  save_one var (some v) saved = put saved var v

  -- `loopvar_scope_save`, for the names of the targets
  unfoldable pub loopvar_scope_save : List String → Dict String V → Dict String V
  loopvar_scope_save [] sym_table = []
  loopvar_scope_save (var ∷ lvars) sym_table =
      save_one var (get sym_table var) (loopvar_scope_save lvars sym_table)

  abbrev pub restore_one : String → Option V → Dict String V → Dict String V
  restore_one var none sym_table = remove sym_table var
  restore_one var (some v) sym_table = put sym_table var v

  -- `loopvar_scope_restore`
  unfoldable pub loopvar_scope_restore : List String → Dict String V → Dict String V → Dict String V
  loopvar_scope_restore [] saved sym_table = sym_table
  loopvar_scope_restore (var ∷ var_names) saved sym_table =
      loopvar_scope_restore var_names saved (restore_one var (get saved var) sym_table)

module _ {W E V X : Type 0} where
  -- `ast_listcomp`; an exception leaves the variables as they are
  unfoldable pub ast_listcomp :
      List String
      → List (Generator (Scope W V) E V)
      → Run (Scope W V) E X
      → Run (Scope W V) E (List X)
  unfolding loopvar_scope_save loopvar_scope_restore
  ast_listcomp target_vars generators elt s =
      let saved = loopvar_scope_save target_vars s.sym_table in
      go_on (listcomp_loop generators elt s) (λ result s'. (
        value result,
        record s' { sym_table = loopvar_scope_restore target_vars saved s'.sym_table },
      ))
