-- ===== src/Expressions/Tests.antt =====
-- Comparisons, comprehensions and `with` on concrete values. The state is a number.
use pyscript.Base.{
  ℕ, suc, ◌==◌, nat_key, string_key, Bool, true, ◌≡◌, refl, Option, none, some, List, [], ◌∷◌, ltb,
  if◌then◌else◌,
}
use Prim.{tt}
use pyscript.Base.Dict.{get, put}
use pyscript.Interpreter.{Statement, raised as stopped_by}
use pyscript.Expressions.{
  Outcome, value, raised, Run, Comparison, then_run, test, ast_compare, ast_boolop, single, starred,
  eval_elt_list, Generator, Scope, all_ifs, over_values, listcomp_loop, loopvar_scope_save,
  loopvar_scope_restore, ast_listcomp,
}
use pyscript.Expressions.Comprehensions.{
  ast_setcomp, ast_dictcomp, collect_loop, collect_values, update_set, update_keys,
}
use pyscript.Expressions.Collected.{Matches}
use pyscript.Expressions.Listed.{SameMembers, LastValues, checked, pair_of, Matches-ast_dictcomp}
use pyscript.Base.Bag.{add}
use pyscript.Expressions.With.{
  Item, list_managers, enter_all, with_body, attempt, exit_each, ast_with,
}
use pyscript.Expressions.Chains.{compare_once, ast_compare-compare_once}

abbrev constant : ℕ → Run ℕ ℕ ℕ
constant n s = (value n, s)

-- an expression that counts its evaluations in the state
abbrev counting : ℕ → Run ℕ ℕ ℕ
counting n s = (value n, suc s)

abbrev below : Run ℕ ℕ ℕ → Comparison ℕ ℕ ℕ
below right = record { operator = λ a b. value (if ltb a b then 1 else 0); right = right }

abbrev nonzero : ℕ → Outcome ℕ Bool
nonzero v = value (ltb 0 v)

-- 1 < 2 < 3 evaluates the 2 twice
twice_test :
    ast_compare nonzero (counting 1) (below (counting 2) ∷ below (counting 3) ∷ []) 0
    ≡ (value true, 4)
unfolding ast_compare
twice_test = refl

ast_compare-compare_once_example :
    ast_compare nonzero (constant 1) (below (constant 2) ∷ below (constant 3) ∷ []) 0
    ≡ then_run
        (compare_once nonzero (constant 1) (below (constant 2)) (below (constant 3) ∷ []))
        (test nonzero)
        0
ast_compare-compare_once_example =
    ast_compare-compare_once nonzero (constant 1) (below (constant 2)) (below (constant 3) ∷ []) 0
      (λ s. refl) (λ s. refl, (λ s. refl, tt))

-- 0 or 5 or 6
or_test : ast_boolop (λ v. ltb 0 v) 0 (constant 0 ∷ constant 5 ∷ constant 6 ∷ []) 0 ≡ (value 5, 0)
unfolding ast_boolop
or_test = refl

abbrev one_two_three : Outcome ℕ (List ℕ)
one_two_three = value (1 ∷ 2 ∷ 3 ∷ [])

elements_test :
    eval_elt_list (single (constant 1) ∷ starred (λ s. (value (2 ∷ 3 ∷ []), s)) ∷ []) 0
    ≡ (one_two_three, 0)
unfolding eval_elt_list
elements_test = refl

abbrev Table : Type 0
Table = Scope ℕ ℕ

abbrev set_x : ℕ → Run Table ℕ (Option ℕ)
set_x v s = (value none, record s { sym_table = put s.sym_table "x" v })

abbrev from_option : Option ℕ → Outcome ℕ ℕ
from_option none = raised 0
from_option (some v) = value v

abbrev x_plus_one : Run Table ℕ ℕ
x_plus_one s = (elim (get s.sym_table "x") [ none ↦ raised 0 | some v ↦ value (suc v) ], s)

abbrev over : List ℕ → Generator Table ℕ ℕ
over l = record { iter = λ s. (value l, s); assign = set_x; ifs = [] }

abbrev with_x : Table
with_x = record { sym_table = ("x", 9) ∷ []; rest = 0 }

-- [x + 1 for x in [1, 2]]
listcomp_test :
    ast_listcomp ("x" ∷ []) (over (1 ∷ 2 ∷ []) ∷ []) x_plus_one with_x
    ≡ (value (2 ∷ 3 ∷ []), with_x)
unfolding ast_listcomp listcomp_loop over_values all_ifs loopvar_scope_save loopvar_scope_restore
    get put
listcomp_test = refl

-- 7 cannot be hashed, and raises 70
abbrev seven : ℕ → Option ℕ
seven v = if v == 7 then some 70 else none

-- {x + 1 for x in [1, 6]}
unhashable_test :
    ast_setcomp seven ("x" ∷ []) (over (1 ∷ 6 ∷ []) ∷ []) x_plus_one with_x
    ≡ (raised 70, record { sym_table = ("x", 6) ∷ []; rest = 0 })
unfolding collect_loop collect_values update_set all_ifs loopvar_scope_save loopvar_scope_restore
    get put add
unhashable_test = refl

-- {x + 1 for x in [1, 1, 2]}
setcomp_test :
    ast_setcomp seven ("x" ∷ []) (over (1 ∷ 1 ∷ 2 ∷ []) ∷ []) x_plus_one with_x
    ≡ (value (2 ∷ 3 ∷ []), with_x)
unfolding collect_loop collect_values update_set all_ifs loopvar_scope_save loopvar_scope_restore
    get put add
setcomp_test = refl

-- {x + 1: x + 1 for x in [1, 1, 2]}
dictcomp_test :
    ast_dictcomp seven ("x" ∷ []) (over (1 ∷ 1 ∷ 2 ∷ []) ∷ []) x_plus_one x_plus_one with_x
    ≡ (value ((2, 2) ∷ (3, 3) ∷ []), with_x)
unfolding collect_loop collect_values update_keys all_ifs loopvar_scope_save loopvar_scope_restore
    get put
dictcomp_test = refl

-- with {x + 1: x + 1 for x in [1, 1, 2]}
Matches-ast_dictcomp_example :
    Matches SameMembers
      (ast_setcomp seven ("x" ∷ []) (over (1 ∷ 1 ∷ 2 ∷ []) ∷ []) x_plus_one with_x)
      (ast_listcomp ("x" ∷ []) (over (1 ∷ 1 ∷ 2 ∷ []) ∷ []) (checked seven x_plus_one) with_x)
    × Matches LastValues
        (ast_dictcomp seven ("x" ∷ []) (over (1 ∷ 1 ∷ 2 ∷ []) ∷ []) x_plus_one x_plus_one with_x)
        (ast_listcomp
          ("x" ∷ [])
          (over (1 ∷ 1 ∷ 2 ∷ []) ∷ [])
          (pair_of seven x_plus_one x_plus_one)
          with_x)
Matches-ast_dictcomp_example =
    Matches-ast_dictcomp seven ("x" ∷ []) (over (1 ∷ 1 ∷ 2 ∷ []) ∷ []) x_plus_one x_plus_one
      x_plus_one with_x

-- managers 1 and 2, of which 2 drops exceptions
abbrev enter_method : ℕ → Run ℕ ℕ ℕ
enter_method m s = (value m, s)

abbrev answer : ℕ → Bool
answer m = m == 2

abbrev exit_method : ℕ → Option ℕ → Run ℕ ℕ Bool
exit_method m e s = (value (answer m), suc s)

abbrev item : ℕ → Item ℕ ℕ ℕ ℕ
item m = record { context_expr = λ s. (value m, s); target = none }

abbrev failing : Statement ℕ ℕ ℕ
failing s = (stopped_by 7, s)

-- in Python the inner manager drops the exception, and the outer one does not see it
with_test :
    ast_with enter_method exit_method (item 1 ∷ item 2 ∷ []) (failing ∷ []) 0
    ≡ record { flow = stopped_by 7; exited = 2 ∷ 1 ∷ []; final = 2 }
unfolding ast_with attempt list_managers enter_all with_body exit_each
with_test = refl
