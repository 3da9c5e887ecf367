-- ===== src/Interpreter/Tests.antt =====
-- Loops and `try` on small programs, whose state is a number.
use pyscript.Base.{string_key, ℕ, ◌+◌, true, nat_key, ◌≡◌, refl, none, some, [], ◌∷◌, ltb}
use pyscript.Interpreter.{
  done, eval_break, eval_return, raised, Tested, holds, Statement, ast_for, ast_try,
}
use pyscript.Base.Dict.{get}
use pyscript.Base.Result.{name_error}
use pyscript.Interpreter.Names.{
  Scope, local_var, found, fails, ast_name, assign_name, ast_name-assign_name,
}
use pyscript.Interpreter.Unpack.{one, starred, single, many, unpack, values_in, values-unpack}

abbrev Program : Type 0
Program = Statement ℕ ℕ ℕ

abbrev add_one : Program
add_one s = (done none, s + 1)

abbrev break : Program
break s = (eval_break, s)

abbrev assign : ℕ → Program
assign v s = (done none, s + v)

abbrev below_two : ℕ → Tested ℕ × ℕ
below_two s = (holds (ltb s 2), s)

-- `break` in the `else` block does not even end that block
else_break_test : ast_for assign (5 ∷ []) (add_one ∷ []) (break ∷ add_one ∷ []) 0 ≡ (done none, 7)
unfolding ast_for
else_break_test = refl

-- a `return` in `finally` goes before the exception
abbrev give : Program
give s = (eval_return (some s), s)

abbrev fail : Program
fail s = (raised 9, s)

finally_test : ast_try (λ e. true) (fail ∷ []) [] [] (give ∷ []) 3 ≡ (eval_return (some 3), 3)
unfolding ast_try
finally_test = refl

-- `x` is declared global, `y` is a variable of closures that is not set yet
abbrev scope : Scope ℕ
scope = record {
  sym_table = ("y", local_var none) ∷ [];
  local_sym_table = [];
  global_sym_table = ("x", 1) ∷ [];
  global_names = "x" ∷ [];
  local_names = "y" ∷ [];
}

ast_name-assign_name_example : ast_name "y" (assign_name "y" 4 scope) ≡ found 4
ast_name-assign_name_example = ast_name-assign_name "y" "y" 4 scope

unset_test : ast_name "y" scope ≡ fails name_error
unfolding ast_name get
unset_test = refl

values-unpack_example :
    values_in {V = ℕ} (some (single 1 ∷ many (2 ∷ 3 ∷ []) ∷ single 4 ∷ []))
    ≡ some (1 ∷ 2 ∷ 3 ∷ 4 ∷ [])
unfolding unpack
values-unpack_example =
    values-unpack (one ∷ starred ∷ one ∷ []) (1 ∷ 2 ∷ 3 ∷ 4 ∷ [])
      (some (single 1 ∷ many (2 ∷ 3 ∷ []) ∷ single 4 ∷ [])) refl refl
