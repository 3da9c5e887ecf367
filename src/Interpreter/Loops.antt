-- ===== src/Interpreter/Loops.antt =====
-- Loops of eval.py: what a `for` or `while` lets out, its `else` block, and its rounds.
use pyscript.Base.{
  ℕ, zero, suc, Bool, true, false, ◌≡◌, refl, none, List, [], ◌∷◌, arith, if◌then◌else◌,
}
use pyscript.Interpreter.{
  Flow, done, eval_break, eval_continue, eval_return, raised, unfinished, Tested, holds, fails,
  Statement, returns, run_block, else_block, after_body, after_assign, ast_for, while_round,
  ast_while,
}

-- the flow of the rounds that ran out
abbrev pub is_unfinished : {V E : Type 0} → Flow V E → Bool
is_unfinished unfinished = true
is_unfinished f = false

-- a flow that is meant for a loop around the statement
abbrev pub is_loop_stop : {V E : Type 0} → Flow V E → Bool
is_loop_stop eval_break = true
is_loop_stop eval_continue = true
is_loop_stop f = false

closed-returns :
    {S V E : Type 0} (f : Flow V E) (s : S) (rest : Flow V E × S)
    → is_loop_stop rest.0 ≡ false
    → is_loop_stop (if returns f then (f, s) else rest).0 ≡ false
closed-returns (done v) s rest h = h
closed-returns eval_break s rest h = h
closed-returns eval_continue s rest h = h
closed-returns (eval_return v) s rest h = refl
closed-returns (raised e) s rest h = refl
closed-returns unfinished s rest h = refl

module _ {S V E : Type 0} where
  kept-after_body :
      (f : Flow V E) (s : S) (next next' : S → Flow V E × S)
      → is_unfinished (after_body f s next).0 ≡ false
      → ((x : S) → is_unfinished (next x).0 ≡ false → next' x ≡ next x)
      → after_body f s next' ≡ after_body f s next
  kept-after_body (done v) s next next' h k = k s h
  kept-after_body eval_break s next next' h k = refl
  kept-after_body eval_continue s next next' h k = k s h
  kept-after_body (eval_return v) s next next' h k = refl
  kept-after_body (raised e) s next next' h k = refl
  kept-after_body unfinished s next next' h k = refl

  kept-while_round :
      (t : Tested E) (s : S) (body orelse : List (Statement S V E)) (next next' : S → Flow V E × S)
      → is_unfinished (while_round t s body orelse next).0 ≡ false
      → ((x : S) → is_unfinished (next x).0 ≡ false → next' x ≡ next x)
      → while_round t s body orelse next' ≡ while_round t s body orelse next
  kept-while_round (fails e) s body orelse next next' h k = refl
  kept-while_round (holds true) s body orelse next next' h k =
      let (f, s') = run_block body (done none) s in kept-after_body f s' next next' h k
  kept-while_round (holds false) s body orelse next next' h k = refl

  -- A `while` loop that ends within some rounds ends in the same way within one more.
  ast_while-suc :
      (n : ℕ) (test : S → Tested E × S) (body orelse : List (Statement S V E)) (s : S)
      → is_unfinished (ast_while n test body orelse s).0 ≡ false
      → ast_while (suc n) test body orelse s ≡ ast_while n test body orelse s
  unfolding ast_while
  ast_while-suc zero test body orelse s h = ground arith
  ast_while-suc (suc n) test body orelse s h =
      let (t, s') = test s in
      kept-while_round t s' body orelse (ast_while n test body orelse)
        (ast_while (suc n) test body orelse) h (λ x k. ast_while-suc n test body orelse x k)

  closed-else_block :
      (xs : List (Statement S V E)) (s : S) → is_loop_stop (else_block xs s).0 ≡ false
  unfolding else_block
  closed-else_block [] s = refl
  closed-else_block (x ∷ xs) s =
      closed-returns (x s).0 (x s).1 (else_block xs (x s).1) (closed-else_block xs (x s).1)

  closed-after_body :
      (f : Flow V E) (s : S) (next : S → Flow V E × S)
      → ((x : S) → is_loop_stop (next x).0 ≡ false)
      → is_loop_stop (after_body f s next).0 ≡ false
  closed-after_body (done v) s next k = k s
  closed-after_body eval_break s next k = refl
  closed-after_body eval_continue s next k = k s
  closed-after_body (eval_return v) s next k = refl
  closed-after_body (raised e) s next k = refl
  closed-after_body unfinished s next k = refl

  closed-after_assign :
      (f : Flow V E) (s : S) (next : S → Flow V E × S)
      → is_loop_stop f ≡ false
      → ((x : S) → is_loop_stop (next x).0 ≡ false)
      → is_loop_stop (after_assign f s next).0 ≡ false
  closed-after_assign (done v) s next h k = k s
  closed-after_assign eval_break s next h k = h
  closed-after_assign eval_continue s next h k = h
  closed-after_assign (eval_return v) s next h k = refl
  closed-after_assign (raised e) s next h k = refl
  closed-after_assign unfinished s next h k = refl

  -- A `for` loop never lets `break` or `continue` out, whatever its body and its `else` block do,
  -- where the assignment to its target comes to neither.
  closed-ast_for :
      (assign : V → Statement S V E) (vs : List V) (body orelse : List (Statement S V E)) (s : S)
      → ((v : V) (x : S) → is_loop_stop (assign v x).0 ≡ false)
      → is_loop_stop (ast_for assign vs body orelse s).0 ≡ false
  unfolding ast_for
  closed-ast_for assign [] body orelse s a = closed-else_block orelse s
  closed-ast_for assign (v ∷ vs) body orelse s a =
      closed-after_assign (assign v s).0 (assign v s).1 _ (a v s) (λ x.
        closed-after_body (run_block body (done none) x).0 (run_block body (done none) x).1
          (ast_for assign vs body orelse) (λ y. closed-ast_for assign vs body orelse y a))
