-- ===== src/Expressions/Chains.antt =====
-- A chain of comparisons (`ast_compare` of custom_components/pyscript/eval.py) against Python's,
-- which evaluates each operand once and comes to an object.
use pyscript.Base.{Bool, true, false, ◌≡◌, refl, List, [], ◌∷◌, if◌then◌else◌, ap, sym, ◌∙◌}
use mathlib.Core.Path.{subst}
use Prim.{Unit}
use pyscript.Expressions.{
  Outcome, value, raised, Run, pure, go_on, then_run, Comparison, test, ast_compare,
}

module _ {S E V : Type 0} where
  -- an expression that leaves the state as it is
  abbrev pub Steady : Run S E V → Type 0
  Steady m = (s : S) → (m s).1 ≡ s

  abbrev pub AllSteady : List (Comparison S E V) → Type 0
  AllSteady [] = Unit
  AllSteady (c ∷ comparisons) = Steady c.right × AllSteady comparisons

module _ {S E V : Type 0} (truth : V → Outcome E Bool) where
  -- the rest of Python's chain, whose left operand has been evaluated: the object of the first
  -- comparison that is false, or of the last one, which is not tested
  abbrev pub compare_from : V → Comparison S E V → List (Comparison S E V) → Run S E V
  compare_from a c [] = then_run c.right (λ b s. (c.operator a b, s))
  compare_from a c (d ∷ comparisons) = then_run c.right (λ b.
      then_run (λ s. (c.operator a b, s))
        (λ val.
          then_run (test truth val) (λ t. if t then compare_from b d comparisons else pure val)))

  -- Python's chain
  abbrev pub compare_once : Run S E V → Comparison S E V → List (Comparison S E V) → Run S E V
  compare_once left c comparisons = then_run left (λ a. compare_from a c comparisons)

  abbrev and_test : Run S E Bool → V → Run S E Bool
  and_test f val = then_run (test truth val) (λ t. if t then f else pure false)

  -- the test of the last object
  last-same :
      (o : Outcome E Bool) (s : S)
      → go_on (o, s) (λ t. if t then pure true else pure false) ≡ (o, s)
  last-same (value true) s = refl
  last-same (value false) s = refl
  last-same (raised x) s = refl

  last_object-same :
      (q : Outcome E V) (s : S) → go_on (q, s) (and_test (pure true)) ≡ go_on (q, s) (test truth)
  last_object-same (value v) s = last-same (truth v) s
  last_object-same (raised x) s = refl

  -- the test of an object in the middle, and what follows
  test-same :
      (v : V) (o : Outcome E Bool) (f : Run S E Bool) (g : Run S E V) (s : S)
      → truth v ≡ o
      → f s ≡ then_run g (test truth) s
      → go_on (o, s) (λ t. if t then f else pure false)
        ≡ go_on (go_on (o, s) (λ t. if t then g else pure v)) (test truth)
  test-same v (value true) f g s e h = h
  test-same v (value false) f g s e h = ap (λ o. (o, s)) (sym e)
  test-same v (raised x) f g s e h = refl

  object-same :
      (q : Outcome E V) (f : Run S E Bool) (g : Run S E V) (s : S)
      → f s ≡ then_run g (test truth) s
      → go_on (q, s) (and_test f)
        ≡ go_on
            (go_on (q, s) (λ val. then_run (test truth val) (λ t. if t then g else pure val)))
            (test truth)
  object-same (value v) f g s h = test-same v (truth v) f g s refl h
  object-same (raised x) f g s h = refl

  -- one comparison in the middle, whose right operand came to `r`
  step-same :
      (operator : V → V → Outcome E V) (a : V) (r : Outcome E V × S) (s : S) (f : Run S E Bool)
      (g : V → Run S E V)
      → r.1 ≡ s
      → ((b : V) → r ≡ (value b, s) → f s ≡ then_run (g b) (test truth) s)
      → go_on (go_on r (λ b s. (operator a b, s))) (and_test f)
        ≡ go_on
            (go_on r (λ b.
              then_run
                (λ s. (operator a b, s))
                (λ val. then_run (test truth val) (λ t. if t then g b else pure val))))
            (test truth)
  step-same operator a (raised x, s') s f g e h = refl
  step-same operator a (value b, s') s f g e h =
      object-same (operator a b) f (g b) s'
        (subst (λ u. f u ≡ then_run (g b) (test truth) u) (sym e) (h b (λ i. (value b, e i))))

  last_step-same :
      (operator : V → V → Outcome E V) (a : V) (r : Outcome E V × S)
      → go_on (go_on r (λ b s. (operator a b, s))) (and_test (pure true))
        ≡ go_on (go_on r (λ b s. (operator a b, s))) (test truth)
  last_step-same operator a (raised x, s) = refl
  last_step-same operator a (value b, s) = last_object-same (operator a b) s

  compare-from :
      (left : Run S E V) (c : Comparison S E V) (comparisons : List (Comparison S E V)) (s : S)
      (a : V)
      → AllSteady (c ∷ comparisons)
      → left s ≡ (value a, s)
      → ast_compare truth left (c ∷ comparisons) s
        ≡ then_run (compare_from a c comparisons) (test truth) s
  unfolding ast_compare
  compare-from left c [] s a k e =
      ap
        (λ r.
          go_on (go_on r (λ a. then_run c.right (λ b s. (c.operator a b, s))))
            (and_test (pure true)))
        e
      ∙ last_step-same c.operator a (c.right s)
  compare-from left c (d ∷ comparisons) s a (steady, k) e =
      ap
        (λ r.
          go_on (go_on r (λ a. then_run c.right (λ b s. (c.operator a b, s))))
            (and_test (ast_compare truth c.right (d ∷ comparisons))))
        e
      ∙ step-same c.operator a (c.right s) s (ast_compare truth c.right (d ∷ comparisons))
          (λ b. compare_from b d comparisons) (steady s)
          (λ b at. compare-from c.right d comparisons s b k at)

  first-same :
      (left : Run S E V) (c : Comparison S E V) (comparisons : List (Comparison S E V)) (s : S)
      (r : Outcome E V × S)
      → AllSteady (c ∷ comparisons)
      → r.1 ≡ s
      → left s ≡ r
      → ast_compare truth left (c ∷ comparisons) s
        ≡ go_on (go_on r (λ a. compare_from a c comparisons)) (test truth)
  unfolding ast_compare
  first-same left c comparisons s (raised x, s') k e at =
      ap
        (λ r.
          go_on (go_on r (λ a. then_run c.right (λ b s. (c.operator a b, s))))
            (and_test (ast_compare truth c.right comparisons)))
        at
  first-same left c comparisons s (value a, s') k e at =
      compare-from left c comparisons s a k (at ∙ λ i. (value a, e i))
      ∙ ap (then_run (compare_from a c comparisons) (test truth)) (sym e)

  -- A chain of comparisons comes to the truth of the object that it comes to in Python, which
  -- evaluates each operand once, and raises what that and the test of the object raise. The condition
  -- is that the operands leave the state as it is: `ast_compare` evaluates those in the middle twice.
  pub ast_compare-compare_once :
      (left : Run S E V) (c : Comparison S E V) (comparisons : List (Comparison S E V)) (s : S)
      → Steady left
      → AllSteady (c ∷ comparisons)
      → ast_compare truth left (c ∷ comparisons) s
        ≡ then_run (compare_once left c comparisons) (test truth) s
  ast_compare-compare_once left c comparisons s steady k =
      first-same left c comparisons s (left s) k (steady s) refl
