-- ===== src/Manager/Passed.antt =====
-- Which answers of the guards let a trigger run its function (custom_components/pyscript/decorator.py).
use pyscript.Base.{
  ◌==◌, nat_key, true, false, ◌≡◌, refl, ◌↔◌, List, [], ◌∷◌, arith, sym, ◌∙◌, and_parts, or_parts,
  inl, inr,
}
use mathlib.Core.Path.{subst}
use mathlib.Core.Bool.{false≢true}
use pyscript.Base.Lists.{all, any, contains}
use pyscript.Manager.{Decorator}
use pyscript.Manager.Dispatch.{
  Answer, the_false, falsy, truthy, no_answer, lets_pass, dispatch, is_run, is_run-guards,
}

-- what lets a call pass: any answer but the object `False`
pub data Passes : Answer → Type 0 where
  falsy_passes : Passes falsy
  truthy_passes : Passes truthy

none-Passes : Passes the_false → false ≡ true
none-Passes p = elim p [ ]

none-answered : Passes no_answer → false ≡ true
none-answered p = elim p [ ]

passes : (a : Answer) → (lets_pass a ≡ true) ↔ Passes a
passes the_false = (λ h. ground (arith, h), λ p. none-Passes p)
passes falsy = (λ h. falsy_passes, λ p. refl)
passes truthy = (λ h. truthy_passes, λ p. refl)
passes no_answer = (λ h. ground (arith, h), λ p. none-answered p)

-- all the guards of a list let the call pass
all-Passes :
    (answer : Decorator → Answer) (ds : List Decorator)
    → all (λ d. lets_pass (answer d)) ds ≡ true
    → (j : Decorator) → contains ds j ≡ true
    → Passes (answer j)
all-Passes answer [] h j c = elim (false≢true c) [ ]
all-Passes answer (d ∷ ds) h j c =
    let rest = all (λ d. lets_pass (answer d)) ds in
    let (a, b) = and_parts (lets_pass (answer d)) rest h in
    elim (or_parts (d == j) (contains ds j) c) [
      | inl e ↦
          subst (λ i. Passes (answer i)) ((nat_key.same_iff d j).0 e) ((passes (answer d)).0 a)
      | inr m ↦ all-Passes answer ds b j m
    ]

Passes-all :
    (answer : Decorator → Answer) (ds : List Decorator)
    → ((j : Decorator) → contains ds j ≡ true → Passes (answer j))
    → all (λ d. lets_pass (answer d)) ds ≡ true
Passes-all answer [] h = refl
Passes-all answer (d ∷ ds) h = ground (
  arith,
  (passes (answer d)).1 (h d (ground (arith, nat_key.same_iff d d))),
  Passes-all answer ds (λ j c. h j (ground (arith, c))),
)

-- A trigger runs the function exactly where every trigger handler and every call handler answers
-- something other than the object `False`, and none raises: what Python counts as false, as zero or
-- None, lets it pass too.
pub is_run-dispatch :
    {V : Type 0} (active answer : Decorator → Answer) (ts hs rs : List Decorator) (result : V)
    → (any is_run (dispatch active answer ts hs rs result) ≡ true) ↔ (
        ((d : Decorator) → contains ts d ≡ true → Passes (active d))
        × ((d : Decorator) → contains hs d ≡ true → Passes (answer d)))
is_run-dispatch active answer ts hs rs result =
    let e = is_run-guards active answer ts hs rs result in
    let t = all (λ d. lets_pass (active d)) ts in
    let h = all (λ d. lets_pass (answer d)) hs in
    (
      λ r.
          let (a, b) = and_parts t h (sym e ∙ r) in
          (all-Passes active ts a, all-Passes answer hs b),
      λ p. ground (arith, e, Passes-all active ts p.0, Passes-all answer hs p.1),
    )
