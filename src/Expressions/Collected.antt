-- ===== src/Expressions/Collected.antt =====
-- The loops of set and dict comprehensions (custom_components/pyscript/eval.py) against
-- `listcomp_loop`.
use pyscript.Base.{Bool, true, false, ◌≡◌, refl, List, [], ◌∷◌, ◌++◌, if◌then◌else◌, arith, ap, sym}
use mathlib.Core.Path.{subst}
use mathlib.Core.List.{append-nil, append_assoc}
use pyscript.Expressions.{
  Outcome, value, raised, Run, pure, go_on, then_run, all_ifs, over_values, Generator,
  listcomp_loop,
}
use pyscript.Expressions.Comprehensions.{collect_values, collect_loop}

-- what is collected stands for a list
module _ {S E C X : Type 0} (Holds : C → List X → Type 0) where
  -- the same exception, or a collection that stands for the list; and the same state
  abbrev pub Matches : Outcome E C × S → Outcome E (List X) × S → Type 0
  Matches (value c, s) (value xs, t) = (s ≡ t) × Holds c xs
  Matches (raised e, s) (raised e', t) = (s ≡ t) × (e ≡ e')
  Matches (value c, s) (raised e', t) = false ≡ true
  Matches (raised e, s) (value xs, t) = false ≡ true

  abbrev joined : List X → Outcome E (List X) × S → Outcome E (List X) × S
  joined xs r = go_on r (λ ys. pure (xs ++ ys))

  joined-joined :
      (xs ys : List X) (r : Outcome E (List X) × S) → joined xs (joined ys r) ≡ joined (xs ++ ys) r
  joined-joined xs ys (value zs, s) = ap (λ l. (value l, s)) (sym (append_assoc xs ys zs))
  joined-joined xs ys (raised e, s) = refl

  joined-nothing : (r : Outcome E (List X) × S) → joined [] r ≡ r
  joined-nothing (value zs, s) = refl
  joined-nothing (raised e, s) = refl

  -- after the same run, which ends as `r`
  pub Matches-go_on :
      {A : Type 0} (r : Outcome E A × S) (f : A → Run S E C) (g : A → Run S E (List X))
      → ((a : A) (s : S) → Matches (f a s) (g a s))
      → Matches (go_on r f) (go_on r g)
  Matches-go_on (value a, s) f g h = h a s
  Matches-go_on (raised e, s) f g h = (refl, refl)

  Matches-joined :
      (r : Outcome E C × S) (q : Outcome E (List X) × S) (rest : C → Run S E C)
      (over : Run S E (List X)) (xs : List X)
      → Matches r q
      → ((c : C) (ys : List X) (s : S)
          → Holds c ys
          → Matches (rest c s) (joined (xs ++ ys) (over s)))
      → Matches (go_on r rest) (joined xs (go_on q (λ ys. then_run over (λ zs. pure (ys ++ zs)))))
  Matches-joined (value c, s) (value ys, t) rest over xs (same, h) go =
      subst (λ u. Matches (rest c s) (joined xs (joined ys (over u)))) same
        (subst (λ q. Matches (rest c s) q) (sym (joined-joined xs ys (over s))) (go c ys s h))
  Matches-joined (raised e, s) (raised e', t) rest over xs m go = m
  Matches-joined (value c, s) (raised e', t) rest over xs m go = ground (arith, m)
  Matches-joined (raised e, s) (value ys, t) rest over xs m go = ground (arith, m)

  Matches-if :
      (empty : C)
      → Holds empty []
      → (b : Bool) (m : Run S E C) (n : Run S E (List X)) (s : S) → Matches (m s) (n s)
      → Matches ((if b then m else pure empty) s) ((if b then n else pure []) s)
  Matches-if empty empty_holds true m n s h = h
  Matches-if empty empty_holds false m n s h = (refl, empty_holds)

  module _ {V : Type 0} (empty : C) (update : C → C → C) (empty_holds : Holds empty [])
      (update_holds : (a b : C) (xs ys : List X)
        → Holds a xs
        → Holds b ys
        → Holds (update a b) (xs ++ ys)) where
    Matches-collect_values :
        (f : V → Run S E C) (g : V → Run S E (List X))
        → ((v : V) (s : S) → Matches (f v s) (g v s))
        → (values : List V) (out : C) (xs : List X) (s : S) → Holds out xs
        → Matches (collect_values empty update f values out s) (joined xs (over_values g values s))
    unfolding collect_values over_values
    Matches-collect_values f g same [] out xs s h =
        (refl, subst (Holds out) (sym (append-nil xs)) h)
    Matches-collect_values f g same (v ∷ values) out xs s h =
        Matches-joined (f v s) (g v s) (λ c. collect_values empty update f values (update out c))
          (over_values g values) xs (same v s)
          (λ c ys t hc.
            Matches-collect_values f g same values (update out c) (xs ++ ys) t
              (update_holds out c xs ys h hc))

    pub Matches-collect_loop :
        (elt : Run S E C) (elt' : Run S E X)
        → ((s : S) → Matches (elt s) (then_run elt' (λ x. pure (x ∷ [])) s))
        → (generators : List (Generator S E V)) (s : S)
        → Matches (collect_loop empty update generators elt s) (listcomp_loop generators elt' s)
    unfolding collect_loop listcomp_loop
    Matches-collect_loop elt elt' same [] s = same s
    Matches-collect_loop elt elt' same (gen ∷ generators) s =
        let inner = collect_loop empty update generators elt in
        let inner' = listcomp_loop generators elt' in
        let f : V → Run S E C = λ v.
          then_run (gen.assign v)
            (λ u. then_run (all_ifs gen.ifs) (λ b. if b then inner else pure empty)) in
        let g : V → Run S E (List X) = λ v.
          then_run (gen.assign v)
            (λ u. then_run (all_ifs gen.ifs) (λ b. if b then inner' else pure [])) in
        let one : (v : V) (t : S) → Matches (f v t) (g v t) = λ v t.
          Matches-go_on (gen.assign v t)
            (λ u. then_run (all_ifs gen.ifs) (λ b. if b then inner else pure empty))
            (λ u. then_run (all_ifs gen.ifs) (λ b. if b then inner' else pure []))
            (λ u t1.
              Matches-go_on (all_ifs gen.ifs t1) (λ b. if b then inner else pure empty)
                (λ b. if b then inner' else pure [])
                (λ b t2.
                  Matches-if empty empty_holds b inner inner' t2
                    (Matches-collect_loop elt elt' same generators t2))) in
        Matches-go_on (gen.iter s) (λ values. collect_values empty update f values empty)
          (over_values g)
          (λ values t.
            subst (λ q. Matches (collect_values empty update f values empty t) q)
              (joined-nothing (over_values g values t))
              (Matches-collect_values f g one values empty [] t empty_holds))
