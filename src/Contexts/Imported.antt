-- ===== src/Contexts/Imported.antt =====
-- `import_recurse` (custom_components/pyscript/__init__.py) where the imports have no cycle: the
-- visit of a context, and the whole walk.
use pyscript.Base.{
  ℕ, zero, suc, ◌<◌, String, ◌==◌, string_key, Bool, true, false, ◌≡◌, refl, ◌↔◌, inl, inr, Option,
  none, some, List, [], ◌∷◌, if◌then◌else◌, arith, ap, sym, ◌∙◌, same_refl, some_inj, is_some, ltb,
  Bool-cases, Option-cases,
}
use mathlib.Core.Path.{subst}
use text.Mathlib.TextEquality.{eq_iff}
use pyscript.Base.Dict.{get, put, get-put}
use pyscript.Base.Lists.{contains}
use pyscript.Contexts.Recurse.{
  Walk, or_nothing, imports_in, is_known, Recurse, with_imports, visit, import_recurse,
}
use pyscript.Contexts.Reached.{
  Reach, direct, further, Via, Complete, SameAt, Settled, Settled-SameAt, SameAt-trans, Good, Kept,
  Result, Works, other_rank, each-Added,
}

module _ (get_imports : String → Option (List String)) (rank : String → ℕ)
    (below : (x y : String) (l : List String)
      → get_imports x ≡ some l
      → contains l y ≡ true
      → rank y < rank x) where
  -- a context is visited before its own imports are found
  abbrev entered : String → Walk → Walk
  entered x w = record { visited = x ∷ w.visited; ctx2imports = put w.ctx2imports x [] }

  Via-Reach :
      (x y : String) (l : List String)
      → get_imports x ≡ some l
      → Via get_imports l y ↔ Reach get_imports x y
  Via-Reach x y l e = (to, from)
    where
      to : Via get_imports l y → Reach get_imports x y
      to (i, c, inl q) = direct l e (subst (λ z. contains l z ≡ true) q c)
      to (i, c, inr q) = further l e c q

      from : Reach get_imports x y → Via get_imports l y
      from (direct l' e' c) =
          (y, subst (λ k. contains k y ≡ true) (some_inj (sym e' ∙ e)) c, inl refl)
      from (further {y = i} l' e' c q) =
          (i, subst (λ k. contains k i ≡ true) (some_inj (sym e' ∙ e)) c, inr q)

  entered-SameAt :
      (x z : String) (w : Walk) → (x == z) ≡ false → SameAt get_imports z w (entered x w)
  entered-SameAt x z w d =
      let e : get (put w.ctx2imports x []) z ≡ get w.ctx2imports z =
        ground (arith, get-put w.ctx2imports x z [], d) in
      (ap or_nothing e, ground (arith, ap is_some e, d))

  entered-own : (x : String) (w : Walk) → imports_in (entered x w) x ≡ []
  entered-own x w =
      let e : get (put w.ctx2imports x []) x ≡ some [] =
        ground (arith, get-put w.ctx2imports x x [], same_refl x) in
      ap or_nothing e

  nothing-Complete : (x : String) → get_imports x ≡ none → Complete get_imports [] x
  nothing-Complete x e y = (λ h. ground (arith, h), from)
    where
      from : Reach get_imports x y → false ≡ true
      from (direct l e' c) = ground (arith, e, e')
      from (further l e' c q) = ground (arith, e, e')

  unknown_imports : (w : Walk) (x : String) → is_known w x ≡ false → imports_in w x ≡ []
  unknown_imports w x u = elim (Option-cases (get w.ctx2imports x)) [
    | inl e ↦ ap or_nothing e
    | inr (l, e) ↦ ground (arith, u, ap is_some e)
  ]

  -- what is known after the visit is settled, when it is so for the context itself
  Good-suc :
      (x : String) (w w' : Walk)
      → Good get_imports rank (suc (rank x)) w
      → Good get_imports rank (rank x) w'
      → Complete get_imports (imports_in w' x) x
      → Kept get_imports rank x w w'
      → Good get_imports rank (suc (rank x)) w'
  Good-suc x w w' g g' c k z lt = elim (Bool-cases (x == z)) [
    | inl same ↦
        λ known. subst (λ v. Complete get_imports (imports_in w' v) v) ((eq_iff x z).0 same) c
    | inr other ↦ elim (Bool-cases (ltb (rank z) (rank x))) [
      | inl less ↦ g' z (ground arith)
      | inr not_less ↦ Settled-SameAt get_imports z w w' (k z (ground arith) other) (g z lt)
    ]
  ]

  visit-some :
      (f : Recurse) (x : String) (l : List String) (w : Walk)
      → get_imports x ≡ some l
      → Works get_imports rank (rank x) f
      → Good get_imports rank (suc (rank x)) w
      → Result get_imports rank x w (visit f x (some l) w)
  visit-some f x l w e works g =
      let (w', e', g', k', a') =
        each-Added get_imports rank (rank x) f x l (entered x w) works (ground arith)
          (λ i c. below x i l e c)
          (λ z h.
            Settled-SameAt get_imports z w (entered x w)
              (entered-SameAt x z w (other_rank get_imports rank x z (λ q. ground arith)))
              (g z (ground arith))) in
      let c : Complete get_imports (imports_in w' x) x = λ y. (
        λ h. elim ((a' y).0 h) [
          | inl old ↦ ground (arith, old, ap (λ k. contains k y) (entered-own x w))
          | inr via ↦ (Via-Reach x y l e).0 via
        ],
        λ r. (a' y).1 (inr ((Via-Reach x y l e).1 r)),
      ) in
      let k : Kept get_imports rank x w w' = λ z h d.
        let s1 = entered-SameAt x z w d in
        let s2 = k' z h d in SameAt-trans get_imports z w (entered x w) w' s1 s2 in
      (imports_in w' x, w', ap (with_imports x) e', refl, c, Good-suc x w w' g g' c k, k)

  visit-none :
      (f : Recurse) (x : String) (w : Walk)
      → get_imports x ≡ none
      → is_known w x ≡ false
      → Good get_imports rank (suc (rank x)) w
      → Result get_imports rank x w (visit f x none w)
  visit-none f x w e u g =
      let w' : Walk = record w { visited = x ∷ w.visited } in
      let same : (z : String) → (x == z) ≡ false → SameAt get_imports z w w' =
        λ z d. (refl, ground (arith, d)) in
      let nothing = nothing-Complete x e in
      let c : Complete get_imports (imports_in w x) x =
        subst (λ l. Complete get_imports l x) (sym (unknown_imports w x u)) nothing in
      let below_x : Good get_imports rank (rank x) w' = λ z lt.
        Settled-SameAt get_imports z w w'
          (same z (other_rank get_imports rank x z (λ q. ground arith))) (g z (ground arith)) in
      (
        [],
        w',
        refl,
        unknown_imports w x u,
        nothing,
        Good-suc x w w' g below_x c (λ z h. same z),
        λ z h. same z,
      )

  visit-Result :
      (f : Recurse) (x : String) (w : Walk)
      → Works get_imports rank (rank x) f
      → is_known w x ≡ false
      → Good get_imports rank (suc (rank x)) w
      → Result get_imports rank x w (visit f x (get_imports x) w)
  visit-Result f x w works new g = elim (Option-cases (get_imports x)) [
    | inl e ↦
        subst (λ o. Result get_imports rank x w (visit f x o w)) (sym e) (visit-none f x w e new g)
    | inr (l, e) ↦
        subst (λ o. Result get_imports rank x w (visit f x o w)) (sym e)
          (visit-some f x l w e works g)
  ]

  import_recurse-Works : (n : ℕ) → Works get_imports rank n (import_recurse get_imports n)
  unfolding import_recurse
  import_recurse-Works zero x w lt g = ground arith
  import_recurse-Works (suc n) x w lt g =
      let new = visit (import_recurse get_imports n) x (get_imports x) w in
      let branch = λ (b : Bool). if b then some (imports_in w x, w) else new in
      elim (Bool-cases (is_known w x)) [
        | inl known ↦
            subst (λ b. Result get_imports rank x w (branch b)) (sym known)
              (imports_in w x, w, refl, refl, g x (ground arith) known, g, λ z h d. (refl, refl))
        | inr unknown ↦
            subst (λ b. Result get_imports rank x w (branch b)) (sym unknown)
              (visit-Result (import_recurse get_imports n) x w
                (λ y w' h. import_recurse-Works n y w' (ground arith)) unknown g)
      ]

-- The names that import_recurse returns for a context are those that the context reaches through its
-- imports, and all that the walk records for a context stays complete.
pub import_recurse-Reach :
    (get_imports : String → Option (List String)) (rank : String → ℕ)
    (below : (x y : String) (l : List String)
      → get_imports x ≡ some l
      → contains l y ≡ true
      → rank y < rank x)
    (fuel : ℕ) (x : String) (w : Walk)
    → rank x < fuel
    → ((z : String) → Settled get_imports w z)
    → (found : List String) × (w' : Walk) × (import_recurse get_imports fuel x w ≡ some (found, w'))
      × Complete get_imports (imports_in w' x) x
      × ((z : String) → Settled get_imports w' z)
import_recurse-Reach get_imports rank below fuel x w lt settled =
    let (found, w', e, own, c, g, k) =
      import_recurse-Works get_imports rank below fuel x w lt (λ z h. settled z) in
    let all : (z : String) → Settled get_imports w' z = λ z.
      elim (Bool-cases (ltb (rank x) (rank z))) [
        | inl above ↦
            Settled-SameAt get_imports z w w'
              (k z (ground arith) (other_rank get_imports rank x z (λ q. ground arith))) (settled z)
        | inr not_above ↦ g z (ground arith)
      ] in
    (found, w', e, subst (λ l. Complete get_imports l x) (sym own) c, all)
