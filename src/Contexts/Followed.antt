-- ===== src/Contexts/Followed.antt =====
-- What a reload does with contexts that import a module it reloads: `ctx2imports` in `load_scripts` of
-- custom_components/pyscript/__init__.py, with the loop that reads it.
use pyscript.Base.{
  ℕ, ◌<◌, String, ◌==◌, string_key, Bool, true, false, ◌||◌, ◌&&◌, ◌≡◌, refl, ◌↔◌, ◌⊎◌, inl, inr,
  Option, some, List, [], ◌∷◌, arith, ap, sym, ◌∙◌, same_refl, if◌then◌else◌, Bool-cases, or_parts,
  and_parts,
}
use mathlib.Core.Path.{subst}
use text.Mathlib.TextEquality.{eq_iff}
use pyscript.Base.Dict.{Dict, get, has}
use pyscript.Base.Lists.{contains, any}
use pyscript.Base.Bag.{add, contains-add}
use pyscript.Contexts.Recurse.{
  or_nothing, import_recurse, new_walk, after_walk, with_context, add_entry, entry_and,
  collect_imports, imports_of,
}
use pyscript.Contexts.Reload.{Files, follow_imports, root_of_name, force_file}
use pyscript.Contexts.Reached.{Reach, Complete, Settled}
use pyscript.Contexts.Imported.{import_recurse-Reach}

AnyOf : (String → Bool) → List String → Type 0
AnyOf p l = (m : String) × (contains l m ≡ true) × (p m ≡ true)

any-AnyOf : (p : String → Bool) (l : List String) → any p l ≡ true → AnyOf p l
unfolding AnyOf
any-AnyOf p [] h = ground (arith, h)
any-AnyOf p (x ∷ l) h = elim (or_parts (p x) (any p l) h) [
  | inl here ↦ (x, ground (arith, same_refl x), here)
  | inr later ↦ let (m, c, q) = any-AnyOf p l later in (m, ground (arith, c), q)
]

AnyOf-any : (p : String → Bool) (l : List String) → AnyOf p l → any p l ≡ true
unfolding AnyOf
AnyOf-any p [] (m, c, q) = ground (arith, c)
AnyOf-any p (x ∷ l) (m, c, q) = elim (or_parts (x == m) (contains l m) c) [
  | inl here ↦ ground (arith, subst (λ k. p k ≡ true) (sym ((eq_iff x m).0 here)) q)
  | inr later ↦ ground (arith, AnyOf-any p l (m, later, q))
]

contains-if_add :
    (b : Bool) (d : List String) (name y : String) (hit files : Files)
    → contains (if◌then◌else◌ {A = List String × Files} b (add d name, hit) (d, files)).0 y
      ≡ (contains d y || (b && name == y))
contains-if_add true d name y hit files = ground (arith, contains-add d name y)
contains-if_add false d name y hit files = ground arith

-- the contexts that the second step of a reload adds
contains-follow_imports :
    (imports : String → List String) (reloaded names : List String) (s : List String × Files)
    (y : String)
    → contains (follow_imports imports reloaded names s).0 y ≡ (
        contains s.0 y
        || (contains names y
            && any (λ mod_name. contains reloaded (root_of_name mod_name)) (imports y)))
unfolding follow_imports
contains-follow_imports imports reloaded [] (d, files) y = ground arith
contains-follow_imports imports reloaded (name ∷ names) (d, files) y =
    let is_hit =
      λ (n : String). any (λ mod_name. contains reloaded (root_of_name mod_name)) (imports n) in
    ground (
      arith,
      contains-follow_imports imports reloaded names
          (if is_hit name then (add d name, force_file true name files) else (d, files)) y,
      contains-if_add (is_hit name) d name y (force_file true name files) files,
      λ (h : (name == y) ≡ true). ap is_hit ((eq_iff name y).0 h),
    )

module _ (get_imports : String → Option (List String)) (rank : String → ℕ)
    (below : (x y : String) (l : List String)
      → get_imports x ≡ some l
      → contains l y ≡ true
      → rank y < rank x)
    (fuel : ℕ) where
  abbrev Known : Dict String (List String) → Type 0
  Known c = (z : String) → Settled get_imports (new_walk c) z

  with_context-Complete :
      (name : String) (c : Dict String (List String))
      → rank name < fuel
      → Known c
      → (c' : Dict String (List String)) × (with_context get_imports fuel name c ≡ some c')
        × Complete get_imports (or_nothing (get c' name)) name
        × Known c'
  with_context-Complete name c lt known =
      let walked = after_walk (import_recurse get_imports fuel name (new_walk c)) in
      elim (Bool-cases (has c name)) [
        | inl old ↦
            (c, ap (λ b. if b then some c else walked) old, known name (ground (arith, old)), known)
        | inr new ↦
            let (found, w, e, complete, settled) =
              import_recurse-Reach get_imports rank below fuel name (new_walk c) lt known in
            (
              w.ctx2imports,
              ap (λ b. if b then some c else walked) new ∙ ap after_walk e,
              complete,
              λ z h. settled z (ground (arith, h)),
            )
      ]

  collect_imports-Complete :
      (names : List String) (c : Dict String (List String))
      → ((z : String) → contains names z ≡ true → rank z < fuel)
      → Known c
      → (found : Dict String (List String)) × (collect_imports get_imports fuel names c
          ≡ some found)
        × ((z : String) → contains names z ≡ true → Complete get_imports (imports_of found z) z)
  unfolding collect_imports get
  collect_imports-Complete [] c enough known = ([], refl, λ z h. ground (arith, h))
  collect_imports-Complete (name ∷ names) c enough known =
      let (c', e, here, known') =
        with_context-Complete name c (enough name (ground (arith, same_refl name))) known in
      let (found, e', later) =
        collect_imports-Complete names c' (λ z h. enough z (ground (arith, h))) known' in
      (
        (name, or_nothing (get c' name)) ∷ found,
        ap (λ o. entry_and name o (λ d. collect_imports get_imports fuel names d)) e
            ∙ ap (λ o. add_entry name c' o) e',
        λ z h.
            let first = λ (b : Bool). if b then some (or_nothing (get c' name)) else get found z in
            elim (Bool-cases (name == z)) [
              | inl same ↦
                  subst (λ l. Complete get_imports l z) (sym (ap or_nothing (ap first same)))
                    (subst (λ k. Complete get_imports (or_nothing (get c' name)) k)
                      ((eq_iff name z).0 same) here)
              | inr other ↦
                  subst (λ l. Complete get_imports l z) (sym (ap or_nothing (ap first other)))
                    (later z (ground (arith, h, other)))
            ],
      )

-- The loop over the imports adds to the contexts that a reload deletes those of `names` that reach
-- through their imports, at any distance, a module whose package is reloaded, and no other; the step
-- for packages comes after it, and adds more. The conditions are that no context imports itself
-- through others (`rank` falls along the imports) and that the fuel is above each context's rank.
pub follow_imports-collect_imports :
    (get_imports : String → Option (List String)) (rank : String → ℕ)
    (below : (x y : String) (l : List String)
      → get_imports x ≡ some l
      → contains l y ≡ true
      → rank y < rank x)
    (fuel : ℕ) (names reloaded ctx_delete : List String) (files : Files)
    → ((z : String) → contains names z ≡ true → rank z < fuel)
    → (found : Dict String (List String)) × (collect_imports get_imports fuel names [] ≡ some found)
      × ((name : String)
          → (contains (follow_imports (imports_of found) reloaded names (ctx_delete, files)).0 name
              ≡ true)
            ↔ ((contains ctx_delete name ≡ true)
                ⊎ ((contains names name ≡ true)
                    × ((mod_name : String) × Reach get_imports name mod_name
                        × (contains reloaded (root_of_name mod_name) ≡ true)))))
unfolding get AnyOf
follow_imports-collect_imports get_imports rank below fuel names reloaded ctx_delete files enough =
    let (found, e, complete) =
      collect_imports-Complete get_imports rank below fuel names [] enough
        (λ z h. ground (arith, h)) in
    let is_hit = λ (mod_name : String). contains reloaded (root_of_name mod_name) in
    (
      found,
      e,
      λ name.
          let own =
            contains-follow_imports (imports_of found) reloaded names (ctx_delete, files) name in
          (
            λ h.
                elim (or_parts (contains ctx_delete name)
                  (contains names name && any is_hit (imports_of found name)) (sym own ∙ h)) [
                    | inl old ↦ inl old
                    | inr both ↦
                        let (c, a) =
                          and_parts (contains names name) (any is_hit (imports_of found name))
                            both in
                        let (m, i, q) = any-AnyOf is_hit (imports_of found name) a in
                        inr (c, (m, (complete name c m).0 i, q))
                  ],
            λ s. elim s [
              | inl old ↦ ground (arith, own, old)
              | inr (c, (m, r, q)) ↦ ground (
                arith,
                own,
                c,
                AnyOf-any is_hit (imports_of found name) (m, (complete name c m).1 r, q),
              )
            ],
          ),
    )
