-- ===== src/Contexts/Reached.antt =====
-- `import_recurse` (custom_components/pyscript/__init__.py): what a context reaches through its
-- imports, and the loop over the imports of a context.
use pyscript.Base.{
  ℕ, suc, ◌≤◌, ◌<◌, String, ◌==◌, string_key, true, false, ◌||◌, ◌≡◌, refl, ◌↔◌, ◌⊎◌, inl, inr,
  Option, some, List, [], ◌∷◌, ◌++◌, arith, ap, sym, ◌∙◌, same_refl, is_some, ltb, Bool-cases,
  or_parts,
}
use mathlib.Core.Path.{subst}
use text.Mathlib.TextEquality.{eq_iff}
use pyscript.Base.Dict.{get, put, get-put}
use pyscript.Base.Lists.{contains, contains-append}
use pyscript.Contexts.Recurse.{
  Walk, or_nothing, imports_in, is_known, note, Recurse, and_rest, each_import,
}

module _ (get_imports : String → Option (List String)) where
  -- `y` is imported by `x`, or by what `x` imports
  pub data Reach : String → String → Type 0 where
    direct :
        {x y : String} (l : List String) → get_imports x ≡ some l → contains l y ≡ true → Reach x y
    further :
        {x y z : String} (l : List String)
        → get_imports x ≡ some l
        → contains l y ≡ true
        → Reach y z
        → Reach x z

  abbrev pub Via : List String → String → Type 0
  Via imports y = (i : String) × (contains imports i ≡ true) × ((i ≡ y) ⊎ Reach i y)

  abbrev pub Complete : List String → String → Type 0
  Complete found x = (y : String) → (contains found y ≡ true) ↔ Reach x y

  abbrev pub SameAt : String → Walk → Walk → Type 0
  SameAt z w w' = (imports_in w' z ≡ imports_in w z) × (is_known w' z ≡ is_known w z)

  abbrev pub Settled : Walk → String → Type 0
  Settled w z = is_known w z ≡ true → Complete (imports_in w z) z

  pub Settled-SameAt : (z : String) (w w' : Walk) → SameAt z w w' → Settled w z → Settled w' z
  Settled-SameAt z w w' (same, known) s k = subst (λ l. Complete l z) (sym same) (s (sym known ∙ k))

  pub SameAt-trans : (z : String) (w w1 w2 : Walk) → SameAt z w w1 → SameAt z w1 w2 → SameAt z w w2
  SameAt-trans z w w1 w2 (s, k) (s', k') = (s' ∙ s, k' ∙ k)

  note-SameAt :
      (x z : String) (l : List String) (w : Walk) → (x == z) ≡ false → SameAt z w (note x l w)
  note-SameAt x z l w h =
      let e : get (put w.ctx2imports x (imports_in w x ++ l)) z ≡ get w.ctx2imports z =
        ground (arith, get-put w.ctx2imports x z (imports_in w x ++ l), h) in
      (ap or_nothing e, ap (λ o. contains w.visited z || is_some o) e)

  note-own :
      (x : String) (l : List String) (w : Walk) → imports_in (note x l w) x ≡ imports_in w x ++ l
  note-own x l w = ground (arith, get-put w.ctx2imports x x (imports_in w x ++ l), same_refl x)

  module _ (rank : String → ℕ) where
    abbrev pub Good : ℕ → Walk → Type 0
    Good k w = (z : String) → rank z < k → Settled w z

    abbrev pub Kept : String → Walk → Walk → Type 0
    Kept x w w' = (z : String) → rank x ≤ rank z → (x == z) ≡ false → SameAt z w w'

    abbrev pub Result : String → Walk → Option (List String × Walk) → Type 0
    Result x w o =
        (found : List String) × (w' : Walk) × (o ≡ some (found, w'))
        × (imports_in w' x ≡ found)
        × Complete found x
        × Good (suc (rank x)) w'
        × Kept x w w'

    abbrev pub Works : ℕ → Recurse → Type 0
    Works r f = (x : String) (w : Walk) → rank x < r → Good (suc (rank x)) w → Result x w (f x w)

    pub other_rank : (x z : String) → (rank x ≡ rank z → 0 < 0) → (x == z) ≡ false
    other_rank x z h = elim (Bool-cases (x == z)) [
      | inl e ↦ ground (arith, h (ap rank ((eq_iff x z).0 e)))
      | inr e ↦ e
    ]

    -- all below `x` stay good where those above `i` are kept
    Good-after :
        (x i : String) (w w' : Walk)
        → rank i < rank x
        → Good (rank x) w
        → Good (suc (rank i)) w'
        → Kept i w w'
        → Good (rank x) w'
    Good-after x i w w' h g g' k z lt = elim (Bool-cases (ltb (rank i) (rank z))) [
      | inl e ↦
          Settled-SameAt z w w' (k z (ground arith) (other_rank i z (λ q. ground arith))) (g z lt)
      | inr e ↦ g' z (ground arith)
    ]

    -- the loop over the imports adds them, and all that is reached from them
    abbrev pub Added : String → List String → Walk → Walk → Type 0
    Added x imports w w' =
        (y : String)
        → (contains (imports_in w' x) y ≡ true)
          ↔ ((contains (imports_in w x) y ≡ true) ⊎ Via imports y)

    Added-cons :
        (x i : String) (imports found : List String) (w w3 w' : Walk)
        → imports_in w3 x ≡ (imports_in w x ++ i ∷ []) ++ found
        → Complete found i
        → Added x imports w3 w'
        → Added x (i ∷ imports) w w'
    Added-cons x i imports found w w3 w' e c a y = (to, from)
      where
        split3 :
            contains (imports_in w3 x) y
            ≡ (contains (imports_in w x) y || (i == y || false) || contains found y)
        split3 =
            ap (λ l. contains l y) e
            ∙ contains-append (imports_in w x ++ i ∷ []) found y
            ∙ ap (λ b. b || contains found y) (contains-append (imports_in w x) (i ∷ []) y)

        to :
            contains (imports_in w' x) y ≡ true
            → (contains (imports_in w x) y ≡ true) ⊎ Via (i ∷ imports) y
        to h = elim ((a y).0 h) [
          | inl h3 ↦
              elim (or_parts (contains (imports_in w x) y || (i == y || false)) (contains found y)
                (sym split3 ∙ h3)) [
                  | inl q ↦ elim (or_parts (contains (imports_in w x) y) (i == y || false) q) [
                    | inl old ↦ inl old
                    | inr own ↦
                        inr (
                          i,
                          ground (arith, same_refl i),
                          inl ((eq_iff i y).0 (ground (arith, own))),
                        )
                  ]
                  | inr q ↦ inr (i, ground (arith, same_refl i), inr ((c y).0 q))
                ]
          | inr (j, c', q) ↦ inr (j, ground (arith, c'), q)
        ]

        from_own : (i ≡ y) ⊎ Reach i y → contains (imports_in w' x) y ≡ true
        from_own (inl q) = (a y).1 (inl (ground (arith, split3, (eq_iff i y).1 q)))
        from_own (inr q) = (a y).1 (inl (ground (arith, split3, (c y).1 q)))

        from :
            (contains (imports_in w x) y ≡ true) ⊎ Via (i ∷ imports) y
            → contains (imports_in w' x) y ≡ true
        from (inl h) = (a y).1 (inl (ground (arith, split3, h)))
        from (inr (j, c', r)) = elim (Bool-cases (i == j)) [
          | inl same ↦ from_own (subst (λ k. (k ≡ y) ⊎ Reach k y) (sym ((eq_iff i j).0 same)) r)
          | inr other ↦ (a y).1 (inr (j, ground (arith, c', other), r))
        ]

    pub each-Added :
        (r : ℕ) (f : Recurse) (x : String) (imports : List String) (w : Walk)
        → Works r f
        → rank x ≤ r
        → ((i : String) → contains imports i ≡ true → rank i < rank x)
        → Good (rank x) w
        → (w' : Walk) × (each_import f x imports w ≡ some w')
          × Good (rank x) w'
          × Kept x w w'
          × Added x imports w w'
    unfolding each_import
    each-Added r f x [] w works le below g = (
      w,
      refl,
      g,
      λ z h d. (refl, refl),
      λ y. (λ h. inl h, λ s. elim s [ inl h ↦ h | inr (i, c, q) ↦ ground (arith, c) ]),
    )
    each-Added r f x (i ∷ imports) w works le below g =
        let lt : rank i < rank x = below i (ground (arith, same_refl i)) in
        let w1 = note x (i ∷ []) w in
        let g1 : Good (rank x) w1 = λ z h.
          Settled-SameAt z w w1 (note-SameAt x z (i ∷ []) w (other_rank x z (λ q. ground arith)))
            (g z h) in
        let (found, w2, e2, own2, c2, g2, k2) =
          works i w1 (ground arith) (λ z h. g1 z (ground arith)) in
        let w3 = note x found w2 in
        let g2' = Good-after x i w1 w2 lt g1 g2 k2 in
        let g3 : Good (rank x) w3 = λ z h.
          Settled-SameAt z w2 w3 (note-SameAt x z found w2 (other_rank x z (λ q. ground arith)))
            (g2' z h) in
        let (w', e', g', k', a') =
          each-Added r f x imports w3 works le (λ j c. below j (ground (arith, c))) g3 in
        let same_x = k2 x (ground arith) (other_rank i x (λ q. ground arith)) in
        (
          w',
          ap (λ o. and_rest o (λ names w'. each_import f x imports (note x names w'))) e2 ∙ e',
          g',
          λ z h d.
              let s1 = note-SameAt x z (i ∷ []) w d in
              let s2 = k2 z (ground arith) (other_rank i z (λ q. ground arith)) in
              let s3 = note-SameAt x z found w2 d in
              let s4 = k' z h d in
              SameAt-trans z w w1 w' s1
                (SameAt-trans z w1 w2 w' s2 (SameAt-trans z w2 w3 w' s3 s4)),
          Added-cons x i imports found w w3 w'
              (note-own x found w2 ∙ ap (λ l. l ++ found) (same_x.0 ∙ note-own x (i ∷ []) w)) c2 a',
        )
