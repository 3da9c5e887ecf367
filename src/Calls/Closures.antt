-- ===== src/Calls/Closures.antt =====
-- Which cells a call shares with the function around, and which are its own.
use pyscript.Base.{
  ℕ, ◌≤◌, ◌<◌, String, ◌==◌, string_key, nat_key, Bool, true, false, ◌≡◌, refl, Option, none, some,
  [], ◌∷◌, map, if◌then◌else◌, arith, ap, sym, ◌∙◌, same_refl, inl, inr, Bool-cases, some_inj,
}
use text.Mathlib.TextEquality.{eq_iff}
use mathlib.Core.Path.{subst}
use pyscript.Base.Dict.{Dict, get, put, get-put}
use pyscript.Base.Lists.{distinct, contains}
use pyscript.Calls.{Bound, Captured, own, shared}
use pyscript.Calls.Enter.{
  Entry, local_var, Cells, new_cell, defined_in, is_defined, enter_local, enter_locals,
}

module _ {V : Type 0} where
  -- `x` is a cell that there is
  abbrev pub Known : Captured → Cells V → Type 0
  Known x c = (id : ℕ) → x ≡ shared id → id < c.next

  enter_local-kept :
      (p : Option (Bound V)) (x : Captured) (c : Cells V) (id : ℕ)
      → id < c.next
      → (get (enter_local p x c).1.cells id ≡ get c.cells id)
        × (c.next ≤ (enter_local p x c).1.next)
  enter_local-kept (some v) x c id h =
      (ground (arith, get-put c.cells c.next id (some v), h), omega arith)
  enter_local-kept none x c id h = elim (Bool-cases (is_defined x c)) [
    | inl e ↦ ground (arith, e)
    | inr e ↦ ground (arith, e, get-put c.cells c.next id none, h)
  ]

  -- cells that were there before keep what they hold
  enter_locals-kept :
      (params : Dict String (Bound V)) (items : Dict String Captured) (t : Dict String (Entry V))
      (c : Cells V) (id : ℕ)
      → id < c.next
      → get (enter_locals params items t c).1.cells id ≡ get c.cells id
  unfolding enter_locals
  enter_locals-kept params [] t c id h = refl
  enter_locals-kept params ((name, x) ∷ items) t c id h =
      let (e, c') = enter_local (get params name) x c in
      let k = enter_local-kept (get params name) x c id h in
      enter_locals-kept params items (put t name e) c' id (omega (arith, k)) ∙ k.0

  -- an entry of a name that is not among the shared ones
  enter_locals-other :
      (params : Dict String (Bound V)) (items : Dict String Captured) (t : Dict String (Entry V))
      (c : Cells V) (name : String)
      → contains (map (λ kv. kv.0) items) name ≡ false
      → get (enter_locals params items t c).0 name ≡ get t name
  unfolding enter_locals
  enter_locals-other params [] t c name h = refl
  enter_locals-other params ((n, x) ∷ items) t c name h =
      let s = enter_local (get params n) x c in
      enter_locals-other params items (put t n s.0) s.1 name (ground arith)
      ∙ ground (arith, get-put t n name s.0, h)

  -- the cell of one name: the one that was captured, where it is defined, or a new one from
  -- `limit` on, with the argument or undefined
  abbrev pub CellOf : Option (Bound V) → Captured → Bool → ℕ → Cells V → ℕ → Type 0
  CellOf p x is_def limit c' j =
      (p ≡ none → is_def ≡ true → x ≡ shared j)
      × ((v : Bound V) → p ≡ some v → (limit ≤ j) × (get c'.cells j ≡ some (some v)))
      × (p ≡ none → is_def ≡ false → (limit ≤ j) × (get c'.cells j ≡ some none))

  abbrev HasCell : Option (Bound V) → Captured → Bool → ℕ → Entry V × Cells V → Type 0
  HasCell p x is_def limit r =
      (j : ℕ) × (r.0 ≡ local_var j) × (j < r.1.next) × CellOf p x is_def limit r.1 j

  new-HasCell :
      (x : Captured) (c : Cells V) → HasCell none x false c.next (local_var c.next, new_cell none c)
  new-HasCell x c = (
    c.next,
    refl,
    omega arith,
    (
      λ e d. ground (arith, d),
      λ v e. ground (arith, e),
      λ e d. (omega arith, ground (arith, get-put c.cells c.next c.next none)),
    ),
  )

  captured-HasCell :
      (b : Bool) (id : ℕ) (c : Cells V)
      → id < c.next
      → HasCell none
          (shared id)
          b
          c.next
          (if b then (local_var id, c) else (local_var c.next, new_cell none c))
  captured-HasCell false id c h = new-HasCell (shared id) c
  captured-HasCell true id c h =
      (id, refl, h, (λ e d. refl, λ v e. ground (arith, e), λ e d. ground (arith, d)))

  enter_local-HasCell :
      (p : Option (Bound V)) (x : Captured) (c : Cells V)
      → Known x c
      → HasCell p x (is_defined x c) c.next (enter_local p x c)
  enter_local-HasCell (some v) x c k = (
    c.next,
    refl,
    omega arith,
    (
      λ e d. ground (arith, e),
      λ w e. (omega arith, ground (arith, get-put c.cells c.next c.next (some v), e)),
      λ e d. ground (arith, e),
    ),
  )
  enter_local-HasCell none own c k = new-HasCell own c
  enter_local-HasCell none (shared id) c k =
      captured-HasCell (is_defined (shared id) c) id c (k id refl)

  -- a cell of an item before stays the cell of its name
  CellOf-later :
      (p : Option (Bound V)) (x : Captured) (d : Bool) (limit : ℕ) (c c' : Cells V) (j : ℕ)
      → get c'.cells j ≡ get c.cells j
      → CellOf p x d limit c j
      → CellOf p x d limit c' j
  CellOf-later p x d limit c c' j e (a, b, n) =
      (a, λ v q. ((b v q).0, e ∙ (b v q).1), λ q r. ((n q r).0, e ∙ (n q r).1))

  CellOf-below :
      (p : Option (Bound V)) (x : Captured) (d : Bool) (limit limit' : ℕ) (c : Cells V) (j : ℕ)
      → limit ≤ limit'
      → CellOf p x d limit' c j
      → CellOf p x d limit c j
  CellOf-below p x d limit limit' c j h (a, b, n) = (
    a,
    λ v q. (omega (arith, (b v q).0), (b v q).1),
    λ q r. (omega (arith, (n q r).0), (n q r).1),
  )

  enter_local-next :
      (p : Option (Bound V)) (x : Captured) (c : Cells V) → c.next ≤ (enter_local p x c).1.next
  enter_local-next (some v) x c = omega arith
  enter_local-next none x c = ground arith

  is_defined-kept :
      (p : Option (Bound V)) (y x : Captured) (c : Cells V)
      → Known x c
      → is_defined x (enter_local p y c).1 ≡ is_defined x c
  is_defined-kept p y own c k = refl
  is_defined-kept p y (shared id) c k = ap defined_in (enter_local-kept p y c id (k id refl)).0

  abbrev Has :
      Option (Bound V) → String → Captured → Cells V → Dict String (Entry V) × Cells V → Type 0
  Has p name x c r =
      (j : ℕ) × (get r.0 name ≡ some (local_var j)) × CellOf p x (is_defined x c) c.next r.1 j

  -- the first of the items, and the others
  first-Has :
      (params : Dict String (Bound V)) (items : Dict String Captured) (t : Dict String (Entry V))
      (c : Cells V) (n : String) (y : Captured)
      → contains (map (λ kv. kv.0) items) n ≡ false
      → Known y c
      → Has (get params n) n y c (enter_locals params ((n, y) ∷ items) t c)
  unfolding enter_locals
  first-Has params items t c n y d k =
      let s = enter_local (get params n) y c in
      let (j, e, below, has_cell) = enter_local-HasCell (get params n) y c k in
      (
        j,
        enter_locals-other params items (put t n s.0) s.1 n d
            ∙ ground (arith, get-put t n n s.0, same_refl n)
            ∙ ap some e,
        CellOf-later (get params n) y (is_defined y c) c.next s.1
            (enter_locals params items (put t n s.0) s.1).1 j
            (enter_locals-kept params items (put t n s.0) s.1 j below) has_cell,
      )

  later-Has :
      (params : Dict String (Bound V)) (items : Dict String Captured) (t : Dict String (Entry V))
      (c : Cells V) (n name : String) (x y : Captured)
      → Known x c
      → (let s = enter_local (get params n) y c in
          Has (get params name) name x s.1 (enter_locals params items (put t n s.0) s.1))
      → Has (get params name) name x c (enter_locals params ((n, y) ∷ items) t c)
  unfolding enter_locals
  later-Has params items t c n name x y k (j, at, has_cell) =
      let s = enter_local (get params n) y c in
      (
        j,
        at,
        CellOf-below (get params name) x (is_defined x c) c.next s.1.next
            (enter_locals params items (put t n s.0) s.1).1 j (enter_local-next (get params n) y c)
            (subst
              (λ b.
                CellOf (get params name) x b s.1.next
                  (enter_locals params items (put t n s.0) s.1).1 j)
              (is_defined-kept (get params n) y x c k) has_cell),
      )

  later-Known :
      (p : Option (Bound V)) (x y : Captured) (c : Cells V)
      → Known x c
      → Known x (enter_local p y c).1
  later-Known p x y c k id e = omega (arith, k id e, enter_local-next p y c)

  -- Each shared variable of a function has a cell after `enter_locals`. Where the variable is no
  -- parameter and its captured cell is defined as the call starts, it is that cell; else it is a new
  -- one, which has the argument or is undefined. The conditions are that the variables differ, and
  -- that the captured cells exist.
  pub enter_locals-sharing :
      (params : Dict String (Bound V)) (items : Dict String Captured) (t : Dict String (Entry V))
      (c : Cells V) (name : String) (x : Captured)
      → distinct (map (λ kv. kv.0) items) ≡ true
      → get items name ≡ some x
      → Known x c
      → (j : ℕ) × (get (enter_locals params items t c).0 name ≡ some (local_var j))
        × ((get params name ≡ none → is_defined x c ≡ true → x ≡ shared j)
            × ((v : Bound V)
                → get params name ≡ some v
                → (c.next ≤ j) × (get (enter_locals params items t c).1.cells j ≡ some (some v)))
            × (get params name ≡ none
                → is_defined x c ≡ false
                → (c.next ≤ j) × (get (enter_locals params items t c).1.cells j ≡ some none)))
  unfolding get
  enter_locals-sharing params [] t c name x d g k = ground (arith, g)
  enter_locals-sharing params ((n, y) ∷ items) t c name x d g k =
      let s = enter_local (get params n) y c in
      elim (Bool-cases (n == name)) [
        | inl e ↦
            let y_is_x : y ≡ x =
              some_inj (ap (λ b. if b then some y else get items name) (sym e) ∙ g) in
            subst (λ m. Has (get params m) m x c (enter_locals params ((n, y) ∷ items) t c))
              ((eq_iff n name).0 e)
              (subst (λ z. Has (get params n) n z c (enter_locals params ((n, y) ∷ items) t c))
                y_is_x
                (first-Has params items t c n y (ground arith)
                  (subst (λ z. Known z c) (sym y_is_x) k)))
        | inr e ↦ later-Has params items t c n name x y k (
            enter_locals-sharing params items (put t n s.0) s.1 name x (ground arith)
              (ap (λ b. if b then some y else get items name) (sym e) ∙ g)
              (later-Known (get params n) x y c k))
      ]
