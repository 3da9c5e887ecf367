-- ===== src/Calls/Tagged.antt =====
-- Which variables of a function are shared (custom_components/pyscript/eval.py): `resolve_nonlocals`
-- against the rules of scopes.
use pyscript.Base.{
  ℕ, String, ◌==◌, string_key, Bool, true, false, not, ◌&&◌, ◌≡◌, ◌≢◌, refl, Option, none, some,
  List, [], ◌∷◌, if◌then◌else◌, arith,
}
use pyscript.Base.Dict.{Dict, get}
use pyscript.Base.Lists.{contains, any}
use pyscript.Base.Result.{Result, ok}
use pyscript.Calls.{Captured, own, shared}
use pyscript.Calls.Enter.{Entry, local_var, plain}
use pyscript.Calls.Resolve.{
  Names, stem, capture, first_of, above_global, cell_in, find_cell, tables_of, tag, resolve,
  get-resolve,
}

module _ {V : Type 0} where
  -- the cell that the innermost table with one has for a name
  pub data Found (name : String) : List (Dict String (Entry V)) → Option Captured → Type 0 where
    no_table : Found name [] none
    here :
        (t : Dict String (Entry V)) (tables : List (Dict String (Entry V))) (id : ℕ)
        → get t name ≡ some (local_var id)
        → Found name (t ∷ tables) (some (shared id))
    outside :
        (t : Dict String (Entry V)) (tables : List (Dict String (Entry V))) (c : Option Captured)
        → ((id : ℕ) → get t name ≢ some (local_var id))
        → Found name tables c
        → Found name (t ∷ tables) c

  -- What the rules of scopes say of a name: nothing for a global one; its own cell for a local one
  -- that a function inside can use, and none else; the cell of a scope outside for a nonlocal name,
  -- the global table left out, and for a free one.
  pub data Tagged (n : Names V) (name : String) : Option Captured → Type 0 where
    is_global : contains n.global_names name ≡ true → Tagged n name none
    is_local :
        contains n.global_names name ≡ false
        → contains n.local_names name ≡ true
        → contains n.nonlocal_names name ≡ false
        → Tagged n name (if n.has_closure then some own else none)
    is_nonlocal :
        (c : Option Captured)
        → contains n.global_names name ≡ false
        → contains n.nonlocal_names name ≡ true
        → Found name (n.sym_table ∷ above_global n.sym_table_stack) c
        → Tagged n name c
    is_free :
        (c : Option Captured)
        → contains n.global_names name ≡ false
        → contains n.nonlocal_names name ≡ false
        → contains n.local_names name ≡ false
        → Found name (n.sym_table ∷ n.sym_table_stack) c
        → Tagged n name c

  entry-Found :
      (name : String) (t : Dict String (Entry V)) (tables : List (Dict String (Entry V)))
      (o : Option (Entry V))
      → get t name ≡ o
      → Found name tables (capture (find_cell name tables))
      → Found name (t ∷ tables) (capture (cell_in o (find_cell name tables)))
  entry-Found name t tables none e f =
      outside t tables (capture (find_cell name tables)) (λ id h. cc) f
  entry-Found name t tables (some (local_var id)) e f = here t tables id e
  entry-Found name t tables (some (plain v)) e f =
      outside t tables (capture (find_cell name tables)) (λ id h. cc) f

  find_cell-Found :
      (name : String) (tables : List (Dict String (Entry V)))
      → Found name tables (capture (find_cell name tables))
  find_cell-Found name [] = no_table
  find_cell-Found name (t ∷ tables) =
      entry-Found name t tables (get t name) refl (find_cell-Found name tables)

  if-Tagged :
      (n : Names V) (name : String) (b : Bool) (x y : Option Captured)
      → (b ≡ true → Tagged n name x)
      → (b ≡ false → Tagged n name y)
      → Tagged n name (if b then x else y)
  if-Tagged n name true x y f g = f refl
  if-Tagged n name false x y f g = g refl

  -- a name that is not local, or nonlocal too
  outer-Tagged :
      (n : Names V) (name : String) (b : Bool)
      → contains n.nonlocal_names name ≡ b
      → contains n.global_names name ≡ false
      → (contains n.local_names name && not b) ≡ false
      → Tagged n name (
          capture (
            find_cell name
              (n.sym_table ∷ (if b then above_global n.sym_table_stack else n.sym_table_stack))))
  outer-Tagged n name true e g l =
      is_nonlocal (capture (find_cell name (n.sym_table ∷ above_global n.sym_table_stack))) g e
        (find_cell-Found name (n.sym_table ∷ above_global n.sym_table_stack))
  outer-Tagged n name false e g l =
      is_free (capture (find_cell name (n.sym_table ∷ n.sym_table_stack))) g e (ground (arith, l))
        (find_cell-Found name (n.sym_table ∷ n.sym_table_stack))

  tag-Tagged : (n : Names V) (name : String) → Tagged n name (tag n name)
  tag-Tagged n name =
      let local = contains n.local_names name && not (contains n.nonlocal_names name) in
      let own_tag : Option Captured = if n.has_closure then some own else none in
      let outer = capture (find_cell name (tables_of n name)) in
      if-Tagged n name (contains n.global_names name) none (if local then own_tag else outer)
        is_global
        (λ g.
          if-Tagged n name local own_tag outer
            (λ l. is_local g (ground (arith, l)) (ground (arith, l)))
            (λ l. outer-Tagged n name (contains n.nonlocal_names name) refl g l))

  -- Where all nonlocal names are bound, each variable of a function is tagged by the rules of scopes
  -- (`Tagged`), whatever the order in which the set of them is gone through: a name that occurs gets
  -- what they say, where they say nothing its entry stays, and so does the entry of a name that does
  -- not occur.
  pub resolve-Tagged :
      (is_found : String → Result Bool) (n : Names V) (var_names : List String)
      (t t' : Dict String Captured) (name : String)
      → resolve is_found n var_names t ≡ ok t'
      → (any (λ v. stem v == name) var_names ≡ true
          → (c : Option Captured) × Tagged n name c × (get t' name ≡ first_of c (get t name)))
        × (any (λ v. stem v == name) var_names ≡ false → get t' name ≡ get t name)
  resolve-Tagged is_found n var_names t t' name e =
      let r = get-resolve is_found n var_names t t' name e in
      (λ h. (tag n name, tag-Tagged n name, ground (arith, r, h)), λ h. ground (arith, r, h))
