-- ===== src/Trigger/Unchanged.antt =====
-- A report of a state that did not change concerns no trigger.
use pyscript.Base.{
  String, nat_key, string_key, Key, same_refl, Bool, true, false, not, ◌≡◌, refl, Option, none,
  some, List, [], ◌∷◌, ◌++◌, arith, map, Option-cases, inl, inr, and_parts,
}
use pyscript.Base.Dict.{Dict, get, has}
use pyscript.Base.Lists.{any, all, contains, contains-append}
use pyscript.Base.Text.{split}
use pyscript.State.Machine.{StateVal, state_callable_attrs}
use pyscript.Trigger.{
  Change, differ, see, seen_in, value_differs, any_attr_differs, names_of, piece_changed,
  pieces_changed, any_round, ident_any_values_changed, ident_values_changed,
}

-- a change to what there was before
abbrev pub no_change : {V : Type 0} → String → Option (StateVal V) → Change V
no_change var_name x = record { var_name = var_name; new = x; old = x }

module _ {V : Type 0} ⦃k : Key V⦄ (is_none : V → Bool) where
  -- no last piece of a name is a method of the variable
  abbrev pub no_method : List String → Bool
  no_method (d ∷ e ∷ attr ∷ []) = not (contains state_callable_attrs attr)
  no_method pieces = true

  abbrev pub no_methods : List String → Bool
  no_methods ident = all (λ name. no_method (split name)) ident

  same-seen :
      (o : Option V) (attr : String)
      → contains state_callable_attrs attr ≡ false
      → differ is_none (seen_in is_none o attr) (seen_in is_none o attr) ≡ false
  same-seen (some v) attr h = ground (arith, same_refl v)
  same-seen none attr h = ground (arith, h)

  same-see :
      (x : Option (StateVal V)) (attr : String)
      → contains state_callable_attrs attr ≡ false
      → differ is_none (see is_none x attr) (see is_none x attr) ≡ false
  same-see none attr h = refl
  same-see (some x) attr h = same-seen (get x.dict attr) attr h

  same-value : (x : Option (StateVal V)) → value_differs is_none x x ≡ false
  same-value none = refl
  same-value (some x) = ground (arith, same_refl x.value)

  any-false :
      (p : String → Bool) (l : List String)
      → ((a : String) → contains l a ≡ true → p a ≡ false)
      → any p l ≡ false
  any-false p [] h = refl
  any-false p (x ∷ l) h =
      ground
        (arith, h x (ground (arith, same_refl x)), any-false p l (λ a c. h a (ground (arith, c))))

  has-key :
      (d : Dict String V) (attr : String)
      → contains (map (λ kv. kv.0) d) attr ≡ true
      → has d attr ≡ true
  unfolding get
  has-key [] attr h = ground arith
  has-key ((n, v) ∷ d) attr h = ground (arith, has-key d attr)

  same-own :
      (x : Option (StateVal V)) (attr : String)
      → contains (names_of is_none x ++ names_of is_none x) attr ≡ true
      → differ is_none (see is_none x attr) (see is_none x attr) ≡ false
  same-own none attr h = refl
  same-own (some x) attr h = elim (Option-cases (get x.dict attr)) [
    | inl e ↦ ground (
      arith,
      e,
      contains-append (map (λ kv. kv.0) x.dict) (map (λ kv. kv.0) x.dict) attr,
      has-key x.dict attr,
    )
    | inr (v, e) ↦ ground (arith, e, same_refl v)
  ]

  any_attr-same :
      (var_name : String) (x : Option (StateVal V))
      → any_attr_differs is_none (no_change var_name x) ≡ false
  any_attr-same var_name x =
      any-false _ (names_of is_none x ++ names_of is_none x) (λ a c. ground (arith, same-own x a c))

  piece-same :
      (var_name : String) (x : Option (StateVal V)) (pieces : List String)
      → no_method pieces ≡ true
      → piece_changed is_none (no_change var_name x) pieces ≡ false
  piece-same var_name x [] h = refl
  piece-same var_name x (d ∷ []) h = refl
  piece-same var_name x (d ∷ e ∷ []) h = refl
  piece-same var_name x (d ∷ e ∷ attr ∷ []) h =
      ground (arith, any_attr-same var_name x, same-see x attr)
  piece-same var_name x (d ∷ e ∷ attr ∷ b ∷ rest) h = refl

  pieces-same :
      (var_name : String) (x : Option (StateVal V)) (pieces : List String)
      → no_method pieces ≡ true
      → pieces_changed is_none (no_change var_name x) pieces ≡ false
  pieces-same var_name x [] h = refl
  pieces-same var_name x (d ∷ []) h = refl
  pieces-same var_name x (d ∷ e ∷ []) h = ground (arith, same-value x)
  pieces-same var_name x (d ∷ e ∷ attr ∷ []) h = ground (arith, same-value x, same-see x attr)
  pieces-same var_name x (d ∷ e ∷ attr ∷ b ∷ rest) h = refl

  -- Where the new state of a variable is the old one, neither comparison finds a change for any
  -- names, unless one of them ends in the name of a method.
  ident-no_change :
      (var_name : String) (x : Option (StateVal V)) (ident : List String)
      → no_methods ident ≡ true
      → (ident_any_values_changed is_none (no_change var_name x) ident ≡ false)
        × (ident_values_changed is_none (no_change var_name x) ident ≡ false)
  unfolding ident_any_values_changed ident_values_changed any_round
  ident-no_change var_name x [] h = (refl, refl)
  ident-no_change var_name x (name ∷ ident) h =
      let (first, rest) = and_parts (no_method (split name)) (no_methods ident) h in
      let (a, b) = ident-no_change var_name x ident rest in
      (
        ground (arith, a, piece-same var_name x (split name) first, same-value x),
        ground (arith, b, pieces-same var_name x (split name) first),
      )
