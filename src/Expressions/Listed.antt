-- ===== src/Expressions/Listed.antt =====
-- `ast_setcomp` and `ast_dictcomp` (custom_components/pyscript/eval.py) against `ast_listcomp`:
-- membership in a set, the last value of a key.
use pyscript.Base.{
  String, true, ◌≡◌, ◌==◌, refl, Option, none, some, List, [], ◌∷◌, ◌++◌, if◌then◌else◌, ◌||◌, map,
  arith, is_some, ap, Key,
}
use pyscript.Base.Dict.{Dict, get, put, get-put, get-empty}
use pyscript.Base.Lists.{contains, contains-append}
use pyscript.Base.Bag.{add, contains-add}
use pyscript.Expressions.{
  Outcome, value, raised, Run, pure, go_on, then_run, Generator, listcomp_loop, ast_listcomp, Scope,
  loopvar_scope_save, loopvar_scope_restore,
}
use pyscript.Expressions.Comprehensions.{
  update_set, put_found, update_keys, update_dict, setcomp_loop, dictcomp_loop, hashed, raise_or,
  hashed_pair, in_own_scope, ast_setcomp, ast_dictcomp,
}
use pyscript.Expressions.Collected.{Matches, Matches-go_on, Matches-collect_loop}

abbrev pub first_some : {V : Type 0} → Option V → Option V → Option V
first_some none d = d
first_some (some v) d = some v

module _ {V : Type 0} ⦃k : Key V⦄ where
  -- a set that has the members of a list
  abbrev pub SameMembers : List V → List V → Type 0
  SameMembers set xs = (y : V) → contains set y ≡ contains xs y

  -- the value of the last pair with a key
  abbrev pub last_value : List (V × V) → V → Option V
  last_value [] y = none
  last_value ((key, v) ∷ pairs) y =
      first_some (last_value pairs y) (if key == y then some v else none)

  -- a dict that has the last value of each key
  abbrev pub LastValues : Dict V V → List (V × V) → Type 0
  LastValues d pairs = (y : V) → get d y ≡ last_value pairs y

  contains-update_set :
      (s vs : List V) (y : V) → contains (update_set s vs) y ≡ (contains s y || contains vs y)
  unfolding update_set
  contains-update_set s [] y = ground arith
  contains-update_set s (v ∷ vs) y =
      ground (arith, contains-update_set (add s v) vs y, contains-add s v y)

  get-put_found :
      (d : Dict V V) (key : V) (o : Option V) (y : V)
      → get (put_found d key o) y ≡ (if key == y then first_some o (get d y) else get d y)
  get-put_found d key none y = ground arith
  get-put_found d key (some v) y = ground (arith, get-put d key y v)

  get-update_keys :
      (other : Dict V V) (keys : List V) (d : Dict V V) (y : V)
      → get (update_keys other keys d) y
        ≡ (if contains keys y then first_some (get other y) (get d y) else get d y)
  unfolding update_keys
  get-update_keys other [] d y = refl
  get-update_keys other (key ∷ keys) d y = ground (
    arith,
    get-update_keys other keys (put_found d key (get other key)) y,
    get-put_found d key (get other key) y,
    λ (h : (key == y) ≡ true). ap (get other) ((k.same_iff key y).0 h),
  )

  contains-keys : (d : Dict V V) (y : V) → contains (map (λ kv. kv.0) d) y ≡ is_some (get d y)
  unfolding get
  contains-keys [] y = refl
  contains-keys ((key, v) ∷ d) y = ground (arith, contains-keys d y)

  last_value-append :
      (xs ys : List (V × V)) (y : V)
      → last_value (xs ++ ys) y ≡ first_some (last_value ys y) (last_value xs y)
  last_value-append [] ys y = ground arith
  last_value-append ((key, v) ∷ xs) ys y = ground (arith, last_value-append xs ys y)

  SameMembers-update :
      (a b xs ys : List V)
      → SameMembers a xs
      → SameMembers b ys
      → SameMembers (update_set a b) (xs ++ ys)
  SameMembers-update a b xs ys h g y =
      ground (arith, contains-update_set a b y, contains-append xs ys y, h y, g y)

  LastValues-update :
      (a b : Dict V V) (xs ys : List (V × V))
      → LastValues a xs
      → LastValues b ys
      → LastValues (update_dict a b) (xs ++ ys)
  LastValues-update a b xs ys h g y = ground (
    arith,
    get-update_keys b (map (λ kv. kv.0) b) a y,
    contains-keys b y,
    last_value-append xs ys y,
    h y,
    g y,
  )

module _ {S E V : Type 0} ⦃k : Key V⦄ (unhashable : V → Option E) where
  -- an element that is hashed once it is evaluated
  abbrev pub checked : Run S E V → Run S E V
  checked elt = then_run elt (hashed unhashable)

  -- a pair whose key is hashed once both are evaluated
  abbrev pub pair_of : Run S E V → Run S E V → Run S E (V × V)
  pair_of key val =
      then_run (then_run key (λ a. then_run val (λ v. pure (a, v))))
        (λ kv. then_run (hashed unhashable kv.0) (λ h. pure kv))

  abbrev put_one : V × V → Run S E (Dict V V)
  put_one kv = pure (put [] kv.0 kv.1)

  abbrev as_list : V × V → Run S E (List (V × V))
  as_list kv = pure (kv ∷ [])

  after_hash :
      (a v : V) (o : Option E) (t : S)
      → Matches LastValues
          (go_on (go_on (raise_or unhashable o a t) (λ h. pure (h, v))) put_one)
          (go_on (go_on (raise_or unhashable o a t) (λ h. pure (a, v))) as_list)
  after_hash a v none t = (refl, λ y. ground (arith, get-put [] a y v, get-empty {V = V} y))
  after_hash a v (some e) t = (refl, refl)

  after_val :
      (a : V) (r : Outcome E V × S)
      → Matches LastValues
          (go_on (go_on r (λ v. then_run (hashed unhashable a) (λ h. pure (h, v)))) put_one)
          (go_on
            (go_on
              (go_on r (λ v. pure (a, v)))
              (λ kv. then_run (hashed unhashable kv.0) (λ h. pure kv)))
            as_list)
  after_val a (value v, t) = after_hash a v (unhashable a) t
  after_val a (raised e, t) = (refl, refl)

  after_key :
      (val : Run S E V) (r : Outcome E V × S)
      → Matches LastValues
          (go_on
            (go_on r (λ a. then_run val (λ v. then_run (hashed unhashable a) (λ h. pure (h, v)))))
            put_one)
          (go_on
            (go_on
              (go_on r (λ a. then_run val (λ v. pure (a, v))))
              (λ kv. then_run (hashed unhashable kv.0) (λ h. pure kv)))
            as_list)
  after_key val (value a, t) = after_val a (val t)
  after_key val (raised e, t) = (refl, refl)

  Matches-setcomp_loop :
      (generators : List (Generator S E V)) (elt : Run S E V) (s : S)
      → Matches SameMembers
          (setcomp_loop unhashable generators elt s)
          (listcomp_loop generators (checked elt) s)
  Matches-setcomp_loop generators elt s =
      Matches-collect_loop SameMembers [] update_set (λ y. refl) SameMembers-update
        (then_run (checked elt) (λ v. pure (add [] v))) (checked elt)
        (λ t.
          Matches-go_on SameMembers (checked elt t) (λ v. pure (add [] v)) (λ v. pure (v ∷ []))
            (λ v u. (refl, λ y. ground (arith, contains-add [] v y))))
        generators s

  Matches-dictcomp_loop :
      (generators : List (Generator S E V)) (key val : Run S E V) (s : S)
      → Matches LastValues
          (dictcomp_loop unhashable generators key val s)
          (listcomp_loop generators (pair_of key val) s)
  Matches-dictcomp_loop generators key val s =
      Matches-collect_loop LastValues [] update_dict (λ y. get-empty {V = V} y) LastValues-update
        (then_run (hashed_pair unhashable key val) put_one) (pair_of key val)
        (λ t. after_key val (key t)) generators s

module _ {W V : Type 0} where
  abbrev restored : List String → Dict String V → Scope W V → Scope W V
  restored target_vars before s = record s {
    sym_table =
        loopvar_scope_restore target_vars (loopvar_scope_save target_vars before) s.sym_table;
  }

module _ {W E V : Type 0} where
  Matches-restored :
      {C X : Type 0} (Holds : C → List X → Type 0) (target_vars : List String)
      (before : Dict String V) (r : Outcome E C × Scope W V) (q : Outcome E (List X) × Scope W V)
      → Matches Holds r q
      → Matches Holds
          (go_on r (λ c s. (value c, restored target_vars before s)))
          (go_on q (λ xs s. (value xs, restored target_vars before s)))
  Matches-restored Holds target_vars before (value c, t) (value xs, u) (e, h) =
      (ap (restored target_vars before) e, h)
  Matches-restored Holds target_vars before (raised e, t) (raised e', u) h = h
  Matches-restored Holds target_vars before (value c, t) (raised e', u) h = h
  Matches-restored Holds target_vars before (raised e, t) (value xs, u) h = h

  Matches-in_own_scope :
      {C X : Type 0} (Holds : C → List X → Type 0) (target_vars : List String)
      (loops : Run (Scope W V) E C) (listed : Run (Scope W V) E (List X)) (s : Scope W V)
      → Matches Holds (loops s) (listed s)
      → Matches Holds (in_own_scope target_vars loops s) (in_own_scope target_vars listed s)
  Matches-in_own_scope Holds target_vars loops listed s =
      Matches-restored Holds target_vars s.sym_table (loops s) (listed s)

module _ {W E V : Type 0} ⦃k : Key V⦄ (unhashable : V → Option E) where
  -- A set comprehension ends as the list comprehension with the same clauses whose element is hashed
  -- once it is evaluated: in the same state, and with the same exception, that of an element that
  -- cannot be hashed included; the set has the members of the list. A dict comprehension ends as the
  -- list comprehension of the pairs whose key is hashed once key and value are evaluated, and it has
  -- for each key the last value in that list.
  pub Matches-ast_dictcomp :
      (target_vars : List String) (generators : List (Generator (Scope W V) E V))
      (elt key val : Run (Scope W V) E V) (s : Scope W V)
      → Matches SameMembers
          (ast_setcomp unhashable target_vars generators elt s)
          (ast_listcomp target_vars generators (checked unhashable elt) s)
        × Matches LastValues
            (ast_dictcomp unhashable target_vars generators key val s)
            (ast_listcomp target_vars generators (pair_of unhashable key val) s)
  unfolding ast_listcomp
  Matches-ast_dictcomp target_vars generators elt key val s = (
    Matches-in_own_scope SameMembers target_vars (setcomp_loop unhashable generators elt)
        (listcomp_loop generators (checked unhashable elt)) s
        (Matches-setcomp_loop unhashable generators elt s),
    Matches-in_own_scope LastValues target_vars (dictcomp_loop unhashable generators key val)
        (listcomp_loop generators (pair_of unhashable key val)) s
        (Matches-dictcomp_loop unhashable generators key val s),
  )
