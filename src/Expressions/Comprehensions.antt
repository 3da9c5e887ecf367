-- ===== src/Expressions/Comprehensions.antt =====
-- Sets and dicts, and their comprehensions (custom_components/pyscript/eval.py): `ast_set`, `ast_dict`,
-- `setcomp_loop`, `dictcomp_loop`. Values have an equality, as what Python can hash has.
use pyscript.Base.{String, Option, none, some, List, [], ◌∷◌, map, if◌then◌else◌}
use pyscript.Base.{Key}
use pyscript.Base.Dict.{Dict, get, put}
use pyscript.Base.Bag.{add}
use pyscript.Expressions.{
  Run, pure, go_on, then_run, value, raised, Element, eval_elt_list, all_ifs, Generator, Scope,
  loopvar_scope_save, loopvar_scope_restore,
}

module _ {V : Type 0} ⦃k : Key V⦄ where
  -- `set.update`
  unfoldable pub update_set : List V → List V → List V
  update_set s [] = s
  update_set s (v ∷ vs) = update_set (add s v) vs

  abbrev pub put_found : Dict V V → V → Option V → Dict V V
  put_found d key none = d
  put_found d key (some v) = put d key v

  -- `dict.update`: for each key of the other, `d[key] = other[key]`
  unfoldable pub update_keys : Dict V V → List V → Dict V V → Dict V V
  update_keys other [] d = d
  update_keys other (key ∷ keys) d = update_keys other keys (put_found d key (get other key))

  abbrev pub update_dict : Dict V V → Dict V V → Dict V V
  update_dict d other = update_keys other (map (λ kv. kv.0) other) d

module _ {S E V C : Type 0} (empty : C) (update : C → C → C) where
  -- the loop over the values of one clause, with what is collected so far in `out`
  unfoldable pub collect_values : (V → Run S E C) → List V → C → Run S E C
  collect_values f [] out = pure out
  collect_values f (v ∷ values) out = then_run (f v) (λ c. collect_values f values (update out c))

  -- what the loops over sets and dicts share; with no clause left it is the element
  unfoldable pub collect_loop : List (Generator S E V) → Run S E C → Run S E C
  unfolding all_ifs collect_values
  collect_loop [] elt = elt
  collect_loop (gen ∷ generators) elt =
      let inner = collect_loop generators elt in
      then_run gen.iter (λ values.
        collect_values
          (λ v.
            then_run (gen.assign v)
              (λ u. then_run (all_ifs gen.ifs) (λ b. if b then inner else pure empty)))
          values empty)

-- What `hash` raises for a value that cannot be hashed, as a list. A set and a dict hash what is put
-- into them.
module _ {S E V : Type 0} (unhashable : V → Option E) where
  abbrev pub raise_or : Option E → V → Run S E V
  raise_or none v s = (value v, s)
  raise_or (some e) v s = (raised e, s)

  abbrev pub hashed : V → Run S E V
  hashed v = raise_or (unhashable v) v

  -- the loop of `ast_set` over the elements, up to the first that cannot be hashed
  unfoldable pub hash_each : List V → Run S E (List V)
  hash_each [] = pure []
  hash_each (v ∷ vs) = then_run (hashed v) (λ w. then_run (hash_each vs) (λ rest. pure (w ∷ rest)))

-- an item of a dict: a key with its value, or `**` of a dict
pub data DictItem (S E V : Type 0) : Type 0 where
  pair : Run S E V → Run S E V → DictItem S E V
  unpacked : Run S E (Dict V V) → DictItem S E V

module _ {S E V : Type 0} ⦃k : Key V⦄ (unhashable : V → Option E) where
  -- `ast_set`
  unfoldable pub ast_set : List (Element S E V) → Run S E (List V)
  ast_set elts =
      then_run (eval_elt_list elts)
        (λ vs. then_run (hash_each unhashable vs) (λ hs. pure (update_set [] hs)))

  -- the value of an item is evaluated before its key
  abbrev pub item_into : Dict V V → DictItem S E V → Run S E (Dict V V)
  item_into val (pair key_ast val_ast) = then_run val_ast (λ this_val.
      then_run key_ast (λ key. then_run (hashed unhashable key) (λ h. pure (put val h this_val))))
  item_into val (unpacked val_ast) = then_run val_ast (λ other. pure (update_dict val other))

  -- `ast_dict`, from what there is already
  unfoldable pub ast_dict : List (DictItem S E V) → Dict V V → Run S E (Dict V V)
  ast_dict [] val = pure val
  ast_dict (item ∷ items) val = then_run (item_into val item) (λ d. ast_dict items d)

  -- `setcomp_loop`
  abbrev pub setcomp_loop : List (Generator S E V) → Run S E V → Run S E (List V)
  setcomp_loop generators elt =
      collect_loop [] update_set generators
        (then_run (then_run elt (hashed unhashable)) (λ v. pure (add [] v)))

  -- the key, then the value, then the hash of the key
  abbrev pub hashed_pair : Run S E V → Run S E V → Run S E (V × V)
  hashed_pair key val =
      then_run key
        (λ key_val. then_run val (λ v. then_run (hashed unhashable key_val) (λ h. pure (h, v))))

  -- `dictcomp_loop`; the key is evaluated before the value
  abbrev pub dictcomp_loop : List (Generator S E V) → Run S E V → Run S E V → Run S E (Dict V V)
  dictcomp_loop generators key val =
      collect_loop [] update_dict generators
        (then_run (hashed_pair key val) (λ kv. pure (put [] kv.0 kv.1)))

module _ {W E V A : Type 0} where
  -- the loops of a comprehension with its variables saved before and put back after
  abbrev pub in_own_scope : List String → Run (Scope W V) E A → Run (Scope W V) E A
  in_own_scope target_vars loops s =
      let saved = loopvar_scope_save target_vars s.sym_table in
      go_on (loops s) (λ result s'. (
        value result,
        record s' { sym_table = loopvar_scope_restore target_vars saved s'.sym_table },
      ))

module _ {W E V : Type 0} ⦃k : Key V⦄ (unhashable : V → Option E) where
  -- `ast_setcomp`
  abbrev pub ast_setcomp :
      List String
      → List (Generator (Scope W V) E V)
      → Run (Scope W V) E V
      → Run (Scope W V) E (List V)
  ast_setcomp target_vars generators elt =
      in_own_scope target_vars (setcomp_loop unhashable generators elt)

  -- `ast_dictcomp`
  abbrev pub ast_dictcomp :
      List String
      → List (Generator (Scope W V) E V)
      → Run (Scope W V) E V
      → Run (Scope W V) E V
      → Run (Scope W V) E (Dict V V)
  ast_dictcomp target_vars generators key val =
      in_own_scope target_vars (dictcomp_loop unhashable generators key val)
