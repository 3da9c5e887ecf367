-- ===== src/Calls/Resolve.antt =====
-- Which variables of a function are shared (custom_components/pyscript/eval.py): the second half of
-- `EvalFunc.resolve_nonlocals`, and `check_for_closure`.
use pyscript.Base.{
  ℕ, String, ◌==◌, string_key, nat_key, Bool, true, false, not, ◌&&◌, ◌||◌, ◌≡◌, refl, Option, none,
  some, List, [], ◌∷◌, if◌then◌else◌, arith, ap, ◌∙◌, sym, inl, inr, Bool-cases,
}
use text.Mathlib.TextEquality.{eq_iff}
use pyscript.Base.Dict.{Dict, get, put, get-put}
use pyscript.Base.Lists.{contains, any}
use pyscript.Base.Text.{split}
use pyscript.Base.Result.{Result, ok, err, syntax_error, then_try, try-ok, when-ok, ok_inj}
use pyscript.Calls.{Captured, own, shared}
use pyscript.Calls.Enter.{Entry, local_var}

-- a node of the syntax tree, and the children of one
mutual
  pub data Node : Type 0 where
    function_or_class : Node
    node : Nodes → Node

  pub data Nodes : Type 0 where
    no_nodes : Nodes
    add_node : Node → Nodes → Nodes

unfoldable mutual
  -- `check_for_closure`
  pub check_for_closure : Node → Bool
  check_for_closure function_or_class = true
  check_for_closure (node children) = check_children children

  pub check_children : Nodes → Bool
  check_children no_nodes = false
  check_children (add_node child children) = check_for_closure child || check_children children

-- the names that a function's body has, by what it declares; the tables, the top of the stack first
pub record Names (V : Type 0) : Type 0 where
  pub local_names : List String
  pub nonlocal_names : List String
  pub global_names : List String
  pub has_closure : Bool
  pub sym_table : Dict String (Entry V)
  pub sym_table_stack : List (Dict String (Entry V))

-- `var_name[0:got_dot]`
abbrev pub stem_of : List String → String
stem_of [] = ""
stem_of (s ∷ pieces) = s

abbrev pub stem : String → String
stem name = stem_of (split name)

abbrev pub has_dot : List String → Bool
has_dot (s ∷ t ∷ pieces) = true
has_dot pieces = false

abbrev pub capture : Option ℕ → Option Captured
capture none = none
capture (some id) = some (shared id)

abbrev pub set_tag : Option Captured → String → Dict String Captured → Dict String Captured
set_tag none name t = t
set_tag (some x) name t = put t name x

-- `is_found` says what `ast_name` finds
abbrev pub check_bound :
    Bool → Bool → Result Bool → Dict String Captured → Result (Dict String Captured)
check_bound false dotted found t = ok t
check_bound true dotted found t =
    then_try found (λ b. if b || dotted then ok t else err syntax_error)

abbrev pub first_of : Option Captured → Option Captured → Option Captured
first_of none d = d
first_of (some x) d = some x

check_bound-same :
    (b dotted : Bool) (found : Result Bool) (t t' : Dict String Captured)
    → check_bound b dotted found t ≡ ok t'
    → t ≡ t'
check_bound-same false dotted found t t' e = ok_inj e
check_bound-same true dotted found t t' e =
    let (b, found_b, e') =
      try-ok found (λ b. if b || dotted then ok t else err syntax_error) t' e in
    ok_inj (when-ok (b || dotted) syntax_error (ok t) t' e').1

get-set_tag :
    (o : Option Captured) (v name : String) (t : Dict String Captured)
    → get (set_tag o v t) name ≡ (if v == name then first_of o (get t name) else get t name)
get-set_tag none v name t = ground arith
get-set_tag (some x) v name t = get-put t v name x

first_of-twice : (o d : Option Captured) → first_of o (first_of o d) ≡ first_of o d
first_of-twice none d = refl
first_of-twice (some x) d = refl

module _ {V : Type 0} where
  -- the stack without its bottom, the global table
  abbrev pub above_global : List (Dict String (Entry V)) → List (Dict String (Entry V))
  above_global [] = []
  above_global (t ∷ []) = []
  above_global (t ∷ u ∷ stack) = t ∷ above_global (u ∷ stack)

  abbrev pub cell_in : Option (Entry V) → Option ℕ → Option ℕ
  cell_in (some (local_var id)) outer = some id
  cell_in _ outer = outer

  -- the innermost table that has a cell for the name
  abbrev pub find_cell : String → List (Dict String (Entry V)) → Option ℕ
  find_cell name [] = none
  find_cell name (t ∷ tables) = cell_in (get t name) (find_cell name tables)

  abbrev pub tables_of : Names V → String → List (Dict String (Entry V))
  tables_of n name =
      n.sym_table
      ∷ (if contains n.nonlocal_names name
          then above_global n.sym_table_stack
          else n.sym_table_stack)

  -- what a variable is tagged with
  abbrev pub tag : Names V → String → Option Captured
  tag n name =
      if contains n.global_names name
      then none
      else if contains n.local_names name && not (contains n.nonlocal_names name)
      then (if n.has_closure then some own else none)
      else capture (find_cell name (tables_of n name))

  -- whether a name that no table has is looked up, to raise for a nonlocal one
  abbrev pub is_unbound : Names V → String → Bool
  is_unbound n name =
      not (contains n.global_names name)
      && contains n.nonlocal_names name
      && (elim (find_cell name (tables_of n name)) [ none ↦ true | some id ↦ false ])

  -- the loop over `var_names`
  unfoldable pub resolve :
      (String → Result Bool)
      → Names V
      → List String
      → Dict String Captured
      → Result (Dict String Captured)
  resolve is_found n [] t = ok t
  resolve is_found n (v ∷ var_names) t =
      then_try
        (check_bound (is_unbound n (stem v)) (has_dot (split v)) (is_found (stem v))
          (set_tag (tag n (stem v)) (stem v) t))
        (λ t'. resolve is_found n var_names t')

  -- Where all nonlocal names are bound, each variable is tagged by itself, whatever the order in
  -- which the set of them is gone through: a name that occurs has what `tag` says, and else the
  -- table's entry stays.
  pub get-resolve :
      (is_found : String → Result Bool) (n : Names V) (var_names : List String)
      (t t' : Dict String Captured) (name : String)
      → resolve is_found n var_names t ≡ ok t'
      → get t' name ≡ (
          if any (λ v. stem v == name) var_names
          then first_of (tag n name) (get t name)
          else get t name)
  unfolding resolve
  get-resolve is_found n [] t t' name e = ap (λ d. get d name) (sym (ok_inj e))
  get-resolve is_found n (v ∷ var_names) t t' name e =
      let u = set_tag (tag n (stem v)) (stem v) t in
      let (w, first, rest) =
        try-ok (check_bound (is_unbound n (stem v)) (has_dot (split v)) (is_found (stem v)) u)
          (resolve is_found n var_names) t' e in
      let same : u ≡ w =
        check_bound-same (is_unbound n (stem v)) (has_dot (split v)) (is_found (stem v)) u w
          first in
      let ih = get-resolve is_found n var_names w t' name rest in
      let at : get w name
          ≡ (if stem v == name then first_of (tag n (stem v)) (get t name) else get t name) =
        ap (λ d. get d name) (sym same) ∙ get-set_tag (tag n (stem v)) (stem v) name t in
      elim (Bool-cases (stem v == name)) [
        | inl h ↦
            let at' : get w name ≡ first_of (tag n name) (get t name) =
              at
              ∙ ap (λ b. if b then first_of (tag n (stem v)) (get t name) else get t name) h
              ∙ ap (λ s. first_of (tag n s) (get t name)) ((eq_iff (stem v) name).0 h) in
            ground (arith, h, ih, at', first_of-twice (tag n name) (get t name))
        | inr h ↦ ground (arith, h, ih, at)
      ]
