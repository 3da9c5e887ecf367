-- ===== src/Interpreter/Names.antt =====
-- Names in a function that eval.py runs: `ast_name` on load, the assignment to a name in
-- `recurse_assign`, and `ast_delete`. The function's table and the context's are different objects;
-- a variable that closures share is the cell of one of them here.
use text.Mathlib.TextEquality.{eq_iff}
use pyscript.Base.{
  String, ◌==◌, string_key, nat_key, Bool, true, ◌≡◌, refl, Option, none, some, List, arith,
  if◌then◌else◌,
}
use pyscript.Base.Dict.{Dict, get, put, remove, get-put}
use pyscript.Base.Lists.{contains}
use pyscript.Base.Result.{Error, name_error, Result, ok, err}

-- an entry of the function's table: a value, or an `EvalLocalVar`, which may be undefined
pub data Cell (V : Type 0) : Type 0 where
  plain : V → Cell V
  local_var : Option V → Cell V

-- the tables that a name is looked up in, and the names that the function declares
pub record Scope (V : Type 0) : Type 0 where
  pub sym_table : Dict String (Cell V)
  pub local_sym_table : Dict String V
  pub global_sym_table : Dict String V
  pub global_names : List String
  pub local_names : List String

-- What a load finds: a value, an exception, or nothing in the tables, where the builtin names,
-- the functions of pyscript and the state variables come next.
pub data Loaded (V : Type 0) : Type 0 where
  found : V → Loaded V
  fails : Error → Loaded V
  elsewhere : Loaded V

same_listed : (l : List String) (n m : String) → (n == m) ≡ true → contains l n ≡ contains l m
same_listed l n m h = ground (arith, h, eq_iff n m)

module _ {V : Type 0} where
  -- `EvalLocalVar.get`
  abbrev pub cell_get : Cell V → Loaded V
  cell_get (plain v) = found v
  cell_get (local_var (some v)) = found v
  cell_get (local_var none) = fails name_error

  abbrev pub global_get : Option V → Loaded V
  global_get none = fails name_error
  global_get (some v) = found v

  abbrev pub from_global : Option V → Bool → Loaded V
  from_global none declared = elsewhere
  from_global (some v) declared = if declared then fails name_error else found v

  abbrev pub from_local : Option V → Loaded V → Loaded V
  from_local none next = next
  from_local (some v) next = found v

  abbrev pub from_cell : Option (Cell V) → Loaded V → Loaded V
  from_cell none next = next
  from_cell (some c) next = cell_get c

  -- `ast_name` on load, in the tables
  unfoldable pub ast_name : String → Scope V → Loaded V
  ast_name id s =
      if contains s.global_names id
      then global_get (get s.global_sym_table id)
      else from_cell (get s.sym_table id) (
          from_local (get s.local_sym_table id)
            (from_global (get s.global_sym_table id) (contains s.local_names id)))

  -- `EvalLocalVar.set`, or a new value
  abbrev pub cell_set : Option (Cell V) → V → Cell V
  cell_set (some (local_var o)) v = local_var (some v)
  cell_set c v = plain v

  -- `recurse_assign` of a name without dots
  unfoldable pub assign_name : String → V → Scope V → Scope V
  assign_name var_name v s =
      if contains s.global_names var_name
      then record s { global_sym_table = put s.global_sym_table var_name v }
      else record s { sym_table = put s.sym_table var_name (cell_set (get s.sym_table var_name) v) }

  abbrev pub delete_cell : String → Option (Cell V) → Scope V → Result (Scope V)
  delete_cell id none s = err name_error
  delete_cell id (some (plain v)) s = ok (record s { sym_table = remove s.sym_table id })
  delete_cell id (some (local_var (some v))) s =
      ok (record s { sym_table = put s.sym_table id (local_var none) })
  delete_cell id (some (local_var none)) s = err name_error

  -- `ast_delete` of a name
  unfoldable pub delete_name : String → Scope V → Result (Scope V)
  delete_name id s =
      if contains s.global_names id
      then ok (record s { global_sym_table = remove s.global_sym_table id })
      else delete_cell id (get s.sym_table id) s

  cell_get-cell_set : (c : Option (Cell V)) (v : V) → cell_get (cell_set c v) ≡ found v
  cell_get-cell_set none v = refl
  cell_get-cell_set (some (plain w)) v = refl
  cell_get-cell_set (some (local_var o)) v = refl

  -- After an assignment to a name a load of it finds the value, and a load of another name finds
  -- what it found before, whichever of them are declared global.
  pub ast_name-assign_name :
      (n m : String) (v : V) (s : Scope V)
      → ast_name m (assign_name n v s) ≡ (if n == m then found v else ast_name m s)
  unfolding ast_name assign_name
  ast_name-assign_name n m v s = ground (
    arith,
    get-put s.global_sym_table n m v,
    get-put s.sym_table n m (cell_set (get s.sym_table n) v),
    cell_get-cell_set (get s.sym_table n) v,
    same_listed s.global_names n m,
  )
