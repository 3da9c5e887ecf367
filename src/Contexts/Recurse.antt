-- ===== src/Contexts/Recurse.antt =====
-- Which contexts a context imports, directly or through others
-- (custom_components/pyscript/__init__.py): `import_recurse` in `load_scripts`. A set is a list,
-- which may repeat a name.
use pyscript.Base.{
  ℕ, zero, suc, String, string_key, Bool, ◌||◌, Option, none, some, List, [], ◌∷◌, ◌++◌,
  if◌then◌else◌,
}
use pyscript.Base.Dict.{Dict, get, put, has}
use pyscript.Base.Lists.{contains}

pub record Walk : Type 0 where
  pub visited : List String
  pub ctx2imports : Dict String (List String)

abbrev pub or_nothing : Option (List String) → List String
or_nothing none = []
or_nothing (some l) = l

-- `ctx2imports.get(ctx_name, set())`
abbrev pub imports_in : Walk → String → List String
imports_in w ctx_name = or_nothing (get w.ctx2imports ctx_name)

abbrev pub is_known : Walk → String → Bool
is_known w ctx_name = contains w.visited ctx_name || has w.ctx2imports ctx_name

-- `ctx2imports[ctx_name].update(...)`
abbrev pub note : String → List String → Walk → Walk
note ctx_name names w = record w {
  ctx2imports = put w.ctx2imports ctx_name (imports_in w ctx_name ++ names);
}

-- a call, with the walk after it; none where the fuel does not last
abbrev pub Recurse : Type 0
Recurse = String → Walk → Option (List String × Walk)

abbrev pub and_rest : Option (List String × Walk) → (List String → Walk → Option Walk) → Option Walk
and_rest none rest = none
and_rest (some r) rest = rest r.0 r.1

-- the loop over `ctx.get_imports()`
unfoldable pub each_import : Recurse → String → List String → Walk → Option Walk
each_import recurse ctx_name [] w = some w
each_import recurse ctx_name (imp_name ∷ imports) w =
    and_rest (recurse imp_name (note ctx_name (imp_name ∷ []) w))
      (λ names w'. each_import recurse ctx_name imports (note ctx_name names w'))

abbrev pub with_imports : String → Option Walk → Option (List String × Walk)
with_imports ctx_name none = none
with_imports ctx_name (some w) = some (imports_in w ctx_name, w)

-- where the context is new: `get_imports` gives none where there is no such context
abbrev pub visit : Recurse → String → Option (List String) → Walk → Option (List String × Walk)
visit recurse ctx_name none w = some ([], record w { visited = ctx_name ∷ w.visited })
visit recurse ctx_name (some imports) w = with_imports ctx_name (
    each_import recurse ctx_name imports
      (record { visited = ctx_name ∷ w.visited; ctx2imports = put w.ctx2imports ctx_name [] }))

-- `import_recurse`
unfoldable pub import_recurse : (String → Option (List String)) → ℕ → Recurse
unfolding each_import
import_recurse get_imports zero ctx_name w = none
import_recurse get_imports (suc fuel) ctx_name w =
    let new = visit (import_recurse get_imports fuel) ctx_name (get_imports ctx_name) w in
    if is_known w ctx_name then some (imports_in w ctx_name, w) else new

-- a walk that starts from what earlier ones have found: `visited = set()`
abbrev pub new_walk : Dict String (List String) → Walk
new_walk ctx2imports = record { visited = []; ctx2imports = ctx2imports }

abbrev pub after_walk : Option (List String × Walk) → Option (Dict String (List String))
after_walk none = none
after_walk (some r) = some r.1.ctx2imports

-- `ctx2imports` once a context is there
abbrev pub with_context :
    (String → Option (List String))
    → ℕ
    → String
    → Dict String (List String)
    → Option (Dict String (List String))
with_context get_imports fuel name ctx2imports =
    if has ctx2imports name
    then some ctx2imports
    else after_walk (import_recurse get_imports fuel name (new_walk ctx2imports))

abbrev pub add_entry :
    String
    → Dict String (List String)
    → Option (Dict String (List String))
    → Option (Dict String (List String))
add_entry name ctx2imports none = none
add_entry name ctx2imports (some entries) =
    some ((name, or_nothing (get ctx2imports name)) ∷ entries)

abbrev pub entry_and :
    String
    → Option (Dict String (List String))
    → (Dict String (List String) → Option (Dict String (List String)))
    → Option (Dict String (List String))
entry_and name none rest = none
entry_and name (some ctx2imports) rest = add_entry name ctx2imports (rest ctx2imports)

-- The imports of each context, `ctx2imports.get(global_ctx_name, set())` in its round.
unfoldable pub collect_imports :
    (String → Option (List String))
    → ℕ
    → List String
    → Dict String (List String)
    → Option (Dict String (List String))
collect_imports get_imports fuel [] ctx2imports = some []
collect_imports get_imports fuel (name ∷ names) ctx2imports =
    entry_and name (with_context get_imports fuel name ctx2imports)
      (λ found. collect_imports get_imports fuel names found)

abbrev pub imports_of : Dict String (List String) → String → List String
imports_of found name = or_nothing (get found name)
