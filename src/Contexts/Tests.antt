-- ===== src/Contexts/Tests.antt =====
-- Contexts on small inputs.
use pyscript.Base.{
  ℕ, ap, sym, some_inj, ◌<◌, ◌∙◌, String, arith, ◌↔◌, ◌⊎◌, inl, inr, Bool-cases, List, Option,
  if◌then◌else◌, ◌==◌, nat_key, string_key, true, false, ◌≡◌, refl, none, some, [], ◌∷◌,
}
use text.Mathlib.TextEquality.{eq_iff}
use mathlib.Core.Path.{subst}
use pyscript.Base.Lists.{contains}
use pyscript.Base.Dict.{Dict, get, put, remove}
use pyscript.Contexts.Recurse.{collect_imports, imports_of}
use pyscript.Contexts.Reached.{Reach}
use pyscript.Contexts.Followed.{follow_imports-collect_imports}
use pyscript.Base.Result.{ok}
use pyscript.Contexts.{GlobalContext, Contexts, Effect, delete}
use pyscript.Contexts.Import.{module_import, to_load}
use pyscript.Contexts.Load.{Ran, destroy, load_file}
use pyscript.Contexts.Loaded.{ran, stops, Happens, get-load_file}
use pyscript.Contexts.Reload.{Files, follow_imports, root_of_name, plan}
use pyscript.Contexts.Unchanged.{plan-unchanged}

abbrev a_context : GlobalContext
a_context = record {
  name = "file.a";
  triggers = 1 ∷ 2 ∷ [];
  triggers_delay_start = [];
  dms = 3 ∷ [];
  dms_delay_start = [];
  auto_start = true;
  has_module = false;
  rel_import_path = none;
  source = some "x = 1";
  file_path = none;
  mtime = some 7;
  app_config = none;
  imports = [];
}

-- a script that raises
abbrev raising : GlobalContext → Contexts → Ran
raising c contexts = record { context = c; contexts = contexts; effects = []; raises = true }

abbrev one_context : Contexts
one_context = ("file.a", a_context) ∷ []

get-load_file_example :
    let r = ran raising a_context "a.py" "x =" none one_context in
    let l = load_file raising a_context "a.py" (some "x =") none one_context in
    (get (destroy (get one_context "file.a") "file.a" one_context).1 "file.a" ≡ none)
    × ((j : String)
        → get l.1.1 j ≡ (
            if "file.a" == j
            then (if r.raises then none else some r.context)
            else get r.contexts j))
    × ((e : Effect) → r.raises ≡ true → stops r.context e ≡ true → Happens e l.1.0)
unfolding destroy delete get remove put
get-load_file_example = get-load_file raising a_context "a.py" "x =" none one_context refl

abbrev one_file : Files
one_file =
    (
      "file.a",
      record {
        rel_path = "a.py";
        app_config = none;
        source = "x = 1";
        mtime = 7;
        autoload = true;
        force = false;
      },
    )
    ∷ []

plan-unchanged_example :
    plan (λ name. []) none (("file.a", a_context) ∷ []) one_file ≡ some ([], one_file)
unfolding get
plan-unchanged_example = plan-unchanged (λ name. []) (("file.a", a_context) ∷ []) one_file refl refl

-- an import inside a package takes the file beside it
abbrev an_app : GlobalContext
an_app = record a_context { name = "apps.lights"; rel_import_path = some "apps/lights/__init__" }

module_import_test :
    module_import (λ path. path == "apps/lights/util.py") [] an_app "util" 1
    ≡ ok (
        to_load (record {
          ctx_name = "apps.lights.util";
          path = "apps/lights/util.py";
          rel_path = some "apps/lights";
        }))
unfolding module_import get
module_import_test = refl

-- `file.a` imports `modules.b`, which imports `modules.c`
abbrev some_imports : String → Option (List String)
some_imports name =
    if name == "file.a"
    then some ("modules.b" ∷ [])
    else if name == "modules.b"
    then some ("modules.c" ∷ [])
    else none

abbrev a_rank : String → ℕ
a_rank name = if name == "file.a" then 2 else if name == "modules.b" then 1 else 0

only_import :
    (name y : String) (l : List String)
    → some_imports name ≡ some l
    → (n : String) → some_imports name ≡ some (n ∷ [])
    → contains l y ≡ true
    → a_rank y ≡ a_rank n
only_import name y l e n e' c =
    let own : contains (n ∷ []) y ≡ true =
      subst (λ k. contains k y ≡ true) (some_inj (sym e ∙ e')) c in
    ap a_rank (sym ((eq_iff n y).0 (ground (arith, own))))

a_rank-some_imports :
    (x y : String) (l : List String)
    → some_imports x ≡ some l
    → contains l y ≡ true
    → a_rank y < a_rank x
a_rank-some_imports x y l e c = elim (Bool-cases (x == "file.a")) [
  | inl a ↦ ground (arith, a, only_import x y l e "modules.b" (ground (arith, a)) c)
  | inr other ↦ elim (Bool-cases (x == "modules.b")) [
    | inl b ↦ ground (arith, other, b, only_import x y l e "modules.c" (ground (arith, other, b)) c)
    | inr neither ↦ ground (arith, other, neither, e)
  ]
]

follow_imports-collect_imports_example :
    (found : Dict String (List String)) × (collect_imports some_imports 3 ("file.a" ∷ []) []
      ≡ some found)
    × ((name : String)
        → (contains
              (follow_imports
                (imports_of found)
                ("modules.c" ∷ [])
                ("file.a" ∷ [])
                ([], one_file)).0
              name
            ≡ true)
          ↔ ((contains [] name ≡ true)
              ⊎ ((contains ("file.a" ∷ []) name ≡ true)
                  × ((mod_name : String) × Reach some_imports name mod_name
                      × (contains ("modules.c" ∷ []) (root_of_name mod_name) ≡ true)))))
follow_imports-collect_imports_example =
    follow_imports-collect_imports some_imports a_rank a_rank-some_imports 3 ("file.a" ∷ [])
      ("modules.c" ∷ []) [] one_file (λ z h. ground arith)
