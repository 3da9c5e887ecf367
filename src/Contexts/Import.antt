-- ===== src/Contexts/Import.antt =====
-- `module_import` of global_ctx.py: the files that an import may mean, and which of them it takes.
use Prim.Native.Char.{Char, code}
use Prim.Native.String.{◌++◌ as text_append}
use pyscript.Base.{
  ℕ, zero, suc, String, ◌==◌, nat_key, string_key, Bool, false, ◌||◌, Option, none, some, List, [],
  ◌∷◌, ◌++◌, if◌then◌else◌, is_some,
}
use pyscript.Base.Dict.{get}
use pyscript.Base.Text.{starts_with}
use pyscript.Base.Result.{import_error, Result, ok, err}
use pyscript.Contexts.{GlobalContext, Contexts}

-- `s[:s.rfind(c)]`, where there is one
abbrev pub before_in : ℕ → Char → Option String → Option String
before_in c d (some s) = some (String.◌∷◌ d s)
before_in c d none = if code d == c then some String.[] else none

unfoldable pub before_last : ℕ → String → Option String
before_last c String.[] = none
before_last c (String.◌∷◌ d s) = before_in c d (before_last c s)

-- `s[s.find(c) + 1:]`, all of it where there is none
unfoldable pub after_first : ℕ → String → Option String
after_first c String.[] = none
after_first c (String.◌∷◌ d s) = let rest = after_first c s in if code d == c then some s else rest

abbrev pub or_text : Option String → String → String
or_text none d = d
or_text (some s) d = s

-- `os.path.dirname`, of a path without double slashes
abbrev pub dirname : String → String
dirname path = or_text (before_last b'/' path) ""

-- `module_name.replace(".", "/")`
unfoldable pub slashes : String → String
slashes String.[] = String.[]
slashes (String.◌∷◌ c s) =
    if code c == b'.' then text_append "/" (slashes s) else String.◌∷◌ c (slashes s)

-- `s.endswith(suffix)`
unfoldable pub ends_with : String → String → Bool
ends_with suffix String.[] = suffix == ""
ends_with suffix (String.◌∷◌ c s) = suffix == String.◌∷◌ c s || ends_with suffix s

-- a file that may be meant: the context's name, the path, and the path for its own imports
pub record Candidate : Type 0 where
  pub ctx_name : String
  pub path : String
  pub rel_path : Option String

-- one level up, or `ImportError`
abbrev pub up_in : Option String → String → Option (String × String)
up_in none path = none
up_in (some name) path = if is_some (before_last b'/' path) then some (path, name) else none

abbrev pub then_up :
    Option (String × String)
    → (String → String → Option (String × String))
    → Option (String × String)
then_up none next = none
then_up (some (path, name)) next = next path name

unfoldable pub climb : ℕ → String → String → Option (String × String)
climb zero path ctx_name = some (path, ctx_name)
climb (suc n) path ctx_name = then_up (up_in (before_last b'.' ctx_name) (dirname path)) (climb n)

abbrev pub join3 : String → String → String → String
join3 a b c = text_append a (text_append b c)

abbrev pub package_dir : String → String
package_dir path = if ends_with "/__init__" path then dirname path else path

abbrev pub relative_in : String → Option (String × String) → Result (List Candidate × String)
relative_in module_name none = err import_error
relative_in module_name (some (path, name)) =
    let ctx_name = join3 name "." module_name in
    let below = join3 path "/" (slashes module_name) in
    ok (
      record { ctx_name = ctx_name; path = text_append below "/__init__.py"; rel_path = some below }
          ∷ record { ctx_name = ctx_name; path = text_append below ".py"; rel_path = some path }
          ∷ [],
      or_text (after_first b'.' ctx_name) ctx_name,
    )

-- the files of a relative import of some levels, and the module's name
abbrev pub relative : Option String → String → String → ℕ → Result (List Candidate × String)
relative none name module_name levels = err import_error
relative (some path) name module_name levels =
    relative_in module_name (climb levels (package_dir path) name)

abbrev pub in_app : Option String → Bool
in_app none = false
in_app (some path) = starts_with "apps/" path

abbrev pub app_files : String → List Candidate
app_files module_name =
    let base = text_append "apps/" (slashes module_name) in
    let ctx_name = text_append "apps." module_name in
    record { ctx_name = ctx_name; path = text_append base "/__init__.py"; rel_path = some base }
    ∷ record { ctx_name = ctx_name; path = text_append base ".py"; rel_path = some base }
    ∷ []

abbrev pub module_files : String → List Candidate
module_files module_name =
    let base = text_append "modules/" (slashes module_name) in
    let ctx_name = text_append "modules." module_name in
    record { ctx_name = ctx_name; path = text_append base "/__init__.py"; rel_path = some base }
    ∷ record { ctx_name = ctx_name; path = text_append base ".py"; rel_path = none }
    ∷ []

-- The files for an import, by the order in which they are looked for, and the module's name.
unfoldable pub file_paths : GlobalContext → String → ℕ → Result (List Candidate × String)
unfolding climb slashes ends_with before_last after_first
file_paths c module_name zero = ok (
  (if in_app c.rel_import_path then app_files module_name else []) ++ module_files module_name,
  module_name,
)
file_paths c module_name (suc levels) = relative c.rel_import_path c.name module_name levels

-- the first candidate whose context is loaded as a module
abbrev pub is_module : Option GlobalContext → Bool
is_module none = false
is_module (some c) = c.has_module

abbrev pub first_found : (Candidate → Bool) → List Candidate → Option Candidate
first_found p [] = none
first_found p (x ∷ xs) = if p x then some x else first_found p xs

-- What an import takes: a module that is loaded, a file to load, or nothing.
pub data Import : Type 0 where
  loaded_module to_load : Candidate → Import
  not_found : Import

abbrev pub or_file : Option Candidate → Option Candidate → Import
or_file (some x) o = loaded_module x
or_file none (some x) = to_load x
or_file none none = not_found

abbrev pub take_file : (String → Bool) → Contexts → Result (List Candidate × String) → Result Import
take_file is_file contexts (err e) = err e
take_file is_file contexts (ok (candidates, name)) = ok (
    or_file (first_found (λ x. is_module (get contexts x.ctx_name)) candidates)
      (first_found (λ x. is_file x.path) candidates))

-- `module_import` up to the load of a file; `is_file` is about paths in pyscript's folder
unfoldable pub module_import :
    (String → Bool) → Contexts → GlobalContext → String → ℕ → Result Import
unfolding file_paths
module_import is_file contexts c module_name import_level =
    take_file is_file contexts (file_paths c module_name import_level)
