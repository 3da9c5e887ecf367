-- ===== src/Contexts/Reload.antt =====
-- What `load_scripts` of custom_components/pyscript/__init__.py unloads and loads, once the files are
-- read: by the context that is asked for, by what has changed, by imports, and by package.
use pyscript.Base.{
  ℕ, String, ◌==◌, nat_key, string_key, Bool, true, false, not, ◌&&◌, ◌||◌, Option, none, some,
  List, [], ◌∷◌, ◌++◌, map, if◌then◌else◌,
}
use Prim.Native.String.{◌++◌ as text_append}
use pyscript.Base.Dict.{Dict, get, has}
use pyscript.Base.Lists.{any, contains, keep}
use pyscript.Base.Bag.{add}
use pyscript.Base.Text.{split, dotted, starts_with}
use pyscript.Contexts.{GlobalContext, Contexts}

-- `SourceFile`, as far as the plan reads it
pub record SourceFile : Type 0 where
  pub rel_path : String
  pub app_config : Option ℕ
  pub source : String
  pub mtime : ℕ
  pub autoload : Bool
  pub force : Bool

abbrev pub Files : Type 0
Files = Dict String SourceFile

abbrev pub forced : Bool → SourceFile → SourceFile
forced b f = record f { force = b }

-- `ctx2files[name].force = b`, where the file is there
abbrev pub force_file : Bool → String → Files → Files
force_file b name files = map (λ kv. (kv.0, if kv.0 == name then forced b kv.1 else kv.1)) files

abbrev pub same_text : Option String → String → Bool
same_text none s = false
same_text (some t) s = t == s

abbrev pub same_number : Option ℕ → Option ℕ → Bool
same_number none none = true
same_number (some a) (some b) = a == b
same_number _ _ = false

-- neither the source nor the configuration nor the time of a file differs from the context's
abbrev pub is_unchanged : GlobalContext → SourceFile → Bool
is_unchanged c f =
    same_text c.source f.source
    && same_number c.app_config f.app_config
    && same_number c.mtime (some f.mtime)

-- a file where no context is asked for
abbrev pub mark_file : Option GlobalContext → SourceFile → SourceFile
mark_file none f = forced f.autoload f
mark_file (some c) f = if is_unchanged c f then f else forced true f

abbrev pub is_changed : Option GlobalContext → SourceFile → Bool
is_changed none f = false
is_changed (some c) f = not (is_unchanged c f)

abbrev pub missing_files : Contexts → Files → List String
missing_files ctx_all files = keep (λ name. not (has files name)) (map (λ kv. kv.0) ctx_all)

unfoldable pub changed_files : Contexts → Files → List String
changed_files ctx_all [] = []
changed_files ctx_all ((name, f) ∷ files) =
    let rest = changed_files ctx_all files in
    if is_changed (get ctx_all name) f then name ∷ rest else rest

unfoldable pub mark_files : Contexts → Files → Files
mark_files ctx_all [] = []
mark_files ctx_all ((name, f) ∷ files) =
    (name, mark_file (get ctx_all name) f) ∷ mark_files ctx_all files

-- The first step: the contexts to delete and the files to load, or nothing where there is no
-- context that is asked for.
abbrev pub mark_only : String → Contexts → Files → Option (List String × Files)
mark_only only ctx_all files =
    if only == "*"
    then some (map (λ kv. kv.0) ctx_all, map (λ kv. (kv.0, forced true kv.1)) files)
    else if has files only
    then some ([], force_file true only files)
    else if has ctx_all only
    then some (only ∷ [], files)
    else none

unfoldable pub mark : Option String → Contexts → Files → Option (List String × Files)
unfolding changed_files mark_files
mark none ctx_all files =
    some (missing_files ctx_all files ++ changed_files ctx_all files, mark_files ctx_all files)
mark (some only) ctx_all files = mark_only only ctx_all files

-- `f"{parts[0]}.{parts[1]}"`
abbrev pub root_of_parts : List String → String
root_of_parts (a ∷ b ∷ parts) = dotted a b
root_of_parts parts = ""

abbrev pub root_of_name : String → String
root_of_name name = root_of_parts (split name)

-- the modules that are reloaded
unfoldable pub will_reload : List String → Files → List String
will_reload ctx_delete [] = []
will_reload ctx_delete ((name, f) ∷ files) =
    let rest = will_reload ctx_delete files in
    if starts_with "modules." name && (contains ctx_delete name || f.force)
    then add rest (root_of_name name)
    else rest

-- The second step: contexts that import one of these. `imports` are what `import_recurse` collects,
-- which Contexts/Recurse computes.
module _ (imports : String → List String) where
  unfoldable pub follow_imports :
      List String → List String → List String × Files → List String × Files
  follow_imports reloaded [] (ctx_delete, files) = (ctx_delete, files)
  follow_imports reloaded (name ∷ names) (ctx_delete, files) = follow_imports reloaded names (
      if any (λ mod_name. contains reloaded (root_of_name mod_name)) (imports name)
      then (add ctx_delete name, force_file true name files)
      else (ctx_delete, files))

  -- the path of a package's own file
  abbrev pub package_paths : List String → List String
  package_paths (a ∷ b ∷ parts) =
      text_append a (text_append "/" (text_append b "/__init__.py"))
      ∷ text_append a (text_append "/" (text_append b ".py"))
      ∷ []
  package_paths parts = []

  abbrev pub in_package : String → String → Bool
  in_package root name = name == root || starts_with (text_append root ".") name

  -- all the files of one package: only its own file is loaded
  abbrev pub reduce_package : String → List String → Files → Files
  reduce_package root paths files =
      map
        (λ kv.
          (kv.0, if in_package root kv.0 then forced (contains paths kv.1.rel_path) kv.1 else kv.1))
        files

  abbrev pub add_package : String → List String → List String → List String
  add_package root [] ctx_delete = ctx_delete
  add_package root (name ∷ names) ctx_delete =
      add_package root names (if in_package root name then add ctx_delete name else ctx_delete)

  abbrev pub is_forced : Option SourceFile → Bool
  is_forced none = false
  is_forced (some f) = f.force

  abbrev pub is_packaged : String → Bool
  is_packaged name = starts_with "apps." name || starts_with "modules." name

  -- The third step, over the names of the files, with the packages that are done.
  unfoldable pub reduce_packages :
      List String → List String → List String × Files → List String × Files
  reduce_packages [] done (ctx_delete, files) = (ctx_delete, files)
  reduce_packages (name ∷ names) done (ctx_delete, files) =
      let root = root_of_name name in
      let now = is_forced (get files name) && is_packaged name && not (contains done root) in
      reduce_packages names (if now then root ∷ done else done) (
        if now
        then (
          add_package root (map (λ kv. kv.0) files) ctx_delete,
          reduce_package root (package_paths (split name)) files,
        )
        else (ctx_delete, files))

  abbrev pub after_mark : Contexts → Option (List String × Files) → Option (List String × Files)
  after_mark ctx_all none = none
  after_mark ctx_all (some (ctx_delete, files)) =
      let followed =
        follow_imports (will_reload ctx_delete files) (map (λ kv. kv.0) ctx_all)
          (ctx_delete, files) in
      some (reduce_packages (map (λ kv. kv.0) followed.1) [] followed)

  -- the contexts that `load_scripts` deletes, and the files with what it loads
  unfoldable pub plan : Option String → Contexts → Files → Option (List String × Files)
  unfolding mark follow_imports reduce_packages
  plan only ctx_all files = after_mark ctx_all (mark only ctx_all files)

-- the files that are loaded, to be sorted by name
abbrev pub to_load : Files → List String
to_load files = map (λ kv. kv.0) (keep (λ kv. kv.1.autoload && kv.1.force) files)
