-- ===== src/Contexts/Unchanged.antt =====
-- A reload where no file has changed.
use pyscript.Base.{
  String, nat_key, string_key, Bool, true, false, not, ◌&&◌, ◌≡◌, refl, ap, Option, none, some,
  List, [], ◌∷◌, arith, map,
}
use pyscript.Base.Dict.{get, has}
use pyscript.Base.Lists.{all, any, contains}
use pyscript.Contexts.{GlobalContext, Contexts}
use pyscript.Contexts.Reload.{
  SourceFile, Files, is_unchanged, mark_file, missing_files, changed_files, mark_files, will_reload,
  follow_imports, reduce_packages, is_forced, plan, root_of_name, after_mark,
}

abbrev pub known : Option GlobalContext → SourceFile → Bool
known none f = false
known (some c) f = is_unchanged c f

-- every file is one that a context was loaded from, as it is, and not yet marked
abbrev pub all_known : Contexts → Files → Bool
all_known ctx_all files = all (λ kv. known (get ctx_all kv.0) kv.1 && not kv.1.force) files

-- every context has its file
abbrev pub all_present : Contexts → Files → Bool
all_present ctx_all files = all (λ kv. has files kv.0) ctx_all

missing-none :
    (ctx_all : Contexts) (files : Files)
    → all_present ctx_all files ≡ true
    → missing_files ctx_all files ≡ []
missing-none [] files h = refl
missing-none ((n, c) ∷ ctx_all) files h = ground (arith, missing-none ctx_all files)

changed-none :
    (ctx_all : Contexts) (files : Files)
    → all_known ctx_all files ≡ true
    → changed_files ctx_all files ≡ []
unfolding changed_files
changed-none ctx_all [] h = refl
changed-none ctx_all ((n, f) ∷ files) h = ground (arith, changed-none ctx_all files)

mark_file-known : (o : Option GlobalContext) (f : SourceFile) → known o f ≡ true → mark_file o f ≡ f
mark_file-known none f h = ground arith
mark_file-known (some c) f h = ground arith

mark_files-known :
    (ctx_all : Contexts) (files : Files)
    → all_known ctx_all files ≡ true
    → mark_files ctx_all files ≡ files
unfolding mark_files
mark_files-known ctx_all [] h = refl
mark_files-known ctx_all ((n, f) ∷ files) h =
    ground (arith, mark_files-known ctx_all files, mark_file-known (get ctx_all n) f)

will_reload-none :
    (ctx_all : Contexts) (files : Files)
    → all_known ctx_all files ≡ true
    → will_reload [] files ≡ []
unfolding will_reload
will_reload-none ctx_all [] h = refl
will_reload-none ctx_all ((n, f) ∷ files) h = ground (arith, will_reload-none ctx_all files)

module _ (imports : String → List String) where
  contains-nothing_roots :
      (mods : List String) → any (λ m. contains [] (root_of_name m)) mods ≡ false
  contains-nothing_roots [] = refl
  contains-nothing_roots (m ∷ mods) = contains-nothing_roots mods

  follow_imports-none :
      (names : List String) (x : List String × Files) → follow_imports imports [] names x ≡ x
  unfolding follow_imports
  follow_imports-none [] (ctx_delete, files) = refl
  follow_imports-none (name ∷ names) (ctx_delete, files) =
      ground (
        arith,
        contains-nothing_roots (imports name),
        follow_imports-none names (ctx_delete, files),
      )

  is_forced-none :
      (ctx_all : Contexts) (files : Files) (name : String)
      → all_known ctx_all files ≡ true
      → is_forced imports (get files name) ≡ false
  unfolding get
  is_forced-none ctx_all [] name h = refl
  is_forced-none ctx_all ((n, f) ∷ files) name h = ground (arith, is_forced-none ctx_all files name)

  reduce_packages-none :
      (ctx_all : Contexts) (files : Files) (names done : List String)
      → all_known ctx_all files ≡ true
      → reduce_packages imports names done ([], files) ≡ ([], files)
  unfolding reduce_packages
  reduce_packages-none ctx_all files [] done h = refl
  reduce_packages-none ctx_all files (name ∷ names) done h =
      ground (
        arith,
        is_forced-none ctx_all files name h,
        reduce_packages-none ctx_all files names done h,
      )

  -- A reload of no context by name, where every context has its file and every file is as it was
  -- when its context was loaded, deletes no context and marks no file for loading.
  pub plan-unchanged :
      (ctx_all : Contexts) (files : Files)
      → all_present ctx_all files ≡ true
      → all_known ctx_all files ≡ true
      → plan imports none ctx_all files ≡ some ([], files)
  unfolding plan
  plan-unchanged ctx_all files p k =
      rw
        (
          missing-none ctx_all files p,
          changed-none ctx_all files k,
          mark_files-known ctx_all files k,
        )
        rest
    where
      rest : after_mark imports ctx_all (some ([], files)) ≡ some ([], files)
      rest =
          rw
            (
              will_reload-none ctx_all files k,
              follow_imports-none (map (λ kv. kv.0) ctx_all) ([], files),
            )
            (ap some (reduce_packages-none ctx_all files (map (λ kv. kv.0) files) [] k))
