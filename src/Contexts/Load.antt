-- ===== src/Contexts/Load.antt =====
-- `GlobalContextMgr.load_file`, and the start and unloading of contexts in
-- custom_components/pyscript/__init__.py.
use pyscript.Base.{
  ℕ, String, ◌==◌, nat_key, string_key, Bool, true, false, ◌&&◌, ◌||◌, Option, none, some, List, [],
  ◌∷◌, ◌++◌, if◌then◌else◌,
}
use Prim.Native.String.{◌++◌ as text_append}
use pyscript.Base.Dict.{get, put}
use pyscript.Base.Lists.{contains}
use pyscript.Base.Text.{split, starts_with}
use pyscript.Contexts.{GlobalContext, Contexts, Effect, start, stop, delete}

-- the file as it is read or given
abbrev pub or_mtime : Option ℕ → Option ℕ → Option ℕ
or_mtime none old = old
or_mtime (some t) old = some t

-- What the run of a script comes to: the context after it, the contexts, as an import of a module
-- loads others, with what that starts and stops, and whether it raised.
pub record Ran : Type 0 where
  pub context : GlobalContext
  pub contexts : Contexts
  pub effects : List Effect
  pub raises : Bool

-- What `load_file` comes to: nothing to load, an exception, or a context that is loaded.
pub data Outcome : Type 0 where
  unread failed loaded : Outcome

-- the old context of that name, which is stopped and deleted
unfoldable pub destroy : Option GlobalContext → String → Contexts → List Effect × Contexts
destroy none name contexts = ([], contexts)
destroy (some ctx_curr) name contexts =
    let (effects, stopped) = stop ctx_curr in
    let (effects', contexts') = delete name (put contexts name stopped) in
    (effects ++ effects', contexts')

module _ (run : GlobalContext → Contexts → Ran) where
  abbrev pub with_source : GlobalContext → String → String → Option ℕ → GlobalContext
  with_source c file_path source mtime = record c {
    source = some source;
    file_path = some file_path;
    mtime = or_mtime mtime c.mtime;
  }

  abbrev pub finish : String → Ran → List Effect → Outcome × (List Effect × Contexts)
  finish name r effects =
      if r.raises
      then (failed, (effects ++ r.effects ++ (stop r.context).0, r.contexts))
      else (loaded, (effects ++ r.effects, put r.contexts name r.context))

  -- `load_file`, of a source that is given or read, with its time where it is read
  unfoldable pub load_file :
      GlobalContext
      → String
      → Option String
      → Option ℕ
      → Contexts
      → Outcome × (List Effect × Contexts)
  unfolding destroy
  load_file c file_path none mtime contexts = (unread, ([], contexts))
  load_file c file_path (some source) mtime contexts =
      let (effects, contexts') = destroy (get contexts c.name) c.name contexts in
      finish c.name (run (with_source c file_path source mtime) contexts') effects

-- `global_ctx_name[0:idx]` is one of the kinds of files
abbrev pub kinds : List String
kinds = "file" ∷ "apps" ∷ "modules" ∷ "scripts" ∷ []

abbrev pub kind_of : List String → Bool
kind_of (kind ∷ part ∷ parts) = contains kinds kind
kind_of parts = false

unfoldable pub is_file_context : String → Bool
is_file_context name = kind_of (split name)

-- the context is the one that is asked for, or below it
abbrev pub is_or_below : String → String → Bool
is_or_below only name = name == only || starts_with (text_append only ".") name

abbrev pub to_start : Option String → String → Bool
to_start none name = true
to_start (some only) name = only == "*" || is_or_below only name

abbrev pub started : GlobalContext → GlobalContext
started c = (start (record c { auto_start = true })).1

-- `start_global_contexts`; `GlobalContextMgr.items` sorts the contexts, by which they are started
unfoldable pub start_global_contexts : Option String → Contexts → List Effect × Contexts
start_global_contexts only [] = ([], [])
start_global_contexts only ((name, c) ∷ contexts) =
    let (effects, contexts') = start_global_contexts only contexts in
    if is_file_context name && to_start only name
    then ((start c).0 ++ effects, (name, started c) ∷ contexts')
    else (effects, (name, c) ∷ contexts')

abbrev pub to_unload : Option String → Bool → String → Bool
to_unload none unload_all name = unload_all || is_file_context name
to_unload (some only) unload_all name =
    (unload_all || is_file_context name) && is_or_below only name

-- `unload_scripts`, less the second stop of each context, which finds nothing to stop
unfoldable pub unload_scripts : Option String → Bool → Contexts → List Effect × Contexts
unload_scripts only unload_all [] = ([], [])
unload_scripts only unload_all ((name, c) ∷ contexts) =
    let (effects, contexts') = unload_scripts only unload_all contexts in
    if to_unload only unload_all name
    then ((stop c).0 ++ effects, contexts')
    else (effects, (name, c) ∷ contexts')
