-- ===== src/Contexts/Loaded.antt =====
-- Which contexts there are, and which triggers run, after a load and an unload.
use text.Mathlib.TextEquality.{eq_iff}
use pyscript.Base.{
  ℕ, String, ◌==◌, nat_key, string_key, Bool, true, not, ◌&&◌, ◌≡◌, refl, ap, Option, none, some,
  List, [], ◌∷◌, ◌++◌, map, false, sym, or_parts, inl, inr, same_refl, arith, if◌then◌else◌,
}
use pyscript.Base.Dict.{get, put, get-put, get-remove}
use pyscript.Base.Lists.{any, contains}
use pyscript.Contexts.{
  GlobalContext, Contexts, Effect, trigger_start, trigger_stop, dm_start, dm_stop, stop, delete,
}
use mathlib.Core.Path.{subst}
use mathlib.Core.Bool.{false≢true}
use pyscript.Contexts.Load.{
  Ran, Outcome, failed, loaded, destroy, with_source, load_file, to_unload, unload_scripts,
}

get-destroy :
    (o : Option GlobalContext) (name : String) (contexts : Contexts) (j : String)
    → get contexts name ≡ o
    → get (destroy o name contexts).1 j ≡ (if name == j then none else get contexts j)
unfolding destroy delete
get-destroy none name contexts j h = ground (arith, h, eq_iff name j)
get-destroy (some c) name contexts j h =
    ground
      (arith, get-remove (put contexts name (stop c).1) name j, get-put contexts name j (stop c).1)

-- a trigger or a manager that the context has is stopped
abbrev pub stops : GlobalContext → Effect → Bool
stops c (trigger_stop t) = contains c.triggers t
stops c (dm_stop d) = contains c.dms d
stops c e = false

pub data Happens (e : Effect) : List Effect → Type 0 where
  now : {effects : List Effect} → Happens e (e ∷ effects)
  later : {d : Effect} {effects : List Effect} → Happens e effects → Happens e (d ∷ effects)

Happens-right : (e : Effect) (xs ys : List Effect) → Happens e ys → Happens e (xs ++ ys)
Happens-right e [] ys h = h
Happens-right e (x ∷ xs) ys h = later (Happens-right e xs ys h)

Happens-left : (e : Effect) (xs ys : List Effect) → Happens e xs → Happens e (xs ++ ys)
Happens-left e [] ys h = elim h [ ]
Happens-left e (x ∷ xs) ys now = now
Happens-left e (x ∷ xs) ys (later h) = later (Happens-left e xs ys h)

Happens-map :
    (f : ℕ → Effect) (ts : List ℕ) (t : ℕ) → contains ts t ≡ true → Happens (f t) (map f ts)
Happens-map f [] t h = elim (false≢true h) [ ]
Happens-map f (u ∷ ts) t h = elim (or_parts (u == t) (contains ts t) h) [
  | inl e ↦ subst (λ v. Happens (f v) (map f (u ∷ ts))) ((nat_key.same_iff u t).0 e) now
  | inr m ↦ later (Happens-map f ts t m)
]

stop-Happens : (c : GlobalContext) (e : Effect) → stops c e ≡ true → Happens e (stop c).0
unfolding stop
stop-Happens c (trigger_stop t) h =
    Happens-left (trigger_stop t) (map trigger_stop c.triggers) (map dm_stop c.dms)
      (Happens-map trigger_stop c.triggers t h)
stop-Happens c (dm_stop d) h =
    Happens-right (dm_stop d) (map trigger_stop c.triggers) (map dm_stop c.dms)
      (Happens-map dm_stop c.dms d h)
stop-Happens c (trigger_start t) h = elim (false≢true h) [ ]
stop-Happens c (dm_start d) h = elim (false≢true h) [ ]

module _ (run : GlobalContext → Contexts → Ran) where
  abbrev pub ran : GlobalContext → String → String → Option ℕ → Contexts → Ran
  ran c file_path source mtime contexts =
      run (with_source run c file_path source mtime)
        (destroy (get contexts c.name) c.name contexts).1

  abbrev ended : Ran → List Effect → String → Bool → Outcome × (List Effect × Contexts)
  ended r effects name b =
      if b
      then (failed, (effects ++ r.effects ++ (stop r.context).0, r.contexts))
      else (loaded, (effects ++ r.effects, put r.contexts name r.context))

  -- A script that raises leaves no context of its name, also where one was loaded before, which is
  -- gone when the script runs, and each trigger and manager that its context has then is stopped. A
  -- script that is loaded is the context of its name. Every other context is what the run has left,
  -- as the imports of a script load modules. The condition is that the run itself makes no context of
  -- the script's name.
  pub get-load_file :
      (c : GlobalContext) (file_path source : String) (mtime : Option ℕ) (contexts : Contexts)
      → let r = ran c file_path source mtime contexts in
        let l = load_file run c file_path (some source) mtime contexts in
        get r.contexts c.name ≡ none
        → (get (destroy (get contexts c.name) c.name contexts).1 c.name ≡ none)
          × ((j : String)
              → get l.1.1 j ≡ (
                  if c.name == j
                  then (if r.raises then none else some r.context)
                  else get r.contexts j))
          × ((e : Effect) → r.raises ≡ true → stops r.context e ≡ true → Happens e l.1.0)
  unfolding load_file
  get-load_file c file_path source mtime contexts n =
      let r = ran c file_path source mtime contexts in
      let d = destroy (get contexts c.name) c.name contexts in
      (
        ground (
          arith,
          get-destroy (get contexts c.name) c.name contexts c.name refl,
          same_refl c.name,
        ),
        λ j. ground (
          arith,
          n,
          get-put r.contexts c.name j r.context,
          λ (e : (c.name == j) ≡ true). ap (get r.contexts) ((eq_iff c.name j).0 e),
        ),
        λ e h s.
            subst (λ b. Happens e (ended r d.0 c.name b).1.0) (sym h)
              (Happens-right e (d.0 ++ r.effects) (stop r.context).0 (stop-Happens r.context e s)),
      )

same_unload :
    (only : Option String) (unload_all : Bool) (n m : String)
    → (n == m) ≡ true
    → to_unload only unload_all n ≡ to_unload only unload_all m
same_unload only unload_all n m h = ap (to_unload only unload_all) ((eq_iff n m).0 h)

-- no context is left that is to be unloaded
abbrev pub is_left : Contexts → String → Bool
is_left contexts name = any (λ kv. kv.0 == name) contexts

-- `unload_scripts` keeps a context exactly where it is not to be unloaded.
is_left-unload_scripts :
    (only : Option String) (unload_all : Bool) (contexts : Contexts) (name : String)
    → is_left (unload_scripts only unload_all contexts).1 name
      ≡ (is_left contexts name && not (to_unload only unload_all name))
unfolding unload_scripts
is_left-unload_scripts only unload_all [] name = ground arith
is_left-unload_scripts only unload_all ((n, c) ∷ contexts) name = ground (
  arith,
  is_left-unload_scripts only unload_all contexts name,
  same_unload only unload_all n name,
)
