-- ===== src/Function/Names.antt =====
-- `task.name2id`: the names of the calling script's context, found by their prefix.
use Prim.Native.Char.{code}
use Prim.Native.String.{◌++◌}
use text.Mathlib.TextLemmas.{append_assoc, nil-append, cons-append, append_cancel_left}
use text.Mathlib.TextEquality.{eq_iff, Char-path}
use pyscript.Base.{
  String, ◌==◌, string_key, nat_key, Bool, true, false, ◌≡◌, refl, ap, sym, ◌∙◌, Option, none, some,
  [], ◌∷◌, arith, if◌then◌else◌, some_inj, Option-cases, Bool-cases, Bool-eq_of_imp, inl, inr,
}
use text.Mathlib.TextPositions.{eq_refl}
use pyscript.Base.Dict.{Dict, get}
use pyscript.Base.Text.{dotted}
use pyscript.Base.Result.{Result, ok, err, name_error}
use pyscript.Function.Tasks.{Task, Tasks, is_ours}
use pyscript.Function.Ownership.{IsValid, task_unique_takes}
use pyscript.Function.Unique.{task_unique}

-- `s[len(prefix):]` if `s.startswith(prefix)`
unfoldable pub strip_prefix : String → String → Option String
strip_prefix String.[] s = some s
strip_prefix (String.◌∷◌ c p) String.[] = none
strip_prefix (String.◌∷◌ c p) (String.◌∷◌ d s) =
    let rest = strip_prefix p s in if code c == code d then rest else none

-- the loop of `task.name2id()`; different names stay different without the prefix
unfoldable pub names_with : String → Dict String Task → Dict String Task
names_with prefix [] = []
names_with prefix ((name, task) ∷ d) =
    let rest = names_with prefix d in
    elim (strip_prefix prefix name) [ none ↦ rest | some short ↦ (short, task) ∷ rest ]

abbrev pub found : Option Task → Result Task
found none = err name_error
found (some task) = ok task

module _ {C X A : Type 0} where
  -- `task.name2id()`
  unfoldable pub name2id_all : String → Tasks C X A → Dict String Task
  unfolding names_with
  name2id_all ctx_name f = names_with (ctx_name ++ ".") f.unique_name2task

  -- `task.name2id(name)`
  unfoldable pub name2id : String → String → Tasks C X A → Result Task
  name2id ctx_name name f = found (get f.unique_name2task ((ctx_name ++ ".") ++ name))

strip_prefix-append : (p s : String) → strip_prefix p (p ++ s) ≡ some s
unfolding strip_prefix
strip_prefix-append String.[] s = rw (nil-append s) refl
strip_prefix-append (String.◌∷◌ c p) s =
    rw (cons-append c p s)
      (ground (arith, strip_prefix-append p s, nat_key.same_iff (code c) (code c)))

strip_prefix_sound : (p s t : String) → strip_prefix p s ≡ some t → s ≡ p ++ t
unfolding strip_prefix
strip_prefix_sound String.[] s t h = some_inj h ∙ sym (nil-append t)
strip_prefix_sound (String.◌∷◌ c p) String.[] t h = cc
strip_prefix_sound (String.◌∷◌ c p) (String.◌∷◌ d s) t h = elim (Bool-cases (code c == code d)) [
  | inl e ↦
      let tail : s ≡ p ++ t = strip_prefix_sound p s t (ground (arith, e)) in
      let head : c ≡ d = Char-path c d ((nat_key.same_iff (code c) (code d)).0 e) in
      rw (cons-append c p t, ← tail, head) refl
  | inr e ↦ absurd (ground (arith, e))
]

-- the test of a whole name against the rest behind the prefix
same-append : (p s n : String) → (p ++ s == p ++ n) ≡ (s == n)
same-append p s n =
    Bool-eq_of_imp _ _
      (λ h. (eq_iff s n).1 (append_cancel_left p s n ((eq_iff (p ++ s) (p ++ n)).0 h)))
      (λ h. (eq_iff (p ++ s) (p ++ n)).1 (ap (λ (t : String). p ++ t) ((eq_iff s n).0 h)))

get-names_with :
    (p : String) (d : Dict String Task) (n : String) → get (names_with p d) n ≡ get d (p ++ n)
unfolding names_with get
get-names_with p [] n = refl
get-names_with p ((k, t) ∷ d) n = elim (Option-cases (strip_prefix p k)) [
  | inl e ↦ ground (arith, e, get-names_with p d n, eq_iff k (p ++ n), strip_prefix-append p n)
  | inr (s, e) ↦
      ground (arith, e, get-names_with p d n, strip_prefix_sound p k s e, same-append p s n)
]

module _ {C X A : Type 0} (ctx_name : String) (f : Tasks C X A) where
  -- `task.name2id()` lists a task under a name exactly if `task.name2id(name)` finds it.
  name2id-name2id_all :
      (name : String) → name2id ctx_name name f ≡ found (get (name2id_all ctx_name f) name)
  unfolding name2id name2id_all
  name2id-name2id_all name = rw (get-names_with (ctx_name ++ ".") f.unique_name2task name) refl

  -- `task.name2id(name)` finds the task that last called `task.unique(name)` in the same context.
  name2id-task_unique :
      (name : String) (curr : Task)
      → IsValid f
      → is_ours f curr ≡ true
      → name2id ctx_name name (task_unique ctx_name name false curr f).1 ≡ ok curr
  unfolding name2id
  name2id-task_unique name curr v o =
      rw
        (
          append_assoc ctx_name "." name,
          (task_unique_takes ctx_name name curr f v o).1,
          eq_refl (dotted ctx_name name),
        )
        refl

  -- The unique names of a context and of one whose name extends it by a dot are not kept apart:
  -- `task.unique("b.x")` in context `a` and `task.unique("x")` in context `a.b` are one call.
  task_unique_crosses_contexts :
      (sub name : String) (kill_me : Bool) (curr : Task)
      → task_unique (dotted ctx_name sub) name kill_me curr f
        ≡ task_unique ctx_name (dotted sub name) kill_me curr f
  unfolding task_unique
  task_unique_crosses_contexts sub name kill_me curr =
      rw (append_assoc ctx_name ("." ++ sub) ("." ++ name), append_assoc "." sub ("." ++ name)) refl
