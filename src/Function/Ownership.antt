-- ===== src/Function/Ownership.antt =====
-- The two maps between tasks and unique names agree: a name belongs to the one task that claimed
-- it last, and to a task that runs.
use text.Mathlib.TextEquality.{eq_iff}
use pyscript.Base.{
  String, ◌==◌, string_key, nat_key, Bool, true, false, not, ◌&&◌, ◌||◌, ◌≡◌, refl, ◌≢◌, Option,
  none, some, [], ◌∷◌, ◌++◌, arith, if◌then◌else◌, Option-cases, Bool-cases, inl, inr,
}
use mathlib.Core.List.{append-nil}
use pyscript.Base.Bag.{add, discard, contains-add, contains-discard, distinct-add, distinct-discard}
use pyscript.Base.Dict.{get, has, get-put}
use pyscript.Base.Lists.{contains, distinct}
use pyscript.Base.Text.{dotted}
use pyscript.Function.Tasks.{Task, Tasks, names, is_ours, cancel}
use pyscript.Function.Unique.{
  Ending, returned, sleeping, dispute, give_up, claim, task_unique, unless_sleeping,
}

-- whether the task is the owner
abbrev holds : Option Task → Task → Bool
holds none t = false
holds (some s) t = s == t

module _ {C X A : Type 0} where
  pub record IsValid (f : Tasks C X A) : Type 0 where
    pub owned :
        (t : Task) (n : String) → contains (names f t) n ≡ true → get f.unique_name2task n ≡ some t
    pub owns :
        (t : Task) (n : String) → get f.unique_name2task n ≡ some t → contains (names f t) n ≡ true
    pub no_repeats : (t : Task) → distinct (names f t) ≡ true
    pub running : (t : Task) → has f.unique_task2name t ≡ true → is_ours f t ≡ true

  -- What `claim` changes.
  module _ (name : String) (curr : Task) (f : Tasks C X A) where
    name2task-claim :
        (n : String)
        → get (claim name curr f).unique_name2task n
          ≡ (if is_ours f curr && (name == n) then some curr else get f.unique_name2task n)
    unfolding claim
    name2task-claim n = ground (arith, get-put f.unique_name2task name n curr)

    our_tasks-claim : (claim name curr f).our_tasks ≡ f.our_tasks
    unfolding claim
    our_tasks-claim = ground arith

    names-give_up :
        (o : Option Task) (t : Task) (n : String)
        → contains (names (give_up name o f) t) n
          ≡ (contains (names f t) n && not ((name == n) && holds o t))
    unfolding give_up
    names-give_up none t n = ground arith
    names-give_up (some s) t n = ground (
      arith,
      get-put f.unique_task2name s t (discard (names f s) name),
      nat_key.same_iff s t,
      contains-discard (names f s) name n,
    )

    has-give_up :
        (o : Option Task) (t : Task)
        → has (give_up name o f).unique_task2name t ≡ has f.unique_task2name t
    unfolding give_up
    has-give_up none t = refl
    has-give_up (some s) t =
        ground
          (arith, get-put f.unique_task2name s t (discard (names f s) name), nat_key.same_iff s t)

    distinct-give_up :
        (o : Option Task) (t : Task)
        → distinct (names f t) ≡ true
        → distinct (names (give_up name o f) t) ≡ true
    unfolding give_up
    distinct-give_up none t d = d
    distinct-give_up (some s) t d = ground (
      arith,
      get-put f.unique_task2name s t (discard (names f s) name),
      nat_key.same_iff s t,
      distinct-discard (names f s) name,
    )

    names-claim :
        IsValid f
        → (t : Task) (n : String)
        → contains (names (claim name curr f) t) n
          ≡ (if is_ours f curr && (name == n) then curr == t else contains (names f t) n)
    unfolding claim
    names-claim v t n =
        let g = give_up name (get f.unique_name2task name) f in
        ground (
          arith,
          get-put g.unique_task2name curr t (add (names g curr) name),
          contains-add (names g curr) name n,
          names-give_up (get f.unique_name2task name) t n,
          nat_key.same_iff curr t,
          eq_iff name n,
          v.owned t n,
        )

    distinct-claim : IsValid f → (t : Task) → distinct (names (claim name curr f) t) ≡ true
    unfolding claim
    distinct-claim v t =
        let g = give_up name (get f.unique_name2task name) f in
        ground (
          arith,
          get-put g.unique_task2name curr t (add (names g curr) name),
          distinct-add (names g curr) name,
          v.no_repeats t,
          v.no_repeats curr,
          distinct-give_up (get f.unique_name2task name) t,
          distinct-give_up (get f.unique_name2task name) curr,
        )

    has-claim :
        (t : Task)
        → has (claim name curr f).unique_task2name t
          ≡ (is_ours f curr && (curr == t) || has f.unique_task2name t)
    unfolding claim
    has-claim t =
        let g = give_up name (get f.unique_name2task name) f in
        ground (
          arith,
          get-put g.unique_task2name curr t (add (names g curr) name),
          has-give_up (get f.unique_name2task name) t,
        )

  pub claim-IsValid :
      (name : String) (curr : Task) (f : Tasks C X A) → IsValid f → IsValid (claim name curr f)
  claim-IsValid name curr f v = record {
    owned = λ t n h. ground (
      arith,
      names-claim name curr f v t n,
      name2task-claim name curr f n,
      v.owned t n,
      nat_key.same_iff curr t,
    );
    owns = λ t n h. ground (
      arith,
      names-claim name curr f v t n,
      name2task-claim name curr f n,
      v.owns t n,
      nat_key.same_iff curr t,
    );
    no_repeats = distinct-claim name curr f v;
    running = λ t h. ground (
      arith,
      has-claim name curr f t,
      v.running t,
      our_tasks-claim name curr f,
      nat_key.same_iff curr t,
    );
  }

  dispute-IsValid :
      (curr : Task) (kill_me : Bool) (o : Option Task) (f : Tasks C X A)
      → IsValid f
      → IsValid (dispute curr kill_me o f).1
  unfolding dispute
  dispute-IsValid curr kill_me none f v = v
  dispute-IsValid curr true (some t) f v = elim (Bool-cases (t == curr)) [
    | inl e ↦ rw e v
    | inr e ↦
        rw e (record {
          owned = v.owned;
          owns = v.owns;
          no_repeats = v.no_repeats;
          running = v.running;
        })
  ]
  dispute-IsValid curr false (some t) f v = elim (Bool-cases (not (t == curr) && is_ours f t)) [
    | inl e ↦
        rw e (record {
          owned = v.owned;
          owns = v.owns;
          no_repeats = v.no_repeats;
          running = v.running;
        })
    | inr e ↦ rw e v
  ]

  unless_sleeping-IsValid :
      (r : Ending × Tasks C X A) (name : String) (curr : Task)
      → IsValid r.1
      → IsValid (unless_sleeping r (claim name curr)).1
  unless_sleeping-IsValid (sleeping, f) name curr v = v
  unless_sleeping-IsValid (returned, f) name curr v = claim-IsValid name curr f v

  module _ (ctx_name name : String) (curr : Task) (f : Tasks C X A) where
    -- `task.unique` keeps the two maps in agreement, whichever way the call ends.
    pub task_unique-IsValid :
        (kill_me : Bool) → IsValid f → IsValid (task_unique ctx_name name kill_me curr f).1
    unfolding task_unique
    task_unique-IsValid kill_me v =
        unless_sleeping-IsValid
          (dispute curr kill_me (get f.unique_name2task (dotted ctx_name name)) f)
          (dotted ctx_name name) curr
          (dispute-IsValid curr kill_me (get f.unique_name2task (dotted ctx_name name)) f v)

    abbrev key_name : String
    key_name = dotted ctx_name name

    abbrev owner : Option Task
    owner = get f.unique_name2task key_name

    takes_returns : IsValid f → (task_unique ctx_name name false curr f).0 ≡ returned
    unfolding task_unique
    takes_returns v = ground arith

    takes_name :
        is_ours f curr ≡ true
        → (n : String)
        → get (task_unique ctx_name name false curr f).1.unique_name2task n
          ≡ (if key_name == n then some curr else get f.unique_name2task n)
    unfolding task_unique
    takes_name o n = ground (arith, get-put f.unique_name2task key_name n curr)

    takes_queue_free :
        is_ours f curr ≡ true
        → owner ≡ none
        → (task_unique ctx_name name false curr f).1.task_reaper_q
          ≡ f.task_reaper_q
            ++ elim owner [ none ↦ [] | some t ↦ if t == curr then [] else cancel t ∷ [] ]
    unfolding task_unique
    takes_queue_free o e = rw e (ground (arith, append-nil f.task_reaper_q))

    takes_queue :
        IsValid f
        → is_ours f curr ≡ true
        → (t : Task) → owner ≡ some t
        → (task_unique ctx_name name false curr f).1.task_reaper_q
          ≡ f.task_reaper_q
            ++ elim owner [ none ↦ [] | some t ↦ if t == curr then [] else cancel t ∷ [] ]
    unfolding task_unique
    takes_queue v o t e =
        ground (arith, e, append-nil f.task_reaper_q, v.owns t key_name, v.running t)

    -- After `task.unique(name)` in a task of pyscript's, the name belongs to that task and every
    -- other name to the task that had it; a different task that had it is sent to the reaper.
    pub task_unique_takes :
        IsValid f
        → is_ours f curr ≡ true
        → ((task_unique ctx_name name false curr f).0 ≡ returned)
          × ((n : String)
              → get (task_unique ctx_name name false curr f).1.unique_name2task n
                ≡ (if dotted ctx_name name == n then some curr else get f.unique_name2task n))
          × ((task_unique ctx_name name false curr f).1.task_reaper_q
              ≡ f.task_reaper_q ++ elim (get f.unique_name2task (dotted ctx_name name)) [
                | none ↦ []
                | some t ↦ if t == curr then [] else cancel t ∷ []
              ])
    task_unique_takes v o = (
      takes_returns v,
      takes_name o,
      elim (Option-cases owner) [ inl e ↦ takes_queue_free o e | inr (t, e) ↦ takes_queue v o t e ],
    )

    -- With `kill_me`, a task that finds the name taken by another is itself sent to the reaper
    -- and sleeps; the maps do not change.
    task_unique_yields :
        (t : Task)
        → get f.unique_name2task (dotted ctx_name name) ≡ some t
        → t ≢ curr
        → task_unique ctx_name name true curr f
          ≡ (sleeping, record f { task_reaper_q = f.task_reaper_q ++ cancel curr ∷ [] })
    unfolding task_unique
    task_unique_yields t taken other = ground (arith, nat_key.same_iff t curr)
