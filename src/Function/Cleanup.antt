-- ===== src/Function/Cleanup.antt =====
-- The end of a task: its unique names are free again, and nothing else changes for other tasks.
use text.Mathlib.TextEquality.{eq_iff}
use pyscript.Base.{
  String, ◌==◌, same_refl, string_key, nat_key, true, ◌≡◌, refl, ap, is_some, none, List, [], ◌∷◌,
  arith, if◌then◌else◌, Option-cases, inl, inr,
}
use pyscript.Base.Bag.{discard, contains-discard}
use pyscript.Base.Dict.{Dict, get, remove, has, get-remove, remove_absent}
use pyscript.Base.Lists.{contains, distinct}
use pyscript.Base.Result.{ok}
use pyscript.Function.Tasks.{Task, Tasks, names, or_no_names}
use pyscript.Function.Ownership.{IsValid}
use pyscript.Function.Coroutine.{delete_names, forget_names, run_coro_finally}

-- the map with some names gone
erased : List String → Dict String Task → Dict String Task
erased [] d = d
erased (name ∷ ns) d = erased ns (remove d name)

get-erased :
    (ns : List String) (d : Dict String Task) (n : String)
    → get (erased ns d) n ≡ (if contains ns n then none else get d n)
unfolding erased
get-erased [] d n = refl
get-erased (name ∷ ns) d n = ground (arith, get-erased ns (remove d name) n, get-remove d name n)

module _ {C X A : Type 0} where
  -- Deleting names that are all there does not raise, and removes exactly these names.
  delete_names_lem :
      (ns : List String) (f : Tasks C X A)
      → distinct ns ≡ true
      → ((n : String) → contains ns n ≡ true → has f.unique_name2task n ≡ true)
      → delete_names ns f ≡ (ok tt, record f { unique_name2task = erased ns f.unique_name2task })
  unfolding delete_names erased
  delete_names_lem [] f d there = refl
  delete_names_lem (name ∷ ns) f d there =
      let h : has f.unique_name2task name ≡ true = there name (ground (arith, same_refl name)) in
      let ih =
        delete_names_lem ns (record f { unique_name2task = remove f.unique_name2task name })
          (ground arith)
          (λ n c. ground (arith, there n, get-remove f.unique_name2task name n, eq_iff name n)) in
      rw h ih

  -- what the map of names is when the task has ended
  after_names : Task → Tasks C X A → Dict String Task
  after_names task f = erased (names f task) f.unique_name2task

  forget_names_lem :
      (task : Task) (f : Tasks C X A)
      → IsValid f
      → forget_names task (get f.unique_task2name task) f ≡ (
        ok tt,
        record f {
          unique_name2task = after_names task f;
          unique_task2name = remove f.unique_task2name task;
        },
      )
  unfolding forget_names after_names
  forget_names_lem task f v = elim (Option-cases (get f.unique_task2name task)) [
    | inl absent ↦ rw (absent, remove_absent f.unique_task2name task absent) (unfold erased in refl)
    | inr (ns, there) ↦
        let there' : names f task ≡ ns = ap or_no_names there in
        rw
          (
            there,
            delete_names_lem ns f (rw (← there') (v.no_repeats task))
                (λ n c. ap is_some (v.owned task n (rw there' c))),
          )
          refl
  ]

  ended : Task → Tasks C X A → Tasks C X A
  ended task f = record f {
    unique_task2name = remove f.unique_task2name task;
    unique_name2task = after_names task f;
    task2context = remove f.task2context task;
    task2cb = remove f.task2cb task;
    our_tasks = discard f.our_tasks task;
  }

  run_coro_finally_lem :
      (task : Task) (f : Tasks C X A) → IsValid f → run_coro_finally task f ≡ (ok tt, ended task f)
  unfolding run_coro_finally ended
  run_coro_finally_lem task f v = rw (forget_names_lem task f v) refl

  names-ended :
      (task : Task) (f : Tasks C X A) (t : Task)
      → names (ended task f) t ≡ (if task == t then [] else names f t)
  unfolding ended
  names-ended task f t = ground (arith, get-remove f.unique_task2name task t)

  ended-IsValid : (task : Task) (f : Tasks C X A) → IsValid f → IsValid (ended task f)
  unfolding ended after_names
  ended-IsValid task f v = record {
    owned = λ t n h. ground (
      arith,
      names-ended task f t,
      v.owned t n,
      v.owned task n,
      get-erased (names f task) f.unique_name2task n,
      nat_key.same_iff task t,
    );
    owns = λ t n h. ground (
      arith,
      names-ended task f t,
      v.owns t n,
      v.owns task n,
      get-erased (names f task) f.unique_name2task n,
      nat_key.same_iff task t,
    );
    no_repeats = λ t. ground (arith, names-ended task f t, v.no_repeats t);
    running = λ t h. ground (
      arith,
      v.running t,
      get-remove f.unique_task2name task t,
      contains-discard f.our_tasks task t,
    );
  }

  -- The `finally` block does not raise, and keeps the maps in agreement.
  pub run_coro_finally-IsValid :
      (task : Task) (f : Tasks C X A)
      → IsValid f
      → ((run_coro_finally task f).0 ≡ ok tt) × IsValid (run_coro_finally task f).1
  run_coro_finally-IsValid task f v =
      rw (run_coro_finally_lem task f v) (refl, ended-IsValid task f v)
