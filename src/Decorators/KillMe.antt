-- ===== src/Decorators/KillMe.antt =====
-- `@task_unique` with `kill_me`, and the names of services.
use pyscript.Base.{
  String, Bool, ap, nat_key, string_key, true, false, not, ◌||◌, ◌==◌, ◌≡◌, some, if◌then◌else◌,
  arith, Option-cases, inl, inr,
}
use pyscript.Base.Dict.{get, get-put}
use pyscript.Base.Text.{dotted}
use pyscript.Function.Tasks.{Task, Tasks, names, is_ours}
use pyscript.Base.Bag.{add, contains-add}
use pyscript.Base.Lists.{contains}
use pyscript.Function.Unique.{
  Ending, returned, task_unique, unique_name_used, dispute, claim, give_up,
}
use pyscript.Decorators.{handle_call}

-- With `kill_me` the decorator lets the function run exactly where no task has the name, and it
-- cancels no task. Where the name is used no table changes; where it is not, a task of pyscript has the
-- name then, all other names stay with their tasks, and the task keeps those that it had.
pub handle_call-kill_me :
    {C X A : Type 0} (ctx_name name : String) (curr_task : Task) (f : Tasks C X A)
    → is_ours f curr_task ≡ true
    → ((handle_call true ctx_name name curr_task f).0 ≡ not (unique_name_used ctx_name name f))
      × ((handle_call true ctx_name name curr_task f).1.1.task_reaper_q ≡ f.task_reaper_q)
      × (unique_name_used ctx_name name f ≡ true
          → (handle_call true ctx_name name curr_task f).1.1 ≡ f)
      × ((n : String)
          → unique_name_used ctx_name name f ≡ false
          → (get (handle_call true ctx_name name curr_task f).1.1.unique_name2task n
              ≡ (if dotted ctx_name name == n then some curr_task else get f.unique_name2task n))
            × (contains (names (handle_call true ctx_name name curr_task f).1.1 curr_task) n
                ≡ (dotted ctx_name name == n || contains (names f curr_task) n)))
unfolding handle_call unique_name_used task_unique dispute claim give_up
handle_call-kill_me {C = C} {X = X} {A = A} ctx_name name curr_task f o =
    let owned = dotted ctx_name name in
    elim (Option-cases (get f.unique_name2task owned)) [
      | inl e ↦ (
        ground (arith, e),
        ground (arith, e, o),
        λ u. ground (arith, e, u),
        λ n u. (
          ground (arith, e, o, get-put f.unique_name2task owned n curr_task),
          ground (
            arith,
            e,
            o,
            get-put f.unique_task2name curr_task curr_task (add (names f curr_task) owned),
            nat_key.same_iff curr_task curr_task,
            contains-add (names f curr_task) owned n,
          ),
        ),
      )
      | inr (t, e) ↦ (
        ground (arith, e),
        ground (arith, e),
        λ u.
            ap
              (λ b.
                (if◌then◌else◌ {A = Bool × (Ending × Tasks C X A)} b (false, (returned, f))
                  (true, task_unique ctx_name name false curr_task f)).1.1)
              u,
        λ n u. ground (arith, e, u),
      )
    ]
