-- ===== src/Function/Unique.antt =====
-- `task.unique`, `task.cancel` and `task.name2id`. A call that ends in a long sleep, to be
-- cancelled there, is `sleeping`; what follows the sleep is the second half of the function.
use pyscript.Base.{
  String, ◌==◌, string_key, nat_key, Bool, not, ◌&&◌, Option, none, some, if◌then◌else◌,
}
use pyscript.Base.Bag.{add, discard}
use pyscript.Base.Dict.{get, put, has}
use pyscript.Base.Text.{dotted}
use pyscript.Base.Result.{Method, ok, err, type_error}
use pyscript.Function.Tasks.{Task, Tasks, names, is_ours, reaper_cancel}

-- how a call ends that may wait to be cancelled
pub data Ending : Type 0 where
  returned sleeping : Ending

module _ {C X A : Type 0} where
  -- what `task_unique` does with the task that has the name
  unfoldable pub dispute : Task → Bool → Option Task → Tasks C X A → Ending × Tasks C X A
  unfolding reaper_cancel
  dispute curr_task kill_me none f = (returned, f)
  dispute curr_task kill_me (some task) f =
      if kill_me
      then (if not (task == curr_task)
          then (sleeping, reaper_cancel curr_task f)
          else (returned, f))
      else if not (task == curr_task) && is_ours f task
      then (returned, reaper_cancel task f)
      else (returned, f)

  -- `unique_task2name[task].discard(name)` for the task that has the name
  unfoldable pub give_up : String → Option Task → Tasks C X A → Tasks C X A
  give_up name none f = f
  give_up name (some task) f =
      if has f.unique_task2name task
      then record f { unique_task2name = put f.unique_task2name task (discard (names f task) name) }
      else f

  -- the second half of `task_unique`: the current task takes the name
  unfoldable pub claim : String → Task → Tasks C X A → Tasks C X A
  unfolding give_up
  claim name curr_task f =
      if is_ours f curr_task
      then (let g = give_up name (get f.unique_name2task name) f in
          record g {
            unique_name2task = put g.unique_name2task name curr_task;
            unique_task2name = put g.unique_task2name curr_task (add (names g curr_task) name);
          })
      else f

  abbrev pub unless_sleeping :
      Ending × Tasks C X A → (Tasks C X A → Tasks C X A) → Ending × Tasks C X A
  unless_sleeping (sleeping, f) go_on = (sleeping, f)
  unless_sleeping (returned, f) go_on = (returned, go_on f)

  -- `ctx_name` is the name of the global context of the calling script
  unfoldable pub task_unique : String → String → Bool → Task → Tasks C X A → Ending × Tasks C X A
  unfolding dispute claim
  task_unique ctx_name name kill_me curr_task f =
      unless_sleeping (dispute curr_task kill_me (get f.unique_name2task (dotted ctx_name name)) f)
        (claim (dotted ctx_name name) curr_task)

  -- `unique_name_used`
  unfoldable pub unique_name_used : String → String → Tasks C X A → Bool
  unique_name_used ctx_name name f = has f.unique_name2task (dotted ctx_name name)

  -- `task.cancel(task)`; with no task, the current one, which then sleeps
  unfoldable pub user_task_cancel : Option Task → Task → Method (Tasks C X A) Ending
  unfolding reaper_cancel
  user_task_cancel (some task) curr_task f =
      if is_ours f task then (ok returned, reaper_cancel task f) else (err type_error, f)
  user_task_cancel none curr_task f =
      if is_ours f curr_task then (ok sleeping, reaper_cancel curr_task f) else (err type_error, f)
