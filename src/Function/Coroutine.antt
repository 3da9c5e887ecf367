-- ===== src/Function/Coroutine.antt =====
-- `run_coro` and the done callbacks: what it records when a task starts, and what its `finally` block
-- does.
use pyscript.Base.{
  String, string_key, nat_key, Bool, false, not, ◌&&◌, Option, none, some, List, [], ◌∷◌,
  if◌then◌else◌,
}
use pyscript.Base.Bag.{add, discard}
use pyscript.Base.Lists.{is_empty}
use pyscript.Base.Dict.{Dict, get, put, remove, has}
use pyscript.Base.Result.{Method, ok, err, key_error, cancelled_error, ◌>>=◌}
use pyscript.Function.Tasks.{Task, Callback, DoneCallbacks, Tasks}

-- The callbacks that the `finally` block calls, in order: it stops after the first that raises.
-- `raises` is whether a call raises.
unfoldable pub callbacks_run :
    {X A : Type 0} → (Callback → X × A → Bool) → Dict Callback (X × A) → List Callback
callbacks_run raises [] = []
callbacks_run raises ((callback, info) ∷ cb) =
    let rest = callbacks_run raises cb in callback ∷ (if raises callback info then [] else rest)

-- whether the task has a callback that is awaited
abbrev pub awaits : {X A : Type 0} → Option (DoneCallbacks X A) → Bool
awaits none = false
awaits (some info) = not (is_empty info.cb)

module _ {C X A : Type 0} where
  -- `task_done_callback_ctx`; every entry of `task2cb` has a "ctx"
  unfoldable pub task_done_callback_ctx : Task → X → Tasks C X A → Tasks C X A
  task_done_callback_ctx task ast_ctx f =
      if not (has f.task2cb task)
      then record f { task2cb = put f.task2cb task (record { ctx = ast_ctx; cb = [] }) }
      else f

  -- `task_add_done_callback`, for the entry of the task
  unfoldable pub add_callback :
      Task → Option X → Callback → A → Option (DoneCallbacks X A) → Method (Tasks C X A) (Unit {0})
  add_callback task ast_ctx callback args none f = (err key_error, f)
  add_callback task none callback args (some info) f = (
    ok tt,
    record f {
      task2cb = put f.task2cb task (record info { cb = put info.cb callback (info.ctx, args) });
    },
  )
  add_callback task (some x) callback args (some info) f = (
    ok tt,
    record f { task2cb = put f.task2cb task (record info { cb = put info.cb callback (x, args) }) },
  )

  unfoldable pub task_add_done_callback :
      Task → Option X → Callback → A → Method (Tasks C X A) (Unit {0})
  unfolding add_callback
  task_add_done_callback task ast_ctx callback args f =
      add_callback task ast_ctx callback args (get f.task2cb task) f

  -- `user_task_remove_done_callback`
  unfoldable pub drop_callback :
      Task → Callback → Option (DoneCallbacks X A) → Method (Tasks C X A) (Unit {0})
  drop_callback task callback none f = (err key_error, f)
  drop_callback task callback (some info) f = (
    ok tt,
    record f { task2cb = put f.task2cb task (record info { cb = remove info.cb callback }) },
  )

  unfoldable pub user_task_remove_done_callback : Task → Callback → Method (Tasks C X A) (Unit {0})
  unfolding drop_callback
  user_task_remove_done_callback task callback f =
      drop_callback task callback (get f.task2cb task) f

  -- `run_coro` before the coroutine runs
  unfoldable pub run_coro_start : Task → Option X → Tasks C X A → Tasks C X A
  unfolding task_done_callback_ctx
  run_coro_start task none f = record f { our_tasks = add f.our_tasks task }
  run_coro_start task (some x) f =
      task_done_callback_ctx task x (record f { our_tasks = add f.our_tasks task })

  -- `for name in names: del unique_name2task[name]`
  unfoldable pub delete_names : List String → Method (Tasks C X A) (Unit {0})
  delete_names [] f = (ok tt, f)
  delete_names (name ∷ rest) f =
      let go_on =
        delete_names rest (record f { unique_name2task = remove f.unique_name2task name }) in
      if has f.unique_name2task name then go_on else (err key_error, f)

  unfoldable pub forget_names : Task → Option (List String) → Method (Tasks C X A) (Unit {0})
  unfolding delete_names
  forget_names task none = λ f. (ok tt, f)
  forget_names task (some ns) = delete_names ns >>= λ _ f.
      (ok tt, record f { unique_task2name = remove f.unique_task2name task })

  -- the `finally` block after the callbacks, where they let it go on
  unfoldable pub run_coro_finally : Task → Method (Tasks C X A) (Unit {0})
  unfolding forget_names
  run_coro_finally task f =
      (forget_names task (get f.unique_task2name task) >>= λ _ g. (
        ok tt,
        record g {
          task2context = remove g.task2context task;
          task2cb = remove g.task2cb task;
          our_tasks = discard g.our_tasks task;
        },
      ))
        f

  -- The whole `finally` block. `cancelled` says whether a cancellation comes while a callback is
  -- awaited: it is no `Exception`, so it leaves the block there.
  unfoldable pub finally_block : Bool → Task → Method (Tasks C X A) (Unit {0})
  unfolding run_coro_finally
  finally_block cancelled task f =
      let rest = run_coro_finally task f in
      if cancelled && awaits (get f.task2cb task) then (err cancelled_error, f) else rest
