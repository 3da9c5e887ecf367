-- ===== src/Function/Tasks.antt =====
-- The class attributes of `Function` about tasks, and the queue of the reaper task.
use pyscript.Base.{ℕ, String, string_key, nat_key, Bool, Option, none, some, List, [], ◌∷◌, ◌++◌}
use pyscript.Base.Dict.{Dict, get, put}
use pyscript.Base.Lists.{contains}

-- an `asyncio.Task`, by its identity
abbrev pub Task : Type 0
Task = ℕ

-- a Python function or `EvalFuncVar` that is a done callback, by its identity
abbrev pub Callback : Type 0
Callback = ℕ

-- the commands of the reaper's queue
pub data ReaperCommand : Type 0 where
  exit : ReaperCommand
  cancel : Task → ReaperCommand

-- `{"ctx": ast_ctx, "cb": {callback: [ast_ctx, args, kwargs]}}`; `X` is the type of AST contexts
-- and `A` that of arguments.
pub record DoneCallbacks (X A : Type 0) : Type 0 where
  pub ctx : X
  pub cb : Dict Callback (X × A)

-- `C` is the type of Home Assistant contexts.
pub record Tasks (C X A : Type 0) : Type 0 where
  pub unique_task2name : Dict Task (List String)
  pub unique_name2task : Dict String Task
  pub task2context : Dict Task C
  pub our_tasks : List Task
  pub task2cb : Dict Task (DoneCallbacks X A)
  pub task_reaper_q : List ReaperCommand

abbrev pub no_tasks : {C X A : Type 0} → Tasks C X A
no_tasks = record {
  unique_task2name = [];
  unique_name2task = [];
  task2context = [];
  our_tasks = [];
  task2cb = [];
  task_reaper_q = [];
}

abbrev pub or_no_names : Option (List String) → List String
or_no_names none = []
or_no_names (some names) = names

module _ {C X A : Type 0} where
  -- `unique_task2name[task]`, empty where the task has no entry
  abbrev pub names : Tasks C X A → Task → List String
  names f task = or_no_names (get f.unique_task2name task)

  abbrev pub is_ours : Tasks C X A → Task → Bool
  is_ours f task = contains f.our_tasks task

  unfoldable pub reaper_cancel : Task → Tasks C X A → Tasks C X A
  reaper_cancel task f = record f { task_reaper_q = f.task_reaper_q ++ cancel task ∷ [] }

  unfoldable pub store_hass_context : Task → C → Tasks C X A → Tasks C X A
  store_hass_context curr_task hass_context f = record f {
    task2context = put f.task2context curr_task hass_context;
  }

-- The reaper takes its commands in order, cancels the task of each, and stops at `exit`: the
-- tasks that it cancels.
unfoldable pub task_reaper : List ReaperCommand → List Task
task_reaper [] = []
task_reaper (exit ∷ commands) = []
task_reaper (cancel task ∷ commands) = task ∷ task_reaper commands
