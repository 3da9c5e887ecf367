-- ===== src/Function/Reach.antt =====
-- Any interleaving of the tasks' calls, as steps on the class attributes of `Function`.
use pyscript.Base.{String, string_key, nat_key, Bool, true, ◌≡◌, refl, Option, none, some, arith}
use pyscript.Base.Bag.{contains-add}
use pyscript.Base.Dict.{get}
use pyscript.Function.Tasks.{Task, Callback, Tasks, no_tasks, is_ours, store_hass_context}
use pyscript.Function.Unique.{task_unique, claim, user_task_cancel}
use pyscript.Function.Coroutine.{
  run_coro_start, run_coro_finally, task_add_done_callback, user_task_remove_done_callback,
}
use pyscript.Function.Ownership.{IsValid, task_unique-IsValid, claim-IsValid}
use pyscript.Function.Cleanup.{run_coro_finally-IsValid}

module _ {C X A : Type 0} where
  -- `wakes` is the second half of `task.unique` after its sleep.
  pub data Step (f : Tasks C X A) : Tasks C X A → Type 0 where
    starts : (task : Task) (ast_ctx : Option X) → Step f (run_coro_start task ast_ctx f)
    ends : (task : Task) → Step f (run_coro_finally task f).1
    unique :
        (ctx_name name : String) (kill_me : Bool) (task : Task)
        → Step f (task_unique ctx_name name kill_me task f).1
    wakes : (name : String) (task : Task) → Step f (claim name task f)
    cancels : (target : Option Task) (task : Task) → Step f (user_task_cancel target task f).1
    adds_callback :
        (task : Task) (ast_ctx : Option X) (callback : Callback) (args : A)
        → Step f (task_add_done_callback task ast_ctx callback args f).1
    drops_callback :
        (task : Task) (callback : Callback)
        → Step f (user_task_remove_done_callback task callback f).1
    stores_context : (task : Task) (context : C) → Step f (store_hass_context task context f)

  pub data Reach : Tasks C X A → Type 0 where
    here : Reach no_tasks
    next : {f g : Tasks C X A} → Reach f → Step f g → Reach g

  -- The invariant reads three attributes.
  same-IsValid :
      (f g : Tasks C X A)
      → g.unique_task2name ≡ f.unique_task2name
      → g.unique_name2task ≡ f.unique_name2task
      → ((t : Task) → is_ours f t ≡ true → is_ours g t ≡ true)
      → IsValid f
      → IsValid g
  same-IsValid f g p q r v = record {
    owned = λ t n. rw (p, q) (v.owned t n);
    owns = λ t n. rw (p, q) (v.owns t n);
    no_repeats = λ t. rw p (v.no_repeats t);
    running = λ t. rw p (λ h. r t (v.running t h));
  }

  start-IsValid :
      (task : Task) (o : Option X) (f : Tasks C X A) → IsValid f → IsValid (run_coro_start task o f)
  unfolding run_coro_start
  start-IsValid task none f =
      same-IsValid f _ refl refl (λ t h. ground (arith, contains-add f.our_tasks task t))
  start-IsValid task (some x) f =
      same-IsValid f _ (ground arith) (ground arith)
        (λ t h. ground (arith, contains-add f.our_tasks task t))

  cancel-IsValid :
      (target : Option Task) (task : Task) (f : Tasks C X A)
      → IsValid f
      → IsValid (user_task_cancel target task f).1
  unfolding user_task_cancel
  cancel-IsValid none task f = same-IsValid f _ (ground arith) (ground arith) (λ t h. ground arith)
  cancel-IsValid (some target) task f =
      same-IsValid f _ (ground arith) (ground arith) (λ t h. ground arith)

  add_callback-IsValid :
      (task : Task) (o : Option X) (callback : Callback) (args : A) (f : Tasks C X A)
      → IsValid f
      → IsValid (task_add_done_callback task o callback args f).1
  unfolding task_add_done_callback
  add_callback-IsValid task none callback args f =
      same-IsValid f _ (ground arith) (ground arith) (λ t h. ground arith)
  add_callback-IsValid task (some x) callback args f =
      same-IsValid f _ (ground arith) (ground arith) (λ t h. ground arith)

  drop_callback-IsValid :
      (task : Task) (callback : Callback) (f : Tasks C X A)
      → IsValid f
      → IsValid (user_task_remove_done_callback task callback f).1
  unfolding user_task_remove_done_callback
  drop_callback-IsValid task callback f =
      same-IsValid f _ (ground arith) (ground arith) (λ t h. ground arith)

  context-IsValid :
      (task : Task) (c : C) (f : Tasks C X A) → IsValid f → IsValid (store_hass_context task c f)
  unfolding store_hass_context
  context-IsValid task c f = same-IsValid f _ refl refl (λ t h. h)

  Step-IsValid : {f g : Tasks C X A} → Step f g → IsValid f → IsValid g
  Step-IsValid {f} (starts task o) v = start-IsValid task o f v
  Step-IsValid {f} (ends task) v = (run_coro_finally-IsValid task f v).1
  Step-IsValid {f} (unique c n k task) v = task_unique-IsValid c n task f k v
  Step-IsValid {f} (wakes n task) v = claim-IsValid n task f v
  Step-IsValid {f} (cancels target task) v = cancel-IsValid target task f v
  Step-IsValid {f} (adds_callback task o callback args) v =
      add_callback-IsValid task o callback args f v
  Step-IsValid {f} (drops_callback task callback) v = drop_callback-IsValid task callback f v
  Step-IsValid {f} (stores_context task c) v = context-IsValid task c f v

  none-IsValid : IsValid {C = C} {X = X} {A = A} no_tasks
  unfolding get
  none-IsValid = record {
    owned = λ t n h. cc;
    owns = λ t n h. cc;
    no_repeats = λ t. refl;
    running = λ t h. cc;
  }

  pub Reach-IsValid : {f : Tasks C X A} → Reach f → IsValid f
  Reach-IsValid here = none-IsValid
  Reach-IsValid (next r s) = Step-IsValid s (Reach-IsValid r)
