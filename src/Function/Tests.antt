-- ===== src/Function/Tests.antt =====
-- Runs of the task functions and the service registry, and their theorems at concrete inputs.
use pyscript.Base.{
  ℕ, String, string_key, nat_key, ◌≡◌, refl, true, false, none, some, List, [], ◌∷◌, not, ◌==◌, ltb,
}
use pyscript.Base.Bag.{add, discard}
use pyscript.Base.Dict.{Dict, get, put, remove}
use pyscript.Function.Tasks.{Tasks, no_tasks, cancel}
use pyscript.Function.Unique.{task_unique, claim, give_up, dispute}
use pyscript.Function.Coroutine.{
  run_coro_start, task_done_callback_ctx, task_add_done_callback, add_callback, finally_block,
}
use pyscript.Function.Reach.{Reach}
use pyscript.Function.Services.{count}
use pyscript.Function.Refcount.{
  Request, registers, removes, run, spec, registered, run-refines-spec,
}
use pyscript.Function.Arguments.{Values, service_call, take_keyword}

abbrev T : Type 0
T = Tasks ℕ ℕ ℕ

-- task 1 and task 2 run; task 1 has the name "n" in the context "file.x"
abbrev started : T
started = run_coro_start 2 none (run_coro_start 1 none no_tasks)

abbrev named : T
named = (task_unique "file.x" "n" false 1 started).1

takes_over : (task_unique "file.x" "n" false 2 named).1.task_reaper_q ≡ cancel 1 ∷ []
unfolding task_unique run_coro_start get put add discard
takes_over = refl

-- a callback of task 1 is cancelled, and the task keeps its name
abbrev with_callback : T
with_callback = (task_add_done_callback 1 none 5 0 (run_coro_start 1 (some 0) named)).1

cancelled_test : get (finally_block true 1 with_callback).1.unique_name2task "file.x.n" ≡ some 1
unfolding finally_block task_add_done_callback add_callback run_coro_start task_done_callback_ctx
    task_unique claim give_up dispute get put add
cancelled_test = refl

-- two registrations by one file, one removal, and a refused one
abbrev requests : List Request
requests =
    registers "file.y" "pyscript" "f"
    ∷ removes "file.x" "pyscript" "f"
    ∷ registers "file.x" "pyscript" "f"
    ∷ registers "file.x" "pyscript" "f"
    ∷ []

run-refines-spec_example :
    (registered (run requests).calls "pyscript.f" ≡ true)
    × (count (run requests) "pyscript.f" ≡ 1)
    × (get (run requests).service2global_ctx "pyscript.f" ≡ some "file.x")
unfolding spec
run-refines-spec_example = run-refines-spec requests "pyscript.f"

-- a value is a number: 0 and 1 are the Booleans, 2 is a context
abbrev numbers : Values ℕ
numbers = record {
  is_context = λ v. v == 2;
  is_bool = λ v. ltb v 2;
  truthy = λ v. not (v == 0);
  true_value = 1;
  truthy-true = refl;
}

abbrev arguments : Dict String ℕ
arguments = ("blocking", 1) ∷ ("level", 7) ∷ ("context", 9) ∷ []

service_call_test : get (service_call numbers false none arguments).kwargs "context" ≡ some 9
unfolding get service_call take_keyword remove
service_call_test = refl
