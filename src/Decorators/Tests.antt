-- ===== src/Decorators/Tests.antt =====
-- Decorators with concrete names and messages.
use pyscript.Base.{
  ℕ, nat_key, string_key, true, false, not, String, ◌==◌, ◌||◌, ◌≡◌, refl, none, some, [], ◌∷◌,
  if◌then◌else◌,
}
use pyscript.Base.Dict.{get}
use pyscript.Base.Text.{split, dots}
use pyscript.Base.Result.{ok, err, syntax_error}
use pyscript.Function.Tasks.{Tasks, names, no_tasks}
use pyscript.Base.Lists.{contains}
use pyscript.Function.Unique.{unique_name_used}
use pyscript.Decorators.{handle_call, validate_service, mqtt_message_handler}
use pyscript.Decorators.KillMe.{handle_call-kill_me}

validate_test : validate_service "f" ("light.blink" ∷ []) ≡ ok ("light", "blink")
unfolding validate_service split dots
validate_test = refl

builtin_test : validate_service "f" ("pyscript.reload" ∷ []) ≡ err syntax_error
unfolding validate_service split dots
builtin_test = refl

own_name_test : validate_service "f" [] ≡ ok ("pyscript", "f")
unfolding validate_service
own_name_test = refl

-- a message whose payload is no JSON
mqtt_test :
    mqtt_message_handler (λ s. s) none "home/light" "on" "0" "no" none
    ≡ some (
        ("trigger_type", "mqtt")
        ∷ ("topic", "home/light")
        ∷ ("payload", "on")
        ∷ ("qos", "0")
        ∷ ("retain", "no")
        ∷ [])
unfolding mqtt_message_handler
mqtt_test = refl

-- task 1 of pyscript
abbrev tasks : Tasks ℕ ℕ ℕ
tasks = record no_tasks { our_tasks = 1 ∷ [] }

handle_call-kill_me_example :
    ((handle_call true "file.a" "lamp" 1 tasks).0 ≡ not (unique_name_used "file.a" "lamp" tasks))
    × ((handle_call true "file.a" "lamp" 1 tasks).1.1.task_reaper_q ≡ [])
    × (unique_name_used "file.a" "lamp" tasks ≡ true
        → (handle_call true "file.a" "lamp" 1 tasks).1.1 ≡ tasks)
    × ((n : String)
        → unique_name_used "file.a" "lamp" tasks ≡ false
        → (get (handle_call true "file.a" "lamp" 1 tasks).1.1.unique_name2task n
            ≡ (if "file.a.lamp" == n then some 1 else get tasks.unique_name2task n))
          × (contains (names (handle_call true "file.a" "lamp" 1 tasks).1.1 1) n
              ≡ ("file.a.lamp" == n || contains (names tasks 1) n)))
handle_call-kill_me_example = handle_call-kill_me "file.a" "lamp" 1 tasks refl
