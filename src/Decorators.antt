-- ===== src/Decorators.antt =====
-- The decorators `@task_unique`, `@service`, `@mqtt_trigger` and `@webhook_trigger`
-- (custom_components/pyscript/decorators: task.py, service.py, mqtt.py, webhook.py).
mod KillMe
mod Tests
use pyscript.Base.{
  ℕ, String, ◌==◌, nat_key, string_key, Bool, true, false, not, ◌&&◌, ◌||◌, Option, none, some,
  List, [], ◌∷◌, if◌then◌else◌,
}
use pyscript.Base.Dict.{Dict, get, put}
use pyscript.Base.Text.{split, dots}
use pyscript.Base.Result.{Result, ok, err, value_error, syntax_error, then_try, Method}
use pyscript.State.Access.{update_all}
use pyscript.Function.Tasks.{Task, Tasks}
use pyscript.Function.Unique.{Ending, returned, task_unique, unique_name_used}
use pyscript.Function.Services.{Services, service_register, service_remove}

-- `TaskUniqueDecorator.handle_call`: whether the function may run, and how the call of
-- `task.unique` ends
unfoldable pub handle_call :
    {C X A : Type 0} → Bool → String → String → Task → Tasks C X A → Bool × (Ending × Tasks C X A)
unfolding unique_name_used
handle_call kill_me ctx_name name curr_task f =
    if kill_me && unique_name_used ctx_name name f
    then (false, (returned, f))
    else (true, task_unique ctx_name name false curr_task f)

-- `service_validator`, for an argument without blanks around it
abbrev pub service_parts : List String → Result (List String)
service_parts [] = ok []
service_parts (s ∷ args) = if dots s == 1 then ok (split s) else err value_error

-- the domain and the name of the service: the function's own where none is given
abbrev pub service_name : String → List String → String × String
service_name func_name (domain ∷ name ∷ []) = (domain, name)
service_name func_name args = ("pyscript", func_name)

abbrev pub unless_builtin : String × String → Result (String × String)
unless_builtin n =
    if n.1 == "reload" || n.1 == "jupyter_kernel_start" then err syntax_error else ok n

-- the validation of `ServiceDecorator`, up to the description
unfoldable pub validate_service : String → List String → Result (String × String)
validate_service func_name args =
    then_try (service_parts args) (λ parts. unless_builtin (service_name func_name parts))

-- `ServiceDecorator.start` and `stop`; `context` and `global_context` are the names of the evaluator
-- and of its global context
abbrev pub start_service : String → String × String → Method Services (Unit {0})
start_service context n = service_register context n.0 n.1

abbrev pub stop_service : String → String × String → Services → Services
stop_service global_context n = service_remove global_context n.0 n.1

module _ {V : Type 0} (text : String → V) where
  -- the arguments of the function in `_service_callback`
  unfoldable pub service_args : V → Dict String V → Dict String V
  service_args context call_data =
      update_all (("trigger_type", text "service") ∷ ("context", context) ∷ []) call_data

  -- a message of MQTT, with what `json.loads` makes of its payload
  abbrev pub with_payload : Option V → Dict String V → Dict String V
  with_payload none func_args = func_args
  with_payload (some obj) func_args = put func_args "payload_obj" obj

  -- `_mqtt_message_handler`: what is dispatched, by what the expression says where there is one
  abbrev pub if_true : Option (Dict String V → Bool) → Dict String V → Option (Dict String V)
  if_true none func_args = some func_args
  if_true (some expression) func_args = if expression func_args then some func_args else none

  unfoldable pub mqtt_message_handler :
      Option (Dict String V → Bool) → V → V → V → V → Option V → Option (Dict String V)
  mqtt_message_handler expression topic payload qos retain payload_obj = if_true expression (
      with_payload payload_obj (
        ("trigger_type", text "mqtt")
        ∷ ("topic", topic)
        ∷ ("payload", payload)
        ∷ ("qos", qos)
        ∷ ("retain", retain)
        ∷ []))

  -- `_handler` of the webhook decorator; the payload is the JSON body, or the form with the first
  -- value of each key
  unfoldable pub webhook_handler :
      Option (Dict String V → Bool) → V → Bool → V → V → Option (Dict String V)
  webhook_handler expression webhook_id is_json json form = if_true expression (
      ("trigger_type", text "webhook")
      ∷ ("webhook_id", webhook_id)
      ∷ ("payload", if is_json then json else form)
      ∷ [])
