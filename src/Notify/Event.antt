-- ===== src/Notify/Event.antt =====
-- custom_components/pyscript/event.py: the class `Event`. `R` is the type of the functions that
-- Home Assistant's `async_listen` returns, `V` that of Python's values.
use pyscript.Base.{String, string_key, List, [], ◌∷◌}
use pyscript.Base.Dict.{Dict, put}
use pyscript.Base.Result.{Method}
use pyscript.Notify
use pyscript.Notify.{Table, Queue}

-- `notify`, `notify_remove`, and the calls of `hass.bus.async_listen`, which takes no options
abbrev pub Event : Type 0 → Type 0
Event R = Table (Unit {0}) R

-- a Home Assistant event
pub record HassEvent (V : Type 0) : Type 0 where
  pub event_type : String
  pub context : V
  pub fields : Dict String V

-- `d.update(other)`
unfoldable pub update_all {ℓ} : {V : Type ℓ} → Dict String V → Dict String V → Dict String V
update_all d [] = d
update_all d ((k, v) ∷ other) = update_all (put d k v) other

module _ {R : Type 0} where
  unfoldable pub notify_add : String → R → Queue → Event R → Event R
  notify_add event_type remover queue = Notify.notify_add event_type tt remover queue

  unfoldable pub notify_del : String → Queue → Method (Event R) (Unit {0})
  notify_del event_type queue = Notify.notify_del event_type queue

-- the message `["event", func_args]`
unfoldable pub update :
    {R V : Type 0} → String → Dict String V → Event R → List (Queue × (String × Dict String V))
update event_type func_args = Notify.update event_type ("event", func_args)

module _ {V : Type 0} (text : String → V) where
  unfoldable pub listener_args : HassEvent V → Dict String V
  listener_args event =
      update_all
        (("trigger_type", text "event")
          ∷ ("event_type", text event.event_type)
          ∷ ("context", event.context)
          ∷ [])
        event.fields

  unfoldable pub event_listener :
      {R : Type 0} → HassEvent V → Event R → List (Queue × (String × Dict String V))
  unfolding update listener_args
  event_listener event = update event.event_type (listener_args event)
