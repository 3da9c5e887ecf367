-- ===== src/Notify/Mqtt.antt =====
-- custom_components/pyscript/mqtt.py: the class `Mqtt`. Its `notify_add` waits for
-- `mqtt.async_subscribe` between entering the topic and storing the remover, and other tasks run
-- meanwhile: it is modelled as the part before the wait and the part after it.
use text.Mathlib.TextEquality.{eq_iff}
use pyscript.Base.{
  String, ◌≡◌, Bool, true, false, ◌==◌, string_key, Option, none, some, List, [], ◌∷◌, arith,
  if◌then◌else◌, Key, nat_key,
}
use pyscript.Base.Dict.{Dict, put, has, get-put}
use pyscript.Base.Result.{Method, ok, err, key_error}
use pyscript.Base.Bag.{add, discard}
use pyscript.Notify
use pyscript.Notify.{Table, Queue, listen, subscribed, open_topic, join, close_topic, queues}
use pyscript.Notify.Effects.{live}
use pyscript.Notify.Valid.{IsValid}

-- what `mqtt.async_subscribe` is told besides the topic: the encoding
abbrev pub Mqtt : Type 0 → Type 0
Mqtt R = Table String R

abbrev pub encoding_or_default : Option String → String
encoding_or_default none = "utf-8"
encoding_or_default (some e) = if e == "" then "utf-8" else e

module _ {R : Type 0} where
  -- `notify_add` up to the wait; a topic that is there is joined at once. The test tells whether
  -- it waits.
  unfoldable pub notify_add_before : String → Queue → Mqtt R → Bool × Mqtt R
  notify_add_before topic queue h =
      if has h.notify topic
      then (false, join topic queue h)
      else (true, record h { notify = put h.notify topic [] })

  -- `notify_add` after the wait, with the remover that the subscription returned; the topic may
  -- be gone by then
  unfoldable pub notify_add_after : String → Option String → R → Queue → Method (Mqtt R) (Unit {0})
  notify_add_after topic encoding remover queue h =
      let h' = record h {
        notify_remove = put h.notify_remove topic remover;
        calls = listen topic (encoding_or_default encoding) remover ∷ h.calls;
      } in
      if has h'.notify topic then (ok tt, join topic queue h') else (err key_error, h')

  -- `notify_add` when no other task runs during the wait
  unfoldable pub notify_add : String → Option String → R → Queue → Method (Mqtt R) (Unit {0})
  unfolding notify_add_before notify_add_after
  notify_add topic encoding remover queue h =
      let (waits, h') = notify_add_before topic queue h in
      if waits then notify_add_after topic encoding remover queue h' else (ok tt, h')

  unfoldable pub notify_del : String → Queue → Method (Mqtt R) (Unit {0})
  notify_del topic queue = Notify.notify_del topic queue

-- an MQTT message, and what `json.loads` makes of its payload
pub record Message (V : Type 0) : Type 0 where
  pub topic : String
  pub payload : V
  pub qos : V
  pub retain : V

-- the message `["mqtt", func_args]`
unfoldable pub update :
    {R V : Type 0} → String → Dict String V → Mqtt R → List (Queue × (String × Dict String V))
update topic func_args = Notify.update topic ("mqtt", func_args)

module _ {V : Type 0} (text : String → V) (loads : V → Option V) where
  -- a payload that is no JSON is passed over
  abbrev pub parsed : Option V → Dict String V
  parsed none = []
  parsed (some v) = ("payload_obj", v) ∷ []

  unfoldable pub handler_args : Message V → Dict String V
  handler_args m =
      ("trigger_type", text "mqtt")
      ∷ ("topic", text m.topic)
      ∷ ("payload", m.payload)
      ∷ ("qos", m.qos)
      ∷ ("retain", m.retain)
      ∷ parsed (loads m.payload)

  -- the handler of a subscription: it reports to the subscribed topic, which may be a pattern
  unfoldable pub mqtt_message_handler :
      {R : Type 0} → String → Message V → Mqtt R → List (Queue × (String × Dict String V))
  unfolding update handler_args
  mqtt_message_handler subscribed_topic m = update subscribed_topic (handler_args m)

module _ {R : Type 0} (topic : String) (encoding : Option String) (r : R) (queue : Queue)
    (h : Mqtt R) where
  -- Without interference `notify_add` does not raise, and does what the other classes do.
  notify_add_alone :
      notify_add topic encoding r queue h
      ≡ (ok tt, Notify.notify_add topic (encoding_or_default encoding) r queue h)
  unfolding notify_add Notify.notify_add
  notify_add_alone = ground (arith, get-put h.notify topic topic [], eq_iff topic topic)

  -- While a first `notify_add` of a topic waits, a second one returns at once; if its queue leaves
  -- again before the wait is over, `notify_del` raises KeyError.
  notify_del_during_wait :
      (other : Queue)
      → has h.notify topic ≡ false
      → has h.notify_remove topic ≡ false
      → (notify_del topic other
          (notify_add_before topic other (notify_add_before topic queue h).1).1).0
        ≡ err key_error
  unfolding notify_add_before notify_del Notify.notify_del join add discard
  notify_del_during_wait other absent free = ground (
    arith,
    get-put h.notify topic topic [],
    get-put (put h.notify topic []) topic topic (other ∷ []),
    eq_iff topic topic,
    nat_key.same_iff other other,
  )

  -- If the subscription fails, `notify_add` raises after it has entered the topic: later calls
  -- join it, and their queues wait for a topic with no listener.
  notify_add_after_failure :
      ⦃key : Key R⦄ (other : Queue)
      → IsValid h
      → has h.notify topic ≡ false
      → (subscribed
            (notify_add topic encoding r other (notify_add_before topic queue h).1).1
            topic
            other
          ≡ true)
        × (live
              (notify_add topic encoding r other (notify_add_before topic queue h).1).1.calls
              topic
            ≡ [])
  unfolding notify_add_before notify_add join add queues
  notify_add_after_failure other v absent = (
    ground (
      arith,
      get-put h.notify topic topic [],
      get-put (put h.notify topic []) topic topic (other ∷ []),
      eq_iff topic topic,
      nat_key.same_iff other other,
    ),
    ground (
      arith,
      get-put h.notify topic topic [],
      eq_iff topic topic,
      v.listening topic,
      v.same_topics topic,
    ),
  )
