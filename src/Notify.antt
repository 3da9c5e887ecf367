-- ===== src/Notify.antt =====
-- The notification tables of event.py, webhook.py and mqtt.py: which queues wait for a topic (an
-- event type, a webhook id, an MQTT topic), and the listener that is registered for each topic
-- in Home Assistant. The three classes have this table in common.
pub mod Effects
pub mod Valid
pub mod Subscribers
pub mod History
pub mod Event
pub mod Webhook
pub mod Mqtt
mod Tests
use pyscript.Base.{
  ℕ, String, ◌==◌, string_key, nat_key, Key, Bool, true, false, ◌&&◌, Option, none, some, List, [],
  ◌∷◌, map, if◌then◌else◌, not, ◌||◌,
}
use pyscript.Base.Bag.{add, discard}
use pyscript.Base.Dict.{Dict, get, put, remove, has}
use pyscript.Base.Lists.{contains, is_empty}
use pyscript.Base.Result.{Method, Result, ok, err, key_error, ◌>>=◌}

-- an `asyncio.Queue`, by its identity
abbrev pub Queue : Type 0
Queue = ℕ

-- The calls that a table makes to Home Assistant: one that registers a listener, with its
-- arguments `L`, and returns the function `R` that removes it, and a call of such a function.
pub data Call (L R : Type 0) : Type 0 where
  listen : String → L → R → Call L R
  unlisten : R → Call L R

-- The class attributes, and the calls made so far, the latest first.
pub record Table (L R : Type 0) : Type 0 where
  pub notify : Dict String (List Queue)
  pub notify_remove : Dict String R
  pub calls : List (Call L R)

abbrev pub empty : {L R : Type 0} → Table L R
empty = record { notify = []; notify_remove = []; calls = [] }

abbrev pub or_nobody : Option (List Queue) → List Queue
or_nobody none = []
or_nobody (some s) = s

module _ {L R : Type 0} where
  -- `cls.notify[topic]`, a set of queues
  unfoldable pub queues : Table L R → String → List Queue
  queues h topic = or_nobody (get h.notify topic)

  -- whether a queue waits for a topic
  abbrev pub subscribed : Table L R → String → Queue → Bool
  subscribed h topic queue = contains (queues h topic) queue

  -- the first half of `notify_add`: the set and the listener of a topic that has none yet;
  -- `args` and `remover` are what the registering call is given and returns
  unfoldable pub open_topic : String → L → R → Table L R → Table L R
  open_topic topic args remover h = if has h.notify topic then h else record h {
    notify = put h.notify topic [];
    notify_remove = put h.notify_remove topic remover;
    calls = listen topic args remover ∷ h.calls;
  }

  -- `cls.notify[topic].add(queue)`
  unfoldable pub join : String → Queue → Table L R → Table L R
  join topic queue h = record h {
    notify = put h.notify topic (add (or_nobody (get h.notify topic)) queue);
  }

  unfoldable pub notify_add : String → L → R → Queue → Table L R → Table L R
  unfolding open_topic join
  notify_add topic args remover queue h = join topic queue (open_topic topic args remover h)

  -- what follows the test of `notify_del`, with `cls.notify[topic]` and `cls.notify_remove[topic]`
  unfoldable pub close_topic : String → List Queue → Option R → Method (Table L R) (Unit {0})
  close_topic topic left remover h =
      if is_empty left
      then elim remover [
        | none ↦ (err key_error, h)
        | some r ↦ (
          ok tt,
          record {
            notify = remove h.notify topic;
            notify_remove = remove h.notify_remove topic;
            calls = unlisten r ∷ h.calls;
          },
        )
      ]
      else (ok tt, h)

  -- `cls.notify_remove[topic]()` raises if the topic has no remover
  unfoldable pub notify_del : String → Queue → Method (Table L R) (Unit {0})
  unfolding close_topic queues
  notify_del topic queue h =
      if has h.notify topic && contains (or_nobody (get h.notify topic)) queue
      then (let left = discard (or_nobody (get h.notify topic)) queue in
          close_topic topic left (get h.notify_remove topic)
            (record h { notify = put h.notify topic left }))
      else (ok tt, h)

  -- `update`: one message for each queue of the topic, in the order of the set
  unfoldable pub update {ℓ} : {M : Type ℓ} → String → M → Table L R → List (Queue × M)
  unfolding queues
  update topic message h = map (λ queue. (queue, message)) (or_nobody (get h.notify topic))
