-- ===== src/Notify/Subscribers.antt =====
-- What a notification table promises: the queues that asked for a topic and have not left get
-- each message of it once, and Home Assistant holds a listener exactly for the topics with one.
use text.Mathlib.TextEquality.{eq_iff}
use pyscript.Base.{
  ℕ, ◌+◌, String, Key, ◌==◌, string_key, nat_key, true, false, not, ◌&&◌, ◌||◌, ◌≡◌, refl, List, [],
  ◌∷◌, map, arith, if◌then◌else◌,
}
use pyscript.Base.Bag.{discard, contains-add, contains-discard}
use pyscript.Base.Dict.{get}
use pyscript.Base.Lists.{contains, distinct, is_empty, length}
use pyscript.Notify.{Table, Queue, or_nobody, queues, subscribed, notify_add, notify_del, update}
use pyscript.Notify.Valid.{IsValid, queues-distinct}
use pyscript.Notify.Effects.{live, notify-notify_add, notify-notify_del}

empty_has_none : (s : List Queue) (q : Queue) → is_empty s ≡ true → contains s q ≡ false
empty_has_none [] q e = refl
empty_has_none (x ∷ s) q e = cc

module _ {L R : Type 0} (topic : String) (queue : Queue) (h : Table L R) where
  -- After `notify_add` a queue waits for what it waited for, and the new queue for its topic too.
  pub subscribed-notify_add :
      (args : L) (r : R) (t : String) (q : Queue)
      → subscribed (notify_add topic args r queue h) t q
        ≡ ((topic == t) && (queue == q) || subscribed h t q)
  unfolding queues
  subscribed-notify_add args r t q = ground (
    arith,
    notify-notify_add topic args r queue h t,
    contains-add (or_nobody (get h.notify topic)) queue q,
    eq_iff topic t,
  )

  left_empty :
      (q : Queue)
      → is_empty (discard (or_nobody (get h.notify topic)) queue) ≡ true
      → contains (discard (or_nobody (get h.notify topic)) queue) q ≡ false
  left_empty q e = empty_has_none (discard (or_nobody (get h.notify topic)) queue) q e

  -- After `notify_del` only the one queue stops waiting, and only for the one topic.
  pub subscribed-notify_del :
      (t : String) (q : Queue)
      → subscribed (notify_del topic queue h).1 t q
        ≡ (subscribed h t q && not ((topic == t) && (queue == q)))
  unfolding queues
  subscribed-notify_del t q = ground (
    arith,
    notify-notify_del topic queue h t,
    contains-discard (or_nobody (get h.notify topic)) queue q,
    left_empty q,
    eq_iff topic t,
    nat_key.same_iff queue q,
  )

-- how many of the messages a queue is sent
abbrev pub sent {ℓ} : {M : Type ℓ} → Queue → List (Queue × M) → ℕ
sent q [] = 0
sent q ((p, m) ∷ ds) = (if p == q then 1 else 0) + sent q ds

sent-map {ℓ} :
    {M : Type ℓ} (m : M) (q : Queue) (s : List Queue)
    → distinct s ≡ true
    → sent q (map (λ p. (p, m)) s) ≡ (if contains s q then 1 else 0)
sent-map m q [] d = refl
sent-map m q (p ∷ s) d = ground (arith, sent-map m q s, nat_key.same_iff p q)

module _ {L R : Type 0} ⦃key : Key R⦄ (topic : String) (h : Table L R) where
  -- In a valid table `update` sends a message once to each queue that waits for the topic, and
  -- to no other.
  sent-update {ℓ} :
      {M : Type ℓ} (m : M) (q : Queue)
      → IsValid h
      → sent q (update topic m h) ≡ (if subscribed h topic q then 1 else 0)
  unfolding update
  sent-update m q v = sent-map m q (or_nobody (get h.notify topic)) (queues-distinct h v topic)

  -- A valid table has one listener in Home Assistant for a topic that a queue waits for, and else none.
  pub live-eq-waiting :
      IsValid h → length (live h.calls topic) ≡ (if is_empty (queues h topic) then 0 else 1)
  unfolding queues
  live-eq-waiting v = ground (
    arith,
    v.listening topic,
    v.same_topics topic,
    v.inhabited topic (or_nobody (get h.notify topic)),
  )
