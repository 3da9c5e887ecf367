-- ===== src/Notify/Effects.antt =====
-- What each operation of a notification table changes, at each topic, and the listeners that
-- Home Assistant holds after the calls of a table.
use pyscript.Base.{
  String, Key, ◌==◌, string_key, nat_key, Bool, not, ◌&&◌, ◌≡◌, none, some, List, [], ◌∷◌, arith,
  if◌then◌else◌, is_some,
}
use text.Mathlib.TextEquality.{eq_iff}
use pyscript.Base.Bag.{add, discard}
use pyscript.Base.Dict.{get, put, has, get-put, get-remove}
use pyscript.Base.Lists.{contains, is_empty}
use pyscript.Notify.{Call, listen, unlisten, Table, or_nobody, notify_add, notify_del, Queue}

module _ {R : Type 0} ⦃key : Key R⦄ where
  -- The listeners that Home Assistant holds for a topic after some calls: each `listen` adds one.
  unfoldable pub live : {L : Type 0} → List (Call L R) → String → List R
  live [] topic = []
  live (listen u args r ∷ calls) topic =
      let rest = live calls topic in if u == topic then r ∷ rest else rest
  live (unlisten r ∷ calls) topic = discard (live calls topic) r

-- What `notify_add` changes, at each topic.
module _ {L R : Type 0} (topic : String) (args : L) (r : R) (queue : Queue) (h : Table L R) where
  pub notify-notify_add :
      (t : String)
      → get (notify_add topic args r queue h).notify t
        ≡ (if topic == t then some (add (or_nobody (get h.notify topic)) queue) else get h.notify t)
  unfolding notify_add
  notify-notify_add t = ground (
    arith,
    get-put (put h.notify topic []) topic t (add [] queue),
    get-put h.notify topic topic [],
    get-put h.notify topic t [],
    get-put h.notify topic t (add (or_nobody (get h.notify topic)) queue),
    eq_iff topic topic,
  )

  pub notify_remove-notify_add :
      (t : String)
      → get (notify_add topic args r queue h).notify_remove t
        ≡ (if (topic == t) && not (has h.notify topic) then some r else get h.notify_remove t)
  unfolding notify_add
  notify_remove-notify_add t = ground (arith, get-put h.notify_remove topic t r)

  pub live-notify_add :
      ⦃key : Key R⦄ (t : String)
      → live (notify_add topic args r queue h).calls t
        ≡ (if (topic == t) && not (has h.notify topic) then r ∷ live h.calls t else live h.calls t)
  unfolding notify_add live
  live-notify_add t = ground arith

-- What `notify_del` changes, at each topic.
module _ {L R : Type 0} (topic : String) (queue : Queue) (h : Table L R) where
  abbrev pub was : Bool
  was = has h.notify topic && contains (or_nobody (get h.notify topic)) queue

  abbrev pub left : List Queue
  left = discard (or_nobody (get h.notify topic)) queue

  abbrev pub closed : Bool
  closed = was && (is_empty left && is_some (get h.notify_remove topic))

  pub notify-notify_del :
      (t : String)
      → get (notify_del topic queue h).1.notify t
        ≡ (if (topic == t) && was then (if closed then none else some left) else get h.notify t)
  unfolding notify_del
  notify-notify_del t =
      ground (arith, get-put h.notify topic t left, get-remove (put h.notify topic left) topic t)

  pub notify_remove-notify_del :
      (t : String)
      → get (notify_del topic queue h).1.notify_remove t
        ≡ (if (topic == t) && closed then none else get h.notify_remove t)
  unfolding notify_del
  notify_remove-notify_del t = ground (arith, get-remove h.notify_remove topic t)

  pub live-notify_del :
      ⦃key : Key R⦄ (t : String)
      → live (notify_del topic queue h).1.calls t ≡ (
          if closed
          then elim (get h.notify_remove topic) [
            | none ↦ live h.calls t
            | some r ↦ discard (live h.calls t) r
          ]
          else live h.calls t)
  unfolding notify_del live
  live-notify_del t = ground arith
