-- ===== src/Notify/History.antt =====
-- A notification table after any sequence of `notify_add` and `notify_del`, against what the
-- callers asked for.
use pyscript.Base.{
  String, Key, ◌==◌, string_key, nat_key, Bool, false, not, ◌&&◌, ◌||◌, ◌≡◌, refl, List, [], ◌∷◌,
  if◌then◌else◌,
}
use pyscript.Base.Dict.{get}
use pyscript.Base.Lists.{is_empty, length}
use pyscript.Notify.{Table, empty, Queue, queues, subscribed, notify_add, notify_del}
use pyscript.Notify.Effects.{live}
use pyscript.Notify.Valid.{IsValid, IsFresh, empty-IsValid, notify_add-IsValid, notify_del-IsValid}
use pyscript.Notify.Subscribers.{subscribed-notify_add, subscribed-notify_del, live-eq-waiting}

pub data Op (L R : Type 0) : Type 0 where
  adds : String → L → R → Queue → Op L R
  dels : String → Queue → Op L R

-- The table after some operations, the latest first.
unfoldable pub run : {L R : Type 0} → List (Op L R) → Table L R
run [] = empty
run (adds topic args r queue ∷ ops) = notify_add topic args r queue (run ops)
run (dels topic queue ∷ ops) = (notify_del topic queue (run ops)).1

-- The specification: the last operation on a topic and a queue decides.
unfoldable pub wants : {L R : Type 0} → List (Op L R) → String → Queue → Bool
wants [] t q = false
wants (adds topic args r queue ∷ ops) t q = (topic == t) && (queue == q) || wants ops t q
wants (dels topic queue ∷ ops) t q = wants ops t q && not ((topic == t) && (queue == q))

-- Home Assistant never returns a remover that is in use.
abbrev pub AllFresh : {L R : Type 0} → List (Op L R) → Type 0
AllFresh [] = Unit {0}
AllFresh (adds topic args r queue ∷ ops) = IsFresh r (run ops) × AllFresh ops
AllFresh (dels topic queue ∷ ops) = AllFresh ops

module _ {L R : Type 0} where
  -- After any operations, a queue waits for a topic exactly if the specification says so.
  pub subscribed-run :
      (ops : List (Op L R)) (t : String) (q : Queue) → subscribed (run ops) t q ≡ wants ops t q
  unfolding run wants queues get
  subscribed-run [] t q = refl
  subscribed-run (adds topic args r queue ∷ ops) t q =
      cc (subscribed-notify_add topic queue (run ops) args r t q, subscribed-run ops t q)
  subscribed-run (dels topic queue ∷ ops) t q =
      cc (subscribed-notify_del topic queue (run ops) t q, subscribed-run ops t q)

  module _ ⦃key : Key R⦄ where
    pub run-IsValid : (ops : List (Op L R)) → AllFresh ops → IsValid (run ops)
    unfolding run
    run-IsValid [] f = empty-IsValid
    run-IsValid (adds topic args r queue ∷ ops) f =
        notify_add-IsValid topic queue (run ops) args r f.0 (run-IsValid ops f.1)
    run-IsValid (dels topic queue ∷ ops) f =
        (notify_del-IsValid topic queue (run ops) (run-IsValid ops f)).1

    -- After any operations, Home Assistant holds exactly one listener for a topic that some queue
    -- waits for, and none for another, if it never returned a remover that was in use and no
    -- registration raises.
    pub live-run :
        (ops : List (Op L R)) (t : String)
        → AllFresh ops
        → length (live (run ops).calls t) ≡ (if is_empty (queues (run ops) t) then 0 else 1)
    live-run ops t f = live-eq-waiting t (run ops) (run-IsValid ops f)
