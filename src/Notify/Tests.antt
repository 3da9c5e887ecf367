-- ===== src/Notify/Tests.antt =====
-- Runs of the notification tables, and the theorems about them at concrete inputs.
use pyscript.Base.{
  ℕ, string_key, nat_key, ◌≡◌, refl, true, false, List, [], ◌∷◌, arith, if◌then◌else◌,
}
use pyscript.Base.Bag.{add, discard}
use pyscript.Base.Dict.{get, put}
use pyscript.Base.Lists.{is_empty, length}
use text.Mathlib.TextEquality.{eq_iff}
use pyscript.Notify
use pyscript.Notify.{Table, empty, queues, subscribed, notify_add, notify_del, update}
use pyscript.Notify.Effects.{live}
use pyscript.Notify.Valid.{IsValid, empty-IsValid, notify_add-IsValid}
use pyscript.Notify.Subscribers.{subscribed-notify_add, subscribed-notify_del}
use pyscript.Notify.History.{AllFresh, Op, adds, dels, run, wants, subscribed-run, live-run}
use pyscript.Notify.Mqtt

abbrev T : Type 0
T = Table (Unit {0}) ℕ

-- two queues on one topic; the first leaves
abbrev ops : List (Op (Unit {0}) ℕ)
ops = dels "t" 1 ∷ adds "t" tt 8 2 ∷ adds "t" tt 7 1 ∷ []

abbrev none_yet : T
none_yet = empty

abbrev one : T
one = notify_add "t" tt 7 1 empty

one-IsValid : IsValid one
unfolding get
one-IsValid = notify_add-IsValid "t" 1 empty tt 7 (λ t p. cc) empty-IsValid

last_leaves : (notify_del "t" 1 one).1.calls ≡ Notify.unlisten 7 ∷ Notify.listen "t" tt 7 ∷ []
unfolding notify_add notify_del get put add discard
last_leaves = refl

subscribed-notify_add_example : subscribed one "t" 1 ≡ true
unfolding queues get
subscribed-notify_add_example = subscribed-notify_add "t" 1 none_yet tt 7 "t" 1

subscribed-notify_del_example : subscribed (notify_del "t" 1 one).1 "t" 1 ≡ false
unfolding notify_add queues get put add
subscribed-notify_del_example = subscribed-notify_del "t" 1 one "t" 1

subscribed-run_example : subscribed (run ops) "t" 2 ≡ true
unfolding wants
subscribed-run_example = subscribed-run ops "t" 2

ops-AllFresh : AllFresh ops
unfolding run notify_add get put
ops-AllFresh = (λ t p. ground (arith, eq_iff "t" t), (λ t p. cc, tt))

live-run_example :
    length (live (run ops).calls "t") ≡ (if is_empty (queues (run ops) "t") then 0 else 1)
live-run_example = live-run ops "t" ops-AllFresh

abbrev no_topics : Mqtt.Mqtt ℕ
no_topics = empty
