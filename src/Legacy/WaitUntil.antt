-- ===== src/Legacy/WaitUntil.antt =====
-- `TrigTime.wait_until` (custom_components/pyscript/trigger.py): what it subscribes to and gives
-- back, how long a round waits, and what it makes of a notification.
use pyscript.Base.{
  ℕ, ◌==◌, nat_key, Bool, true, false, not, ◌&&◌, ◌||◌, Option, none, some, List, [], ◌∷◌,
  if◌then◌else◌, is_some, ltb, leb,
}
use pyscript.Base.Lists.{keep}
use pyscript.Legacy.{Config, Loop, Change, too_soon, begin_wait, stop_wait, set_false}

-- the tables of queues that `notify_add` puts the queue of the call into
pub data Topic : Type 0 where
  states events messages webhooks : Topic

abbrev pub is_topic : Topic → Topic → Bool
is_topic states states = true
is_topic events events = true
is_topic messages messages = true
is_topic webhooks webhooks = true
is_topic a b = false

-- a trigger argument: not given, or given with an expression that parses or does not
pub data Given : Type 0 where
  absent : Given
  given : Bool → Given

abbrev pub is_given : Given → Bool
is_given absent = false
is_given (given parses) = true

-- The arguments: whether `state_trigger` leaves names to watch, and the other triggers. `subscribes`
-- is false where the subscription of MQTT raises, and `registers` where `async_register` does, as for a
-- webhook id that is in use.
pub record Triggers : Type 0 where
  pub watches : Bool
  pub event_trigger : Given
  pub mqtt_trigger : Given
  pub webhook_trigger : Given
  pub subscribes : Bool
  pub registers : Bool

-- how the loop over the queue ends: by `break`, with an exception or not, or by an exception that
-- leaves it, as a cancellation does, or an invalid date of a time trigger
pub data End : Type 0 where
  broken : Bool → End
  escapes : End

abbrev pub drop : Topic → List Topic → List Topic
drop t held = keep (λ u. not (is_topic u t)) held

abbrev pub drop_if : Bool → Topic → List Topic → List Topic
drop_if true t held = drop t held
drop_if false t held = held

abbrev pub hold_if : Bool → Topic → List Topic → List Topic
hold_if true t held = t ∷ held
hold_if false t held = held

-- one of the blocks that parse an expression and add the queue: whether it goes on
abbrev pub subscribe : Triggers → Given → Topic → Bool → List Topic → Bool × List Topic
subscribe a absent t adds held = (true, held)
subscribe a (given true) t adds held = (adds, hold_if adds t held)
subscribe a (given false) t adds held = (false, drop_if a.watches states held)

-- the clean-up after the loop
abbrev pub unsubscribe : Triggers → List Topic → List Topic
unsubscribe a held = drop_if (is_given a.webhook_trigger) webhooks (
    drop_if (is_given a.mqtt_trigger) messages
      (drop_if (is_given a.event_trigger) events (drop_if a.watches states held)))

abbrev pub finish : Triggers → End → List Topic → List Topic
finish a (broken with_exception) held = unsubscribe a held
finish a escapes held = held

abbrev pub with_webhook : Triggers → End → Bool × List Topic → List Topic
with_webhook a end (false, held) = held
with_webhook a end (true, held) = finish a end held

abbrev pub with_mqtt : Triggers → End → Bool × List Topic → List Topic
with_mqtt a end (false, held) = held
with_mqtt a end (true, held) =
    with_webhook a end (subscribe a a.webhook_trigger webhooks a.registers held)

abbrev pub with_event : Triggers → End → Bool × List Topic → List Topic
with_event a end (false, held) = held
with_event a end (true, held) =
    with_mqtt a end (subscribe a a.mqtt_trigger messages a.subscribes held)

-- the topics that still have the queue when the call is over
unfoldable pub left_by_wait_until : Triggers → End → List Topic
left_by_wait_until a end =
    with_event a end (subscribe a a.event_trigger events true (hold_if a.watches states []))

-- whether the call gets to its loop
abbrev pub parses : Given → Bool
parses absent = true
parses (given b) = b

-- whether there is a queue left behind, by the cause
abbrev pub leaves_queue : Triggers → End → Bool
leaves_queue a end =
    let any_given =
      a.watches
      || is_given a.event_trigger
      || is_given a.mqtt_trigger
      || is_given a.webhook_trigger in
    if not (parses a.event_trigger)
    then false
    else if not (parses a.mqtt_trigger)
    then is_given a.event_trigger
    else if is_given a.mqtt_trigger && not a.subscribes
    then a.watches || is_given a.event_trigger
    else if not (parses a.webhook_trigger)
    then is_given a.event_trigger || is_given a.mqtt_trigger
    else if is_given a.webhook_trigger && not a.registers
    then a.watches || is_given a.event_trigger || is_given a.mqtt_trigger
    else (elim end [ broken b ↦ false | escapes ↦ any_given ])

-- what a round waits for, and for how long
pub data Kind : Type 0 where
  next_time the_timeout the_hold : Kind

pub data Plan : Type 0 where
  ends_timeout ends_none for_ever : Plan
  for : ℕ → Kind → Plan

abbrev pub shorter : Option (ℕ × Kind) → ℕ → Kind → Option (ℕ × Kind)
shorter none left kind = some (left, kind)
shorter (some t) left kind = if ltb left t.0 then some (left, kind) else some t

abbrev pub with_hold : Option ℕ → Option (ℕ × Kind) → Option (ℕ × Kind)
with_hold none t = t
with_hold (some left) t = shorter t left the_hold

abbrev pub as_time : Option ℕ → Option (ℕ × Kind)
as_time none = none
as_time (some t) = some (t, next_time)

abbrev pub as_plan : Bool → Option (ℕ × Kind) → Plan
as_plan has_trigger (some t) = for t.0 t.1
as_plan true none = for_ever
as_plan false none = ends_none

-- The times left: to the next time trigger, to the timeout, and of `state_hold` where it is waited
-- for; `has_trigger` says whether a notification can come.
unfoldable pub wait_plan : Option ℕ → Option ℕ → Option ℕ → Bool → Plan
wait_plan time_next none hold_left has_trigger =
    as_plan has_trigger (with_hold hold_left (as_time time_next))
wait_plan time_next (some left) hold_left has_trigger =
    if left == 0
    then ends_timeout
    else as_plan has_trigger (with_hold hold_left (shorter (as_time time_next) left the_timeout))

-- what a notification comes to: the call goes on waiting, or returns it
abbrev pub check_wait_hold :
    {N : Type 0} → Option ℕ → Change N → Bool → ℕ → Loop N → Option N × Loop N
check_wait_hold none c trig_ok now s = (if trig_ok then some c.info else none, s)
check_wait_hold (some hold) c true now s = (none, begin_wait c now s)
check_wait_hold (some hold) c false now s =
    if s.state_trig_waiting then (none, stop_wait s) else (none, s)

-- whether the change is ignored for `state_hold_false`
abbrev pub check_wait_false : {N : Type 0} → Option ℕ → Bool → ℕ → Loop N → Bool × Loop N
check_wait_false none trig_ok now s = (false, s)
check_wait_false (some hold) true now s =
    if is_some s.state_false_time
    then (too_soon s.state_false_time hold now, set_false none s)
    else (true, s)
check_wait_false (some hold) false now s =
    if is_some s.state_false_time then (false, s) else (false, set_false (some now) s)

abbrev pub unless_ignored :
    {N : Type 0} → Option ℕ → Change N → Bool → ℕ → Bool × Loop N → Option N × Loop N
unless_ignored hold c trig_ok now (true, s) = (none, s)
unless_ignored hold c trig_ok now (false, s) = check_wait_hold hold c trig_ok now s

-- whether the expression is evaluated for a change
abbrev pub is_evaluated : {N : Type 0} → Config → Change N → Bool
is_evaluated cfg c =
    cfg.has_expression && not c.any_changed && not (c.has_var_name && not c.values_changed)

-- where the expression does not raise
unfoldable pub wait_round : {N : Type 0} → Config → Change N → ℕ → Loop N → Option N × Loop N
wait_round cfg c now s =
    if c.any_changed
    then check_wait_hold cfg.state_hold c true now s
    else if c.has_var_name && not c.values_changed
    then (none, s)
    else if cfg.has_expression
    then unless_ignored cfg.state_hold c c.expression now
        (check_wait_false cfg.state_hold_false c.expression now s)
    else check_wait_hold cfg.state_hold c true now s

-- how the branch ends: it goes on, returns the notification, or leaves the loop with the exception
pub data Waited (N : Type 0) : Type 0 where
  goes_on : Waited N
  returns : N → Waited N
  fails : Waited N

abbrev pub waited : {N : Type 0} → Option N × Loop N → Waited N × Loop N
waited (none, s) = (goes_on, s)
waited (some info, s) = (returns info, s)

-- the branch for `notify_type == "state"`; `raises` says whether the expression raises
unfoldable pub check_wait_state :
    {N : Type 0} → Config → Bool → Change N → ℕ → Loop N → Waited N × Loop N
unfolding wait_round
check_wait_state cfg raises c now s =
    if raises && is_evaluated cfg c then (fails, s) else waited (wait_round cfg c now s)

abbrev pub is_return : {N : Type 0} → Waited N → Bool
is_return (returns info) = true
is_return w = false

-- `this_timeout` of the plan
abbrev pub length_of : Plan → Option ℕ
length_of (for t kind) = some t
length_of p = none

abbrev pub at_most : ℕ → Option ℕ → Bool
at_most t none = true
at_most t (some left) = leb t left
