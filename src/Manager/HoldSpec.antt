-- ===== src/Manager/HoldSpec.antt =====
-- A state trigger with a hold time fires only where the trigger was true for that long.
use pyscript.Base.{
  ℕ, ◌+◌, nat_key, Bool, true, false, not, ◌&&◌, ◌||◌, ◌≡◌, refl, Option, none, some, List, [], ◌∷◌,
  arith, if◌then◌else◌, is_some, leb, ◌∙◌, and_parts,
}
use mathlib.Core.Path.{sym, subst}
use pyscript.Manager.Hold.{
  Hold, lasted, enter_true, false_passed, true_passed, if_passed, begin_false, check_new_state,
  check_hold, check_state_hold, Event, changed, elapsed, is_ok_true, cycle_round,
}

-- since when each change found the trigger true
abbrev pub or_now : Option ℕ → ℕ → Option ℕ
or_now none now = some now
or_now (some t) now = some t

abbrev pub true_since : Event → ℕ → Option ℕ → Option ℕ
true_since (changed true) now since = or_now since now
true_since (changed false) now since = none
true_since elapsed now since = since

-- the trigger is true for a time
abbrev pub is_held : ℕ → ℕ → Option ℕ → Bool
is_held hold now none = false
is_held hold now (some t) = leb (t + hold) now

-- each dispatch of a history comes where the trigger was true for the time `hold`
unfoldable pub all_held : ℕ → List (Event × ℕ) → Hold → Option ℕ → Bool
all_held hold [] h since = true
all_held hold ((e, now) ∷ events) h since =
    let (fired, h') = cycle_round e now h in
    let since' = true_since e now since in
    (not fired || is_held hold now since') && all_held hold events h' since'

-- times that do not go back
unfoldable pub in_order : ℕ → List (Event × ℕ) → Bool
in_order last [] = true
in_order last ((e, now) ∷ events) = leb last now && in_order now events

-- the time entered is not before the trigger became true, and neither is in the future
abbrev pub entered_since : Option ℕ → Option ℕ → ℕ → Bool
entered_since none none last = true
entered_since none (some t0) last = leb t0 last
entered_since (some t) none last = false
entered_since (some t) (some t0) last = leb t0 t && leb t last

-- what holds after a round at `now`, where the trigger is true since `since`
abbrev pub IsHeld : ℕ → ℕ → Option ℕ → Bool × Hold → Type 0
IsHeld hold now since (fired, h) =
    (h.state_hold ≡ some hold)
    × (entered_since h.true_entered_at since now ≡ true)
    × ((not fired || is_held hold now since) ≡ true)

lasted-held :
    (hold now last : ℕ) (entered since : Option ℕ)
    → entered_since entered since last ≡ true
    → leb last now ≡ true
    → lasted entered hold now ≡ true
    → is_held hold now since ≡ true
lasted-held hold now last none since i o l = ground arith
lasted-held hold now last (some t) none i o l = ground arith
lasted-held hold now last (some t) (some t0) i o l = ground arith

entered-later :
    (now last : ℕ) (entered since : Option ℕ)
    → entered_since entered since last ≡ true
    → leb last now ≡ true
    → entered_since entered (or_now since now) now ≡ true
entered-later now last none none i o = ground arith
entered-later now last none (some t) i o = ground arith
entered-later now last (some t) none i o = ground arith
entered-later now last (some t) (some t0) i o = ground arith

held-or_now :
    (hold now : ℕ) (since : Option ℕ)
    → is_held hold now since ≡ true
    → is_held hold now (or_now since now) ≡ true
held-or_now hold now none l = ground arith
held-or_now hold now (some t) l = l

entered-now :
    (now last : ℕ) (entered since : Option ℕ)
    → entered_since entered since last ≡ true
    → leb last now ≡ true
    → entered_since (some now) (or_now since now) now ≡ true
entered-now now last entered none i o = ground arith
entered-now now last none (some t) i o = ground arith
entered-now now last (some u) (some t) i o = ground arith

entered-none :
    (now last : ℕ) (entered since : Option ℕ)
    → entered_since entered since last ≡ true
    → leb last now ≡ true
    → entered_since none since now ≡ true
entered-none now last entered none i o = refl
entered-none now last none (some t) i o = ground arith
entered-none now last (some u) (some t) i o = ground arith

true_passed-IsHeld :
    (hold now last : ℕ) (h : Hold) (since : Option ℕ)
    → h.state_hold ≡ some hold
    → entered_since h.true_entered_at since last ≡ true
    → leb last now ≡ true
    → IsHeld hold now (or_now since now) (
        let (passed, h') = true_passed (some hold) now h in
        (passed, if passed then enter_true none h' else h'))
true_passed-IsHeld hold now last h since s i o =
    let later = entered-later now last h.true_entered_at since i o in
    let fresh = entered-now now last h.true_entered_at since i o in
    let gone = entered-none now now h.true_entered_at (or_now since now) later in
    let held = lasted-held hold now last h.true_entered_at since i o in
    (
      ground (arith, s),
      ground (arith, later, fresh, gone),
      ground (arith, held, held-or_now hold now since),
    )

if_passed-IsHeld :
    (hold now last : ℕ) (passed : Bool) (h : Hold) (since : Option ℕ)
    → h.state_hold ≡ some hold
    → entered_since h.true_entered_at since last ≡ true
    → leb last now ≡ true
    → IsHeld hold now (or_now since now) (if_passed (passed, h) now)
if_passed-IsHeld hold now last true h since s i o =
    subst
      (λ x. IsHeld hold now (or_now since now) (
        let (passed, h') = true_passed x now h in
        (passed, if passed then enter_true none h' else h')))
      (sym s) (true_passed-IsHeld hold now last h since s i o)
if_passed-IsHeld hold now last false h since s i o =
    (s, entered-later now last h.true_entered_at since i o, refl)

true_part-false_passed :
    (o : Option ℕ) (now : ℕ) (h : Hold)
    → ((false_passed o now h).1.state_hold ≡ h.state_hold)
      × ((false_passed o now h).1.true_entered_at ≡ h.true_entered_at)
true_part-false_passed none now h = (refl, refl)
true_part-false_passed (some hold) now h = (ground arith, ground arith)

true_part-begin_false :
    (o : Option ℕ) (now : ℕ) (h : Hold)
    → ((begin_false o now h).state_hold ≡ h.state_hold)
      × ((begin_false o now h).true_entered_at ≡ h.true_entered_at)
true_part-begin_false none now h = (refl, refl)
true_part-begin_false (some hold) now h = (ground arith, ground arith)

timeout-IsHeld :
    (hold now last : ℕ) (entered : Option ℕ) (h : Hold) (since : Option ℕ)
    → h.true_entered_at ≡ entered
    → h.state_hold ≡ some hold
    → entered_since entered since last ≡ true
    → leb last now ≡ true
    → IsHeld hold now since
        (if is_some entered then is_ok_true (check_hold entered (some hold) now h) else (false, h))
timeout-IsHeld hold now last none h since e s i o =
    (s, ground (arith, entered-none now last none since i o), refl)
timeout-IsHeld hold now last (some t) h none e s i o = ground (arith, i)
timeout-IsHeld hold now last (some t) h (some t0) e s i o =
    (ground arith, ground arith, ground arith)

round-IsHeld :
    (hold : ℕ) (e : Event) (now last : ℕ) (h : Hold) (since : Option ℕ)
    → h.state_hold ≡ some hold
    → entered_since h.true_entered_at since last ≡ true
    → leb last now ≡ true
    → IsHeld hold now (true_since e now since) (cycle_round e now h)
unfolding cycle_round check_new_state check_state_hold
round-IsHeld hold (changed true) now last h since s i o =
    let (k, t) = true_part-false_passed h.state_hold_false now h in
    let (passed, h') = false_passed h.state_hold_false now h in
    if_passed-IsHeld hold now last passed h' since (k ∙ s) (rw t i) o
round-IsHeld hold (changed false) now last h since s i o =
    (ground arith, ground arith, ground arith)
round-IsHeld hold elapsed now last h since s i o =
    subst
      (λ x. IsHeld hold now since (
        if is_some h.true_entered_at
        then is_ok_true (check_hold h.true_entered_at x now h)
        else (false, h)))
      (sym s) (timeout-IsHeld hold now last h.true_entered_at h since refl s i o)

-- In a history with times in order, a trigger with a `state_hold` dispatches only where every
-- change for at least that time found it true, if at first its hold time did not begin before the
-- trigger became true.
pub all_held-history :
    (hold : ℕ) (events : List (Event × ℕ)) (last : ℕ) (h : Hold) (since : Option ℕ)
    → h.state_hold ≡ some hold
    → entered_since h.true_entered_at since last ≡ true
    → in_order last events ≡ true
    → all_held hold events h since ≡ true
unfolding all_held in_order
all_held-history hold [] last h since s i o = refl
all_held-history hold ((e, now) ∷ events) last h since s i o =
    let (first, rest) = and_parts (leb last now) (in_order now events) o in
    let (s', i', held) = round-IsHeld hold e now last h since s i first in
    ground (
      arith,
      held,
      all_held-history hold events now (cycle_round e now h).1 (true_since e now since) s' i' rest,
    )
