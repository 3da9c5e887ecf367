-- ===== src/Timer/Active.antt =====
-- Whether a time condition holds (custom_components/pyscript/trigger.py): `timer_active_check`.
use pyscript.Base.{
  ℕ, String, Bool, true, false, not, ◌&&◌, ◌||◌, Option, none, some, List, [], ◌∷◌, ◌++◌,
  if◌then◌else◌, leb,
}
use pyscript.Base.Dict.{Dict}
use pyscript.Base.Lists.{any, all, is_empty}
use pyscript.Base.Result.{Result, ok, then_try}
use pyscript.Timer.{pos, Time, Token, Sun}
use pyscript.Timer.Next.{date_time}

-- an entry without its `not`, by the regular expression that matches it
pub data Active (C : Type 0) : Type 0 where
  in_cron : C → Active C
  in_range : List Token → List Token → Active C
  invalid : Active C

-- an entry of `@time_active`; `is_negated` says that it starts with `not`
pub record Entry (C : Type 0) : Type 0 where
  pub is_negated : Bool
  pub active : Active C

-- `croniter`: whether an expression is valid, and whether a time matches it
pub record CronMatch (C : Type 0) : Type 0 where
  pub is_valid : C → Bool
  pub matches : C → Time → Bool

-- `results`: the matches of the entries, and of those with `not` the opposite
pub record Results : Type 0 where
  pub plus : List Bool
  pub minus : List Bool

abbrev pub holds : Bool → Bool
holds b = b

abbrev pub in_times : Time → Time → Time → Bool
in_times start end now =
    if leb start end then leb start now && leb now end else leb start now || leb now end

abbrev pub note : Bool → Bool → Results → Results
note true this_match r = record r { minus = r.minus ++ not this_match ∷ [] }
note false this_match r = record r { plus = r.plus ++ this_match ∷ [] }

-- `result`
abbrev pub verdict : Results → Bool
verdict r = (if is_empty r.plus then true else any holds r.plus) && all holds r.minus

abbrev pub after_entry : Option Bool → (Bool → Result Bool) → Result Bool
after_entry none f = ok false
after_entry (some b) f = f b

module _ {C : Type 0} (croniter : CronMatch C) (dow2int : Dict String ℕ) (sun : Sun) where
  -- whether an entry matches; none where the source logs an error and returns
  unfoldable pub this_match : Active C → Time → Time → Result (Option Bool)
  this_match (in_cron c) now startup_time =
      ok (if croniter.is_valid c then some (croniter.matches c now) else none)
  this_match (in_range dt_start dt_end) now startup_time =
      then_try (date_time dow2int sun dt_start (pos 0) now startup_time) (λ start.
        then_try (date_time dow2int sun dt_end (pos 0) start startup_time)
          (λ end. ok (some (in_times start end now))))
  this_match invalid now startup_time = ok none

  unfoldable pub check_entries : List (Entry C) → Time → Time → Results → Result Bool
  check_entries [] now startup_time r = ok (verdict r)
  check_entries (e ∷ time_spec) now startup_time r =
      then_try (this_match e.active now startup_time)
        (λ m. after_entry m (λ b. check_entries time_spec now startup_time (note e.is_negated b r)))

  -- `timer_active_check`
  unfoldable pub timer_active_check : List (Entry C) → Time → Time → Result Bool
  timer_active_check time_spec now startup_time =
      check_entries time_spec now startup_time (record { plus = []; minus = [] })
