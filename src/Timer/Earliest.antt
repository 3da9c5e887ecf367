-- ===== src/Timer/Earliest.antt =====
-- Of all that the specifications ask for, the earliest time is taken.
use pyscript.Base.{
  ℕ, ◌≤◌, String, ◌≡◌, none, some, List, [], ◌∷◌, ◌++◌, if◌then◌else◌, ltb, arith, sym, ap, ◌∙◌,
  inl, inr, Bool-cases,
}
use pyscript.Base.Dict.{Dict}
use pyscript.Base.Result.{ok_inj, err-ok, try-ok, Result, ok, err, then_try}
use pyscript.Timer.{Time, Sun}
use pyscript.Timer.Next.{TimeSpec, Cron, Next, offer, candidate, next_of, timer_trigger_next}

offer-NotAfter :
    (c n : Time × Time)
    → ((m : Time × Time) × (offer (some c) (some n) ≡ some m) × (m.0 ≤ c.0) × (m.0 ≤ n.0))
offer-NotAfter c n = elim (Bool-cases (ltb c.0 n.0)) [
  | inl e ↦ (c, ap (λ b. if b then some c else some n) e, omega arith, ground arith)
  | inr e ↦ (n, ap (λ b. if b then some c else some n) e, ground arith, omega arith)
]

module _ {C : Type 0} (croniter : Cron C) (dow2int : Dict String ℕ) (sun : Sun) (fuel : ℕ)
    (now startup_time : Time) where
  abbrev of : List (TimeSpec C) → Next → Result Next
  of time_spec next = next_of croniter dow2int sun fuel time_spec now startup_time next

  abbrev asks : TimeSpec C → Result Next
  asks spec = candidate croniter dow2int sun fuel spec now startup_time

  abbrev Earlier : List (TimeSpec C) → Type 0
  Earlier time_spec =
      (n : Time × Time) (r : Next)
      → of time_spec (some n) ≡ ok r
      → (m : Time × Time) × (r ≡ some m) × (m.0 ≤ n.0)

  -- one round, by what its specification asks for
  round-not_after :
      (time_spec : List (TimeSpec C)) (c : Result Next) (n : Time × Time) (r : Next)
      → Earlier time_spec
      → then_try c (λ c. of time_spec (offer c (some n))) ≡ ok r
      → (m : Time × Time) × (r ≡ some m) × (m.0 ≤ n.0)
  round-not_after time_spec (err x) n r ih e = err-ok e
  round-not_after time_spec (ok none) n r ih e = ih n r e
  round-not_after time_spec (ok (some c)) n r ih e =
      let (m, at, le_c, le_n) = offer-NotAfter c n in
      let (w, is_w, le) = ih m r (ap (of time_spec) (sym at) ∙ e) in (w, is_w, omega arith)

  next_of-not_after : (time_spec : List (TimeSpec C)) → Earlier time_spec
  unfolding next_of
  next_of-not_after [] n r e = (n, sym (ok_inj e), omega arith)
  next_of-not_after (spec ∷ time_spec) n r e =
      round-not_after time_spec (asks spec) n r (next_of-not_after time_spec) e

  -- the round of the specification that asks for `c`
  next_of-asked :
      (time_spec : List (TimeSpec C)) (c : Time × Time) (next r : Next)
      → of time_spec (offer (some c) next) ≡ ok r
      → (m : Time × Time) × (r ≡ some m) × (m.0 ≤ c.0)
  next_of-asked time_spec c none r e = next_of-not_after time_spec c r e
  next_of-asked time_spec c (some n) r e =
      let (m, at, le_c, le_n) = offer-NotAfter c n in
      let (w, is_w, le) = next_of-not_after time_spec m r (ap (of time_spec) (sym at) ∙ e) in
      (w, is_w, omega arith)

  next_of-earliest :
      (before rest : List (TimeSpec C)) (spec : TimeSpec C) (c : Time × Time) (next r : Next)
      → asks spec ≡ ok (some c)
      → of (before ++ spec ∷ rest) next ≡ ok r
      → (m : Time × Time) × (r ≡ some m) × (m.0 ≤ c.0)
  unfolding next_of
  next_of-earliest [] rest spec c next r a e =
      next_of-asked rest c next r (ap (λ x. then_try x (λ c. of rest (offer c next))) (sym a) ∙ e)
  next_of-earliest (s ∷ before) rest spec c next r a e =
      let (n, tried, at) = try-ok (asks s) (λ c. of (before ++ spec ∷ rest) (offer c next)) r e in
      next_of-earliest before rest spec c (offer n next) r a at

  -- Whatever a specification of the list asks for, `timer_trigger_next` returns a time where it
  -- returns, and one that is not later.
  pub timer_trigger_next-earliest :
      (before rest : List (TimeSpec C)) (spec : TimeSpec C) (c : Time × Time) (r : Next)
      → candidate croniter dow2int sun fuel spec now startup_time ≡ ok (some c)
      → timer_trigger_next croniter dow2int sun fuel (before ++ spec ∷ rest) now startup_time ≡ ok r
      → (m : Time × Time) × (r ≡ some m) × (m.0 ≤ c.0)
  unfolding timer_trigger_next
  timer_trigger_next-earliest before rest spec c r a e =
      next_of-earliest before rest spec c none r a e
