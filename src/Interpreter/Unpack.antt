-- ===== src/Interpreter/Unpack.antt =====
-- The assignment to a tuple in `recurse_assign` of eval.py: which values each target gets.
use pyscript.Base.{
  ℕ, zero, suc, ◌+◌, ◌-◌, Bool, true, false, not, ◌&&◌, ◌≡◌, refl, ap, ◌∙◌, Option, none, some,
  List, [], ◌∷◌, ◌++◌, arith, if◌then◌else◌, ltb, leb, ◌==◌, nat_key, some_inj, Bool-cases, inl,
  inr,
}
use pyscript.Base.Lists.{length, any}
use pyscript.Base.Result.{value_error, Result, ok, err}

-- a target, with a star or without
pub data Target : Type 0 where
  one starred : Target

abbrev pub is_starred : Target → Bool
is_starred one = false
is_starred starred = true

-- what a target gets: a value, or a list of them
pub data Part (V : Type 0) : Type 0 where
  single : V → Part V
  many : List V → Part V

module _ {V : Type 0} where
  -- `vals[:n]` and `vals[n:]`
  abbrev pub take : ℕ → List V → List V
  take zero vals = []
  take (suc n) [] = []
  take (suc n) (v ∷ vals) = v ∷ take n vals

  abbrev pub drop : ℕ → List V → List V
  drop zero vals = vals
  drop (suc n) [] = []
  drop (suc n) (v ∷ vals) = drop n vals

  -- The loop over the targets, on the values from `val_idx` on. Python raises `IndexError` where
  -- none is left, which the tests before the loop exclude: `none` here.
  abbrev pub and_part : Part V → Option (List (Part V)) → Option (List (Part V))
  and_part p none = none
  and_part p (some ps) = some (p ∷ ps)

  unfoldable pub assign_each : ℕ → List Target → List V → Option (List (Part V))
  assign_each star_len [] vals = some []
  assign_each star_len (starred ∷ targets) vals =
      and_part (many (take star_len vals)) (assign_each star_len targets (drop star_len vals))
  assign_each star_len (one ∷ targets) [] = none
  assign_each star_len (one ∷ targets) (v ∷ vals) =
      and_part (single v) (assign_each star_len targets vals)

-- the values of the parts, by order
abbrev pub values_of : {V : Type 0} → List (Part V) → List V
values_of [] = []
values_of (single v ∷ parts) = v ∷ values_of parts
values_of (many vs ∷ parts) = vs ++ values_of parts

abbrev pub values_in : {V : Type 0} → Option (List (Part V)) → Option (List V)
values_in none = none
values_in (some parts) = some (values_of parts)

-- the number of stars, of which Python's grammar lets one stand at most
abbrev pub stars : List Target → ℕ
stars [] = 0
stars (one ∷ targets) = stars targets
stars (starred ∷ targets) = suc (stars targets)

stars-length : (targets : List Target) → leb (stars targets) (length targets) ≡ true
stars-length [] = refl
stars-length (one ∷ targets) = ground (arith, stars-length targets)
stars-length (starred ∷ targets) = ground (arith, stars-length targets)

any-starred : (targets : List Target) → any is_starred targets ≡ not (stars targets == 0)
any-starred [] = refl
any-starred (one ∷ targets) = any-starred targets
any-starred (starred ∷ targets) = ground arith

module _ {V : Type 0} where
  -- the tests on the numbers of targets and values, and the loop
  unfoldable pub unpack : List Target → List V → Result (Option (List (Part V)))
  unfolding assign_each
  unpack targets vals =
      let got_star = if any is_starred targets then 1 else 0 in
      if ltb (length vals + got_star) (length targets)
      then err value_error
      else if ltb (length targets) (length vals) && got_star == 0
      then err value_error
      else ok (assign_each (length vals + 1 - length targets) targets vals)

  take-drop : (n : ℕ) (vals : List V) → take n vals ++ drop n vals ≡ vals
  take-drop zero vals = refl
  take-drop (suc n) [] = refl
  take-drop (suc n) (v ∷ vals) = ap (λ x. v ∷ x) (take-drop n vals)

  length-drop :
      (n : ℕ) (vals : List V) → leb n (length vals) ≡ true → length (drop n vals) + n ≡ length vals
  length-drop zero vals h = omega arith
  length-drop (suc n) [] h = ground arith
  length-drop (suc n) (v ∷ vals) h = ground (arith, length-drop n vals)

  values-single :
      (v : V) (o : Option (List (Part V))) (vals : List V)
      → values_in o ≡ some vals
      → values_in (and_part (single v) o) ≡ some (v ∷ vals)
  values-single v none vals h = ground arith
  values-single v (some ps) vals h = ap (λ x. some (v ∷ x)) (some_inj h)

  values-many :
      (vs : List V) (o : Option (List (Part V))) (vals : List V)
      → values_in o ≡ some vals
      → values_in (and_part (many vs) o) ≡ some (vs ++ vals)
  values-many vs none vals h = ground arith
  values-many vs (some ps) vals h = ap (λ x. some (vs ++ x)) (some_inj h)

  values-plain :
      (n : ℕ) (targets : List Target) (vals : List V)
      → stars targets ≡ 0
      → length vals ≡ length targets
      → values_in (assign_each n targets vals) ≡ some vals
  unfolding assign_each
  values-plain n [] [] s l = refl
  values-plain n [] (v ∷ vals) s l = ground (arith, l)
  values-plain n (starred ∷ targets) vals s l = ground (arith, s)
  values-plain n (one ∷ targets) [] s l = ground (arith, l)
  values-plain n (one ∷ targets) (v ∷ vals) s l =
      values-single v (assign_each n targets vals) vals
        (values-plain n targets vals s (omega (arith, l)))

  values-starred :
      (n : ℕ) (targets : List Target) (vals : List V)
      → stars targets ≡ 1
      → length vals + 1 ≡ length targets + n
      → values_in (assign_each n targets vals) ≡ some vals
  unfolding assign_each
  values-starred n [] vals s l = ground (arith, s)
  values-starred n (starred ∷ targets) vals s l =
      let rest = length-drop n vals (ground (arith, l)) in
      values-many (take n vals) (assign_each n targets (drop n vals)) (drop n vals)
        (values-plain n targets (drop n vals) (omega (arith, s)) (omega (arith, l, rest)))
      ∙ ap some (take-drop n vals)
  values-starred n (one ∷ targets) [] s l = ground (arith, s, l, stars-length targets)
  values-starred n (one ∷ targets) (v ∷ vals) s l =
      values-single v (assign_each n targets vals) vals
        (values-starred n targets vals s (omega (arith, l)))

  -- Where an assignment to a tuple with at most one star is not refused, its targets get all the
  -- values, by their order, and each once.
  pub values-unpack :
      (targets : List Target) (vals : List V) (o : Option (List (Part V)))
      → leb (stars targets) 1 ≡ true
      → unpack targets vals ≡ ok o
      → values_in o ≡ some vals
  unfolding unpack
  values-unpack targets vals o s h =
      let n = length vals + 1 - length targets in
      elim (Bool-cases (stars targets == 0)) [
        | inl z ↦ ground (arith, h, z, any-starred targets, values-plain n targets vals)
        | inr z ↦ ground (arith, h, z, s, any-starred targets, values-starred n targets vals)
      ]
