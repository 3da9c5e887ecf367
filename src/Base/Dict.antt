-- ===== src/Base/Dict.antt =====
-- Python's `dict`, by insertion order. The representation is private: clients have `dict_laws`.
use pyscript.Base.Keys.{Key, ◌==◌}
use pyscript.Base.Tests.{if◌then◌else◌, is_some}
use mathlib.Core.Path.{◌≡◌, refl}
use mathlib.Core.Bool.{Bool}
use mathlib.Core.List.{List, [], ◌∷◌}
use mathlib.Core.Option.{Option, none, some}
use native.Mathlib.Omega.{arith}

-- The list is by insertion order.
abbrev pub Dict {ℓ κ} : Type ℓ → Type κ → Type (ℓ ⊔ κ)
Dict K V = List (K × V)

module _ {ℓ κ} {K : Type ℓ} {V : Type κ} ⦃k : Key K⦄ where
  -- `d.get(key)`
  unfoldable pub get : Dict K V → K → Option V
  get [] key = none
  get ((j, v) ∷ d) key = if j == key then some v else get d key

  -- `d[key] = v`
  unfoldable pub put : Dict K V → K → V → Dict K V
  put [] key v = (key, v) ∷ []
  put ((j, w) ∷ d) key v = if j == key then (j, v) ∷ d else (j, w) ∷ put d key v

  -- `del d[key]`, `d.pop(key, None)`
  unfoldable pub remove : Dict K V → K → Dict K V
  remove [] key = []
  remove ((j, v) ∷ d) key = let rest = remove d key in if j == key then rest else (j, v) ∷ rest

  -- `key in d`
  abbrev pub has : Dict K V → K → Bool
  has d key = is_some (get d key)

  pub get-put :
      (d : Dict K V) (key j : K) (v : V)
      → get (put d key v) j ≡ (if key == j then some v else get d j)
  unfolding get put
  get-put [] key j v = refl
  get-put ((i, w) ∷ d) key j v =
      ground (arith, get-put d key j v, k.same_iff i key, k.same_iff i j, k.same_iff key j)

  pub get-remove :
      (d : Dict K V) (key j : K) → get (remove d key) j ≡ (if key == j then none else get d j)
  unfolding get remove
  get-remove [] key j = ground arith
  get-remove ((i, w) ∷ d) key j =
      ground (arith, get-remove d key j, k.same_iff i key, k.same_iff i j, k.same_iff key j)

  pub remove_absent : (d : Dict K V) (key : K) → get d key ≡ none → remove d key ≡ d
  unfolding get remove
  remove_absent [] key h = refl
  remove_absent ((j, v) ∷ d) key h = ground (arith, remove_absent d key)

pub get-empty {ℓ κ} : {K : Type ℓ} {V : Type κ} ⦃k : Key K⦄ (key : K) → get {V = V} [] key ≡ none
unfolding get
get-empty key = refl

pub ruleset dict_laws = (get-empty, get-put, get-remove)
