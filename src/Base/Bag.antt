-- ===== src/Base/Bag.antt =====
-- Python's `set`. Its order is not specified: every statement about one is about membership.
use pyscript.Base.Keys.{Key, ◌==◌}
use pyscript.Base.Tests.{if◌then◌else◌}
use pyscript.Base.Lists.{contains, distinct, contains-append, distinct-append_one, is_empty}
use mathlib.Core.Path.{◌≡◌, refl}
use mathlib.Core.Bool.{true, false, not, ◌&&◌, ◌||◌}
use mathlib.Core.List.{List, [], ◌∷◌, ◌++◌}
use native.Mathlib.Omega.{arith}

module _ {ℓ} {K : Type ℓ} ⦃k : Key K⦄ where
  -- `s.add(x)`
  unfoldable pub add : List K → K → List K
  add s x = if contains s x then s else s ++ x ∷ []

  -- `s.discard(x)`
  unfoldable pub discard : List K → K → List K
  discard [] x = []
  discard (y ∷ s) x = let rest = discard s x in if y == x then rest else y ∷ rest

  pub contains-add : (s : List K) (x y : K) → contains (add s x) y ≡ (x == y || contains s y)
  unfolding add
  contains-add s x y = ground (arith, contains-append s (x ∷ []) y, k.same_iff x y)

  pub contains-discard :
      (s : List K) (x y : K) → contains (discard s x) y ≡ (not (x == y) && contains s y)
  unfolding discard
  contains-discard [] x y = ground arith
  contains-discard (z ∷ s) x y =
      ground (arith, contains-discard s x y, k.same_iff z x, k.same_iff z y, k.same_iff x y)

  pub distinct-add : (s : List K) (x : K) → distinct s ≡ true → distinct (add s x) ≡ true
  unfolding add
  distinct-add s x d = ground (arith, distinct-append_one s x)

  pub distinct-discard : (s : List K) (x : K) → distinct s ≡ true → distinct (discard s x) ≡ true
  unfolding discard
  distinct-discard [] x d = refl
  distinct-discard (y ∷ s) x d = ground (arith, distinct-discard s x, contains-discard s x y)

  pub add-ne_empty : (s : List K) (x : K) → is_empty (add s x) ≡ false
  unfolding add
  add-ne_empty [] x = refl
  add-ne_empty (y ∷ s) x = ground arith

pub ruleset bag_laws = (contains-add, contains-discard)
