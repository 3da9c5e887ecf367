-- ===== src/Trigger/Tests.antt =====
-- Comparisons of identifiers with small changes.
use pyscript.Base.{ℕ, ◌==◌, nat_key, string_key, Bool, true, ◌≡◌, refl, some, [], ◌∷◌}
use pyscript.Base.Dict.{get}
use pyscript.Base.Text.{split, starts_with}
use pyscript.State.Machine.{StateVal}
use pyscript.Trigger.{ident_any_values_changed}

abbrev lamp : StateVal ℕ
lamp = record { value = 1; dict = ("level", 3) ∷ [] }

abbrev dimmed : StateVal ℕ
dimmed = record { value = 1; dict = ("level", 2) ∷ [] }

-- 0 stands for `None`
abbrev is_zero : ℕ → Bool
is_zero v = v == 0

attribute_test :
    ident_any_values_changed is_zero
      (record { var_name = "light.a"; new = some dimmed; old = some lamp })
      ("light.a.*" ∷ [])
    ≡ true
unfolding split get ident_any_values_changed starts_with
attribute_test = refl
