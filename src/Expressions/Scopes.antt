-- ===== src/Expressions/Scopes.antt =====
-- The table of a scope after a comprehension.
use pyscript.Base.{String, string_key, Option, none, some, List, if◌then◌else◌}
use pyscript.Base.Dict.{Dict, get}
use pyscript.Base.Lists.{contains}
use pyscript.Expressions.{
  Outcome, value, raised, go_on, Scope, loopvar_scope_save, loopvar_scope_restore,
}

module _ {V : Type 0} where
  abbrev first_of : Option V → Option V → Option V
  first_of none d = d
  first_of (some v) d = some v

module _ {W E V : Type 0} where
  -- what a comprehension does to the variables, by how its loops end
  abbrev pub ended :
      List String → Dict String V → Outcome E (List V) × Scope W V → String → Option V
  ended target_vars before (value out, s') v =
      if contains target_vars v then get before v else get s'.sym_table v
  ended target_vars before (raised e, s') v = get s'.sym_table v

  abbrev after_loops :
      List String → Dict String V → Outcome E (List V) × Scope W V → Outcome E (List V) × Scope W V
  after_loops target_vars t r = go_on r (λ result s'. (
    value result,
    record s' {
      sym_table = loopvar_scope_restore target_vars (loopvar_scope_save target_vars t) s'.sym_table;
    },
  ))
