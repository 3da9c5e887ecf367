-- ===== src/Expressions/Exits.antt =====
-- `with` exits all its managers, the last one first.
use pyscript.Base.{Bool, List, [], ◌∷◌, if◌then◌else◌}
use pyscript.Interpreter.{Flow, unfinished, raised as stopped_by}
use pyscript.Expressions.{Outcome, value, raised}
use pyscript.Expressions.With.{Item, reversed}

-- what `with` comes to after its `try` block, where all exit methods have said true and where not
abbrev pub closed : {V E : Type 0} → Bool → Flow V E → Flow V E → Flow V E
closed all_true val (stopped_by e) = if all_true then val else stopped_by e
closed all_true val f = f

abbrev pub exits_of : {V E M : Type 0} → Flow V E → List M → List M
exits_of unfinished managers = []
exits_of f managers = reversed managers

module _ {S E M : Type 0} where
  abbrev pub manager_and : Outcome E M × S → (S → List M) → List M
  manager_and (raised e, s) rest = []
  manager_and (value m, s) rest = m ∷ rest s

module _ {S E V M : Type 0} where
  -- the managers that the expressions of the statement give, up to the first one that raises
  abbrev pub managers_of : List (Item S E V M) → S → List M
  managers_of [] s = []
  managers_of (item ∷ items) s = manager_and (item.context_expr s) (managers_of items)
