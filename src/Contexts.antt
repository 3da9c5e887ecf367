-- ===== src/Contexts.antt =====
-- Global contexts (custom_components/pyscript/global_ctx.py): the triggers and decorator managers
-- that a context holds, and the map of the contexts. Triggers and managers are numbered.
pub mod Import
pub mod Load
mod Loaded
pub mod Reload
pub mod Recurse
mod Reached
mod Imported
mod Followed
mod Unchanged
mod Tests
use pyscript.Base.{
  ℕ, String, ◌==◌, nat_key, string_key, Bool, true, false, ◌≡◌, Option, none, some, List, [], ◌∷◌,
  ◌++◌, map, if◌then◌else◌,
}
use pyscript.Base.Dict.{Dict, get, put, remove}
use pyscript.Base.Bag.{add, discard}

-- `GlobalContext`, less its symbols and logger; an `app_config` is a number
pub record GlobalContext : Type 0 where
  pub name : String
  pub triggers : List ℕ
  pub triggers_delay_start : List ℕ
  pub dms : List ℕ
  pub dms_delay_start : List ℕ
  pub auto_start : Bool
  pub has_module : Bool
  pub rel_import_path : Option String
  pub source : Option String
  pub file_path : Option String
  pub mtime : Option ℕ
  pub app_config : Option ℕ
  pub imports : List String

-- what is started and stopped, by order
pub data Effect : Type 0 where
  trigger_start trigger_stop dm_start dm_stop : ℕ → Effect

-- `trigger_register`: whether to start now
unfoldable pub trigger_register : ℕ → GlobalContext → Bool × GlobalContext
trigger_register func c =
    let c' = record c { triggers = add c.triggers func } in
    if c.auto_start
    then (true, c')
    else (false, record c' { triggers_delay_start = add c.triggers_delay_start func })

-- `create_decorator_manager` of a manager that is validated, less the errors of its start
unfoldable pub dm_register : ℕ → GlobalContext → List Effect × GlobalContext
dm_register dm c =
    let c' = record c { dms = add c.dms dm } in
    if c.auto_start
    then (dm_start dm ∷ [], c')
    else ([], record c' { dms_delay_start = add c.dms_delay_start dm })

-- `trigger_unregister`
unfoldable pub trigger_unregister : ℕ → GlobalContext → GlobalContext
trigger_unregister func c = record c {
  triggers = discard c.triggers func;
  triggers_delay_start = discard c.triggers_delay_start func;
}

-- `set_auto_start`
abbrev pub set_auto_start : Bool → GlobalContext → GlobalContext
set_auto_start auto_start c = record c { auto_start = auto_start }

-- `start`
unfoldable pub start : GlobalContext → List Effect × GlobalContext
start c = (
  map trigger_start c.triggers_delay_start ++ map dm_start c.dms_delay_start,
  record c { triggers_delay_start = []; dms_delay_start = [] },
)

-- `stop`
unfoldable pub stop : GlobalContext → List Effect × GlobalContext
stop c = (
  map trigger_stop c.triggers ++ map dm_stop c.dms,
  record c {
    triggers = [];
    triggers_delay_start = [];
    dms = [];
    dms_delay_start = [];
    auto_start = false;
  },
)

-- `GlobalContextMgr.contexts`
abbrev pub Contexts : Type 0
Contexts = Dict String GlobalContext

-- `GlobalContextMgr.delete`
abbrev pub stop_effects : Option GlobalContext → List Effect
stop_effects none = []
stop_effects (some c) = (stop c).0

unfoldable pub delete : String → Contexts → List Effect × Contexts
unfolding stop
delete name contexts = (stop_effects (get contexts name), remove contexts name)
