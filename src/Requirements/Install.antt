-- ===== src/Requirements/Install.antt =====
-- What is installed: `install_requirements` and `update_unpinned_versions`. The names of a dict
-- differ, so its entries are gone through one by one.
use pyscript.Base.{
  String, ◌==◌, nat_key, string_key, Bool, true, false, not, ◌&&◌, Option, none, some, List, [],
  ◌∷◌, map, if◌then◌else◌,
}
use pyscript.Base.Dict.{Dict, get, remove}
use pyscript.Base.Lists.{is_empty, any}
use pyscript.State.Access.{update_all}
use pyscript.Requirements.Lines.{unpinned_version}
use pyscript.Requirements.Choose.{Versions, Requirement}
use Prim.Native.String.{◌++◌ as text_append}

-- what the loop does with one package
pub data Decision : Type 0 where
  skip untrack install : Decision

-- a version that is there; an empty string is not
abbrev pub present : Option String → Option String
present none = none
present (some v) = if v == "" then none else some v

-- what `install_requirements` comes to
pub data Installed : Type 0 where
  -- the imports that it needs are not allowed
  refused : Installed
  -- a version in the way cannot be read
  raised : Installed
  -- the requirements that are installed, and the new record of them
  done : List String → Dict String String → Installed

module _ (vs : Versions) where
  -- `Version(a) != Version(b)`, or nothing where it raises
  abbrev pub compare_parsed : Option vs.Version → Option vs.Version → Option Bool
  compare_parsed (some a) (some b) = some (not (vs.equal a b))
  compare_parsed _ _ = none

  abbrev pub differ : String → String → Option Bool
  differ a b = compare_parsed (vs.parse a) (vs.parse b)

  abbrev pub choose_if : Option Bool → Decision → Option Decision → Option Decision
  choose_if none d otherwise = none
  choose_if (some true) d otherwise = some d
  choose_if (some false) d otherwise = otherwise

  -- a package that is installed as `i`, by the version `t` that pyscript last installed, if it did
  abbrev pub decide_installed : Option String → String → String → Option Decision
  decide_installed none version i = some skip
  decide_installed (some t) version i =
      if version == unpinned_version
      then some (if not (t == i) then untrack else skip)
      else choose_if (differ t i) untrack (choose_if (differ version i) install (some skip))

  abbrev pub decide_present : Option String → String → Option String → Option Decision
  decide_present tracked version none = some install
  decide_present tracked version (some i) = decide_installed tracked version i

  -- one package of the loop; `none` is a `ValueError`
  unfoldable pub decide : Option String → Requirement → Option Decision
  decide tracked r = decide_present tracked r.version (present r.installed_version)

  abbrev pub Loop : Type 0
  Loop = Option (Dict String Requirement × Dict String String)

  abbrev pub enter : String → Requirement → Loop → Loop
  enter name r none = none
  enter name r (some (to_install, tracker)) = some ((name, r) ∷ to_install, tracker)

  abbrev pub after_decision :
      Option Decision
      → String
      → Requirement
      → Dict String String
      → (Dict String String → Loop)
      → Loop
  after_decision none name r tracker rest = none
  after_decision (some skip) name r tracker rest = rest tracker
  after_decision (some untrack) name r tracker rest = rest (remove tracker name)
  after_decision (some install) name r tracker rest = enter name r (rest tracker)

  -- the loop over the requirements
  unfoldable pub install_each : Dict String Requirement → Dict String String → Loop
  unfolding decide
  install_each [] tracker = some ([], tracker)
  install_each ((name, r) ∷ requirements) tracker =
      after_decision (decide (get tracker name) r) name r tracker (install_each requirements)

  -- `f"{package}=={version}"`, or the package alone
  abbrev pub argument : String × Requirement → String
  argument (name, r) =
      if r.version == unpinned_version then name else text_append name (text_append "==" r.version)

  module _ (get_installed_version : String → Option String) where
    abbrev pub pinned_now : String → Option String → Dict String String → Dict String String
    pinned_now name none rest = rest
    pinned_now name (some v) rest = (name, v) ∷ rest

    -- `update_unpinned_versions`
    unfoldable pub update_unpinned_versions : Dict String String → Dict String String
    update_unpinned_versions [] = []
    update_unpinned_versions ((name, v) ∷ packages) =
        let rest = update_unpinned_versions packages in
        if v == unpinned_version
        then pinned_now name (present (get_installed_version name)) rest
        else (name, v) ∷ rest

    abbrev pub versions_of : Dict String Requirement → Dict String String
    versions_of to_install = map (λ kv. (kv.0, kv.1.version)) to_install

    -- `get_installed_version` answers after the installation.
    unfoldable pub finish : Loop → Installed
    unfolding update_unpinned_versions
    finish none = raised
    finish (some (to_install, tracker)) =
        let tracker' = update_all tracker (versions_of to_install) in
        done (map argument to_install) (
          if any (λ kv. kv.1 == unpinned_version) tracker'
          then update_unpinned_versions tracker'
          else tracker')

    -- `install_requirements`, from the requirements and the tracker of the config entry
    unfoldable pub install_requirements :
        Bool → Dict String Requirement → Dict String String → Installed
    unfolding install_each finish
    install_requirements allow_all_imports requirements tracker =
        let loop = install_each requirements tracker in
        if not (is_empty requirements) && not allow_all_imports then refused else finish loop
