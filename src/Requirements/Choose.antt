-- ===== src/Requirements/Choose.antt =====
-- The version of each package: `process_all_requirements`, after the files are read.
use pyscript.Base.{
  String, ◌==◌, nat_key, string_key, Bool, true, false, not, ◌&&◌, ◌≡◌, Option, none, some, List,
  [], ◌∷◌, ◌++◌, if◌then◌else◌,
}
use pyscript.Base.Dict.{Dict, get, put}
use pyscript.Requirements.Lines.{unpinned_version, parse_line}

-- The versions of the library packaging: `parse` is `none` where `Version` raises `InvalidVersion`,
-- a `ValueError`; `before` is their order.
pub record Versions : Type 1 where
  pub Version : Type 0
  pub parse : String → Option Version
  pub before : Version → Version → Bool
  pub equal : Version → Version → Bool
  pub before-irreflexive : (a : Version) → before a a ≡ false
  pub before-transitive :
      (a b c : Version) → before a b ≡ false → before b c ≡ false → before a c ≡ false
  pub equal-not_before :
      (a b : Version) → equal a b ≡ true → (before a b ≡ false) × (before b a ≡ false)
  pub before-asymmetric : (a b : Version) → before a b ≡ true → before b a ≡ false

-- what is recorded of a package
pub record Requirement : Type 0 where
  pub version : String
  pub sources : List String
  pub installed_version : Option String

module _ (vs : Versions) (get_installed_version : String → Option String) where
  abbrev pub is_unpinned : String → Bool
  is_unpinned v = v == unpinned_version

  -- the last three branches, on two pinned versions: `none` is a `ValueError`
  abbrev pub compared :
      Option vs.Version → Option vs.Version → String → String → Requirement → Requirement
  compared (some current) (some new) new_version path r =
      if vs.equal current new
      then record r { sources = r.sources ++ path ∷ [] }
      else if vs.before current new
      then record r { version = new_version; sources = path ∷ [] }
      else r
  compared _ _ new_version path r = r

  abbrev pub first_record : String → String → String → Requirement
  first_record path name version = record {
    version = version;
    sources = path ∷ [];
    installed_version = get_installed_version name;
  }

  -- the branches where a version is recorded
  unfoldable pub choose : String → String → String → Requirement → Requirement
  choose path name new_version r =
      if r.version == ""
      then first_record path name new_version
      else if is_unpinned new_version && not (is_unpinned r.version)
      then r
      else if not (is_unpinned new_version) && is_unpinned r.version
      then first_record path name new_version
      else if is_unpinned new_version && is_unpinned r.version
      then record r { sources = r.sources ++ path ∷ [] }
      else compared (vs.parse r.version) (vs.parse new_version) new_version path r

  abbrev pub choose_for : String → String → String → Option Requirement → Requirement
  choose_for path name new_version none = first_record path name new_version
  choose_for path name new_version (some r) = choose path name new_version r

  -- one requirement of a file
  unfoldable pub record_version :
      String → String → String → Dict String Requirement → Dict String Requirement
  unfolding choose
  record_version path name new_version table =
      put table name (choose_for path name new_version (get table name))

  abbrev pub record_parsed :
      String → Option (String × String) → Dict String Requirement → Dict String Requirement
  record_parsed path none table = table
  record_parsed path (some (name, version)) table = record_version path name version table

  unfoldable pub process_lines :
      String → List String → Dict String Requirement → Dict String Requirement
  process_lines path [] table = table
  process_lines path (pkg ∷ lines) table =
      process_lines path lines (record_parsed path (parse_line pkg) table)

  -- the loop over the files, by their paths
  unfoldable pub process_files :
      List (String × List String) → Dict String Requirement → Dict String Requirement
  unfolding process_lines
  process_files [] table = table
  process_files ((path, lines) ∷ files) table = process_files files (process_lines path lines table)

  unfoldable pub process_all_requirements : List (String × List String) → Dict String Requirement
  unfolding process_files
  process_all_requirements files = process_files files []
