-- ===== src/Requirements/Files.antt =====
-- The version that each package gets from all requirements files.
use pyscript.Base.{
  String, Bool, true, ◌≡◌, refl, sym, ◌∙◌, ap, string_key, Option, none, some, List, [], ◌∷◌, ◌++◌,
}
use pyscript.Base.Dict.{Dict, get}
use pyscript.Base.Lists.{all}
use pyscript.Requirements.Lines.{parse_line}
use pyscript.Requirements.Choose.{
  Versions, Requirement, process_lines, process_files, process_all_requirements, record_parsed,
  record_version,
}
use pyscript.Requirements.Highest.{
  Asked, record_all, covers_record, sound_record, all_sound, all_covered-record_all,
}
use mathlib.Core.Path.{subst}

-- what the files ask for
abbrev pub add_asked :
    String
    → Option (String × String)
    → List (String × (String × String))
    → List (String × (String × String))
add_asked path none asked = asked
add_asked path (some nv) asked = (path, nv) ∷ asked

abbrev pub asked_lines : String → List String → List (String × (String × String))
asked_lines path [] = []
asked_lines path (pkg ∷ lines) = add_asked path (parse_line pkg) (asked_lines path lines)

abbrev pub asked_files : List (String × List String) → List (String × (String × String))
asked_files [] = []
asked_files ((path, lines) ∷ files) = asked_lines path lines ++ asked_files files

module _ (vs : Versions) (installed : String → Option String) where
  record_all-append :
      (xs ys : List (Asked vs installed)) (table : Dict String Requirement)
      → record_all vs installed (xs ++ ys) table
        ≡ record_all vs installed ys (record_all vs installed xs table)
  unfolding record_all
  record_all-append [] ys table = refl
  record_all-append ((path, (name, v)) ∷ xs) ys table =
      record_all-append xs ys (record_version vs installed path name v table)

  record_all-parsed :
      (path : String) (o : Option (String × String)) (asked : List (Asked vs installed))
      (table : Dict String Requirement)
      → record_all vs installed asked (record_parsed vs installed path o table)
        ≡ record_all vs installed (add_asked path o asked) table
  unfolding record_all
  record_all-parsed path none asked table = refl
  record_all-parsed path (some (name, v)) asked table = refl

  process_lines-record_all :
      (path : String) (lines : List String) (table : Dict String Requirement)
      → process_lines vs installed path lines table
        ≡ record_all vs installed (asked_lines path lines) table
  unfolding process_lines record_all
  process_lines-record_all path [] table = refl
  process_lines-record_all path (pkg ∷ lines) table =
      process_lines-record_all path lines (record_parsed vs installed path (parse_line pkg) table)
      ∙ record_all-parsed path (parse_line pkg) (asked_lines path lines) table

  process_files-record_all :
      (files : List (String × List String)) (table : Dict String Requirement)
      → process_files vs installed files table ≡ record_all vs installed (asked_files files) table
  unfolding process_files record_all
  process_files-record_all [] table = refl
  process_files-record_all ((path, lines) ∷ files) table =
      process_files-record_all files (process_lines vs installed path lines table)
      ∙ ap (record_all vs installed (asked_files files)) (process_lines-record_all path lines table)
      ∙ sym (record_all-append (asked_lines path lines) (asked_files files) table)

  -- a version recorded for the package that no version asked for it is higher than
  abbrev pub is_covered : Dict String Requirement → String × (String × String) → Bool
  is_covered table (path, (name, v)) = covers_record vs installed (get table name) v

  sound-empty : (i : String) → sound_record vs installed (get [] i) ≡ true
  unfolding get
  sound-empty i = refl

  -- Where packaging can read every version that the files ask for, each package that a line asks
  -- for gets a version that no version asked for it is higher than, and a pinned one where any
  -- line pins it.
  pub all_covered-process_all_requirements :
      (files : List (String × List String))
      → all_sound vs installed (asked_files files) ≡ true
      → all (is_covered (process_all_requirements vs installed files)) (asked_files files) ≡ true
  unfolding process_all_requirements
  all_covered-process_all_requirements files s =
      subst (λ table. all (is_covered table) (asked_files files) ≡ true)
        (sym (process_files-record_all files []))
        (all_covered-record_all vs installed (asked_files files) [] s sound-empty)
