-- ===== src/Requirements/Tests.antt =====
-- The requirements on small inputs, with numbers for versions.
use pyscript.Base.{
  ℕ, String, ◌==◌, nat_key, string_key, true, false, ◌↔◌, ◌≡◌, refl, Option, none, some, List, [],
  ◌∷◌, arith, if◌then◌else◌, ltb,
}
use pyscript.Base.Dict.{Dict, get, put}
use pyscript.State.Access.{update_all}
use pyscript.Base.Lists.{all}
use pyscript.Requirements.Choose.{Versions, Requirement, record_version, process_all_requirements}
use pyscript.Requirements.Lines.{parse_line}
use pyscript.Requirements.Files.{is_covered, asked_files, all_covered-process_all_requirements}
use pyscript.Requirements.Install.{install_each, install_requirements, done}
use pyscript.Requirements.Wanted.{to_install_has, install_each-ToInstall, ToInstall}

abbrev read_version : String → Option ℕ
read_version v = if v == "1.0" then some 10 else if v == "1.1" then some 11 else none

after_irreflexive : (a : ℕ) → ltb a a ≡ false
after_irreflexive a = ground arith

not_before-transitive : (a b c : ℕ) → ltb a b ≡ false → ltb b c ≡ false → ltb a c ≡ false
not_before-transitive a b c h k = ground arith

equal-not_before : (a b : ℕ) → (a == b) ≡ true → (ltb a b ≡ false) × (ltb b a ≡ false)
equal-not_before a b h = (ground arith, ground arith)

before-asymmetric : (a b : ℕ) → ltb a b ≡ true → ltb b a ≡ false
before-asymmetric a b h = ground arith

abbrev numbers : Versions
numbers = record {
  Version = ℕ;
  parse = read_version;
  before = ltb;
  equal = λ a b. a == b;
  before-irreflexive = after_irreflexive;
  before-transitive = not_before-transitive;
  equal-not_before = equal-not_before;
  before-asymmetric = before-asymmetric;
}

abbrev nothing_installed : String → Option String
nothing_installed name = none

abbrev two_files : List (String × List String)
two_files =
    ("a/requirements.txt", "foo==1.0" ∷ "# none" ∷ [])
    ∷ ("b/requirements.txt", "foo==1.1 # new" ∷ [])
    ∷ []

highest_test :
    get (process_all_requirements numbers nothing_installed two_files) "foo"
    ≡ some
        (record { version = "1.1"; sources = "b/requirements.txt" ∷ []; installed_version = none })
unfolding process_all_requirements get parse_line record_version put
highest_test = refl

all_covered-process_all_requirements_example :
    all
      (is_covered numbers nothing_installed
        (process_all_requirements numbers nothing_installed two_files))
      (asked_files two_files)
    ≡ true
unfolding parse_line
all_covered-process_all_requirements_example =
    all_covered-process_all_requirements numbers nothing_installed two_files refl

abbrev unreadable : Requirement
unreadable = record { version = "abc"; sources = "p" ∷ []; installed_version = none }

-- installed by pyscript at the version that is still there, and wanted at another one
abbrev upgrade : Dict String Requirement
upgrade =
    ("foo", record { version = "1.1"; sources = "p" ∷ []; installed_version = some "1.0" }) ∷ []

install_each-ToInstall_example :
    (to_install_has numbers (install_each numbers upgrade (("foo", "1.0") ∷ [])) "foo" ≡ true) ↔ (
      (r : Requirement) × (get upgrade "foo" ≡ some r)
      × ToInstall numbers (get {K = String} {V = String} (("foo", "1.0") ∷ []) "foo") r)
unfolding install_each get
install_each-ToInstall_example =
    install_each-ToInstall numbers upgrade (("foo", "1.0") ∷ []) "foo" refl refl

install_test :
    install_requirements numbers nothing_installed true upgrade (("foo", "1.0") ∷ [])
    ≡ done ("foo==1.1" ∷ []) (("foo", "1.1") ∷ [])
unfolding install_requirements get update_all put
install_test = refl
