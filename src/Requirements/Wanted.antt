-- ===== src/Requirements/Wanted.antt =====
-- Which packages requirements.py installs, and which versions it still does not know afterwards.
use text.Mathlib.TextEquality.{eq_iff}
use pyscript.Base.{
  String, ◌==◌, nat_key, string_key, Bool, true, not, ◌||◌, ◌≡◌, refl, Option, none, some, List, [],
  ◌∷◌, arith, map, if◌then◌else◌, is_some, and_parts, ap, sym, ◌∙◌, ◌↔◌, Bool-cases, inl, inr,
  false,
}
use pyscript.Base.Dict.{Dict, get, has, remove, get-remove}
use pyscript.Base.Lists.{distinct, contains}
use pyscript.Requirements.Lines.{unpinned_version}
use pyscript.Requirements.Choose.{Versions, Requirement}
use pyscript.Requirements.Install.{
  Decision, skip, untrack, install, present, compare_parsed, differ, choose_if, decide_present,
  decide, Loop, enter, after_decision, install_each,
}

module _ (vs : Versions) where
  abbrev pub is_install : Option Decision → Bool
  is_install (some install) = true
  is_install _ = false

  -- two texts that can be read, as equal versions or different ones
  pub data Reads (a b : String) : Bool → Type 0 where
    reads :
        (v w : vs.Version) (e : Bool)
        → vs.parse a ≡ some v
        → vs.parse b ≡ some w
        → vs.equal v w ≡ e
        → Reads a b e

  -- What is to be installed: a package that is not there, or one that is there in the version
  -- that pyscript installed, where another one is asked for.
  pub data ToInstall (tracked : Option String) (r : Requirement) : Type 0 where
    missing : present r.installed_version ≡ none → ToInstall tracked r
    outdated :
        (t i : String)
        → present r.installed_version ≡ some i
        → tracked ≡ some t
        → (r.version == unpinned_version) ≡ false
        → Reads t i true
        → Reads r.version i false
        → ToInstall tracked r

  -- the requirement is one to install, by the version that is tracked
  abbrev pub wanted : Option String → Option Requirement → Bool
  wanted tracked none = false
  wanted tracked (some r) = is_install (decide vs tracked r)

  abbrev pub names_of : Dict String Requirement → List String
  names_of requirements = map (λ kv. kv.0) requirements

  abbrev pub to_install_has : Loop vs → String → Bool
  to_install_has none name = false
  to_install_has (some (to_install, tracker)) name = has to_install name

  absent :
      (requirements : Dict String Requirement) (name : String)
      → contains (names_of requirements) name ≡ false
      → get requirements name ≡ none
  unfolding get
  absent [] name h = refl
  absent ((n, r) ∷ requirements) name h = ground (arith, absent requirements name)

  is_some-enter :
      (name : String) (r : Requirement) (l : Loop vs)
      → is_some (enter vs name r l) ≡ true
      → is_some l ≡ true
  is_some-enter name r none h = ground arith
  is_some-enter name r (some x) h = refl

  enter-has :
      (name : String) (r : Requirement) (l : Loop vs) (p : String)
      → is_some l ≡ true
      → to_install_has (enter vs name r l) p ≡ (name == p || to_install_has l p)
  unfolding get
  enter-has name r none p h = ground arith
  enter-has name r (some (to_install, tracker)) p h = ground arith

  after-installs :
      (d : Option Decision) (name : String) (r : Requirement) (tracker : Dict String String)
      (rest : Dict String String → Loop vs) (p : String) (later : Option Requirement)
      → is_some (after_decision vs d name r tracker rest) ≡ true
      → ((t : Dict String String)
          → is_some (rest t) ≡ true
          → to_install_has (rest t) p ≡ wanted (get t p) later)
      → ((name == p) ≡ true → later ≡ none)
      → to_install_has (after_decision vs d name r tracker rest) p
        ≡ (if name == p then is_install d else wanted (get tracker p) later)
  unfolding get
  after-installs none name r tracker rest p later h ih a = ground arith
  after-installs (some skip) name r tracker rest p later h ih a = ground (arith, ih tracker h, a)
  after-installs (some untrack) name r tracker rest p later h ih a =
      ground (arith, ih (remove tracker name) h, a, get-remove tracker name p)
  after-installs (some install) name r tracker rest p later h ih a =
      let there = is_some-enter name r (rest tracker) h in
      ground (arith, enter-has name r (rest tracker) p there, ih tracker there, a)

  install_each-wanted :
      (requirements : Dict String Requirement) (tracker : Dict String String) (name : String)
      → distinct (names_of requirements) ≡ true
      → is_some (install_each vs requirements tracker) ≡ true
      → to_install_has (install_each vs requirements tracker) name
        ≡ wanted (get tracker name) (get requirements name)
  unfolding install_each get
  install_each-wanted [] tracker name d h = refl
  install_each-wanted ((n, r) ∷ requirements) tracker name d h =
      let (fresh, rest) =
        and_parts (not (contains (names_of requirements) n)) (distinct (names_of requirements)) d in
      let gone = absent requirements n (ground (arith, fresh)) in
      let one =
        after-installs (decide vs (get tracker n) r) n r tracker (install_each vs requirements) name
          (get requirements name) h (λ t k. install_each-wanted requirements t name rest k)
          (λ e. ground (arith, e, gone, eq_iff n name)) in
      ground (arith, one, eq_iff n name)

  parsed-Reads :
      (a b : String) (o p : Option vs.Version) (d : Bool)
      → vs.parse a ≡ o
      → vs.parse b ≡ p
      → compare_parsed vs o p ≡ some d
      → Reads a b (not d)
  parsed-Reads a b (some v) (some w) d e f h = reads v w (not d) e f (ground (arith, h))
  parsed-Reads a b none p d e f h = ground (arith, h)
  parsed-Reads a b (some v) none d e f h = ground (arith, h)

  differ-Reads : (a b : String) (d : Bool) → differ vs a b ≡ some d → Reads a b (not d)
  differ-Reads a b d h = parsed-Reads a b (vs.parse a) (vs.parse b) d refl refl h

  Reads-differ : (a b : String) (e : Bool) → Reads a b e → differ vs a b ≡ some (not e)
  Reads-differ a b e (reads v w f pa pb h) =
      ap (λ o. compare_parsed vs o (vs.parse b)) pa
      ∙ ap (compare_parsed vs (some v)) pb
      ∙ ap (λ q. some (not q)) h

  is_install-chosen :
      (x y : Option Bool)
      → is_install (choose_if vs x untrack (choose_if vs y install (some skip))) ≡ true
      → (x ≡ some false) × (y ≡ some true)
  is_install-chosen (some false) (some true) h = (refl, refl)
  is_install-chosen (some false) (some false) h = ground (arith, h)
  is_install-chosen (some false) none h = ground (arith, h)
  is_install-chosen (some true) y h = ground (arith, h)
  is_install-chosen none y h = ground (arith, h)

  present-ToInstall :
      (tracked : Option String) (r : Requirement) (t o : Option String)
      → tracked ≡ t
      → present r.installed_version ≡ o
      → is_install (decide_present vs t r.version o) ≡ true
      → ToInstall tracked r
  present-ToInstall tracked r t none e f h = missing f
  present-ToInstall tracked r none (some i) e f h = ground (arith, h)
  present-ToInstall tracked r (some t) (some i) e f h =
      elim (Bool-cases (r.version == unpinned_version)) [
        | inl u ↦ ground (arith, h, u)
        | inr u ↦
            let (x, y) =
              is_install-chosen (differ vs t i) (differ vs r.version i) (ground (arith, h, u)) in
            outdated t i f e u (differ-Reads t i false x) (differ-Reads r.version i true y)
      ]

  decide-ToInstall :
      (tracked : Option String) (r : Requirement)
      → (is_install (decide vs tracked r) ≡ true) ↔ ToInstall tracked r
  unfolding decide
  decide-ToInstall tracked r =
      (λ h. present-ToInstall tracked r tracked (present r.installed_version) refl refl h, from)
    where
      from :
          ToInstall tracked r
          → is_install (decide_present vs tracked r.version (present r.installed_version)) ≡ true
      from (missing f) = ap (λ o. is_install (decide_present vs tracked r.version o)) f
      from (outdated t i f e u x y) =
          ap (λ o. is_install (decide_present vs tracked r.version o)) f
          ∙ ap (λ o. is_install (decide_present vs o r.version (some i))) e
          ∙ ap
              (λ b. is_install (
                if b
                then some (if not (t == i) then untrack else skip)
                else choose_if vs (differ vs t i) untrack
                    (choose_if vs (differ vs r.version i) install (some skip))))
              u
          ∙ ap
              (λ q.
                is_install (
                  choose_if vs q untrack
                    (choose_if vs (differ vs r.version i) install (some skip))))
              (Reads-differ t i true x)
          ∙ ap (λ q. is_install (choose_if vs q install (some skip)))
              (Reads-differ r.version i false y)

  -- The loop over requirements with different names, where every version can be read, installs a
  -- package exactly where it is asked for and not there, or where it is there in the version that
  -- pyscript installed and another version is asked for by number.
  pub install_each-ToInstall :
      (requirements : Dict String Requirement) (tracker : Dict String String) (name : String)
      → distinct (names_of requirements) ≡ true
      → is_some (install_each vs requirements tracker) ≡ true
      → (to_install_has (install_each vs requirements tracker) name ≡ true)
        ↔ ((r : Requirement) × (get requirements name ≡ some r) × ToInstall (get tracker name) r)
  install_each-ToInstall requirements tracker name d h =
      let e = install_each-wanted requirements tracker name d h in
      (
        λ t. to (get requirements name) refl (sym e ∙ t),
        λ (r, g, i).
            e ∙ ap (wanted (get tracker name)) g ∙ (decide-ToInstall (get tracker name) r).1 i,
      )
    where
      to :
          (o : Option Requirement)
          → get requirements name ≡ o
          → wanted (get tracker name) o ≡ true
          → (r : Requirement) × (get requirements name ≡ some r) × ToInstall (get tracker name) r
      to none g w = ground (arith, w)
      to (some r) g w = (r, g, (decide-ToInstall (get tracker name) r).0 w)
