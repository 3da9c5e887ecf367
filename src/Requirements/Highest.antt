-- ===== src/Requirements/Highest.antt =====
-- The version that requirements.py records for a package is the highest that is asked for.
use text.Mathlib.TextEquality.{eq_iff}
use pyscript.Base.{
  String, ◌==◌, nat_key, string_key, Bool, true, false, not, ◌&&◌, ◌||◌, ◌≡◌, refl, Option, none,
  some, List, [], ◌∷◌, arith, is_some, Option-cases, inl, inr, and_parts, same_refl,
}
use pyscript.Base.Dict.{Dict, get, get-put}
use pyscript.Base.Lists.{all}
use pyscript.Requirements.Choose.{
  Versions, Requirement, is_unpinned, compared, choose, choose_for, record_version,
}

module _ (vs : Versions) (installed : String → Option String) where
  -- a version that packaging can read, or none at all
  abbrev pub is_sound : String → Bool
  is_sound v = not (v == "") && (is_unpinned vs installed v || is_some (vs.parse v))

  abbrev pub not_below : Option vs.Version → Option vs.Version → Bool
  not_below (some a) (some b) = not (vs.before a b)
  not_below _ _ = false

  -- the version `v` is as good as what is asked for
  abbrev pub covers : String → String → Bool
  covers v asked =
      is_unpinned vs installed asked
      || (not (is_unpinned vs installed v) && not_below (vs.parse v) (vs.parse asked))

  module _ (path v : String) (r : Requirement) (a b : vs.Version) where
    abbrev kept : Requirement
    kept = compared vs installed (some a) (some b) v path r

    covers-compared_new :
        vs.parse r.version ≡ some a
        → vs.parse v ≡ some b
        → is_unpinned vs installed r.version ≡ false
        → is_unpinned vs installed v ≡ false
        → covers kept.version v ≡ true
    covers-compared_new ra vb p q =
        ground (arith, ra, vb, vs.equal-not_before a b, vs.before-irreflexive b)

    covers-compared_old :
        (u : String)
        → vs.parse r.version ≡ some a
        → vs.parse v ≡ some b
        → is_unpinned vs installed v ≡ false
        → covers r.version u ≡ true
        → covers kept.version u ≡ true
    covers-compared_old u ra vb q o = elim (Option-cases (vs.parse u)) [
      | inl e ↦ ground (arith, ra, vb, e)
      | inr (c, e) ↦ ground (arith, ra, vb, e, vs.before-asymmetric a b, vs.before-transitive b a c)
    ]

    is_sound-compared : is_sound r.version ≡ true → is_sound v ≡ true → is_sound kept.version ≡ true
    is_sound-compared sr sv = ground arith

  -- what one requirement leaves recorded
  module _ (path name v : String) (r : Requirement) where
    covers-choose_new :
        is_sound r.version ≡ true
        → is_sound v ≡ true
        → covers (choose vs installed path name v r).version v ≡ true
    unfolding choose
    covers-choose_new sr sv = elim (Option-cases (vs.parse v)) [
      | inl f ↦ ground (arith, f)
      | inr (b, f) ↦ elim (Option-cases (vs.parse r.version)) [
        | inl e ↦ ground (arith, e, f, vs.before-irreflexive b)
        | inr (a, e) ↦
            ground (arith, e, f, vs.before-irreflexive b, covers-compared_new path v r a b e f)
      ]
    ]

    covers-choose_old :
        (u : String)
        → is_sound r.version ≡ true
        → is_sound v ≡ true
        → covers r.version u ≡ true
        → covers (choose vs installed path name v r).version u ≡ true
    unfolding choose
    covers-choose_old u sr sv o = elim (Option-cases (vs.parse r.version)) [
      | inl e ↦ ground (arith, e)
      | inr (a, e) ↦ elim (Option-cases (vs.parse v)) [
        | inl f ↦ ground (arith, e, f)
        | inr (b, f) ↦ ground (arith, e, f, covers-compared_old path v r a b u e f)
      ]
    ]

    is_sound-choose :
        is_sound r.version ≡ true
        → is_sound v ≡ true
        → is_sound (choose vs installed path name v r).version ≡ true
    unfolding choose
    is_sound-choose sr sv = elim (Option-cases (vs.parse r.version)) [
      | inl e ↦ ground (arith, e)
      | inr (a, e) ↦ elim (Option-cases (vs.parse v)) [
        | inl f ↦ ground (arith, e, f)
        | inr (b, f) ↦ ground (arith, e, f, is_sound-compared path v r a b)
      ]
    ]

  -- what is asked for a package: the path, the name and the version, by the order of the lines
  abbrev pub Asked : Type 0
  Asked = String × (String × String)

  unfoldable pub record_all : List Asked → Dict String Requirement → Dict String Requirement
  record_all [] table = table
  record_all ((path, (name, v)) ∷ asked) table =
      record_all asked (record_version vs installed path name v table)

  abbrev pub sound_record : Option Requirement → Bool
  sound_record none = true
  sound_record (some r) = is_sound r.version

  abbrev pub covers_record : Option Requirement → String → Bool
  covers_record none v = false
  covers_record (some r) v = covers r.version v

  covers_self : (v : String) → is_sound v ≡ true → covers v v ≡ true
  covers_self v sv = elim (Option-cases (vs.parse v)) [
    | inl e ↦ ground (arith, e)
    | inr (b, e) ↦ ground (arith, e, vs.before-irreflexive b)
  ]

  choose_for-step :
      (path name v u : String) (o : Option Requirement)
      → is_sound v ≡ true
      → sound_record o ≡ true
      → (covers (choose_for vs installed path name v o).version v ≡ true)
        × (covers_record o u ≡ true
            → covers (choose_for vs installed path name v o).version u ≡ true)
        × (is_sound (choose_for vs installed path name v o).version ≡ true)
  choose_for-step path name v u none sv so = (covers_self v sv, λ c. ground (arith, c), sv)
  choose_for-step path name v u (some r) sv so = (
    covers-choose_new path name v r so sv,
    covers-choose_old path name v r u so sv,
    is_sound-choose path name v r so sv,
  )

  -- one requirement, on the records of the table
  record_version-step :
      (path name v : String) (table : Dict String Requirement) (j u : String)
      → is_sound v ≡ true
      → sound_record (get table name) ≡ true
      → ((name == j) ≡ true
          → covers_record (get (record_version vs installed path name v table) j) v ≡ true)
        × (covers_record (get table j) u ≡ true
            → covers_record (get (record_version vs installed path name v table) j) u ≡ true)
        × (sound_record (get table j) ≡ true
            → sound_record (get (record_version vs installed path name v table) j) ≡ true)
  unfolding record_version
  record_version-step path name v table j u sv st =
      let (new, old, sound) = choose_for-step path name v u (get table name) sv st in
      let after = get-put table name j (choose_for vs installed path name v (get table name)) in
      (
        λ e. ground (arith, e, new, after),
        λ c. ground (arith, c, old, after, eq_iff name j),
        λ c. ground (arith, c, sound, after),
      )

  abbrev pub all_sound : List Asked → Bool
  all_sound asked = all (λ a. is_sound a.1.1) asked

  covers-record_all :
      (asked : List Asked) (table : Dict String Requirement) (j u : String)
      → all_sound asked ≡ true
      → ((i : String) → sound_record (get table i) ≡ true)
      → covers_record (get table j) u ≡ true
      → covers_record (get (record_all asked table) j) u ≡ true
  unfolding record_all
  covers-record_all [] table j u sa st c = c
  covers-record_all ((path, (name, v)) ∷ asked) table j u sa st c =
      let (sv, rest) = and_parts (is_sound v) (all_sound asked) sa in
      covers-record_all asked (record_version vs installed path name v table) j u rest
        (λ i. (record_version-step path name v table i u sv (st name)).2 (st i))
        ((record_version-step path name v table j u sv (st name)).1 c)

  -- Where packaging can read every version that is asked for, each package gets a version that no
  -- version asked for it is higher than, and a pinned one where any is pinned.
  pub all_covered-record_all :
      (asked : List Asked) (table : Dict String Requirement)
      → all_sound asked ≡ true
      → ((i : String) → sound_record (get table i) ≡ true)
      → all (λ a. covers_record (get (record_all asked table) a.1.0) a.1.1) asked ≡ true
  unfolding record_all
  all_covered-record_all [] table sa st = refl
  all_covered-record_all ((path, (name, v)) ∷ asked) table sa st =
      let (sv, rest) = and_parts (is_sound v) (all_sound asked) sa in
      let table' = record_version vs installed path name v table in
      let st' = λ (i : String). (record_version-step path name v table i v sv (st name)).2 (st i) in
      let first = (record_version-step path name v table name v sv (st name)).0 (same_refl name) in
      ground (
        arith,
        covers-record_all asked table' name v rest st' first,
        all_covered-record_all asked table' rest st',
      )

  -- A version that packaging cannot read, once it is recorded, keeps every later pinned version
  -- of the package out.
  choose_unreadable :
      (path name v : String) (r : Requirement)
      → vs.parse r.version ≡ none
      → is_unpinned vs installed r.version ≡ false
      → (r.version == "") ≡ false
      → choose vs installed path name v r ≡ r
  unfolding choose
  choose_unreadable path name v r h p e = ground (arith, h)
