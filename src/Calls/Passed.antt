-- ===== src/Calls/Passed.antt =====
-- What the parameters of a call are bound to.
use pyscript.Base.{
  ℕ, zero, suc, ◌+◌, ◌≤◌, String, ◌==◌, string_key, nat_key, Bool, true, false, ◌||◌, ◌≡◌, refl,
  Option, none, some, List, [], ◌∷◌, ◌++◌, if◌then◌else◌, is_some, ltb, arith, ap, sym, ◌∙◌,
  same_refl, inl, inr, some_inj, Bool-cases, and_parts,
}
use text.Mathlib.TextEquality.{eq_iff}
use mathlib.Core.Path.{subst}
use pyscript.Base.Dict.{Dict, get, remove, has, get-put, get-remove}
use pyscript.Base.Lists.{length, is_empty, all, contains, distinct, contains-append}
use pyscript.Base.Result.{type_error, ok, then_try, ok_inj, err-ok, try-ok, unless-ok, when-ok}
use pyscript.Calls.{
  Bound, value, tuple, keywords, Func, trigger_kwargs, Binding, nth, from, get_positional_args,
  default_of, set_entry, use_default, use_keyword, use_arg, bind_posn, kw_default, use_kwonly,
  bind_kwonly, bind_kwarg, bind_vararg, if_good, bind,
}

not-listed :
    (l : List String) (x m : String) → contains l x ≡ false → contains l m ≡ true → (x == m) ≡ false
not-listed l x m a b = ground (arith, eq_iff x m)

nth-contains : (l : List String) (k : ℕ) (m : String) → nth l k ≡ some m → contains l m ≡ true
nth-contains [] k m e = ground (arith, e)
nth-contains (x ∷ l) zero m e = ground (arith, same_refl m, ap (λ y. y == m) (some_inj e))
nth-contains (x ∷ l) (suc k) m e = ground (arith, nth-contains l k m e)

abbrev pub listed : Option String → List String
listed none = []
listed (some name) = name ∷ []

module _ {V : Type 0} where
  abbrev pub first_of : Option V → Option V → Option V
  first_of none d = d
  first_of (some v) d = some v

  abbrev pub as_value : Option V → Option (Bound V)
  as_value none = none
  as_value (some v) = some (value v)

  -- the argument for the `i`-th parameter: by position, by its name, or the default
  abbrev pub argument : Func V → List V → Dict String V → ℕ → String → Option V
  argument f args kwargs i name =
      first_of (nth args i) (first_of (get kwargs name) (default_of f i))

  -- the entries of `m` in the two tables are the same
  abbrev Same : String → Binding V → Binding V → Type 0
  Same m s s' = (get s'.sym_table m ≡ get s.sym_table m) × (get s'.kwargs m ≡ get s.kwargs m)

  -- `m` is bound to what `g` is, which there is
  abbrev pub Given : String → Dict String (Bound V) → Option V → Type 0
  Given m t g = (get t m ≡ as_value g) × (is_some g ≡ true)

  ap-Same : (m : String) (s s' : Binding V) → s ≡ s' → Same m s s'
  ap-Same m s s' e = (
    ap (λ (b : Binding V). get b.sym_table m) (sym e),
    ap (λ (b : Binding V). get b.kwargs m) (sym e),
  )

  trans-Same : (m : String) (s t s' : Binding V) → Same m s t → Same m t s' → Same m s s'
  trans-Same m s t s' a b = (b.0 ∙ a.0, b.1 ∙ a.1)

  -- after `set_entry`, and the removal of a keyword
  set_entry-own :
      (name : String) (v : V) (s s1 s' : Binding V)
      → set_entry name (value v) s1 ≡ s'
      → s1.sym_table ≡ s.sym_table
      → ((m : String) → (name == m) ≡ false → get s1.kwargs m ≡ get s.kwargs m)
      → Given name s'.sym_table (some v) × ((m : String) → (name == m) ≡ false → Same m s s')
  set_entry-own name v s s1 s' e t k =
      subst
        (λ s'.
          Given name s'.sym_table (some v) × ((m : String) → (name == m) ≡ false → Same m s s'))
        e
        (
          (ground (arith, get-put s1.sym_table name name (value v), same_refl name), refl),
          λ m h.
              (ground (arith, get-put s1.sym_table name m (value v)) ∙ ap (λ d. get d m) t, k m h),
        )

  use_default-own :
      (d : Option V) (name : String) (s s' : Binding V)
      → use_default d name s ≡ ok s'
      → Given name s'.sym_table d × ((m : String) → (name == m) ≡ false → Same m s s')
  use_default-own none name s s' e = err-ok e
  use_default-own (some v) name s s' e = set_entry-own name v s s s' (ok_inj e) refl (λ m h. refl)

  use_keyword-own :
      (f : Func V) (i : ℕ) (name : String) (k : Option V) (s s' : Binding V)
      → use_keyword f i name k s ≡ ok s'
      → Given name s'.sym_table (first_of k (default_of f i))
        × ((m : String) → (name == m) ≡ false → Same m s s')
  use_keyword-own f i name none s s' e = use_default-own (default_of f i) name s s' e
  use_keyword-own f i name (some v) s s' e =
      set_entry-own name v s
        (record s {
          kwargs = remove s.kwargs name;
          bad_kwargs = s.bad_kwargs ++ (if ltb i (length f.posonlyargs) then name ∷ [] else []);
        })
        s' (ok_inj e) refl (λ m h. ground (arith, get-remove s.kwargs name m))

  use_arg-own :
      (f : Func V) (i : ℕ) (name : String) (a : Option V) (s s' : Binding V)
      → use_arg f i name a s ≡ ok s'
      → Given name s'.sym_table (first_of a (first_of (get s.kwargs name) (default_of f i)))
        × ((m : String) → (name == m) ≡ false → Same m s s')
  use_arg-own f i name none s s' e = use_keyword-own f i name (get s.kwargs name) s s' e
  use_arg-own f i name (some v) s s' e =
      let (absent, e') =
        unless-ok (has s.kwargs name) type_error (ok (set_entry name (value v) s)) s' e in
      set_entry-own name v s s s' (ok_inj e') refl (λ m h. refl)

  -- the loop over the positional parameters: those it does not have stay, and each has its argument
  bind_posn-Same :
      (f : Func V) (args : List V) (i : ℕ) (names : List String) (s s' : Binding V) (m : String)
      → bind_posn f args i names s ≡ ok s'
      → contains names m ≡ false
      → Same m s s'
  unfolding bind_posn
  bind_posn-Same f args i [] s s' m e h = ap-Same m s s' (ok_inj e)
  bind_posn-Same f args i (name ∷ names) s s' m e h =
      let (t, first, rest) =
        try-ok (use_arg f i name (nth args i) s) (bind_posn f args (suc i) names) s' e in
      trans-Same m s t s' ((use_arg-own f i name (nth args i) s t first).1 m (ground arith))
        (bind_posn-Same f args (suc i) names t s' m rest (ground arith))

  bind_posn-argument :
      (f : Func V) (args : List V) (i : ℕ) (names : List String) (s s' : Binding V) (k : ℕ)
      (name : String)
      → bind_posn f args i names s ≡ ok s'
      → distinct names ≡ true
      → nth names k ≡ some name
      → Given name s'.sym_table (argument f args s.kwargs (k + i) name)
  unfolding bind_posn
  bind_posn-argument f args i [] s s' k name e d n = ground (arith, n)
  bind_posn-argument f args i (x ∷ names) s s' zero name e d n =
      let (t, first, rest) =
        try-ok (use_arg f i x (nth args i) s) (bind_posn f args (suc i) names) s' e in
      let own = use_arg-own f i x (nth args i) s t first in
      let kept = bind_posn-Same f args (suc i) names t s' x rest (ground arith) in
      subst (λ name. Given name s'.sym_table (argument f args s.kwargs (0 + i) name)) (some_inj n)
        (subst (λ j. Given x s'.sym_table (argument f args s.kwargs j x))
          (let e : i ≡ 0 + i = omega arith in e) (kept.0 ∙ own.0.0, own.0.1))
  bind_posn-argument f args i (x ∷ names) s s' (suc k) name e d n =
      let (t, first, rest) =
        try-ok (use_arg f i x (nth args i) s) (bind_posn f args (suc i) names) s' e in
      let ih = bind_posn-argument f args (suc i) names t s' k name rest (ground arith) n in
      let other = not-listed names x name (ground arith) (nth-contains names k name n) in
      let kept = (use_arg-own f i x (nth args i) s t first).1 name other in
      subst (λ j. Given name s'.sym_table (argument f args s.kwargs j name))
        (let e : k + suc i ≡ suc k + i = omega arith in e)
        (subst
          (λ g.
            Given name s'.sym_table
              (first_of (nth args (k + suc i)) (first_of g (default_of f (k + suc i)))))
          kept.1 ih)

  kw_default-Same :
      (d : Option (Option V)) (name : String) (s s' : Binding V) (m : String)
      → kw_default d name s ≡ ok s'
      → (name == m) ≡ false
      → Same m s s'
  kw_default-Same none name s s' m e h = err-ok e
  kw_default-Same (some none) name s s' m e h = err-ok e
  kw_default-Same (some (some v)) name s s' m e h =
      (set_entry-own name v s s s' (ok_inj e) refl (λ m h. refl)).1 m h

  use_kwonly-Same :
      (f : Func V) (i : ℕ) (name : String) (k : Option V) (s s' : Binding V) (m : String)
      → use_kwonly f i name k s ≡ ok s'
      → (name == m) ≡ false
      → Same m s s'
  use_kwonly-Same f i name none s s' m e h = kw_default-Same (nth f.kw_defaults i) name s s' m e h
  use_kwonly-Same f i name (some v) s s' m e h =
      (set_entry-own name v s (record s { kwargs = remove s.kwargs name }) s' (ok_inj e) refl
          (λ m h. ground (arith, get-remove s.kwargs name m))).1
        m h

  bind_kwonly-Same :
      (f : Func V) (i : ℕ) (names : List String) (s s' : Binding V) (m : String)
      → bind_kwonly f i names s ≡ ok s'
      → contains names m ≡ false
      → Same m s s'
  unfolding bind_kwonly
  bind_kwonly-Same f i [] s s' m e h = ap-Same m s s' (ok_inj e)
  bind_kwonly-Same f i (name ∷ names) s s' m e h =
      let (t, first, rest) =
        try-ok (use_kwonly f i name (get s.kwargs name) s) (bind_kwonly f (suc i) names) s' e in
      trans-Same m s t s' (use_kwonly-Same f i name (get s.kwargs name) s t m first (ground arith))
        (bind_kwonly-Same f (suc i) names t s' m rest (ground arith))

  bind_kwarg-Same :
      (o : Option String) (s s' : Binding V) (m : String)
      → bind_kwarg o s ≡ ok s'
      → contains (listed o) m ≡ false
      → get s'.sym_table m ≡ get s.sym_table m
  bind_kwarg-Same none s s' m e h =
      ap (λ (b : Binding V). get b.sym_table m)
        (sym (
          ok_inj
            (when-ok (all (λ kv. contains trigger_kwargs kv.0) s.kwargs) type_error (ok s) s' e).1))
  bind_kwarg-Same (some name) s s' m e h =
      ap (λ (b : Binding V). get b.sym_table m) (sym (ok_inj e))
      ∙ ground (arith, get-put s.sym_table name m (keywords s.kwargs), h)

  bind_vararg-Same :
      (f : Func V) (args : List V) (o : Option String) (s s' : Binding V) (m : String)
      → bind_vararg f args o s ≡ ok s'
      → contains (listed o) m ≡ false
      → get s'.sym_table m ≡ get s.sym_table m
  bind_vararg-Same f args none s s' m e h =
      ap (λ (b : Binding V). get b.sym_table m)
        (sym (
          ok_inj
            (unless-ok (ltb (length (get_positional_args f)) (length args)) type_error (ok s) s'
              e).1))
  bind_vararg-Same f args (some name) s s' m e h =
      ap (λ (b : Binding V). get b.sym_table m) (sym (ok_inj e))
      ∙ ground (
        arith,
        get-put s.sym_table name m (tuple (from args (length (get_positional_args f)))),
        h,
      )

  abbrev start : Dict String V → Binding V
  start kwargs = record { sym_table = []; kwargs = kwargs; bad_kwargs = [] }

  -- the steps of a call that binds
  record Steps (f : Func V) (args : List V) (kwargs : Dict String V) (t : Dict String (Bound V))
      : Type 0 where
    s1 : Binding V
    s2 : Binding V
    s3 : Binding V
    s4 : Binding V
    s5 : Binding V
    posn : bind_posn f args 0 (get_positional_args f) (start kwargs) ≡ ok s1
    good : if_good s1 ≡ ok s2
    kwonly : bind_kwonly f 0 f.kwonlyargs s2 ≡ ok s3
    kwarg : bind_kwarg f.kwarg s3 ≡ ok s4
    vararg : bind_vararg f args f.vararg s4 ≡ ok s5
    result : s5.sym_table ≡ t

  Steps-bind :
      (f : Func V) (args : List V) (kwargs : Dict String V) (t : Dict String (Bound V))
      → bind f args kwargs ≡ ok t
      → Steps f args kwargs t
  unfolding bind
  Steps-bind f args kwargs t e =
      let end =
        λ (s4 : Binding V). then_try (bind_vararg f args f.vararg s4) (λ s5. ok s5.sym_table) in
      let left = λ (s3 : Binding V). then_try (bind_kwarg f.kwarg s3) end in
      let named = λ (s2 : Binding V). then_try (bind_kwonly f 0 f.kwonlyargs s2) left in
      let (s1, e1, r1) =
        try-ok (bind_posn f args 0 (get_positional_args f) (start kwargs))
          (λ s1. then_try (if_good s1) named) t e in
      let (s2, e2, r2) = try-ok (if_good s1) named t r1 in
      let (s3, e3, r3) = try-ok (bind_kwonly f 0 f.kwonlyargs s2) left t r2 in
      let (s4, e4, r4) = try-ok (bind_kwarg f.kwarg s3) end t r3 in
      let (s5, e5, r5) = try-ok (bind_vararg f args f.vararg s4) (λ s5. ok s5.sym_table) t r4 in
      record {
        s1 = s1;
        s2 = s2;
        s3 = s3;
        s4 = s4;
        s5 = s5;
        posn = e1;
        good = e2;
        kwonly = e3;
        kwarg = e4;
        vararg = e5;
        result = ok_inj r5;
      }

  good-Same : (s s' : Binding V) (m : String) → if_good s ≡ ok s' → Same m s s'
  good-Same s s' m e =
      ap-Same m s s' (ok_inj (when-ok (is_empty s.bad_kwargs) type_error (ok s) s' e).1)

  -- Where the arguments of a call can be bound, the `k`-th positional parameter is bound to the
  -- argument at its place, or else to the keyword of its name, or else to its default, one of which
  -- there is. The conditions are that the names of the positional parameters differ, and that no
  -- other parameter has the name.
  pub bind-argument :
      (f : Func V) (args : List V) (kwargs : Dict String V) (t : Dict String (Bound V)) (k : ℕ)
      (name : String)
      → bind f args kwargs ≡ ok t
      → distinct (get_positional_args f) ≡ true
      → nth (get_positional_args f) k ≡ some name
      → contains (f.kwonlyargs ++ (listed f.kwarg ++ listed f.vararg)) name ≡ false
      → (get t name ≡ as_value (argument f args kwargs k name))
        × (is_some (argument f args kwargs k name) ≡ true)
  bind-argument f args kwargs t k name e d n o =
      let x = Steps-bind f args kwargs t e in
      let c = contains-append f.kwonlyargs (listed f.kwarg ++ listed f.vararg) name in
      let c' = contains-append (listed f.kwarg) (listed f.vararg) name in
      let own =
        bind_posn-argument f args 0 (get_positional_args f) (start kwargs) x.s1 k name x.posn d n in
      let given : Given name x.s1.sym_table (argument f args kwargs k name) =
        subst (λ j. Given name x.s1.sym_table (argument f args kwargs j name))
          (let e : k + 0 ≡ k = omega arith in e) own in
      let later : get t name ≡ get x.s1.sym_table name =
        ap (λ d. get d name) (sym x.result)
        ∙ bind_vararg-Same f args f.vararg x.s4 x.s5 name x.vararg (ground (arith, c, c'))
        ∙ bind_kwarg-Same f.kwarg x.s3 x.s4 name x.kwarg (ground (arith, c, c'))
        ∙ (bind_kwonly-Same f 0 f.kwonlyargs x.s2 x.s3 name x.kwonly (ground (arith, c))).0
        ∙ (good-Same x.s1 x.s2 name x.good).0 in
      (later ∙ given.0, given.1)

  all-has :
      (p : String → Bool) (d : Dict String V) (key : String)
      → all (λ kv. p kv.0) d ≡ true
      → has d key ≡ true
      → p key ≡ true
  unfolding get
  all-has p [] key a h = ground (arith, h)
  all-has p ((k, v) ∷ d) key a h = elim (Bool-cases (k == key)) [
    | inl e ↦ subst (λ x. p x ≡ true) ((eq_iff k key).0 e) (and_parts (p k) _ a).0
    | inr e ↦ all-has p d key (and_parts (p k) _ a).1 (ground (arith, e, h))
  ]

  left-known :
      (f : Func V) (args : List V) (kwargs : Dict String V) (t : Dict String (Bound V))
      (x : Steps f args kwargs t) (key : String)
      → has kwargs key ≡ true
      → all (λ kv. contains trigger_kwargs kv.0) x.s3.kwargs ≡ true
      → contains (get_positional_args f ++ (f.kwonlyargs ++ trigger_kwargs)) key ≡ true
  left-known f args kwargs t x key h a =
      let c = contains-append (get_positional_args f) (f.kwonlyargs ++ trigger_kwargs) key in
      let c' = contains-append f.kwonlyargs trigger_kwargs key in
      elim (Bool-cases (contains (get_positional_args f) key)) [
        | inl p ↦ ground (arith, c, p)
        | inr p ↦ elim (Bool-cases (contains f.kwonlyargs key)) [
          | inl q ↦ ground (arith, c, c', q)
          | inr q ↦
              let kept : get x.s3.kwargs key ≡ get kwargs key =
                (bind_kwonly-Same f 0 f.kwonlyargs x.s2 x.s3 key x.kwonly q).1
                ∙ (good-Same x.s1 x.s2 key x.good).1
                ∙ (bind_posn-Same f args 0 (get_positional_args f) (start kwargs) x.s1 key x.posn
                    p).1 in
              let known : contains trigger_kwargs key ≡ true =
                all-has (contains trigger_kwargs) x.s3.kwargs key a (ap is_some kept ∙ h) in
              c
              ∙ ap (λ b. contains (get_positional_args f) key || b)
                  (c' ∙ ap (λ b. contains f.kwonlyargs key || b) known)
              ∙ ground arith
        ]
      ]

  -- Where a function without `*args` and `**kwargs` is called and its arguments can be bound, none
  -- is lost: there are no more positional ones than parameters, and each keyword is a parameter's
  -- name or one that triggers add.
  pub bind-no_loss :
      (f : Func V) (args : List V) (kwargs : Dict String V) (t : Dict String (Bound V))
      → bind f args kwargs ≡ ok t
      → f.vararg ≡ none
      → f.kwarg ≡ none
      → (length args ≤ length (get_positional_args f))
        × ((key : String)
            → has kwargs key ≡ true
            → contains (get_positional_args f ++ (f.kwonlyargs ++ trigger_kwargs)) key ≡ true)
  bind-no_loss f args kwargs t e v k =
      let x = Steps-bind f args kwargs t e in
      let unexpected =
        when-ok (all (λ kv. contains trigger_kwargs kv.0) x.s3.kwargs) type_error (ok x.s3) x.s4
          (subst (λ o. bind_kwarg o x.s3 ≡ ok x.s4) k x.kwarg) in
      let too_many =
        unless-ok (ltb (length (get_positional_args f)) (length args)) type_error (ok x.s4) x.s5
          (subst (λ o. bind_vararg f args o x.s4 ≡ ok x.s5) v x.vararg) in
      (ground (arith, too_many.0), λ key h. left-known f args kwargs t x key h unexpected.0)
