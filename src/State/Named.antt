-- ===== src/State/Named.antt =====
-- What `notify_var_get` and `update` of state.py give each trigger.
use text.Mathlib.TextEquality.{eq_iff}
use pyscript.Base.{
  String, ◌==◌, string_key, nat_key, Bool, true, false, ◌||◌, ◌≡◌, refl, Option, none, some, List,
  [], ◌∷◌, arith,
}
use pyscript.Base.Dict.{Dict, get, put, has, get-put, get-empty}
use pyscript.Base.Lists.{any}
use pyscript.Notify.{Queue}
use pyscript.State.Machine.{Machine}
use pyscript.State.Watch.{watched, or_no_queues}
use pyscript.State.Access.{State}
use pyscript.State.Read.{Got}
use pyscript.State.Deliver.{
  Names, add_name, put_new, new_value, notify_var_get, collect, merge, merge_watchers, note_last,
  messages, update,
}

module _ {V C : Type 0} (M : Machine V C) (str_method : String → Bool) where
  get-put_new :
      (name : String) (o : Option (Option (Got V))) (vars : Names V) (k : String)
      → has vars name ≡ false
      → has vars k ≡ true
      → get (put_new M str_method name o vars) k ≡ get vars k
  get-put_new name none vars k a h = refl
  get-put_new name (some x) vars k a h = ground (arith, get-put vars name k x, eq_iff name k)

  get-add_name :
      (s : State M) (name : String) (vars : Names V) (k : String)
      → has vars k ≡ true
      → get (add_name M str_method s name vars) k ≡ get vars k
  unfolding add_name
  get-add_name s name vars k h =
      ground (arith, get-put_new name (new_value M str_method s name vars) vars k)

  -- `notify_var_get` changes no value that it is given.
  get-notify_var_get :
      (names : List String) (vars : Names V) (s : State M) (k : String)
      → has vars k ≡ true
      → get (notify_var_get M str_method names vars s) k ≡ get vars k
  unfolding notify_var_get
  get-notify_var_get [] vars s k h = refl
  get-notify_var_get (n ∷ names) vars s k h = ground (
    arith,
    get-add_name s n vars k h,
    get-notify_var_get names (add_name M str_method s n vars) s k,
  )

  -- which queues an update tells
  has-merge :
      (d e : Dict Queue (List String)) (q : Queue)
      → has (merge M str_method d e) q ≡ (has d q || has e q)
  unfolding merge get
  has-merge d [] q = ground arith
  has-merge d ((r, names) ∷ e) q =
      ground (arith, has-merge (put d r names) e q, get-put d r q names)

  -- whether one of the changed variables is one that the queue watches
  abbrev pub told_of : Names V → State M → Queue → Bool
  told_of new_vars s q = any (λ v. watched s.notify q v.0) new_vars

  notify-collect-note_last :
      (s : State M) (w : Option (Dict Queue (List String))) (name : String) (x : Option (Got V))
      → (note_last M str_method w name x s).notify ≡ s.notify
  notify-collect-note_last s none name x = refl
  notify-collect-note_last s (some d) name x = refl

  has-merge_watchers :
      (told : Dict Queue (List String)) (w : Option (Dict Queue (List String))) (q : Queue)
      → has (merge_watchers M str_method told w) q ≡ (has told q || has (or_no_queues w) q)
  unfolding get
  has-merge_watchers told none q = ground arith
  has-merge_watchers told (some d) q = has-merge told d q

  has-collect :
      (new_vars : Names V) (s : State M) (told : Dict Queue (List String)) (q : Queue)
      → has (collect M str_method new_vars s told).0 q ≡ (has told q || told_of new_vars s q)
  unfolding collect
  has-collect [] s told q = ground arith
  has-collect ((name, x) ∷ vars) s told q = ground (
    arith,
    has-merge_watchers told (get s.notify name) q,
    has-collect vars (note_last M str_method (get s.notify name) name x s)
        (merge_watchers M str_method told (get s.notify name)) q,
    notify-collect-note_last s (get s.notify name) name x,
  )

  any-messages :
      (new_vars : Names V) (s : State M) (told : Dict Queue (List String)) (q : Queue)
      → any (λ m. m.0 == q) (messages M str_method new_vars s told) ≡ has told q
  unfolding get
  any-messages new_vars s [] q = refl
  any-messages new_vars s ((r, names) ∷ told) q = ground (arith, any-messages new_vars s told q)

  -- `update` tells exactly the queues that watch one of the changed variables.
  told-update :
      (new_vars : Names V) (s : State M) (q : Queue)
      → any (λ m. m.0 == q) (update M str_method new_vars s).0 ≡ told_of new_vars s q
  unfolding update
  told-update new_vars s q = ground (
    arith,
    has-collect new_vars s [] q,
    any-messages new_vars (collect M str_method new_vars s []).1
        (collect M str_method new_vars s []).0 q,
    get-empty {V = List String} q,
  )
