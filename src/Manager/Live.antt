-- ===== src/Manager/Live.antt =====
-- Which decorators are started and not stopped, over the life of a manager of decorator_abc.py.
use pyscript.Base.{
  ℕ, nat_key, true, false, not, ◌&&◌, ◌||◌, ◌≡◌, Option, List, [], ◌∷◌, ◌++◌, arith, map,
  if◌then◌else◌, is_some, Option-cases, Bool-cases, inl, inr,
}
use pyscript.Base.Lists.{contains, contains-append}
use pyscript.Base.Bag.{add, discard, contains-add, contains-discard}
use pyscript.Base.Result.{Error}
use pyscript.Manager.{
  running, validated, same_status, Decorator, Manager, Call, validating, starting, stopping,
  start_each, start, stop, update_status,
}

module _ (validate_error start_error : Decorator → Option Error) where
  -- A decorator is live from a `start` that returns to its `stop`.
  abbrev pub after_call : Call → List Decorator → List Decorator
  after_call (validating d) live = live
  after_call (starting d) live = if is_some (start_error d) then live else add live d
  after_call (stopping d) live = discard live d

  unfoldable pub after_calls : List Call → List Decorator → List Decorator
  after_calls [] live = live
  after_calls (c ∷ calls) live = after_calls calls (after_call c live)

  contains-stopping :
      (ds live : List Decorator) (d : Decorator)
      → contains (after_calls (map stopping ds) live) d ≡ (contains live d && not (contains ds d))
  unfolding after_calls
  contains-stopping [] live d = ground arith
  contains-stopping (x ∷ ds) live d =
      ground (arith, contains-stopping ds (discard live x) d, contains-discard live x d)

  contains-add_append :
      (x : Decorator) (started live : List Decorator)
      → ((y : Decorator) → contains live y ≡ contains started y)
      → (y : Decorator) → contains (add live x) y ≡ contains (started ++ x ∷ []) y
  contains-add_append x started live h y =
      ground (arith, h y, contains-add live x y, contains-append started (x ∷ []) y)

  -- After the loop of `start` all its decorators are live, or those that it started are not.
  pub contains-start_each :
      (ds started live : List Decorator) (d : Decorator)
      → ((x : Decorator) → contains live x ≡ contains started x)
      → contains (after_calls (start_each validate_error start_error ds started).1 live) d ≡ (
          if is_some (start_each validate_error start_error ds started).0
          then false
          else contains started d || contains ds d)
  unfolding after_calls start_each
  contains-start_each [] started live d h = ground (arith, h d)
  contains-start_each (x ∷ ds) started live d h = elim (Option-cases (start_error x)) [
    | inl e ↦ ground (
      arith,
      e,
      contains-append started (x ∷ []) d,
      contains-start_each ds (started ++ x ∷ []) (add live x) d
          (contains-add_append x started live h),
    )
    | inr (r, e) ↦ ground (arith, e, contains-stopping started live d, h d)
  ]

  -- what a manager's owner does with it once it is validated
  pub data Request : Type 0 where
    start_at : ℕ → Request
    stop_now : Request

  -- the manager, and its live decorators
  abbrev pub handle : Request → Manager × List Decorator → Manager × List Decorator
  handle (start_at now) (m, live) =
      let (e, calls, m') = start validate_error start_error now m in (m', after_calls calls live)
  handle stop_now (m, live) = let (calls, m') = stop m in (m', after_calls calls live)

  unfoldable pub run : List Request → Manager × List Decorator → Manager × List Decorator
  run [] x = x
  run (r ∷ rs) x = run rs (handle r x)

  -- the live decorators are all of a running manager's, and none of another's
  abbrev pub IsExact : Manager × List Decorator → Type 0
  IsExact (m, live) =
      (d : Decorator)
      → contains live d ≡ (if same_status m.status running then contains m.decorators d else false)

  not_running-none :
      (m : Manager) (live : List Decorator) (x : Decorator)
      → same_status m.status validated ≡ true
      → contains live x ≡ (if same_status m.status running then contains m.decorators x else false)
      → contains live x ≡ false
  not_running-none m live x v h = ground arith

  start-IsExact :
      (now : ℕ) (x : Manager × List Decorator) → IsExact x → IsExact (handle (start_at now) x)
  unfolding start after_calls update_status
  start-IsExact now (m, live) h d = elim (Bool-cases (same_status m.status validated)) [
    | inl v ↦ ground (
      arith,
      v,
      contains-start_each m.decorators [] live d (λ x. not_running-none m live x v (h x)),
    )
    | inr v ↦ ground (arith, v, h d)
  ]

  stop-IsExact : (x : Manager × List Decorator) → IsExact x → IsExact (handle stop_now x)
  unfolding stop after_calls update_status
  stop-IsExact (m, live) h d = ground (arith, h d, contains-stopping m.decorators live d)

  run-IsExact : (rs : List Request) (x : Manager × List Decorator) → IsExact x → IsExact (run rs x)
  unfolding run
  run-IsExact [] x h = h
  run-IsExact (start_at now ∷ rs) x h =
      run-IsExact rs (handle (start_at now) x) (start-IsExact now x h)
  run-IsExact (stop_now ∷ rs) x h = run-IsExact rs (handle stop_now x) (stop-IsExact x h)

  -- Starts and stops by any order, with any decorators failing to start: if before them the live
  -- decorators (started and not stopped) were those that the manager holds while it runs, and none
  -- otherwise, then after them they are.
  pub contains-run :
      (rs : List Request) (x : Manager × List Decorator) (d : Decorator)
      → IsExact x
      → contains (run rs x).1 d
        ≡ (same_status (run rs x).0.status running && contains (run rs x).0.decorators d)
  contains-run rs x d h = ground (arith, run-IsExact rs x h d)
