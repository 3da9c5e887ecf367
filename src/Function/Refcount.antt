-- ===== src/Function/Refcount.antt =====
-- A service is registered in Home Assistant exactly while some registration of it is left, and
-- belongs to the context of the first of these.
use text.Mathlib.TextEquality.{eq_iff}
use pyscript.Base.{
  ℕ, ◌+◌, ◌-◌, String, ◌==◌, string_key, nat_key, Bool, true, false, not, ◌&&◌, ◌||◌, ◌≡◌, refl, ap,
  ◌⊎◌, inl, inr, Option, none, some, List, [], ◌∷◌, arith, ltb, if◌then◌else◌, is_some,
}
use pyscript.Base.Dict.{get, has, get-put, get-remove}
use pyscript.Base.Text.{dotted}
use pyscript.Base.Result.{is_ok}
use pyscript.Function.Services.{
  HassCall, async_register, async_remove, Services, no_services, count, enter, service_register,
  service_remove,
}

-- the service calls of scripts, with their contexts
pub data Request : Type 0 where
  registers removes : String → String → String → Request

-- The state after some requests, the latest first; a failed registration changes what it changes.
unfoldable pub run : List Request → Services
run [] = no_services
run (registers ctx domain service ∷ rs) = (service_register ctx domain service (run rs)).1
run (removes ctx domain service ∷ rs) = service_remove ctx domain service (run rs)

-- The specification: the registrations left of a service and the context that owns it.
pub record Holding : Type 0 where
  pub held : ℕ
  pub owner : Option String

abbrev pub may_register : Option String → String → Bool
may_register none ctx = true
may_register (some o) ctx = o == ctx

abbrev register_one : String → Holding → Holding
register_one ctx h =
    if may_register h.owner ctx then record { held = h.held + 1; owner = some ctx } else h

abbrev remove_one : Holding → Holding
remove_one h =
    if ltb 1 h.held then record h { held = h.held - 1 } else record { held = 0; owner = none }

unfoldable pub spec : List Request → String → Holding
spec [] key = record { held = 0; owner = none }
spec (registers ctx domain service ∷ rs) key =
    let h = spec rs key in if dotted domain service == key then register_one ctx h else h
spec (removes ctx domain service ∷ rs) key =
    let h = spec rs key in if dotted domain service == key then remove_one h else h

-- Whether Home Assistant has the service after some calls.
unfoldable pub registered : List HassCall → String → Bool
registered [] key = false
registered (async_register domain service ∷ calls) key =
    dotted domain service == key || registered calls key
registered (async_remove domain service ∷ calls) key =
    not (dotted domain service == key) && registered calls key

record Agrees (s : Services) (key : String) (h : Holding) : Type 0 where
  counted : count s key ≡ h.held
  known : get s.service2global_ctx key ≡ h.owner
  held_has_owner : is_some h.owner ≡ ltb 0 h.held
  active : registered s.calls key ≡ ltb 0 h.held

calls-enter : (ctx k : String) (s : Services) → (enter ctx k s).calls ≡ s.calls
unfolding enter
calls-enter ctx k s = refl

owner_eq :
    (o : Option String) (ctx : String) → may_register o ctx ≡ true → (o ≡ none) ⊎ (o ≡ some ctx)
owner_eq none ctx h = inl refl
owner_eq (some p) ctx h = inr (ap some ((eq_iff p ctx).0 h))

count-enter :
    (ctx k : String) (s : Services) (key : String) → count (enter ctx k s) key ≡ count s key
unfolding enter
count-enter ctx k s key = ground (arith, get-put s.service_cnt k key 0, eq_iff k key)

owner-enter :
    (ctx k : String) (s : Services) (key : String)
    → get (enter ctx k s).service2global_ctx key ≡ (
        if (k == key) && not (has s.service2global_ctx k)
        then some ctx
        else get s.service2global_ctx key)
unfolding enter
owner-enter ctx k s key = ground (arith, get-put s.service2global_ctx k key ctx)

-- whether a registration succeeds
pub is_ok-service_register :
    (ctx domain service : String) (s : Services)
    → is_ok (service_register ctx domain service s).0
      ≡ may_register (get s.service2global_ctx (dotted domain service)) ctx
unfolding service_register
is_ok-service_register ctx domain service s = ground (
  arith,
  owner-enter ctx (dotted domain service) s (dotted domain service),
  eq_iff (dotted domain service) (dotted domain service),
  eq_iff ctx ctx,
)

module _ (ctx domain service : String) (s : Services) (key : String) (h : Holding)
    (v : Agrees s key h) where
  abbrev mine : Bool
  mine = dotted domain service == key

  abbrev registered_to : Holding
  registered_to = if mine then register_one ctx h else h

  register_counted : count (service_register ctx domain service s).1 key ≡ registered_to.held
  unfolding service_register
  register_counted =
      let k = dotted domain service in
      let t = enter ctx k s in
      ground (
        arith,
        v.counted,
        v.known,
        get-put t.service_cnt k key (count t k + 1),
        count-enter ctx k s key,
        count-enter ctx k s k,
        owner-enter ctx k s k,
        eq_iff k k,
        eq_iff k key,
        eq_iff ctx ctx,
      )

  register_known :
      get (service_register ctx domain service s).1.service2global_ctx key ≡ registered_to.owner
  unfolding service_register
  register_known =
      let k = dotted domain service in
      ground (
        arith,
        v.known,
        owner-enter ctx k s k,
        owner-enter ctx k s key,
        eq_iff k k,
        eq_iff k key,
        eq_iff ctx ctx,
        owner_eq h.owner ctx,
      )

  register_active :
      registered (service_register ctx domain service s).1.calls key ≡ ltb 0 registered_to.held
  unfolding service_register registered
  register_active =
      let k = dotted domain service in
      ground (
        arith,
        v.known,
        v.active,
        owner-enter ctx k s k,
        calls-enter ctx k s,
        eq_iff k k,
        eq_iff k key,
        eq_iff ctx ctx,
      )

  Agrees-register : Agrees (service_register ctx domain service s).1 key registered_to
  Agrees-register = record {
    counted = register_counted;
    known = register_known;
    held_has_owner = ground (arith, v.held_has_owner);
    active = register_active;
  }

  Agrees-remove :
      Agrees (service_remove ctx domain service s) key (if mine then remove_one h else h)
  unfolding service_remove registered
  Agrees-remove =
      let k = dotted domain service in
      record {
        counted = ground (
          arith,
          v.counted,
          get-put s.service_cnt k key (count s k - 1),
          get-put s.service_cnt k key 0,
          eq_iff k key,
        );
        known =
            ground (arith, v.known, v.counted, get-remove s.service2global_ctx k key, eq_iff k key);
        held_has_owner = ground (arith, v.held_has_owner);
        active = ground (arith, v.active, v.counted, eq_iff k key);
      }

Agrees-run : (rs : List Request) (key : String) → Agrees (run rs) key (spec rs key)
unfolding run spec
Agrees-run [] key =
    unfold get registered in
    record { counted = refl; known = refl; held_has_owner = refl; active = refl }
Agrees-run (registers ctx domain service ∷ rs) key =
    Agrees-register ctx domain service (run rs) key (spec rs key) (Agrees-run rs key)
Agrees-run (removes ctx domain service ∷ rs) key =
    Agrees-remove ctx domain service (run rs) key (spec rs key) (Agrees-run rs key)

-- After any requests, Home Assistant has a service exactly if the specification has a
-- registration of it left, the reference count is the number of these, and the owner is that of
-- the specification.
pub run-refines-spec :
    (rs : List Request) (key : String)
    → (registered (run rs).calls key ≡ ltb 0 (spec rs key).held)
      × (count (run rs) key ≡ (spec rs key).held)
      × (get (run rs).service2global_ctx key ≡ (spec rs key).owner)
run-refines-spec rs key = let a = Agrees-run rs key in (a.active, a.counted, a.known)

-- A registration succeeds exactly if nothing is left of the service, or only registrations of the
-- same context.
register-accepts :
    (rs : List Request) (ctx domain service : String)
    → is_ok (service_register ctx domain service (run rs)).0
      ≡ may_register (spec rs (dotted domain service)).owner ctx
register-accepts rs ctx domain service =
    rw
      (
        is_ok-service_register ctx domain service (run rs),
        (Agrees-run rs (dotted domain service)).known,
      )
      refl
