-- ===== src/Function/Services.antt =====
-- The services that scripts register: reference counts and the owning context of each, and the
-- calls to Home Assistant's service registry.
use pyscript.Base.{
  ℕ, ◌+◌, ◌-◌, String, ◌==◌, string_key, Bool, false, Option, none, some, List, [], ◌∷◌, ltb,
  if◌then◌else◌,
}
use pyscript.Base.Dict.{Dict, get, put, remove, has}
use pyscript.Base.Text.{dotted}
use pyscript.Base.Result.{Method, ok, err, value_error}

-- the calls of `hass.services.async_register` and `async_remove`, by domain and service
pub data HassCall : Type 0 where
  async_register async_remove : String → String → HassCall

-- `calls` holds the latest call first.
pub record Services : Type 0 where
  pub service_cnt : Dict String ℕ
  pub service2global_ctx : Dict String String
  pub calls : List HassCall

abbrev pub no_services : Services
no_services = record { service_cnt = []; service2global_ctx = []; calls = [] }

abbrev pub or_zero : Option ℕ → ℕ
or_zero none = 0
or_zero (some n) = n

-- `service_cnt.get(key, 0)`
abbrev pub count : Services → String → ℕ
count s key = or_zero (get s.service_cnt key)

-- the entries that `service_register` makes before it tests the owner
unfoldable pub enter : String → String → Services → Services
enter global_ctx_name key s = record s {
  service_cnt = if has s.service_cnt key then s.service_cnt else put s.service_cnt key 0;
  service2global_ctx =
      if has s.service2global_ctx key
      then s.service2global_ctx
      else put s.service2global_ctx key global_ctx_name;
}

abbrev pub owned_by : Option String → String → Bool
owned_by none global_ctx_name = false
owned_by (some owner) global_ctx_name = owner == global_ctx_name

unfoldable pub service_register : String → String → String → Method Services (Unit {0})
unfolding enter
service_register global_ctx_name domain service s =
    let key = dotted domain service in
    let t = enter global_ctx_name key s in
    if owned_by (get t.service2global_ctx key) global_ctx_name
    then (
      ok tt,
      record t {
        service_cnt = put t.service_cnt key (count t key + 1);
        calls = async_register domain service ∷ t.calls;
      },
    )
    else (err value_error, t)

-- The name of the context is not used.
unfoldable pub service_remove : String → String → String → Services → Services
service_remove global_ctx_name domain service s =
    let key = dotted domain service in
    if ltb 1 (count s key)
    then record s { service_cnt = put s.service_cnt key (count s key - 1) }
    else record s {
      service_cnt = put s.service_cnt key 0;
      service2global_ctx = remove s.service2global_ctx key;
      calls = async_remove domain service ∷ s.calls;
    }
