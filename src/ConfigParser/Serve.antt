-- ===== src/ConfigParser/Serve.antt =====
-- The loops of `parseConfig` of src/config.cpp over the PVs: access, backends, names, subscribed keys
-- and the bytes of the alarm states.
pub mod Keys
pub mod Backends
pub mod Accepted
use Prim.Native.String.{◌++◌ as str_append}
use redis_pvxs_ioc.Prelude.{
  ℕ, suc, ◌+◌, ◌-◌, ◌*◌, ◌/◌, String, Bool, true, false, not, ◌&&◌, ◌||◌, Option, none, some, List,
  [], ◌∷◌, ◌++◌, ltb, if◌then◌else◌, str_eq,
}
use redis_pvxs_ioc.Prelude.Results.{Result, ok, err, ◌>>=◌, ◌>>◌}
use redis_pvxs_ioc.Config.{
  ServerConfig, RedisConfig, RouteConfig, ConfirmConfig, PvConfig, AccessConfig,
}
use redis_pvxs_ioc.Endpoints.{EndpointError, EndpointRegistry, add_pv, full_pv_name}
use redis_pvxs_ioc.ConfigParser.{
  Yaml, Where, Parsed, ConfigError, endpoint_error, key, below, element, refuse,
}
use redis_pvxs_ioc.ConfigParser.Text.{size}
use redis_pvxs_ioc.ConfigParser.Redis.{resolve_backend_alias}
use redis_pvxs_ioc.ConfigParser.Pv.Definition.{parse_pv, has_value}

abbrev pub pvs_path : Where
pvs_path = key "root" ∷ key "pvs" ∷ []

-- What the loop over the PVs reads.
pub record Setting : Type 0 where
  pub server : ServerConfig
  pub access : AccessConfig
  pub backends : List (String × RedisConfig)
  pub legacy : Bool

-- What the loop changes.
pub record Served (N : Type 0) : Type 0 where
  pub endpoints : EndpointRegistry
  pub subscribed : List (String × String)
  pub pvs : List (PvConfig N)

unfoldable pub from_registry : {A : Type 0} → Result EndpointError A → Parsed A
from_registry (ok a) = ok a
from_registry (err e) = err (endpoint_error e)

unfoldable pub is_subscribed : String → String → List (String × String) → Bool
is_subscribed backend name [] = false
is_subscribed backend name ((b, n) ∷ rest) =
    (str_eq b backend && str_eq n name) || is_subscribed backend name rest

-- subscribedKeys.insert, which must not find the key
unfoldable pub subscribe :
    String → String → Where → List (String × String) → Parsed (List (String × String))
unfolding is_subscribed refuse
subscribe backend name path keys = do
  refuse (is_subscribed backend name keys) path (
      str_append "duplicate subscribed key '"
        (str_append backend (str_append ":" (str_append name "'"))))
  ok ((backend, name) ∷ keys)

unfoldable pub resolve_route : Setting → Where → RouteConfig → Parsed RouteConfig
unfolding resolve_backend_alias
resolve_route setting path route = do
  backend ←
      resolve_backend_alias route.backend (below path "backend") setting.backends setting.legacy
  ok (record route { backend = backend })

unfoldable pub resolve_write : Setting → Where → Option RouteConfig → Parsed (Option RouteConfig)
unfolding resolve_route
resolve_write setting path none = ok none
resolve_write setting path (some route) = resolve_route setting path route >>= λ r. ok (some r)

unfoldable pub resolve_confirm :
    Setting → Where → Option ConfirmConfig → Parsed (Option ConfirmConfig)
unfolding resolve_backend_alias
resolve_confirm setting path none = ok none
resolve_confirm setting path (some confirm) = do
  backend ←
      resolve_backend_alias confirm.backend (below path "backend") setting.backends setting.legacy
  ok (some (record confirm { backend = backend }))

-- A confirmation that is read from another key than the value is subscribed too.
unfoldable pub subscribe_confirm :
    RouteConfig
    → Option ConfirmConfig
    → Where
    → List (String × String)
    → Parsed (List (String × String))
unfolding subscribe
subscribe_confirm read none path keys = ok keys
subscribe_confirm read (some confirm) path keys =
    if not (str_eq confirm.backend read.backend) || not (str_eq confirm.key read.key)
    then subscribe confirm.backend confirm.key path keys
    else ok keys

-- pv.access, which needs access control, or its default
unfoldable pub resolve_access : {N : Type 0} → Setting → Where → PvConfig N → Parsed (PvConfig N)
unfolding refuse has_value
resolve_access setting path pv = do
  refuse (has_value pv.access && not setting.access.enabled) (below path "access")
      "requires root.access.enabled: true"
  ok (
      if not (has_value pv.access) && setting.access.enabled
      then record pv { access = some setting.access.defaults.pv }
      else pv)

unfoldable pub resolve_pv : {N : Type 0} → Setting → Where → PvConfig N → Parsed (PvConfig N)
unfolding resolve_access resolve_route resolve_write resolve_confirm
resolve_pv setting path pv = do
  pv1 ← resolve_access setting path pv
  read ← resolve_route setting (below path "read") pv1.read
  write ← resolve_write setting (below path "write") pv1.write
  confirm ← resolve_confirm setting (below path "confirm") pv1.confirm
  ok (record pv1 { read = read; write = write; confirm = confirm })

unfoldable pub serve_pv : {N : Type 0} → Setting → ℕ → PvConfig N → Served N → Parsed (Served N)
unfolding resolve_pv from_registry subscribe subscribe_confirm
serve_pv setting i pv served = do
  let path = element pvs_path i
  resolved ← resolve_pv setting path pv
  endpoints ← from_registry (add_pv setting.server i resolved served.endpoints)
  keys ←
      subscribe resolved.read.backend resolved.read.key (below (below path "read") "key")
        served.subscribed
  keys1 ← subscribe_confirm resolved.read resolved.confirm (below (below path "confirm") "key") keys
  ok (record { endpoints = endpoints; subscribed = keys1; pvs = served.pvs ++ resolved ∷ [] })

unfoldable pub serve_pvs :
    (y : Yaml) → Setting → ℕ → List y.Node → Served y.Number → Parsed (Served y.Number)
unfolding serve_pv
serve_pvs y setting i [] served = ok served
serve_pvs y setting i (node ∷ nodes) served = do
  pv ← parse_pv y node (element pvs_path i)
  served1 ← serve_pv setting i pv served
  serve_pvs y setting (i + 1) nodes served1

-- The bytes that the alarm state of a PV reserves.
unfoldable pub alarm_bytes_of : {N : Type 0} → ServerConfig → PvConfig N → ℕ
unfolding size
alarm_bytes_of server pv = 1024 + 2 * size (full_pv_name server pv)

-- The loop over `alarmBytes`, the bytes that are left.
unfoldable pub cover_alarms :
    {N : Type 0} → ServerConfig → ℕ → List (PvConfig N) → Parsed (Unit {0})
unfolding refuse alarm_bytes_of
cover_alarms server left [] = ok tt
cover_alarms server left (pv ∷ pvs) = do
  refuse (ltb left 1024 || ltb ((left - 1024) / 2) (size (full_pv_name server pv)))
      (key "root" ∷ key "limits" ∷ key "alarm_state_bytes" ∷ [])
      "must cover the reserved alarm queue and current PV states"
  cover_alarms server (left - alarm_bytes_of server pv) pvs
