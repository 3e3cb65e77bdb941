-- ===== src/ConfigParser/Root.antt =====
-- The sections of a configuration's root in `parseConfig` of src/config.cpp.
pub mod Whole
pub mod Sections
pub mod Accepted
use Prim.Native.String.{◌++◌ as str_append}
use redis_pvxs_ioc.Prelude.{
  ℕ, suc, ◌+◌, ◌-◌, ◌*◌, ◌/◌, String, Bool, true, false, not, ◌&&◌, ◌||◌, Option, none, some, List,
  [], ◌∷◌, ◌++◌, ◌==◌, ltb, if◌then◌else◌, str_eq, sub64,
}
use redis_pvxs_ioc.Prelude.Results.{Result, ok, err, ◌>>=◌, ◌>>◌}
use redis_pvxs_ioc.Config.{
  AppConfig, ServerConfig, RedisConfig, AlarmStreamConfig, RpcServiceConfig, PvConfig, AccessConfig,
  OperationLimitsConfig, ChannelFinderConfig, DiscoveryConfig,
}
use redis_pvxs_ioc.Config.Defaults.{default_redis_backend_alias, alarm_queue_entry_bytes}
use redis_pvxs_ioc.ConfigParser.{
  Yaml, Where, Parsed, key, index, below, element, refuse, parse_string, raw_bool, parse_unsigned,
  optional, optional_some, required, require_node, require_map, require_sequence,
  reject_unknown_keys, parse_each,
}
use redis_pvxs_ioc.ConfigParser.Tree.{validate_tree}
use redis_pvxs_ioc.ConfigParser.Access.{parse_access_config}
use redis_pvxs_ioc.ConfigParser.Redis.{
  parse_redis_config, parse_channel_finder, resolve_backend_alias, has_backend,
}
use redis_pvxs_ioc.ConfigParser.Pv.Definition.{has_value}
use redis_pvxs_ioc.ConfigParser.Pv.Rpc.{parse_rpc_service}
use redis_pvxs_ioc.ConfigParser.Limits.{parse_operation_limits, parse_discovery}
use redis_pvxs_ioc.Endpoints.{admin_pv_names, reserve_diagnostics}
use redis_pvxs_ioc.ConfigParser.Serve.{Setting, Served, from_registry, serve_pvs, cover_alarms}

abbrev pub root_path : Where
root_path = key "root" ∷ []

abbrev pub server_path : Where
server_path = key "root" ∷ key "server" ∷ []

unfoldable pub is_nil : {A : Type 0} → List A → Bool
is_nil [] = true
is_nil (x ∷ xs) = false

-- The bytes that are left for the states of PVs once the alarm queue has its own.
unfoldable pub alarm_bytes_left : OperationLimitsConfig → ℕ
alarm_bytes_left limits =
    sub64 limits.alarm_state_bytes (limits.alarm_queue_entries * alarm_queue_entry_bytes)

-- An RPC service's access, which needs access control, or its default
unfoldable pub service_access : AccessConfig → Where → RpcServiceConfig → Parsed RpcServiceConfig
unfolding refuse has_value
service_access access path service = do
  refuse (has_value service.access && not access.enabled) (below path "access")
      "requires root.access.enabled: true"
  ok (
      if not (has_value service.access) && access.enabled
      then record service { access = some access.defaults.rpc }
      else service)

module _ (y : Yaml) where
  unfoldable pub parse_names : y.Node → Where → Parsed (List String)
  parse_names node path = do
    sequence ← require_sequence y node path
    parse_each y (parse_string y) path 0 (y.items sequence)

  unfoldable pub parse_server : y.Node → Parsed ServerConfig
  unfolding parse_names refuse
  parse_server root = do
    found ← require_node y root "server" root_path
    node ← require_map y found server_path
    reject_unknown_keys y node server_path
        ("instance" ∷ "namespace" ∷ "interfaces" ∷ "tcp_port" ∷ "udp_port" ∷ "auto_beacon" ∷ [])
    instance_name ← required y (parse_string y) node server_path "instance"
    name_space ← optional y (parse_string y) node server_path "namespace" ""
    interfaces ← optional y parse_names node server_path "interfaces" []
    tcp_port ← optional_some y (parse_unsigned y 16) node server_path "tcp_port"
    udp_port ← optional_some y (parse_unsigned y 16) node server_path "udp_port"
    auto_beacon ← optional y (raw_bool y) node server_path "auto_beacon" true
    refuse (str_eq instance_name "") (below server_path "instance") "must not be empty"
    ok (record {
      instance_name = instance_name;
      name_space = name_space;
      interfaces = interfaces;
      tcp_port = tcp_port;
      udp_port = udp_port;
      auto_beacon = auto_beacon;
    })

  unfoldable pub parse_backend_entries :
      String
      → Where
      → List (y.Node × y.Node)
      → List (String × RedisConfig)
      → Parsed (List (String × RedisConfig))
  unfolding refuse has_backend parse_redis_config
  parse_backend_entries directory path [] backends = ok backends
  parse_backend_entries directory path ((name_node, node) ∷ rest) backends = do
    alias ← parse_string y name_node (below path "<alias>")
    refuse (str_eq alias "") path "backend alias must not be empty"
    config ← parse_redis_config y directory node (below path alias)
    refuse (has_backend alias backends) (below path alias)
        (str_append "duplicate redis backend alias '" (str_append alias "'"))
    parse_backend_entries directory path rest (backends ++ (alias, config) ∷ [])

  unfoldable pub parse_backend_map : String → y.Node → Where → Parsed (List (String × RedisConfig))
  unfolding refuse parse_backend_entries is_nil
  parse_backend_map directory node path = do
    map ← require_map y node path
    refuse (is_nil (y.entries map)) path "must not be empty"
    parse_backend_entries directory path (y.entries map) []

  -- `redis` or `redis_backends`, and one of them only
  unfoldable pub parse_backends : String → y.Node → Parsed (List (String × RedisConfig))
  unfolding refuse parse_redis_config parse_backend_map
  parse_backends directory root = do
    let legacy = y.is_defined (y.get root "redis")
    let several = y.is_defined (y.get root "redis_backends")
    refuse ((legacy && several) || (not legacy && not several)) root_path
        "specify exactly one of 'redis' or 'redis_backends'"
    if legacy
        then required y (parse_redis_config y directory) root root_path "redis"
          >>= (λ config. ok ((default_redis_backend_alias, config) ∷ []))
        else required y (parse_backend_map directory) root root_path "redis_backends"

  unfoldable pub parse_alarm_stream : y.Node → Where → Parsed AlarmStreamConfig
  parse_alarm_stream node path = do
    reject_unknown_keys y node path ("backend" ∷ "stream" ∷ [])
    backend ← optional y (parse_string y) node path "backend" ""
    stream ← optional y (parse_string y) node path "stream" "acorn:alarms"
    ok (record { backend = backend; stream = stream })

  unfoldable pub parse_alarms :
      y.Node → List (String × RedisConfig) → Bool → Parsed AlarmStreamConfig
  unfolding parse_alarm_stream refuse resolve_backend_alias
  parse_alarms root backends legacy = do
    alarms ←
        optional y parse_alarm_stream root root_path "alarms"
          (record { backend = ""; stream = "acorn:alarms" })
    let path = below root_path "alarms"
    refuse (str_eq alarms.stream "") (below path "stream") "must not be empty"
    backend ← resolve_backend_alias alarms.backend (below path "backend") backends legacy
    ok (record alarms { backend = backend })

  unfoldable pub pv_nodes : y.Node → Parsed (List y.Node)
  pv_nodes root =
      if y.is_defined (y.get root "pvs")
      then require_sequence y (y.get root "pvs") (below root_path "pvs")
        >>= (λ node. ok (y.items node))
      else ok []

  unfoldable pub parse_service : AccessConfig → y.Node → Where → Parsed RpcServiceConfig
  unfolding parse_rpc_service service_access
  parse_service access node path = do
    service ← parse_rpc_service y node path
    service_access access path service

  unfoldable pub parse_services : AccessConfig → y.Node → Where → Parsed (List RpcServiceConfig)
  unfolding parse_service
  parse_services access node path = do
    sequence ← require_sequence y node path
    parse_each y (parse_service access) path 0 (y.items sequence)
