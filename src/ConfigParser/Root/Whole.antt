-- ===== src/ConfigParser/Root/Whole.antt =====
-- `parseConfig` of src/config.cpp: the whole of a configuration.
use redis_pvxs_ioc.Prelude.{ℕ, String, not, ◌&&◌, ◌||◌, [], ◌∷◌, ◌==◌}
use redis_pvxs_ioc.Prelude.Results.{ok, ◌>>=◌, ◌>>◌}
use redis_pvxs_ioc.Config.{
  AppConfig, AlarmStreamConfig, OperationLimitsConfig, ChannelFinderConfig, DiscoveryConfig,
}
use redis_pvxs_ioc.ConfigParser.{
  Yaml, Parsed, below, refuse, parse_unsigned, optional, require_map, reject_unknown_keys,
}
use redis_pvxs_ioc.ConfigParser.Tree.{validate_tree}
use redis_pvxs_ioc.ConfigParser.Access.{parse_access_config}
use redis_pvxs_ioc.ConfigParser.Redis.{parse_channel_finder}
use redis_pvxs_ioc.ConfigParser.Limits.{parse_operation_limits, parse_discovery}
use redis_pvxs_ioc.Endpoints.{admin_pv_names, reserve_diagnostics}
use redis_pvxs_ioc.ConfigParser.Serve.{Setting, from_registry, serve_pvs, cover_alarms}
use redis_pvxs_ioc.ConfigParser.Root.{
  root_path, is_nil, alarm_bytes_left, parse_server, parse_backends, parse_alarms, pv_nodes,
  parse_services,
}

module _ (y : Yaml) where
  unfoldable pub check_root : y.Node → Parsed ℕ
  unfolding refuse validate_tree
  check_root root = do
    checked ← require_map y root root_path
    refuse
        (y.is_defined (y.get root "PVList")
          || (y.is_defined (y.get root "PVBase") || y.is_defined (y.get root "RedisBase")))
        root_path "old flat prototype schema is not supported"
    validate_tree y 64 [] root root_path 0

  -- The loops over the PVs and the services, and the tests behind them.
  unfoldable pub finish_config :
      y.Node
      → Setting
      → ℕ
      → AlarmStreamConfig
      → ChannelFinderConfig
      → DiscoveryConfig
      → OperationLimitsConfig
      → Parsed (AppConfig y.Number)
  unfolding pv_nodes from_registry serve_pvs parse_services refuse is_nil cover_alarms
      alarm_bytes_left
  finish_config root setting version alarms finder discovery limits = do
    nodes ← pv_nodes y root
    diagnostics ← from_registry (reserve_diagnostics (admin_pv_names setting.server) [])
    served ←
        serve_pvs y setting 0 nodes (record { endpoints = diagnostics; subscribed = []; pvs = [] })
    services ← optional y (parse_services y setting.access) root root_path "rpc_services" []
    refuse (is_nil served.pvs && is_nil services) root_path
        "must define at least one of 'pvs' or 'rpc_services'"
    cover_alarms setting.server (alarm_bytes_left limits) served.pvs
    ok (record {
      schema_version = version;
      legacy_input = not (y.is_defined (y.get root "schema_version"));
      server = setting.server;
      access = setting.access;
      redis_backends = setting.backends;
      alarms = alarms;
      channel_finder = finder;
      discovery = discovery;
      limits = limits;
      pvs = served.pvs;
      rpc_services = services;
    })

  unfoldable pub parse_config : y.Node → String → Parsed (AppConfig y.Number)
  unfolding check_root refuse parse_discovery parse_operation_limits parse_access_config
      parse_server parse_channel_finder parse_backends parse_alarms finish_config
  parse_config root directory = do
    visited ← check_root root
    reject_unknown_keys y root root_path (
        "schema_version" ∷ "server" ∷ "access" ∷ "redis" ∷ "redis_backends" ∷ "alarms"
        ∷ "channelfinder" ∷ "discovery" ∷ "limits" ∷ "pvs" ∷ "rpc_services" ∷ [])
    version ← optional y (parse_unsigned y 32) root root_path "schema_version" 1
    refuse (not (version == 1)) (below root_path "schema_version")
        "only schema version 1 is supported"
    discovery ← parse_discovery y (y.get root "discovery")
    limits ← parse_operation_limits y (y.get root "limits")
    access ← parse_access_config y (y.get root "access") directory (below root_path "access")
    server ← parse_server y root
    finder ← parse_channel_finder y (y.get root "channelfinder") (below root_path "channelfinder")
    backends ← parse_backends y directory root
    let legacy = y.is_defined (y.get root "redis")
    alarms ← parse_alarms y root backends legacy
    finish_config root
        (record { server = server; access = access; backends = backends; legacy = legacy }) version
        alarms finder discovery limits
