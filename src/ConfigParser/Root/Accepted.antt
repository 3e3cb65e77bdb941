-- ===== src/ConfigParser/Root/Accepted.antt =====
-- What a configuration that `parseConfig` of src/config.cpp accepts is like.
use redis_pvxs_ioc.Prelude.{
  ℕ, ◌+◌, ◌*◌, ◌≤◌, ◌≡◌, String, refl, sym, ◌∙◌, true, false, not, ◌&&◌, [], ◌++◌, ◌==◌, All, arith,
  sub64_exact,
}
use mathlib.Core.Path.{subst}
use mathlib.Core.List.{append-nil}
use redis_pvxs_ioc.Prelude.Results.{
  ok, Meets, Meets-bind, Meets-ok, Meets-any, Meets-fail_if, Meets-at, Meets-mono, Anything,
}
use redis_pvxs_ioc.Config.{
  AppConfig, AlarmStreamConfig, OperationLimitsConfig, ChannelFinderConfig, DiscoveryConfig,
}
use redis_pvxs_ioc.Config.Defaults.{alarm_queue_entry_bytes}
use redis_pvxs_ioc.Endpoints.{admin_pv_names, reserve_diagnostics}
use redis_pvxs_ioc.Endpoints.Unique.{
  asked, IsNamespace, reserve_diagnostics-Extends, empty-IsNamespace, names_of,
}
use redis_pvxs_ioc.ConfigParser.{Yaml, below, refuse, optional, parse_unsigned, reject_unknown_keys}
use redis_pvxs_ioc.ConfigParser.Access.{parse_access_config}
use redis_pvxs_ioc.ConfigParser.Redis.{parse_channel_finder, has_backend}
use redis_pvxs_ioc.ConfigParser.Limits.{parse_operation_limits, parse_discovery}
use redis_pvxs_ioc.ConfigParser.Limits.Valid.{IsValid, parse_operation_limits-Meets}
use redis_pvxs_ioc.ConfigParser.Serve.{Setting, from_registry, serve_pvs, cover_alarms}
use redis_pvxs_ioc.ConfigParser.Serve.Keys.{asked_keys, IsOnce, count_key}
use redis_pvxs_ioc.ConfigParser.Serve.Backends.{IsResolved}
use redis_pvxs_ioc.ConfigParser.Serve.Accepted.{
  IsServed, serve_pvs-IsServed, total_alarm_bytes, cover_alarms-Meets, from_registry-Meets,
}
use redis_pvxs_ioc.ConfigParser.Root.{
  root_path, is_nil, alarm_bytes_left, parse_server, parse_backends, parse_alarms, pv_nodes,
  parse_services,
}
use redis_pvxs_ioc.ConfigParser.Root.Whole.{check_root, finish_config, parse_config}
use redis_pvxs_ioc.ConfigParser.Root.Sections.{
  HasAccess, optional-Meets, parse_services-Meets, parse_alarms-Meets,
}

pub record IsAccepted {N : Type 0} (config : AppConfig N) : Type 0 where
  pub version : config.schema_version ≡ 1
  pub limits : IsValid config.limits
  pub namespace : IsNamespace (admin_pv_names config.server ++ asked config.server config.pvs)
  pub keys : IsOnce (asked_keys config.pvs)
  pub resolved : All (IsResolved config.redis_backends config.access.enabled) config.pvs
  pub alarms : has_backend config.alarms.backend config.redis_backends ≡ true
  pub services : All (HasAccess config.access) config.rpc_services
  pub some_endpoint : (is_nil config.pvs && is_nil config.rpc_services) ≡ false
  pub memory :
      config.limits.alarm_queue_entries * alarm_queue_entry_bytes
        + total_alarm_bytes config.server config.pvs
      ≤ config.limits.alarm_state_bytes

module _ (y : Yaml) where
  diagnostics-IsServed :
      (setting : Setting)
      → Meets
          (λ d.
            IsServed {N = y.Number} setting (record { endpoints = d; subscribed = []; pvs = [] }))
          Anything
          (from_registry (reserve_diagnostics (admin_pv_names setting.server) []))
  unfolding names_of asked asked_keys count_key
  diagnostics-IsServed setting =
      Meets-mono _ _ _ _
        (from_registry-Meets _ _ (reserve_diagnostics-Extends (admin_pv_names setting.server) []))
        λ d h. record {
          names = h.names ∙ sym (append-nil (admin_pv_names setting.server));
          namespace = h.keeps empty-IsNamespace;
          counts = λ b n. refl;
          once = λ b n. omega arith;
          resolved = tt;
        }

  alarm_bytes-covered :
      (limits : OperationLimitsConfig) (total : ℕ)
      → IsValid limits
      → total ≤ alarm_bytes_left limits
      → limits.alarm_queue_entries * alarm_queue_entry_bytes + total ≤ limits.alarm_state_bytes
  unfolding alarm_bytes_left
  alarm_bytes-covered limits total v h = omega (
    arith,
    h,
    v.covers,
    v.state.1,
    sub64_exact limits.alarm_state_bytes (limits.alarm_queue_entries * 1024) v.covers
        (omega (arith, v.state.1)),
  )

  finish_config-IsAccepted :
      (root : y.Node) (setting : Setting) (version : ℕ) (alarms : AlarmStreamConfig)
      (finder : ChannelFinderConfig) (discovery : DiscoveryConfig) (limits : OperationLimitsConfig)
      → version ≡ 1
      → has_backend alarms.backend setting.backends ≡ true
      → IsValid limits
      → Meets IsAccepted Anything
          (finish_config y root setting version alarms finder discovery limits)
  unfolding finish_config refuse
  finish_config-IsAccepted root setting version alarms finder discovery limits first backend v =
      Meets-bind _ _ _ (pv_nodes y root) _ (Meets-any _) λ nodes _.
        Meets-bind _ _ _ (from_registry (reserve_diagnostics (admin_pv_names setting.server) [])) _
          (diagnostics-IsServed setting)
          λ diagnostics begun.
            Meets-bind _ _ _ (serve_pvs y setting 0 nodes _) _
              (serve_pvs-IsServed y setting 0 nodes _ begun)
              λ served done.
                Meets-bind _ _ _
                  (optional y (parse_services y setting.access) root root_path "rpc_services" []) _
                  (optional-Meets y (All (HasAccess setting.access))
                    (parse_services y setting.access) root root_path "rpc_services" []
                    (parse_services-Meets y setting.access) tt)
                  λ services controlled.
                    Meets-fail_if _ (is_nil served.pvs && is_nil services) _ _ λ some_.
                      Meets-bind _ _ _
                        (cover_alarms setting.server (alarm_bytes_left limits) served.pvs) _
                        (cover_alarms-Meets setting.server (alarm_bytes_left limits) served.pvs)
                        λ _ fits. Meets-ok _ _ _ (record {
                          version = first;
                          limits = v;
                          namespace = subst IsNamespace done.names done.namespace;
                          keys = λ b n. omega (arith, done.counts b n, done.once b n);
                          resolved = done.resolved;
                          alarms = backend;
                          services = controlled;
                          some_endpoint = some_;
                          memory = alarm_bytes-covered limits _ v fits;
                        })

  parse_config-Meets :
      (root : y.Node) (directory : String)
      → Meets IsAccepted Anything (parse_config y root directory)
  unfolding parse_config refuse
  parse_config-Meets root directory =
      Meets-bind _ _ _ (check_root y root) _ (Meets-any _) λ visited _.
        Meets-bind _ _ _ (reject_unknown_keys y root root_path _) _ (Meets-any _) λ _ _.
          Meets-bind _ _ _ (optional y (parse_unsigned y 32) root root_path "schema_version" 1) _
            (Meets-any _)
            λ version _. Meets-fail_if _ (not (version == 1)) _ _ λ first.
              Meets-bind _ _ _ (parse_discovery y (y.get root "discovery")) _ (Meets-any _)
                λ discovery _.
                  Meets-bind _ _ _ (parse_operation_limits y (y.get root "limits")) _
                    (parse_operation_limits-Meets y (y.get root "limits"))
                    λ limits v.
                      Meets-bind _ _ _
                        (parse_access_config y (y.get root "access") directory
                          (below root_path "access"))
                        _ (Meets-any _)
                        λ access _.
                          Meets-bind _ _ _ (parse_server y root) _ (Meets-any _) λ server _.
                            Meets-bind _ _ _
                              (parse_channel_finder y (y.get root "channelfinder")
                                (below root_path "channelfinder"))
                              _ (Meets-any _)
                              λ finder _.
                                Meets-bind _ _ _ (parse_backends y directory root) _ (Meets-any _)
                                  λ backends _.
                                    Meets-bind _ _ _
                                      (parse_alarms y root backends
                                        (y.is_defined (y.get root "redis")))
                                      _
                                      (parse_alarms-Meets y root backends
                                        (y.is_defined (y.get root "redis")))
                                      λ alarms backend.
                                        finish_config-IsAccepted root
                                          (record {
                                            server = server;
                                            access = access;
                                            backends = backends;
                                            legacy = y.is_defined (y.get root "redis");
                                          })
                                          version alarms finder discovery limits
                                          (ground (arith, first)) backend v.0

  -- A configuration that is accepted has schema version 1, limits within their bounds, and names and
  -- subscribed keys none of which stands twice, the diagnostic names among the names. Its routes and
  -- its alarm stream name configured backends. A PV or a service has an access assignment where access is
  -- controlled and only there. There is a PV or a service. The alarm queue and the alarm states of all
  -- PVs fit together into the bytes of the alarm states.
  pub parse_config-IsAccepted :
      (root : y.Node) (directory : String) (config : AppConfig y.Number)
      → parse_config y root directory ≡ ok config
      → IsAccepted config
  parse_config-IsAccepted root directory config e =
      Meets-at _ _ _ _ (parse_config-Meets root directory) e
