-- ===== src/ConfigParser/Limits.antt =====
-- `parseOperationLimits` and `parseDiscovery` of src/config.cpp, and what the limits they accept meet.
pub mod Valid
use redis_pvxs_ioc.Prelude.{
  ℕ, suc, ◌+◌, ◌*◌, ◌/◌, ◌≤◌, ◌≡◌, String, Bool, true, false, not, ◌&&◌, ◌||◌, Option, none, some,
  List, [], ◌∷◌, ltb, if◌then◌else◌, str_eq, arith,
}
use redis_pvxs_ioc.Prelude.Results.{Result, ok, err, ◌>>=◌, ◌>>◌}
use redis_pvxs_ioc.Config.{DiscoveryConfig, OperationLimitsConfig}
use redis_pvxs_ioc.Config.Defaults.{default_discovery, default_limits, alarm_queue_entry_bytes}
use redis_pvxs_ioc.ConfigParser.{
  Yaml, Where, Parsed, key, below, refuse, escaping, parse_string, parse_bool, parse_unsigned,
  optional, require_map, reject_unknown_keys,
}
use redis_pvxs_ioc.ConfigParser.Text.{is_in}

abbrev pub gibibyte : ℕ
gibibyte = 1024 * 1024 * 1024

abbrev pub limits_path : Where
limits_path = key "root" ∷ key "limits" ∷ []

abbrev pub discovery_path : Where
discovery_path = key "root" ∷ key "discovery" ∷ []

module _ (y : Yaml) where
  -- The lambda `bounded`
  unfoldable pub bounded : y.Node → Where → String → ℕ → ℕ → ℕ → Parsed ℕ
  unfolding refuse
  bounded node path name initial low high = do
    value ← optional y (parse_unsigned y 64) node path name initial
    refuse (ltb value low || ltb high value) (below path name) "outside supported range"
    ok value

  unfoldable pub operation_timeout : y.Node → Parsed (Option ℕ)
  unfolding bounded
  operation_timeout node =
      if y.is_defined (y.get node "operation_timeout_ms")
      then bounded node limits_path "operation_timeout_ms" 0 1 300000 >>= (λ t. ok (some t))
      else ok none

  unfoldable pub parse_operation_limits : y.Node → Parsed OperationLimitsConfig
  unfolding refuse bounded operation_timeout
  parse_operation_limits node = if not (y.is_defined node) then ok default_limits else (do
    reject_unknown_keys y node limits_path (
        "write_workers" ∷ "queued_writes_per_pv" ∷ "queued_write_bytes" ∷ "rpc_workers"
        ∷ "queued_rpc_per_method" ∷ "queued_rpc_bytes" ∷ "max_payload_bytes"
        ∷ "operation_timeout_ms" ∷ "alarm_queue_entries" ∷ "alarm_state_bytes" ∷ [])
    write_workers ← bounded node limits_path "write_workers" default_limits.write_workers 1 64
    writes ←
        bounded node limits_path "queued_writes_per_pv" default_limits.queued_writes_per_pv 1 4096
    write_bytes ←
        bounded node limits_path "queued_write_bytes" default_limits.queued_write_bytes 1024
          gibibyte
    rpc_workers ← bounded node limits_path "rpc_workers" default_limits.rpc_workers 1 64
    rpcs ←
        bounded node limits_path "queued_rpc_per_method" default_limits.queued_rpc_per_method 1 4096
    rpc_bytes ←
        bounded node limits_path "queued_rpc_bytes" default_limits.queued_rpc_bytes 1024 gibibyte
    payload ←
        bounded node limits_path "max_payload_bytes" default_limits.max_payload_bytes 1 gibibyte
    entries ←
        bounded node limits_path "alarm_queue_entries" default_limits.alarm_queue_entries 1 1000000
    state ←
        bounded node limits_path "alarm_state_bytes" default_limits.alarm_state_bytes 1024 gibibyte
    refuse (ltb (state / alarm_queue_entry_bytes) entries) (below limits_path "alarm_state_bytes")
        "must cover the reserved alarm queue"
    timeout ← operation_timeout node
    ok (record {
      write_workers = write_workers;
      queued_writes_per_pv = writes;
      queued_write_bytes = write_bytes;
      rpc_workers = rpc_workers;
      queued_rpc_per_method = rpcs;
      queued_rpc_bytes = rpc_bytes;
      max_payload_bytes = payload;
      operation_timeout_ms = timeout;
      alarm_queue_entries = entries;
      alarm_state_bytes = state;
    }))

  -- The keys of the section, each once.
  unfoldable pub once_each : List (y.Node × y.Node) → List String → Parsed (Unit {0})
  unfolding escaping is_in refuse
  once_each [] seen = ok tt
  once_each (entry ∷ rest) seen = do
    name ← escaping (y.as_string entry.0)
    refuse (is_in name seen) (below discovery_path name) "duplicate key"
    once_each rest (name ∷ seen)

  unfoldable pub parse_discovery : y.Node → Parsed DiscoveryConfig
  unfolding refuse bounded once_each
  parse_discovery node = if not (y.is_defined node) then ok default_discovery else (do
    reject_unknown_keys y node discovery_path (
        "enabled" ∷ "bind_address" ∷ "udp_port" ∷ "timeout_ms" ∷ "max_holdoff_ms" ∷ "max_records"
        ∷ "max_bytes" ∷ [])
    once_each (y.entries node) []
    enabled ← optional y (parse_bool y) node discovery_path "enabled" default_discovery.enabled
    address ←
        optional y (parse_string y) node discovery_path "bind_address"
          default_discovery.bind_address
    refuse (not (y.is_ipv4 address)) (below discovery_path "bind_address")
        "expected an IPv4 address"
    udp_port ← bounded node discovery_path "udp_port" default_discovery.udp_port 0 65535
    timeout ← bounded node discovery_path "timeout_ms" default_discovery.timeout_ms 1 300000
    holdoff ← bounded node discovery_path "max_holdoff_ms" default_discovery.max_holdoff_ms 0 60000
    records ← bounded node discovery_path "max_records" default_discovery.max_records 1 1000000
    bytes ← bounded node discovery_path "max_bytes" default_discovery.max_bytes 1024 gibibyte
    ok (record {
      enabled = enabled;
      bind_address = address;
      udp_port = udp_port;
      timeout_ms = timeout;
      max_holdoff_ms = holdoff;
      max_records = records;
      max_bytes = bytes;
    }))
