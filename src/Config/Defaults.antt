-- ===== src/Config/Defaults.antt =====
-- The member initialisers and constants of include/redis_pvxs_ioc/config.h.
use redis_pvxs_ioc.Prelude.{ℕ, ◌*◌, String, true, false, none, []}
use redis_pvxs_ioc.Prelude.Int.{pos}
use redis_pvxs_ioc.Config.{
  RedisConfig, AccessAssignment, AccessWatchConfig, AccessConfig, DiscoveryConfig,
  OperationLimitsConfig, ChannelFinderConfig, SourceHealthConfig, LimitConfig, MetadataConfig,
  AlarmConfig,
}

abbrev pub default_redis_backend_alias : String
default_redis_backend_alias = "default"

abbrev pub alarm_queue_entry_bytes : ℕ
alarm_queue_entry_bytes = 1024

abbrev pub default_assignment : AccessAssignment
default_assignment = record { asg = "DEFAULT"; asl = pos 0 }

abbrev pub default_watch : AccessWatchConfig
default_watch = record { enabled = false; interval_ms = 1000; settle_ms = 250 }

abbrev pub default_access : AccessConfig
default_access = record {
  enabled = false;
  file = "";
  macros = [];
  watch = default_watch;
  defaults = record {
    pv = default_assignment;
    rpc = default_assignment;
    admin_read = default_assignment;
    admin_write = default_assignment;
  };
}

abbrev pub default_redis : RedisConfig
default_redis = record {
  base_key = "";
  host = "127.0.0.1";
  port = 6379;
  user = "";
  password = "";
  workers = 1;
  readers = 1;
  reader_probe_ms = 1000;
}

abbrev pub default_channel_finder : ChannelFinderConfig
default_channel_finder = record { url = ""; owner = "redis-pvxs-ioc"; tags = []; properties = [] }

abbrev pub default_discovery : DiscoveryConfig
default_discovery = record {
  enabled = true;
  bind_address = "0.0.0.0";
  udp_port = 5049;
  timeout_ms = 20000;
  max_holdoff_ms = 10000;
  max_records = 100000;
  max_bytes = 16 * 1024 * 1024;
}

abbrev pub default_limits : OperationLimitsConfig
default_limits = record {
  write_workers = 4;
  queued_writes_per_pv = 16;
  queued_write_bytes = 64 * 1024 * 1024;
  rpc_workers = 4;
  queued_rpc_per_method = 16;
  queued_rpc_bytes = 64 * 1024 * 1024;
  max_payload_bytes = 32 * 1024 * 1024;
  operation_timeout_ms = none;
  alarm_queue_entries = 1024;
  alarm_state_bytes = 64 * 1024 * 1024;
}

abbrev pub default_source_health : SourceHealthConfig
default_source_health = record { required = true; stale_after_ms = 0 }

abbrev pub no_limits : {N : Type 0} → LimitConfig N
no_limits = record { low = none; high = none }

abbrev pub default_metadata : {N : Type 0} → MetadataConfig N
default_metadata = record {
  description = "";
  units = "";
  precision = none;
  form = none;
  display = no_limits;
  control = no_limits;
  min_step = none;
}

abbrev pub default_alarms : {N : Type 0} → N → AlarmConfig N
default_alarms zero = record {
  low_alarm = none;
  low_warning = none;
  high_warning = none;
  high_alarm = none;
  hysteresis = zero;
}

-- kDefaultNDArrayMaxFrameGap
abbrev pub default_max_frame_gap : ℕ
default_max_frame_gap = 10000
