-- ===== src/Config.antt =====
-- The structs of include/redis_pvxs_ioc/config.h. `N` stands for `double` (and for `float`), a map is
-- the list of its entries, and what has a default in the source has it in `Config.Defaults`.
pub mod Defaults
use redis_pvxs_ioc.Prelude.{ℕ, String, Bool, Option, List}
use redis_pvxs_ioc.Prelude.Int.{ℤ}

pub data PrimitiveType : Type 0 where
  boolean int8 uint8 int16 uint16 int32 uint32 int64 uint64 float32 float64 string : PrimitiveType

pub data Shape : Type 0 where
  scalar array : Shape

pub data PvKind : Type 0 where
  value ntndarray : PvKind

pub data DisplayForm : Type 0 where
  default string_ binary decimal hex exponential engineering : DisplayForm

pub record RouteConfig : Type 0 where
  pub backend : String
  pub key : String

pub record ConfirmConfig : Type 0 where
  pub backend : String
  pub key : String
  pub timeout_ms : ℤ

pub record LimitConfig (N : Type 0) : Type 0 where
  pub low : Option N
  pub high : Option N

pub record AlarmConfig (Number : Type 0) : Type 0 where
  pub low_alarm : Option Number
  pub low_warning : Option Number
  pub high_warning : Option Number
  pub high_alarm : Option Number
  pub hysteresis : Number

pub record MetadataConfig (N : Type 0) : Type 0 where
  pub description : String
  pub units : String
  pub precision : Option ℤ
  pub form : Option DisplayForm
  pub display : LimitConfig N
  pub control : LimitConfig N
  pub min_step : Option N

pub record LinearTransformConfig (N : Type 0) : Type 0 where
  pub scale : N
  pub offset : N

pub record SourceHealthConfig : Type 0 where
  pub required : Bool
  pub stale_after_ms : ℕ

pub record AccessAssignment : Type 0 where
  pub asg : String
  pub asl : ℤ

pub record AccessDefaultsConfig : Type 0 where
  pub pv : AccessAssignment
  pub rpc : AccessAssignment
  pub admin_read : AccessAssignment
  pub admin_write : AccessAssignment

pub record AccessWatchConfig : Type 0 where
  pub enabled : Bool
  pub interval_ms : ℕ
  pub settle_ms : ℕ

pub record AccessConfig : Type 0 where
  pub enabled : Bool
  pub file : String
  pub macros : List (String × String)
  pub watch : AccessWatchConfig
  pub defaults : AccessDefaultsConfig

pub record RpcServiceConfig : Type 0 where
  pub endpoint : String
  pub service : String
  pub suffix : String
  pub defaults : List (String × String)
  pub method_defaults : List (String × List (String × String))
  pub optional : Bool
  pub discovery_timeout_ms : ℕ
  pub timeout_ms : ℕ
  pub retry_interval_ms : ℕ
  pub access : Option AccessAssignment

-- The alternatives of the variant, its integer and floating ones by their type.
pub data TypedValue (N : Type 0) : Type 0 where
  monostate : TypedValue N
  truth : Bool → TypedValue N
  integer : PrimitiveType → ℤ → TypedValue N
  floating : PrimitiveType → N → TypedValue N
  text : String → TypedValue N
  integers : PrimitiveType → List ℤ → TypedValue N
  floatings : PrimitiveType → List N → TypedValue N

pub record PvConfig (N : Type 0) : Type 0 where
  pub name : String
  pub aliases : List String
  pub kind : PvKind
  pub type : PrimitiveType
  pub shape : Shape
  pub read : RouteConfig
  pub write : Option RouteConfig
  pub confirm : Option ConfirmConfig
  pub metadata : MetadataConfig N
  pub alarms : AlarmConfig N
  pub transform : Option (LinearTransformConfig N)
  pub initial_value : TypedValue N
  pub access : Option AccessAssignment
  pub max_frame_bytes : ℕ
  pub max_frame_gap : ℕ
  pub source_health : SourceHealthConfig

pub record ServerConfig : Type 0 where
  pub instance_name : String
  pub name_space : String
  pub interfaces : List String
  pub tcp_port : Option ℕ
  pub udp_port : Option ℕ
  pub auto_beacon : Bool

pub record RedisConfig : Type 0 where
  pub base_key : String
  pub host : String
  pub port : ℕ
  pub user : String
  pub password : String
  pub workers : ℕ
  pub readers : ℕ
  pub reader_probe_ms : ℕ

pub record AlarmStreamConfig : Type 0 where
  pub backend : String
  pub stream : String

pub record ChannelFinderConfig : Type 0 where
  pub url : String
  pub owner : String
  pub tags : List String
  pub properties : List (String × String)

pub record DiscoveryConfig : Type 0 where
  pub enabled : Bool
  pub bind_address : String
  pub udp_port : ℕ
  pub timeout_ms : ℕ
  pub max_holdoff_ms : ℕ
  pub max_records : ℕ
  pub max_bytes : ℕ

pub record OperationLimitsConfig : Type 0 where
  pub write_workers : ℕ
  pub queued_writes_per_pv : ℕ
  pub queued_write_bytes : ℕ
  pub rpc_workers : ℕ
  pub queued_rpc_per_method : ℕ
  pub queued_rpc_bytes : ℕ
  pub max_payload_bytes : ℕ
  pub operation_timeout_ms : Option ℕ
  pub alarm_queue_entries : ℕ
  pub alarm_state_bytes : ℕ

pub record AppConfig (N : Type 0) : Type 0 where
  pub schema_version : ℕ
  pub legacy_input : Bool
  pub server : ServerConfig
  pub access : AccessConfig
  pub redis_backends : List (String × RedisConfig)
  pub alarms : AlarmStreamConfig
  pub channel_finder : ChannelFinderConfig
  pub discovery : DiscoveryConfig
  pub limits : OperationLimitsConfig
  pub pvs : List (PvConfig N)
  pub rpc_services : List RpcServiceConfig
