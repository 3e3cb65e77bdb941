-- ===== src/ConfigParser/Pv/Definition.antt =====
-- `parsePV` of src/config.cpp, with the tests of types that it uses.
use redis_pvxs_ioc.Prelude.{
  ℕ, ◌*◌, String, Bool, true, false, not, ◌&&◌, ◌||◌, Option, none, some, List, [], ◌∷◌, ◌==◌, ltb,
  if◌then◌else◌, str_eq,
}
use Prim.Native.String.{◌++◌ as str_append}
use redis_pvxs_ioc.Prelude.Results.{ok, err, ◌>>=◌, ◌>>◌}
use redis_pvxs_ioc.Config.{
  PrimitiveType, Shape, scalar, array, PvKind, PvConfig, RouteConfig, ConfirmConfig, AlarmConfig,
  MetadataConfig, SourceHealthConfig,
}
use redis_pvxs_ioc.Config.Defaults.{default_source_health, default_max_frame_gap}
use redis_pvxs_ioc.ConfigParser.{
  Yaml, Where, Parsed, failed, below, refuse, parse_string, parse_bool, parse_unsigned, optional,
  optional_some, required, require_sequence, reject_unknown_keys, parse_each,
}
use redis_pvxs_ioc.ConfigParser.Text.{lower_copy}
use redis_pvxs_ioc.ConfigParser.Values.{parse_primitive_type, parse_shape, parse_initial_value}
use redis_pvxs_ioc.ConfigParser.Access.{parse_access_assignment}
use redis_pvxs_ioc.ConfigParser.Redis.{parse_route, parse_confirm, parse_present}
use redis_pvxs_ioc.ConfigParser.Pv.{parse_metadata, parse_alarm_config, parse_transform}

unfoldable pub is_numeric_type : PrimitiveType → Bool
is_numeric_type PrimitiveType.boolean = false
is_numeric_type PrimitiveType.string = false
is_numeric_type _ = true

unfoldable pub is_floating_point_type : PrimitiveType → Bool
is_floating_point_type PrimitiveType.float32 = true
is_floating_point_type PrimitiveType.float64 = true
is_floating_point_type _ = false

unfoldable pub is_array_element_type_supported : PrimitiveType → Bool
is_array_element_type_supported PrimitiveType.boolean = false
is_array_element_type_supported PrimitiveType.string = false
is_array_element_type_supported _ = true

unfoldable pub is_array : Shape → Bool
is_array scalar = false
is_array array = true

unfoldable pub has_value : {A : Type 0} → Option A → Bool
has_value none = false
has_value (some a) = true

unfoldable pub has_thresholds : {N : Type 0} → AlarmConfig N → Bool
unfolding has_value
has_thresholds alarms =
    has_value alarms.low_alarm
    || (has_value alarms.low_warning
        || (has_value alarms.high_warning || has_value alarms.high_alarm))

unfoldable pub has_numeric_limits : {N : Type 0} → MetadataConfig N → Bool
unfolding has_value
has_numeric_limits metadata =
    has_value metadata.display.low
    || (has_value metadata.display.high
        || (has_value metadata.control.low
            || (has_value metadata.control.high || has_value metadata.min_step)))

-- The tests at the end of `parsePV`.
unfoldable pub check_pv : {N : Type 0} → Where → PvConfig N → Parsed (PvConfig N)
unfolding refuse is_array is_array_element_type_supported has_value has_thresholds
    has_numeric_limits is_numeric_type is_floating_point_type
check_pv path pv = do
  refuse (is_array pv.shape && not (is_array_element_type_supported pv.type)) (below path "type")
      "this array element type is unsupported"
  refuse (has_value pv.transform && not (is_floating_point_type pv.type)) (below path "transform")
      "linear transforms are only supported for floating-point PVs"
  refuse (is_array pv.shape && has_thresholds pv.alarms) (below path "alarm")
      "array threshold alarms are unsupported"
  refuse (not (is_numeric_type pv.type) && has_numeric_limits pv.metadata) (below path "metadata")
      "display/control numeric limits require a numeric type"
  refuse (not (is_numeric_type pv.type) && has_thresholds pv.alarms) (below path "alarm")
      "threshold alarms require a numeric type"
  ok pv

-- The type, the shape and the frame limits, which depend on the kind.
pub record PvForm : Type 0 where
  pub type : PrimitiveType
  pub shape : Shape
  pub max_frame_bytes : ℕ
  pub max_frame_gap : ℕ

abbrev pub default_max_frame_bytes : ℕ
default_max_frame_bytes = 32 * 1024 * 1024

unfoldable pub kind_of : Where → String → Parsed PvKind
kind_of path kind =
    if str_eq kind "ntndarray"
    then ok PvKind.ntndarray
    else if not (str_eq kind "value") && (not (str_eq kind "scalar") && not (str_eq kind "array"))
    then err (failed path (str_append "unsupported PV kind '" (str_append kind "'")))
    else ok PvKind.value

module _ (y : Yaml) where
  unfoldable pub parse_aliases : y.Node → Where → Parsed (List String)
  unfolding refuse parse_present
  parse_aliases node path = do
    aliases ← require_sequence y node path
    refuse (is_none (y.items aliases)) path "must not be empty"
    parse_each y (parse_present y) path 0 (y.items aliases)
    where
      is_none : List y.Node → Bool
      is_none [] = true
      is_none (n ∷ ns) = false

  unfoldable pub parse_kind : y.Node → Where → Parsed PvKind
  unfolding kind_of lower_copy
  parse_kind node path = parse_string y node path >>= λ kind. kind_of path (lower_copy kind)

  unfoldable pub parse_form : PvKind → y.Node → Where → Parsed PvForm
  unfolding refuse
  parse_form PvKind.ntndarray node path = do
    reject_unknown_keys y node path (
        "name" ∷ "aliases" ∷ "kind" ∷ "read" ∷ "max_frame_bytes" ∷ "max_frame_gap" ∷ "access"
        ∷ "source_health" ∷ [])
    bytes ← optional y (parse_unsigned y 64) node path "max_frame_bytes" default_max_frame_bytes
    refuse (bytes == 0 || ltb (1024 * 1024 * 1024) bytes) (below path "max_frame_bytes")
        "must be 1..1073741824"
    gap ← optional y (parse_unsigned y 32) node path "max_frame_gap" default_max_frame_gap
    refuse (ltb 2147483646 gap) (below path "max_frame_gap") "must be 0..2147483646"
    ok (record {
      type = PrimitiveType.uint8;
      shape = array;
      max_frame_bytes = bytes;
      max_frame_gap = gap;
    })
  parse_form PvKind.value node path = do
    refuse (y.is_defined (y.get node "max_frame_bytes")) (below path "max_frame_bytes")
        "requires kind: ntndarray"
    refuse (y.is_defined (y.get node "max_frame_gap")) (below path "max_frame_gap")
        "requires kind: ntndarray"
    type ← required y (parse_primitive_type y) node path "type"
    shape ← required y (parse_shape y) node path "shape"
    ok (record {
      type = type;
      shape = shape;
      max_frame_bytes = default_max_frame_bytes;
      max_frame_gap = default_max_frame_gap;
    })

  unfoldable pub parse_source_health : y.Node → Where → Parsed SourceHealthConfig
  unfolding refuse
  parse_source_health node path = do
    reject_unknown_keys y node path ("required" ∷ "stale_after_ms" ∷ [])
    required_ ← optional y (parse_bool y) node path "required" default_source_health.required
    stale ←
        optional y (parse_unsigned y 32) node path "stale_after_ms"
          default_source_health.stale_after_ms
    refuse (ltb 86400000 stale) (below path "stale_after_ms") "must be 0..86400000"
    ok (record { required = required_; stale_after_ms = stale })

  -- `confirm`, which needs a write route
  unfoldable pub parse_confirm_of : Option RouteConfig → y.Node → Where → Parsed ConfirmConfig
  unfolding refuse has_value
  parse_confirm_of write node path = do
    refuse (not (has_value write)) path "requires a write route"
    parse_confirm y node path

  unfoldable pub parse_pv : y.Node → Where → Parsed (PvConfig y.Number)
  unfolding refuse parse_aliases parse_kind parse_form parse_confirm_of parse_source_health check_pv
  parse_pv node path = do
    reject_unknown_keys y node path (
        "name" ∷ "aliases" ∷ "kind" ∷ "max_frame_bytes" ∷ "max_frame_gap" ∷ "type" ∷ "shape"
        ∷ "read" ∷ "write" ∷ "confirm" ∷ "metadata" ∷ "alarm" ∷ "transform" ∷ "initial" ∷ "access"
        ∷ "source_health" ∷ [])
    name ← required y (parse_present y) node path "name"
    aliases ← optional y parse_aliases node path "aliases" []
    kind ← optional y parse_kind node path "kind" PvKind.value
    form ← parse_form kind node path
    read ← required y (parse_route y) node path "read"
    write ← optional_some y (parse_route y) node path "write"
    confirm ← optional_some y (parse_confirm_of write) node path "confirm"
    metadata ← parse_metadata y (y.get node "metadata") (below path "metadata")
    alarms ← parse_alarm_config y (y.get node "alarm") (below path "alarm")
    transform ← parse_transform y (y.get node "transform") (below path "transform")
    initial ←
        parse_initial_value y (y.get node "initial") form.type form.shape (below path "initial")
    access ← optional_some y (parse_access_assignment y) node path "access"
    health ← optional y parse_source_health node path "source_health" default_source_health
    check_pv path (record {
      name = name;
      aliases = aliases;
      kind = kind;
      type = form.type;
      shape = form.shape;
      read = read;
      write = write;
      confirm = confirm;
      metadata = metadata;
      alarms = alarms;
      transform = transform;
      initial_value = initial;
      access = access;
      max_frame_bytes = form.max_frame_bytes;
      max_frame_gap = form.max_frame_gap;
      source_health = health;
    })
