-- ===== src/ConfigParser/Tests.antt =====
-- A small document, and runs of the reader of src/config.cpp on it.
use redis_pvxs_ioc.Prelude.{
  ℕ, ◌^◌, ◌≡◌, refl, String, Bool, true, false, not, none, some, List, [], ◌∷◌, ltb, if◌then◌else◌,
  str_eq, arith, sub64,
}
use redis_pvxs_ioc.Prelude.Results.{Result, ok, err}
use redis_pvxs_ioc.Config.{
  AppConfig, AlarmConfig, PvConfig, PvKind, PrimitiveType, Shape, TypedValue,
}
use redis_pvxs_ioc.Config.Defaults.{
  default_limits, default_metadata, default_alarms, default_source_health, default_access,
  default_redis, default_channel_finder, default_discovery,
}
use redis_pvxs_ioc.ConfigParser.{
  Yaml, failed, key, index, reject_unknown_keys, optional, optional_some, parse_unsigned,
  parse_number, parse_string, require_map, require_node, required, require_sequence,
}
use redis_pvxs_ioc.Endpoints.{reserve_diagnostics, admin_pv_names, add_pv}
use redis_pvxs_ioc.ConfigParser.Values.{parse_primitive_type, parse_shape, parse_initial_value}
use redis_pvxs_ioc.ConfigParser.Redis.{parse_route}
use redis_pvxs_ioc.ConfigParser.Pv.Definition.{parse_pv}
use redis_pvxs_ioc.ConfigParser.Limits.{parse_operation_limits}
use redis_pvxs_ioc.ConfigParser.Limits.Valid.{IsValid, IsOf, parse_operation_limits-IsValid}
use redis_pvxs_ioc.ConfigParser.Pv.{parse_alarm_config, parse_metadata, parse_transform}
use redis_pvxs_ioc.ConfigParser.Pv.Ordered.{IsSound, parse_alarm_config-IsSound}
use redis_pvxs_ioc.ConfigParser.Root.Whole.{parse_config}
use redis_pvxs_ioc.ConfigParser.Root.Accepted.{IsAccepted, parse_config-IsAccepted}

-- A mapping and a sequence are lists of cells.
data Doc : Type 0 where
  absent nil nothing : Doc
  text : String → Doc
  number : ℕ → Doc
  entry : String → Doc → Doc → Doc
  item : Doc → Doc → Doc

abbrev look_up : Doc → String → Doc
look_up (entry name value rest) wanted =
    let found = look_up rest wanted in if str_eq name wanted then value else found
look_up _ wanted = absent

abbrev is_present : Doc → Bool
is_present absent = false
is_present _ = true

abbrev is_mapping : Doc → Bool
is_mapping nil = true
is_mapping (entry name value rest) = true
is_mapping _ = false

abbrev is_items : Doc → Bool
is_items nothing = true
is_items (item value rest) = true
is_items _ = false

abbrev is_text : Doc → Bool
is_text (text s) = true
is_text (number n) = true
is_text _ = false

abbrev entries_of : Doc → List (Doc × Doc)
entries_of (entry name value rest) = (text name, value) ∷ entries_of rest
entries_of _ = []

abbrev items_of : Doc → List Doc
items_of (item value rest) = value ∷ items_of rest
items_of _ = []

abbrev text_of : Doc → String
text_of (text s) = s
text_of _ = ""

abbrev to_text : Doc → Result String String
to_text (text s) = ok s
to_text _ = err "bad conversion"

abbrev to_bool : Doc → Result String Bool
to_bool (text s) = ok (str_eq s "true")
to_bool _ = err "bad conversion"

abbrev to_unsigned : ℕ → Doc → Result String ℕ
to_unsigned bits (number n) = if ltb n (2 ^ bits) then ok n else err "bad conversion"
to_unsigned bits _ = err "bad conversion"

abbrev to_number : Doc → Result String ℕ
to_number (number n) = ok n
to_number _ = err "bad conversion"

abbrev documents : Yaml
documents = record {
  Number = ℕ;
  zero_number = 0;
  one_number = 1;
  is_finite = λ n. true;
  is_zero = λ n. ltb n 1;
  is_negative = λ n. false;
  less = ltb;
  inverse = λ n. n;
  Node = Doc;
  get = look_up;
  is_defined = is_present;
  is_map = is_mapping;
  is_sequence = is_items;
  is_scalar = is_text;
  same_node = λ a b. false;
  entries = entries_of;
  items = items_of;
  scalar_text = text_of;
  as_string = to_text;
  as_bool = to_bool;
  as_signed = λ bits n. err "bad conversion";
  as_unsigned = to_unsigned;
  as_number = λ type n. to_number n;
  is_ipv4 = λ s. not (str_eq s "");
  policy_path = λ directory name. name;
  secret_path = λ directory name. name;
  read_secret = λ path. err "no secrets";
}

abbrev small_limits : Doc
small_limits = entry "write_workers" (number 2) (entry "alarm_queue_entries" (number 16) nil)

parse_operation_limits-IsValid_example :
    IsValid (record default_limits { write_workers = 2; alarm_queue_entries = 16 })
    × IsOf documents small_limits
        (record default_limits { write_workers = 2; alarm_queue_entries = 16 })
unfolding parse_operation_limits reject_unknown_keys optional parse_unsigned
parse_operation_limits-IsValid_example =
    parse_operation_limits-IsValid documents small_limits _ refl

-- The order of native numbers gives what is asked of doubles.
ltb_trans :
    (a b c : ℕ)
    → true ≡ true
    → true ≡ true
    → true ≡ true
    → ltb b a ≡ false
    → ltb c b ≡ false
    → ltb c a ≡ false
ltb_trans a b c fa fb fc h k = ground arith

abbrev alarm_section : Doc
alarm_section =
    entry "low_alarm" (number 3) (entry "high_alarm" (number 9) (entry "hysteresis" (number 1) nil))

abbrev small_alarm : AlarmConfig ℕ
small_alarm = record {
  low_alarm = some 3;
  low_warning = none;
  high_warning = none;
  high_alarm = some 9;
  hysteresis = 1;
}

parse_alarm_config-IsSound_example : IsSound documents small_alarm
unfolding parse_alarm_config reject_unknown_keys optional optional_some parse_number
parse_alarm_config-IsSound_example =
    parse_alarm_config-IsSound documents ltb_trans refl alarm_section [] small_alarm refl

disordered_alarms :
    parse_alarm_config documents
      (entry "low_alarm" (number 9) (entry "high_alarm" (number 3) nil))
      []
    ≡ err (
        failed []
          "alarm thresholds must be ordered low_alarm <= low_warning <= high_warning <= high_alarm")
unfolding parse_alarm_config reject_unknown_keys optional optional_some parse_number
disordered_alarms = refl

abbrev redis_section : Doc
redis_section =
    entry "base_key" (text "ioc") (entry "host" (text "localhost") (entry "port" (number 6379) nil))

abbrev route_to : String → Doc
route_to name = entry "key" (text name) nil

abbrev pv_section : String → String → Doc
pv_section name read = entry "name" (text name) (
    entry "type" (text "double") (
      entry "shape" (text "scalar")
        (entry "read" (route_to read) (entry "write" (route_to "w") nil))))

abbrev document : Doc → Doc
document pvs =
    entry "server" (entry "instance" (text "ioc1") nil)
      (entry "redis" redis_section (entry "limits" small_limits (entry "pvs" pvs nil)))

abbrev two_pvs : Doc
two_pvs = document (item (pv_section "temperature" "t") (item (pv_section "pressure" "p") nothing))

abbrev small_pv : String → String → PvConfig ℕ
small_pv name read = record {
  name = name;
  aliases = [];
  kind = PvKind.value;
  type = PrimitiveType.float64;
  shape = Shape.scalar;
  read = record { backend = "default"; key = read };
  write = some (record { backend = "default"; key = "w" });
  confirm = none;
  metadata = default_metadata;
  alarms = default_alarms 0;
  transform = none;
  initial_value = TypedValue.monostate;
  access = none;
  max_frame_bytes = 33554432;
  max_frame_gap = 10000;
  source_health = default_source_health;
}

abbrev two_pvs_config : AppConfig ℕ
two_pvs_config = record {
  schema_version = 1;
  legacy_input = true;
  server = record {
    instance_name = "ioc1";
    name_space = "";
    interfaces = [];
    tcp_port = none;
    udp_port = none;
    auto_beacon = true;
  };
  access = default_access;
  redis_backends = ("default", record default_redis { base_key = "ioc"; host = "localhost" }) ∷ [];
  alarms = record { backend = "default"; stream = "acorn:alarms" };
  channel_finder = default_channel_finder;
  discovery = default_discovery;
  limits = record default_limits { write_workers = 2; alarm_queue_entries = 16 };
  pvs = small_pv "temperature" "t" ∷ small_pv "pressure" "p" ∷ [];
  rpc_services = [];
}

parse_config-IsAccepted_example : IsAccepted two_pvs_config
unfolding parse_config require_map reject_unknown_keys optional parse_unsigned require_node required
    parse_string optional_some require_sequence reserve_diagnostics admin_pv_names parse_pv
    parse_primitive_type parse_shape parse_route parse_metadata parse_alarm_config parse_transform
    parse_initial_value add_pv sub64
parse_config-IsAccepted_example =
    parse_config-IsAccepted documents two_pvs "/etc" two_pvs_config refl

-- Two PVs that read the same key are refused.
same_key :
    parse_config documents
      (document (item (pv_section "temperature" "t") (item (pv_section "pressure" "t") nothing)))
      "/etc"
    ≡ err (
        failed
          (key "root" ∷ key "pvs" ∷ index 1 ∷ key "read" ∷ key "key" ∷ [])
          "duplicate subscribed key 'default:t'")
unfolding parse_config require_map reject_unknown_keys optional parse_unsigned require_node required
    parse_string optional_some require_sequence reserve_diagnostics admin_pv_names parse_pv
    parse_primitive_type parse_shape parse_route parse_metadata parse_alarm_config parse_transform
    parse_initial_value add_pv sub64
same_key = refl
