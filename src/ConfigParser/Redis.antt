-- ===== src/ConfigParser/Redis.antt =====
-- Routes, Redis backends, the alarm stream and ChannelFinder, as src/config.cpp reads them.
use Prim.Native.String.{◌++◌ as str_append}
use redis_pvxs_ioc.Prelude.{
  String, Bool, true, false, not, ◌&&◌, ◌||◌, List, [], ◌∷◌, ◌==◌, ltb, if◌then◌else◌, str_eq,
}
use redis_pvxs_ioc.Prelude.Results.{ok, err, ◌>>=◌, ◌>>◌}
use redis_pvxs_ioc.Prelude.Int.{ℤ, pos, negsuc}
use redis_pvxs_ioc.Config.{RouteConfig, ConfirmConfig, RedisConfig, ChannelFinderConfig}
use redis_pvxs_ioc.Config.Defaults.{
  default_redis, default_channel_finder, default_redis_backend_alias,
}
use redis_pvxs_ioc.ConfigParser.{
  Yaml, Where, Parsed, failed, below, refuse, escaping, parse_string, parse_unsigned, parse_signed,
  optional, required, require_map, require_sequence, reject_unknown_keys, parse_each,
}
use redis_pvxs_ioc.ConfigParser.Access.{parse_table}

-- timeoutMs <= 0 || timeoutMs > 300000
unfoldable pub bad_timeout : ℤ → Bool
bad_timeout (pos n) = n == 0 || ltb 300000 n
bad_timeout (negsuc n) = true

unfoldable pub has_backend : String → List (String × RedisConfig) → Bool
has_backend alias [] = false
has_backend alias ((name, backend) ∷ rest) = str_eq name alias || has_backend alias rest

-- backends.begin()->first, of the only backend
unfoldable pub only_backend : Where → List (String × RedisConfig) → Parsed String
only_backend path ((name, backend) ∷ []) = ok name
only_backend path _ = err (failed path "must be set when multiple redis_backends are configured")

-- resolveBackendAlias
unfoldable pub resolve_backend_alias :
    String → Where → List (String × RedisConfig) → Bool → Parsed String
unfolding only_backend has_backend refuse
resolve_backend_alias alias path backends legacy =
    if str_eq alias "" then only_backend path backends else (do
      let resolved =
          if legacy && (str_eq alias "redis" && has_backend default_redis_backend_alias backends)
          then default_redis_backend_alias
          else alias
      refuse (not (has_backend resolved backends)) path
          (str_append "unknown redis backend '" (str_append resolved "'"))
      ok resolved)

module _ (y : Yaml) where
  unfoldable pub parse_route : y.Node → Where → Parsed RouteConfig
  unfolding refuse
  parse_route node path = do
    reject_unknown_keys y node path ("backend" ∷ "key" ∷ [])
    backend ← optional y (parse_string y) node path "backend" ""
    route_key ← required y (parse_string y) node path "key"
    refuse (str_eq route_key "") (below path "key") "must not be empty"
    ok (record { backend = backend; key = route_key })

  unfoldable pub parse_confirm : y.Node → Where → Parsed ConfirmConfig
  unfolding refuse bad_timeout
  parse_confirm node path = do
    reject_unknown_keys y node path ("backend" ∷ "key" ∷ "timeout_ms" ∷ [])
    backend ← optional y (parse_string y) node path "backend" ""
    confirm_key ← required y (parse_string y) node path "key"
    timeout_ms ← optional y (parse_signed y 32) node path "timeout_ms" (pos 250)
    refuse (str_eq confirm_key "") (below path "key") "must not be empty"
    refuse (bad_timeout timeout_ms) (below path "timeout_ms") "must be 1..300000"
    ok (record { backend = backend; key = confirm_key; timeout_ms = timeout_ms })

  unfoldable pub secret_file : String → y.Node → Where → Parsed String
  unfolding refuse escaping
  secret_file directory node path = do
    input ← parse_string y node path
    refuse (str_eq input "") path "must not be empty"
    escaping (y.read_secret (y.secret_path directory input))

  -- The lambda `credential`
  unfoldable pub credential : String → y.Node → Where → String → Parsed String
  unfolding refuse secret_file
  credential directory node path name = do
    let file = str_append name "_file"
    refuse (y.is_defined (y.get node name) && y.is_defined (y.get node file)) path
        (str_append name (str_append " and " (str_append file " are mutually exclusive")))
    if y.is_defined (y.get node file)
        then secret_file directory (y.get node file) (below path file)
        else optional y (parse_string y) node path name ""

  unfoldable pub parse_redis_config : String → y.Node → Where → Parsed RedisConfig
  unfolding refuse credential
  parse_redis_config directory node path = do
    reject_unknown_keys y node path (
        "base_key" ∷ "host" ∷ "port" ∷ "user" ∷ "password" ∷ "user_file" ∷ "password_file"
        ∷ "workers" ∷ "readers" ∷ "reader_probe_ms" ∷ [])
    base_key ← required y (parse_string y) node path "base_key"
    host ← required y (parse_string y) node path "host"
    port ← required y (parse_unsigned y 16) node path "port"
    user ← credential directory node path "user"
    password ← credential directory node path "password"
    workers ← optional y (parse_unsigned y 16) node path "workers" default_redis.workers
    readers ← optional y (parse_unsigned y 16) node path "readers" default_redis.readers
    probe ←
        optional y (parse_unsigned y 32) node path "reader_probe_ms" default_redis.reader_probe_ms
    refuse (not (probe == 0) && (ltb probe 100 || ltb 60000 probe)) (below path "reader_probe_ms")
        "must be zero (disabled) or 100..60000"
    refuse (str_eq host "") (below path "host") "must not be empty"
    refuse (port == 0) (below path "port") "must be 1..65535"
    refuse (workers == 0 || ltb 256 workers) (below path "workers") "must be 1..256"
    refuse (readers == 0 || ltb 256 readers) (below path "readers") "must be 1..256"
    ok (record {
      base_key = base_key;
      host = host;
      port = port;
      user = user;
      password = password;
      workers = workers;
      readers = readers;
      reader_probe_ms = probe;
    })

  unfoldable pub parse_present : y.Node → Where → Parsed String
  unfolding refuse
  parse_present node path = do
    value ← parse_string y node path
    refuse (str_eq value "") path "must not be empty"
    ok value

  unfoldable pub parse_tags : y.Node → Where → Parsed (List String)
  unfolding parse_present
  parse_tags node path = do
    tags ← require_sequence y node path
    parse_each y parse_present path 0 (y.items tags)

  unfoldable pub parse_properties : y.Node → Where → Parsed (List (String × String))
  parse_properties node path = do
    properties ← require_map y node path
    parse_table y "property name must not be empty" path (y.entries properties) []

  unfoldable pub parse_channel_finder : y.Node → Where → Parsed ChannelFinderConfig
  unfolding parse_present parse_tags parse_properties
  parse_channel_finder node path =
      if not (y.is_defined node) then ok default_channel_finder else (do
        reject_unknown_keys y node path ("url" ∷ "owner" ∷ "tags" ∷ "properties" ∷ [])
        url ← optional y (parse_string y) node path "url" default_channel_finder.url
        owner ← optional y parse_present node path "owner" default_channel_finder.owner
        tags ← optional y parse_tags node path "tags" default_channel_finder.tags
        properties ←
            optional y parse_properties node path "properties" default_channel_finder.properties
        ok (record { url = url; owner = owner; tags = tags; properties = properties }))
