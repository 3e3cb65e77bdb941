-- ===== src/ConfigParser/Pv/Rpc.antt =====
-- `parseRpcService` of src/config.cpp.
use redis_pvxs_ioc.Prelude.{ℕ, String, false, ◌||◌, List, [], ◌∷◌, ltb, if◌then◌else◌, str_eq}
use redis_pvxs_ioc.Prelude.Results.{ok, ◌>>=◌, ◌>>◌}
use redis_pvxs_ioc.Config.{RpcServiceConfig}
use redis_pvxs_ioc.ConfigParser.{
  Yaml, Where, Parsed, below, refuse, parse_string, parse_bool, parse_unsigned, optional,
  optional_some, required, require_map, reject_unknown_keys,
}
use redis_pvxs_ioc.ConfigParser.Access.{parse_access_assignment}

-- table.emplace(name, value)
unfoldable pub emplace : {A : Type 0} → String → A → List (String × A) → List (String × A)
emplace name value [] = (name, value) ∷ []
emplace name value ((n, v) ∷ rest) =
    let later = emplace name value rest in if str_eq n name then (n, v) ∷ rest else (n, v) ∷ later

module _ (y : Yaml) where
  unfoldable pub emplace_defaults :
      Where → List (y.Node × y.Node) → List (String × String) → Parsed (List (String × String))
  unfolding emplace refuse
  emplace_defaults path [] table = ok table
  emplace_defaults path ((name_node, value_node) ∷ rest) table = do
    name ← parse_string y name_node (below path "key")
    refuse (str_eq name "") path "default field names must not be empty"
    value ← parse_string y value_node (below path name)
    emplace_defaults path rest (emplace name value table)

  -- The lambda `defaults`
  unfoldable pub parse_field_defaults : y.Node → Where → Parsed (List (String × String))
  unfolding emplace_defaults
  parse_field_defaults node path = do
    map ← require_map y node path
    emplace_defaults path (y.entries map) []

  unfoldable pub emplace_methods :
      Where
      → List (y.Node × y.Node)
      → List (String × List (String × String))
      → Parsed (List (String × List (String × String)))
  unfolding emplace refuse parse_field_defaults
  emplace_methods path [] table = ok table
  emplace_methods path ((name_node, value_node) ∷ rest) table = do
    method ← parse_string y name_node (below path "key")
    refuse (str_eq method "") path "method names must not be empty"
    value ← parse_field_defaults value_node (below path method)
    emplace_methods path rest (emplace method value table)

  unfoldable pub parse_method_defaults :
      y.Node → Where → Parsed (List (String × List (String × String)))
  unfolding emplace_methods
  parse_method_defaults node path = do
    map ← require_map y node path
    emplace_methods path (y.entries map) []

  -- The lambda `timeout`
  unfoldable pub parse_timeout : y.Node → Where → String → ℕ → ℕ → Parsed ℕ
  unfolding refuse
  parse_timeout node path name fallback minimum = do
    value ← optional y (parse_unsigned y 32) node path name fallback
    refuse (ltb value minimum || ltb 300000 value) (below path name) "outside supported range"
    ok value

  unfoldable pub parse_rpc_service : y.Node → Where → Parsed RpcServiceConfig
  unfolding refuse parse_field_defaults parse_method_defaults parse_timeout
  parse_rpc_service node path = do
    reject_unknown_keys y node path (
        "endpoint" ∷ "service" ∷ "suffix" ∷ "defaults" ∷ "method_defaults" ∷ "access" ∷ "optional"
        ∷ "discovery_timeout_ms" ∷ "timeout_ms" ∷ "retry_interval_ms" ∷ [])
    endpoint ← required y (parse_string y) node path "endpoint"
    service ← required y (parse_string y) node path "service"
    suffix ← optional y (parse_string y) node path "suffix" ""
    defaults ← optional y parse_field_defaults node path "defaults" []
    methods ← optional y parse_method_defaults node path "method_defaults" []
    optional_ ← optional y (parse_bool y) node path "optional" false
    discovery ← parse_timeout node path "discovery_timeout_ms" 3000 1
    timeout ← parse_timeout node path "timeout_ms" 10000 1
    retry ← parse_timeout node path "retry_interval_ms" 5000 100
    access ← optional_some y (parse_access_assignment y) node path "access"
    refuse (str_eq endpoint "") (below path "endpoint") "must not be empty"
    refuse (str_eq service "") (below path "service") "must not be empty"
    ok (record {
      endpoint = endpoint;
      service = service;
      suffix = suffix;
      defaults = defaults;
      method_defaults = methods;
      optional = optional_;
      discovery_timeout_ms = discovery;
      timeout_ms = timeout;
      retry_interval_ms = retry;
      access = access;
    })
