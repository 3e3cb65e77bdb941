-- ===== src/ConfigParser/Access.antt =====
-- The access section, and the tables of texts, as src/config.cpp reads them.
use redis_pvxs_ioc.Prelude.{
  String, Bool, true, false, not, ◌||◌, List, [], ◌∷◌, ltb, if◌then◌else◌, str_eq,
}
use redis_pvxs_ioc.Prelude.Results.{ok, ◌>>=◌, ◌>>◌}
use redis_pvxs_ioc.Prelude.Int.{ℤ, pos, negsuc}
use redis_pvxs_ioc.Config.{AccessAssignment, AccessConfig, AccessWatchConfig, AccessDefaultsConfig}
use redis_pvxs_ioc.Config.Defaults.{default_assignment, default_access, default_watch}
use redis_pvxs_ioc.ConfigParser.{
  Yaml, Where, Parsed, below, refuse, parse_string, raw_bool, parse_unsigned, parse_signed,
  optional, require_map, reject_unknown_keys,
}

-- table[name] = value
unfoldable pub assign : {A : Type 0} → String → A → List (String × A) → List (String × A)
assign name value [] = (name, value) ∷ []
assign name value ((n, v) ∷ rest) =
    let later = assign name value rest in
    if str_eq n name then (n, value) ∷ rest else (n, v) ∷ later

is_empty : {A : Type 0} → List A → Bool
is_empty [] = true
is_empty (x ∷ xs) = false

-- asl == 0 || asl == 1
unfoldable pub is_level : ℤ → Bool
is_level (pos n) = ltb n 2
is_level (negsuc n) = false

module _ (y : Yaml) where
  -- The entries of a table of texts, where `missing` is the error of an empty name.
  unfoldable pub parse_table :
      String
      → Where
      → List (y.Node × y.Node)
      → List (String × String)
      → Parsed (List (String × String))
  unfolding assign refuse
  parse_table missing path [] table = ok table
  parse_table missing path ((name_node, value_node) ∷ rest) table = do
    name ← parse_string y name_node (below path "<name>")
    refuse (str_eq name "") path missing
    value ← parse_string y value_node (below path name)
    parse_table missing path rest (assign name value table)

  unfoldable pub parse_access_assignment : y.Node → Where → Parsed AccessAssignment
  unfolding is_level refuse
  parse_access_assignment node path = do
    reject_unknown_keys y node path ("asg" ∷ "asl" ∷ [])
    asg ← optional y (parse_string y) node path "asg" default_assignment.asg
    asl ← optional y (parse_signed y 32) node path "asl" default_assignment.asl
    refuse (str_eq asg "") (below path "asg") "must not be empty"
    refuse (not (is_level asl)) (below path "asl") "must be 0 or 1"
    ok (record { asg = asg; asl = asl })

  unfoldable pub parse_macros : y.Node → Where → Parsed (List (String × String))
  unfolding parse_table
  parse_macros node path = do
    macros ← require_map y node path
    parse_table "macro name must not be empty" path (y.entries macros) []

  unfoldable pub parse_watch : y.Node → Where → Parsed AccessWatchConfig
  unfolding refuse
  parse_watch node path = do
    watch ← require_map y node path
    reject_unknown_keys y watch path ("enabled" ∷ "interval_ms" ∷ "settle_ms" ∷ [])
    enabled ← optional y (raw_bool y) watch path "enabled" default_watch.enabled
    interval_ms ←
        optional y (parse_unsigned y 32) watch path "interval_ms" default_watch.interval_ms
    settle_ms ← optional y (parse_unsigned y 32) watch path "settle_ms" default_watch.settle_ms
    refuse (ltb interval_ms 100 || ltb 60000 interval_ms) (below path "interval_ms")
        "must be between 100 and 60000"
    refuse (ltb 60000 settle_ms) (below path "settle_ms") "must not exceed 60000"
    ok (record { enabled = enabled; interval_ms = interval_ms; settle_ms = settle_ms })

  unfoldable pub parse_defaults : y.Node → Where → Parsed AccessDefaultsConfig
  unfolding parse_access_assignment
  parse_defaults node path = do
    defaults ← require_map y node path
    reject_unknown_keys y defaults path ("pv" ∷ "rpc" ∷ "admin_read" ∷ "admin_write" ∷ [])
    pv ← optional y parse_access_assignment defaults path "pv" default_assignment
    rpc ← optional y parse_access_assignment defaults path "rpc" default_assignment
    admin_read ← optional y parse_access_assignment defaults path "admin_read" default_assignment
    admin_write ← optional y parse_access_assignment defaults path "admin_write" default_assignment
    ok (record { pv = pv; rpc = rpc; admin_read = admin_read; admin_write = admin_write })

  -- The end of `parseAccessConfig`, with what has been read.
  unfoldable pub finish_access : y.Node → String → Where → AccessConfig → Parsed AccessConfig
  unfolding refuse is_empty
  finish_access node directory path config =
      if not config.enabled
      then (do
        refuse
            (not (str_eq config.file "")
              || (not (is_empty config.macros)
                  || (y.is_defined (y.get node "watch") || y.is_defined (y.get node "defaults"))))
            path "access settings require enabled: true"
        ok config)
      else (do
        refuse (str_eq config.file "") (below path "file")
            "is required when access control is enabled"
        ok (record config { file = y.policy_path directory config.file }))

  unfoldable pub parse_access_config : y.Node → String → Where → Parsed AccessConfig
  unfolding finish_access parse_macros parse_watch parse_defaults
  parse_access_config node directory path =
      if not (y.is_defined node) then ok default_access else (do
        reject_unknown_keys y node path ("enabled" ∷ "file" ∷ "macros" ∷ "watch" ∷ "defaults" ∷ [])
        enabled ← optional y (raw_bool y) node path "enabled" default_access.enabled
        file ← optional y (parse_string y) node path "file" default_access.file
        macros ← optional y parse_macros node path "macros" default_access.macros
        watch ← optional y parse_watch node path "watch" default_access.watch
        defaults ← optional y parse_defaults node path "defaults" default_access.defaults
        finish_access node directory path (record {
          enabled = enabled;
          file = file;
          macros = macros;
          watch = watch;
          defaults = defaults;
        }))
