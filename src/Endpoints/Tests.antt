-- ===== src/Endpoints/Tests.antt =====
-- A small namespace of include/redis_pvxs_ioc/endpoints.h, and the theorem at it.
use redis_pvxs_ioc.Prelude.{ℕ, none, true, ◌≡◌, refl, List, [], ◌∷◌, ◌++◌}
use redis_pvxs_ioc.Prelude.Results.{Result, ok, err}
use redis_pvxs_ioc.Config.{ServerConfig, PvConfig, PvKind, PrimitiveType, scalar, monostate}
use redis_pvxs_ioc.Config.Defaults.{default_metadata, default_alarms, default_source_health}
use redis_pvxs_ioc.Endpoints.{
  EndpointRegistry, EndpointError, Place, value, rpc, reserve, reserve_found, find, is_bad,
  admin_pv_names, configured_endpoints, duplicate_name,
}
use redis_pvxs_ioc.Endpoints.Unique.{IsNamespace, names_of, asked, configured_endpoints-IsNamespace}

abbrev server : ServerConfig
server = record {
  instance_name = "ioc";
  name_space = "LAB";
  interfaces = [];
  tcp_port = none;
  udp_port = none;
  auto_beacon = true;
}

abbrev beam : PvConfig ℕ
beam = record {
  name = "BEAM";
  aliases = "BEAM:CURRENT" ∷ [];
  kind = PvKind.value;
  type = PrimitiveType.float64;
  shape = scalar;
  read = record { backend = "default"; key = "beam" };
  write = none;
  confirm = none;
  metadata = default_metadata;
  alarms = default_alarms 0;
  transform = none;
  initial_value = monostate;
  access = none;
  max_frame_bytes = 1;
  max_frame_gap = 1;
  source_health = default_source_health;
}

abbrev pvs : List (PvConfig ℕ)
pvs = beam ∷ []

abbrev entries_of : Result EndpointError EndpointRegistry → EndpointRegistry
entries_of (ok entries) = entries
entries_of (err e) = []

abbrev built : EndpointRegistry
built = entries_of (configured_endpoints server pvs)

accepted : configured_endpoints server pvs ≡ ok built
unfolding configured_endpoints
accepted = refl

rejects_duplicate :
    reserve "A" rpc "S" (Place.pv_name 1) (("A", record { kind = value; owner = "A" }) ∷ [])
    ≡ err (duplicate_name (Place.pv_name 1) "A" "A")
unfolding reserve is_bad find reserve_found
rejects_duplicate = refl

configured_endpoints-IsNamespace_example :
    (names_of built ≡ admin_pv_names server ++ asked server pvs) × IsNamespace (names_of built)
configured_endpoints-IsNamespace_example =
    configured_endpoints-IsNamespace server pvs built accepted
