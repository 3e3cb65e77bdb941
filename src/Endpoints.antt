-- ===== src/Endpoints.antt =====
-- include/redis_pvxs_ioc/endpoints.h: the names that a configuration serves, each reserved once. The
-- map is a list of its entries; a place in the configuration stands for its text in an error.
pub mod Unique
mod Tests
use Prim.Native.String.{◌++◌ as str_append}
use Prim.Native.Char.{code}
use redis_pvxs_ioc.Prelude.{
  ℕ, zero, suc, ◌+◌, String, Bool, true, false, not, ◌||◌, Option, none, some, List, [], ◌∷◌, ◌++◌,
  map, ◌==◌, if◌then◌else◌, str_eq,
}
use redis_pvxs_ioc.Prelude.Results.{Result, ok, err, ◌>>=◌, ◌>>◌, fail_if}
use redis_pvxs_ioc.Config.{ServerConfig, PvConfig}

pub data EndpointKind : Type 0 where
  diagnostic value alias rpc : EndpointKind

pub record EndpointReservation : Type 0 where
  pub kind : EndpointKind
  pub owner : String

-- "endpoints", "root.pvs[i].name", "root.pvs[i].aliases[j]"
pub data Place : Type 0 where
  endpoints : Place
  pv_name : ℕ → Place
  pv_alias : ℕ → ℕ → Place

pub data EndpointError : Type 0 where
  bad_name : Place → EndpointError
  reserved_name : Place → String → String → EndpointError
  duplicate_name : Place → String → String → EndpointError

abbrev pub EndpointRegistry : Type 0
EndpointRegistry = List (String × EndpointReservation)

unfoldable pub has_nul : String → Bool
has_nul String.[] = false
has_nul (String.◌∷◌ c s) = code c == 0 || has_nul s

unfoldable pub is_bad : String → Bool
unfolding has_nul
is_bad name = str_eq name "" || has_nul name

unfoldable pub find : String → EndpointRegistry → Option EndpointReservation
find name [] = none
find name ((key, entry) ∷ rest) = if str_eq key name then some entry else find name rest

unfoldable pub conflict : EndpointKind → Place → String → String → EndpointError
conflict diagnostic place name owner = reserved_name place name owner
conflict _ place name owner = duplicate_name place name owner

unfoldable pub reserve_found :
    Place
    → String
    → EndpointReservation
    → Option EndpointReservation
    → EndpointRegistry
    → Result EndpointError EndpointRegistry
unfolding conflict
reserve_found place name entry none entries = ok (entries ++ (name, entry) ∷ [])
reserve_found place name entry (some found) entries =
    err (conflict found.kind place name found.owner)

unfoldable pub reserve :
    String
    → EndpointKind
    → String
    → Place
    → EndpointRegistry
    → Result EndpointError EndpointRegistry
unfolding reserve_found is_bad find
reserve name kind owner place entries = do
  fail_if (is_bad name) (bad_name place)
  reserve_found place name (record { kind = kind; owner = owner }) (find name entries) entries

unfoldable pub full_pv_name : {N : Type 0} → ServerConfig → PvConfig N → String
full_pv_name server pv =
    if str_eq server.name_space ""
    then pv.name
    else str_append server.name_space (str_append ":" pv.name)

unfoldable pub admin_pv_name : ServerConfig → String → String
admin_pv_name server suffix =
    str_append "SYS:" (str_append server.instance_name (str_append ":" suffix))

unfoldable pub reserve_diagnostics :
    List String → EndpointRegistry → Result EndpointError EndpointRegistry
unfolding reserve
reserve_diagnostics [] entries = ok entries
reserve_diagnostics (name ∷ names) entries =
    reserve name diagnostic "runtime" endpoints entries >>= reserve_diagnostics names

-- The loop of `addPV` past the first name.
unfoldable pub reserve_aliases :
    String → ℕ → ℕ → List String → EndpointRegistry → Result EndpointError EndpointRegistry
unfolding reserve
reserve_aliases owner i j [] entries = ok entries
reserve_aliases owner i j (name ∷ names) entries =
    reserve name alias owner (pv_alias i j) entries >>= reserve_aliases owner i (j + 1) names

unfoldable pub add_pv :
    {N : Type 0}
    → ServerConfig
    → ℕ
    → PvConfig N
    → EndpointRegistry
    → Result EndpointError EndpointRegistry
unfolding reserve_aliases full_pv_name
add_pv server i pv entries =
    reserve (full_pv_name server pv) value (full_pv_name server pv) (pv_name i) entries
    >>= reserve_aliases (full_pv_name server pv) i 0 pv.aliases

unfoldable pub add_pvs :
    {N : Type 0}
    → ServerConfig
    → ℕ
    → List (PvConfig N)
    → EndpointRegistry
    → Result EndpointError EndpointRegistry
unfolding add_pv
add_pvs server i [] entries = ok entries
add_pvs server i (pv ∷ pvs) entries = add_pv server i pv entries >>= add_pvs server (i + 1) pvs

abbrev pub version_pv_name : ServerConfig → String
version_pv_name server = str_append server.instance_name ":version"

abbrev pub revision_pv_name : ServerConfig → String
revision_pv_name server = str_append server.instance_name ":revision"

abbrev pub admin_suffixes : List String
admin_suffixes =
    "version" ∷ "revision" ∷ "config:reload" ∷ "config:generation" ∷ "config:lastStatus"
    ∷ "config:lastError" ∷ "config:lastDiff" ∷ "config:reloadStatus" ∷ "stats:pvCount"
    ∷ "stats:ndarrayInvalidFrames" ∷ "stats:ndarraySkippedFrames" ∷ "stats:ndarrayDiscontinuities"
    ∷ "stats:operations" ∷ "rpc:status" ∷ "alarms:status" ∷ "backend:health" ∷ "source:status"
    ∷ "ready" ∷ "access:reload" ∷ "access:enabled" ∷ "access:generation" ∷ "access:lastStatus"
    ∷ "access:lastError" ∷ "access:policyFingerprint" ∷ "access:watchStatus"
    ∷ "access:activeClients" ∷ "access:deniedReads" ∷ "access:deniedWrites" ∷ "access:rightsChanges"
    ∷ "access:operations" ∷ "discovery:status" ∷ []

unfoldable pub admin_pv_names : ServerConfig → List String
unfolding admin_pv_name
admin_pv_names server =
    version_pv_name server ∷ revision_pv_name server ∷ map (admin_pv_name server) admin_suffixes

unfoldable pub full_pv_names : {N : Type 0} → ServerConfig → PvConfig N → List String
unfolding full_pv_name
full_pv_names server pv = full_pv_name server pv ∷ pv.aliases

-- configuredEndpoints
unfoldable pub configured_endpoints :
    {N : Type 0} → ServerConfig → List (PvConfig N) → Result EndpointError EndpointRegistry
unfolding reserve_diagnostics add_pvs admin_pv_names
configured_endpoints server pvs =
    reserve_diagnostics (admin_pv_names server) [] >>= add_pvs server 0 pvs
