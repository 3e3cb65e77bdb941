-- ===== src/ConfigParser/Serve/Accepted.antt =====
-- What the loop of `parseConfig` (src/config.cpp) over the PVs keeps.
use redis_pvxs_ioc.Prelude.{
  ℕ, ◌+◌, ◌-◌, ◌/◌, ◌≤◌, ◌≡◌, String, refl, sym, ap, ◌∙◌, ◌||◌, List, [], ◌∷◌, ◌++◌, ltb, All,
  arith,
}
use mathlib.Core.List.{append_assoc, append-nil}
use redis_pvxs_ioc.Prelude.Results.{
  Result, ok, err, Ensures, Meets, Meets-bind, Meets-ok, Meets-any, Meets-fail_if, Meets-err,
  Meets-mono, Anything,
}
use redis_pvxs_ioc.Config.{ServerConfig, PvConfig}
use redis_pvxs_ioc.Endpoints.{
  EndpointError, EndpointRegistry, add_pv, admin_pv_names, full_pv_names, full_pv_name,
}
use redis_pvxs_ioc.Endpoints.Unique.{names_of, asked, Extends, IsNamespace, add_pv-Extends}
use redis_pvxs_ioc.ConfigParser.{Yaml, element, refuse}
use redis_pvxs_ioc.ConfigParser.Text.{size}
use redis_pvxs_ioc.ConfigParser.Pv.Definition.{parse_pv}
use redis_pvxs_ioc.ConfigParser.Serve.{
  Setting, Served, pvs_path, from_registry, resolve_pv, subscribe, subscribe_confirm, serve_pv,
  serve_pvs, alarm_bytes_of, cover_alarms,
}
use redis_pvxs_ioc.ConfigParser.Serve.Keys.{
  count_key, count_key-append, IsOnce, confirm_keys, asked_keys, Adds, Adds-trans, subscribe-Adds,
  subscribe_confirm-Adds,
}
use redis_pvxs_ioc.ConfigParser.Serve.Backends.{IsResolved, resolve_pv-IsResolved}

-- After some PVs: the names and the keys that they ask for are what is registered, and none twice.
pub record IsServed {N : Type 0} (setting : Setting) (served : Served N) : Type 0 where
  pub names :
      names_of served.endpoints ≡ admin_pv_names setting.server ++ asked setting.server served.pvs
  pub namespace : IsNamespace (names_of served.endpoints)
  pub counts :
      (b n : String) → count_key b n served.subscribed ≡ count_key b n (asked_keys served.pvs)
  pub once : IsOnce served.subscribed
  pub resolved : All (IsResolved setting.backends setting.access.enabled) served.pvs

asked-append :
    {N : Type 0} (server : ServerConfig) (pvs : List (PvConfig N)) (pv : PvConfig N)
    → asked server (pvs ++ pv ∷ []) ≡ asked server pvs ++ full_pv_names server pv
unfolding asked
asked-append server [] pv = append-nil (full_pv_names server pv)
asked-append server (first ∷ pvs) pv =
    ap (λ l. full_pv_names server first ++ l) (asked-append server pvs pv)
    ∙ sym (append_assoc (full_pv_names server first) (asked server pvs) (full_pv_names server pv))

keys_of : {N : Type 0} → PvConfig N → List (String × String)
keys_of pv = (pv.read.backend, pv.read.key) ∷ [] ++ confirm_keys pv.read pv.confirm

count_key-asked_keys :
    {N : Type 0} (b n : String) (pvs : List (PvConfig N)) (pv : PvConfig N)
    → count_key b n (asked_keys (pvs ++ pv ∷ []))
      ≡ count_key b n (asked_keys pvs) + count_key b n (keys_of pv)
unfolding asked_keys count_key keys_of
count_key-asked_keys b n [] pv =
    omega (arith, count_key-append b n (confirm_keys pv.read pv.confirm) [])
count_key-asked_keys b n (first ∷ pvs) pv = omega (
  arith,
  count_key-asked_keys b n pvs pv,
  count_key-append b n (confirm_keys first.read first.confirm) (asked_keys (pvs ++ pv ∷ [])),
  count_key-append b n (confirm_keys first.read first.confirm) (asked_keys pvs),
)

All-append :
    {A : Type 0} (P : A → Type 0) (xs : List A) (x : A) → All P xs → P x → All P (xs ++ x ∷ [])
All-append P [] x h p = (p, tt)
All-append P (y ∷ xs) x h p = (h.0, All-append P xs x h.1 p)

pub from_registry-Meets :
    {A : Type 0} (P : A → Type 0) (r : Result EndpointError A)
    → Ensures P r
    → Meets P Anything (from_registry r)
unfolding from_registry
from_registry-Meets P (ok a) h = Meets-ok P _ a (h.at a refl)
from_registry-Meets P (err e) h = Meets-err P _

-- A PV more: what it adds, and that the rest stays.
one_more-IsServed :
    {N : Type 0} (setting : Setting) (served : Served N) (pv : PvConfig N)
    (entries : EndpointRegistry) (subscribed : List (String × String))
    → IsServed setting served
    → IsResolved setting.backends setting.access.enabled pv
    → Extends served.endpoints (full_pv_names setting.server pv) entries
    → Adds served.subscribed (keys_of pv) subscribed
    → IsServed setting
        (record { endpoints = entries; subscribed = subscribed; pvs = served.pvs ++ pv ∷ [] })
one_more-IsServed setting served pv entries subscribed v r names keys = record {
  names =
      names.names
      ∙ ap (λ l. l ++ full_pv_names setting.server pv) v.names
      ∙ append_assoc (admin_pv_names setting.server) (asked setting.server served.pvs)
          (full_pv_names setting.server pv)
      ∙ ap (λ l. admin_pv_names setting.server ++ l)
          (sym (asked-append setting.server served.pvs pv));
  namespace = names.keeps v.namespace;
  counts =
      λ b n. omega (arith, keys.counts b n, v.counts b n, count_key-asked_keys b n served.pvs pv);
  once = keys.keeps v.once;
  resolved = All-append _ served.pvs pv v.resolved r;
}

serve_pv-IsServed :
    {N : Type 0} (setting : Setting) (i : ℕ) (pv : PvConfig N) (served : Served N)
    → IsServed setting served
    → Meets (IsServed setting) Anything (serve_pv setting i pv served)
unfolding serve_pv keys_of
serve_pv-IsServed setting i pv served v =
    Meets-bind _ _ _ (resolve_pv setting (element pvs_path i) pv) _
      (resolve_pv-IsResolved setting (element pvs_path i) pv)
      λ p r.
        Meets-bind _ _ _ (from_registry (add_pv setting.server i p served.endpoints)) _
          (from_registry-Meets _ _ (add_pv-Extends setting.server i p served.endpoints))
          λ entries names.
            Meets-bind _ _ _ (subscribe p.read.backend p.read.key _ served.subscribed) _
              (subscribe-Adds p.read.backend p.read.key _ served.subscribed)
              λ keys first.
                Meets-bind _ _ _ (subscribe_confirm p.read p.confirm _ keys) _
                  (subscribe_confirm-Adds p.read p.confirm _ keys)
                  λ keys1 second. Meets-ok _ _ _ (
                    one_more-IsServed setting served p entries keys1 v r names
                      (Adds-trans first second))

pub serve_pvs-IsServed :
    (y : Yaml) (setting : Setting) (i : ℕ) (nodes : List y.Node) (served : Served y.Number)
    → IsServed setting served
    → Meets (IsServed setting) Anything (serve_pvs y setting i nodes served)
unfolding serve_pvs
serve_pvs-IsServed y setting i [] served v = Meets-ok _ _ _ v
serve_pvs-IsServed y setting i (node ∷ nodes) served v =
    Meets-bind _ _ _ (parse_pv y node (element pvs_path i)) _ (Meets-any _) λ pv _.
      Meets-bind _ _ _ (serve_pv setting i pv served) _ (serve_pv-IsServed setting i pv served v)
        λ served1 v1. serve_pvs-IsServed y setting (i + 1) nodes served1 v1

-- The bytes that the alarm states of some PVs reserve together.
unfoldable pub total_alarm_bytes : {N : Type 0} → ServerConfig → List (PvConfig N) → ℕ
unfolding alarm_bytes_of
total_alarm_bytes server [] = 0
total_alarm_bytes server (pv ∷ pvs) = alarm_bytes_of server pv + total_alarm_bytes server pvs

pub cover_alarms-Meets :
    {N : Type 0} (server : ServerConfig) (left : ℕ) (pvs : List (PvConfig N))
    → Meets (λ _. total_alarm_bytes server pvs ≤ left) Anything (cover_alarms server left pvs)
unfolding cover_alarms refuse total_alarm_bytes alarm_bytes_of
cover_alarms-Meets server left [] = Meets-ok _ _ _ (omega arith)
cover_alarms-Meets server left (pv ∷ pvs) =
    Meets-fail_if _ (ltb left 1024 || ltb ((left - 1024) / 2) (size (full_pv_name server pv))) _ _
      λ fits.
        Meets-mono _ _ _ _ (cover_alarms-Meets server (left - alarm_bytes_of server pv) pvs)
          λ _ h. ground arith
