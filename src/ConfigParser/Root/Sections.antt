-- ===== src/ConfigParser/Root/Sections.antt =====
-- What the sections of an accepted configuration are like (src/config.cpp).
use redis_pvxs_ioc.Prelude.{
  ℕ, ◌+◌, ◌≡◌, String, refl, Bool, true, false, not, ◌&&◌, some, List, [], ◌∷◌, if◌then◌else◌,
  str_eq, All, arith,
}
use redis_pvxs_ioc.Prelude.Results.{
  Meets, Meets-bind, Meets-ok, Meets-any, Meets-fail_if, Meets-if, Anything,
}
use redis_pvxs_ioc.Config.{RpcServiceConfig, AccessConfig}
use redis_pvxs_ioc.ConfigParser.{
  Yaml, Where, Parsed, below, element, refuse, optional, parse_each, require_sequence,
}
use redis_pvxs_ioc.ConfigParser.Redis.{has_backend, resolve_backend_alias}
use redis_pvxs_ioc.ConfigParser.Pv.Definition.{has_value}
use redis_pvxs_ioc.ConfigParser.Pv.Rpc.{parse_rpc_service}
use redis_pvxs_ioc.ConfigParser.Serve.Backends.{Backends, resolve_backend_alias-Meets}
use redis_pvxs_ioc.ConfigParser.Root.{
  root_path, service_access, parse_alarm_stream, parse_alarms, parse_service, parse_services,
}

abbrev pub HasAccess : AccessConfig → RpcServiceConfig → Type 0
HasAccess access service = has_value service.access ≡ access.enabled

service_access-Meets :
    (access : AccessConfig) (path : Where) (service : RpcServiceConfig)
    → Meets (HasAccess access) Anything (service_access access path service)
unfolding service_access refuse has_value
service_access-Meets access path service =
    Meets-fail_if _ (has_value service.access && not access.enabled) _ _
      λ fine. Meets-ok _ _ _ (assigned (not (has_value service.access) && access.enabled) refl fine)
  where
    assigned :
        (b : Bool)
        → (not (has_value service.access) && access.enabled) ≡ b
        → (has_value service.access && not access.enabled) ≡ false
        → has_value
            (if b then record service { access = some access.defaults.rpc } else service).access
          ≡ access.enabled
    assigned true e h = ground arith
    assigned false e h = ground arith

module _ (y : Yaml) where
  parse_each-Meets :
      {A : Type 0} (P : A → Type 0) (parse : y.Node → Where → Parsed A)
      → ((node : y.Node) (path : Where) → Meets P Anything (parse node path))
      → (path : Where) (i : ℕ) (nodes : List y.Node)
      → Meets (All P) Anything (parse_each y parse path i nodes)
  unfolding parse_each
  parse_each-Meets P parse each path i [] = Meets-ok _ _ _ tt
  parse_each-Meets P parse each path i (node ∷ nodes) =
      Meets-bind _ _ _ (parse node (element path i)) _ (each node (element path i)) λ value p.
        Meets-bind _ _ _ (parse_each y parse path (i + 1) nodes) _
          (parse_each-Meets P parse each path (i + 1) nodes) λ rest ps. Meets-ok _ _ _ (p, ps)

  pub optional-Meets :
      {A : Type 0} (P : A → Type 0) (parse : y.Node → Where → Parsed A) (node : y.Node)
      (path : Where) (name : String) (value : A)
      → ((child : y.Node) (inner : Where) → Meets P Anything (parse child inner))
      → P value
      → Meets P Anything (optional y parse node path name value)
  unfolding optional
  optional-Meets P parse node path name value each h =
      Meets-if _ _ (y.is_defined (y.get node name)) _ _ (each _ _) (Meets-ok _ _ _ h)

  pub parse_services-Meets :
      (access : AccessConfig) (node : y.Node) (path : Where)
      → Meets (All (HasAccess access)) Anything (parse_services y access node path)
  unfolding parse_services parse_service
  parse_services-Meets access node path =
      Meets-bind _ _ _ (require_sequence y node path) _ (Meets-any _) λ sequence _.
        parse_each-Meets (HasAccess access) (parse_service y access)
          (λ child inner.
            Meets-bind _ _ _ (parse_rpc_service y child inner) _ (Meets-any _)
              λ service _. service_access-Meets access inner service)
          path 0 (y.items sequence)

  pub parse_alarms-Meets :
      (root : y.Node) (backends : Backends) (legacy : Bool)
      → Meets
          (λ alarms. has_backend alarms.backend backends ≡ true)
          Anything
          (parse_alarms y root backends legacy)
  unfolding parse_alarms refuse
  parse_alarms-Meets root backends legacy =
      Meets-bind _ _ _ (optional y (parse_alarm_stream y) root root_path "alarms" _) _ (Meets-any _)
        λ alarms _. Meets-fail_if _ (str_eq alarms.stream "") _ _ λ _.
          Meets-bind _ _ _
            (resolve_backend_alias alarms.backend (below (below root_path "alarms") "backend")
              backends legacy)
            _ (resolve_backend_alias-Meets alarms.backend _ backends legacy)
            λ backend h. Meets-ok _ _ _ h
