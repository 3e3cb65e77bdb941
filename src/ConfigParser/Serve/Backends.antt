-- ===== src/ConfigParser/Serve/Backends.antt =====
-- The backends that the routes of an accepted configuration name (src/config.cpp).
use redis_pvxs_ioc.Prelude.{
  ◌≡◌, String, refl, Bool, true, false, not, ◌&&◌, Option, none, some, List, [], ◌∷◌, if◌then◌else◌,
  str_eq, arith, eq_iff,
}
use redis_pvxs_ioc.Prelude.Results.{
  Meets, Meets-bind, Meets-ok, Meets-fail_if, Meets-err, Meets-if, Anything,
}
use redis_pvxs_ioc.Config.{RedisConfig, RouteConfig, ConfirmConfig, PvConfig}
use redis_pvxs_ioc.ConfigParser.{Where, refuse, below}
use redis_pvxs_ioc.ConfigParser.Redis.{has_backend, only_backend, resolve_backend_alias}
use redis_pvxs_ioc.ConfigParser.Pv.Definition.{has_value}
use redis_pvxs_ioc.ConfigParser.Serve.{
  Setting, resolve_route, resolve_write, resolve_confirm, resolve_access, resolve_pv,
}

abbrev pub Backends : Type 0
Backends = List (String × RedisConfig)

unfoldable pub write_has_backend : Backends → Option RouteConfig → Bool
write_has_backend backends none = true
write_has_backend backends (some route) = has_backend route.backend backends

unfoldable pub confirm_has_backend : Backends → Option ConfirmConfig → Bool
confirm_has_backend backends none = true
confirm_has_backend backends (some confirm) = has_backend confirm.backend backends

-- Each route of a PV names a backend that is configured, and the PV has an access assignment where
-- access is controlled, and only there.
pub record IsResolved {N : Type 0} (backends : Backends) (controlled : Bool) (pv : PvConfig N)
    : Type 0 where
  pub read : has_backend pv.read.backend backends ≡ true
  pub write : write_has_backend backends pv.write ≡ true
  pub confirm : confirm_has_backend backends pv.confirm ≡ true
  pub access : has_value pv.access ≡ controlled

pub only_backend-Meets :
    (path : Where) (backends : Backends)
    → Meets (λ alias. has_backend alias backends ≡ true) Anything (only_backend path backends)
unfolding only_backend has_backend
only_backend-Meets path [] = Meets-err _ _
only_backend-Meets path ((name, backend) ∷ []) = Meets-ok _ _ _ (ground (arith, eq_iff name name))
only_backend-Meets path (first ∷ second ∷ rest) = Meets-err _ _

-- An alias that is resolved names a configured backend.
pub resolve_backend_alias-Meets :
    (alias : String) (path : Where) (backends : Backends) (legacy : Bool)
    → Meets
        (λ name. has_backend name backends ≡ true)
        Anything
        (resolve_backend_alias alias path backends legacy)
unfolding resolve_backend_alias refuse
resolve_backend_alias-Meets alias path backends legacy =
    Meets-if _ _ (str_eq alias "") _ _ (only_backend-Meets path backends)
      (Meets-fail_if _ (not (has_backend _ backends)) _ _ λ known. Meets-ok _ _ _ (ground arith))

resolve_route-Meets :
    (setting : Setting) (path : Where) (route : RouteConfig)
    → Meets
        (λ r. has_backend r.backend setting.backends ≡ true)
        Anything
        (resolve_route setting path route)
unfolding resolve_route
resolve_route-Meets setting path route =
    Meets-bind _ _ _ (resolve_backend_alias route.backend _ setting.backends setting.legacy) _
      (resolve_backend_alias-Meets route.backend _ setting.backends setting.legacy)
      λ backend h. Meets-ok _ _ _ h

resolve_write-Meets :
    (setting : Setting) (path : Where) (write : Option RouteConfig)
    → Meets
        (λ r. write_has_backend setting.backends r ≡ true)
        Anything
        (resolve_write setting path write)
unfolding resolve_write write_has_backend
resolve_write-Meets setting path none = Meets-ok _ _ _ refl
resolve_write-Meets setting path (some route) =
    Meets-bind _ _ _ (resolve_route setting path route) _ (resolve_route-Meets setting path route)
      λ r h. Meets-ok _ _ _ h

resolve_confirm-Meets :
    (setting : Setting) (path : Where) (confirm : Option ConfirmConfig)
    → Meets
        (λ r. confirm_has_backend setting.backends r ≡ true)
        Anything
        (resolve_confirm setting path confirm)
unfolding resolve_confirm confirm_has_backend
resolve_confirm-Meets setting path none = Meets-ok _ _ _ refl
resolve_confirm-Meets setting path (some confirm) =
    Meets-bind _ _ _ (resolve_backend_alias confirm.backend _ setting.backends setting.legacy) _
      (resolve_backend_alias-Meets confirm.backend _ setting.backends setting.legacy)
      λ backend h. Meets-ok _ _ _ h

resolve_access-Meets :
    {N : Type 0} (setting : Setting) (path : Where) (pv : PvConfig N)
    → Meets
        (λ p. has_value p.access ≡ setting.access.enabled)
        Anything
        (resolve_access setting path pv)
unfolding resolve_access refuse has_value
resolve_access-Meets setting path pv =
    Meets-fail_if _ (has_value pv.access && not setting.access.enabled) _ _ λ fine.
      Meets-ok _ _ _ (assigned (not (has_value pv.access) && setting.access.enabled) refl fine)
  where
    assigned :
        (b : Bool)
        → (not (has_value pv.access) && setting.access.enabled) ≡ b
        → (has_value pv.access && not setting.access.enabled) ≡ false
        → has_value
            (if b then record pv { access = some setting.access.defaults.pv } else pv).access
          ≡ setting.access.enabled
    assigned true e h = ground arith
    assigned false e h = ground arith

pub resolve_pv-IsResolved :
    {N : Type 0} (setting : Setting) (path : Where) (pv : PvConfig N)
    → Meets
        (IsResolved setting.backends setting.access.enabled)
        Anything
        (resolve_pv setting path pv)
unfolding resolve_pv
resolve_pv-IsResolved setting path pv =
    Meets-bind _ _ _ (resolve_access setting path pv) _ (resolve_access-Meets setting path pv)
      λ pv1 a.
        Meets-bind _ _ _ (resolve_route setting (below path "read") pv1.read) _
          (resolve_route-Meets setting _ pv1.read)
          λ read h.
            Meets-bind _ _ _ (resolve_write setting (below path "write") pv1.write) _
              (resolve_write-Meets setting _ pv1.write)
              λ write k.
                Meets-bind _ _ _ (resolve_confirm setting (below path "confirm") pv1.confirm) _
                  (resolve_confirm-Meets setting _ pv1.confirm)
                  λ confirm l.
                    Meets-ok _ _ _ (record { read = h; write = k; confirm = l; access = a })
