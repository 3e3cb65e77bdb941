-- ===== src/ConfigParser/Serve/Keys.antt =====
-- The keys that the loop of `parseConfig` (src/config.cpp) subscribes to.
use redis_pvxs_ioc.Prelude.{
  ℕ, ◌+◌, ◌≤◌, ◌≡◌, String, refl, Bool, true, false, not, ◌&&◌, ◌||◌, Option, none, some, List, [],
  ◌∷◌, ◌++◌, if◌then◌else◌, str_eq, bit, arith, eq_iff,
}
use redis_pvxs_ioc.Prelude.Results.{ok, Meets, Meets-ok, Meets-fail_if, Anything}
use redis_pvxs_ioc.Config.{RouteConfig, ConfirmConfig, PvConfig}
use redis_pvxs_ioc.ConfigParser.{Where, refuse}
use redis_pvxs_ioc.ConfigParser.Serve.{is_subscribed, subscribe, subscribe_confirm}

unfoldable pub count_key : String → String → List (String × String) → ℕ
count_key backend name [] = 0
count_key backend name ((b, n) ∷ rest) =
    bit (str_eq b backend && str_eq n name) + count_key backend name rest

abbrev pub IsOnce : List (String × String) → Type 0
IsOnce keys = (backend name : String) → count_key backend name keys ≤ 1

-- A confirmation has a key of its own where it is read from another place than the value.
unfoldable pub confirm_keys : RouteConfig → Option ConfirmConfig → List (String × String)
confirm_keys read none = []
confirm_keys read (some confirm) =
    if not (str_eq confirm.backend read.backend) || not (str_eq confirm.key read.key)
    then (confirm.backend, confirm.key) ∷ []
    else []

-- The keys that a list of PVs asks for.
unfoldable pub asked_keys : {N : Type 0} → List (PvConfig N) → List (String × String)
unfolding confirm_keys
asked_keys [] = []
asked_keys (pv ∷ pvs) =
    (pv.read.backend, pv.read.key) ∷ confirm_keys pv.read pv.confirm ++ asked_keys pvs

pub record Adds (before added after : List (String × String)) : Type 0 where
  pub counts : (b n : String) → count_key b n after ≡ count_key b n before + count_key b n added
  pub keeps : IsOnce before → IsOnce after

pub count_key-append :
    (b n : String) (xs ys : List (String × String))
    → count_key b n (xs ++ ys) ≡ count_key b n xs + count_key b n ys
unfolding count_key
count_key-append b n [] ys = omega arith
count_key-append b n ((b1, n1) ∷ xs) ys = omega (arith, count_key-append b n xs ys)

count_key-is_subscribed :
    (b n : String) (keys : List (String × String))
    → is_subscribed b n keys ≡ false
    → count_key b n keys ≡ 0
unfolding is_subscribed count_key
count_key-is_subscribed b n [] h = refl
count_key-is_subscribed b n ((b1, n1) ∷ keys) h = ground (arith, count_key-is_subscribed b n keys)

pub subscribe-Adds :
    (b n : String) (path : Where) (keys : List (String × String))
    → Meets (Adds keys ((b, n) ∷ [])) Anything (subscribe b n path keys)
unfolding subscribe refuse count_key
subscribe-Adds b n path keys = Meets-fail_if _ (is_subscribed b n keys) _ _ λ fresh.
    Meets-ok _ _ _ (record {
      counts = λ b1 n1. omega arith;
      keeps = λ v b1 n1.
          ground (arith, count_key-is_subscribed b n keys fresh, v b1 n1, eq_iff b b1, eq_iff n n1);
    })

pub Adds-none : (keys : List (String × String)) → Adds keys [] keys
unfolding count_key
Adds-none keys = record { counts = λ b n. omega arith; keeps = λ v. v }

pub Adds-trans :
    {a b c xs ys : List (String × String)} → Adds a xs b → Adds b ys c → Adds a (xs ++ ys) c
Adds-trans {a} {b} {c} {xs} {ys} f g = record {
  counts = λ k n. omega (arith, f.counts k n, g.counts k n, count_key-append k n xs ys);
  keeps = λ v. g.keeps (f.keeps v);
}

pub subscribe_confirm-Adds :
    (read : RouteConfig) (confirm : Option ConfirmConfig) (path : Where)
    (keys : List (String × String))
    → Meets
        (Adds keys (confirm_keys read confirm))
        Anything
        (subscribe_confirm read confirm path keys)
unfolding subscribe_confirm confirm_keys
subscribe_confirm-Adds read none path keys = Meets-ok _ _ _ (Adds-none keys)
subscribe_confirm-Adds read (some confirm) path keys =
    subscribe_if (not (str_eq confirm.backend read.backend) || not (str_eq confirm.key read.key))
  where
    subscribe_if :
        (own : Bool)
        → Meets
            (Adds keys (if own then (confirm.backend, confirm.key) ∷ [] else []))
            Anything
            (if own then subscribe confirm.backend confirm.key path keys else ok keys)
    subscribe_if true = subscribe-Adds confirm.backend confirm.key path keys
    subscribe_if false = Meets-ok _ _ _ (Adds-none keys)
