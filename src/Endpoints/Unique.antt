-- ===== src/Endpoints/Unique.antt =====
-- Of the namespace that include/redis_pvxs_ioc/endpoints.h builds: which names it has, each once.
use redis_pvxs_ioc.Prelude.{
  ℕ, ◌+◌, ◌≤◌, String, ◌≡◌, refl, sym, ap, ◌∙◌, Bool, false, Option, none, some, List, [], ◌∷◌,
  ◌++◌, arith, bit, str_eq, eq_iff,
}
use mathlib.Core.Path.{subst}
use mathlib.Core.List.{append_assoc, append-nil}
use redis_pvxs_ioc.Prelude.Results.{Result, ok, Ensures, Ensures-ok, Ensures-bind, fail_if, ◌>>=◌}
use redis_pvxs_ioc.Config.{ServerConfig, PvConfig}
use redis_pvxs_ioc.Endpoints.{
  EndpointKind, EndpointReservation, EndpointError, EndpointRegistry, Place, bad_name, is_bad, find,
  reserve_found, reserve, full_pv_names, admin_pv_names, reserve_diagnostics, reserve_aliases,
  add_pv, add_pvs, configured_endpoints,
}

-- The names, in the order in which they were reserved.
unfoldable pub names_of : EndpointRegistry → List String
names_of [] = []
names_of ((name, entry) ∷ rest) = name ∷ names_of rest

unfoldable pub occurrences : String → List String → ℕ
occurrences name [] = 0
occurrences name (key ∷ keys) = bit (str_eq key name) + occurrences name keys

-- No name stands twice, and each is neither empty nor has a NUL.
pub record IsNamespace (names : List String) : Type 0 where
  pub once : (name : String) → occurrences name names ≤ 1
  pub good : (name : String) → 1 ≤ occurrences name names → is_bad name ≡ false

pub record Extends (before : EndpointRegistry) (added : List String) (after : EndpointRegistry)
    : Type 0 where
  pub names : names_of after ≡ names_of before ++ added
  pub keeps : IsNamespace (names_of before) → IsNamespace (names_of after)

names_of-append :
    (entries : EndpointRegistry) (name : String) (entry : EndpointReservation)
    → names_of (entries ++ (name, entry) ∷ []) ≡ names_of entries ++ name ∷ []
unfolding names_of
names_of-append [] name entry = refl
names_of-append ((key, first) ∷ rest) name entry =
    ap (λ l. key ∷ l) (names_of-append rest name entry)

occurrences-append :
    (name last : String) (names : List String)
    → occurrences name (names ++ last ∷ []) ≡ occurrences name names + bit (str_eq last name)
unfolding occurrences
occurrences-append name last [] = omega arith
occurrences-append name last (key ∷ keys) = omega (arith, occurrences-append name last keys)

occurrences-find :
    (name : String) (entries : EndpointRegistry)
    → find name entries ≡ none
    → occurrences name (names_of entries) ≡ 0
unfolding occurrences find names_of
occurrences-find name [] h = refl
occurrences-find name ((key, entry) ∷ rest) h = ground (arith, occurrences-find name rest)

append_one-IsNamespace :
    (name : String) (names : List String)
    → is_bad name ≡ false
    → occurrences name names ≡ 0
    → IsNamespace names
    → IsNamespace (names ++ name ∷ [])
append_one-IsNamespace name names ok_ fresh v = record {
  once = λ n. ground (arith, occurrences-append n name names, v.once n, eq_iff name n);
  good = λ n h. ground (arith, occurrences-append n name names, v.good n, eq_iff name n);
}

good_of_fail_if :
    (bad : Bool) (e : EndpointError) (u : Unit {0}) → fail_if bad e ≡ ok u → bad ≡ false
good_of_fail_if bad e u h = ground arith

reserve_found-Extends :
    (name : String) (entry : EndpointReservation) (place : Place) (before : EndpointRegistry)
    → is_bad name ≡ false
    → (found : Option EndpointReservation) → find name before ≡ found
    → Ensures (Extends before (name ∷ [])) (reserve_found place name entry found before)
unfolding reserve_found
reserve_found-Extends name entry place before good none h = Ensures-ok _ _ (record {
  names = names_of-append before name entry;
  keeps = λ v.
      subst IsNamespace (sym (names_of-append before name entry))
        (append_one-IsNamespace name (names_of before) good (occurrences-find name before h) v);
})
reserve_found-Extends name entry place before good (some other) h = record {
  at = λ b e. absurd (cc e);
}

reserve-Extends :
    (name : String) (kind : EndpointKind) (owner : String) (place : Place)
    (before : EndpointRegistry)
    → Ensures (Extends before (name ∷ [])) (reserve name kind owner place before)
unfolding reserve
reserve-Extends name kind owner place before =
    Ensures-bind _ (fail_if (is_bad name) (bad_name place)) _ λ u e.
      reserve_found-Extends name _ place before (good_of_fail_if _ _ u e) (find name before) refl

pub Extends-trans :
    {a b c : EndpointRegistry} {xs ys : List String}
    → Extends a xs b
    → Extends b ys c
    → Extends a (xs ++ ys) c
Extends-trans {a} {b} {c} {xs} {ys} f g = record {
  names = g.names ∙ ap (λ l. l ++ ys) f.names ∙ append_assoc (names_of a) xs ys;
  keeps = λ v. g.keeps (f.keeps v);
}

Extends-none : (a : EndpointRegistry) → Extends a [] a
Extends-none a = record { names = sym (append-nil (names_of a)); keeps = λ v. v }

-- One step of a loop, and then the rest of it.
Extends-step :
    {before : EndpointRegistry} {xs ys : List String} (m : Result EndpointError EndpointRegistry)
    (rest : EndpointRegistry → Result EndpointError EndpointRegistry)
    → Ensures (Extends before xs) m
    → ((after : EndpointRegistry) → Ensures (Extends after ys) (rest after))
    → Ensures (Extends before (xs ++ ys)) (m >>= rest)
Extends-step m rest first then_ =
    Ensures-bind _ m _
      λ after e. record { at = λ c h. Extends-trans (first.at after e) ((then_ after).at c h) }

pub reserve_diagnostics-Extends :
    (names : List String) (before : EndpointRegistry)
    → Ensures (Extends before names) (reserve_diagnostics names before)
unfolding reserve_diagnostics
reserve_diagnostics-Extends [] before = Ensures-ok _ _ (Extends-none before)
reserve_diagnostics-Extends (name ∷ names) before =
    Extends-step _ _ (reserve-Extends name _ _ _ before) (reserve_diagnostics-Extends names)

reserve_aliases-Extends :
    (owner : String) (i j : ℕ) (names : List String) (before : EndpointRegistry)
    → Ensures (Extends before names) (reserve_aliases owner i j names before)
unfolding reserve_aliases
reserve_aliases-Extends owner i j [] before = Ensures-ok _ _ (Extends-none before)
reserve_aliases-Extends owner i j (name ∷ names) before =
    Extends-step _ _ (reserve-Extends name _ _ _ before)
      (reserve_aliases-Extends owner i (j + 1) names)

pub add_pv-Extends :
    {N : Type 0} (server : ServerConfig) (i : ℕ) (pv : PvConfig N) (before : EndpointRegistry)
    → Ensures (Extends before (full_pv_names server pv)) (add_pv server i pv before)
unfolding add_pv full_pv_names
add_pv-Extends server i pv before =
    Extends-step _ _ (reserve-Extends _ _ _ _ before) (reserve_aliases-Extends _ i 0 pv.aliases)

-- The names that a list of PVs asks for.
unfoldable pub asked : {N : Type 0} → ServerConfig → List (PvConfig N) → List String
asked server [] = []
asked server (pv ∷ pvs) = full_pv_names server pv ++ asked server pvs

add_pvs-Extends :
    {N : Type 0} (server : ServerConfig) (i : ℕ) (pvs : List (PvConfig N))
    (before : EndpointRegistry)
    → Ensures (Extends before (asked server pvs)) (add_pvs server i pvs before)
unfolding add_pvs asked
add_pvs-Extends server i [] before = Ensures-ok _ _ (Extends-none before)
add_pvs-Extends server i (pv ∷ pvs) before =
    Extends-step _ _ (add_pv-Extends server i pv before) (add_pvs-Extends server (i + 1) pvs)

pub empty-IsNamespace : IsNamespace []
unfolding occurrences
empty-IsNamespace = record { once = λ n. omega arith; good = λ n h. absurd (omega arith) }

-- A namespace that is accepted has the diagnostic names, and each PV's name with its aliases behind
-- it, in the order of the configuration and nothing else. None stands twice, and none is empty or has
-- a NUL.
pub configured_endpoints-IsNamespace :
    {N : Type 0} (server : ServerConfig) (pvs : List (PvConfig N)) (entries : EndpointRegistry)
    → configured_endpoints server pvs ≡ ok entries
    → (names_of entries ≡ admin_pv_names server ++ asked server pvs)
      × IsNamespace (names_of entries)
unfolding configured_endpoints names_of
configured_endpoints-IsNamespace server pvs entries h =
    let built =
      (Extends-step _ _ (reserve_diagnostics-Extends (admin_pv_names server) [])
          (add_pvs-Extends server 0 pvs)).at
        entries h in
    (built.names, built.keeps empty-IsNamespace)
