-- ===== src/Acf/Parser/Groups.antt =====
-- What holds of a policy that `AcfSubsetParser` of src/access_control.cpp accepts.
use mathlib.Core.Path.{subst}
use redis_pvxs_ioc.Prelude.{
  ℕ, zero, suc, ◌≡◌, refl, sym, true, false, ◌||◌, not, List, [], ◌∷◌, ◌++◌, arith, All, length,
  if_cases,
}
use redis_pvxs_ioc.Prelude.Results.{
  ok, Meets, Meets-bind, Meets-ok, Meets-mono, Meets-if, Meets-branch, Meets-any, Meets-fail_if,
  Meets-err, Meets-at, Anything, >>=-eq-ok,
}
use redis_pvxs_ioc.Prelude.Bytes.{Bytes, bytes, same_bytes, same_bytes_refl}
use redis_pvxs_ioc.Acf.{Token}
use redis_pvxs_ioc.Acf.Parser.{
  uag, hag, Reference, AcfSubsetParser, Parses, contains, done, peek, reject_deferred, upper,
}
use redis_pvxs_ioc.Acf.Parser.Lists.{parse_named_list, groups_of}
use redis_pvxs_ioc.Acf.Parser.Rules.{
  definition, parse_asg, parse_groups, check_references, with_default, start, parse,
}

-- No name stands twice.
unfoldable pub IsOnce : List Bytes → Type 0
unfolding contains
IsOnce [] = Unit
IsOnce (x ∷ xs) = (contains x xs ≡ false) × IsOnce xs

same_bytes_sym : (a b : Bytes) → same_bytes a b ≡ same_bytes b a
unfolding same_bytes
same_bytes_sym [] [] = refl
same_bytes_sym [] (y ∷ ys) = refl
same_bytes_sym (x ∷ xs) [] = refl
same_bytes_sym (x ∷ xs) (y ∷ ys) = ground (arith, same_bytes_sym xs ys)

contains-append :
    (name last : Bytes) (names : List Bytes)
    → contains name (names ++ last ∷ []) ≡ (contains name names || same_bytes last name)
unfolding contains
contains-append name last [] = ground arith
contains-append name last (x ∷ xs) = ground (arith, contains-append name last xs)

append-IsOnce :
    (names : List Bytes) (last : Bytes)
    → IsOnce names
    → contains last names ≡ false
    → IsOnce (names ++ last ∷ [])
unfolding IsOnce contains
append-IsOnce [] last v h = (refl, tt)
append-IsOnce (x ∷ xs) last v h = (
  ground (arith, v.0, h, contains-append x last xs, same_bytes_sym x last),
  append-IsOnce xs last v.1 (ground (arith, h)),
)

abbrev GroupsOnce : Parses (List Bytes) → Type 0
GroupsOnce r = Meets (λ x. IsOnce x.0) Anything r

nothing_twice : IsOnce []
unfolding IsOnce
nothing_twice = tt

definition-IsOnce :
    (groups : List Bytes) (token : Token) (p : AcfSubsetParser)
    → IsOnce groups
    → GroupsOnce (definition groups token p)
unfolding definition
definition-IsOnce groups token p v =
    Meets-if _ _ (same_bytes (upper token.text) (bytes "UAG")) _ _
      (Meets-bind _ _ _ (parse_named_list uag p) _ (Meets-any _) λ p1 _. Meets-ok _ _ _ v)
      (Meets-if _ _ (same_bytes (upper token.text) (bytes "HAG")) _ _
        (Meets-bind _ _ _ (parse_named_list hag p) _ (Meets-any _) λ p1 _. Meets-ok _ _ _ v)
        (Meets-if _ _ (same_bytes (upper token.text) (bytes "ASG")) _ _
          (Meets-bind _ _ _ (parse_asg p) _ (Meets-any _) λ x _.
            Meets-fail_if _ (contains x.0 groups) _ _
              λ new. Meets-ok _ _ _ (append-IsOnce groups x.0 v new))
          (Meets-err _ _)))

parse_groups-IsOnce :
    (fuel : ℕ) (groups : List Bytes) (p : AcfSubsetParser)
    → IsOnce groups
    → GroupsOnce (parse_groups fuel groups p)
unfolding parse_groups
parse_groups-IsOnce zero groups p v = Meets-err _ _
parse_groups-IsOnce (suc fuel) groups p v = Meets-branch _ _ (done p) _ _ (Meets-ok _ _ _ v) (
    Meets-bind _ _ _ (peek p) _ (Meets-any _) λ token _.
      Meets-bind _ _ _ (reject_deferred token) _ (Meets-any _) λ _ _.
        Meets-bind _ _ _ (definition groups token p) _ (definition-IsOnce groups token p v)
          λ x v1. parse_groups-IsOnce fuel x.0 x.1 v1)

-- A condition's reference names a group of its kind.
abbrev pub IsDefined : AcfSubsetParser → Reference → Type 0
IsDefined p r = contains r.name (groups_of r.kind p) ≡ true

check_references-IsDefined :
    (p : AcfSubsetParser) (refs : List Reference)
    → Meets (λ u. All (IsDefined p) refs) Anything (check_references p refs)
unfolding check_references
check_references-IsDefined p [] = Meets-ok _ _ _ tt
check_references-IsDefined p (r ∷ rs) =
    Meets-fail_if _ (not (contains r.name (groups_of r.kind p))) _ _ λ known.
      Meets-mono _ _ _ (check_references p rs) (check_references-IsDefined p rs)
        λ u rest. (ground (arith, known), rest)

with_default-IsOnce : (groups : List Bytes) → IsOnce groups → IsOnce (with_default groups)
unfolding with_default
with_default-IsOnce groups v =
    if_cases IsOnce _ _ _ (λ _. v) (λ new. append-IsOnce groups (bytes "DEFAULT") v new)

contains-with_default :
    (groups : List Bytes) → contains (bytes "DEFAULT") (with_default groups) ≡ true
unfolding with_default
contains-with_default groups =
    if_cases (λ g. contains (bytes "DEFAULT") g ≡ true) (contains (bytes "DEFAULT") groups) groups
      (groups ++ bytes "DEFAULT" ∷ []) (λ there. there)
      λ new. ground (
        arith,
        contains-append (bytes "DEFAULT") (bytes "DEFAULT") groups,
        same_bytes_refl (bytes "DEFAULT"),
      )

-- The groups of a policy that is accepted stand once each, with DEFAULT among them; and when its text
-- was read, every user or host group that a rule refers to had a definition.
pub parse-groups :
    (tokens : List Token) (groups : List Bytes)
    → parse tokens ≡ ok groups
    → IsOnce groups
      × (contains (bytes "DEFAULT") groups ≡ true)
      × ((found : List Bytes) × (p : AcfSubsetParser) × (parse_groups
              (suc (length tokens))
              []
              (start tokens)
            ≡ ok (found, p))
          × (groups ≡ with_default found)
          × All (IsDefined p) p.references)
unfolding parse
parse-groups tokens groups h =
    let ((found, p), read, h1) =
      >>=-eq-ok (parse_groups (suc (length tokens)) [] (start tokens)) _ h in
    let (u, checked, h2) = >>=-eq-ok (check_references p p.references) _ h1 in
    let same : with_default found ≡ groups = ground (arith, h2) in
    let once =
      Meets-at _ _ _ _ (parse_groups-IsOnce (suc (length tokens)) [] (start tokens) nothing_twice)
        read in
    (
      subst IsOnce same (with_default-IsOnce found once),
      subst (λ g. contains (bytes "DEFAULT") g ≡ true) same (contains-with_default found),
      (
        found,
        p,
        read,
        sym same,
        Meets-at _ _ _ _ (check_references-IsDefined p p.references) checked,
      ),
    )
