-- ===== src/Acf/Parser/Lists.antt =====
-- The lists of names and the user and host groups of `AcfSubsetParser`, in src/access_control.cpp.
use redis_pvxs_ioc.Prelude.{ℕ, zero, suc, true, false, not, List, [], ◌∷◌, ◌++◌, length}
use redis_pvxs_ioc.Prelude.Results.{ok, err, ◌>>=◌, ◌>>◌, fail_if}
use redis_pvxs_ioc.Prelude.Bytes.{Bytes, bytes}
use redis_pvxs_ioc.Acf.{expected, one_name, duplicate, at, out_of_fuel}
use redis_pvxs_ioc.Acf.Parser.{
  GroupKind, AcfSubsetParser, Parses, Moves, keyword_of, contains, take, expect, next_is, name,
  reject_deferred, is_keyword, uag, hag,
}

-- `, name` any number of times
unfoldable pub more_names : ℕ → AcfSubsetParser → Parses (List Bytes)
unfolding next_is take name
more_names zero p = err out_of_fuel
more_names (suc fuel) p = do
  more ← next_is (bytes ",") p
  elim more [
    | false ↦ ok ([], p)
    | true ↦ do
      (comma, p1) ← take p
      (token, p2) ← name p1
      (rest, p3) ← more_names fuel p2
      ok (token.text ∷ rest, p3)
  ]

unfoldable pub call_names : Bytes → AcfSubsetParser → Parses (List Bytes)
unfolding take reject_deferred is_keyword expect name more_names
call_names keyword p = do
  (actual, p1) ← take p
  reject_deferred actual
  fail_if (not (is_keyword keyword actual)) (at actual (expected keyword))
  p2 ← expect (bytes "(") p1
  (first, p3) ← name p2
  (rest, p4) ← more_names (suc (length p3.left)) p3
  p5 ← expect (bytes ")") p4
  ok (first.text ∷ rest, p5)

unfoldable pub the_name : Bytes → List Bytes → AcfSubsetParser → Parses Bytes
the_name keyword (one ∷ []) p = ok (one, p)
the_name keyword _ p = err (at p.last (one_name keyword))

unfoldable pub definition_name : Bytes → AcfSubsetParser → Parses Bytes
unfolding call_names the_name
definition_name keyword p = do (names, p1) ← call_names keyword p; the_name keyword names p1

abbrev pub groups_of : GroupKind → AcfSubsetParser → List Bytes
groups_of uag p = p.uags
groups_of hag p = p.hags

unfoldable pub define : GroupKind → Bytes → AcfSubsetParser → AcfSubsetParser
define uag definition p = record p { uags = p.uags ++ definition ∷ [] }
define hag definition p = record p { hags = p.hags ++ definition ∷ [] }

-- definitions.insert(definition)
unfoldable pub insert_group : GroupKind → Bytes → AcfSubsetParser → Moves
unfolding contains define
insert_group kind definition p = do
  fail_if (contains definition (groups_of kind p))
      (at p.last (duplicate (keyword_of kind) definition))
  ok (define kind definition p)

-- The loop over the members of a group, which are read and dropped.
unfoldable pub members : ℕ → AcfSubsetParser → Moves
unfolding name next_is expect
members zero p = err out_of_fuel
members (suc fuel) p = do
  (member, p1) ← name p
  closed ← next_is (bytes "}") p1
  elim closed [ true ↦ ok p1 | false ↦ do p2 ← expect (bytes ",") p1; members fuel p2 ]

unfoldable pub parse_named_list : GroupKind → AcfSubsetParser → Moves
unfolding definition_name insert_group expect next_is members
parse_named_list kind p = do
  (definition, p1) ← definition_name (keyword_of kind) p
  p2 ← insert_group kind definition p1
  p3 ← expect (bytes "{") p2
  closed ← next_is (bytes "}") p3
  p4 ← elim closed [ true ↦ ok p3 | false ↦ members (suc (length p3.left)) p3 ]
  expect (bytes "}") p4
