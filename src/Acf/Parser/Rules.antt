-- ===== src/Acf/Parser/Rules.antt =====
-- The rules and groups of `AcfSubsetParser`, and the whole of a policy, in src/access_control.cpp.
use redis_pvxs_ioc.Prelude.{
  ℕ, zero, suc, Bool, true, false, not, ◌&&◌, ◌||◌, List, [], ◌∷◌, ◌++◌, if◌then◌else◌, length,
}
use redis_pvxs_ioc.Prelude.Results.{Result, ok, err, ◌>>=◌, ◌>>◌, fail_if}
use redis_pvxs_ioc.Prelude.Bytes.{Bytes, bytes, same_bytes}
use redis_pvxs_ioc.Acf.{
  Token, AcfError, duplicate, unknown_construct, only_rule, bad_level, bad_permission, bad_option,
  only_conditions, undefined_group, at, out_of_fuel, tokenize_acf,
}
use redis_pvxs_ioc.Acf.Parser.{
  GroupKind, Reference, AcfSubsetParser, Parses, Moves, upper, keyword_of, contains, done, peek,
  take, expect, next_is, name, reject_deferred, is_keyword, uag, hag,
}
use redis_pvxs_ioc.Acf.Parser.Lists.{call_names, definition_name, groups_of, parse_named_list}

unfoldable pub condition_kind : Token → Result AcfError GroupKind
unfolding upper same_bytes
condition_kind token =
    if same_bytes (upper token.text) (keyword_of uag)
    then ok uag
    else if same_bytes (upper token.text) (keyword_of hag)
    then ok hag
    else err (at token only_conditions)

unfoldable pub refer : GroupKind → Token → List Bytes → List Reference
refer kind token [] = []
refer kind token (name ∷ names) =
    record { kind = kind; name = name; token = token } ∷ refer kind token names

-- UAG(...) or HAG(...)
unfoldable pub condition : AcfSubsetParser → Moves
unfolding peek reject_deferred condition_kind call_names refer
condition p = do
  token ← peek p
  reject_deferred token
  kind ← condition_kind token
  (names, p1) ← call_names (keyword_of kind) p
  ok (record p1 { references = p1.references ++ refer kind token names })

unfoldable pub conditions : ℕ → AcfSubsetParser → Moves
unfolding next_is condition
conditions zero p = err out_of_fuel
conditions (suc fuel) p = do
  closed ← next_is (bytes "}") p
  elim closed [ true ↦ ok p | false ↦ do p1 ← condition p; conditions fuel p1 ]

unfoldable pub is_level : Token → Bool
unfolding same_bytes
is_level token =
    not token.quoted && (same_bytes token.text (bytes "0") || same_bytes token.text (bytes "1"))

unfoldable pub is_permission : Token → Bool
unfolding is_keyword
is_permission token =
    is_keyword (bytes "NONE") token
    || (is_keyword (bytes "READ") token || is_keyword (bytes "WRITE") token)

unfoldable pub is_option : Token → Bool
unfolding is_keyword
is_option token = is_keyword (bytes "TRAPWRITE") token || is_keyword (bytes "NOTRAPWRITE") token

-- , TRAPWRITE or , NOTRAPWRITE
unfoldable pub rule_option : AcfSubsetParser → Moves
unfolding take name is_option
rule_option p = do
  (comma, p1) ← take p
  (trap, p2) ← name p1
  fail_if (not (is_option trap)) (at trap bad_option)
  ok p2

-- !done() && peek().text == "{"
unfoldable pub opens : List Token → Bool
unfolding same_bytes
opens [] = false
opens (token ∷ rest) = same_bytes token.text (bytes "{")

unfoldable pub rule_body : AcfSubsetParser → Moves
unfolding take conditions expect
rule_body p = do
  (brace, p1) ← take p
  p2 ← conditions (suc (length p1.left)) p1
  expect (bytes "}") p2

unfoldable pub parse_rule : AcfSubsetParser → Moves
unfolding take reject_deferred is_keyword expect name is_level is_permission next_is rule_option
    opens rule_body
parse_rule p = do
  (rule, p1) ← take p
  reject_deferred rule
  fail_if (not (is_keyword (bytes "RULE") rule)) (at rule only_rule)
  p2 ← expect (bytes "(") p1
  (level, p3) ← name p2
  fail_if (not (is_level level)) (at level bad_level)
  p4 ← expect (bytes ",") p3
  (permission, p5) ← name p4
  fail_if (not (is_permission permission)) (at permission bad_permission)
  more ← next_is (bytes ",") p5
  p6 ← elim more [ true ↦ rule_option p5 | false ↦ ok p5 ]
  p7 ← expect (bytes ")") p6
  elim (opens p7.left) [ true ↦ rule_body p7 | false ↦ ok p7 ]

unfoldable pub rules : ℕ → AcfSubsetParser → Moves
unfolding next_is parse_rule
rules zero p = err out_of_fuel
rules (suc fuel) p = do
  closed ← next_is (bytes "}") p
  elim closed [ true ↦ ok p | false ↦ do p1 ← parse_rule p; rules fuel p1 ]

unfoldable pub parse_asg : AcfSubsetParser → Parses Bytes
unfolding definition_name expect rules
parse_asg p = do
  (group, p1) ← definition_name (bytes "ASG") p
  p2 ← expect (bytes "{") p1
  p3 ← rules (suc (length p2.left)) p2
  p4 ← expect (bytes "}") p3
  ok (group, p4)

-- One definition of the policy, by the keyword that stands next.
unfoldable pub definition : List Bytes → Token → AcfSubsetParser → Parses (List Bytes)
unfolding upper same_bytes parse_named_list parse_asg contains
definition groups token p =
    if same_bytes (upper token.text) (bytes "UAG")
    then (do p1 ← parse_named_list uag p; ok (groups, p1))
    else if same_bytes (upper token.text) (bytes "HAG")
    then (do p1 ← parse_named_list hag p; ok (groups, p1))
    else if same_bytes (upper token.text) (bytes "ASG")
    then (do
      (group, p1) ← parse_asg p
      fail_if (contains group groups) (at p1.last (duplicate (bytes "ASG") group))
      ok (groups ++ group ∷ [], p1))
    else err (at token unknown_construct)

unfoldable pub parse_groups : ℕ → List Bytes → AcfSubsetParser → Parses (List Bytes)
unfolding done peek reject_deferred definition
parse_groups zero groups p = err out_of_fuel
parse_groups (suc fuel) groups p = elim (done p) [
  | true ↦ ok (groups, p)
  | false ↦ do
    token ← peek p
    reject_deferred token
    (groups1, p1) ← definition groups token p
    parse_groups fuel groups1 p1
]

unfoldable pub check_references : AcfSubsetParser → List Reference → Result AcfError (Unit {0})
unfolding contains
check_references p [] = ok tt
check_references p (r ∷ rs) = do
  fail_if (not (contains r.name (groups_of r.kind p)))
      (at r.token (undefined_group (keyword_of r.kind) r.name))
  check_references p rs

-- groups.insert("DEFAULT")
unfoldable pub with_default : List Bytes → List Bytes
unfolding contains
with_default groups =
    if contains (bytes "DEFAULT") groups then groups else groups ++ bytes "DEFAULT" ∷ []

abbrev pub no_token : Token
no_token = record { text = []; line = 1; column = 1; quoted = false }

abbrev pub start : List Token → AcfSubsetParser
start tokens = record { left = tokens; last = no_token; uags = []; hags = []; references = [] }

unfoldable pub parse : List Token → Result AcfError (List Bytes)
unfolding parse_groups check_references with_default
parse tokens = do
  (groups, p) ← parse_groups (suc (length tokens)) [] (start tokens)
  check_references p p.references
  ok (with_default groups)

unfoldable pub inspect_acf : Bytes → Result AcfError (List Bytes)
unfolding tokenize_acf parse
inspect_acf text = do tokens ← tokenize_acf text; parse tokens
