-- ===== src/Acf/Parser/Whole.antt =====
-- The reading of rules, groups and whole policies by `AcfSubsetParser` of src/access_control.cpp ends.
use redis_pvxs_ioc.Prelude.{
  ℕ, zero, suc, ◌≤◌, ◌<◌, true, false, List, [], ◌∷◌, ◌++◌, arith, length, not,
}
use redis_pvxs_ioc.Prelude.Results.{
  ok, ◌>>=◌, ◌>>◌, fail_if, Meets-bind, Meets-ok, Meets-branch, Meets-if,
}
use redis_pvxs_ioc.Prelude.Bytes.{Bytes, bytes, same_bytes}
use redis_pvxs_ioc.Acf.{
  Token, at, only_rule, bad_level, bad_permission, bad_option, only_conditions, duplicate,
  undefined_group, unknown_construct,
}
use redis_pvxs_ioc.Acf.Parser.{
  GroupKind, uag, hag, Reference, AcfSubsetParser, peek, take, expect, next_is, name,
  reject_deferred, keyword_of, is_keyword, contains, done, upper,
}
use redis_pvxs_ioc.Acf.Parser.Lists.{call_names, definition_name, parse_named_list, groups_of}
use redis_pvxs_ioc.Acf.Parser.Rules.{
  condition_kind, condition, conditions, is_level, is_permission, is_option, rule_option, opens,
  rule_body, parse_rule, rules, parse_asg, definition, parse_groups, check_references, start, parse,
}
use redis_pvxs_ioc.Acf.Parser.Ends.{
  Ends, EndsWith, Looks, fail_if-Ends, take-Ends, expect-Ends, name-Ends, peek-Looks, next_is-Looks,
  reject_deferred-Looks, call_names-Ends, err_at-Ends, definition_name-Ends, parse_named_list-Ends,
}

condition_kind-Looks : (token : Token) → Looks (condition_kind token)
unfolding condition_kind
condition_kind-Looks token =
    Meets-if _ _ (same_bytes (upper token.text) (keyword_of uag)) _ _ (Meets-ok _ _ _ tt) (
      Meets-if _ _ (same_bytes (upper token.text) (keyword_of hag)) _ _ (Meets-ok _ _ _ tt)
        (err_at-Ends _ token only_conditions))

condition-Ends : (p : AcfSubsetParser) (n : ℕ) → length p.left ≤ n → Ends n (condition p)
unfolding condition
condition-Ends p n h = Meets-bind _ _ _ (peek p) _ (peek-Looks p) λ token _.
    Meets-bind _ _ _ (reject_deferred token) _ (reject_deferred-Looks token) λ _ _.
      Meets-bind _ _ _ (condition_kind token) _ (condition_kind-Looks token) λ kind _.
        Meets-bind _ _ _ (call_names (keyword_of kind) p) _
          (call_names-Ends (keyword_of kind) p n h) λ x lt. Meets-ok _ _ _ lt

conditions-Ends :
    (fuel : ℕ) (p : AcfSubsetParser) (n : ℕ)
    → length p.left < fuel
    → length p.left < n
    → Ends n (conditions fuel p)
unfolding conditions
conditions-Ends zero p n f h = absurd (omega arith)
conditions-Ends (suc fuel) p n f h =
    Meets-bind _ _ _ (next_is (bytes "}") p) _ (next_is-Looks (bytes "}") p) λ closed _.
      Meets-branch _ _ closed _ _ (Meets-ok _ _ _ h) (
        Meets-bind _ _ _ (condition p) _ (condition-Ends p (length p.left) (omega arith))
          λ p1 lt. conditions-Ends fuel p1 n (omega (arith, lt, f)) (omega (arith, lt, h)))

rule_option-Ends : (p : AcfSubsetParser) (n : ℕ) → length p.left ≤ n → Ends n (rule_option p)
unfolding rule_option
rule_option-Ends p n h = Meets-bind _ _ _ (take p) _ (take-Ends p n h) λ x lt.
    Meets-bind _ _ _ (name x.1) _ (name-Ends x.1 n (omega (arith, lt)))
      λ y lt1. fail_if-Ends _ (not (is_option y.0)) y.0 bad_option _ (Meets-ok _ _ _ lt1)

rule_body-Ends : (p : AcfSubsetParser) (n : ℕ) → length p.left ≤ n → Ends n (rule_body p)
unfolding rule_body
rule_body-Ends p n h = Meets-bind _ _ _ (take p) _ (take-Ends p n h) λ x lt.
    Meets-bind _ _ _ (conditions (suc (length x.1.left)) x.1) _
      (conditions-Ends (suc (length x.1.left)) x.1 n (omega arith) lt)
      λ p2 lt2. expect-Ends (bytes "}") p2 n (omega (arith, lt2))

parse_rule-Ends : (p : AcfSubsetParser) (n : ℕ) → length p.left ≤ n → Ends n (parse_rule p)
unfolding parse_rule
parse_rule-Ends p n h = Meets-bind _ _ _ (take p) _ (take-Ends p n h) λ x lt.
    Meets-bind _ _ _ (reject_deferred x.0) _ (reject_deferred-Looks x.0) λ _ _.
      fail_if-Ends _ (not (is_keyword (bytes "RULE") x.0)) x.0 only_rule _ (
        Meets-bind _ _ _ (expect (bytes "(") x.1) _ (expect-Ends _ x.1 n (omega (arith, lt)))
          λ p2 lt2. Meets-bind _ _ _ (name p2) _ (name-Ends p2 n (omega (arith, lt2))) λ y lt3.
            fail_if-Ends _ (not (is_level y.0)) y.0 bad_level _ (
              Meets-bind _ _ _ (expect (bytes ",") y.1) _ (expect-Ends _ y.1 n (omega (arith, lt3)))
                λ p4 lt4.
                  Meets-bind _ _ _ (name p4) _ (name-Ends p4 n (omega (arith, lt4))) λ z lt5.
                    fail_if-Ends _ (not (is_permission z.0)) z.0 bad_permission _ (rest z.1 lt5)))
  where
    body :
        (p7 : AcfSubsetParser)
        → length p7.left < n
        → Ends n (elim (opens p7.left) [ true ↦ rule_body p7 | false ↦ ok p7 ])
    body p7 lt =
        Meets-branch _ _ (opens p7.left) _ _ (rule_body-Ends p7 n (omega (arith, lt)))
          (Meets-ok _ _ _ lt)

    rest :
        (p5 : AcfSubsetParser)
        → length p5.left < n
        → Ends n (do
          more ← next_is (bytes ",") p5
          p6 ← elim more [ true ↦ rule_option p5 | false ↦ ok p5 ]
          p7 ← expect (bytes ")") p6
          elim (opens p7.left) [ true ↦ rule_body p7 | false ↦ ok p7 ])
    rest p5 lt =
        Meets-bind _ _ _ (next_is (bytes ",") p5) _ (next_is-Looks (bytes ",") p5) λ more _.
          Meets-bind (λ p6. length p6.left < n) _ _
            (elim more [ true ↦ rule_option p5 | false ↦ ok p5 ]) _
            (Meets-branch _ _ more _ _ (rule_option-Ends p5 n (omega (arith, lt)))
              (Meets-ok _ _ _ lt))
            λ p6 lt6.
              Meets-bind _ _ _ (expect (bytes ")") p6) _ (expect-Ends _ p6 n (omega (arith, lt6)))
                λ p7 lt7. body p7 lt7

rules-Ends :
    (fuel : ℕ) (p : AcfSubsetParser) (n : ℕ)
    → length p.left < fuel
    → length p.left < n
    → Ends n (rules fuel p)
unfolding rules
rules-Ends zero p n f h = absurd (omega arith)
rules-Ends (suc fuel) p n f h =
    Meets-bind _ _ _ (next_is (bytes "}") p) _ (next_is-Looks (bytes "}") p) λ closed _.
      Meets-branch _ _ closed _ _ (Meets-ok _ _ _ h) (
        Meets-bind _ _ _ (parse_rule p) _ (parse_rule-Ends p (length p.left) (omega arith))
          λ p1 lt. rules-Ends fuel p1 n (omega (arith, lt, f)) (omega (arith, lt, h)))

parse_asg-Ends : (p : AcfSubsetParser) (n : ℕ) → length p.left ≤ n → EndsWith n (parse_asg p)
unfolding parse_asg
parse_asg-Ends p n h =
    Meets-bind _ _ _ (definition_name (bytes "ASG") p) _ (definition_name-Ends (bytes "ASG") p n h)
      λ x lt.
        Meets-bind _ _ _ (expect (bytes "{") x.1) _ (expect-Ends _ x.1 n (omega (arith, lt)))
          λ p2 lt2.
            Meets-bind _ _ _ (rules (suc (length p2.left)) p2) _
              (rules-Ends (suc (length p2.left)) p2 n (omega arith) lt2)
              λ p3 lt3.
                Meets-bind _ _ _ (expect (bytes "}") p3) _ (expect-Ends _ p3 n (omega (arith, lt3)))
                  λ p4 lt4. Meets-ok _ _ _ lt4

definition-Ends :
    (groups : List Bytes) (token : Token) (p : AcfSubsetParser) (n : ℕ)
    → length p.left ≤ n
    → EndsWith n (definition groups token p)
unfolding definition
definition-Ends groups token p n h =
    Meets-if _ _ (same_bytes (upper token.text) (bytes "UAG")) _ _ (named uag) (
      Meets-if _ _ (same_bytes (upper token.text) (bytes "HAG")) _ _ (named hag) (
        Meets-if _ _ (same_bytes (upper token.text) (bytes "ASG")) _ _ group
          (err_at-Ends _ token unknown_construct)))
  where
    named : (kind : GroupKind) → EndsWith n (do p1 ← parse_named_list kind p; ok (groups, p1))
    named kind =
        Meets-bind _ _ _ (parse_named_list kind p) _ (parse_named_list-Ends kind p n h)
          λ p1 lt. Meets-ok _ _ _ lt

    group : EndsWith n (do
      (group, p1) ← parse_asg p
      fail_if (contains group groups) (at p1.last (duplicate (bytes "ASG") group))
      ok (groups ++ group ∷ [], p1))
    group = Meets-bind _ _ _ (parse_asg p) _ (parse_asg-Ends p n h) λ x lt.
        fail_if-Ends _ (contains x.0 groups) x.1.last (duplicate (bytes "ASG") x.0) _
          (Meets-ok _ _ _ lt)

parse_groups-Looks :
    (fuel : ℕ) (groups : List Bytes) (p : AcfSubsetParser)
    → length p.left < fuel
    → Looks (parse_groups fuel groups p)
unfolding parse_groups
parse_groups-Looks zero groups p f = absurd (omega arith)
parse_groups-Looks (suc fuel) groups p f = Meets-branch _ _ (done p) _ _ (Meets-ok _ _ _ tt) (
    Meets-bind _ _ _ (peek p) _ (peek-Looks p) λ token _.
      Meets-bind _ _ _ (reject_deferred token) _ (reject_deferred-Looks token) λ _ _.
        Meets-bind _ _ _ (definition groups token p) _
          (definition-Ends groups token p (length p.left) (omega arith))
          λ x lt. parse_groups-Looks fuel x.0 x.1 (omega (arith, lt, f)))

check_references-Looks :
    (p : AcfSubsetParser) (refs : List Reference) → Looks (check_references p refs)
unfolding check_references
check_references-Looks p [] = Meets-ok _ _ _ tt
check_references-Looks p (r ∷ rs) =
    fail_if-Ends _ (not (contains r.name (groups_of r.kind p))) r.token
      (undefined_group (keyword_of r.kind) r.name) _ (check_references-Looks p rs)

pub parse-Looks : (tokens : List Token) → Looks (parse tokens)
unfolding parse
parse-Looks tokens =
    Meets-bind _ _ _ (parse_groups (suc (length tokens)) [] (start tokens)) _
      (parse_groups-Looks (suc (length tokens)) [] (start tokens) (omega arith))
      λ x _.
        Meets-bind _ _ _ (check_references x.1 x.1.references) _
          (check_references-Looks x.1 x.1.references) λ _ _. Meets-ok _ _ _ tt
