-- ===== src/Acf/Parser/Definitions.antt =====
-- How `AcfSubsetParser` of src/access_control.cpp reads the groups and rules of a written policy, where it
-- throws nothing.
use mathlib.Core.Path.{subst}
use mathlib.Core.List.{append_assoc, append-nil}
use redis_pvxs_ioc.Prelude.{
  ℕ, zero, suc, ◌≡◌, ◌≢◌, sym, ap, ◌∙◌, true, false, not, Option, none, some, List, [], ◌∷◌, ◌++◌,
  length, map, arith, Bool-cases, inl, inr,
}
use redis_pvxs_ioc.Prelude.Results.{
  ok, ◌>>=◌, Meets, Meets-bind, Meets-ok, Meets-any, Meets-err, Meets-fail_if, Anything,
}
use redis_pvxs_ioc.Prelude.Bytes.{Bytes, bytes, same_bytes, same_bytes→eq}
use redis_pvxs_ioc.Acf.{Token}
use redis_pvxs_ioc.Acf.Tokens.RoundTrip.{Lexeme, seen}
use redis_pvxs_ioc.Acf.Parser.{
  GroupKind, uag, hag, AcfSubsetParser, take, expect, next_is, name, reject_deferred, keyword_of,
  is_keyword, contains,
}
use redis_pvxs_ioc.Acf.Parser.Lists.{
  definition_name, groups_of, insert_group, members, parse_named_list,
}
use redis_pvxs_ioc.Acf.Parser.Rules.{
  conditions, is_level, is_permission, is_option, rule_option, opens, rule_body, parse_rule, rules,
  parse_asg,
}
use redis_pvxs_ioc.Acf.Parser.Policy.{
  Condition, AcfRule, group, access, symbol, conditions_then, option_then, rule_then, rules_then,
  members_then, definition_then, BeginsWell, references_of, rule_references, own_name,
}
use redis_pvxs_ioc.Acf.Parser.Conditions.{conditions-At}
use redis_pvxs_ioc.Acf.Parser.Reading.{
  At, Meets-taken, Meets-missed, take-At, expect-At, name-At, next_is-At, definition_name-At,
  members-At,
}

same_bytes-ne : (a b : Bytes) → a ≢ b → same_bytes a b ≡ false
same_bytes-ne a b n = elim (Bool-cases (same_bytes a b)) [
  | inl same ↦ absurd (n (same_bytes→eq a b same))
  | inr other ↦ other
]

insert_group-At :
    (kind : GroupKind) (name : Bytes) (left : List Lexeme) (defs : GroupKind → List Bytes)
    (refs : List (GroupKind × Bytes)) (p : AcfSubsetParser)
    → At left defs refs p
    → Meets (At left (λ k. defs k ++ own_name k kind name) refs) Anything (insert_group kind name p)
unfolding insert_group own_name
insert_group-At uag name left defs refs p v =
    Meets-fail_if _ (contains name (groups_of uag p)) _ _ λ _. Meets-ok _ _ _ (record {
      lexemes = v.lexemes;
      uags = ap (λ l. l ++ name ∷ []) v.uags;
      hags = v.hags ∙ sym (append-nil (defs hag));
      references = v.references;
    })
insert_group-At hag name left defs refs p v =
    Meets-fail_if _ (contains name (groups_of hag p)) _ _ λ _. Meets-ok _ _ _ (record {
      lexemes = v.lexemes;
      uags = v.uags ∙ sym (append-nil (defs uag));
      hags = ap (λ l. l ++ name ∷ []) v.hags;
      references = v.references;
    })

opens-seen :
    (left : List Token) (l : Lexeme) (ls : List Lexeme)
    → map seen left ≡ l ∷ ls
    → opens left ≡ same_bytes l.text (bytes "{")
unfolding opens seen
opens-seen [] l ls h = absurd (cc h)
opens-seen (t ∷ ts) l ls h =
    let same : t.text ≡ l.text = ground (arith, h) in ap (λ x. same_bytes x (bytes "{")) same

module _ {defs : GroupKind → List Bytes} {refs : List (GroupKind × Bytes)} where
  -- From the brace that opens a group.
  body-At :
      (kind : GroupKind) (own : Lexeme) (ms rest : List Lexeme) (p : AcfSubsetParser)
      → BeginsWell (group kind own ms)
      → At (members_then ms rest) defs refs p
      → Meets (At rest defs refs) Anything (do
        closed ← next_is (bytes "}") p
        p4 ← elim closed [ true ↦ ok p | false ↦ members (suc (length p.left)) p ]
        expect (bytes "}") p4)
  unfolding members_then same_bytes
  body-At kind own [] rest p w v =
      Meets-bind _ _ _ (next_is (bytes "}") p) _ (next_is-At p v _) λ closed e.
        Meets-bind (At (symbol "}" ∷ rest) defs refs) _ _
          (elim closed [ true ↦ ok p | false ↦ members (suc (length p.left)) p ]) _
          (Meets-taken _ closed _ _ e (Meets-ok _ _ _ v)) λ p4 v4. expect-At p4 v4 _
  body-At kind own (m ∷ ms) rest p w v =
      Meets-bind _ _ _ (next_is (bytes "}") p) _ (next_is-At p v _) λ closed e.
        Meets-bind (At (symbol "}" ∷ rest) defs refs) _ _
          (elim closed [ true ↦ ok p | false ↦ members (suc (length p.left)) p ]) _
          (Meets-missed _ closed _ _ (e ∙ same_bytes-ne m.text (bytes "}") w)
            (members-At (suc (length p.left)) m ms rest p v))
          λ p4 v4. expect-At p4 v4 _

  rule_option-At :
      (l o : Lexeme) (rest : List Lexeme) (p : AcfSubsetParser)
      → At (l ∷ o ∷ rest) defs refs p
      → Meets (At rest defs refs) Anything (rule_option p)
  unfolding rule_option
  rule_option-At l o rest p v = Meets-bind _ _ _ (take p) _ (take-At p v) λ x h.
      Meets-bind _ _ _ (name x.1) _ (name-At x.1 h.1)
        λ y h1. Meets-fail_if _ (not (is_option y.0)) _ _ λ _. Meets-ok _ _ _ h1.1

  rule_body-At :
      (cs : List Condition) (rest : List Lexeme) (p : AcfSubsetParser)
      → At (symbol "{" ∷ conditions_then cs rest) defs refs p
      → Meets (At rest defs (refs ++ references_of cs)) Anything (rule_body p)
  unfolding rule_body
  rule_body-At cs rest p v = Meets-bind _ _ _ (take p) _ (take-At p v) λ x h.
      Meets-bind _ _ _ (conditions (suc (length x.1.left)) x.1) _
        (conditions-At (suc (length x.1.left)) refs cs rest x.1 h.1)
        λ p2 v2. expect-At p2 v2 (bytes "}")

  -- From the parenthesis that closes a rule.
  closing-At :
      (cs : List Condition) (rest : List Lexeme) (p : AcfSubsetParser)
      → At (symbol ")" ∷ symbol "{" ∷ conditions_then cs rest) defs refs p
      → Meets (At rest defs (refs ++ references_of cs)) Anything (do
        p7 ← expect (bytes ")") p
        elim (opens p7.left) [ true ↦ rule_body p7 | false ↦ ok p7 ])
  unfolding same_bytes
  closing-At cs rest p v = Meets-bind _ _ _ (expect (bytes ")") p) _ (expect-At p v _) λ p7 v7.
      Meets-taken _ (opens p7.left) _ _ (opens-seen p7.left _ _ v7.lexemes)
        (rule_body-At cs rest p7 v7)

  options-At :
      (o : Option Lexeme) (cs : List Condition) (rest : List Lexeme) (p : AcfSubsetParser)
      → At (option_then o (symbol ")" ∷ symbol "{" ∷ conditions_then cs rest)) defs refs p
      → Meets (At rest defs (refs ++ references_of cs)) Anything (do
        more ← next_is (bytes ",") p
        p6 ← elim more [ true ↦ rule_option p | false ↦ ok p ]
        p7 ← expect (bytes ")") p6
        elim (opens p7.left) [ true ↦ rule_body p7 | false ↦ ok p7 ])
  unfolding option_then same_bytes
  options-At none cs rest p v =
      Meets-bind _ _ _ (next_is (bytes ",") p) _ (next_is-At p v _) λ more e.
        Meets-bind (At (symbol ")" ∷ symbol "{" ∷ conditions_then cs rest) defs refs) _ _
          (elim more [ true ↦ rule_option p | false ↦ ok p ]) _
          (Meets-missed _ more _ _ e (Meets-ok _ _ _ v)) λ p6 v6. closing-At cs rest p6 v6
  options-At (some o) cs rest p v =
      Meets-bind _ _ _ (next_is (bytes ",") p) _ (next_is-At p v _) λ more e.
        Meets-bind (At (symbol ")" ∷ symbol "{" ∷ conditions_then cs rest) defs refs) _ _
          (elim more [ true ↦ rule_option p | false ↦ ok p ]) _
          (Meets-taken _ more _ _ e (rule_option-At _ o _ p v)) λ p6 v6. closing-At cs rest p6 v6

  parse_rule-At :
      (r : AcfRule) (rest : List Lexeme) (p : AcfSubsetParser)
      → At (rule_then r rest) defs refs p
      → Meets (At rest defs (refs ++ references_of r.conditions)) Anything (parse_rule p)
  unfolding parse_rule rule_then
  parse_rule-At r rest p v = Meets-bind _ _ _ (take p) _ (take-At p v) λ x h.
      Meets-bind _ _ _ (reject_deferred x.0) _ (Meets-any _) λ _ _.
        Meets-fail_if _ (not (is_keyword (bytes "RULE") x.0)) _ _ λ _.
          Meets-bind _ _ _ (expect (bytes "(") x.1) _ (expect-At x.1 h.1 _) λ p2 v2.
            Meets-bind _ _ _ (name p2) _ (name-At p2 v2) λ y h3.
              Meets-fail_if _ (not (is_level y.0)) _ _ λ _.
                Meets-bind _ _ _ (expect (bytes ",") y.1) _ (expect-At y.1 h3.1 _) λ p4 v4.
                  Meets-bind _ _ _ (name p4) _ (name-At p4 v4) λ z h5.
                    Meets-fail_if _ (not (is_permission z.0)) _ _
                      λ _. options-At r.option r.conditions rest z.1 h5.1

module _ {defs : GroupKind → List Bytes} where
  rules-At :
      (fuel : ℕ) (refs : List (GroupKind × Bytes)) (rs : List AcfRule) (rest : List Lexeme)
      (p : AcfSubsetParser)
      → At (rules_then rs rest) defs refs p
      → Meets (At (symbol "}" ∷ rest) defs (refs ++ rule_references rs)) Anything (rules fuel p)
  unfolding rules rules_then rule_then rule_references same_bytes
  rules-At zero refs rs rest p v = Meets-err _ _
  rules-At (suc fuel) refs [] rest p v =
      Meets-bind _ _ _ (next_is (bytes "}") p) _ (next_is-At p v _) λ closed e.
        Meets-taken _ closed _ _ e
          (Meets-ok _ _ _ (subst (λ l. At (symbol "}" ∷ rest) defs l p) (sym (append-nil refs)) v))
  rules-At (suc fuel) refs (r ∷ rs) rest p v =
      Meets-bind _ _ _ (next_is (bytes "}") p) _ (next_is-At p v _) λ closed e.
        Meets-missed _ closed _ _ e (
          Meets-bind _ _ _ (parse_rule p) _ (parse_rule-At r (rules_then rs rest) p v) λ p1 v1.
            subst (λ l. Meets (At (symbol "}" ∷ rest) defs l) Anything (rules fuel p1))
              (append_assoc refs (references_of r.conditions) (rule_references rs))
              (rules-At fuel (refs ++ references_of r.conditions) rs rest p1 v1))

  pub parse_asg-At :
      (refs : List (GroupKind × Bytes)) (own : Lexeme) (rs : List AcfRule) (rest : List Lexeme)
      (p : AcfSubsetParser)
      → At (definition_then (access own rs) rest) defs refs p
      → Meets
          (λ r. (r.0 ≡ own.text) × At rest defs (refs ++ rule_references rs) r.1)
          Anything
          (parse_asg p)
  unfolding parse_asg definition_then
  parse_asg-At refs own rs rest p v =
      Meets-bind _ _ _ (definition_name (bytes "ASG") p) _ (definition_name-At _ _ own _ p v) λ x h.
        Meets-bind _ _ _ (expect (bytes "{") x.1) _ (expect-At x.1 h.1 _) λ p2 v2.
          Meets-bind _ _ _ (rules (suc (length p2.left)) p2) _
            (rules-At (suc (length p2.left)) refs rs rest p2 v2)
            λ p3 v3.
              Meets-bind _ _ _ (expect (bytes "}") p3) _ (expect-At p3 v3 _)
                λ p4 v4. Meets-ok _ _ _ (h.0, v4)

  pub parse_named_list-At :
      (refs : List (GroupKind × Bytes)) (kind : GroupKind) (own : Lexeme) (ms rest : List Lexeme)
      (p : AcfSubsetParser)
      → BeginsWell (group kind own ms)
      → At (definition_then (group kind own ms) rest) defs refs p
      → Meets
          (At rest (λ k. defs k ++ own_name k kind own.text) refs)
          Anything
          (parse_named_list kind p)
  unfolding parse_named_list definition_then
  parse_named_list-At refs kind own ms rest p w v =
      Meets-bind _ _ _ (definition_name (keyword_of kind) p) _ (definition_name-At _ _ own _ p v)
        λ x h.
          Meets-bind _ _ _ (insert_group kind x.0 x.1) _
            (subst
              (λ n.
                Meets
                  (At (symbol "{" ∷ members_then ms rest) (λ k. defs k ++ own_name k kind n) refs)
                  Anything (insert_group kind x.0 x.1))
              h.0 (insert_group-At kind x.0 _ defs refs x.1 h.1))
            λ p2 v2.
              Meets-bind _ _ _ (expect (bytes "{") p2) _ (expect-At p2 v2 _)
                λ p3 v3. body-At kind own ms rest p3 w v3
