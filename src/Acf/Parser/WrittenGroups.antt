-- ===== src/Acf/Parser/WrittenGroups.antt =====
-- How `AcfSubsetParser` of src/access_control.cpp reads the definitions of a written policy, one after the
-- other, where it throws nothing.
use mathlib.Core.Path.{subst}
use mathlib.Core.List.{append_assoc, append-nil}
use redis_pvxs_ioc.Prelude.{
  ℕ, zero, suc, ◌≡◌, refl, sym, ap, ◌∙◌, true, false, List, [], ◌∷◌, ◌++◌, map, All,
}
use redis_pvxs_ioc.Prelude.Results.{
  Meets, Meets-bind, Meets-ok, Meets-any, Meets-err, Meets-fail_if, Meets-mono, Anything,
}
use redis_pvxs_ioc.Prelude.Bytes.{Bytes, bytes}
use redis_pvxs_ioc.Acf.{Token}
use redis_pvxs_ioc.Acf.Tokens.RoundTrip.{Lexeme, seen}
use redis_pvxs_ioc.Acf.Parser.{
  GroupKind, uag, hag, AcfSubsetParser, done, peek, reject_deferred, keyword_of, contains,
}
use redis_pvxs_ioc.Acf.Parser.Lists.{parse_named_list}
use redis_pvxs_ioc.Acf.Parser.Rules.{parse_asg, definition, parse_groups}
use redis_pvxs_ioc.Acf.Parser.Policy.{
  Definition, group, access, definition_then, written, BeginsWell, rule_references,
  policy_references, own_name, groups_named, access_groups,
}
use redis_pvxs_ioc.Acf.Parser.Reading.{At, Meets-taken, Meets-missed, peek-At}
use redis_pvxs_ioc.Acf.Parser.Definitions.{parse_asg-At, parse_named_list-At}

-- A definition adds its own name to its kind, and the references of its rules.
abbrev adds : (GroupKind → List Bytes) → Definition → GroupKind → List Bytes
adds defs (group kind own ms) = λ k. defs k ++ own_name k kind own.text
adds defs (access own rs) = defs

abbrev own_references : Definition → List (GroupKind × Bytes)
own_references (group kind own ms) = []
own_references (access own rs) = rule_references rs

abbrev own_access : Definition → List Bytes
own_access (group kind own ms) = []
own_access (access own rs) = own.text ∷ []

-- The keyword with which a definition begins.
abbrev begins : Definition → Bytes
begins (group kind own ms) = keyword_of kind
begins (access own rs) = bytes "ASG"

definition-At :
    (defs : GroupKind → List Bytes) (refs : List (GroupKind × Bytes)) (groups : List Bytes)
    (d : Definition) (rest : List Lexeme) (t : Token) (p : AcfSubsetParser)
    → BeginsWell d
    → t.text ≡ begins d
    → At (definition_then d rest) defs refs p
    → Meets
        (λ r. (r.0 ≡ groups ++ own_access d) × At rest (adds defs d) (refs ++ own_references d) r.1)
        Anything
        (definition groups t p)
unfolding definition
definition-At defs refs groups (group uag own ms) rest t p w h v =
    subst
      (λ x.
        Meets
          (λ r.
            (r.0 ≡ groups ++ [])
            × At rest (λ k. defs k ++ own_name k uag own.text) (refs ++ []) r.1)
          Anything (definition groups (record t { text = x }) p))
      (sym h)
      (Meets-bind _ _ _ (parse_named_list uag p) _ (parse_named_list-At refs uag own ms rest p w v)
        λ p1 v1. Meets-ok _ _ _ (
          sym (append-nil groups),
          subst (λ l. At rest (λ k. defs k ++ own_name k uag own.text) l p1) (sym (append-nil refs))
              v1,
        ))
definition-At defs refs groups (group hag own ms) rest t p w h v =
    subst
      (λ x.
        Meets
          (λ r.
            (r.0 ≡ groups ++ [])
            × At rest (λ k. defs k ++ own_name k hag own.text) (refs ++ []) r.1)
          Anything (definition groups (record t { text = x }) p))
      (sym h)
      (Meets-bind _ _ _ (parse_named_list hag p) _ (parse_named_list-At refs hag own ms rest p w v)
        λ p1 v1. Meets-ok _ _ _ (
          sym (append-nil groups),
          subst (λ l. At rest (λ k. defs k ++ own_name k hag own.text) l p1) (sym (append-nil refs))
              v1,
        ))
definition-At defs refs groups (access own rs) rest t p w h v =
    subst
      (λ x.
        Meets (λ r. (r.0 ≡ groups ++ own.text ∷ []) × At rest defs (refs ++ rule_references rs) r.1)
          Anything (definition groups (record t { text = x }) p))
      (sym h)
      (Meets-bind _ _ _ (parse_asg p) _ (parse_asg-At refs own rs rest p v) λ x h1.
        Meets-fail_if _ (contains x.0 groups) _ _
          λ _. Meets-ok _ _ _ (ap (λ n. groups ++ n ∷ []) h1.0, h1.1))

peek-At_definition :
    (defs : GroupKind → List Bytes) (refs : List (GroupKind × Bytes)) (d : Definition)
    (rest : List Lexeme) (p : AcfSubsetParser)
    → At (definition_then d rest) defs refs p
    → Meets (λ t. t.text ≡ begins d) Anything (peek p)
unfolding definition_then
peek-At_definition defs refs (group kind own ms) rest p v = peek-At p v
peek-At_definition defs refs (access own rs) rest p v = peek-At p v

done-seen :
    (p : AcfSubsetParser) (left : List Token)
    → p.left ≡ left
    → ((map seen p.left ≡ []) → done p ≡ true)
      × ((l : Lexeme) (ls : List Lexeme) → map seen p.left ≡ l ∷ ls → done p ≡ false)
unfolding done
done-seen p [] e = (λ h. rw e, λ l ls h. absurd (cc (ap (map seen) e, h)))
done-seen p (t ∷ ts) e = (λ h. absurd (cc (ap (map seen) e, h)), λ l ls h. rw e)

done-definition :
    (d : Definition) (rest : List Lexeme) (p : AcfSubsetParser)
    → map seen p.left ≡ definition_then d rest
    → done p ≡ false
unfolding definition_then
done-definition (group kind own ms) rest p h = (done-seen p p.left refl).1 _ _ h
done-definition (access own rs) rest p h = (done-seen p p.left refl).1 _ _ h

pub parse_groups-At :
    (fuel : ℕ) (ds : List Definition) (defs : GroupKind → List Bytes)
    (refs : List (GroupKind × Bytes)) (groups : List Bytes) (p : AcfSubsetParser)
    → All BeginsWell ds
    → At (written ds) defs refs p
    → Meets
        (λ r.
          (r.0 ≡ groups ++ access_groups ds)
          × At [] (λ k. defs k ++ groups_named k ds) (refs ++ policy_references ds) r.1)
        Anything
        (parse_groups fuel groups p)
unfolding parse_groups written access_groups groups_named policy_references
parse_groups-At zero ds defs refs groups p w v = Meets-err _ _
parse_groups-At (suc fuel) [] defs refs groups p w v =
    Meets-taken _ (done p) _ _ ((done-seen p p.left refl).0 v.lexemes) (
      Meets-ok _ _ _ (
        sym (append-nil groups),
        record {
          lexemes = v.lexemes;
          uags = v.uags ∙ sym (append-nil (defs uag));
          hags = v.hags ∙ sym (append-nil (defs hag));
          references = v.references ∙ sym (append-nil refs);
        },
      ))
parse_groups-At (suc fuel) (d ∷ ds) defs refs groups p w v =
    Meets-missed _ (done p) _ _ (done-definition d (written ds) p v.lexemes) (
      Meets-bind _ _ _ (peek p) _ (peek-At_definition defs refs d (written ds) p v) λ t h.
        Meets-bind _ _ _ (reject_deferred t) _ (Meets-any _) λ _ _.
          Meets-bind _ _ _ (definition groups t p) _
            (definition-At defs refs groups d (written ds) t p w.0 h v)
            λ x h1.
              Meets-mono _ _ _ (parse_groups fuel x.0 x.1)
                (parse_groups-At fuel ds (adds defs d) (refs ++ own_references d) x.0 x.1 w.1 h1.1)
                (rejoin d x.0 h1.0))
  where
    rejoin :
        (d : Definition) (groups1 : List Bytes)
        → groups1 ≡ groups ++ own_access d
        → (r : List Bytes × AcfSubsetParser)
        → (r.0 ≡ groups1 ++ access_groups ds)
          × At []
              (λ k. adds defs d k ++ groups_named k ds)
              ((refs ++ own_references d) ++ policy_references ds)
              r.1
        → (r.0 ≡ groups ++ access_groups (d ∷ ds))
          × At [] (λ k. defs k ++ groups_named k (d ∷ ds)) (refs ++ policy_references (d ∷ ds)) r.1
    rejoin (group kind own ms) groups1 e r h = (
      h.0 ∙ ap (λ g. g ++ access_groups ds) (e ∙ append-nil groups),
      record {
        lexemes = h.1.lexemes;
        uags =
            h.1.uags ∙ append_assoc (defs uag) (own_name uag kind own.text) (groups_named uag ds);
        hags =
            h.1.hags ∙ append_assoc (defs hag) (own_name hag kind own.text) (groups_named hag ds);
        references = h.1.references ∙ ap (λ l. l ++ policy_references ds) (append-nil refs);
      },
    )
    rejoin (access own rs) groups1 e r h = (
      h.0
          ∙ ap (λ g. g ++ access_groups ds) e
          ∙ append_assoc groups (own.text ∷ []) (access_groups ds),
      record {
        lexemes = h.1.lexemes;
        uags = h.1.uags;
        hags = h.1.hags;
        references = h.1.references ∙ append_assoc refs (rule_references rs) (policy_references ds);
      },
    )
