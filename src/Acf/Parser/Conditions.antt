-- ===== src/Acf/Parser/Conditions.antt =====
-- How `AcfSubsetParser` of src/access_control.cpp reads the conditions of a written rule, where it throws
-- nothing.
use mathlib.Core.Path.{subst}
use mathlib.Core.List.{append_assoc, map-append, append-nil}
use redis_pvxs_ioc.Prelude.{ℕ, zero, suc, ◌≡◌, refl, sym, ap, ◌∙◌, false, List, [], ◌∷◌, ◌++◌, map}
use redis_pvxs_ioc.Prelude.Results.{Meets, Meets-bind, Meets-ok, Meets-any, Meets-err, Anything}
use redis_pvxs_ioc.Prelude.Bytes.{Bytes, bytes, same_bytes}
use redis_pvxs_ioc.Acf.{Token}
use redis_pvxs_ioc.Acf.Tokens.RoundTrip.{Lexeme}
use redis_pvxs_ioc.Acf.Parser.{
  GroupKind, uag, hag, AcfSubsetParser, peek, next_is, reject_deferred, keyword_of,
}
use redis_pvxs_ioc.Acf.Parser.Lists.{call_names}
use redis_pvxs_ioc.Acf.Parser.Rules.{condition_kind, refer, condition, conditions}
use redis_pvxs_ioc.Acf.Parser.Policy.{
  Condition, symbol, condition_then, conditions_then, named, references_of,
}
use redis_pvxs_ioc.Acf.Parser.Reading.{
  At, referred_to, with_kind, text_of, Meets-taken, Meets-missed, peek-At, next_is-At,
  call_names-At,
}

named_refer :
    (kind : GroupKind) (token : Token) (names : List Bytes)
    → map referred_to (refer kind token names) ≡ map (with_kind kind) names
unfolding refer
named_refer kind token [] = refl
named_refer kind token (n ∷ ns) = ap (λ l. (kind, n) ∷ l) (named_refer kind token ns)

named_lem :
    (kind : GroupKind) (ns : List Lexeme)
    → map (with_kind kind) (map text_of ns) ≡ map (named kind) ns
named_lem kind [] = refl
named_lem kind (n ∷ ns) = ap (λ l. (kind, n.text) ∷ l) (named_lem kind ns)

condition_kind-At :
    (kind : GroupKind) (t : Token)
    → t.text ≡ keyword_of kind
    → Meets (λ k. k ≡ kind) Anything (condition_kind t)
unfolding condition_kind
condition_kind-At uag t h =
    subst (λ x. Meets (λ k. k ≡ uag) Anything (condition_kind (record t { text = x }))) (sym h)
      (Meets-ok _ _ _ refl)
condition_kind-At hag t h =
    subst (λ x. Meets (λ k. k ≡ hag) Anything (condition_kind (record t { text = x }))) (sym h)
      (Meets-ok _ _ _ refl)

keyword_of-ne : (kind : GroupKind) → same_bytes (keyword_of kind) (bytes "}") ≡ false
unfolding same_bytes
keyword_of-ne uag = refl
keyword_of-ne hag = refl

references_of-cons :
    (c : Condition) (cs : List Condition)
    → references_of (c ∷ []) ++ references_of cs ≡ references_of (c ∷ cs)
unfolding references_of
references_of-cons c cs =
    ap (λ l. (c.kind, c.name.text) ∷ (l ++ references_of cs))
      (append-nil (map (named c.kind) c.more))

module _ {defs : GroupKind → List Bytes} where
  -- A condition leaves a reference to each of its groups.
  condition-At :
      (refs : List (GroupKind × Bytes)) (c : Condition) (rest : List Lexeme) (p : AcfSubsetParser)
      → At (condition_then c rest) defs refs p
      → Meets (At rest defs (refs ++ references_of (c ∷ []))) Anything (condition p)
  unfolding condition condition_then references_of
  condition-At refs c rest p v = Meets-bind _ _ _ (peek p) _ (peek-At p v) λ t h.
      Meets-bind _ _ _ (reject_deferred t) _ (Meets-any _) λ _ _.
        Meets-bind _ _ _ (condition_kind t) _ (condition_kind-At c.kind t h) λ kind same.
          Meets-bind _ _ _ (call_names (keyword_of kind) p) _
            (call_names-At (keyword_of kind) _ c.name c.more rest p v)
            λ x h1. Meets-ok _ _ _ (record {
              lexemes = h1.1.lexemes;
              uags = h1.1.uags;
              hags = h1.1.hags;
              references =
                  map-append referred_to x.1.references (refer kind t x.0)
                  ∙ ap (λ l. l ++ map referred_to (refer kind t x.0)) h1.1.references
                  ∙ ap (λ l. refs ++ l)
                      (named_refer kind t x.0
                        ∙ ap (map (with_kind kind)) h1.0
                        ∙ ap (λ k. map (with_kind k) (c.name.text ∷ map text_of c.more)) same
                        ∙ ap (λ l. (c.kind, c.name.text) ∷ l)
                            (named_lem c.kind c.more
                              ∙ sym (append-nil (map (named c.kind) c.more))));
            })

  pub conditions-At :
      (fuel : ℕ) (refs : List (GroupKind × Bytes)) (cs : List Condition) (rest : List Lexeme)
      (p : AcfSubsetParser)
      → At (conditions_then cs rest) defs refs p
      → Meets (At (symbol "}" ∷ rest) defs (refs ++ references_of cs)) Anything (conditions fuel p)
  unfolding conditions conditions_then references_of same_bytes
  conditions-At zero refs cs rest p v = Meets-err _ _
  conditions-At (suc fuel) refs [] rest p v =
      Meets-bind _ _ _ (next_is (bytes "}") p) _ (next_is-At p v _) λ closed e.
        Meets-taken _ closed _ _ e
          (Meets-ok _ _ _ (subst (λ l. At (symbol "}" ∷ rest) defs l p) (sym (append-nil refs)) v))
  conditions-At (suc fuel) refs (c ∷ cs) rest p v =
      Meets-bind _ _ _ (next_is (bytes "}") p) _ (next_is-At p v _) λ closed e.
        Meets-missed _ closed _ _ (e ∙ keyword_of-ne c.kind) (
          Meets-bind _ _ _ (condition p) _ (condition-At refs c (conditions_then cs rest) p v)
            λ p1 v1.
              subst (λ l. Meets (At (symbol "}" ∷ rest) defs l) Anything (conditions fuel p1))
                (append_assoc refs (references_of (c ∷ [])) (references_of cs)
                  ∙ ap (λ l. refs ++ l) (references_of-cons c cs))
                (conditions-At fuel (refs ++ references_of (c ∷ [])) cs rest p1 v1))
