-- ===== src/Acf/Parser/Reading.antt =====
-- How `AcfSubsetParser` of src/access_control.cpp reads the names and groups of a written
-- policy, where it throws nothing.
use mathlib.Core.Path.{subst}
use redis_pvxs_ioc.Prelude.{
  ℕ, zero, suc, ◌≡◌, refl, sym, ap, Bool, true, false, not, List, [], ◌∷◌, length, map, arith,
}
use redis_pvxs_ioc.Prelude.Results.{
  Result, Meets, Meets-bind, Meets-ok, Meets-any, Meets-err, Meets-fail_if, Anything,
}
use redis_pvxs_ioc.Prelude.Bytes.{Bytes, bytes, same_bytes}
use redis_pvxs_ioc.Acf.{Token}
use redis_pvxs_ioc.Acf.Tokens.RoundTrip.{Lexeme, seen}
use redis_pvxs_ioc.Acf.Parser.{
  GroupKind, uag, hag, Reference, AcfSubsetParser, peek, peek_left, take, take_left, expect,
  next_is, is_name, name, reject_deferred, is_keyword,
}
use redis_pvxs_ioc.Acf.Parser.Lists.{more_names, call_names, the_name, definition_name, members}
use redis_pvxs_ioc.Acf.Parser.Policy.{symbol, more_names_then, more_members_then}

abbrev pub referred_to : Reference → GroupKind × Bytes
referred_to r = (r.kind, r.name)

abbrev pub with_kind : GroupKind → Bytes → GroupKind × Bytes
with_kind kind name = (kind, name)

abbrev pub text_of : Lexeme → Bytes
text_of l = l.text

-- The lexemes that are left, the groups that are defined, and what has been referred to.
pub record At (left : List Lexeme) (defined : GroupKind → List Bytes)
    (referred : List (GroupKind × Bytes)) (p : AcfSubsetParser) : Type 0 where
  pub lexemes : map seen p.left ≡ left
  pub uags : p.uags ≡ defined uag
  pub hags : p.hags ≡ defined hag
  pub references : map referred_to p.references ≡ referred

-- The branch that a test takes.
pub Meets-taken :
    {E A : Type 0} (P : A → Type 0) (b : Bool) (x y : Result E A)
    → b ≡ true
    → Meets P Anything x
    → Meets P Anything (elim b [ true ↦ x | false ↦ y ])
Meets-taken P true x y h k = k
Meets-taken P false x y h k = absurd (cc h)

pub Meets-missed :
    {E A : Type 0} (P : A → Type 0) (b : Bool) (x y : Result E A)
    → b ≡ false
    → Meets P Anything y
    → Meets P Anything (elim b [ true ↦ x | false ↦ y ])
Meets-missed P true x y h k = absurd (cc h)
Meets-missed P false x y h k = k

module _ {l : Lexeme} {rest : List Lexeme} {defs : GroupKind → List Bytes}
    {refs : List (GroupKind × Bytes)} (p : AcfSubsetParser) (v : At (l ∷ rest) defs refs p) where
  take_left-At :
      (left : List Token)
      → map seen left ≡ l ∷ rest
      → Meets (λ r. (seen r.0 ≡ l) × At rest defs refs r.1) Anything (take_left p left)
  unfolding take_left
  take_left-At [] h = absurd (cc h)
  take_left-At (t ∷ ts) h = Meets-ok _ _ _ (
    ground (arith, h),
    record { lexemes = ground (arith, h); uags = v.uags; hags = v.hags; references = v.references },
  )

  pub take-At : Meets (λ r. (seen r.0 ≡ l) × At rest defs refs r.1) Anything (take p)
  unfolding take
  take-At = take_left-At p.left v.lexemes

  pub expect-At : (text : Bytes) → Meets (At rest defs refs) Anything (expect text p)
  unfolding expect
  expect-At text =
      Meets-bind _ _ _ (take p) _ take-At
        λ r h. Meets-fail_if _ (not (same_bytes r.0.text text)) _ _ λ _. Meets-ok _ _ _ h.1

  pub name-At : Meets (λ r. (r.0.text ≡ l.text) × At rest defs refs r.1) Anything (name p)
  unfolding name seen
  name-At =
      Meets-bind _ _ _ (take p) _ take-At
        λ r h. Meets-fail_if _ (not (is_name r.0)) _ _ λ _. Meets-ok _ _ _ (ap text_of h.0, h.1)

  peek_left-At :
      (left : List Token)
      → map seen left ≡ l ∷ rest
      → Meets (λ t. t.text ≡ l.text) Anything (peek_left left)
  unfolding peek_left seen
  peek_left-At [] h = absurd (cc h)
  peek_left-At (t ∷ ts) h = Meets-ok _ _ _ (ground (arith, h))

  pub peek-At : Meets (λ t. t.text ≡ l.text) Anything (peek p)
  unfolding peek
  peek-At = peek_left-At p.left v.lexemes

  pub next_is-At :
      (text : Bytes) → Meets (λ b. b ≡ same_bytes l.text text) Anything (next_is text p)
  unfolding next_is
  next_is-At text =
      Meets-bind _ _ _ (peek p) _ peek-At λ t h. Meets-ok _ _ _ (ap (λ x. same_bytes x text) h)

module _ {defs : GroupKind → List Bytes} {refs : List (GroupKind × Bytes)} where
  more_names-At :
      (fuel : ℕ) (ns rest : List Lexeme) (p : AcfSubsetParser)
      → At (more_names_then ns rest) defs refs p
      → Meets
          (λ r. (r.0 ≡ map text_of ns) × At (symbol ")" ∷ rest) defs refs r.1)
          Anything
          (more_names fuel p)
  unfolding more_names more_names_then same_bytes
  more_names-At zero ns rest p v = Meets-err _ _
  more_names-At (suc fuel) [] rest p v =
      Meets-bind _ _ _ (next_is (bytes ",") p) _ (next_is-At p v (bytes ","))
        λ more h. Meets-missed _ more _ _ h (Meets-ok _ _ _ (refl, v))
  more_names-At (suc fuel) (n ∷ ns) rest p v =
      Meets-bind _ _ _ (next_is (bytes ",") p) _ (next_is-At p v (bytes ",")) λ more h.
        Meets-taken _ more _ _ h (
          Meets-bind _ _ _ (take p) _ (take-At p v) λ x h1.
            Meets-bind _ _ _ (name x.1) _ (name-At x.1 h1.1) λ y h2.
              Meets-bind _ _ _ (more_names fuel y.1) _ (more_names-At fuel ns rest y.1 h2.1)
                λ z h3. Meets-ok _ _ _ (ground (arith, h2, h3), h3.1))

  pub call_names-At :
      (keyword : Bytes) (l n : Lexeme) (ns rest : List Lexeme) (p : AcfSubsetParser)
      → At (l ∷ symbol "(" ∷ n ∷ more_names_then ns rest) defs refs p
      → Meets
          (λ r. (r.0 ≡ n.text ∷ map text_of ns) × At rest defs refs r.1)
          Anything
          (call_names keyword p)
  unfolding call_names
  call_names-At keyword l n ns rest p v = Meets-bind _ _ _ (take p) _ (take-At p v) λ x h1.
      Meets-bind _ _ _ (reject_deferred x.0) _ (Meets-any _) λ _ _.
        Meets-fail_if _ (not (is_keyword keyword x.0)) _ _ λ _.
          Meets-bind _ _ _ (expect (bytes "(") x.1) _ (expect-At x.1 h1.1 _) λ p2 v2.
            Meets-bind _ _ _ (name p2) _ (name-At p2 v2) λ y h3.
              Meets-bind _ _ _ (more_names (suc (length y.1.left)) y.1) _
                (more_names-At (suc (length y.1.left)) ns rest y.1 h3.1)
                λ z h4.
                  Meets-bind _ _ _ (expect (bytes ")") z.1) _ (expect-At z.1 h4.1 _)
                    λ p5 v5. Meets-ok _ _ _ (ground (arith, h3, h4), v5)

  the_name-At :
      (keyword one : Bytes) (names : List Bytes) (rest : List Lexeme) (p : AcfSubsetParser)
      → names ≡ one ∷ []
      → At rest defs refs p
      → Meets (λ r. (r.0 ≡ one) × At rest defs refs r.1) Anything (the_name keyword names p)
  unfolding the_name
  the_name-At keyword one names rest p h v =
      subst (λ x. Meets (λ r. (r.0 ≡ one) × At rest defs refs r.1) Anything (the_name keyword x p))
        (sym h) (Meets-ok _ _ _ (refl, v))

  pub definition_name-At :
      (keyword : Bytes) (l n : Lexeme) (rest : List Lexeme) (p : AcfSubsetParser)
      → At (l ∷ symbol "(" ∷ n ∷ symbol ")" ∷ rest) defs refs p
      → Meets (λ r. (r.0 ≡ n.text) × At rest defs refs r.1) Anything (definition_name keyword p)
  unfolding definition_name more_names_then
  definition_name-At keyword l n rest p v =
      Meets-bind _ _ _ (call_names keyword p) _ (call_names-At keyword l n [] rest p v)
        λ x h. the_name-At keyword n.text x.0 rest x.1 h.0 h.1

  pub members-At :
      (fuel : ℕ) (m : Lexeme) (ms rest : List Lexeme) (p : AcfSubsetParser)
      → At (m ∷ more_members_then ms rest) defs refs p
      → Meets (At (symbol "}" ∷ rest) defs refs) Anything (members fuel p)
  unfolding members more_members_then same_bytes
  members-At zero m ms rest p v = Meets-err _ _
  members-At (suc fuel) m [] rest p v = Meets-bind _ _ _ (name p) _ (name-At p v) λ x h.
      Meets-bind _ _ _ (next_is (bytes "}") x.1) _ (next_is-At x.1 h.1 _)
        λ closed e. Meets-taken _ closed _ _ e (Meets-ok _ _ _ h.1)
  members-At (suc fuel) m (m1 ∷ ms) rest p v = Meets-bind _ _ _ (name p) _ (name-At p v) λ x h.
      Meets-bind _ _ _ (next_is (bytes "}") x.1) _ (next_is-At x.1 h.1 _) λ closed e.
        Meets-missed _ closed _ _ e (
          Meets-bind _ _ _ (expect (bytes ",") x.1) _ (expect-At x.1 h.1 _)
            λ p2 v2. members-At fuel m1 ms rest p2 v2)
