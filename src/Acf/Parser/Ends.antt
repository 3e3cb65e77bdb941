-- ===== src/Acf/Parser/Ends.antt =====
-- The loops of `AcfSubsetParser` of src/access_control.cpp end: each round takes a token, so the fuel
-- that the model gives them is never used up.
use redis_pvxs_ioc.Prelude.{
  ℕ, zero, suc, ◌≤◌, ◌<◌, ◌≢◌, Bool, true, false, List, [], ◌∷◌, arith, length, not, ◌&&◌,
}
use redis_pvxs_ioc.Prelude.Results.{
  Result, ok, err, ◌>>◌, fail_if, Meets, Meets-bind, Meets-ok, Meets-branch,
}
use redis_pvxs_ioc.Prelude.Bytes.{Bytes, bytes, same_bytes}
use redis_pvxs_ioc.Acf.{
  Token, AcfError, AcfProblem, expected, duplicate, expected_name, deferred, at, out_of_fuel,
}
use redis_pvxs_ioc.Acf.Parser.{
  GroupKind, uag, hag, contains, AcfSubsetParser, Parses, Moves, peek_left, peek, take_left, take,
  expect, next_is, name, reject_deferred, keyword_of, is_name, is_deferred, upper, is_keyword,
}
use redis_pvxs_ioc.Acf.Parser.Lists.{
  groups_of, more_names, call_names, the_name, definition_name, define, insert_group, members,
  parse_named_list,
}

abbrev pub NotOut : AcfError → Type 0
NotOut e = e ≢ out_of_fuel

-- Fewer than `n` tokens are left, and it is not the fuel that has stopped the parser.
abbrev pub Ends : ℕ → Moves → Type 0
Ends n r = Meets (λ p. length p.left < n) NotOut r

abbrev pub EndsWith : {A : Type 0} → ℕ → Parses A → Type 0
EndsWith n r = Meets (λ x. length x.1.left < n) NotOut r

-- throw at a token, or go on
pub fail_if-Ends :
    {A : Type 0} (P : A → Type 0) (bad : Bool) (token : Token) (problem : AcfProblem)
    (rest : Result AcfError A)
    → Meets P NotOut rest
    → Meets P NotOut (fail_if bad (at token problem) >> rest)
unfolding Meets
fail_if-Ends P true token problem rest h = λ e. cc e
fail_if-Ends P false token problem rest h = h

take_left-Ends :
    (p : AcfSubsetParser) (tokens : List Token) (n : ℕ)
    → length tokens ≤ n
    → EndsWith n (take_left p tokens)
unfolding Meets take_left
take_left-Ends p [] n h = λ e. cc e
take_left-Ends p (token ∷ rest) n h = omega arith

pub take-Ends : (p : AcfSubsetParser) (n : ℕ) → length p.left ≤ n → EndsWith n (take p)
unfolding take
take-Ends p n h = take_left-Ends p p.left n h

pub expect-Ends :
    (text : Bytes) (p : AcfSubsetParser) (n : ℕ) → length p.left ≤ n → Ends n (expect text p)
unfolding expect
expect-Ends text p n h = Meets-bind _ _ _ (take p) _ (take-Ends p n h) λ x lt.
    fail_if-Ends _ (not (same_bytes x.0.text text)) x.0 (expected text) _ (Meets-ok _ _ _ lt)

pub name-Ends : (p : AcfSubsetParser) (n : ℕ) → length p.left ≤ n → EndsWith n (name p)
unfolding name
name-Ends p n h =
    Meets-bind _ _ _ (take p) _ (take-Ends p n h)
      λ x lt. fail_if-Ends _ (not (is_name x.0)) x.0 expected_name _ (Meets-ok _ _ _ lt)

-- What only looks at the tokens.
abbrev pub Looks : {A : Type 0} → Result AcfError A → Type 0
Looks r = Meets (λ a. Unit {0}) NotOut r

peek_left-Looks : (tokens : List Token) → Looks (peek_left tokens)
unfolding Meets peek_left
peek_left-Looks [] = λ e. cc e
peek_left-Looks (token ∷ rest) = tt

pub peek-Looks : (p : AcfSubsetParser) → Looks (peek p)
unfolding peek
peek-Looks p = peek_left-Looks p.left

pub next_is-Looks : (text : Bytes) (p : AcfSubsetParser) → Looks (next_is text p)
unfolding next_is
next_is-Looks text p = Meets-bind _ _ _ (peek p) _ (peek-Looks p) λ t u. Meets-ok _ _ _ tt

pub throws-Looks :
    (bad : Bool) (token : Token) (problem : AcfProblem) → Looks (fail_if bad (at token problem))
unfolding Meets
throws-Looks true token problem = λ e. cc e
throws-Looks false token problem = tt

pub reject_deferred-Looks : (token : Token) → Looks (reject_deferred token)
unfolding reject_deferred
reject_deferred-Looks token =
    throws-Looks (not token.quoted && is_deferred (upper token.text)) token
      (deferred (upper token.text))

more_names-Ends :
    (fuel : ℕ) (p : AcfSubsetParser) (n : ℕ)
    → length p.left < fuel
    → length p.left < n
    → EndsWith n (more_names fuel p)
unfolding more_names
more_names-Ends zero p n f h = absurd (omega arith)
more_names-Ends (suc fuel) p n f h =
    Meets-bind _ _ _ (next_is (bytes ",") p) _ (next_is-Looks (bytes ",") p) λ more u.
      Meets-branch _ _ more _ _
        (Meets-bind _ _ _ (take p) _ (take-Ends p (length p.left) (omega arith)) λ x lt.
          Meets-bind _ _ _ (name x.1) _ (name-Ends x.1 (length p.left) (omega (arith, lt))) λ y lt1.
            Meets-bind _ _ _ (more_names fuel y.1) _
              (more_names-Ends fuel y.1 n (omega (arith, lt1, f)) (omega (arith, lt1, h)))
              λ z lt2. Meets-ok _ _ _ lt2)
        (Meets-ok _ _ _ h)

pub call_names-Ends :
    (keyword : Bytes) (p : AcfSubsetParser) (n : ℕ)
    → length p.left ≤ n
    → EndsWith n (call_names keyword p)
unfolding call_names
call_names-Ends keyword p n h = Meets-bind _ _ _ (take p) _ (take-Ends p n h) λ x lt.
    Meets-bind _ _ _ (reject_deferred x.0) _ (reject_deferred-Looks x.0) λ _ _.
      fail_if-Ends _ (not (is_keyword keyword x.0)) x.0 (expected keyword) _ (
        Meets-bind _ _ _ (expect (bytes "(") x.1) _ (expect-Ends _ x.1 n (omega (arith, lt)))
          λ p2 lt2. Meets-bind _ _ _ (name p2) _ (name-Ends p2 n (omega (arith, lt2))) λ y lt3.
            Meets-bind _ _ _ (more_names (suc (length y.1.left)) y.1) _
              (more_names-Ends (suc (length y.1.left)) y.1 n (omega arith) lt3)
              λ z lt4.
                Meets-bind _ _ _ (expect (bytes ")") z.1) _
                  (expect-Ends _ z.1 n (omega (arith, lt4))) λ p5 lt5. Meets-ok _ _ _ lt5)

the_name-Ends :
    (keyword : Bytes) (names : List Bytes) (p : AcfSubsetParser) (n : ℕ)
    → length p.left < n
    → EndsWith n (the_name keyword names p)
unfolding Meets the_name
the_name-Ends keyword [] p n h = λ e. cc e
the_name-Ends keyword (one ∷ []) p n h = h
the_name-Ends keyword (one ∷ two ∷ more) p n h = λ e. cc e

pub definition_name-Ends :
    (keyword : Bytes) (p : AcfSubsetParser) (n : ℕ)
    → length p.left ≤ n
    → EndsWith n (definition_name keyword p)
unfolding definition_name
definition_name-Ends keyword p n h =
    Meets-bind _ _ _ (call_names keyword p) _ (call_names-Ends keyword p n h)
      λ x lt. the_name-Ends keyword x.0 x.1 n lt

insert_group-Ends :
    (kind : GroupKind) (name : Bytes) (p : AcfSubsetParser) (n : ℕ)
    → length p.left < n
    → Ends n (insert_group kind name p)
unfolding insert_group define
insert_group-Ends uag name p n h =
    fail_if-Ends _ (contains name (groups_of uag p)) p.last (duplicate (keyword_of uag) name) _
      (Meets-ok _ _ _ h)
insert_group-Ends hag name p n h =
    fail_if-Ends _ (contains name (groups_of hag p)) p.last (duplicate (keyword_of hag) name) _
      (Meets-ok _ _ _ h)

members-Ends :
    (fuel : ℕ) (p : AcfSubsetParser) (n : ℕ)
    → length p.left < fuel
    → length p.left ≤ n
    → Ends n (members fuel p)
unfolding members
members-Ends zero p n f h = absurd (omega arith)
members-Ends (suc fuel) p n f h =
    Meets-bind _ _ _ (name p) _ (name-Ends p (length p.left) (omega arith)) λ x lt.
      Meets-bind _ _ _ (next_is (bytes "}") x.1) _ (next_is-Looks (bytes "}") x.1) λ closed u.
        Meets-branch _ _ closed _ _ (Meets-ok _ _ _ (omega (arith, lt, h))) (
          Meets-bind _ _ _ (expect (bytes ",") x.1) _
            (expect-Ends (bytes ",") x.1 (length p.left) (omega (arith, lt)))
            λ p2 lt2. members-Ends fuel p2 n (omega (arith, lt2, f)) (omega (arith, lt2, h)))

pub parse_named_list-Ends :
    (kind : GroupKind) (p : AcfSubsetParser) (n : ℕ)
    → length p.left ≤ n
    → Ends n (parse_named_list kind p)
unfolding parse_named_list
parse_named_list-Ends kind p n h =
    Meets-bind _ _ _ (definition_name (keyword_of kind) p) _
      (definition_name-Ends (keyword_of kind) p n h)
      λ x lt.
        Meets-bind _ _ _ (insert_group kind x.0 x.1) _ (insert_group-Ends kind x.0 x.1 n lt)
          λ p2 lt2.
            Meets-bind _ _ _ (expect (bytes "{") p2) _ (expect-Ends _ p2 n (omega (arith, lt2)))
              λ p3 lt3.
                Meets-bind _ _ _ (next_is (bytes "}") p3) _ (next_is-Looks (bytes "}") p3)
                  λ closed u.
                    Meets-bind (λ p4. length p4.left < n) _ _
                      (elim closed [ true ↦ ok p3 | false ↦ members (suc (length p3.left)) p3 ]) _
                      (Meets-branch _ _ closed _ _ (Meets-ok _ _ _ lt3) (
                        members-Ends (suc (length p3.left)) p3 n (omega arith)
                          (omega (arith, lt3))))
                      λ p4 lt4. expect-Ends (bytes "}") p4 n (omega (arith, lt4))

pub err_at-Ends :
    {A : Type 0} (P : A → Type 0) (token : Token) (problem : AcfProblem)
    → Meets P NotOut (err (at token problem))
unfolding Meets
err_at-Ends P token problem = λ e. cc e
