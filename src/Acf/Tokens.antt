-- ===== src/Acf/Tokens.antt =====
-- The tokenizer of src/access_control.cpp ends, and reads back what is printed.
pub mod RoundTrip
use redis_pvxs_ioc.Prelude.{
  ℕ, zero, suc, ◌+◌, ◌≤◌, ◌<◌, ◌≡◌, ◌≢◌, refl, Bool, true, false, Option, none, some, List, [], ◌∷◌,
  arith, length, ◌==◌,
}
use redis_pvxs_ioc.Prelude.Results.{Result, ok, err, Meets, Meets-bind, Meets-ok}
use redis_pvxs_ioc.Prelude.Bytes.{Bytes}
use redis_pvxs_ioc.Acf.{
  Token, AcfError, Place, CharKind, TokenList, out_of_fuel, is_break, kind_of, skip_comment,
  scan_word, string_char, step_over, scan_string, push, push_string, token_round, token_loop,
  tokens_left, tokenize_on, tokenize_acf, newline, space, comment, quote, letter, punctuation,
}
use redis_pvxs_ioc.Acf.Parser.Rules.{parse, inspect_acf}
use redis_pvxs_ioc.Acf.Parser.Ends.{NotOut, Looks}
use redis_pvxs_ioc.Acf.Parser.Whole.{parse-Looks}

skip_comment-le : (p : Place) (text : Bytes) → length (skip_comment p text).rest ≤ length text
unfolding skip_comment
skip_comment-le p [] = omega arith
skip_comment-le p (c ∷ cs) = ground (arith, skip_comment-le (record p { column = p.column + 1 }) cs)

scan_word-le : (p : Place) (text : Bytes) → length (scan_word p text).1.rest ≤ length text
unfolding scan_word
scan_word-le p [] = omega arith
scan_word-le p (c ∷ cs) = ground (arith, scan_word-le (record p { column = p.column + 1 }) cs)

-- A comment or a word takes the character that it begins with.
skip_comment-lt :
    (p : Place) (c : ℕ) (cs : Bytes)
    → kind_of c ≡ comment
    → length (skip_comment p (c ∷ cs)).rest ≤ length cs
unfolding skip_comment kind_of
skip_comment-lt p c cs h = ground (arith, skip_comment-le (record p { column = p.column + 1 }) cs)

scan_word-lt :
    (p : Place) (c : ℕ) (cs : Bytes)
    → kind_of c ≡ letter
    → length (scan_word p (c ∷ cs)).1.rest ≤ length cs
unfolding scan_word kind_of
scan_word-lt p c cs h = ground (arith, scan_word-le (record p { column = p.column + 1 }) cs)

-- The rest of the text behind a string, if it is closed.
StringLe : ℕ → Option (Bytes × Place) → Type 0
StringLe n none = Unit
StringLe n (some (value, p)) = length p.rest ≤ n

scan_string-le :
    (escaped : Bool) (value : Bytes) (p : Place) (text : Bytes)
    → StringLe (length text) (scan_string escaped value p text)
unfolding scan_string StringLe
scan_string-le escaped value p [] = tt
scan_string-le escaped value p (c ∷ cs) =
    next (λ e v. scan_string-le e v (step_over c p) cs) (string_char escaped value c)
  where
    mono : (n : ℕ) (r : Option (Bytes × Place)) → StringLe n r → StringLe (suc n) r
    mono n none h = tt
    mono n (some (v, q)) h = omega (arith, h)

    next :
        ((e : Bool) (v : Bytes) → StringLe (length cs) (scan_string e v (step_over c p) cs))
        → (o : Option (Bool × Bytes))
        → StringLe (suc (length cs)) (elim o [
          | none ↦ some (value, record (step_over c p) { rest = cs })
          | some (escaped', value') ↦ scan_string escaped' value' (step_over c p) cs
        ])
    next rec none = omega arith
    next rec (some (e, v)) = mono (length cs) _ (rec e v)

push-Looks : (token : Token) (tokens : TokenList) → Looks tokens → Looks (push token tokens)
unfolding push Meets
push-Looks token (ok tokens) h = tt
push-Looks token (err e) h = h

push_string-Looks :
    (n : ℕ) (loop : Place → TokenList) (start : Place) (r : Option (Bytes × Place))
    → ((p : Place) → length p.rest ≤ n → Looks (loop p))
    → StringLe n r
    → Looks (push_string loop start r)
unfolding push_string StringLe Meets
push_string-Looks n loop start none k h = λ e. cc e
push_string-Looks n loop start (some (value, p)) k h = push-Looks _ (loop p) (k p h)

token_round-Looks :
    (loop : Place → TokenList) (p : Place) (c : ℕ) (cs : Bytes) (kind : CharKind)
    → kind_of c ≡ kind
    → ((q : Place) → length q.rest ≤ length cs → Looks (loop q))
    → Looks (token_round loop p c cs kind)
unfolding token_round
token_round-Looks loop p c cs newline h k = k _ (omega arith)
token_round-Looks loop p c cs space h k = k _ (omega arith)
token_round-Looks loop p c cs comment h k = k _ (skip_comment-lt p c cs h)
token_round-Looks loop p c cs quote h k =
    push_string-Looks (length cs) loop p _ k (scan_string-le false [] _ cs)
token_round-Looks loop p c cs letter h k = push-Looks _ _ (k _ (scan_word-lt p c cs h))
token_round-Looks loop p c cs punctuation h k = push-Looks _ _ (k _ (omega arith))

tokenize_on-Looks :
    (fuel : ℕ) (p : Place) (text : Bytes)
    → length text ≤ fuel
    → p.rest ≡ text
    → Looks (tokenize_on fuel p)
unfolding tokenize_on token_loop tokens_left
tokenize_on-Looks zero p [] f e = simp e (Meets-ok _ _ _ tt)
tokenize_on-Looks zero p (c ∷ cs) f e = absurd (omega arith)
tokenize_on-Looks (suc fuel) p [] f e = simp e (Meets-ok _ _ _ tt)
tokenize_on-Looks (suc fuel) p (c ∷ cs) f e = simp e (
    token_round-Looks (tokenize_on fuel) p c cs (kind_of c) refl
      λ q h. tokenize_on-Looks fuel q q.rest (omega (arith, h, f)) refl)

tokenize_acf-Looks : (text : Bytes) → Looks (tokenize_acf text)
unfolding tokenize_acf
tokenize_acf-Looks text = tokenize_on-Looks (length text) _ text (omega arith) refl

Looks-not_out : {A : Type 0} (r : Result AcfError A) → Looks r → r ≢ err out_of_fuel
unfolding Meets
Looks-not_out (ok a) h e = cc e
Looks-not_out (err x) h e = h (ground (arith, e))

-- Whatever the text, inspecting it ends with the groups or with an error that the source throws: the
-- fuel of no loop is used up.
pub inspect_acf-ends : (text : Bytes) → inspect_acf text ≢ err out_of_fuel
unfolding inspect_acf
inspect_acf-ends text = Looks-not_out _ (
    Meets-bind _ _ _ (tokenize_acf text) _ (tokenize_acf-Looks text) λ tokens _. parse-Looks tokens)
