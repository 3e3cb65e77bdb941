-- ===== src/Acf/Tokens/RoundTrip.antt =====
-- What the tokenizer of src/access_control.cpp reads from printed tokens.
use redis_pvxs_ioc.Prelude.{
  ℕ, zero, suc, ◌+◌, ◌≤◌, ◌≡◌, refl, ap, ◌∙◌, sym, Bool, true, false, ◌||◌, Option, none, some,
  List, [], ◌∷◌, ◌++◌, map, arith, length, length-append, ◌==◌, if◌then◌else◌, All, Bool-cases, inl,
  inr,
}
use mathlib.Core.List.{append_assoc, append-nil}
use redis_pvxs_ioc.Prelude.Results.{ok}
use redis_pvxs_ioc.Prelude.Bytes.{Bytes}
use redis_pvxs_ioc.Acf.{
  Token, Place, is_break, is_punctuation, kind_of, scan_word, string_char, step_over, scan_string,
  letter, punctuation, push, push_string, token_round, token_loop, tokens_left, tokenize_on,
  tokenize_acf,
}

-- A token without its position.
pub record Lexeme : Type 0 where
  pub text : Bytes
  pub quoted : Bool

unfoldable pub seen : Token → Lexeme
seen token = record { text = token.text; quoted = token.quoted }

unfoldable pub escape : Bytes → Bytes
escape [] = []
escape (c ∷ cs) =
    let rest = escape cs in if c == b'"' || c == b'\\' then b'\\' ∷ c ∷ rest else c ∷ rest

unfoldable pub print_lexeme : Lexeme → Bytes
unfolding escape
print_lexeme x = if x.quoted then b'"' ∷ (escape x.text ++ b'"' ∷ []) else x.text

-- Each behind a space.
unfoldable pub print : List Lexeme → Bytes
unfolding print_lexeme
print [] = []
print (x ∷ xs) = print_lexeme x ++ b' ' ∷ print xs

-- A string, a word, or a punctuation character.
pub data IsLexeme : Lexeme → Type 0 where
  string : (text : Bytes) → IsLexeme (record { text = text; quoted = true })
  word :
      (c : ℕ) (cs : Bytes)
      → All (λ b. is_break b ≡ false) (c ∷ cs)
      → IsLexeme (record { text = c ∷ cs; quoted = false })
  mark : (c : ℕ) → is_punctuation c ≡ true → IsLexeme (record { text = c ∷ []; quoted = false })

abbrev place : ℕ → ℕ → Bytes → Place
place line column rest = record { line = line; column = column; rest = rest }

scan_word-print :
    (line column : ℕ) (text rest junk : Bytes)
    → All (λ b. is_break b ≡ false) text
    → (column' : ℕ) × (scan_word (place line column junk) (text ++ b' ' ∷ rest)
        ≡ (text, place line column' (b' ' ∷ rest)))
unfolding scan_word
scan_word-print line column [] rest junk h = (column, refl)
scan_word-print line column (c ∷ cs) rest junk h =
    let (column', e) = scan_word-print line (column + 1) cs rest junk h.1 in
    (column', rw h.0 (rw e refl))

plain_char :
    (value : Bytes) (c : ℕ)
    → (c == b'"' || c == b'\\') ≡ false
    → string_char false value c ≡ some (false, value ++ c ∷ [])
unfolding string_char
plain_char value c h = ground arith

scan_plain :
    (value : Bytes) (p : Place) (c : ℕ) (text : Bytes)
    → (c == b'"' || c == b'\\') ≡ false
    → scan_string false value p (c ∷ text)
      ≡ scan_string false (value ++ c ∷ []) (step_over c p) text
unfolding scan_string
scan_plain value p c text h =
    ap {A = Option (Bool × Bytes)} {B = Option (Bytes × Place)}
      (λ o. elim o [
        | none ↦ some (value, record (step_over c p) { rest = text })
        | some (escaped', value') ↦ scan_string escaped' value' (step_over c p) text
      ])
      (plain_char value c h)

abbrev found : Bytes → ℕ → ℕ → Bytes → Option (Bytes × Place)
found value line column rest = some (value, place line column rest)

scan_string-print :
    (value : Bytes) (p : Place) (text rest : Bytes)
    → (line' : ℕ) × (column' : ℕ) × (scan_string false value p (escape text ++ b'"' ∷ rest)
        ≡ some (value ++ text, place line' column' rest))
unfolding scan_string escape string_char
scan_string-print value p [] rest =
    (p.line, p.column + 1, ap (λ v. found v p.line (p.column + 1) rest) (sym (append-nil value)))
scan_string-print value p (c ∷ cs) rest = elim (Bool-cases (c == b'"' || c == b'\\')) [
  | inl special ↦
      let (line', column', e) =
        scan_string-print (value ++ c ∷ []) (step_over c (step_over b'\\' p)) cs rest in
      (line', column', rw special (e ∙ shift line' column'))
  | inr plain ↦
      let (line', column', e) = scan_string-print (value ++ c ∷ []) (step_over c p) cs rest in
      (line', column', rw plain (scan_plain value p c _ plain ∙ e ∙ shift line' column'))
]
  where
    shift :
        (line' column' : ℕ)
        → found ((value ++ c ∷ []) ++ cs) line' column' rest
          ≡ found (value ++ c ∷ cs) line' column' rest
    shift line' column' = ap (λ v. found v line' column' rest) (append_assoc value (c ∷ []) cs)

letter_kind : (c : ℕ) → is_break c ≡ false → kind_of c ≡ letter
unfolding kind_of
letter_kind c h = ground arith

mark_kind : (c : ℕ) → is_punctuation c ≡ true → kind_of c ≡ punctuation
unfolding kind_of
mark_kind c h = ground arith

-- A printed token is read in one round, up to the space behind it.
tokenize_on-lexeme :
    (fuel line column : ℕ) (x : Lexeme) (rest : Bytes)
    → IsLexeme x
    → (token : Token) × (line' : ℕ) × (column' : ℕ) × (tokenize_on
          (suc fuel)
          (place line column (print_lexeme x ++ b' ' ∷ rest))
        ≡ push token (tokenize_on fuel (place line' column' (b' ' ∷ rest))))
      × (seen token ≡ x)
unfolding tokenize_on token_loop token_round kind_of push_string print_lexeme seen
tokenize_on-lexeme fuel line column _ rest (string text) =
    let start : Place =
      place line (column + 1) (b'"' ∷ ((escape text ++ b'"' ∷ []) ++ b' ' ∷ rest)) in
    let (line', column', e) = scan_string-print [] start text (b' ' ∷ rest) in
    (
      record { text = text; line = line; column = column; quoted = true },
      line',
      column',
      ap (push_string (tokenize_on fuel) (place line column start.rest)) (
          ap (scan_string false [] start) (append_assoc (escape text) (b'"' ∷ []) (b' ' ∷ rest))
          ∙ e),
      refl,
    )
tokenize_on-lexeme fuel line column _ rest (word c cs h) =
    let text : Bytes = (c ∷ cs) ++ b' ' ∷ rest in
    let (column', e) = scan_word-print line column (c ∷ cs) rest text h in
    (
      record { text = c ∷ cs; line = line; column = column; quoted = false },
      line,
      column',
      rw (letter_kind c h.0) (
          ap {A = Bytes × Place}
            (λ w.
              push (record { text = w.0; line = line; column = column; quoted = false })
                (tokenize_on fuel w.1))
            e),
      refl,
    )
tokenize_on-lexeme fuel line column _ rest (mark c h) = (
  record { text = c ∷ []; line = line; column = column; quoted = false },
  line,
  column + 1,
  rw (mark_kind c h) refl,
  refl,
)

length-print_lexeme : (x : Lexeme) → IsLexeme x → 1 ≤ length (print_lexeme x)
unfolding print_lexeme
length-print_lexeme _ (string text) = omega arith
length-print_lexeme _ (word c cs h) = omega arith
length-print_lexeme _ (mark c h) = omega arith

tokenize_on-space :
    (fuel line column : ℕ) (rest : Bytes)
    → tokenize_on (suc fuel) (place line column (b' ' ∷ rest))
      ≡ tokenize_on fuel (place line (column + 1) rest)
unfolding tokenize_on token_loop token_round kind_of
tokenize_on-space fuel line column rest = refl

-- Printed tokens, each behind a space, are read back as they were, wherever the text begins.
tokenize_on-print :
    (xs : List Lexeme) (fuel line column : ℕ)
    → All IsLexeme xs
    → length (print xs) ≤ fuel
    → (tokens : List Token) × (tokenize_on fuel (place line column (print xs)) ≡ ok tokens)
      × (map seen tokens ≡ xs)
unfolding print tokenize_on token_loop tokens_left push
tokenize_on-print [] zero line column h f = ([], refl, refl)
tokenize_on-print [] (suc fuel) line column h f = ([], refl, refl)
tokenize_on-print (x ∷ xs) zero line column h f =
    absurd (omega (arith, f, length-append (print_lexeme x) (b' ' ∷ print xs)))
tokenize_on-print (x ∷ xs) (suc zero) line column h f =
    absurd (
      omega (arith, f, length-print_lexeme x h.0, length-append (print_lexeme x) (b' ' ∷ print xs)))
tokenize_on-print (x ∷ xs) (suc (suc fuel)) line column h f =
    let (token, line', column', e, same) =
      tokenize_on-lexeme (suc fuel) line column x (print xs) h.0 in
    let (tokens, e1, same1) = tokenize_on-print xs fuel line' (column' + 1) h.1 (
      omega
        (arith, f, length-print_lexeme x h.0, length-append (print_lexeme x) (b' ' ∷ print xs))) in
    (
      token ∷ tokens,
      e ∙ ap (push token) (tokenize_on-space fuel line' column' (print xs) ∙ e1),
      ap (λ y. y ∷ map seen tokens) same ∙ ap (λ ys. x ∷ ys) same1,
    )

-- Tokenizing what is printed gives the tokens back, with their texts and quotes.
pub tokenize_acf-print :
    (xs : List Lexeme)
    → All IsLexeme xs
    → (tokens : List Token) × (tokenize_acf (print xs) ≡ ok tokens) × (map seen tokens ≡ xs)
unfolding tokenize_acf
tokenize_acf-print xs h = tokenize_on-print xs (length (print xs)) 1 1 h (omega arith)
