-- ===== src/Acf/Parser.antt =====
-- `AcfSubsetParser` of src/access_control.cpp. The tokens that are left stand for `position_`, and
-- `last` for the token before it. A loop takes a token in each round, so it runs on their number.
pub mod Lists
pub mod Rules
pub mod Ends
pub mod Whole
pub mod Policy
pub mod Reading
pub mod Conditions
pub mod Definitions
pub mod WrittenGroups
pub mod Accepted
pub mod Groups
use redis_pvxs_ioc.Prelude.{
  ℕ, zero, suc, ◌+◌, Bool, true, false, not, ◌&&◌, ◌||◌, Option, none, some, List, [], ◌∷◌, ◌++◌,
  ◌==◌, leb, ◌-◌, if◌then◌else◌, length, map,
}
use redis_pvxs_ioc.Prelude.Results.{Result, ok, err, ◌>>=◌, ◌>>◌, fail_if}
use redis_pvxs_ioc.Prelude.Bytes.{Bytes, bytes, same_bytes}
use redis_pvxs_ioc.Acf.{
  Token, AcfProblem, AcfError, deferred, expected, expected_name, one_name, duplicate,
  unknown_construct, only_rule, bad_level, bad_permission, bad_option, only_conditions,
  undefined_group, unexpected_end, at, out_of_fuel, is_punctuation, tokenize_acf,
}

pub data GroupKind : Type 0 where
  uag hag : GroupKind

pub record Reference : Type 0 where
  pub kind : GroupKind
  pub name : Bytes
  pub token : Token

pub record AcfSubsetParser : Type 0 where
  pub left : List Token
  pub last : Token
  pub uags : List Bytes
  pub hags : List Bytes
  pub references : List Reference

abbrev pub Parses : Type 0 → Type 0
Parses A = Result AcfError (A × AcfSubsetParser)

abbrev pub Moves : Type 0
Moves = Result AcfError AcfSubsetParser

-- std::toupper in the C locale
abbrev pub upper_char : ℕ → ℕ
upper_char c = if leb b'a' c && leb c b'z' then c - 32 else c

unfoldable pub upper : Bytes → Bytes
upper text = map upper_char text

abbrev pub keyword_of : GroupKind → Bytes
keyword_of uag = bytes "UAG"
keyword_of hag = bytes "HAG"

unfoldable pub contains : Bytes → List Bytes → Bool
contains name [] = false
contains name (x ∷ xs) = same_bytes x name || contains name xs

unfoldable pub done : AcfSubsetParser → Bool
done p = elim p.left [ [] ↦ true | token ∷ rest ↦ false ]

unfoldable pub peek_left : List Token → Result AcfError Token
peek_left [] = err unexpected_end
peek_left (token ∷ rest) = ok token

unfoldable pub peek : AcfSubsetParser → Result AcfError Token
unfolding peek_left
peek p = peek_left p.left

unfoldable pub take_left : AcfSubsetParser → List Token → Parses Token
take_left p [] = err unexpected_end
take_left p (token ∷ rest) = ok (token, record p { left = rest; last = token })

unfoldable pub take : AcfSubsetParser → Parses Token
unfolding take_left
take p = take_left p p.left

unfoldable pub expect : Bytes → AcfSubsetParser → Moves
unfolding take same_bytes
expect text p = do
  (token, p') ← take p
  fail_if (not (same_bytes token.text text)) (at token (expected text))
  ok p'

-- Whether the next token has the given text.
unfoldable pub next_is : Bytes → AcfSubsetParser → Result AcfError Bool
unfolding peek same_bytes
next_is text p = do token ← peek p; ok (same_bytes token.text text)

-- A one-character text that is a punctuation.
unfoldable pub is_mark : Bytes → Bool
is_mark (c ∷ []) = is_punctuation c
is_mark _ = false

unfoldable pub is_name : Token → Bool
unfolding is_mark same_bytes
is_name token = not (same_bytes token.text []) && (token.quoted || not (is_mark token.text))

unfoldable pub name : AcfSubsetParser → Parses Token
unfolding take is_name
name p = do
  (token, p') ← take p
  fail_if (not (is_name token)) (at token expected_name)
  ok (token, p')

unfoldable pub is_input : Bytes → Bool
unfolding same_bytes
is_input (i ∷ n ∷ p ∷ c ∷ []) =
    same_bytes (i ∷ n ∷ p ∷ []) (bytes "INP") && (leb b'A' c && leb c b'U')
is_input _ = false

-- CALC, and INPA to INPU
unfoldable pub is_deferred : Bytes → Bool
unfolding same_bytes is_input
is_deferred keyword = same_bytes keyword (bytes "CALC") || is_input keyword

unfoldable pub reject_deferred : Token → Result AcfError (Unit {0})
unfolding is_deferred upper
reject_deferred token =
    fail_if (not token.quoted && is_deferred (upper token.text))
      (at token (deferred (upper token.text)))

-- An unquoted keyword
unfoldable pub is_keyword : Bytes → Token → Bool
unfolding upper same_bytes
is_keyword keyword token = not token.quoted && same_bytes (upper token.text) keyword
