-- ===== src/Acf.antt =====
-- The reader of access policies (ACF) in src/access_control.cpp: what its parts share, and the
-- tokenizer. The text is the list of its bytes, and what is left of it stands for `index`.
pub mod Parser
pub mod Tokens
mod Tests
use redis_pvxs_ioc.Prelude.{
  ℕ, zero, suc, ◌+◌, ◌-◌, Bool, true, false, not, ◌&&◌, ◌||◌, Option, none, some, List, [], ◌∷◌,
  ◌++◌, ◌==◌, leb, if◌then◌else◌, length,
}
use redis_pvxs_ioc.Prelude.Results.{Result, ok, err, ◌>>=◌}
use redis_pvxs_ioc.Prelude.Bytes.{Bytes}

pub record Token : Type 0 where
  pub text : Bytes
  pub line : ℕ
  pub column : ℕ
  pub quoted : Bool

-- What `acfError` says of a token.
pub data AcfProblem : Type 0 where
  deferred : Bytes → AcfProblem
  expected : Bytes → AcfProblem
  expected_name : AcfProblem
  one_name : Bytes → AcfProblem
  duplicate : Bytes → Bytes → AcfProblem
  unknown_construct : AcfProblem
  only_rule : AcfProblem
  bad_level : AcfProblem
  bad_permission : AcfProblem
  bad_option : AcfProblem
  only_conditions : AcfProblem
  undefined_group : Bytes → Bytes → AcfProblem

pub data AcfError : Type 0 where
  unterminated : ℕ → ℕ → AcfError
  unexpected_end : AcfError
  at : Token → AcfProblem → AcfError
  out_of_fuel : AcfError

-- std::isspace in the C locale
abbrev pub is_space : ℕ → Bool
is_space c = c == b' ' || (leb 9 c && leb c 13)

-- '(', ')', '{', '}', ','
abbrev pub is_punctuation : ℕ → Bool
is_punctuation c = c == b'(' || (c == b')' || (c == b'{' || (c == b'}' || c == b',')))

-- What ends a word.
abbrev pub is_break : ℕ → Bool
is_break c = is_space c || (is_punctuation c || (c == b'#' || c == b'"'))

-- The branches of the loop, in the order of its tests.
pub data CharKind : Type 0 where
  newline space comment quote letter punctuation : CharKind

unfoldable pub kind_of : ℕ → CharKind
kind_of c =
    if is_space c
    then (if c == 10 then newline else space)
    else if c == b'#'
    then comment
    else if c == b'"'
    then quote
    else if not (is_punctuation c)
    then letter
    else punctuation

-- The rest of the text, and where it begins.
pub record Place : Type 0 where
  pub line : ℕ
  pub column : ℕ
  pub rest : Bytes

unfoldable pub skip_comment : Place → Bytes → Place
skip_comment p [] = record p { rest = [] }
skip_comment p (c ∷ cs) =
    let later = skip_comment (record p { column = p.column + 1 }) cs in
    if c == 10 then record p { rest = c ∷ cs } else later

unfoldable pub scan_word : Place → Bytes → Bytes × Place
scan_word p [] = ([], record p { rest = [] })
scan_word p (c ∷ cs) =
    let (word, later) = scan_word (record p { column = p.column + 1 }) cs in
    if is_break c then ([], record p { rest = c ∷ cs }) else (c ∷ word, later)

-- `line` and `column` behind a character of a string
unfoldable pub step_over : ℕ → Place → Place
step_over c p =
    if c == 10
    then record p { line = p.line + 1; column = 1 }
    else record p { column = p.column + 1 }

-- A character of a string: what `escaped` and `value` become, or the end.
unfoldable pub string_char : Bool → Bytes → ℕ → Option (Bool × Bytes)
string_char escaped value c =
    if escaped
    then some (false, value ++ c ∷ [])
    else if c == b'\\'
    then some (true, value)
    else if c == b'"'
    then none
    else some (false, value ++ c ∷ [])

unfoldable pub scan_string : Bool → Bytes → Place → Bytes → Option (Bytes × Place)
unfolding string_char step_over
scan_string escaped value p [] = none
scan_string escaped value p (c ∷ cs) = elim (string_char escaped value c) [
  | none ↦ some (value, record (step_over c p) { rest = cs })
  | some (escaped', value') ↦ scan_string escaped' value' (step_over c p) cs
]

abbrev pub TokenList : Type 0
TokenList = Result AcfError (List Token)

unfoldable pub push : Token → TokenList → TokenList
push token (ok tokens) = ok (token ∷ tokens)
push token (err e) = err e

-- After the opening quote; `start` is where it stands.
unfoldable pub push_string : (Place → TokenList) → Place → Option (Bytes × Place) → TokenList
unfolding push
push_string loop start none = err (unterminated start.line start.column)
push_string loop start (some (value, p)) =
    push (record { text = value; line = start.line; column = start.column; quoted = true }) (loop p)

-- One round of the loop, by the kind of the next character `c`.
unfoldable pub token_round : (Place → TokenList) → Place → ℕ → Bytes → CharKind → TokenList
unfolding skip_comment scan_word scan_string push push_string
token_round loop p c cs newline = loop (record { line = p.line + 1; column = 1; rest = cs })
token_round loop p c cs space = loop (record p { column = p.column + 1; rest = cs })
token_round loop p c cs comment = loop (skip_comment p (c ∷ cs))
token_round loop p c cs quote =
    push_string loop p (scan_string false [] (record p { column = p.column + 1 }) cs)
token_round loop p c cs letter =
    let (word, later) = scan_word p (c ∷ cs) in
    push (record { text = word; line = p.line; column = p.column; quoted = false }) (loop later)
token_round loop p c cs punctuation =
    push (record { text = c ∷ []; line = p.line; column = p.column; quoted = false })
      (loop (record p { column = p.column + 1; rest = cs }))

unfoldable pub token_loop : (Place → TokenList) → Place → Bytes → TokenList
unfolding token_round kind_of
token_loop loop p [] = ok []
token_loop loop p (c ∷ cs) = token_round loop p c cs (kind_of c)

unfoldable pub tokens_left : Bytes → TokenList
tokens_left [] = ok []
tokens_left (c ∷ cs) = err out_of_fuel

-- The loop, where each round takes at least one character of the text.
unfoldable pub tokenize_on : ℕ → Place → TokenList
unfolding token_loop tokens_left
tokenize_on zero p = tokens_left p.rest
tokenize_on (suc fuel) p = token_loop (tokenize_on fuel) p p.rest

unfoldable pub tokenize_acf : Bytes → TokenList
unfolding tokenize_on
tokenize_acf text = tokenize_on (length text) (record { line = 1; column = 1; rest = text })
