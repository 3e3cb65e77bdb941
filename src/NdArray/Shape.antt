-- ===== src/NdArray/Shape.antt =====
-- `parseShape` and `validateColorShape` of src/ntndarray.cpp. What is left of the text stands for the
-- position; the loop runs at most three times past its size test, so it recurs on the room left.
pub mod Bounds
use redis_pvxs_ioc.Prelude.{
  ℕ, zero, suc, ◌+◌, ◌-◌, ◌^◌, Bool, true, false, not, ◌&&◌, ◌||◌, Option, none, some, List, [],
  ◌∷◌, ◌++◌, ◌==◌, ltb, if◌then◌else◌, get_elem?,
}
use redis_pvxs_ioc.Prelude.Results.{Result, ok, err, ◌>>=◌, ◌>>◌, fail_if, or_fail}
use redis_pvxs_ioc.NdArray.{
  Bytes, FrameError, NdColorMode, mono, rgb1, rgb2, rgb3, is_digit, parse_unsigned, max_u64,
  shape_not_array, shape_rank, shape_not_positive, shape_out_of_range, shape_invalid_json,
  channel_dimension,
}

abbrev pub is_space : ℕ → Bool
is_space c = c == b' ' || (c == 9 || (c == 13 || c == 10))

unfoldable pub skip_whitespace : Bytes → Bytes
skip_whitespace [] = []
skip_whitespace (c ∷ cs) = if is_space c then skip_whitespace cs else c ∷ cs

-- The text after a given next byte: `position < text.size() && text[position] == c`, `++position`.
unfoldable pub after : ℕ → Bytes → Option Bytes
after c [] = none
after c (d ∷ ds) = if d == c then some ds else none

-- The digits that a text begins with, and what follows them.
unfoldable pub span_digits : Bytes → Bytes × Bytes
span_digits [] = ([], [])
span_digits (c ∷ cs) =
    let (digits, rest) = span_digits cs in if is_digit c then (c ∷ digits, rest) else ([], c ∷ cs)

unfoldable pub is_empty : {A : Type 0} → List A → Bool
is_empty [] = true
is_empty (x ∷ xs) = false

abbrev pub max_i32 : ℕ
max_i32 = 2 ^ 31 - 1

-- One dimension, and the text behind it.
unfoldable pub read_dimension : Bytes → Result FrameError (ℕ × Bytes)
unfolding span_digits is_empty
read_dimension text = do
  let found = span_digits text
  fail_if (is_empty found.0) shape_not_positive
  size ← parse_unsigned max_u64 found.0 "shape dimension"
  fail_if (size == 0 || ltb max_i32 size) shape_out_of_range
  ok (size, found.1)

abbrev pub Dimensions : Type 0
Dimensions = Result FrameError (List ℕ × Bytes)

-- After a dimension: a comma goes on with the loop, a bracket ends it.
unfoldable pub end_dimension :
    (List ℕ → Bytes → Dimensions) → List ℕ → Option Bytes → Option Bytes → Dimensions
end_dimension loop shape (some more) closed = loop shape more
end_dimension loop shape none (some rest) = ok (shape, rest)
end_dimension loop shape none none = err shape_invalid_json

unfoldable pub add_dimension :
    (List ℕ → Bytes → Dimensions) → List ℕ → Result FrameError (ℕ × Bytes) → Dimensions
unfolding end_dimension after skip_whitespace
add_dimension loop shape (err e) = err e
add_dimension loop shape (ok (size, rest)) =
    let text = skip_whitespace rest in
    end_dimension loop (shape ++ size ∷ []) (after b',' text) (after b']' text)

-- A round of the loop; `closed` is the text behind a bracket, if one stands next.
unfoldable pub next_dimension :
    (List ℕ → Bytes → Dimensions) → List ℕ → Bytes → Option Bytes → Dimensions
unfolding add_dimension read_dimension
next_dimension loop shape text (some rest) = ok (shape, rest)
next_dimension loop shape text none = add_dimension loop shape (read_dimension text)

unfoldable pub no_dimension : List ℕ → Option Bytes → Dimensions
no_dimension shape (some rest) = ok (shape, rest)
no_dimension shape none = err shape_rank

-- The loop, with `room` dimensions still allowed; `shape` are those that have been read.
unfoldable pub parse_dimensions : ℕ → List ℕ → Bytes → Dimensions
unfolding no_dimension next_dimension
parse_dimensions zero shape text = no_dimension shape (after b']' (skip_whitespace text))
parse_dimensions (suc room) shape text =
    next_dimension (parse_dimensions room) shape (skip_whitespace text)
      (after b']' (skip_whitespace text))

unfoldable pub parse_shape : Bytes → Result FrameError (List ℕ)
unfolding parse_dimensions is_empty
parse_shape value = do
  text ← or_fail (after b'[' (skip_whitespace value)) shape_not_array
  (shape, rest) ← parse_dimensions 3 [] text
  fail_if (not (is_empty (skip_whitespace rest))) shape_invalid_json
  fail_if (is_empty shape) shape_rank
  ok shape

channel_of : NdColorMode → ℕ
channel_of rgb1 = 0
channel_of rgb2 = 1
channel_of _ = 2

is_three : Option ℕ → Bool
is_three none = false
is_three (some n) = n == 3

unfoldable pub validate_color_shape : NdColorMode → List ℕ → Result FrameError (Unit {0})
unfolding channel_of is_three
validate_color_shape mono shape = ok tt
validate_color_shape mode shape =
    fail_if (not (is_three (get_elem? shape (channel_of mode)))) channel_dimension
