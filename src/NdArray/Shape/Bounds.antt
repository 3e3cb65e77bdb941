-- ===== src/NdArray/Shape/Bounds.antt =====
-- What `parseShape` of src/ntndarray.cpp accepts.
use mathlib.Core.Path.{subst}
use redis_pvxs_ioc.Prelude.{
  ℕ, zero, suc, ◌+◌, ◌≤◌, ◌≡◌, refl, Bool, false, not, Option, none, some, List, [], ◌∷◌, ◌++◌,
  arith, length, length-append, All,
}
use redis_pvxs_ioc.Prelude.Results.{Result, ok, err, ◌>>◌, fail_if, or_fail, >>=-eq-ok}
use redis_pvxs_ioc.NdArray.{Bytes, FrameError, shape_invalid_json, shape_rank}
use redis_pvxs_ioc.NdArray.Shape.{
  max_i32, after, skip_whitespace, is_empty, read_dimension, Dimensions, end_dimension,
  add_dimension, next_dimension, no_dimension, parse_dimensions, parse_shape,
}

-- A dimension is positive and an int32.
pub record IsDimension (d : ℕ) : Type 0 where
  pub positive : 1 ≤ d
  pub small : d ≤ max_i32

-- The dimensions read, at most `n` of them, all in range.
abbrev Reads : ℕ → Dimensions → Type 0
Reads n (err e) = Unit {0}
Reads n (ok (shape, rest)) = All IsDimension shape × (length shape ≤ n)

All-append :
    (xs : List ℕ) (d : ℕ) → All IsDimension xs → IsDimension d → All IsDimension (xs ++ d ∷ [])
All-append [] d a h = (h, tt)
All-append (x ∷ xs) d a h = (a.0, All-append xs d a.1 h)

read_dimension-IsDimension :
    (text rest : Bytes) (size : ℕ) → read_dimension text ≡ ok (size, rest) → IsDimension size
unfolding read_dimension
read_dimension-IsDimension text rest size h = record {
  positive = ground arith;
  small = ground arith;
}

module _ (n : ℕ) (loop : List ℕ → Bytes → Dimensions) where
  end_dimension-Reads :
      (shape : List ℕ) (more closed : Option Bytes)
      → All IsDimension shape
      → length shape ≤ n
      → ((text : Bytes) → Reads n (loop shape text))
      → Reads n (end_dimension loop shape more closed)
  unfolding end_dimension
  end_dimension-Reads shape (some more) closed a l k = k more
  end_dimension-Reads shape none (some rest) a l k = (a, l)
  end_dimension-Reads shape none none a l k = tt

  add_dimension-Reads :
      (shape : List ℕ) (r : Result FrameError (ℕ × Bytes))
      → All IsDimension shape
      → length shape + 1 ≤ n
      → ((size : ℕ) (rest : Bytes) → r ≡ ok (size, rest) → IsDimension size)
      → ((size : ℕ) (text : Bytes) → IsDimension size → Reads n (loop (shape ++ size ∷ []) text))
      → Reads n (add_dimension loop shape r)
  unfolding add_dimension
  add_dimension-Reads shape (err e) a l d k = tt
  add_dimension-Reads shape (ok (size, rest)) a l d k =
      end_dimension-Reads (shape ++ size ∷ []) _ _ (All-append shape size a (d size rest refl))
        (omega (arith, length-append shape (size ∷ []))) (λ text. k size text (d size rest refl))

parse_dimensions-Reads :
    (room : ℕ) (shape : List ℕ) (text : Bytes)
    → All IsDimension shape
    → Reads (length shape + room) (parse_dimensions room shape text)
unfolding parse_dimensions
parse_dimensions-Reads zero shape text a = closing (after b']' (skip_whitespace text))
  where
    closing : (o : Option Bytes) → Reads (length shape + 0) (no_dimension shape o)
    closing none = tt
    closing (some rest) = (a, omega arith)
parse_dimensions-Reads (suc room) shape text a =
    round (parse_dimensions-Reads room) (after b']' (skip_whitespace text))
  where
    round :
        ((shape' : List ℕ) (rest : Bytes)
          → All IsDimension shape'
          → Reads (length shape' + room) (parse_dimensions room shape' rest))
        → (o : Option Bytes)
        → Reads
            (length shape + suc room)
            (next_dimension (parse_dimensions room) shape (skip_whitespace text) o)
    round again (some rest) = (a, omega arith)
    round again none =
        add_dimension-Reads (length shape + suc room) (parse_dimensions room) shape _ a
          (omega arith)
          (λ size rest e. read_dimension-IsDimension (skip_whitespace text) rest size e)
          (λ size rest d.
            subst (λ n. Reads n (parse_dimensions room (shape ++ size ∷ []) rest))
              (omega (arith, length-append shape (size ∷ [])))
              (again (shape ++ size ∷ []) rest (All-append shape size a d)))

is_empty-length : (xs : List ℕ) → is_empty xs ≡ false → 1 ≤ length xs
unfolding is_empty
is_empty-length [] h = cc
is_empty-length (x ∷ xs) h = omega arith

-- The last tests of `parseShape`.
accepted :
    (dims shape : List ℕ) (at_end : Bool)
    → All IsDimension dims × (length dims ≤ 3)
    → (fail_if (not at_end) shape_invalid_json >> (fail_if (is_empty dims) shape_rank >> ok dims))
      ≡ ok shape
    → All IsDimension shape × (1 ≤ length shape) × (length shape ≤ 3)
accepted dims shape at_end r h =
    let same : dims ≡ shape = ground arith in
    let filled : is_empty dims ≡ false = ground arith in
    subst (λ s. All IsDimension s × (1 ≤ length s) × (length s ≤ 3)) same
      (r.0, is_empty-length dims filled, r.1)

-- A shape that is accepted has one to three dimensions, each positive and an int32.
pub parse_shape_bounds :
    (text : Bytes) (shape : List ℕ)
    → parse_shape text ≡ ok shape
    → All IsDimension shape × (1 ≤ length shape) × (length shape ≤ 3)
unfolding parse_shape
parse_shape_bounds text shape h =
    let (inner, _, h1) = >>=-eq-ok (or_fail (after b'[' (skip_whitespace text)) _) _ h in
    let (p, e, h2) = >>=-eq-ok (parse_dimensions 3 [] inner) _ h1 in
    accepted p.0 shape (is_empty (skip_whitespace p.1))
      (subst (Reads 3) e (parse_dimensions-Reads 3 [] inner tt)) h2
