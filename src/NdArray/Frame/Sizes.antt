-- ===== src/NdArray/Frame/Sizes.antt =====
-- The sizes that `parseNDArrayFrame` of src/ntndarray.cpp computes in 64 bits, against the true ones.
use mathlib.Core.List.{reverse, reverse-cons}
use native.Mathlib.Nat.{le-div_iff_mul-le, div-lt_iff_lt-mul, mul_assoc, mod-eq_of_lt}
use redis_pvxs_ioc.Prelude.{
  ℕ, zero, suc, ◌+◌, ◌*◌, ◌/◌, ◌%◌, ◌≤◌, ◌<◌, ◌≡◌, ◌↔◌, refl, ap, Bool, not, ◌&&◌, List, [], ◌∷◌,
  arith, ltb, ltb→lt, if◌then◌else◌, length, length-append, take, drop, word, All, Bool-cases,
  if_cases, inl, inr,
}
use redis_pvxs_ioc.Prelude.Results.{ok, err, Result-cases}
use redis_pvxs_ioc.Config.{PrimitiveType}
use redis_pvxs_ioc.NdArray.{
  Bytes, max_u64, element_size, element_count_overflow, byte_count_overflow, frame_too_large,
}
use redis_pvxs_ioc.NdArray.Shape.Bounds.{IsDimension}
use redis_pvxs_ioc.NdArray.Frame.{
  count_elements, expected_bytes, swap_elements, host_order, width_of,
}

one-le-mul : {m n : ℕ} → 1 ≤ m → 1 ≤ n → 1 ≤ m * n
one-le-mul p q = grind arith

le-mul : (m n : ℕ) → 1 ≤ n → m ≤ m * n
le-mul m n h = grind arith

-- The number of elements of a shape.
abbrev pub product : List ℕ → ℕ
product [] = 1
product (d ∷ ds) = d * product ds

pub product_pos : (shape : List ℕ) → All IsDimension shape → 1 ≤ product shape
product_pos [] a = omega arith
product_pos (d ∷ ds) a = one-le-mul a.0.positive (product_pos ds a.1)

-- The loop finds the true number of elements, or throws exactly where 64 bits do not hold it.
pub count_elements_lem :
    (elements : ℕ) (shape : List ℕ)
    → All IsDimension shape
    → elements < word
    → 1 ≤ elements
    → count_elements elements shape ≡ (
        if ltb max_u64 (elements * product shape)
        then err element_count_overflow
        else ok (elements * product shape))
unfolding count_elements
count_elements_lem elements [] a w p = ground arith
count_elements_lem elements (d ∷ ds) a w p = elim (Bool-cases (ltb (max_u64 / d) elements)) [
  | inl over ↦
      let big : max_u64 < elements * d = (div-lt_iff_lt-mul a.0.positive).0 (ltb→lt _ _ over) in
      ground (arith, over, assoc, grows, big)
  | inr fits ↦
      let small : elements * d ≤ max_u64 = (le-div_iff_mul-le a.0.positive).0 (ground arith) in
      let exact : elements * d % word ≡ elements * d = mod-eq_of_lt (omega arith) in
      rw (fits, exact, ← assoc)
        (count_elements_lem (elements * d) ds a.1 (omega arith) (one-le-mul p a.0.positive))
]
  where
    assoc : elements * d * product ds ≡ elements * (d * product ds)
    assoc = mul_assoc elements d (product ds)

    grows : elements * d ≤ elements * d * product ds
    grows = le-mul (elements * d) (product ds) (product_pos ds a.1)

element_size_pos :
    (data_type : PrimitiveType) (width : ℕ) → element_size data_type ≡ ok width → 1 ≤ width
unfolding element_size
element_size_pos data_type width e = ground arith

-- The bytes that a frame must have are the true product, or the first test that fails is thrown: the
-- element count or the byte count passes 64 bits, or the frame passes its limit.
pub expected_bytes_lem :
    (data_type : PrimitiveType) (width max_frame_bytes : ℕ) (shape : List ℕ)
    → All IsDimension shape
    → element_size data_type ≡ ok width
    → expected_bytes data_type shape max_frame_bytes ≡ (
        if ltb max_u64 (product shape)
        then err element_count_overflow
        else if ltb max_u64 (product shape * width)
        then err byte_count_overflow
        else if ltb max_frame_bytes (product shape * width)
        then err frame_too_large
        else ok (product shape * width))
unfolding expected_bytes
expected_bytes_lem data_type width max_frame_bytes shape a e =
    rw (count_elements_lem 1 shape a (omega arith) (omega arith))
      (elim (Bool-cases (ltb max_u64 (product shape))) [
        | inl over ↦ ground (arith, over)
        | inr small ↦ ground (
          arith,
          small,
          e,
          limit,
          room (product shape),
          mod-eq_of_lt {n = product shape * width} {m = word},
        )
      ])
  where
    positive : 1 ≤ width
    positive = element_size_pos data_type width e

    limit : (max_u64 / width < product shape) ↔ (max_u64 < product shape * width)
    limit = div-lt_iff_lt-mul positive

    room : (n : ℕ) → (n ≤ max_u64 / width) ↔ (n * width ≤ max_u64)
    room n = le-div_iff_mul-le positive

pub expected_bytes-eq-ok :
    (data_type : PrimitiveType) (max_frame_bytes expected : ℕ) (shape : List ℕ)
    → All IsDimension shape
    → expected_bytes data_type shape max_frame_bytes ≡ ok expected
    → (width : ℕ) × (element_size data_type ≡ ok width)
      × (expected ≡ product shape * width)
      × (expected ≤ max_frame_bytes)
      × (expected < word)
unfolding expected_bytes
expected_bytes-eq-ok data_type max expected shape a h =
    elim (Result-cases (element_size data_type)) [
      | inl (e, bad) ↦ absurd (ground (arith, bad))
      | inr (width, good) ↦ (
        width,
        good,
        ground (arith, expected_bytes_lem data_type width max shape a good),
        ground (arith, expected_bytes_lem data_type width max shape a good),
        ground (arith, expected_bytes_lem data_type width max shape a good),
      )
    ]

length-reverse : (xs : Bytes) → length (reverse xs) ≡ length xs
length-reverse [] = refl
length-reverse (x ∷ xs) =
    omega
      (arith, ap length (reverse-cons x xs), length-append (reverse xs) (x ∷ []), length-reverse xs)

length-take-drop : (n : ℕ) (xs : Bytes) → length (take n xs) + length (drop n xs) ≡ length xs
length-take-drop zero xs = omega arith
length-take-drop (suc n) [] = omega arith
length-take-drop (suc n) (x ∷ xs) = omega (arith, length-take-drop n xs)

length-swap_elements :
    (n width : ℕ) (payload : Bytes) → length (swap_elements n width payload) ≡ length payload
unfolding swap_elements
length-swap_elements zero width payload = refl
length-swap_elements (suc n) width payload = omega (
  arith,
  length-append (reverse (take width payload)) (swap_elements n width (drop width payload)),
  length-reverse (take width payload),
  length-swap_elements n width (drop width payload),
  length-take-drop width payload,
)

-- The host's byte order does not change the number of bytes.
pub length-host_order :
    (little_endian : Bool) (data_type : PrimitiveType) (payload : Bytes)
    → length (host_order little_endian data_type payload) ≡ length payload
unfolding host_order
length-host_order little_endian data_type payload =
    if_cases SameLength (ltb 1 (width_of data_type) && not little_endian) _ _
      (λ _. length-swap_elements (length payload / width_of data_type) (width_of data_type) payload)
      (λ _. refl)
  where
    SameLength : Bytes → Type 0
    SameLength p = length p ≡ length payload
