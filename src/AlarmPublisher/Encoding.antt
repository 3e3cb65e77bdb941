-- ===== src/AlarmPublisher/Encoding.antt =====
-- How `StoredState::encode` of src/alarm_worker.cpp shortens a message.
use redis_pvxs_ioc.Prelude.{
  ℕ, zero, suc, ◌+◌, ◌≤◌, ◌<◌, ◌≡◌, refl, true, false, List, [], ◌∷◌, ◌++◌, ◌⊎◌, inl, inr, arith,
  length, get_elem?, take, length-append, Bool-cases,
}
use redis_pvxs_ioc.Prelude.Int.{ℤ}
use redis_pvxs_ioc.AlarmPublisher.{message_size, dots, continues, cut, shorten, encode}

cut-le : (n : ℕ) (message : List ℕ) → cut n message ≤ n
unfolding cut
cut-le zero message = omega arith
cut-le (suc n) message = ground (arith, cut-le n message)

-- The cut stands before a whole character, or at the start.
cut-boundary :
    (n : ℕ) (message : List ℕ)
    → (cut n message ≡ 0) ⊎ (continues (get_elem? message (cut n message)) ≡ false)
unfolding cut
cut-boundary zero message = inl refl
cut-boundary (suc n) message = elim (Bool-cases (continues (get_elem? message (suc n)))) [
  | inl inside ↦ rw inside (cut-boundary n message)
  | inr whole ↦ rw whole (inr whole)
]

-- No byte between the cut and the place that was asked for begins a character.
cut-greatest :
    (n i : ℕ) (message : List ℕ)
    → cut n message < i
    → i ≤ n
    → continues (get_elem? message i) ≡ true
unfolding cut
cut-greatest zero i message after le = absurd (omega arith)
cut-greatest (suc n) i message after le =
    elim (Bool-cases (continues (get_elem? message (suc n)))) [
      | inl inside ↦ elim (split i n le) [
        | inl below ↦ cut-greatest n i message (rw inside at after) below
        | inr same ↦ rw same inside
      ]
      | inr whole ↦ absurd (ground (arith, whole))
    ]
  where
    split : (i n : ℕ) → i ≤ suc n → (i ≤ n) ⊎ (i ≡ suc n)
    split i n h = omega arith

length-take_le : (n : ℕ) (xs : List ℕ) → length (take n xs) ≤ n
length-take_le zero xs = omega arith
length-take_le (suc n) [] = omega arith
length-take_le (suc n) (x ∷ xs) = omega (arith, length-take_le n xs)

length-shorten : (room : ℕ) (message : List ℕ) → length (shorten room message) ≤ room + 3
unfolding shorten
length-shorten room message = omega (
  arith,
  length-append (take (cut room message) message) dots,
  length-take_le (cut room message) message,
  cut-le room message,
)

-- The bytes that are kept: they end before a whole character, and no more of them could.
pub record IsCut (room : ℕ) (message : List ℕ) (kept : ℕ) : Type 0 where
  pub fits : kept ≤ room
  pub whole : (kept ≡ 0) ⊎ (continues (get_elem? message kept) ≡ false)
  pub greatest : (i : ℕ) → kept < i → i ≤ room → continues (get_elem? message i) ≡ true

-- A message of up to 512 bytes is stored as it is. Of a longer one the greatest prefix of up to 509
-- bytes that ends where a UTF-8 character begins (or is empty) is stored, and three dots behind it.
pub encode_lem :
    (severity status : ℤ) (message : List ℕ)
    → (length message ≤ message_size
        → encode severity status message
          ≡ (record { severity = severity; status = status; message = message }, false))
      × (message_size < length message
          → (kept : ℕ) × IsCut 509 message kept
            × (encode severity status message ≡ (
              record { severity = severity; status = status; message = take kept message ++ dots },
              true,
            )))
unfolding encode shorten
encode_lem severity status message = (
  λ short. ground arith,
  λ long. (
    cut 509 message,
    record {
      fits = cut-le 509 message;
      whole = cut-boundary 509 message;
      greatest = λ i after le. cut-greatest 509 i message after le;
    },
    ground arith,
  ),
)

-- What is stored has at most 512 bytes, whatever the message.
pub encode-bound :
    (severity status : ℤ) (message : List ℕ)
    → length (encode severity status message).0.message ≤ message_size
unfolding encode
encode-bound severity status message = ground (arith, length-shorten 509 message)
