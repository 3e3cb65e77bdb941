-- ===== src/Secrets/Line.antt =====
-- What src/secrets.cpp takes for a secret.
use redis_pvxs_ioc.Prelude.{
  ℕ, suc, ◌+◌, ◌≤◌, ◌<◌, ◌⊎◌, inl, inr, if_cases, ◌≡◌, ◌≢◌, All, refl, Bool, true, false, not, [],
  ◌∷◌, ◌++◌, ◌==◌, zero, length-append, ltb, if◌then◌else◌, length, take, arith, ap, sym, ◌∙◌,
}
use redis_pvxs_ioc.Prelude.Results.{
  Result, ok, ◌>>◌, Meets, Meets-ok, Meets-fail_if, Meets-at, Meets-mono, Anything, fail_if,
}
use redis_pvxs_ioc.Prelude.Bytes.{Bytes}
use mathlib.Core.List.{append_assoc}
use mathlib.Core.Path.{subst}
use redis_pvxs_ioc.Secrets.{
  SecretError, SecretFile, limit, without_last, ends_in, one_line, has_break, secret_of,
  read_opened,
}

pub record IsSecret (value : Bytes) : Type 0 where
  pub some_text : 1 ≤ length value
  pub fits : length value ≤ limit
  pub one : All (λ b. (b ≢ 10) × (b ≢ 13) × (b ≢ 0)) value

-- A file whose text is a secret and the end of a line, of either kind or none.
pub data HasLine (secret : Bytes) : Bytes → Type 0 where
  bare : HasLine secret secret
  line_feed : HasLine secret (secret ++ 10 ∷ [])
  carriage_return : HasLine secret (secret ++ 13 ∷ 10 ∷ [])

has_break-All :
    (value : Bytes) → has_break value ≡ false → All (λ b. (b ≢ 10) × (b ≢ 13) × (b ≢ 0)) value
unfolding has_break
has_break-All [] h = tt
has_break-All (b ∷ rest) h = (
  (ground (arith, h), ground (arith, h), ground (arith, h)),
  has_break-All rest (ground (arith, h)),
)

All-has_break :
    (value : Bytes) → All (λ b. (b ≢ 10) × (b ≢ 13) × (b ≢ 0)) value → has_break value ≡ false
unfolding has_break
All-has_break [] v = refl
All-has_break (b ∷ rest) v = ground (arith, All-has_break rest)

secret_of-IsSecret :
    (value : Bytes) → Meets (λ v. (v ≡ value) × IsSecret v) Anything (secret_of value)
unfolding secret_of
secret_of-IsSecret value = Meets-fail_if _ (ltb limit (length value)) _ _ λ fits.
    Meets-fail_if _ (length value == 0) _ _ λ text. Meets-fail_if _ (has_break value) _ _ λ one.
      Meets-ok _ _ _ (
        refl,
        record { some_text = ground arith; fits = ground arith; one = has_break-All value one },
      )

ends_in-append : (c : ℕ) (xs : Bytes) (b : ℕ) → ends_in c (xs ++ b ∷ []) ≡ (b == c)
unfolding ends_in
ends_in-append c [] b = refl
ends_in-append c (x ∷ []) b = refl
ends_in-append c (x ∷ y ∷ xs) b = ends_in-append c (y ∷ xs) b

without_last-append :
    (c : ℕ) (xs : Bytes) (b : ℕ)
    → without_last c (xs ++ b ∷ []) ≡ (if b == c then xs else xs ++ b ∷ [])
unfolding without_last
without_last-append c [] b = refl
without_last-append c (x ∷ []) b = ground (arith)
without_last-append c (x ∷ y ∷ xs) b =
    ap (λ l. x ∷ l) (without_last-append c (y ∷ xs) b) ∙ cons_if (b == c)
  where
    cons_if :
        (same : Bool)
        → x ∷ (if same then y ∷ xs else (y ∷ xs) ++ b ∷ [])
          ≡ (if same then x ∷ y ∷ xs else x ∷ ((y ∷ xs) ++ b ∷ []))
    cons_if true = refl
    cons_if false = refl

ends_in-has_break : (xs : Bytes) → has_break xs ≡ false → ends_in 10 xs ≡ false
unfolding ends_in has_break
ends_in-has_break [] h = refl
ends_in-has_break (b ∷ []) h = ground arith
ends_in-has_break (b ∷ d ∷ rest) h = ends_in-has_break (d ∷ rest) (ground arith)

without_last-has_break : (xs : Bytes) → has_break xs ≡ false → without_last 13 xs ≡ xs
unfolding without_last has_break
without_last-has_break [] h = refl
without_last-has_break (b ∷ []) h = ground arith
without_last-has_break (b ∷ d ∷ rest) h =
    ap (λ l. b ∷ l) (without_last-has_break (d ∷ rest) (ground arith))

take_nil : (n : ℕ) → take {A = ℕ} n [] ≡ []
take_nil zero = refl
take_nil (suc n) = refl

take_all : (n : ℕ) (xs : Bytes) → length xs ≤ n → take n xs ≡ xs
take_all n [] h = take_nil n
take_all zero (x ∷ xs) h = absurd (omega (arith, h))
take_all (suc n) (x ∷ xs) h = ap (λ l. x ∷ l) (take_all n xs (omega (arith, h)))

-- A line feed at the end goes, and a carriage return before it.
one_line-feed : (xs : Bytes) → one_line (xs ++ 10 ∷ []) ≡ without_last 13 xs
unfolding one_line
one_line-feed xs =
    ap (λ b. if b then without_last 13 (without_last 10 (xs ++ 10 ∷ [])) else xs ++ 10 ∷ [])
      (ends_in-append 10 xs 10)
    ∙ ap (without_last 13) (without_last-append 10 xs 10)

one_line-HasLine :
    (secret text : Bytes) → has_break secret ≡ false → HasLine secret text → one_line text ≡ secret
unfolding one_line
one_line-HasLine secret text h bare =
    ap (λ b. if b then without_last 13 (without_last 10 secret) else secret)
      (ends_in-has_break secret h)
one_line-HasLine secret text h line_feed = one_line-feed secret ∙ without_last-has_break secret h
one_line-HasLine secret text h carriage_return =
    ap one_line (sym (append_assoc secret (13 ∷ []) (10 ∷ [])))
    ∙ one_line-feed (secret ++ 13 ∷ [])
    ∙ without_last-append 13 secret 13

length-HasLine : (secret text : Bytes) → HasLine secret text → length text ≤ length secret + 2
length-HasLine secret text bare = omega arith
length-HasLine secret text line_feed = omega (arith, length-append secret (10 ∷ []))
length-HasLine secret text carriage_return = omega (arith, length-append secret (13 ∷ 10 ∷ []))

secret_of-whole : (secret : Bytes) → IsSecret secret → secret_of secret ≡ ok secret
unfolding secret_of
secret_of-whole secret v = ground (arith, v.some_text, v.fits, All-has_break secret v.one)

passes :
    {A : Type 0} (bad : Bool) (e : SecretError) (rest : Result SecretError A)
    → bad ≡ false
    → (fail_if bad e >> rest) ≡ rest
passes bad e rest h = ap (λ b. fail_if b e >> rest) h

-- A regular file that can be inspected and read, and has a secret with or without the end of a line,
-- gives the secret.
pub read_opened-HasLine :
    (secret : Bytes) (file : SecretFile)
    → IsSecret secret
    → HasLine secret file.bytes
    → file.is_inspected ≡ true
    → file.is_regular ≡ true
    → file.is_read ≡ true
    → file.size ≡ length file.bytes
    → read_opened file ≡ ok secret
unfolding read_opened
read_opened-HasLine secret file v line a b c d =
    let short = length-HasLine secret file.bytes line in
    passes (not file.is_inspected) _ _ (ap not a)
    ∙ passes (not file.is_regular) _ _ (ap not b)
    ∙ passes (ltb (limit + 2) file.size) _ _ (ground (arith, short, v.fits, d))
    ∙ passes (not file.is_read) _ _ (ap not c)
    ∙ ap (λ t. secret_of (one_line t))
        (take_all (limit + 3) file.bytes (omega (arith, short, v.fits)))
    ∙ ap secret_of (one_line-HasLine secret file.bytes (All-has_break secret v.one) line)
    ∙ secret_of-whole secret v

ends_in-eq : (c : ℕ) (xs : Bytes) → ends_in c xs ≡ true → xs ≡ without_last c xs ++ c ∷ []
unfolding ends_in without_last
ends_in-eq c [] h = cc
ends_in-eq c (b ∷ []) h = ground (arith, h)
ends_in-eq c (b ∷ d ∷ rest) h = ap (λ l. b ∷ l) (ends_in-eq c (d ∷ rest) h)

without_last-cases :
    (c : ℕ) (xs : Bytes) → (without_last c xs ≡ xs) ⊎ (xs ≡ without_last c xs ++ c ∷ [])
unfolding without_last
without_last-cases c [] = inl refl
without_last-cases c (b ∷ []) = ground arith
without_last-cases c (b ∷ d ∷ rest) = elim (without_last-cases c (d ∷ rest)) [
  | inl kept ↦ inl (ap (λ l. b ∷ l) kept)
  | inr gone ↦ inr (ap (λ l. b ∷ l) gone)
]

-- A text that ends in a line feed, by what goes before it.
fed-HasLine : (x text : Bytes) → text ≡ x ++ 10 ∷ [] → HasLine (without_last 13 x) text
fed-HasLine x text e = elim (without_last-cases 13 x) [
  | inl kept ↦
      subst (HasLine (without_last 13 x)) (sym (e ∙ ap (λ l. l ++ 10 ∷ []) (sym kept))) line_feed
  | inr gone ↦
      subst (HasLine (without_last 13 x))
        (sym
          (e ∙ ap (λ l. l ++ 10 ∷ []) gone ∙ append_assoc (without_last 13 x) (13 ∷ []) (10 ∷ [])))
        carriage_return
]

one_line-buffer : (buffer : Bytes) → HasLine (one_line buffer) buffer
unfolding one_line
one_line-buffer buffer =
    if_cases (λ l. HasLine l buffer) (ends_in 10 buffer) _ _
      (λ fed. fed-HasLine (without_last 10 buffer) buffer (ends_in-eq 10 buffer fed)) (λ _. bare)

-- What is shorter than was asked for is all there is.
take_short : (n : ℕ) (xs : Bytes) → length (take n xs) < n → take n xs ≡ xs
take_short n [] h = take_nil n
take_short zero (x ∷ xs) h = absurd (omega (arith, h))
take_short (suc n) (x ∷ xs) h = ap (λ l. x ∷ l) (take_short n xs (omega (arith, h)))

-- What is accepted is not empty, has at most 16384 bytes and no line feed, carriage return or NUL; and the
-- file is a regular one that could be inspected and read, and has just this text, with or without the end
-- of a line.
pub read_opened-IsSecret :
    (file : SecretFile) (value : Bytes)
    → read_opened file ≡ ok value
    → IsSecret value
      × HasLine value file.bytes
      × (file.is_inspected ≡ true)
      × (file.is_regular ≡ true)
      × (file.is_read ≡ true)
unfolding read_opened
read_opened-IsSecret file value e = Meets-at _ _ _ _ accepted e
  where
    buffer : Bytes
    buffer = take (limit + 3) file.bytes

    whole : (v : Bytes) → v ≡ one_line buffer → IsSecret v → HasLine v file.bytes
    whole v same s =
        let line : HasLine v buffer =
          subst (λ l. HasLine l buffer) (sym same) (one_line-buffer buffer) in
        subst (HasLine v)
          (take_short (limit + 3) file.bytes (omega (arith, length-HasLine v buffer line, s.fits)))
          line

    accepted :
        Meets
          (λ v.
            IsSecret v
            × HasLine v file.bytes
            × (file.is_inspected ≡ true)
            × (file.is_regular ≡ true)
            × (file.is_read ≡ true))
          Anything
          (read_opened file)
    accepted = Meets-fail_if _ (not file.is_inspected) _ _ λ a.
        Meets-fail_if _ (not file.is_regular) _ _ λ b.
          Meets-fail_if _ (ltb (limit + 2) file.size) _ _ λ _.
            Meets-fail_if _ (not file.is_read) _ _ λ c.
              Meets-mono _ _ _ _ (secret_of-IsSecret (one_line buffer)) λ v h.
                (h.1, whole v h.0 h.1, ground (arith, a), ground (arith, b), ground (arith, c))
