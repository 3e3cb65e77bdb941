-- ===== src/Prelude/Lists.antt =====
-- Lists measured and indexed by the native numbers, predicates on them, and the chain of steps
-- that may fail.
use Prim.Native.Nat.{ℕ, zero, suc, ◌+◌, ◌<◌}
use mathlib.Core.Path.{◌≡◌, refl}
use mathlib.Core.Logic.{◌≢◌}
use mathlib.Core.List.{List, [], ◌∷◌, ◌++◌}
use mathlib.Core.Option.{Option, none, some}
use native.Mathlib.Omega.{arith}

module _ {ℓ} {A : Type ℓ} where
  abbrev pub length : List A → ℕ
  length [] = 0
  length (x ∷ xs) = suc (length xs)

  abbrev pub get_elem? : List A → ℕ → Option A
  get_elem? [] i = none
  get_elem? (x ∷ xs) zero = some x
  get_elem? (x ∷ xs) (suc i) = get_elem? xs i

  abbrev pub get_or : List A → ℕ → A → A
  get_or [] i other = other
  get_or (x ∷ xs) zero other = x
  get_or (x ∷ xs) (suc i) other = get_or xs i other

  -- A write out of bounds changes nothing.
  abbrev pub set : List A → ℕ → A → List A
  set [] i v = []
  set (x ∷ xs) zero v = v ∷ xs
  set (x ∷ xs) (suc i) v = x ∷ set xs i v

  abbrev pub take : ℕ → List A → List A
  take zero xs = []
  take (suc n) [] = []
  take (suc n) (x ∷ xs) = x ∷ take n xs

  abbrev pub drop : ℕ → List A → List A
  drop zero xs = xs
  drop (suc n) [] = []
  drop (suc n) (x ∷ xs) = drop n xs

  pub length-append : (xs ys : List A) → length (xs ++ ys) ≡ length xs + length ys
  length-append [] ys = omega arith
  length-append (x ∷ xs) ys = omega (arith, length-append xs ys)

  pub length-set : (xs : List A) (i : ℕ) (v : A) → length (set xs i v) ≡ length xs
  length-set [] i v = refl
  length-set (x ∷ xs) zero v = refl
  length-set (x ∷ xs) (suc i) v = omega (arith, length-set xs i v)

  pub get_or-set_self :
      (xs : List A) (i : ℕ) (v other : A) → i < length xs → get_or (set xs i v) i other ≡ v
  get_or-set_self [] i v other h = absurd (omega arith)
  get_or-set_self (x ∷ xs) zero v other h = refl
  get_or-set_self (x ∷ xs) (suc i) v other h = get_or-set_self xs i v other (omega arith)

  pub get_or-set_ne :
      (xs : List A) (i j : ℕ) (v other : A)
      → i ≢ j
      → get_or (set xs i v) j other ≡ get_or xs j other
  get_or-set_ne [] i j v other h = refl
  get_or-set_ne (x ∷ xs) zero zero v other h = absurd (h refl)
  get_or-set_ne (x ∷ xs) zero (suc j) v other h = refl
  get_or-set_ne (x ∷ xs) (suc i) zero v other h = refl
  get_or-set_ne (x ∷ xs) (suc i) (suc j) v other h =
      get_or-set_ne xs i j v other (λ e. h (omega (arith, e)))

  pub get_elem?-append :
      (xs : List A) (x : A) (i : ℕ) → i < length xs → get_elem? (xs ++ x ∷ []) i ≡ get_elem? xs i
  get_elem?-append [] x i h = absurd (omega arith)
  get_elem?-append (y ∷ xs) x zero h = refl
  get_elem?-append (y ∷ xs) x (suc i) h = get_elem?-append xs x i (omega arith)

  pub get_elem?-append_last : (xs : List A) (x : A) → get_elem? (xs ++ x ∷ []) (length xs) ≡ some x
  get_elem?-append_last [] x = refl
  get_elem?-append_last (y ∷ xs) x = get_elem?-append_last xs x

  abbrev pub All {κ} : (A → Type κ) → List A → Type κ
  All P [] = Unit
  All P (x ∷ xs) = P x × All P xs

-- A step that throws returns `none`.
infixl 5 ◌>>=◌
abbrev pub ◌>>=◌ {ℓ κ} : {A : Type ℓ} {B : Type κ} → Option A → (A → Option B) → Option B
none >>= f = none
some a >>= f = f a
