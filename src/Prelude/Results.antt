-- ===== src/Prelude/Results.antt =====
-- Code that throws returns `err` with what it throws.
use mathlib.Core.Path.{◌≡◌, refl, subst}
use native.Mathlib.Omega.{arith}
use mathlib.Core.Logic.{◌⊎◌, inl, inr}
use mathlib.Core.Bool.{Bool, true, false}
use redis_pvxs_ioc.Prelude.{if◌then◌else◌}
use mathlib.Core.Option.{Option, none, some}

pub data Result {ℓ} (E A : Type ℓ) : Type ℓ where
  ok : A → Result E A
  err : E → Result E A

abbrev pub ◌>>=◌ {ℓ} : {E A B : Type ℓ} → Result E A → (A → Result E B) → Result E B
err thrown >>= rest = err thrown
ok value >>= rest = rest value

abbrev pub ◌>>◌ {ℓ} : {E B : Type ℓ} → Result E (Unit {ℓ}) → Result E B → Result E B
first >> rest = first >>= λ done. rest

infixl 5 ◌>>=◌
infixl 5 ◌>>◌
-- if (bad) throw e;
abbrev pub fail_if : {E : Type 0} → Bool → E → Result E (Unit {0})
fail_if true e = err e
fail_if false e = ok tt

abbrev pub or_fail : {E A : Type 0} → Option A → E → Result E A
or_fail none e = err e
or_fail (some a) e = ok a

-- A chain that does not throw: its first step gave a value, and the rest did on it.
pub >>=-eq-ok {ℓ} :
    {E A B : Type ℓ} (step : Result E A) (rest : A → Result E B) {out : B}
    → (step >>= rest) ≡ ok out
    → (value : A) × (step ≡ ok value) × (rest value ≡ ok out)
>>=-eq-ok (err thrown) rest e = cc
>>=-eq-ok (ok value) rest e = (value, refl, e)

-- What holds of the result, where there is one.
pub record Ensures {E A : Type 0} (P : A → Type 0) (r : Result E A) : Type 0 where
  pub at : (a : A) → r ≡ ok a → P a

pub Ensures-ok : {E A : Type 0} (P : A → Type 0) (a : A) → P a → Ensures {E = E} P (ok a)
Ensures-ok P a p = record { at = λ b e. let same : a ≡ b = ground arith in subst P same p }

-- The rest of a chain may use that the step before it did not throw.
pub Ensures-bind :
    {E A B : Type 0} (P : B → Type 0) (m : Result E A) (f : A → Result E B)
    → ((a : A) → m ≡ ok a → Ensures P (f a))
    → Ensures P (m >>= f)
Ensures-bind P (ok a) f k = k a refl
Ensures-bind P (err e) f k = record { at = λ b h. absurd (cc h) }

pub Result-cases {ℓ} :
    {E A : Type ℓ} (r : Result E A) → ((e : E) × (r ≡ err e)) ⊎ ((a : A) × (r ≡ ok a))
Result-cases (ok a) = inr (a, refl)
Result-cases (err e) = inl (e, refl)

-- What holds of the value, and of what is thrown.
unfoldable pub Meets : {E A : Type 0} → (A → Type 0) → (E → Type 0) → Result E A → Type 0
Meets P Q (ok value) = P value
Meets P Q (err thrown) = Q thrown

pub Meets-bind :
    {E A B : Type 0} (R : A → Type 0) (P : B → Type 0) (Q : E → Type 0) (m : Result E A)
    (f : A → Result E B)
    → Meets R Q m
    → ((a : A) → R a → Meets P Q (f a))
    → Meets P Q (m >>= f)
unfolding Meets
Meets-bind R P Q (ok value) f h k = k value h
Meets-bind R P Q (err thrown) f h k = h

pub Meets-mono :
    {E A : Type 0} (R P : A → Type 0) (Q : E → Type 0) (m : Result E A)
    → Meets R Q m
    → ((a : A) → R a → P a)
    → Meets P Q m
unfolding Meets
Meets-mono R P Q (ok value) h k = k value h
Meets-mono R P Q (err thrown) h k = h

pub Meets-ok : {E A : Type 0} (P : A → Type 0) (Q : E → Type 0) (a : A) → P a → Meets P Q (ok a)
unfolding Meets
Meets-ok P Q a h = h

-- Either branch of a test.
pub Meets-branch :
    {E A : Type 0} (P : A → Type 0) (Q : E → Type 0) (b : Bool) (yes_ no_ : Result E A)
    → Meets P Q yes_
    → Meets P Q no_
    → Meets P Q (elim b [ true ↦ yes_ | false ↦ no_ ])
Meets-branch P Q true yes_ no_ h k = h
Meets-branch P Q false yes_ no_ h k = k

pub Meets-if :
    {E A : Type 0} (P : A → Type 0) (Q : E → Type 0) (b : Bool) (x y : Result E A)
    → Meets P Q x
    → Meets P Q y
    → Meets P Q (if b then x else y)
Meets-if P Q true x y h k = h
Meets-if P Q false x y h k = k

-- Nothing is asked of what is thrown.
abbrev pub Anything : {A : Type 0} → A → Type 0
Anything a = Unit {0}

pub Meets-any : {E A : Type 0} (m : Result E A) → Meets Anything Anything m
unfolding Meets
Meets-any (ok value) = tt
Meets-any (err thrown) = tt

pub Meets-fail_if :
    {E A : Type 0} (P : A → Type 0) (bad : Bool) (e : E) (rest : Result E A)
    → (bad ≡ false → Meets P Anything rest)
    → Meets P Anything (fail_if bad e >> rest)
unfolding Meets
Meets-fail_if P true e rest k = tt
Meets-fail_if P false e rest k = k refl

-- A value is what its own step gave.
pub Meets-self : {E A : Type 0} (m : Result E A) → Meets (λ a. m ≡ ok a) Anything m
unfolding Meets
Meets-self (ok value) = refl
Meets-self (err thrown) = tt

pub Meets-err : {E A : Type 0} (P : A → Type 0) (e : E) → Meets P Anything (err e)
unfolding Meets
Meets-err P e = tt

Meets-ok_inverse : {E A : Type 0} (P : A → Type 0) (Q : E → Type 0) (a : A) → Meets P Q (ok a) → P a
unfolding Meets
Meets-ok_inverse P Q a h = h

pub Meets-at :
    {E A : Type 0} (P : A → Type 0) (Q : E → Type 0) (m : Result E A) (a : A)
    → Meets P Q m
    → m ≡ ok a
    → P a
Meets-at P Q m a h e = Meets-ok_inverse P Q a (subst (Meets P Q) e h)
