-- ===== src/AlarmPublisher/Ids.antt =====
-- The slots of src/alarm_worker.cpp in the order of their ids.
use redis_pvxs_ioc.Prelude.{
  ℕ, ◌≤◌, ◌<◌, ◌≡◌, ◌≢◌, refl, none, some, List, [], ◌∷◌, ◌++◌, ◌==◌, All, arith, if_cases,
}
use mathlib.Core.Path.{subst}
use redis_pvxs_ioc.AlarmPublisher.Slots.{Slot, find_slot, put_slot, erase_slot}

-- The ids rise from a bound to another.
unfoldable pub Between : ℕ → ℕ → List Slot → Type 0
Between low high [] = low ≤ high
Between low high (s ∷ slots) = (low < s.id) × Between s.id high slots

Between-le : (low high : ℕ) (slots : List Slot) → Between low high slots → low ≤ high
unfolding Between
Between-le low high [] h = h
Between-le low high (s ∷ slots) h = omega (arith, h.0, Between-le s.id high slots h.1)

pub find_slot-id : (id : ℕ) (slots : List Slot) (s : Slot) → find_slot id slots ≡ some s → s.id ≡ id
unfolding find_slot
find_slot-id id [] s h = cc
find_slot-id id (t ∷ slots) s h = ground (arith, find_slot-id id slots s)

pub find_slot-Between :
    (id low high : ℕ) (slots : List Slot) (s : Slot)
    → Between low high slots
    → find_slot id slots ≡ some s
    → (low < id) × (id ≤ high)
unfolding find_slot Between
find_slot-Between id low high [] s v h = cc
find_slot-Between id low high (t ∷ slots) s v h =
    ground (arith, v.0, find_slot-Between id t.id high slots s v.1, Between-le t.id high slots v.1)

Between-lower :
    (low lower high : ℕ) (slots : List Slot)
    → lower ≤ low
    → Between low high slots
    → Between lower high slots
unfolding Between
Between-lower low lower high [] le h = omega (arith, le, h)
Between-lower low lower high (s ∷ slots) le h = (omega (arith, le, h.0), h.1)

pub Between-put :
    (low high : ℕ) (s : Slot) (slots : List Slot)
    → Between low high slots
    → Between low high (put_slot s slots)
unfolding Between put_slot
Between-put low high s [] h = h
Between-put low high s (t ∷ slots) h =
    if_cases (Between low high) (t.id == s.id) (s ∷ slots) (t ∷ put_slot s slots)
      (λ e.
        let same : t.id ≡ s.id = ground arith in
        (omega (arith, h.0, same), subst (λ i. Between i high slots) same h.1))
      (λ e. (h.0, Between-put t.id high s slots h.1))

pub Between-erase :
    (low high id : ℕ) (slots : List Slot)
    → Between low high slots
    → Between low high (erase_slot id slots)
unfolding Between erase_slot
Between-erase low high id [] h = h
Between-erase low high id (t ∷ slots) h =
    if_cases (Between low high) (t.id == id) (erase_slot id slots) (t ∷ erase_slot id slots)
      (λ e.
        Between-erase low high id slots
          (Between-lower t.id low high slots (omega (arith, h.0)) h.1))
      (λ e. (h.0, Between-erase t.id high id slots h.1))

pub Between-add :
    (low high : ℕ) (s : Slot) (slots : List Slot)
    → high < s.id
    → Between low high slots
    → Between low s.id (slots ++ s ∷ [])
unfolding Between
Between-add low high s [] lt h = (omega (arith, lt, h), omega arith)
Between-add low high s (t ∷ slots) lt h = (h.0, Between-add t.id high s slots lt h.1)

pub find_slot-put_self :
    (s t : Slot) (slots : List Slot)
    → find_slot s.id slots ≡ some t
    → find_slot s.id (put_slot s slots) ≡ some s
unfolding find_slot put_slot
find_slot-put_self s t [] h = cc
find_slot-put_self s t (u ∷ slots) h = ground (arith, find_slot-put_self s t slots)

pub find_slot-put_ne :
    (id : ℕ) (s : Slot) (slots : List Slot)
    → id ≢ s.id
    → find_slot id (put_slot s slots) ≡ find_slot id slots
unfolding find_slot put_slot
find_slot-put_ne id s [] h = refl
find_slot-put_ne id s (u ∷ slots) h = ground (arith, find_slot-put_ne id s slots h)

pub find_slot-erase_self : (id : ℕ) (slots : List Slot) → find_slot id (erase_slot id slots) ≡ none
unfolding find_slot erase_slot
find_slot-erase_self id [] = refl
find_slot-erase_self id (u ∷ slots) = ground (arith, find_slot-erase_self id slots)

pub find_slot-erase_ne :
    (id other : ℕ) (slots : List Slot)
    → id ≢ other
    → find_slot id (erase_slot other slots) ≡ find_slot id slots
unfolding find_slot erase_slot
find_slot-erase_ne id other [] h = refl
find_slot-erase_ne id other (u ∷ slots) h = ground (arith, find_slot-erase_ne id other slots h)

pub find_slot-add_ne :
    (id : ℕ) (s : Slot) (slots : List Slot)
    → id ≢ s.id
    → find_slot id (slots ++ s ∷ []) ≡ find_slot id slots
unfolding find_slot
find_slot-add_ne id s [] h = ground arith
find_slot-add_ne id s (u ∷ slots) h = ground (arith, find_slot-add_ne id s slots h)

pub find_slot-add_self :
    (s : Slot) (low high : ℕ) (slots : List Slot)
    → Between low high slots
    → high < s.id
    → find_slot s.id (slots ++ s ∷ []) ≡ some s
unfolding find_slot Between
find_slot-add_self s low high [] v lt = ground arith
find_slot-add_self s low high (u ∷ slots) v lt =
    ground (arith, find_slot-add_self s u.id high slots v.1 lt, Between-le u.id high slots v.1)

Between-above :
    (low high : ℕ) (slots : List Slot) → Between low high slots → All (λ s. low < s.id) slots
unfolding Between
Between-above low high [] v = tt
Between-above low high (s ∷ slots) v =
    (v.0, Between-above low high slots (Between-lower s.id low high slots (omega (arith, v.0)) v.1))

All-both :
    {A : Type 0} (P Q R : A → Type 0) (xs : List A)
    → ((x : A) → P x → Q x → R x)
    → All P xs
    → All Q xs
    → All R xs
All-both P Q R [] f p q = tt
All-both P Q R (x ∷ xs) f p q = (f x p.0 q.0, All-both P Q R xs f p.1 q.1)

-- Each slot of the list is the one that its id finds.
pub Between-found :
    (low high : ℕ) (slots : List Slot)
    → Between low high slots
    → All (λ s. find_slot s.id slots ≡ some s) slots
unfolding find_slot Between
Between-found low high [] v = tt
Between-found low high (s ∷ slots) v = (
  ground arith,
  All-both (λ t. s.id < t.id) (λ t. find_slot t.id slots ≡ some t)
      (λ t. find_slot t.id (s ∷ slots) ≡ some t) slots (λ t p q. ground (arith, p, q))
      (Between-above s.id high slots v.1) (Between-found s.id high slots v.1),
)
