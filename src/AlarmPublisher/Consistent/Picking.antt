-- ===== src/AlarmPublisher/Consistent/Picking.antt =====
-- What holds of all slots holds of the one that a round of src/alarm_worker.cpp picks.
use redis_pvxs_ioc.Prelude.{
  ℕ, ◌≡◌, Bool, true, false, ◌&&◌, some, List, [], ◌∷◌, ◌++◌, ltb, if◌then◌else◌, if_cases, All,
  arith,
}
use mathlib.Core.Path.{subst}
use redis_pvxs_ioc.AlarmPublisher.Slots.{Slot, AlarmPublisher, current, pending}
use redis_pvxs_ioc.AlarmPublisher.Worker.{above, up_to, first_pending}

pub above-All :
    (P : Slot → Type 0) (last : ℕ) (slots : List Slot) → All P slots → All P (above last slots)
unfolding above
above-All P last [] h = tt
above-All P last (s ∷ slots) h =
    if_cases (All P) (ltb last s.id) (s ∷ above last slots) (above last slots)
      (λ _. (h.0, above-All P last slots h.1)) (λ _. above-All P last slots h.1)

pub up_to-All :
    (P : Slot → Type 0) (last : ℕ) (slots : List Slot) → All P slots → All P (up_to last slots)
unfolding up_to
up_to-All P last [] h = tt
up_to-All P last (s ∷ slots) h =
    if_cases (All P) (ltb last s.id) (up_to last slots) (s ∷ up_to last slots)
      (λ _. up_to-All P last slots h.1) (λ _. (h.0, up_to-All P last slots h.1))

pub All-append : (P : Slot → Type 0) (xs ys : List Slot) → All P xs → All P ys → All P (xs ++ ys)
All-append P [] ys h k = k
All-append P (x ∷ xs) ys h k = (h.0, All-append P xs ys h.1 k)

pub first_pending-All :
    (P : Slot → Type 0) (p : AlarmPublisher) (slots : List Slot) (s : Slot)
    → All P slots
    → first_pending p slots ≡ some s
    → P s
unfolding first_pending
first_pending-All P p [] s h e = absurd (cc e)
first_pending-All P p (t ∷ slots) s h e =
    go (current p t && pending p t) (first_pending-All P p slots s h.1) e
  where
    go :
        (b : Bool)
        → (first_pending p slots ≡ some s → P s)
        → (if b then some t else first_pending p slots) ≡ some s
        → P s
    go true behind k = subst P (ground (arith, k)) h.0
    go false behind k = behind k
