-- ===== src/AlarmPublisher/Ring/Fifo.antt =====
-- The ring of src/alarm_worker.cpp as the queue of its events, oldest first.
use native.Mathlib.Nat.{mod-add-mod, mod-eq_of_lt, mod-eq-sub-mod, mod-lt}
use mathlib.Core.Path.{subst}
use native.Mathlib.Decide.{dec_lt}
use redis_pvxs_ioc.Prelude.{
  ℕ, zero, suc, ◌+◌, ◌-◌, ◌%◌, ◌≤◌, ◌<◌, ◌≡◌, ◌≢◌, refl, sym, ap, ◌∙◌, none, some, List, [], ◌∷◌,
  ◌++◌, arith, ◌⊎◌, inl, inr, length, length-append, get_elem?, get_or, set, length-set,
  get_or-set_self, get_or-set_ne, get_elem?-append, get_elem?-append_last,
}
use redis_pvxs_ioc.AlarmPublisher.Ring.{Ring, cells_of, new_ring, push, drop_head, peek, drop_all}

-- A place that is less than twice round the ring.
once_round :
    (n size : ℕ)
    → n < size + size
    → ((n < size) × (n % size ≡ n)) ⊎ ((size ≤ n) × (n % size ≡ n - size))
once_round n size h = elim (dec_lt n size) [
  | yes p ↦ inl (p, mod-eq_of_lt p)
  | no p ↦
      inr (omega (arith, p), mod-eq-sub-mod (omega (arith, p)) ∙ mod-eq_of_lt (omega (arith, p, h)))
]

-- Fewer steps than there are cells do not come back to where they began.
around_ne :
    (size head i j : ℕ) → head < size → i < j → j < size → (head + i) % size ≢ (head + j) % size
around_ne size head i j h k l e = elim (once_round (head + i) size (omega arith)) [
  | inl a ↦ elim (once_round (head + j) size (omega arith)) [
    | inl b ↦ omega (arith, a, b, e)
    | inr b ↦ omega (arith, a, b, e)
  ]
  | inr a ↦ elim (once_round (head + j) size (omega arith)) [
    | inl b ↦ omega (arith, a, b, e)
    | inr b ↦ omega (arith, a, b, e)
  ]
]

pub cells_of-length : (A : Type 0) (n : ℕ) → length (cells_of {A = A} n) ≡ n
unfolding cells_of
cells_of-length A zero = refl
cells_of-length A (suc n) = ap suc (cells_of-length A n)

-- A ring with some cells holds the events of a queue, each in its cell from `head` on.
pub record Represents {A : Type 0} (r : Ring A) (queue : List A) : Type 0 where
  pub counted : r.count ≡ length queue
  pub fits : r.count ≤ length r.cells
  pub head_in : r.head < length r.cells
  pub at :
      (i : ℕ)
      → i < r.count
      → get_or r.cells ((r.head + i) % length r.cells) none ≡ get_elem? queue i

pub new_ring-Represents :
    (A : Type 0) (entries : ℕ) → 1 ≤ entries → Represents (new_ring {A = A} entries) []
unfolding new_ring
new_ring-Represents A entries h = record {
  counted = refl;
  fits = omega arith;
  head_in = omega (arith, cells_of-length A entries);
  at = λ i k. absurd (omega arith);
}

module _ {A : Type 0} (r : Ring A) where
  -- The cell that is written has the event, and those before it what they had.
  written :
      (event : A) (queue : List A)
      → Represents r queue
      → r.count < length r.cells
      → (i : ℕ) → i < r.count + 1
      → get_or
          (set r.cells ((r.head + r.count) % length r.cells) (some event))
          ((r.head + i) % length (set r.cells ((r.head + r.count) % length r.cells) (some event)))
          none
        ≡ get_elem? (queue ++ event ∷ []) i
  written event queue v room i h =
      ap (λ n. get_or (set r.cells tail (some event)) ((r.head + i) % n) none)
        (length-set r.cells tail (some event))
      ∙ elim (dec_lt i r.count) [
        | yes p ↦
            get_or-set_ne r.cells tail ((r.head + i) % length r.cells) (some event) none
              (λ e. around_ne (length r.cells) r.head i r.count v.head_in p room (sym e))
            ∙ v.at i p
            ∙ sym (get_elem?-append queue event i (omega (arith, p, v.counted)))
        | no p ↦ last (omega (arith, p, h))
      ]
    where
      tail : ℕ
      tail = (r.head + r.count) % length r.cells

      last :
          i ≡ r.count
          → get_or (set r.cells tail (some event)) ((r.head + i) % length r.cells) none
            ≡ get_elem? (queue ++ event ∷ []) i
      last e =
          ap (λ j. get_or (set r.cells tail (some event)) ((r.head + j) % length r.cells) none) e
          ∙ get_or-set_self r.cells tail (some event) none (mod-lt _ (omega (arith, v.head_in)))
          ∙ sym (get_elem?-append_last queue event)
          ∙ ap (get_elem? (queue ++ event ∷ [])) (omega (arith, e, v.counted))

  -- An event goes behind the others while there is room.
  pub push-Represents :
      (event : A) (queue : List A)
      → Represents r queue
      → r.count < length r.cells
      → Represents (push event r) (queue ++ event ∷ [])
  unfolding push
  push-Represents event queue v room = record {
    counted = omega (arith, v.counted, length-append queue (event ∷ []));
    fits = omega (arith, length-set r.cells ((r.head + r.count) % length r.cells) (some event));
    head_in =
        omega
          (arith, v.head_in, length-set r.cells ((r.head + r.count) % length r.cells) (some event));
    at = λ i h. written event queue v room i h;
  }

  pub peek-Represents :
      (event : A) (queue : List A) → Represents r (event ∷ queue) → peek r ≡ some event
  unfolding peek
  peek-Represents event queue v =
      ap (λ i. get_or r.cells i none)
        (sym (mod-eq_of_lt v.head_in) ∙ ap (λ n. n % length r.cells) (omega arith))
      ∙ v.at 0 (omega (arith, v.counted))

  shifted :
      (event : A) (queue : List A)
      → Represents r (event ∷ queue)
      → (i : ℕ) → i < r.count - 1
      → get_or
          (set r.cells r.head none)
          (((r.head + 1) % length r.cells + i) % length (set r.cells r.head none))
          none
        ≡ get_elem? queue i
  shifted event queue v i h =
      ap (λ n. get_or (set r.cells r.head none) (((r.head + 1) % length r.cells + i) % n) none)
        (length-set r.cells r.head none)
      ∙ ap (λ j. get_or (set r.cells r.head none) j none)
          (mod-add-mod (r.head + 1) (length r.cells) i ∙ ap (λ n. n % length r.cells) (omega arith))
      ∙ get_or-set_ne r.cells r.head ((r.head + suc i) % length r.cells) none none (λ e.
        around_ne (length r.cells) r.head 0 (suc i) v.head_in (omega arith)
          (omega (arith, h, v.fits))
          (ap (λ n. n % length r.cells) (omega arith) ∙ mod-eq_of_lt v.head_in ∙ e))
      ∙ v.at (suc i) (omega (arith, h))

  -- The oldest event goes, and the others stay in their order.
  pub drop_head-Represents :
      (event : A) (queue : List A) → Represents r (event ∷ queue) → Represents (drop_head r) queue
  unfolding drop_head
  drop_head-Represents event queue v = record {
    counted = omega (arith, v.counted);
    fits = omega (arith, v.fits, length-set r.cells r.head none);
    head_in =
        subst (λ n. (r.head + 1) % length r.cells < n) (sym (length-set r.cells r.head none))
          (mod-lt _ (omega (arith, v.head_in)));
    at = λ i h. shifted event queue v i h;
  }

-- All events go.
pub drop_all-Represents :
    {A : Type 0} (queue : List A) (r : Ring A)
    → Represents r queue
    → Represents (drop_all (length queue) r) []
unfolding drop_all
drop_all-Represents [] r v = v
drop_all-Represents (event ∷ queue) r v =
    drop_all-Represents queue (drop_head r) (drop_head-Represents r event queue v)
