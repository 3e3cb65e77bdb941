-- ===== src/AlarmPublisher/Story.antt =====
-- The events of a slot of src/alarm_worker.cpp in the order in which Redis gets them.
use Prim.Native.Nat.{max}
use mathlib.Core.Path.{subst}
use redis_pvxs_ioc.Prelude.{
  ℕ, ◌≤◌, ◌<◌, ◌≡◌, ◌≢◌, List, [], ◌∷◌, ◌++◌, ◌==◌, if◌then◌else◌, All, arith,
}
use redis_pvxs_ioc.AlarmPublisher.{StoredState}
use redis_pvxs_ioc.AlarmPublisher.Slots.{Event}

module _ (id revision : ℕ) (latest : StoredState) where
  -- The revision behind an event.
  abbrev pub after : ℕ → Event → ℕ
  after low e = if e.slot == id then e.revision else low

  -- Among some events those of a slot have revisions from `low` to `revision` that do not fall, and one of
  -- the greatest revision has the latest state.
  unfoldable pub Chain : ℕ → List Event → Type 0
  Chain low [] = low ≤ revision
  Chain low (e ∷ es) =
      (e.slot ≡ id → (low ≤ e.revision) × (e.revision ≡ revision → e.state ≡ latest))
      × Chain (after low e) es

  low-le-after : (low : ℕ) (e : Event) → (e.slot ≡ id → low ≤ e.revision) → low ≤ after low e
  low-le-after low e h = ground (arith, h)

  pub Chain-le : (low : ℕ) (es : List Event) → Chain low es → low ≤ revision
  unfolding Chain
  Chain-le low [] h = h
  Chain-le low (e ∷ es) h =
      omega (arith, Chain-le (after low e) es h.1, low-le-after low e (λ k. (h.0 k).0))

  pub Chain-lower : (low lower : ℕ) (es : List Event) → lower ≤ low → Chain low es → Chain lower es
  unfolding Chain
  Chain-lower low lower [] le h = omega (arith, le, h)
  Chain-lower low lower (e ∷ es) le h = (
    λ k. (omega (arith, (h.0 k).0, le), (h.0 k).1),
    Chain-lower (after low e) (after lower e) es (ground (arith, le)) h.1,
  )

  pub Chain-tail : (low : ℕ) (e : Event) (es : List Event) → Chain low (e ∷ es) → Chain low es
  unfolding Chain
  Chain-tail low e es h = Chain-lower (after low e) low es (low-le-after low e (λ k. (h.0 k).0)) h.1

  -- An event that goes, wherever it stands.
  pub Chain-drop :
      (low : ℕ) (xs : List Event) (e : Event) (ys : List Event)
      → Chain low (xs ++ e ∷ ys)
      → Chain low (xs ++ ys)
  unfolding Chain
  Chain-drop low [] e ys h = Chain-tail low e ys h
  Chain-drop low (x ∷ xs) e ys h = (h.0, Chain-drop (after low x) xs e ys h.1)

  pub Chain-first : (low : ℕ) (xs ys : List Event) → Chain low (xs ++ ys) → Chain low xs
  unfolding Chain
  Chain-first low [] ys h = Chain-le low ys h
  Chain-first low (x ∷ xs) ys h = (h.0, Chain-first (after low x) xs ys h.1)

  -- The slot's own latest state, or an event of another slot, behind the others.
  pub Chain-append :
      (low : ℕ) (es : List Event) (e : Event)
      → Chain low es
      → (e.slot ≡ id → (e.revision ≡ revision) × (e.state ≡ latest))
      → Chain low (es ++ e ∷ [])
  unfolding Chain
  Chain-append low [] e h k = (λ s. (omega (arith, h, (k s).0), λ r. (k s).1), ground (arith, h, k))
  Chain-append low (x ∷ es) e h k = (h.0, Chain-append (after low x) es e h.1 k)

  -- Past the revision of the first event, which is the slot's.
  pub Chain-reach :
      (low : ℕ) (e : Event) (es : List Event)
      → e.slot ≡ id
      → Chain low (e ∷ es)
      → Chain (max low e.revision) (e ∷ es)
  unfolding Chain
  Chain-reach low e es same h = (
    λ k. (omega (arith, (h.0 k).0), (h.0 k).1),
    subst (λ n. Chain n es) (ground (arith, same)) h.1,
  )

  pub Chain-absent :
      (low : ℕ) (es : List Event) → low ≤ revision → All (λ e. e.slot ≢ id) es → Chain low es
  unfolding Chain
  Chain-absent low [] h k = h
  Chain-absent low (e ∷ es) h k = (
    λ s. absurd (k.0 s),
    Chain-lower low (after low e) es (ground (arith, k.0)) (Chain-absent low es h k.1),
  )

-- A later revision, whose state none of the events has.
pub Chain-grow :
    (id revision later : ℕ) (latest newest : StoredState) (low : ℕ) (es : List Event)
    → revision < later
    → Chain id revision latest low es
    → Chain id later newest low es
unfolding Chain
Chain-grow id revision later latest newest low [] lt h = omega (arith, lt, h)
Chain-grow id revision later latest newest low (e ∷ es) lt h = (
  λ s. (
    (h.0 s).0,
    λ r. absurd (
        ground (arith, r, lt, Chain-le id revision latest (after id revision latest low e) es h.1)),
  ),
  Chain-grow id revision later latest newest (after id revision latest low e) es lt h.1,
)
