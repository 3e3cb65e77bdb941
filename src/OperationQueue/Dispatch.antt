-- ===== src/OperationQueue/Dispatch.antt =====
-- The order in which the workers of src/operation_queue.cpp take the tasks of a key.
use mathlib.Core.Path.{subst}
use text.Mathlib.TextPositions.{eq_refl}
use redis_pvxs_ioc.Prelude.{
  ℕ, ◌+◌, ◌≤◌, String, ◌≡◌, ◌≢◌, refl, Bool, true, false, Option, none, some, List, [], ◌∷◌, arith,
  leb, str_eq, eq_iff, if_cases, Option-cases, inl, inr,
}
use redis_pvxs_ioc.OperationQueue.Tasks.{Task, find, waiting, busy}
use redis_pvxs_ioc.OperationQueue.Tasks.Updates.{busy-begin_run, waiting-begin_run}
use redis_pvxs_ioc.OperationQueue.Tasks.Order.{find_id, remove_first}
use redis_pvxs_ioc.OperationQueue.{OperationQueue, Lane}
use redis_pvxs_ioc.OperationQueue.Threads.{Taken, take, take_next, take_key, take_from, start, runs}
use redis_pvxs_ioc.OperationQueue.Invariant.{LaneFits, Inv, tokens}
use redis_pvxs_ioc.OperationQueue.Invariant.Taking.{fits, runnable_tokens, first_task}

-- A key never has two tasks running, nor one running and a token besides. While a task of the key
-- waits, one of them is running or its token stands in `runnable`, so that a worker will come.
pub busy-tokens :
    (q : OperationQueue) (k : String)
    → Inv q
    → (busy k q.tasks + tokens k q.runnable ≤ 1)
      × (waiting k q.tasks ≢ [] → busy k q.tasks + tokens k q.runnable ≡ 1)
busy-tokens q k v = elim (Option-cases (q.lanes k)) [
  | inl missing ↦ absent (rw missing at (v.lanes k))
  | inr (lane, e) ↦ present lane (rw e at (v.lanes k))
]
  where
    absent :
        LaneFits none (waiting k q.tasks) (busy k q.tasks) (tokens k q.runnable)
        → (busy k q.tasks + tokens k q.runnable ≤ 1)
          × (waiting k q.tasks ≢ [] → busy k q.tasks + tokens k q.runnable ≡ 1)
    absent l = (omega arith, λ n. absurd (n l.0))

    present :
        (lane : Lane)
        → LaneFits (some lane) (waiting k q.tasks) (busy k q.tasks) (tokens k q.runnable)
        → (busy k q.tasks + tokens k q.runnable ≤ 1)
          × (waiting k q.tasks ≢ [] → busy k q.tasks + tokens k q.runnable ≡ 1)
    present lane l = (ground arith, λ n. ground arith)

-- What a round that takes a task does to the tasks.
abbrev pub InOrder : ℕ → OperationQueue → Option (OperationQueue × Taken) → Type 0
InOrder now q (some (q', runs id late)) =
    (t : Task) × (rest : List ℕ) × (find id q.tasks ≡ some t)
    × (waiting t.key q.tasks ≡ id ∷ rest)
    × (waiting t.key q'.tasks ≡ rest)
    × (busy t.key q.tasks ≡ 0)
    × (busy t.key q'.tasks ≡ 1)
    × (late ≡ leb t.deadline now)
InOrder now q _ = Unit

module _ (q : OperationQueue) (v : Inv q) (now : ℕ) where
  module _ (key : String) (keys : List String) (lane : Lane) (r : q.runnable ≡ key ∷ keys)
      (e : q.lanes key ≡ some lane) where
    take_from-InOrder :
        (ids : List ℕ)
        → lane.queue ≡ ids
        → InOrder now q
            (take_from key (record lane { ready = false }) ids now (record q { runnable = keys }))
    unfolding take_from start
    take_from-InOrder [] next = tt
    take_from-InOrder (id ∷ ids) next = taken (first_task q key keys lane v r e id ids next)
      where
        taken :
            (t : Task) × (find id q.tasks ≡ some t) × (str_eq t.key key ≡ true) × (t.active ≡ false)
            → InOrder now q (
                take_from key
                  (record lane { ready = false })
                  (id ∷ ids)
                  now
                  (record q { runnable = keys }))
        taken (t, f, same, idle) = rw f (
          t,
          ids,
          self,
          ground (arith, key_same, fits q key keys lane v r e, next, id_same),
          ground (
            arith,
            key_same,
            fits q key keys lane v r e,
            next,
            idle,
            eq_refl t.key,
            id_same,
            remove_first id ids,
            waiting-begin_run t.id (leb t.deadline now) t.key q.tasks t self,
          ),
          key_idle,
          ground (
            arith,
            idle,
            key_idle,
            eq_refl t.key,
            busy-begin_run t.id (leb t.deadline now) t.key q.tasks t self,
          ),
          refl,
        )
          where
            self : find t.id q.tasks ≡ some t
            self = cc (find_id id q.tasks t f)

            id_same : t.id ≡ id
            id_same = find_id id q.tasks t f

            key_same : t.key ≡ key
            key_same = (eq_iff t.key key).0 same

            key_idle : busy t.key q.tasks ≡ 0
            key_idle = ground (
              arith,
              key_same,
              eq_refl key,
              fits q key keys lane v r e,
              runnable_tokens q key keys lane v r e key,
            )

    take_key-InOrder : InOrder now q (take_key key (some lane) now (record q { runnable = keys }))
    unfolding take_key
    take_key-InOrder = take_from-InOrder lane.queue refl

  take_next-InOrder :
      (keys : List String) → q.runnable ≡ keys → InOrder now q (take_next keys now q)
  unfolding take_next take_key
  take_next-InOrder [] r = tt
  take_next-InOrder (key ∷ keys) r = elim (Option-cases (q.lanes key)) [
    | inl missing ↦ simp missing tt
    | inr (lane, e) ↦ simp e (take_key-InOrder key keys lane r e)
  ]

  take-InOrder : InOrder now q (take now q)
  unfolding take
  take-InOrder =
      if_cases (InOrder now q) q.stopped _ _ (λ _. tt) (λ _. take_next-InOrder q.runnable refl)

-- Under the invariant, a worker takes the oldest waiting task of its key, and only when no other task
-- of the key is running; the other waiting tasks of the key stay as they were. It rejects the task instead of
-- running it exactly when the deadline has passed.
pub take_in_order :
    (q q' : OperationQueue) (now id : ℕ) (late : Bool)
    → Inv q
    → take now q ≡ some (q', runs id late)
    → (t : Task) × (rest : List ℕ) × (find id q.tasks ≡ some t)
      × (waiting t.key q.tasks ≡ id ∷ rest)
      × (waiting t.key q'.tasks ≡ rest)
      × (busy t.key q.tasks ≡ 0)
      × (busy t.key q'.tasks ≡ 1)
      × (late ≡ leb t.deadline now)
take_in_order q q' now id late v e = subst (InOrder now q) e (take-InOrder q v now)
