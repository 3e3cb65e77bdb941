-- ===== src/OperationQueue/Invariant/Failing.antt =====
-- `cancel` and a round of `expire` in src/operation_queue.cpp keep the invariant, and throw nothing
-- under it.
use redis_pvxs_ioc.Prelude.{
  ℕ, ◌+◌, ◌≡◌, refl, ap, true, false, Option, none, some, List, [], ◌∷◌, arith, ◌==◌, leb, bit,
  Bool-cases, Option-cases, inl, inr, ◌⊎◌, add64, ◌>>=◌,
}
use redis_pvxs_ioc.OperationQueue.Tasks.{Task, find, modify, give_up, untime}
use redis_pvxs_ioc.OperationQueue.Tasks.Updates.{find-modify}
use redis_pvxs_ioc.OperationQueue.Tasks.Order.{find_id}
use redis_pvxs_ioc.OperationQueue.Tasks.Flags.{entries, IsKept, find-IsKept}
use redis_pvxs_ioc.OperationQueue.{OperationQueue, OperationQueueStats, drop_deadline}
use redis_pvxs_ioc.OperationQueue.Threads.{
  release_queued, mark_cancelled, cancel, cancel_found, cancel_task, Timer, expire, expire_first,
  expire_task, fail_overdue, rejects, forgets,
}
use redis_pvxs_ioc.OperationQueue.Invariant.{Inv, entries-drop_deadline}
use redis_pvxs_ioc.OperationQueue.Invariant.Releasing.{
  given_up, given_up-Inv, given_up-released, modify-Inv, untime-IsNeutral,
}

-- A step that succeeds, into a state with the invariant.
abbrev pub Succeeds : {A : Type 0} → Option (OperationQueue × A) → Type 0
Succeeds {A} r = (q : OperationQueue) × (a : A) × (r ≡ some (q, a)) × Inv q

module _ (q : OperationQueue) (t : Task) (v : Inv q) (f : find t.id q.tasks ≡ some t) where
  timed_of_unfailed : t.failed ≡ false → t.timed ≡ true
  timed_of_unfailed live = ground (arith, (find-IsKept t.id q.tasks t v.kept f).watched)

  drop_own :
      t.timed ≡ true
      → (j : ℕ)
      → entries j (drop_deadline t.id q.deadlines) + bit (t.id == j) ≡ entries j q.deadlines
  drop_own timed j =
      ground (arith, timed, f, v.timed t.id, v.timed j, entries-drop_deadline j t.id q.deadlines)

  abbrev cancelled_counts : OperationQueueStats
  cancelled_counts = record q.counts { cancelled = add64 q.counts.cancelled 1 }

  cancel_task-Inv : t.failed ≡ false → (q' : OperationQueue) × (cancel_task t q ≡ some q') × Inv q'
  unfolding cancel_task
  cancel_task-Inv live = elim (Bool-cases t.active) [
    | inl runs ↦ (
      given_up q t (drop_deadline t.id q.deadlines) cancelled_counts refl refl refl f own,
      ground (arith, timed_of_unfailed live),
      given_up-Inv q t (drop_deadline t.id q.deadlines) cancelled_counts refl refl refl f own v,
    )
    | inr idle ↦ released idle (
        given_up-released q t (drop_deadline t.id q.deadlines) cancelled_counts refl refl refl f own
          idle v)
  ]
    where
      own :
          (j : ℕ)
          → entries j (drop_deadline t.id q.deadlines) + bit (t.id == j) ≡ entries j q.deadlines
      own = drop_own (timed_of_unfailed live)

      released :
          t.active ≡ false
          → (q' : OperationQueue) × (release_queued (give_up t) (mark_cancelled t q) ≡ some q')
            × Inv q'
          → (q' : OperationQueue) × (cancel_task t q ≡ some q') × Inv q'
      released idle (q', e, v') = (q', ground (arith, timed_of_unfailed live, idle, e), v')

  abbrev expired_counts : OperationQueueStats
  expired_counts = record q.counts { expired = add64 q.counts.expired 1 }

  -- `rest` are the entries after the task's own, the first of `deadlines`.
  module _ (rest : List (ℕ × ℕ))
      (own : (j : ℕ) → entries j rest + bit (t.id == j) ≡ entries j q.deadlines) where
    expire_task-Inv : Succeeds (expire_task t rest q)
    unfolding expire_task
    expire_task-Inv = elim (Bool-cases t.failed) [
      | inl failed ↦ (
        record q { deadlines = rest; tasks = modify t.id untime q.tasks },
        forgets,
        ground arith,
        modify-Inv q t untime rest q.counts untime-IsNeutral f (untimed failed)
            (λ j.
              ground (arith, own j, v.timed j, f, find-modify t.id untime j q.tasks (λ u. refl)))
            refl refl refl v,
      )
      | inr live ↦ rw live (fail_overdue-Inv (Bool-cases t.active))
    ]
      where
        untimed : t.failed ≡ true → IsKept (untime t)
        untimed failed = record {
          charged = (find-IsKept t.id q.tasks t v.kept f).charged;
          watched = rw failed;
        }

        released :
            (q' : OperationQueue) × (release_queued
                  (give_up t)
                  (given_up q t rest expired_counts refl refl refl f own)
                ≡ some q')
              × Inv q'
            → t.active ≡ false
            → Succeeds (fail_overdue t rest q)
        released (q', e, v') idle = (q', rejects t.id, ground (arith, e), v')

        fail_overdue-Inv : (t.active ≡ true) ⊎ (t.active ≡ false) → Succeeds (fail_overdue t rest q)
        fail_overdue-Inv (inl runs) = (
          given_up q t rest expired_counts refl refl refl f own,
          rejects t.id,
          ground arith,
          given_up-Inv q t rest expired_counts refl refl refl f own v,
        )
        fail_overdue-Inv (inr idle) =
            released (given_up-released q t rest expired_counts refl refl refl f own idle v) idle

module _ (q : OperationQueue) (v : Inv q) where
  cancel_found-Inv : (id : ℕ) (o : Option Task) → find id q.tasks ≡ o → Succeeds (cancel_found o q)
  unfolding cancel_found
  cancel_found-Inv id none e = (q, false, refl, v)
  cancel_found-Inv id (some t) e = elim (Bool-cases t.failed) [
    | inl failed ↦ (q, false, ground arith, v)
    | inr live ↦ rw live (cancelled (cancel_task-Inv q t v (cc (find_id id q.tasks t e)) live))
  ]
    where
      cancelled :
          (q' : OperationQueue) × (cancel_task t q ≡ some q') × Inv q'
          → Succeeds (cancel_task t q >>= λ q'. some (q', true))
      cancelled (q', c, v') = (q', true, rw c, v')

  -- Under the invariant `cancel` throws nothing, whatever the id, and keeps the invariant.
  pub cancel-Inv : (id : ℕ) → Succeeds (cancel id q)
  unfolding cancel
  cancel-Inv id = cancel_found-Inv id (find id q.tasks) refl

  expire_first-Inv :
      (now : ℕ) (ds : List (ℕ × ℕ)) → q.deadlines ≡ ds → Succeeds (expire_first ds now q)
  unfolding expire_first entries
  expire_first-Inv now [] e = (q, Timer.sleeps, refl, v)
  expire_first-Inv now ((time, id) ∷ rest) e = elim (Bool-cases (leb time now)) [
    | inl due ↦ rw due (of_found (find_of_entry (Option-cases (find id q.tasks))))
    | inr early ↦ (q, Timer.sleeps_until time, ground arith, v)
  ]
    where
      find_of_entry :
          (find id q.tasks ≡ none) ⊎ ((t : Task) × (find id q.tasks ≡ some t))
          → (t : Task) × (find id q.tasks ≡ some t)
      find_of_entry (inl missing) = absurd (ground (arith, v.timed id, missing, ap (entries id) e))
      find_of_entry (inr found) = found

      own :
          (t : Task)
          → find id q.tasks ≡ some t
          → (j : ℕ) → entries j rest + bit (t.id == j) ≡ entries j q.deadlines
      own t f j = ground (arith, ap (entries j) e, find_id id q.tasks t f)

      of_found :
          (t : Task) × (find id q.tasks ≡ some t)
          → Succeeds (find id q.tasks >>= λ t. expire_task t rest q)
      of_found (t, f) =
          rw f (expire_task-Inv q t v (cc (find_id id q.tasks t f)) rest (λ j. own t f j))

  -- Under the invariant a round of the timer throws nothing, whatever the time, and keeps the
  -- invariant.
  pub expire-Inv : (now : ℕ) → Succeeds (expire now q)
  unfolding expire
  expire-Inv now = elim (Bool-cases q.stopped) [
    | inl over ↦ (q, Timer.ends, ground arith, v)
    | inr open' ↦ simp open' (expire_first-Inv now q.deadlines refl)
  ]
