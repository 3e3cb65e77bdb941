-- ===== src/OperationQueue/Invariant/Taking.antt =====
-- The first critical section of `worker` in src/operation_queue.cpp keeps the invariant, and throws
-- nothing under it.
use text.Mathlib.TextPositions.{eq_refl}
use redis_pvxs_ioc.Prelude.{
  ℕ, ◌+◌, String, ◌≡◌, refl, sym, ap, ◌∙◌, true, false, none, some, List, [], ◌∷◌, arith, leb,
  if◌then◌else◌, bit, str_eq, eq_iff, Bool-cases, Option-cases, inl, inr, sub64_exact, add64_exact,
}
use redis_pvxs_ioc.OperationQueue.Tasks.{Task, find, begin_run, waiting, busy}
use redis_pvxs_ioc.OperationQueue.Tasks.Updates.{
  total_charge-modify, find-modify, count_waiting-begin_run, count_active-begin_run, busy-begin_run,
  waiting-begin_run,
}
use redis_pvxs_ioc.OperationQueue.Tasks.Order.{
  modify-Ascending, find_id, find-waiting, remove_first,
}
use redis_pvxs_ioc.OperationQueue.Tasks.Flags.{IsKept, find-IsKept, All-modify}
use redis_pvxs_ioc.OperationQueue.{OperationQueue, Lane, set_lane}
use redis_pvxs_ioc.OperationQueue.Threads.{Taken, take, take_next, take_key, take_from, start, runs}
use redis_pvxs_ioc.OperationQueue.Invariant.{LaneFits, LanesFit, Inv, tokens, counts_small}
use redis_pvxs_ioc.OperationQueue.Invariant.Failing.{Succeeds}

-- The head of `runnable` names a lane that is ready.
module _ (q : OperationQueue) (key : String) (keys : List String) (lane : Lane) (v : Inv q)
    (r : q.runnable ≡ key ∷ keys) (e : q.lanes key ≡ some lane) where
  pub fits : LaneFits (some lane) (waiting key q.tasks) (busy key q.tasks) (tokens key q.runnable)
  fits = rw e at (v.lanes key)

  pub runnable_tokens : (k : String) → tokens k q.runnable ≡ bit (str_eq key k) + tokens k keys
  unfolding tokens
  runnable_tokens k = ap (tokens k) r

  -- The lane's queue was emptied while its token waited.
  emptied-Inv :
      lane.queue ≡ []
      → Inv (record q {
        runnable = keys;
        lanes =
            set_lane key
              (if lane.active then some (record lane { ready = false }) else none)
              q.lanes;
      })
  emptied-Inv none_left = record {
    limit_word = v.limit_word;
    order = v.order;
    queued = v.queued;
    running = v.running;
    resident = v.resident;
    within = v.within;
    kept = v.kept;
    lanes = λ k.
        ground (
          arith,
          eq_iff key k,
          eq_refl key,
          fits,
          v.lanes k,
          runnable_tokens k,
          runnable_tokens key,
        );
    timed = v.timed;
  }

  module _ (id : ℕ) (ids : List ℕ) (t : Task) (now : ℕ) (next : lane.queue ≡ id ∷ ids)
      (f : find id q.tasks ≡ some t) (same : str_eq t.key key ≡ true)
      (idle : t.active ≡ false) where
    abbrev started : OperationQueue
    started = (start t (record lane { ready = false }) ids now (record q { runnable = keys })).0

    pub found_self : find t.id q.tasks ≡ some t
    found_self = cc (find_id id q.tasks t f)

    pub same_key : t.key ≡ key
    same_key = (eq_iff t.key key).0 same

    started-LanesFit : LanesFit started.lanes started.tasks keys
    unfolding start
    started-LanesFit k = ground (
      arith,
      e,
      next,
      fits,
      v.lanes k,
      same_key,
      eq_iff key k,
      runnable_tokens k,
      runnable_tokens key,
      remove_first id ids,
      find_id id q.tasks t f,
      waiting-begin_run t.id (leb t.deadline now) k q.tasks t found_self,
      busy-begin_run t.id (leb t.deadline now) k q.tasks t found_self,
    )

    start-Inv : Inv started
    unfolding start
    start-Inv = record {
      limit_word = v.limit_word;
      order =
          modify-Ascending t.id (begin_run (leb t.deadline now)) 0 q.next_id q.tasks (λ u. refl)
            v.order;
      queued = ground (
        arith,
        v.queued,
        idle,
        counts_small q v,
        count_waiting-begin_run t.id (leb t.deadline now) q.tasks t found_self,
        sub64_exact q.counts.queued 1,
      );
      running = ground (
        arith,
        v.running,
        idle,
        counts_small q v,
        count_waiting-begin_run t.id (leb t.deadline now) q.tasks t found_self,
        count_active-begin_run t.id (leb t.deadline now) q.tasks t found_self,
        add64_exact q.counts.running 1,
      );
      resident = omega (
        arith,
        v.resident,
        total_charge-modify t.id (begin_run (leb t.deadline now)) q.tasks (λ u. refl),
      );
      within = v.within;
      kept = All-modify t.id (begin_run (leb t.deadline now)) q.tasks t found_self begun v.kept;
      lanes = started-LanesFit;
      timed = λ j. ground (
        arith,
        v.timed j,
        found_self,
        find-modify t.id (begin_run (leb t.deadline now)) j q.tasks (λ u. refl),
      );
    }
      where
        begun : IsKept (begin_run (leb t.deadline now) t)
        begun = record {
          charged = (find-IsKept t.id q.tasks t v.kept found_self).charged;
          watched = ground (arith, (find-IsKept t.id q.tasks t v.kept found_self).watched);
        }

  -- The oldest waiting task of the lane's key, which the lane holds first.
  pub first_task :
      (id : ℕ) (ids : List ℕ)
      → lane.queue ≡ id ∷ ids
      → (t : Task) × (find id q.tasks ≡ some t) × (str_eq t.key key ≡ true) × (t.active ≡ false)
  first_task id ids next =
      (find-waiting key id 0 q.next_id ids q.tasks v.order (sym fits.0 ∙ next)).1

  take_from-Inv :
      (now : ℕ) (ids : List ℕ)
      → lane.queue ≡ ids
      → Succeeds
          (take_from key (record lane { ready = false }) ids now (record q { runnable = keys }))
  unfolding take_from
  take_from-Inv now [] next = (_, Taken.skips, refl, emptied-Inv next)
  take_from-Inv now (id ∷ ids) next = taken (first_task id ids next)
    where
      taken :
          (t : Task) × (find id q.tasks ≡ some t) × (str_eq t.key key ≡ true) × (t.active ≡ false)
          → Succeeds (
              take_from key
                (record lane { ready = false })
                (id ∷ ids)
                now
                (record q { runnable = keys }))
      taken (t, f, same, idle) = (
        started id ids t now next f same idle,
        runs t.id (leb t.deadline now),
        ground (arith, f),
        start-Inv id ids t now next f same idle,
      )

  take_key-Inv : (now : ℕ) → Succeeds (take_key key (some lane) now (record q { runnable = keys }))
  unfolding take_key
  take_key-Inv now = take_from-Inv now lane.queue refl

module _ (q : OperationQueue) (v : Inv q) where
  take_next-Inv :
      (now : ℕ) (keys : List String) → q.runnable ≡ keys → Succeeds (take_next keys now q)
  unfolding take_next tokens
  take_next-Inv now [] r = (q, Taken.waits, refl, v)
  take_next-Inv now (key ∷ keys) r = elim (Option-cases (q.lanes key)) [
    | inl missing ↦
        absurd (ground (arith, (rw missing at (v.lanes key)).2, ap (tokens key) r, eq_refl key))
    | inr (lane, e) ↦ simp e (take_key-Inv q key keys lane v r e now)
  ]

  -- Under the invariant the first section of a worker throws nothing, whatever the time, and keeps
  -- the invariant.
  pub take-Inv : (now : ℕ) → Succeeds (take now q)
  unfolding take
  take-Inv now = elim (Bool-cases q.stopped) [
    | inl over ↦ (q, Taken.exits, ground arith, v)
    | inr open' ↦ simp open' (take_next-Inv now q.runnable refl)
  ]
