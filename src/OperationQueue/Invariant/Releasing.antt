-- ===== src/OperationQueue/Invariant/Releasing.antt =====
-- `cancel`, `expire` and `releaseQueued` of src/operation_queue.cpp keep the invariant, and fail
-- nowhere under it.
use text.Mathlib.TextPositions.{eq_refl}
use redis_pvxs_ioc.Prelude.{
  ℕ, ◌+◌, String, ◌≡◌, refl, false, Option, some, List, arith, ◌==◌, bit, eq_iff, sub64,
  sub64_exact, Option-cases, inl, inr,
}
use redis_pvxs_ioc.OperationQueue.Tasks.{
  Task, find, erase, modify, give_up, untime, count_waiting, total_charge, total_charge-erase,
  count_waiting-erase, count_active-erase, busy-erase, waiting-erase,
}
use redis_pvxs_ioc.OperationQueue.Tasks.Updates.{
  IsNeutral, total_charge-modify, find-modify, waiting-modify, busy-modify, count_waiting-modify,
  count_active-modify,
}
use redis_pvxs_ioc.OperationQueue.Tasks.Order.{
  modify-Ascending, erase-Ascending, find-erase_self, find-erase_ne, waiting_of_find,
}
use redis_pvxs_ioc.OperationQueue.Tasks.Flags.{
  IsKept, entries, timed_bit, All-erase, All-modify, find-IsKept,
}
use redis_pvxs_ioc.OperationQueue.{OperationQueue, OperationQueueStats, Lane}
use redis_pvxs_ioc.OperationQueue.Threads.{release_from, release_queued}
use redis_pvxs_ioc.OperationQueue.Invariant.{LanesFit, Inv, counts_small}

pub give_up-IsNeutral : IsNeutral give_up
give_up-IsNeutral = record {
  id = λ t. refl;
  key = λ t. refl;
  charge = λ t. refl;
  active = λ t. refl;
}

pub untime-IsNeutral : IsNeutral untime
untime-IsNeutral = record {
  id = λ t. refl;
  key = λ t. refl;
  charge = λ t. refl;
  active = λ t. refl;
}

-- Neutral writes leave all but the flags.
module _ (id : ℕ) (f : Task → Task) (n : IsNeutral f) where
  modify-LanesFit :
      (lanes : String → Option Lane) (ts : List Task) (ks : List String)
      → LanesFit lanes ts ks
      → LanesFit lanes (modify id f ts) ks
  modify-LanesFit lanes ts ks v k = rw (waiting-modify id f n k ts, busy-modify id f n k ts) (v k)

-- A write to the flags of one task, and the entries that go with it, keep the invariant.
pub modify-Inv :
    (q : OperationQueue) (t : Task) (f : Task → Task) (ds : List (ℕ × ℕ)) (c : OperationQueueStats)
    → IsNeutral f
    → find t.id q.tasks ≡ some t
    → IsKept (f t)
    → ((j : ℕ) → entries j ds ≡ timed_bit (find j (modify t.id f q.tasks)))
    → c.queued ≡ q.counts.queued
    → c.running ≡ q.counts.running
    → c.resident_bytes ≡ q.counts.resident_bytes
    → Inv q
    → Inv (record q { tasks = modify t.id f q.tasks; deadlines = ds; counts = c })
modify-Inv q t f ds c n found k e cq cr cb v = record {
  limit_word = v.limit_word;
  order = modify-Ascending t.id f 0 q.next_id q.tasks n.id v.order;
  queued = omega (arith, v.queued, count_waiting-modify t.id f n q.tasks);
  running = omega (arith, v.running, count_active-modify t.id f n q.tasks);
  resident = omega (arith, v.resident, total_charge-modify t.id f q.tasks n.charge);
  within = omega (arith, v.within);
  kept = All-modify t.id f q.tasks t found k v.kept;
  lanes = modify-LanesFit t.id f n q.lanes q.tasks q.runnable v.lanes;
  timed = e;
}

-- The lane of a waiting task is there, and what is left of it fits.
pub lane_of_waiting :
    (q : OperationQueue) (t : Task)
    → Inv q
    → find t.id q.tasks ≡ some t
    → t.active ≡ false
    → (lane : Lane) × (q.lanes t.key ≡ some lane)
lane_of_waiting q t v f idle = elim (Option-cases (q.lanes t.key)) [
  | inl missing ↦ absurd (
      waiting_of_find t.key t.id q.tasks t f (eq_refl t.key) idle (rw missing at (v.lanes t.key)).0)
  | inr found ↦ found
]

module _ (q : OperationQueue) (t : Task) (lane : Lane) (v : Inv q) (f : find t.id q.tasks ≡ some t)
    (idle : t.active ≡ false) (e : q.lanes t.key ≡ some lane) where
  release_from-LanesFit : LanesFit (release_from t lane q).lanes (erase t.id q.tasks) q.runnable
  unfolding release_from
  release_from-LanesFit k = ground (
    arith,
    e,
    eq_iff t.key k,
    v.lanes k,
    v.lanes t.key,
    waiting-erase t.id k q.tasks t f,
    busy-erase t.id k q.tasks t f,
  )

  release_from-queued : sub64 q.counts.queued 1 ≡ count_waiting (erase t.id q.tasks)
  release_from-queued = ground (
    arith,
    idle,
    v.queued,
    counts_small q v,
    count_waiting-erase t.id q.tasks t f,
    sub64_exact q.counts.queued 1,
  )

  release_from-resident : sub64 q.counts.resident_bytes t.charge ≡ total_charge (erase t.id q.tasks)
  release_from-resident = ground (
    arith,
    v.resident,
    v.within,
    v.limit_word,
    total_charge-erase t.id q.tasks t f,
    sub64_exact q.counts.resident_bytes t.charge,
  )

  -- `releaseQueued` of a task that is not taken and not timed.
  release_from-Inv : t.timed ≡ false → Inv (release_from t lane q)
  unfolding release_from
  release_from-Inv untimed = record {
    limit_word = v.limit_word;
    order = erase-Ascending t.id 0 q.next_id q.tasks v.order;
    queued = release_from-queued;
    running = ground (arith, v.running, count_active-erase t.id q.tasks t f);
    resident = release_from-resident;
    within =
        omega
          (arith, release_from-resident, total_charge-erase t.id q.tasks t f, v.resident, v.within);
    kept = All-erase t.id q.tasks v.kept;
    lanes = release_from-LanesFit;
    timed = λ id. ground (
      arith,
      v.timed id,
      f,
      find-erase_self t.id 0 q.next_id q.tasks v.order,
      find-erase_ne t.id id q.tasks,
    );
  }

-- What `releaseQueued` leaves, and that its `lanes.at` finds the lane.
pub release_queued-Inv :
    (q : OperationQueue) (t : Task)
    → Inv q
    → find t.id q.tasks ≡ some t
    → t.active ≡ false
    → t.timed ≡ false
    → (q' : OperationQueue) × (release_queued t q ≡ some q') × Inv q'
unfolding release_queued
release_queued-Inv q t v f idle untimed = go (lane_of_waiting q t v f idle)
  where
    go :
        (lane : Lane) × (q.lanes t.key ≡ some lane)
        → (q' : OperationQueue) × (release_queued t q ≡ some q') × Inv q'
    go (lane, e) = (release_from t lane q, rw e, release_from-Inv q t lane v f idle e untimed)

-- Failing a task that has not failed keeps the invariant, and so does releasing it then.
module _ (q : OperationQueue) (t : Task) (ds : List (ℕ × ℕ)) (c : OperationQueueStats)
    (cq : c.queued ≡ q.counts.queued) (cr : c.running ≡ q.counts.running)
    (cb : c.resident_bytes ≡ q.counts.resident_bytes) (f : find t.id q.tasks ≡ some t)
    (untimes : (j : ℕ) → entries j ds + bit (t.id == j) ≡ entries j q.deadlines) where
  abbrev pub given_up : OperationQueue
  given_up = record q { tasks = modify t.id give_up q.tasks; deadlines = ds; counts = c }

  pub given_up-Inv : Inv q → Inv given_up
  given_up-Inv v =
      modify-Inv q t give_up ds c give_up-IsNeutral f
        (record { charged = (find-IsKept t.id q.tasks t v.kept f).charged; watched = refl })
        (λ j.
          ground (arith, untimes j, v.timed j, f, find-modify t.id give_up j q.tasks (λ u. refl)))
        cq cr cb v

  pub given_up-released :
      t.active ≡ false
      → Inv q
      → (q' : OperationQueue) × (release_queued (give_up t) given_up ≡ some q') × Inv q'
  given_up-released idle v =
      release_queued-Inv given_up (give_up t) (given_up-Inv v)
        (ground (arith, f, find-modify t.id give_up t.id q.tasks (λ u. refl))) idle refl
