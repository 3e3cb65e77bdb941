-- ===== src/OperationQueue/Invariant/Finishing.antt =====
-- The second critical section of `worker` in src/operation_queue.cpp keeps the invariant, and throws
-- nothing under it for a task that a worker has taken.
use mathlib.Core.Path.{subst}
use text.Mathlib.TextPositions.{eq_refl}
use redis_pvxs_ioc.Prelude.{
  ℕ, String, ◌≡◌, sym, true, false, some, arith, if◌then◌else◌, eq_iff, Option-cases, inl, inr,
  add64, sub64, sub64_exact,
}
use redis_pvxs_ioc.OperationQueue.Tasks.{
  Task, find, erase, waiting, busy, total_charge, total_charge-erase, count_waiting-erase,
  count_active-erase, busy-erase, waiting-erase,
}
use redis_pvxs_ioc.OperationQueue.Tasks.Order.{
  erase-Ascending, find_id, find-erase_self, find-erase_ne,
}
use redis_pvxs_ioc.OperationQueue.Tasks.Flags.{All-erase}
use redis_pvxs_ioc.OperationQueue.{OperationQueue, Lane, drop_deadline, make_ready, is_empty}
use redis_pvxs_ioc.OperationQueue.Threads.{finish, close_lane}
use redis_pvxs_ioc.OperationQueue.Invariant.{
  LaneFits, LanesFit, Inv, tokens, counts_small, tokens-append, entries-drop_deadline,
}

-- `make_ready` and `close_lane` write nothing but `lanes` and `runnable`.
pub make_ready_lem :
    (key : String) (lane : Lane) (q : OperationQueue)
    → make_ready key lane q ≡ record q {
      lanes = (make_ready key lane q).lanes;
      runnable = (make_ready key lane q).runnable;
    }
unfolding make_ready
make_ready_lem key lane q = ground arith

close_lane_lem :
    (key : String) (lane : Lane) (q : OperationQueue)
    → close_lane key lane q ≡ record q {
      lanes = (close_lane key lane q).lanes;
      runnable = (close_lane key lane q).runnable;
    }
unfolding close_lane
close_lane_lem key lane q = ground arith

module _ (q : OperationQueue) (t : Task) (lane : Lane) (v : Inv q) (f : find t.id q.tasks ≡ some t)
    (runs : t.active ≡ true) (e : q.lanes t.key ≡ some lane) where
  fits : LaneFits (some lane) (waiting t.key q.tasks) (busy t.key q.tasks) (tokens t.key q.runnable)
  fits = rw e at (v.lanes t.key)

  -- The state before the lane is closed.
  abbrev finished : OperationQueue
  finished = record q {
    deadlines = if t.timed then drop_deadline t.id q.deadlines else q.deadlines;
    tasks = erase t.id q.tasks;
    counts = record q.counts {
      running = sub64 q.counts.running 1;
      resident_bytes = sub64 q.counts.resident_bytes t.charge;
      completed = add64 q.counts.completed 1;
    };
  }

  abbrev closed : OperationQueue
  closed = close_lane t.key (record lane { active = false }) finished

  closed-LanesFit : LanesFit closed.lanes finished.tasks closed.runnable
  unfolding close_lane is_empty
  closed-LanesFit k = ground (
    arith,
    e,
    runs,
    eq_iff t.key k,
    eq_refl t.key,
    fits,
    v.lanes k,
    tokens-append k t.key q.runnable,
    waiting-erase t.id k q.tasks t f,
    busy-erase t.id k q.tasks t f,
  )

  finished-resident : sub64 q.counts.resident_bytes t.charge ≡ total_charge (erase t.id q.tasks)
  finished-resident = ground (
    arith,
    v.resident,
    v.within,
    v.limit_word,
    total_charge-erase t.id q.tasks t f,
    sub64_exact q.counts.resident_bytes t.charge,
  )

  closed-Inv : Inv closed
  closed-Inv =
      subst Inv (sym (close_lane_lem t.key (record lane { active = false }) finished)) (record {
        limit_word = v.limit_word;
        order = erase-Ascending t.id 0 q.next_id q.tasks v.order;
        queued = ground (arith, runs, v.queued, count_waiting-erase t.id q.tasks t f);
        running = ground (
          arith,
          runs,
          v.running,
          counts_small q v,
          count_active-erase t.id q.tasks t f,
          sub64_exact q.counts.running 1,
        );
        resident = finished-resident;
        within =
            omega
              (arith, finished-resident, total_charge-erase t.id q.tasks t f, v.resident, v.within);
        kept = All-erase t.id q.tasks v.kept;
        lanes = closed-LanesFit;
        timed = λ j. ground (
          arith,
          f,
          v.timed j,
          v.timed t.id,
          entries-drop_deadline j t.id q.deadlines,
          find-erase_self t.id 0 q.next_id q.tasks v.order,
          find-erase_ne t.id j q.tasks,
        );
      })

-- A task that a worker has taken keeps its lane.
pub lane_of_active :
    (q : OperationQueue) (t : Task)
    → Inv q
    → find t.id q.tasks ≡ some t
    → t.active ≡ true
    → (lane : Lane) × (q.lanes t.key ≡ some lane)
lane_of_active q t v f runs = elim (Option-cases (q.lanes t.key)) [
  | inl missing ↦ absurd (
      ground (
        arith,
        runs,
        eq_refl t.key,
        (rw missing at (v.lanes t.key)).1,
        busy-erase t.id t.key q.tasks t f,
      ))
  | inr found ↦ found
]

-- Under the invariant the second section of a worker throws nothing for a task that is in the table
-- and taken, and keeps the invariant.
pub finish-Inv :
    (q : OperationQueue) (t : Task) (id : ℕ)
    → Inv q
    → find id q.tasks ≡ some t
    → t.active ≡ true
    → (q' : OperationQueue) × (finish id q ≡ some q') × Inv q'
unfolding finish
finish-Inv q t id v found runs = go (lane_of_active q t v self runs)
  where
    self : find t.id q.tasks ≡ some t
    self = cc (find_id id q.tasks t found)

    go :
        (lane : Lane) × (q.lanes t.key ≡ some lane)
        → (q' : OperationQueue) × (finish id q ≡ some q') × Inv q'
    go (lane, e) = (
      closed q t lane v self runs e,
      ground (arith, found, e, find_id id q.tasks t found),
      closed-Inv q t lane v self runs e,
    )
