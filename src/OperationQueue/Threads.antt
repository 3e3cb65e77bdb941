-- ===== src/OperationQueue/Threads.antt =====
-- src/operation_queue.cpp: the critical sections of the worker and timer threads, `releaseQueued`,
-- `cancel` and `stop`.
use redis_pvxs_ioc.Prelude.{
  ℕ, String, Bool, true, false, not, ◌&&◌, Option, none, some, List, [], ◌∷◌, leb, if◌then◌else◌,
  add64, sub64, ◌>>=◌,
}
use redis_pvxs_ioc.OperationQueue.Tasks.{
  Task, find, erase, modify, begin_run, give_up, untime, remove,
}
use redis_pvxs_ioc.OperationQueue.{
  OperationQueue, Lane, set_lane, drop_deadline, make_ready, is_empty,
}

-- The part of `releaseQueued` that has found the lane.
unfoldable pub release_from : Task → Lane → OperationQueue → OperationQueue
unfolding is_empty
release_from t lane q =
    let left = record lane { queue = remove t.id lane.queue } in
    record q {
      tasks = erase t.id q.tasks;
      counts = record q.counts {
        queued = sub64 q.counts.queued 1;
        resident_bytes = sub64 q.counts.resident_bytes t.charge;
      };
      lanes =
          set_lane t.key
            (if not lane.active && (not lane.ready && is_empty left.queue) then none else some left)
            q.lanes;
    }

-- releaseQueued(task)
unfoldable pub release_queued : Task → OperationQueue → Option OperationQueue
unfolding release_from
release_queued t q = do lane ← q.lanes t.key; some (release_from t lane q)

-- What a worker does after its first critical section: return, wait for `changed`, go round the
-- loop, or run the task (reject it, if it is past its deadline).
pub data Taken : Type 0 where
  exits waits skips : Taken
  runs : ℕ → Bool → Taken

-- The part of the section that has the task at hand.
unfoldable pub start : Task → Lane → List ℕ → ℕ → OperationQueue → OperationQueue × Taken
start t lane rest now q =
    let late = leb t.deadline now in
    (
      record q {
        tasks = modify t.id (begin_run late) q.tasks;
        lanes = set_lane t.key (some (record lane { active = true; queue = rest })) q.lanes;
        counts = record q.counts {
          queued = sub64 q.counts.queued 1;
          running = add64 q.counts.running 1;
          expired = if late then add64 q.counts.expired 1 else q.counts.expired;
        };
      },
      runs t.id late,
    )

-- The part that has found the lane; `lane.ready` is false already.
unfoldable pub take_from :
    String → Lane → List ℕ → ℕ → OperationQueue → Option (OperationQueue × Taken)
unfolding start
take_from key lane [] now q =
    some
      (record q { lanes = set_lane key (if lane.active then some lane else none) q.lanes }, skips)
take_from key lane (id ∷ rest) now q = do t ← find id q.tasks; some (start t lane rest now q)

unfoldable pub take_key :
    String → Option Lane → ℕ → OperationQueue → Option (OperationQueue × Taken)
unfolding take_from
take_key key none now q = some (q, skips)
take_key key (some lane) now q = take_from key (record lane { ready = false }) lane.queue now q

unfoldable pub take_next : List String → ℕ → OperationQueue → Option (OperationQueue × Taken)
unfolding take_key
take_next [] now q = some (q, waits)
take_next (key ∷ rest) now q = take_key key (q.lanes key) now (record q { runnable = rest })

-- worker(): the first critical section of a round
unfoldable pub take : ℕ → OperationQueue → Option (OperationQueue × Taken)
unfolding take_next
take now q = if q.stopped then some (q, exits) else take_next q.runnable now q

-- What `finish` leaves of the lane, no longer active.
unfoldable pub close_lane : String → Lane → OperationQueue → OperationQueue
unfolding is_empty make_ready
close_lane key lane q =
    if is_empty lane.queue
    then record q { lanes = set_lane key none q.lanes }
    else make_ready key lane q

-- worker(): the second critical section, when the task has run or been rejected
unfoldable pub finish : ℕ → OperationQueue → Option OperationQueue
unfolding close_lane
finish id q = do
  t ← find id q.tasks
  lane ← q.lanes t.key
  some (
      close_lane t.key (record lane { active = false })
        (record q {
          deadlines = if t.timed then drop_deadline id q.deadlines else q.deadlines;
          tasks = erase id q.tasks;
          counts = record q.counts {
            running = sub64 q.counts.running 1;
            resident_bytes = sub64 q.counts.resident_bytes t.charge;
            completed = add64 q.counts.completed 1;
          };
        }))

-- What the timer does after one round: return, wait for `changed`, wait for a time, go round the
-- loop, or reject the task.
pub data Timer : Type 0 where
  ends sleeps forgets : Timer
  sleeps_until : ℕ → Timer
  rejects : ℕ → Timer

-- A task whose deadline has passed, and that has not failed yet; `rest` are the later deadlines.
unfoldable pub fail_overdue : Task → List (ℕ × ℕ) → OperationQueue → Option (OperationQueue × Timer)
unfolding release_queued
fail_overdue t rest q =
    let marked = record q {
      tasks = modify t.id give_up q.tasks;
      deadlines = rest;
      counts = record q.counts { expired = add64 q.counts.expired 1 };
    } in
    if t.active
    then some (marked, rejects t.id)
    else (do q' ← release_queued (give_up t) marked; some (q', rejects t.id))

unfoldable pub expire_task : Task → List (ℕ × ℕ) → OperationQueue → Option (OperationQueue × Timer)
unfolding fail_overdue
expire_task t rest q =
    if t.failed
    then some (record q { deadlines = rest; tasks = modify t.id untime q.tasks }, forgets)
    else fail_overdue t rest q

unfoldable pub expire_first : List (ℕ × ℕ) → ℕ → OperationQueue → Option (OperationQueue × Timer)
unfolding expire_task
expire_first [] now q = some (q, sleeps)
expire_first ((time, id) ∷ rest) now q =
    if leb time now
    then find id q.tasks >>= (λ t. expire_task t rest q)
    else some (q, sleeps_until time)

-- expire(): one round of the loop
unfoldable pub expire : ℕ → OperationQueue → Option (OperationQueue × Timer)
unfolding expire_first
expire now q = if q.stopped then some (q, ends) else expire_first q.deadlines now q

-- The writes of `cancel` to a task that has not failed.
abbrev pub mark_cancelled : Task → OperationQueue → OperationQueue
mark_cancelled t q = record q {
  tasks = modify t.id give_up q.tasks;
  deadlines = drop_deadline t.id q.deadlines;
  counts = record q.counts { cancelled = add64 q.counts.cancelled 1 };
}

-- A task that is in the table and has not failed. To erase `deadlines.end()` is undefined.
unfoldable pub cancel_task : Task → OperationQueue → Option OperationQueue
cancel_task t q =
    if not t.timed
    then none
    else if t.active
    then some (mark_cancelled t q)
    else release_queued (give_up t) (mark_cancelled t q)

unfoldable pub cancel_found : Option Task → OperationQueue → Option (OperationQueue × Bool)
unfolding cancel_task
cancel_found none q = some (q, false)
cancel_found (some t) q =
    if t.failed then some (q, false) else (do q' ← cancel_task t q; some (q', true))

-- cancel(id), and whether it rejects the task
unfoldable pub cancel : ℕ → OperationQueue → Option (OperationQueue × Bool)
unfolding cancel_found
cancel id q = cancel_found (find id q.tasks) q

unfoldable pub fail_all : List Task → List Task
fail_all [] = []
fail_all (t ∷ ts) = record t { failed = true } ∷ fail_all ts

unfoldable pub unfailed : List Task → List ℕ
unfailed [] = []
unfailed (t ∷ ts) = if t.failed then unfailed ts else t.id ∷ unfailed ts

-- stop(): the first critical section, and the ids of the tasks that it rejects
unfoldable pub stop_accepting : OperationQueue → OperationQueue × List ℕ
unfolding fail_all unfailed
stop_accepting q =
    if q.stopped
    then (q, [])
    else (record q { stopped = true; tasks = fail_all q.tasks }, unfailed q.tasks)

-- stop(): the last critical section, after the threads have been joined
unfoldable pub stop_clear : OperationQueue → OperationQueue
stop_clear q = record q {
  tasks = [];
  lanes = λ _. none;
  deadlines = [];
  runnable = [];
  counts = record q.counts { queued = 0; running = 0; resident_bytes = 0 };
}
