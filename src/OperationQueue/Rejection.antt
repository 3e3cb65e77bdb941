-- ===== src/OperationQueue/Rejection.antt =====
-- What `cancel` of src/operation_queue.cpp does to a task that waits and to one that runs.
use text.Mathlib.TextPositions.{eq_refl}
use redis_pvxs_ioc.Prelude.{
  ℕ, ◌+◌, ◌≡◌, String, refl, true, false, some, arith, eq_iff, sub64_exact, str_eq, if◌then◌else◌,
}
use redis_pvxs_ioc.OperationQueue.Tasks.{
  Task, find, modify, give_up, waiting, busy, remove, total_charge, total_charge-erase,
  count_waiting-erase, waiting-erase,
}
use redis_pvxs_ioc.OperationQueue.Tasks.Updates.{
  total_charge-modify, find-modify, waiting-modify, busy-modify,
}
use redis_pvxs_ioc.OperationQueue.Tasks.Order.{find_id, find-erase_self, modify-Ascending}
use redis_pvxs_ioc.OperationQueue.Tasks.Flags.{find-IsKept, entries}
use redis_pvxs_ioc.OperationQueue.{OperationQueue, Lane, is_empty}
use redis_pvxs_ioc.OperationQueue.Threads.{
  cancel, cancel_found, cancel_task, mark_cancelled, release_queued, release_from,
}
use redis_pvxs_ioc.OperationQueue.Invariant.{Inv, counts_small, entries-drop_deadline, queue_of}
use redis_pvxs_ioc.OperationQueue.Invariant.Releasing.{lane_of_waiting, give_up-IsNeutral}

module _ (q : OperationQueue) (id : ℕ) (t : Task) (v : Inv q) (f : find id q.tasks ≡ some t)
    (live : t.failed ≡ false) where
  self : find t.id q.tasks ≡ some t
  self = cc (find_id id q.tasks t f)

  watched : t.timed ≡ true
  watched = ground (arith, (find-IsKept id q.tasks t v.kept f).watched)

  given_up_self : find t.id (modify t.id give_up q.tasks) ≡ some (give_up t)
  given_up_self = ground (arith, self, find-modify t.id give_up t.id q.tasks (λ u. refl))

  -- What `release_from` leaves of the lanes.
  module _ (lane : Lane) (e : q.lanes t.key ≡ some lane) where
    queue_of-release :
        (k : String)
        → queue_of ((release_from (give_up t) lane (mark_cancelled t q)).lanes k)
          ≡ (if str_eq t.key k then remove t.id (queue_of (q.lanes k)) else queue_of (q.lanes k))
    unfolding release_from queue_of is_empty
    queue_of-release k = ground (arith, eq_iff t.key k, e)

  -- Under the invariant, cancelling a task that waits and has not failed takes it out of its lane and
  -- out of the tasks, and leaves the queues of the other lanes and `runnable`; the count of waiting tasks drops by
  -- one, the resident bytes and the charges of the tasks drop by its own charge, no deadline of it is
  -- left, and a second `cancel` does nothing.
  pub cancel-waiting :
      t.active ≡ false
      → (q' : OperationQueue) × (cancel id q ≡ some (q', true))
        × ((k : String)
            → queue_of (q'.lanes k)
              ≡ (if str_eq t.key k then remove id (queue_of (q.lanes k)) else queue_of (q.lanes k)))
        × (waiting t.key q'.tasks ≡ remove id (waiting t.key q.tasks))
        × (q'.runnable ≡ q.runnable)
        × (q'.counts.queued + 1 ≡ q.counts.queued)
        × (q'.counts.resident_bytes + t.charge ≡ q.counts.resident_bytes)
        × (total_charge q'.tasks + t.charge ≡ total_charge q.tasks)
        × (entries id q'.deadlines ≡ 0)
        × (cancel id q' ≡ some (q', false))
  unfolding cancel cancel_found cancel_task release_queued release_from
  cancel-waiting idle =
      let (lane, e) = lane_of_waiting q t v self idle in
      (
        release_from (give_up t) lane (mark_cancelled t q),
        ground (arith, f, live, watched, idle, e),
        λ k. ground (arith, queue_of-release lane e k, find_id id q.tasks t f),
        ground (
          arith,
          idle,
          find_id id q.tasks t f,
          eq_refl t.key,
          waiting-modify t.id give_up give_up-IsNeutral t.key q.tasks,
          waiting-erase t.id t.key (modify t.id give_up q.tasks) (give_up t) given_up_self,
        ),
        refl,
        ground (
          arith,
          idle,
          v.queued,
          counts_small q v,
          count_waiting-erase t.id q.tasks t self,
          sub64_exact q.counts.queued 1,
        ),
        ground (
          arith,
          v.resident,
          v.within,
          v.limit_word,
          total_charge-erase t.id q.tasks t self,
          sub64_exact q.counts.resident_bytes t.charge,
        ),
        ground (
          arith,
          total_charge-modify t.id give_up q.tasks (λ u. refl),
          total_charge-erase t.id (modify t.id give_up q.tasks) (give_up t) given_up_self,
        ),
        ground (
          arith,
          f,
          v.timed id,
          find_id id q.tasks t f,
          entries-drop_deadline id t.id q.deadlines,
        ),
        ground (
          arith,
          find_id id q.tasks t f,
          find-erase_self t.id 0 q.next_id (modify t.id give_up q.tasks)
              (modify-Ascending t.id give_up 0 q.next_id q.tasks (λ u. refl) v.order),
        ),
      )

  -- Under the invariant, cancelling a task that runs and has not failed leaves the lanes, `runnable`,
  -- the resident bytes, the charges and its hold on its key as they are; only its entry in
  -- `deadlines` goes, and a second `cancel` does nothing.
  pub cancel_running :
      t.active ≡ true
      → (q' : OperationQueue) × (cancel id q ≡ some (q', true))
        × (q'.lanes ≡ q.lanes)
        × (q'.runnable ≡ q.runnable)
        × (q'.counts.resident_bytes ≡ q.counts.resident_bytes)
        × (total_charge q'.tasks ≡ total_charge q.tasks)
        × (busy t.key q'.tasks ≡ busy t.key q.tasks)
        × (entries id q'.deadlines ≡ 0)
        × (cancel id q' ≡ some (q', false))
  unfolding cancel cancel_found cancel_task
  cancel_running runs = (
    mark_cancelled t q,
    ground (arith, f, live, watched, runs),
    refl,
    refl,
    refl,
    total_charge-modify t.id give_up q.tasks (λ u. refl),
    busy-modify t.id give_up give_up-IsNeutral t.key q.tasks,
    ground
        (arith, f, v.timed id, find_id id q.tasks t f, entries-drop_deadline id t.id q.deadlines),
    ground (arith, find_id id q.tasks t f, given_up_self),
  )
