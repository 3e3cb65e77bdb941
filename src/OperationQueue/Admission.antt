-- ===== src/OperationQueue/Admission.antt =====
-- What `submit` of src/operation_queue.cpp answers, and what it leaves.
use redis_pvxs_ioc.Prelude.{
  ℕ, ◌+◌, ◌≤◌, ◌<◌, String, ◌≡◌, ap, true, false, [], ◌∷◌, ◌++◌, arith, if◌then◌else◌, str_eq,
  add64, sub64_exact, add64_exact, word, length, ◌↔◌,
}
use redis_pvxs_ioc.OperationQueue.Tasks.{Task, waiting}
use redis_pvxs_ioc.OperationQueue.Tasks.Order.{waiting-append}
use redis_pvxs_ioc.OperationQueue.{
  OperationQueue, OperationFailure, Work, ticket, rejected, overload, deadline, stopped, submit,
  accept, make_ready, enter, has_room, queued_in, charge_of, push_task,
}
use redis_pvxs_ioc.OperationQueue.Invariant.{Inv, queue_of}
use redis_pvxs_ioc.OperationQueue.Invariant.Finishing.{make_ready_lem}

-- The queue is open, the deadline lies ahead, the key has room and so has the byte budget.
pub record CanAdmit (w : Work) (now : ℕ) (q : OperationQueue) : Type 0 where
  pub open_ : q.stopped ≡ false
  pub ahead : now < w.deadline
  pub key_room : length (waiting w.key q.tasks) < q.limits.queued_per_key
  pub byte_room : q.counts.resident_bytes + charge_of w ≤ q.limits.resident_bytes

abbrev new_task : OperationQueue → Work → Task
new_task q w = record {
  id = add64 q.next_id 1;
  key = w.key;
  charge = charge_of w;
  deadline = w.deadline;
  active = false;
  failed = false;
  timed = true;
}

module _ (q : OperationQueue) (w : Work) (now : ℕ) (v : Inv q) where
  queued_in-waiting : queued_in (q.lanes w.key) ≡ length (waiting w.key q.tasks)
  unfolding queued_in
  queued_in-waiting = ground (arith, v.lanes w.key)

  has_room_iff :
      (has_room w q ≡ true)
      ↔ (length (waiting w.key q.tasks) < q.limits.queued_per_key)
        × (q.counts.resident_bytes + charge_of w ≤ q.limits.resident_bytes)
  unfolding has_room
  has_room_iff = (
    λ h. (
      ground (
        arith,
        v.within,
        v.limit_word,
        queued_in-waiting,
        sub64_exact q.limits.resident_bytes q.counts.resident_bytes,
      ),
      ground (
        arith,
        v.within,
        v.limit_word,
        queued_in-waiting,
        sub64_exact q.limits.resident_bytes q.counts.resident_bytes,
      ),
    ),
    λ h. ground (
      arith,
      v.within,
      v.limit_word,
      queued_in-waiting,
      sub64_exact q.limits.resident_bytes q.counts.resident_bytes,
    ),
  )

  tasks-accept : (accept w q).tasks ≡ (enter w q).tasks
  unfolding accept
  tasks-accept =
      ap (λ (p : OperationQueue). p.tasks)
        (make_ready_lem w.key (push_task (add64 q.next_id 1) (q.lanes w.key)) (enter w q))

  -- Under the invariant and before the ids wrap, `submit` gives the next id as the ticket exactly when
  -- the queue is open, the deadline lies ahead, and the key and the byte budget have room.
  pub submit-ticket_iff :
      (q.next_id + 1 < word) → ((submit w now q).1 ≡ ticket (q.next_id + 1)) ↔ CanAdmit w now q
  unfolding submit
  submit-ticket_iff small = (
    λ h. record {
      open_ = ground arith;
      ahead = ground arith;
      key_room = (has_room_iff.0 (ground arith)).0;
      byte_room = (has_room_iff.0 (ground arith)).1;
    },
    λ c. ground (
      arith,
      c.open_,
      c.ahead,
      has_room_iff.1 (c.key_room, c.byte_room),
      add64_exact q.next_id 1 small,
    ),
  )

  submit_lem : CanAdmit w now q → submit w now q ≡ (accept w q, ticket (add64 q.next_id 1))
  unfolding submit
  submit_lem c = ground (arith, c.open_, c.ahead, has_room_iff.1 (c.key_room, c.byte_room))

  queue_of-accept :
      (k : String)
      → queue_of ((accept w q).lanes k) ≡ (
          if str_eq w.key k
          then queue_of (q.lanes w.key) ++ add64 q.next_id 1 ∷ []
          else queue_of (q.lanes k))
  unfolding accept make_ready enter push_task queue_of
  queue_of-accept k = ground arith

  -- Under the invariant, a task that can be admitted is put behind the others that wait in the lane of
  -- its key, both in the lane and among the tasks, and what waits for other keys stays as it is.
  pub waiting-submit :
      (k : String)
      → CanAdmit w now q
      → (queue_of ((submit w now q).0.lanes k) ≡ (
          if str_eq w.key k
          then queue_of (q.lanes w.key) ++ add64 q.next_id 1 ∷ []
          else queue_of (q.lanes k)))
        × (waiting k (submit w now q).0.tasks ≡ (
            if str_eq w.key k
            then waiting k q.tasks ++ add64 q.next_id 1 ∷ []
            else waiting k q.tasks))
  unfolding enter
  waiting-submit k c = (
    simp (submit_lem c) (queue_of-accept k),
    simp (submit_lem c, tasks-accept) (ground (arith, waiting-append (new_task q w) k q.tasks)),
  )

module _ (q : OperationQueue) (w : Work) (now : ℕ) where
  -- A rejection leaves all but the counts, and the resident bytes among these. It is `stopped` exactly
  -- for a stopped queue, else `deadline` exactly for a deadline that has passed, and else `overload`.
  pub submit-rejected :
      (r : OperationFailure)
      → (submit w now q).1 ≡ rejected r
      → ((submit w now q).0 ≡ record q { counts = (submit w now q).0.counts })
        × ((submit w now q).0.counts.resident_bytes ≡ q.counts.resident_bytes)
        × ((r ≡ stopped) ↔ (q.stopped ≡ true))
        × ((r ≡ deadline) ↔ ((q.stopped ≡ false) × (w.deadline ≤ now)))
        × ((r ≡ overload) ↔ ((q.stopped ≡ false) × (now < w.deadline)))
  unfolding submit
  submit-rejected r h = (
    ground arith,
    ground arith,
    (λ e. ground arith, λ e. ground arith),
    (λ e. ground arith, λ e. ground arith),
    (λ e. ground arith, λ e. ground arith),
  )
