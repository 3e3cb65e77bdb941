-- ===== src/OperationQueue/Tests.antt =====
-- Runs of src/operation_queue.cpp on small queues, and the theorems at them.
use redis_pvxs_ioc.Prelude.{
  ◌<◌, ℕ, ◌+◌, ◌≤◌, ◌≡◌, ◌≢◌, refl, true, false, Option, none, some, List, [], ◌∷◌, arith, add64,
  sub64, ◌↔◌, leb, String, str_eq, if◌then◌else◌,
}
use redis_pvxs_ioc.OperationQueue.Tasks.{Task, find, modify, waiting, busy, remove, total_charge}
use redis_pvxs_ioc.OperationQueue.Tasks.Flags.{entries}
use redis_pvxs_ioc.OperationQueue.{
  OperationQueue, OperationQueueLimits, Work, ticket, rejected, stopped, overload, deadline, fresh,
  create, submit, accept, has_room,
}
use redis_pvxs_ioc.OperationQueue.Threads.{Taken, runs, take, finish, expire, cancel}
use redis_pvxs_ioc.OperationQueue.Invariant.{Inv, queue_of, tokens}
use redis_pvxs_ioc.OperationQueue.Invariant.Failing.{Succeeds, cancel-Inv, expire-Inv}
use redis_pvxs_ioc.OperationQueue.Invariant.Taking.{take-Inv}
use redis_pvxs_ioc.OperationQueue.Invariant.Finishing.{finish-Inv}
use redis_pvxs_ioc.OperationQueue.Invariant.Submitting.{create-Inv, submit-Inv}
use redis_pvxs_ioc.OperationQueue.Reach.{
  here, next, submits, takes, Step-Inv, Reach-Inv, Reach-busy,
}
use redis_pvxs_ioc.OperationQueue.Dispatch.{take_in_order}
use redis_pvxs_ioc.OperationQueue.Admission.{
  CanAdmit, submit-ticket_iff, waiting-submit, submit-rejected,
}
use redis_pvxs_ioc.OperationQueue.Rejection.{cancel-waiting, cancel_running}

abbrev small : OperationQueueLimits
small = record { workers = 1; queued_per_key = 2; resident_bytes = 1024 }

abbrev put : ℕ → Work
put bytes = record { key = "PV"; bytes = bytes; deadline = 100 }

-- Two writes of one PV wait.
abbrev one : OperationQueue
one = (submit (put 8) 5 (fresh small)).0

abbrev two : OperationQueue
two = (submit (put 300) 6 one).0

abbrev state : Option (OperationQueue × Taken) → OperationQueue
state none = fresh small
state (some (q, a)) = q

-- A worker has the first.
abbrev running : OperationQueue
running = state (take 7 two)

third_overloads : (submit (put 8) 7 two).1 ≡ rejected overload
unfolding submit accept has_room add64 sub64
third_overloads = refl

late_expires : (submit (put 8) 100 one).1 ≡ rejected deadline
unfolding submit has_room sub64 accept
late_expires = refl

first_runs : take 7 two ≡ some (running, runs 1 false)
unfolding submit accept has_room take find modify add64 sub64
first_runs = refl

second_waits_its_turn : (busy "PV" running.tasks ≡ 1) × (tokens "PV" running.runnable ≡ 0)
unfolding submit accept has_room take find modify add64 sub64 busy tokens
second_waits_its_turn = (refl, refl)

start-Inv : Inv (fresh small)
unfolding create
start-Inv = create-Inv small (fresh small) (omega arith) refl

one-Inv : Inv one
one-Inv = submit-Inv (fresh small) (put 8) 5 start-Inv (omega arith)

one_admits : CanAdmit (put 300) 6 one
unfolding submit accept has_room waiting add64 sub64
one_admits = record {
  open_ = refl;
  ahead = omega arith;
  key_room = omega arith;
  byte_room = omega arith;
}

two-Inv : Inv two
unfolding submit accept has_room add64 sub64
two-Inv = submit-Inv one (put 300) 6 one-Inv (omega arith)

running-Inv : Inv running
running-Inv = Step-Inv (takes 7 (runs 1 false) first_runs) two-Inv

Reach-Inv_example : Inv two
unfolding create submit accept has_room add64 sub64
Reach-Inv_example =
    Reach-Inv small (fresh small) two (omega arith) refl
      (next (next here (submits (put 8) 5 (omega arith))) (submits (put 300) 6 (omega arith)))

Reach-busy_example :
    (busy "PV" two.tasks + tokens "PV" two.runnable ≤ 1)
    × (waiting "PV" two.tasks ≢ [] → busy "PV" two.tasks + tokens "PV" two.runnable ≡ 1)
unfolding create submit accept has_room add64 sub64
Reach-busy_example =
    Reach-busy small (fresh small) two "PV" (omega arith) refl
      (next (next here (submits (put 8) 5 (omega arith))) (submits (put 300) 6 (omega arith)))

take_in_order_example :
    (t : Task) × (rest : List ℕ) × (find 1 two.tasks ≡ some t)
    × (waiting t.key two.tasks ≡ 1 ∷ rest)
    × (waiting t.key running.tasks ≡ rest)
    × (busy t.key two.tasks ≡ 0)
    × (busy t.key running.tasks ≡ 1)
    × (false ≡ leb t.deadline 7)
take_in_order_example = take_in_order two running 7 1 false two-Inv first_runs

submit-ticket_iff_example :
    ((submit (put 8) 5 (fresh small)).1 ≡ ticket 1) ↔ CanAdmit (put 8) 5 (fresh small)
submit-ticket_iff_example = submit-ticket_iff (fresh small) (put 8) 5 start-Inv (omega arith)

waiting-submit_example :
    (queue_of ((submit (put 300) 6 one).0.lanes "PV") ≡ 1 ∷ 2 ∷ [])
    × (waiting "PV" (submit (put 300) 6 one).0.tasks ≡ 1 ∷ 2 ∷ [])
unfolding submit accept has_room waiting queue_of add64 sub64
waiting-submit_example = waiting-submit one (put 300) 6 one-Inv "PV" one_admits

submit-rejected_example :
    ((submit (put 8) 7 two).0 ≡ record two { counts = (submit (put 8) 7 two).0.counts })
    × ((submit (put 8) 7 two).0.counts.resident_bytes ≡ two.counts.resident_bytes)
    × ((overload ≡ stopped) ↔ (two.stopped ≡ true))
    × ((overload ≡ deadline) ↔ ((two.stopped ≡ false) × (100 ≤ 7)))
    × ((overload ≡ overload) ↔ ((two.stopped ≡ false) × (7 < 100)))
submit-rejected_example = submit-rejected two (put 8) 7 overload third_overloads

abbrev first_task : Task
first_task = record {
  id = 1;
  key = "PV";
  charge = 256;
  deadline = 100;
  active = false;
  failed = false;
  timed = true;
}

cancel-waiting_example :
    (q' : OperationQueue) × (cancel 1 two ≡ some (q', true))
    × ((k : String)
        → queue_of (q'.lanes k)
          ≡ (if str_eq "PV" k then remove 1 (queue_of (two.lanes k)) else queue_of (two.lanes k)))
    × (waiting "PV" q'.tasks ≡ remove 1 (waiting "PV" two.tasks))
    × (q'.runnable ≡ two.runnable)
    × (q'.counts.queued + 1 ≡ two.counts.queued)
    × (q'.counts.resident_bytes + 256 ≡ two.counts.resident_bytes)
    × (total_charge q'.tasks + 256 ≡ total_charge two.tasks)
    × (entries 1 q'.deadlines ≡ 0)
    × (cancel 1 q' ≡ some (q', false))
unfolding submit accept has_room find add64 sub64
cancel-waiting_example = cancel-waiting two 1 first_task two-Inv refl refl refl

cancel_running_example :
    (q' : OperationQueue) × (cancel 1 running ≡ some (q', true))
    × (q'.lanes ≡ running.lanes)
    × (q'.runnable ≡ running.runnable)
    × (q'.counts.resident_bytes ≡ running.counts.resident_bytes)
    × (total_charge q'.tasks ≡ total_charge running.tasks)
    × (busy "PV" q'.tasks ≡ busy "PV" running.tasks)
    × (entries 1 q'.deadlines ≡ 0)
    × (cancel 1 q' ≡ some (q', false))
unfolding submit accept has_room take find modify add64 sub64
cancel_running_example =
    cancel_running running 1 (record first_task { active = true }) running-Inv refl refl refl

cancel-Inv_example : Succeeds (cancel 2 two)
cancel-Inv_example = cancel-Inv two two-Inv 2

expire-Inv_example : Succeeds (expire 100 two)
expire-Inv_example = expire-Inv two two-Inv 100

take-Inv_example : Succeeds (take 7 two)
take-Inv_example = take-Inv two two-Inv 7

finish-Inv_example : (q' : OperationQueue) × (finish 1 running ≡ some q') × Inv q'
unfolding submit accept has_room take find modify add64 sub64
finish-Inv_example =
    finish-Inv running (record first_task { active = true }) 1 running-Inv refl refl
