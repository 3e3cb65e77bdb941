-- ===== src/OperationQueue.antt =====
-- src/operation_queue.cpp and include/redis_pvxs_ioc/operation_queue.h: each critical section
-- under `mutex` is one function. What a callee throws (`at` of a missing key, a dangling iterator)
-- is `none`. Time is an argument; waiting on `changed` and joining threads are not modelled.
pub mod Tasks
pub mod Threads
pub mod Invariant
pub mod Reach
pub mod Dispatch
pub mod Admission
pub mod Rejection
mod Tests
use redis_pvxs_ioc.Prelude.{
  ℕ, ◌+◌, ◌≤◌, ◌<◌, String, ◌≡◌, Bool, true, false, not, ◌&&◌, ◌||◌, Option, none, some, List, [],
  ◌∷◌, ◌++◌, arith, ◌==◌, ltb, leb, if◌then◌else◌, bit, str_eq, add64, sub64, length, ◌>>=◌,
}
use Prim.Native.Nat.{max}
use Tasks.{Task}

pub data OperationFailure : Type 0 where
  overload deadline cancelled stopped exception : OperationFailure

pub record OperationQueueLimits : Type 0 where
  pub workers : ℕ
  pub queued_per_key : ℕ
  pub resident_bytes : ℕ

pub record OperationQueueStats : Type 0 where
  pub accepted : ℕ
  pub completed : ℕ
  pub overloaded : ℕ
  pub expired : ℕ
  pub cancelled : ℕ
  pub queued : ℕ
  pub running : ℕ
  pub resident_bytes : ℕ
  pub peak_bytes : ℕ

-- `queue` holds the ids of the tasks.
pub record Lane : Type 0 where
  pub active : Bool
  pub ready : Bool
  pub queue : List ℕ

-- What a client submits, but for its two callbacks.
pub record Work : Type 0 where
  pub key : String
  pub bytes : ℕ
  pub deadline : ℕ

-- `deadlines` is the multimap from a time to an id, in its order. `tasks`, an unordered map, is the list of
-- the tasks in the order of submission: it says nothing of the order in which they run, which is that
-- of the lanes.
pub record OperationQueue : Type 0 where
  pub limits : OperationQueueLimits
  pub stopped : Bool
  pub next_id : ℕ
  pub counts : OperationQueueStats
  pub lanes : String → Option Lane
  pub tasks : List Task
  pub deadlines : List (ℕ × ℕ)
  pub runnable : List String

-- lanes[key] = lane, and lanes.erase(key) where the lane is `none`
abbrev pub set_lane : String → Option Lane → (String → Option Lane) → String → Option Lane
set_lane key lane lanes k = if str_eq key k then lane else lanes k

-- deadlines.emplace(time, id): after the entries of the same time
pub emplace : ℕ → ℕ → List (ℕ × ℕ) → List (ℕ × ℕ)
emplace time id [] = (time, id) ∷ []
emplace time id ((u, j) ∷ ds) =
    if ltb time u then (time, id) ∷ (u, j) ∷ ds else (u, j) ∷ emplace time id ds

-- deadlines.erase(task->expiry)
pub drop_deadline : ℕ → List (ℕ × ℕ) → List (ℕ × ℕ)
drop_deadline id [] = []
drop_deadline id ((u, j) ∷ ds) = if j == id then ds else (u, j) ∷ drop_deadline id ds

-- The members as they are initialised.
abbrev pub fresh : OperationQueueLimits → OperationQueue
fresh limits = record {
  limits = limits;
  stopped = false;
  next_id = 0;
  counts = record {
    accepted = 0;
    completed = 0;
    overloaded = 0;
    expired = 0;
    cancelled = 0;
    queued = 0;
    running = 0;
    resident_bytes = 0;
    peak_bytes = 0;
  };
  lanes = λ _. none;
  tasks = [];
  deadlines = [];
  runnable = [];
}

-- Impl(settings): limits that are refused throw.
unfoldable pub create : OperationQueueLimits → Option OperationQueue
create limits =
    if limits.workers == 0 || (limits.queued_per_key == 0 || ltb limits.resident_bytes 256)
    then none
    else some (fresh limits)

unfoldable pub is_empty {ℓ} : {A : Type ℓ} → List A → Bool
is_empty [] = true
is_empty (x ∷ xs) = false

-- ready(key, lane); `lane` is the lane's new state, stored at `key`
unfoldable pub make_ready : String → Lane → OperationQueue → OperationQueue
unfolding is_empty
make_ready key lane q =
    if not lane.active && (not lane.ready && not (is_empty lane.queue))
    then record q {
      runnable = q.runnable ++ key ∷ [];
      lanes = set_lane key (some (record lane { ready = true })) q.lanes;
    }
    else record q { lanes = set_lane key (some lane) q.lanes }

-- The lane that `submit` appends to, made by lanes[key] where it is missing.
unfoldable pub lane_or_new : Option Lane → Lane
lane_or_new none = record { active = false; ready = false; queue = [] }
lane_or_new (some lane) = lane

unfoldable pub queued_in : Option Lane → ℕ
queued_in none = 0
queued_in (some lane) = length lane.queue

-- task->charge
unfoldable pub charge_of : Work → ℕ
charge_of w = max w.bytes 256

-- The accepting branch of `submit`, but for the task's lane.
unfoldable pub enter : Work → OperationQueue → OperationQueue
unfolding charge_of emplace
enter w q =
    let id = add64 q.next_id 1 in
    let charge = charge_of w in
    let resident = add64 q.counts.resident_bytes charge in
    record q {
      next_id = id;
      tasks =
          q.tasks
          ++ record {
            id = id;
            key = w.key;
            charge = charge;
            deadline = w.deadline;
            active = false;
            failed = false;
            timed = true;
          }
            ∷ [];
      deadlines = emplace w.deadline id q.deadlines;
      counts = record q.counts {
        accepted = add64 q.counts.accepted 1;
        queued = add64 q.counts.queued 1;
        resident_bytes = resident;
        peak_bytes = max q.counts.peak_bytes resident;
      };
    }

-- lane.queue.push_back(task)
unfoldable pub push_task : ℕ → Option Lane → Lane
unfolding lane_or_new
push_task id lane = let old = lane_or_new lane in record old { queue = old.queue ++ id ∷ [] }

-- The accepting branch of `submit`.
unfoldable pub accept : Work → OperationQueue → OperationQueue
unfolding make_ready push_task enter
accept w q = make_ready w.key (push_task (add64 q.next_id 1) (q.lanes w.key)) (enter w q)

-- What `submit` returns beside the new state: the id, or 0 and the failure that `reject` reports.
pub data Submitted : Type 0 where
  ticket : ℕ → Submitted
  rejected : OperationFailure → Submitted

unfoldable pub has_room : Work → OperationQueue → Bool
unfolding queued_in charge_of
has_room w q =
    ltb (queued_in (q.lanes w.key)) q.limits.queued_per_key
    && leb (charge_of w) (sub64 q.limits.resident_bytes q.counts.resident_bytes)

unfoldable pub submit : Work → ℕ → OperationQueue → OperationQueue × Submitted
submit w now q =
    if q.stopped
    then (q, rejected stopped)
    else if leb w.deadline now
    then (
      record q { counts = record q.counts { expired = add64 q.counts.expired 1 } },
      rejected deadline,
    )
    else if has_room w q
    then (accept w q, ticket (add64 q.next_id 1))
    else (
      record q { counts = record q.counts { overloaded = add64 q.counts.overloaded 1 } },
      rejected overload,
    )
