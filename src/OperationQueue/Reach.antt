-- ===== src/OperationQueue/Reach.antt =====
-- The histories of a queue of src/operation_queue.cpp: its critical sections in any order that the
-- mutex allows, at any times.
use mathlib.Core.Path.{subst}
use redis_pvxs_ioc.Prelude.{
  ◌≤◌, ◌≢◌, [], String, ℕ, ◌+◌, ◌<◌, ◌≡◌, Bool, true, Option, some, word, arith,
}
use redis_pvxs_ioc.OperationQueue.Tasks.{Task, find, count_active, busy, waiting}
use redis_pvxs_ioc.OperationQueue.{OperationQueue, OperationQueueLimits, Work, create, submit}
use redis_pvxs_ioc.OperationQueue.Threads.{
  Taken, Timer, take, finish, expire, cancel, stop_accepting, stop_clear,
}
use redis_pvxs_ioc.OperationQueue.Invariant.{Inv, tokens}
use redis_pvxs_ioc.OperationQueue.Dispatch.{busy-tokens}
use redis_pvxs_ioc.OperationQueue.Invariant.Failing.{Succeeds, cancel-Inv, expire-Inv}
use redis_pvxs_ioc.OperationQueue.Invariant.Taking.{take-Inv}
use redis_pvxs_ioc.OperationQueue.Invariant.Finishing.{finish-Inv}
use redis_pvxs_ioc.OperationQueue.Invariant.Submitting.{submit-Inv, create-Inv}
use redis_pvxs_ioc.OperationQueue.Invariant.Stopping.{stop_accepting-Inv, stop_clear-Inv}

-- A worker finishes a task that it has taken. The last section of `stop` comes when the workers
-- have been joined, so that none holds a task. Ids are not used up: there are 2 ^ 64 of them.
pub data Step (q : OperationQueue) : OperationQueue → Type 0 where
  submits : (w : Work) (now : ℕ) → q.next_id + 1 < word → Step q (submit w now q).0
  cancels :
      (id : ℕ) (found : Bool) {q' : OperationQueue} → cancel id q ≡ some (q', found) → Step q q'
  takes : (now : ℕ) (r : Taken) {q' : OperationQueue} → take now q ≡ some (q', r) → Step q q'
  finishes :
      (id : ℕ) (t : Task) {q' : OperationQueue}
      → find id q.tasks ≡ some t
      → t.active ≡ true
      → finish id q ≡ some q'
      → Step q q'
  expires : (now : ℕ) (r : Timer) {q' : OperationQueue} → expire now q ≡ some (q', r) → Step q q'
  stops : Step q (stop_accepting q).0
  clears : q.stopped ≡ true → count_active q.tasks ≡ 0 → Step q (stop_clear q)

pub data Reach (q : OperationQueue) : OperationQueue → Type 0 where
  here : Reach q q
  next : {a b : OperationQueue} → Reach q a → Step a b → Reach q b

-- A step that has a result has the one that its lemma speaks of.
Succeeds-Inv :
    {A : Type 0} (r : Option (OperationQueue × A)) (q : OperationQueue) (a : A)
    → r ≡ some (q, a)
    → Succeeds r
    → Inv q
Succeeds-Inv r q a e (q', a', e', v) = let same : q' ≡ q = ground arith in subst Inv same v

finish-Inv_of :
    (r : Option OperationQueue) (q : OperationQueue)
    → r ≡ some q
    → (q' : OperationQueue) × (r ≡ some q') × Inv q'
    → Inv q
finish-Inv_of r q e (q', e', v) = let same : q' ≡ q = ground arith in subst Inv same v

pub Step-Inv : {q q' : OperationQueue} → Step q q' → Inv q → Inv q'
Step-Inv {q} (submits w now small) v = submit-Inv q w now v small
Step-Inv {q} (cancels id found e) v = Succeeds-Inv _ _ _ e (cancel-Inv q v id)
Step-Inv {q} (takes now r e) v = Succeeds-Inv _ _ _ e (take-Inv q v now)
Step-Inv {q} (finishes id t f runs e) v = finish-Inv_of _ _ e (finish-Inv q t id v f runs)
Step-Inv {q} (expires now r e) v = Succeeds-Inv _ _ _ e (expire-Inv q v now)
Step-Inv {q} stops v = stop_accepting-Inv q v
Step-Inv {q} (clears over idle) v = stop_clear-Inv q v.limit_word

Reach-Inv_lem : {a b : OperationQueue} → Reach a b → Inv a → Inv b
Reach-Inv_lem here v = v
Reach-Inv_lem (next r s) v = Step-Inv s (Reach-Inv_lem r v)

-- In every state that a queue reaches from its construction the invariant holds: the counts are
-- those of the tasks, the charges of the tasks add up to the resident bytes, which stay within the
-- limit, each lane holds the waiting tasks of its key in the order of submission and is there
-- exactly while its key is active or has its one token in `runnable`, and each task that has not
-- failed is in `deadlines`.
pub Reach-Inv :
    (limits : OperationQueueLimits) (start q : OperationQueue)
    → limits.resident_bytes < word
    → create limits ≡ some start
    → Reach start q
    → Inv q
Reach-Inv limits start q small e r = Reach-Inv_lem r (create-Inv limits start small e)

-- In every state that a queue reaches from its construction, a key never has two tasks running, nor
-- one running and a token besides. While a task of the key waits, one of them is running or its
-- token stands in `runnable`, so that a worker will come.
pub Reach-busy :
    (limits : OperationQueueLimits) (start q : OperationQueue) (k : String)
    → limits.resident_bytes < word
    → create limits ≡ some start
    → Reach start q
    → (busy k q.tasks + tokens k q.runnable ≤ 1)
      × (waiting k q.tasks ≢ [] → busy k q.tasks + tokens k q.runnable ≡ 1)
Reach-busy limits start q k small e r = busy-tokens q k (Reach-Inv limits start q small e r)
