-- ===== src/OperationQueue/Invariant.antt =====
-- The invariant of the state of src/operation_queue.cpp, and the small steps that its critical
-- sections share.
pub mod Releasing
pub mod Failing
pub mod Taking
pub mod Finishing
pub mod Submitting
pub mod Stopping
use mathlib.Core.Option
use redis_pvxs_ioc.Prelude.{
  ℕ, ◌+◌, ◌-◌, ◌*◌, ◌≤◌, ◌<◌, String, ◌≡◌, refl, Bool, true, false, not, ◌&&◌, ◌||◌, Option, none,
  some, List, [], ◌∷◌, ◌++◌, arith, ◌==◌, ltb, if◌then◌else◌, bit, str_eq, All, word, eq_iff,
}
use redis_pvxs_ioc.OperationQueue.Tasks.{
  Task, find, waiting, busy, count_waiting, count_active, total_charge, Ascending,
}
use redis_pvxs_ioc.OperationQueue.Tasks.Flags.{IsKept, entries, timed_bit, counts-le-total_charge}
use redis_pvxs_ioc.OperationQueue.{
  OperationQueue, OperationQueueStats, Lane, emplace, drop_deadline,
}

-- The ids that wait in a lane, oldest first; a lane that is not there holds none.
unfoldable pub queue_of : Option Lane → List ℕ
queue_of none = []
queue_of (some lane) = lane.queue

-- How often a key stands in `runnable`.
unfoldable pub tokens : String → List String → ℕ
tokens k [] = 0
tokens k (j ∷ ks) = bit (str_eq j k) + tokens k ks

-- A lane holds the waiting tasks of its key, oldest first. It is there exactly while a task of the
-- key runs (`active`) or one token of the key is in `runnable` (`ready`), never both.
abbrev pub LaneFits : Option Lane → List ℕ → ℕ → ℕ → Type 0
LaneFits none ids running ready = (ids ≡ []) × (running ≡ 0) × (ready ≡ 0)
LaneFits (some lane) ids running ready =
    (lane.queue ≡ ids)
    × (running ≡ bit lane.active)
    × (ready ≡ bit lane.ready)
    × (lane.ready ≡ not lane.active)

abbrev pub LanesFit : (String → Option Lane) → List Task → List String → Type 0
LanesFit lanes tasks runnable =
    (k : String) → LaneFits (lanes k) (waiting k tasks) (busy k tasks) (tokens k runnable)

pub record Inv (q : OperationQueue) : Type 0 where
  pub limit_word : q.limits.resident_bytes < word
  pub order : Ascending 0 q.next_id q.tasks
  pub queued : q.counts.queued ≡ count_waiting q.tasks
  pub running : q.counts.running ≡ count_active q.tasks
  pub resident : q.counts.resident_bytes ≡ total_charge q.tasks
  pub within : q.counts.resident_bytes ≤ q.limits.resident_bytes
  pub kept : All IsKept q.tasks
  pub lanes : LanesFit q.lanes q.tasks q.runnable
  pub timed : (id : ℕ) → entries id q.deadlines ≡ timed_bit (find id q.tasks)

-- No count reaches the word size.
pub counts_small :
    (q : OperationQueue) → Inv q → (count_waiting q.tasks + count_active q.tasks) * 256 < word
counts_small q v =
    omega (arith, counts-le-total_charge q.tasks v.kept, v.limit_word, v.within, v.resident)

pub tokens-append :
    (k key : String) (ks : List String)
    → tokens k (ks ++ key ∷ []) ≡ tokens k ks + bit (str_eq key k)
unfolding tokens
tokens-append k key [] = ground arith
tokens-append k key (j ∷ ks) = omega (arith, tokens-append k key ks)

pub entries-emplace :
    (id time j : ℕ) (ds : List (ℕ × ℕ))
    → entries id (emplace time j ds) ≡ entries id ds + bit (j == id)
unfolding entries emplace
entries-emplace id time j [] = ground arith
entries-emplace id time j ((u, i) ∷ ds) = ground (arith, entries-emplace id time j ds)

-- An entry is dropped from the id's own, if it has one.
pub entries-drop_deadline :
    (id j : ℕ) (ds : List (ℕ × ℕ)) → entries id (drop_deadline j ds) ≡ entries id ds - bit (j == id)
unfolding entries drop_deadline
entries-drop_deadline id j [] = ground arith
entries-drop_deadline id j ((u, i) ∷ ds) = ground (arith, entries-drop_deadline id j ds)
