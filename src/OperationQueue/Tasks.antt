-- ===== src/OperationQueue/Tasks.antt =====
-- The tasks of src/operation_queue.cpp: `Task` and the table `tasks`, in the order of submission.
-- A `shared_ptr<Task>` is the task's id, and a write through it is a write to the table.
pub mod Updates
pub mod Order
pub mod Flags
use redis_pvxs_ioc.Prelude.{
  ℕ, ◌+◌, ◌≤◌, ◌<◌, String, ◌≡◌, Bool, true, false, not, ◌&&◌, Option, none, some, List, [], ◌∷◌,
  arith, ◌==◌, if◌then◌else◌, bit, str_eq,
}

-- `timed` says that `expiry` is not `deadlines.end()`.
pub record Task : Type 0 where
  pub id : ℕ
  pub key : String
  pub charge : ℕ
  pub deadline : ℕ
  pub active : Bool
  pub failed : Bool
  pub timed : Bool

unfoldable pub find : ℕ → List Task → Option Task
find id [] = none
find id (t ∷ ts) = if t.id == id then some t else find id ts

unfoldable pub erase : ℕ → List Task → List Task
erase id [] = []
erase id (t ∷ ts) = if t.id == id then ts else t ∷ erase id ts

-- A write through the `shared_ptr` of one task.
unfoldable pub modify : ℕ → (Task → Task) → List Task → List Task
modify id f [] = []
modify id f (t ∷ ts) = if t.id == id then f t ∷ ts else t ∷ modify id f ts

-- task->active = true, and task->failed = true if the task is late
abbrev pub begin_run : Bool → Task → Task
begin_run late t = record t { active = true; failed = if late then true else t.failed }

-- task->failed = true, task->expiry = deadlines.end()
abbrev pub give_up : Task → Task
give_up t = record t { failed = true; timed = false }

-- task->expiry = deadlines.end()
abbrev pub untime : Task → Task
untime t = record t { timed = false }

-- The ids of the tasks of a key that no worker has taken, oldest first.
unfoldable pub waiting : String → List Task → List ℕ
waiting k [] = []
waiting k (t ∷ ts) = if str_eq t.key k && not t.active then t.id ∷ waiting k ts else waiting k ts

-- How many tasks of a key a worker has taken.
unfoldable pub busy : String → List Task → ℕ
busy k [] = 0
busy k (t ∷ ts) = bit (str_eq t.key k && t.active) + busy k ts

unfoldable pub count_waiting : List Task → ℕ
count_waiting [] = 0
count_waiting (t ∷ ts) = bit (not t.active) + count_waiting ts

unfoldable pub count_active : List Task → ℕ
count_active [] = 0
count_active (t ∷ ts) = bit t.active + count_active ts

unfoldable pub total_charge : List Task → ℕ
total_charge [] = 0
total_charge (t ∷ ts) = t.charge + total_charge ts

-- Erases the first occurrence, which is the element that the task's list iterator points at.
unfoldable pub remove : ℕ → List ℕ → List ℕ
remove id [] = []
remove id (x ∷ xs) = if x == id then xs else x ∷ remove id xs

-- Ids increase along the table, above `lo` and up to `hi`.
abbrev pub Ascending : ℕ → ℕ → List Task → Type 0
Ascending lo hi [] = lo ≤ hi
Ascending lo hi (t ∷ ts) = (lo < t.id) × Ascending t.id hi ts

module _ (id : ℕ) where
  pub total_charge-erase :
      (ts : List Task) (t : Task)
      → find id ts ≡ some t
      → total_charge (erase id ts) + t.charge ≡ total_charge ts
  unfolding find erase total_charge
  total_charge-erase [] t h = ground arith
  total_charge-erase (x ∷ ts) t h = ground (arith, total_charge-erase ts t)

  pub count_waiting-erase :
      (ts : List Task) (t : Task)
      → find id ts ≡ some t
      → count_waiting (erase id ts) + bit (not t.active) ≡ count_waiting ts
  unfolding find erase count_waiting
  count_waiting-erase [] t h = ground arith
  count_waiting-erase (x ∷ ts) t h = ground (arith, count_waiting-erase ts t)

  pub count_active-erase :
      (ts : List Task) (t : Task)
      → find id ts ≡ some t
      → count_active (erase id ts) + bit t.active ≡ count_active ts
  unfolding find erase count_active
  count_active-erase [] t h = ground arith
  count_active-erase (x ∷ ts) t h = ground (arith, count_active-erase ts t)

  pub busy-erase :
      (k : String) (ts : List Task) (t : Task)
      → find id ts ≡ some t
      → busy k (erase id ts) + bit (str_eq t.key k && t.active) ≡ busy k ts
  unfolding find erase busy
  busy-erase k [] t h = ground arith
  busy-erase k (x ∷ ts) t h = ground (arith, busy-erase k ts t)

  pub waiting-erase :
      (k : String) (ts : List Task) (t : Task)
      → find id ts ≡ some t
      → waiting k (erase id ts)
        ≡ (if str_eq t.key k && not t.active then remove id (waiting k ts) else waiting k ts)
  unfolding find erase waiting remove
  waiting-erase k [] t h = ground arith
  waiting-erase k (x ∷ ts) t h = ground (arith, waiting-erase k ts t)
