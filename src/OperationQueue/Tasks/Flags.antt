-- ===== src/OperationQueue/Tasks/Flags.antt =====
-- What holds of every task of the table in src/operation_queue.cpp, and the entries that the
-- multimap `deadlines` has for a task.
use mathlib.Core.Path.{subst}
use redis_pvxs_ioc.Prelude.{
  ℕ, ◌+◌, ◌*◌, ◌≤◌, ◌≡◌, true, ◌||◌, Option, none, some, List, [], ◌∷◌, ◌++◌, arith, ◌==◌, bit, All,
  Bool-cases, inl, inr, ap,
}
use redis_pvxs_ioc.OperationQueue.Tasks.{
  Task, find, erase, modify, count_waiting, count_active, total_charge,
}

-- Each task holds at least the 256 bytes that `submit` charges, and a task that has not failed is
-- in `deadlines`.
pub record IsKept (t : Task) : Type 0 where
  pub charged : 256 ≤ t.charge
  pub watched : (t.failed || t.timed) ≡ true

pub find-IsKept :
    (id : ℕ) (ts : List Task) (t : Task) → All IsKept ts → find id ts ≡ some t → IsKept t
unfolding find
find-IsKept id [] t a h = ground arith
find-IsKept id (x ∷ ts) t a h = ground (arith, find-IsKept id ts t a.1)

pub All-erase : (id : ℕ) (ts : List Task) → All IsKept ts → All IsKept (erase id ts)
unfolding erase
All-erase id [] a = a
All-erase id (x ∷ ts) a = ground (arith, All-erase id ts a.1)

pub All-modify :
    (id : ℕ) (f : Task → Task) (ts : List Task) (t : Task)
    → find id ts ≡ some t
    → IsKept (f t)
    → All IsKept ts
    → All IsKept (modify id f ts)
unfolding find modify
All-modify id f [] t e k a = a
All-modify id f (x ∷ ts) t e k a = elim (Bool-cases (x.id == id)) [
  | inl hit ↦ rw hit (subst IsKept (ap f (found hit)) k, a.1)
  | inr miss ↦ rw miss (a.0, All-modify id f ts t (ground arith) k a.1)
]
  where
    found : (x.id == id) ≡ true → t ≡ x
    found hit = ground arith

pub All-append : (ts : List Task) (t : Task) → All IsKept ts → IsKept t → All IsKept (ts ++ t ∷ [])
All-append [] t a h = (h, tt)
All-append (x ∷ ts) t a h = (a.0, All-append ts t a.1 h)

-- The byte budget bounds the number of tasks.
pub counts-le-total_charge :
    (ts : List Task) → All IsKept ts → (count_waiting ts + count_active ts) * 256 ≤ total_charge ts
unfolding count_waiting count_active total_charge
counts-le-total_charge [] a = omega arith
counts-le-total_charge (x ∷ ts) a = ground (arith, a.0.charged, counts-le-total_charge ts a.1)

-- The entries of `deadlines` for an id.
unfoldable pub entries : ℕ → List (ℕ × ℕ) → ℕ
entries id [] = 0
entries id ((u, j) ∷ ds) = bit (j == id) + entries id ds

-- One where the task is there with its iterator set, and none otherwise.
abbrev pub timed_bit : Option Task → ℕ
timed_bit none = 0
timed_bit (some t) = bit t.timed
