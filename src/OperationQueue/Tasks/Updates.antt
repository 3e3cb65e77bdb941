-- ===== src/OperationQueue/Tasks/Updates.antt =====
-- How writes to one task (src/operation_queue.cpp: `task->active`, `task->failed`, `task->expiry`)
-- change what is counted over the table.
use redis_pvxs_ioc.Prelude.{
  ℕ, ◌+◌, String, ◌≡◌, refl, Bool, not, ◌&&◌, some, List, [], ◌∷◌, arith, ◌==◌, if◌then◌else◌, bit,
  str_eq,
}
use mathlib.Core.Option
use redis_pvxs_ioc.OperationQueue.Tasks.{
  Task, find, modify, begin_run, waiting, busy, count_waiting, count_active, total_charge, remove,
}

-- A write that leaves what the counts read: `failed` and `expiry`.
pub record IsNeutral (f : Task → Task) : Type 0 where
  pub id : (t : Task) → (f t).id ≡ t.id
  pub key : (t : Task) → (f t).key ≡ t.key
  pub charge : (t : Task) → (f t).charge ≡ t.charge
  pub active : (t : Task) → (f t).active ≡ t.active

module _ (id : ℕ) where
  pub total_charge-modify :
      (f : Task → Task) (ts : List Task)
      → ((t : Task) → (f t).charge ≡ t.charge)
      → total_charge (modify id f ts) ≡ total_charge ts
  unfolding modify total_charge
  total_charge-modify f [] n = refl
  total_charge-modify f (x ∷ ts) n = ground (arith, n x, total_charge-modify f ts n)

  pub find-modify :
      (f : Task → Task) (j : ℕ) (ts : List Task)
      → ((t : Task) → (f t).id ≡ t.id)
      → find j (modify id f ts) ≡ (if id == j then Option.map f (find j ts) else find j ts)
  unfolding find modify
  find-modify f j [] n = ground arith
  find-modify f j (x ∷ ts) n = ground (arith, n x, find-modify f j ts n)

module _ (id : ℕ) (f : Task → Task) (n : IsNeutral f) where
  pub waiting-modify : (k : String) (ts : List Task) → waiting k (modify id f ts) ≡ waiting k ts
  unfolding modify waiting
  waiting-modify k [] = refl
  waiting-modify k (x ∷ ts) = ground (arith, n.id x, n.key x, n.active x, waiting-modify k ts)

  pub busy-modify : (k : String) (ts : List Task) → busy k (modify id f ts) ≡ busy k ts
  unfolding modify busy
  busy-modify k [] = refl
  busy-modify k (x ∷ ts) = ground (arith, n.key x, n.active x, busy-modify k ts)

  pub count_waiting-modify : (ts : List Task) → count_waiting (modify id f ts) ≡ count_waiting ts
  unfolding modify count_waiting
  count_waiting-modify [] = refl
  count_waiting-modify (x ∷ ts) = ground (arith, n.active x, count_waiting-modify ts)

  pub count_active-modify : (ts : List Task) → count_active (modify id f ts) ≡ count_active ts
  unfolding modify count_active
  count_active-modify [] = refl
  count_active-modify (x ∷ ts) = ground (arith, n.active x, count_active-modify ts)

module _ (id : ℕ) (late : Bool) where
  pub count_waiting-begin_run :
      (ts : List Task) (t : Task)
      → find id ts ≡ some t
      → count_waiting (modify id (begin_run late) ts) + bit (not t.active) ≡ count_waiting ts
  unfolding find modify count_waiting
  count_waiting-begin_run [] t h = ground arith
  count_waiting-begin_run (x ∷ ts) t h = ground (arith, count_waiting-begin_run ts t)

  pub count_active-begin_run :
      (ts : List Task) (t : Task)
      → find id ts ≡ some t
      → count_active (modify id (begin_run late) ts) ≡ count_active ts + bit (not t.active)
  unfolding find modify count_active
  count_active-begin_run [] t h = ground arith
  count_active-begin_run (x ∷ ts) t h = ground (arith, count_active-begin_run ts t)

  pub busy-begin_run :
      (k : String) (ts : List Task) (t : Task)
      → find id ts ≡ some t
      → busy k (modify id (begin_run late) ts) ≡ busy k ts + bit (str_eq t.key k && not t.active)
  unfolding find modify busy
  busy-begin_run k [] t h = ground arith
  busy-begin_run k (x ∷ ts) t h = ground (arith, busy-begin_run k ts t)

  pub waiting-begin_run :
      (k : String) (ts : List Task) (t : Task)
      → find id ts ≡ some t
      → waiting k (modify id (begin_run late) ts)
        ≡ (if str_eq t.key k && not t.active then remove id (waiting k ts) else waiting k ts)
  unfolding find modify waiting remove
  waiting-begin_run k [] t h = ground arith
  waiting-begin_run k (x ∷ ts) t h = ground (arith, waiting-begin_run k ts t)
