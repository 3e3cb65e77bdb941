-- ===== src/OperationQueue/Tasks/Order.antt =====
-- The table of src/operation_queue.cpp is in the order of submission: ids increase along it, so
-- each names one task, and the oldest waiting task of a key is the one that its lane holds first.
use redis_pvxs_ioc.Prelude.{
  ℕ, ◌+◌, ◌≤◌, ◌<◌, String, ◌≡◌, ◌≢◌, refl, true, false, not, ◌&&◌, none, some, List, [], ◌∷◌, ◌++◌,
  arith, ◌==◌, if◌then◌else◌, bit, str_eq, Bool-cases, inl, inr,
}
use redis_pvxs_ioc.OperationQueue.Tasks.{
  Task, find, erase, modify, waiting, busy, count_waiting, count_active, total_charge, remove,
  Ascending,
}

-- The bounds may be widened.
pub Ascending-widen :
    (lo lo' hi hi' : ℕ) (ts : List Task)
    → Ascending lo hi ts
    → lo' ≤ lo
    → hi ≤ hi'
    → Ascending lo' hi' ts
Ascending-widen lo lo' hi hi' [] a p q = omega arith
Ascending-widen lo lo' hi hi' (t ∷ ts) a p q =
    (omega arith, Ascending-widen t.id t.id hi hi' ts a.1 (omega arith) q)

pub Ascending-le : (lo hi : ℕ) (ts : List Task) → Ascending lo hi ts → lo ≤ hi
Ascending-le lo hi [] a = a
Ascending-le lo hi (t ∷ ts) a = omega (arith, Ascending-le t.id hi ts a.1)

pub erase-Ascending :
    (id lo hi : ℕ) (ts : List Task) → Ascending lo hi ts → Ascending lo hi (erase id ts)
unfolding erase
erase-Ascending id lo hi [] a = a
erase-Ascending id lo hi (t ∷ ts) a =
    ground (arith, erase-Ascending id t.id hi ts a.1, Ascending-widen t.id lo hi hi ts a.1)

pub modify-Ascending :
    (id : ℕ) (f : Task → Task) (lo hi : ℕ) (ts : List Task)
    → ((t : Task) → (f t).id ≡ t.id)
    → Ascending lo hi ts
    → Ascending lo hi (modify id f ts)
unfolding modify
modify-Ascending id f lo hi [] n a = a
modify-Ascending id f lo hi (t ∷ ts) n a =
    ground (arith, n t, modify-Ascending id f t.id hi ts n a.1)

pub append-Ascending :
    (lo hi : ℕ) (ts : List Task) (t : Task)
    → Ascending lo hi ts
    → hi < t.id
    → Ascending lo t.id (ts ++ t ∷ [])
append-Ascending lo hi [] t a h = (omega arith, omega arith)
append-Ascending lo hi (x ∷ ts) t a h = (a.0, append-Ascending x.id hi ts t a.1 h)

pub find_outside :
    (id lo hi : ℕ) (ts : List Task) → Ascending lo hi ts → id ≤ lo → find id ts ≡ none
unfolding find
find_outside id lo hi [] a h = refl
find_outside id lo hi (t ∷ ts) a h = ground (arith, find_outside id t.id hi ts a.1)

pub find_above : (id lo hi : ℕ) (ts : List Task) → Ascending lo hi ts → hi < id → find id ts ≡ none
unfolding find
find_above id lo hi [] a h = refl
find_above id lo hi (t ∷ ts) a h =
    ground (arith, find_above id t.id hi ts a.1, Ascending-le t.id hi ts a.1)

pub find-erase_self :
    (id lo hi : ℕ) (ts : List Task) → Ascending lo hi ts → find id (erase id ts) ≡ none
unfolding find erase
find-erase_self id lo hi [] a = refl
find-erase_self id lo hi (t ∷ ts) a =
    ground (arith, find_outside id t.id hi ts a.1, find-erase_self id t.id hi ts a.1)

pub find-erase_ne :
    (id j : ℕ) (ts : List Task) → (id == j) ≡ false → find j (erase id ts) ≡ find j ts
unfolding find erase
find-erase_ne id j [] n = refl
find-erase_ne id j (t ∷ ts) n = ground (arith, find-erase_ne id j ts n)

pub find-append :
    (j : ℕ) (ts : List Task) (t : Task)
    → find j ts ≡ none
    → find j (ts ++ t ∷ []) ≡ (if t.id == j then some t else none)
unfolding find
find-append j [] t h = refl
find-append j (x ∷ ts) t h = ground (arith, find-append j ts t)

pub find-append_old :
    (j : ℕ) (ts : List Task) (t u : Task) → find j ts ≡ some u → find j (ts ++ t ∷ []) ≡ some u
unfolding find
find-append_old j [] t u h = ground arith
find-append_old j (x ∷ ts) t u h = ground (arith, find-append_old j ts t u)

pub find_id : (id : ℕ) (ts : List Task) (t : Task) → find id ts ≡ some t → t.id ≡ id
unfolding find
find_id id [] t h = ground arith
find_id id (x ∷ ts) t h = ground (arith, find_id id ts t)

-- The first waiting task of a key is in the table, of that key, and not taken.
pub find-waiting :
    (k : String) (id lo hi : ℕ) (rest : List ℕ) (ts : List Task)
    → Ascending lo hi ts
    → waiting k ts ≡ id ∷ rest
    → (lo < id)
      × ((t : Task) × (find id ts ≡ some t) × (str_eq t.key k ≡ true) × (t.active ≡ false))
unfolding find waiting
find-waiting k id lo hi rest [] a h = ground arith
find-waiting k id lo hi rest (x ∷ ts) a h = elim (Bool-cases (str_eq x.key k && not x.active)) [
  | inl first ↦ (ground arith, (x, ground arith, ground arith, ground arith))
  | inr other ↦ later (find-waiting k id x.id hi rest ts a.1 (ground arith))
]
  where
    later :
        (x.id < id)
          × ((t : Task) × (find id ts ≡ some t) × (str_eq t.key k ≡ true) × (t.active ≡ false))
        → (lo < id)
          × ((t : Task) × (find id (x ∷ ts) ≡ some t)
              × (str_eq t.key k ≡ true)
              × (t.active ≡ false))
    later (lt, (t, e, same, idle)) = (omega arith, (t, ground arith, same, idle))

module _ (t : Task) where
  pub waiting-append :
      (k : String) (ts : List Task)
      → waiting k (ts ++ t ∷ [])
        ≡ (if str_eq t.key k && not t.active then waiting k ts ++ t.id ∷ [] else waiting k ts)
  unfolding waiting
  waiting-append k [] = ground arith
  waiting-append k (x ∷ ts) = ground (arith, waiting-append k ts)

  pub busy-append :
      (k : String) (ts : List Task)
      → busy k (ts ++ t ∷ []) ≡ busy k ts + bit (str_eq t.key k && t.active)
  unfolding busy
  busy-append k [] = ground arith
  busy-append k (x ∷ ts) = ground (arith, busy-append k ts)

  pub count_waiting-append :
      (ts : List Task) → count_waiting (ts ++ t ∷ []) ≡ count_waiting ts + bit (not t.active)
  unfolding count_waiting
  count_waiting-append [] = ground arith
  count_waiting-append (x ∷ ts) = ground (arith, count_waiting-append ts)

  pub count_active-append :
      (ts : List Task) → count_active (ts ++ t ∷ []) ≡ count_active ts + bit t.active
  unfolding count_active
  count_active-append [] = ground arith
  count_active-append (x ∷ ts) = ground (arith, count_active-append ts)

  pub total_charge-append :
      (ts : List Task) → total_charge (ts ++ t ∷ []) ≡ total_charge ts + t.charge
  unfolding total_charge
  total_charge-append [] = ground arith
  total_charge-append (x ∷ ts) = ground (arith, total_charge-append ts)

pub waiting_of_find :
    (k : String) (id : ℕ) (ts : List Task) (t : Task)
    → find id ts ≡ some t
    → str_eq t.key k ≡ true
    → t.active ≡ false
    → waiting k ts ≢ []
unfolding find waiting
waiting_of_find k id [] t f e idle = ground arith
waiting_of_find k id (x ∷ ts) t f e idle = ground (arith, waiting_of_find k id ts t)

pub remove_first : (id : ℕ) (ids : List ℕ) → remove id (id ∷ ids) ≡ ids
unfolding remove
remove_first id ids = ground arith
