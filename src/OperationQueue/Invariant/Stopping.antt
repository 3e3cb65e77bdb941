-- ===== src/OperationQueue/Invariant/Stopping.antt =====
-- The two critical sections of `stop` in src/operation_queue.cpp keep the invariant.
use redis_pvxs_ioc.Prelude.{ℕ, ◌<◌, String, ◌≡◌, refl, List, [], ◌∷◌, arith, if_cases, word, All}
use redis_pvxs_ioc.OperationQueue.Tasks.{
  Task, find, waiting, busy, count_waiting, count_active, total_charge, Ascending,
}
use redis_pvxs_ioc.OperationQueue.Tasks.Flags.{IsKept, entries, timed_bit}
use redis_pvxs_ioc.OperationQueue.{OperationQueue}
use redis_pvxs_ioc.OperationQueue.Threads.{stop_accepting, stop_clear, fail_all}
use redis_pvxs_ioc.OperationQueue.Invariant.{Inv, tokens}

-- After the last section nothing is left.
pub stop_clear-Inv : (q : OperationQueue) → q.limits.resident_bytes < word → Inv (stop_clear q)
unfolding stop_clear count_waiting count_active total_charge waiting busy tokens find entries
stop_clear-Inv q small = record {
  limit_word = small;
  order = omega arith;
  queued = refl;
  running = refl;
  resident = refl;
  within = omega arith;
  kept = tt;
  lanes = λ k. (refl, refl, refl);
  timed = λ j. refl;
}

fail_all-Ascending :
    (lo hi : ℕ) (ts : List Task) → Ascending lo hi ts → Ascending lo hi (fail_all ts)
unfolding fail_all
fail_all-Ascending lo hi [] a = a
fail_all-Ascending lo hi (t ∷ ts) a = (a.0, fail_all-Ascending t.id hi ts a.1)

count_waiting-fail_all : (ts : List Task) → count_waiting (fail_all ts) ≡ count_waiting ts
unfolding fail_all count_waiting
count_waiting-fail_all [] = refl
count_waiting-fail_all (t ∷ ts) = rw (count_waiting-fail_all ts)

count_active-fail_all : (ts : List Task) → count_active (fail_all ts) ≡ count_active ts
unfolding fail_all count_active
count_active-fail_all [] = refl
count_active-fail_all (t ∷ ts) = rw (count_active-fail_all ts)

total_charge-fail_all : (ts : List Task) → total_charge (fail_all ts) ≡ total_charge ts
unfolding fail_all total_charge
total_charge-fail_all [] = refl
total_charge-fail_all (t ∷ ts) = rw (total_charge-fail_all ts)

waiting-fail_all : (k : String) (ts : List Task) → waiting k (fail_all ts) ≡ waiting k ts
unfolding fail_all waiting
waiting-fail_all k [] = refl
waiting-fail_all k (t ∷ ts) = rw (waiting-fail_all k ts)

busy-fail_all : (k : String) (ts : List Task) → busy k (fail_all ts) ≡ busy k ts
unfolding fail_all busy
busy-fail_all k [] = refl
busy-fail_all k (t ∷ ts) = rw (busy-fail_all k ts)

timed_bit-fail_all :
    (id : ℕ) (ts : List Task) → timed_bit (find id (fail_all ts)) ≡ timed_bit (find id ts)
unfolding fail_all find
timed_bit-fail_all id [] = refl
timed_bit-fail_all id (t ∷ ts) = ground (arith, timed_bit-fail_all id ts)

All-fail_all : (ts : List Task) → All IsKept ts → All IsKept (fail_all ts)
unfolding fail_all
All-fail_all [] a = a
All-fail_all (t ∷ ts) a = (record { charged = a.0.charged; watched = refl }, All-fail_all ts a.1)

-- The first section fails every task, and leaves what is counted.
pub stop_accepting-Inv : (q : OperationQueue) → Inv q → Inv (stop_accepting q).0
unfolding stop_accepting
stop_accepting-Inv q v =
    if_cases After q.stopped _ _ (λ _. v)
      (λ _. record {
        limit_word = v.limit_word;
        order = fail_all-Ascending 0 q.next_id q.tasks v.order;
        queued = rw (count_waiting-fail_all q.tasks) v.queued;
        running = rw (count_active-fail_all q.tasks) v.running;
        resident = rw (total_charge-fail_all q.tasks) v.resident;
        within = v.within;
        kept = All-fail_all q.tasks v.kept;
        lanes = λ k. rw (waiting-fail_all k q.tasks, busy-fail_all k q.tasks) (v.lanes k);
        timed = λ j. rw (timed_bit-fail_all j q.tasks) (v.timed j);
      })
  where
    After : OperationQueue × List ℕ → Type 0
    After r = Inv r.0
