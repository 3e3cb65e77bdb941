-- ===== src/OperationQueue/Invariant/Submitting.antt =====
-- `submit` and the constructor of src/operation_queue.cpp establish and keep the invariant.
use mathlib.Core.Path.{subst}
use text.Mathlib.TextPositions.{eq_refl}
use redis_pvxs_ioc.Prelude.{
  ℕ, ◌+◌, ◌≤◌, ◌<◌, ◌≡◌, refl, sym, true, false, none, some, [], ◌∷◌, ◌++◌, arith, eq_iff, if_cases,
  Option-cases, ◌∙◌, inl, inr, add64, sub64_exact, add64_exact, word, leb,
}
use redis_pvxs_ioc.OperationQueue.Tasks.{Task, find, total_charge}
use redis_pvxs_ioc.OperationQueue.Tasks.Order.{
  append-Ascending, waiting-append, busy-append, count_waiting-append, count_active-append,
  total_charge-append, find_above, find-append, find-append_old,
}
use redis_pvxs_ioc.OperationQueue.Tasks.Flags.{IsKept, entries, timed_bit, All-append}
use redis_pvxs_ioc.OperationQueue.{
  OperationQueue, OperationQueueLimits, OperationQueueStats, Submitted, fresh, enter, push_task,
  Work, create, submit, accept, has_room, charge_of, emplace,
}
use redis_pvxs_ioc.OperationQueue.Invariant.{
  LanesFit, Inv, counts_small, tokens-append, entries-emplace,
}
use redis_pvxs_ioc.OperationQueue.Threads.{stop_clear}
use redis_pvxs_ioc.OperationQueue.Invariant.Stopping.{stop_clear-Inv}
use redis_pvxs_ioc.OperationQueue.Invariant.Finishing.{make_ready_lem}

module _ (q : OperationQueue) (w : Work) (v : Inv q) (small : q.next_id + 1 < word)
    (room : has_room w q ≡ true) where
  abbrev new_task : Task
  new_task = record {
    id = add64 q.next_id 1;
    key = w.key;
    charge = charge_of w;
    deadline = w.deadline;
    active = false;
    failed = false;
    timed = true;
  }

  new_id : add64 q.next_id 1 ≡ q.next_id + 1
  new_id = add64_exact q.next_id 1 small

  fits_budget : q.counts.resident_bytes + charge_of w ≤ q.limits.resident_bytes
  unfolding has_room
  fits_budget =
      ground
        (arith, v.within, v.limit_word, sub64_exact q.limits.resident_bytes q.counts.resident_bytes)

  find_new : find new_task.id q.tasks ≡ none
  find_new = find_above new_task.id 0 q.next_id q.tasks v.order (omega (arith, new_id))

  accept-LanesFit : LanesFit (accept w q).lanes (q.tasks ++ new_task ∷ []) (accept w q).runnable
  unfolding accept
  accept-LanesFit k = ground (
    arith,
    eq_iff w.key k,
    eq_refl w.key,
    v.lanes k,
    v.lanes w.key,
    tokens-append k w.key q.runnable,
    waiting-append new_task k q.tasks,
    busy-append new_task k q.tasks,
  )

  accept-resident :
      add64 q.counts.resident_bytes (charge_of w) ≡ total_charge (q.tasks ++ new_task ∷ [])
  accept-resident = omega (
    arith,
    v.resident,
    fits_budget,
    v.limit_word,
    total_charge-append new_task q.tasks,
    add64_exact q.counts.resident_bytes (charge_of w),
  )

  new_task-IsKept : IsKept new_task
  unfolding charge_of
  new_task-IsKept = record { charged = omega arith; watched = refl }

  entries-enter :
      (j : ℕ)
      → entries j (emplace w.deadline new_task.id q.deadlines)
        ≡ timed_bit (find j (q.tasks ++ new_task ∷ []))
  entries-enter j = elim (Option-cases (find j q.tasks)) [
    | inl missing ↦ ground (
      arith,
      missing,
      v.timed j,
      entries-emplace j w.deadline new_task.id q.deadlines,
      find-append j q.tasks new_task,
    )
    | inr (t, found) ↦ ground (
      arith,
      found,
      v.timed j,
      find_new,
      entries-emplace j w.deadline new_task.id q.deadlines,
      find-append_old j q.tasks new_task t,
    )
  ]

  accept-Inv : Inv (accept w q)
  unfolding accept
  accept-Inv =
      subst Inv (sym (make_ready_lem w.key (push_task new_task.id (q.lanes w.key)) (enter w q)))
        (record {
          limit_word = v.limit_word;
          order = append-Ascending 0 q.next_id q.tasks new_task v.order (omega (arith, new_id));
          queued = ground (
            arith,
            v.queued,
            counts_small q v,
            count_waiting-append new_task q.tasks,
            add64_exact q.counts.queued 1,
          );
          running = ground (arith, v.running, count_active-append new_task q.tasks);
          resident = accept-resident;
          within =
              omega (
                arith,
                fits_budget,
                v.limit_word,
                add64_exact q.counts.resident_bytes (charge_of w),
              );
          kept = All-append q.tasks new_task v.kept new_task-IsKept;
          lanes = accept-LanesFit;
          timed = entries-enter;
        })

counted-Inv :
    (q : OperationQueue) (c : OperationQueueStats)
    → c.queued ≡ q.counts.queued
    → c.running ≡ q.counts.running
    → c.resident_bytes ≡ q.counts.resident_bytes
    → Inv q
    → Inv (record q { counts = c })
counted-Inv q c a b d v = record {
  limit_word = v.limit_word;
  order = v.order;
  queued = a ∙ v.queued;
  running = b ∙ v.running;
  resident = d ∙ v.resident;
  within = omega (arith, d, v.within);
  kept = v.kept;
  lanes = v.lanes;
  timed = v.timed;
}

-- Every answer of `submit` leaves the invariant.
pub submit-Inv :
    (q : OperationQueue) (w : Work) (now : ℕ)
    → Inv q
    → q.next_id + 1 < word
    → Inv (submit w now q).0
unfolding submit
submit-Inv q w now v small =
    if_cases After q.stopped _ _ (λ _. v)
      (λ _.
        if_cases After (leb w.deadline now) _ _ (λ _. counted-Inv q _ refl refl refl v)
          (λ _.
            if_cases After (has_room w q) _ _ (accept-Inv q w v small)
              (λ _. counted-Inv q _ refl refl refl v)))
  where
    After : OperationQueue × Submitted → Type 0
    After r = Inv r.0

-- A queue that the constructor accepts starts with the invariant.
pub create-Inv :
    (limits : OperationQueueLimits) (q : OperationQueue)
    → limits.resident_bytes < word
    → create limits ≡ some q
    → Inv q
unfolding create stop_clear
create-Inv limits q small e = subst Inv created (stop_clear-Inv (fresh limits) small)
  where
    created : fresh limits ≡ q
    created = ground arith
