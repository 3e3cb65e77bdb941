-- ===== src/QueuedExec/Tests.antt =====
-- Runs of the handle of include/redis_pvxs_ioc/queued_exec.h.
use redis_pvxs_ioc.Prelude.{ℕ, ◌≡◌, refl, true, false, none, some, List, [], ◌∷◌}
use redis_pvxs_ioc.QueuedExec.{
  notify, reply, cancel, create, finish, set_ticket, check_ticket, cancel_ticket,
}
use redis_pvxs_ioc.QueuedExec.Once.{
  Call, finishing, waking, setting, checking, cancelling, effects, answers, Told, answers-effects,
}
use redis_pvxs_ioc.QueuedExec.Cancelling.{
  World, here, next, stores, checks, cancels, tells, asks, Reach-told,
}

-- A worker waits, the ticket comes, the client cancels, and the worker's reply is late.
abbrev late_reply : List (Call ℕ ℕ ℕ)
late_reply =
    waking 7
    ∷ setting 5
    ∷ checking 5
    ∷ finishing "" true none
    ∷ cancelling true
    ∷ finishing "" false (some 3)
    ∷ []

late_reply-effects : effects ℕ ℕ ℕ late_reply (create 9) ≡ notify 7 ∷ cancel 5 ∷ []
unfolding effects create
late_reply-effects = refl

abbrev reply_and_timeout : List (Call ℕ ℕ ℕ)
reply_and_timeout = finishing "" false (some 3) ∷ finishing "timed out" false none ∷ []

one_reply : answers ℕ ℕ ℕ (effects ℕ ℕ ℕ reply_and_timeout (create 9)) ≡ reply 9 (some 3) ∷ []
unfolding answers effects create
one_reply = refl

answers-effects_example :
    Told ℕ ℕ ℕ 9 reply_and_timeout (answers ℕ ℕ ℕ (effects ℕ ℕ ℕ reply_and_timeout (create 9)))
answers-effects_example = answers-effects ℕ ℕ ℕ reply_and_timeout 9

-- The client cancels before the thread that submits has the ticket.
abbrev cancelled_early : World ℕ ℕ ℕ
cancelled_early = record {
  exec = record { op = none; wake = none; stopped = true; aborted = true; ticket = 5 };
  stored = true;
  checked = true;
  finished = true;
  cancelled = true;
  told = true;
}

Reach-told_example : cancelled_early.told ≡ true
unfolding create finish set_ticket check_ticket cancel_ticket asks
Reach-told_example =
    Reach-told ℕ ℕ ℕ 5 9 cancelled_early
      (next (next (next (next here (cancels refl)) (tells refl refl)) (stores refl))
        (checks refl refl))
      refl refl refl
