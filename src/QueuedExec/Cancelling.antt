-- ===== src/QueuedExec/Cancelling.antt =====
-- That a client's cancelling reaches the queue (include/redis_pvxs_ioc/queued_exec.h), although the
-- thread that submits may learn the ticket before, between or after the steps of the one that cancels.
use redis_pvxs_ioc.Prelude.{
  ℕ, ◌≡◌, refl, String, Bool, true, false, ◌||◌, Option, none, List, [], ◌∷◌, ◌==◌, arith, sym, ◌∙◌,
}
use redis_pvxs_ioc.QueuedExec.{
  QueuedExec, Effect, cancel, create, first_finish, finish, wake_by, set_ticket, check_ticket,
  cancel_ticket,
}

module _ (H W V : Type 0) where
  -- The handle and how far the two threads are: the one that has submitted the operation stores the
  -- ticket and then checks it, and the one that cancels finishes and then tells the queue. `told` says
  -- whether the queue was asked to cancel the ticket.
  pub record World : Type 0 where
    pub exec : QueuedExec H W
    pub stored : Bool
    pub checked : Bool
    pub finished : Bool
    pub cancelled : Bool
    pub told : Bool

  abbrev pub begin : H → World
  begin op = record {
    exec = create op;
    stored = false;
    checked = false;
    finished = false;
    cancelled = false;
    told = false;
  }

  -- Whether the queue is asked to cancel an ID.
  unfoldable pub asks : ℕ → List (Effect H W V) → Bool
  asks id [] = false
  asks id (cancel other ∷ rest) = other == id || asks id rest
  asks id (_ ∷ rest) = asks id rest

  -- The steps for an operation with the given ticket, while the queue is there. Workers and timers
  -- finish and wake at any time.
  pub data Step (id : ℕ) (w : World) : World → Type 0 where
    finishes :
        (message : String) (value : Option V)
        → Step id w (record w { exec = (finish message false value w.exec).0 })
    wakes : (fn : W) → Step id w (record w { exec = (wake_by {V = V} fn w.exec).0 })
    stores : w.stored ≡ false → Step id w (record w { exec = set_ticket id w.exec; stored = true })
    checks :
        w.stored ≡ true
        → w.checked ≡ false
        → Step id w (record w { checked = true; told = w.told || asks id (check_ticket id w.exec) })
    cancels :
        w.finished ≡ false
        → Step id w (record w { exec = (finish {V = V} "" true none w.exec).0; finished = true })
    tells :
        w.finished ≡ true
        → w.cancelled ≡ false
        → Step id w
            (record w { cancelled = true; told = w.told || asks id (cancel_ticket true w.exec) })

  pub data Reach (id : ℕ) (w : World) : World → Type 0 where
    here : Reach id w w
    next : {a b : World} → Reach id w a → Step id a b → Reach id w b

  record Inv (id : ℕ) (w : World) : Type 0 where
    ticket : w.stored ≡ true → w.exec.ticket ≡ id
    order : w.checked ≡ true → w.stored ≡ true
    first : w.cancelled ≡ true → w.finished ≡ true
    stopped : w.finished ≡ true → w.exec.stopped ≡ true
    told : w.checked ≡ true → w.cancelled ≡ true → w.exec.aborted ≡ true → w.told ≡ true

  begin-Inv : (id : ℕ) (op : H) → Inv id (begin op)
  unfolding create
  begin-Inv id op = record {
    ticket = λ h. ground arith;
    order = λ h. ground arith;
    first = λ h. ground arith;
    stopped = λ h. ground arith;
    told = λ h k l. ground arith;
  }

  -- A call that finishes sets the flags once and leaves the ticket.
  record Finishes (before after : QueuedExec H W) : Type 0 where
    ticket : after.ticket ≡ before.ticket
    stopped : after.stopped ≡ true
    aborted : before.stopped ≡ true → after.aborted ≡ before.aborted

  finish-Finishes :
      (message : String) (cancelled : Bool) (value : Option V) (s : QueuedExec H W)
      → Finishes s (finish message cancelled value s).0
  unfolding finish first_finish
  finish-Finishes message cancelled value s = record {
    ticket = ground arith;
    stopped = ground arith;
    aborted = λ h. ground arith;
  }

  Step-Inv : (id : ℕ) {a b : World} → Step id a b → Inv id a → Inv id b
  unfolding asks check_ticket cancel_ticket wake_by set_ticket
  Step-Inv id {a} (finishes message value) v =
      let f = finish-Finishes message false value a.exec in
      record {
        ticket = λ h. f.ticket ∙ v.ticket h;
        order = v.order;
        first = v.first;
        stopped = λ h. f.stopped;
        told = λ h k l. v.told h k (sym (f.aborted (v.stopped (v.first k))) ∙ l);
      }
  Step-Inv id {a} (wakes fn) v = record {
    ticket = v.ticket;
    order = v.order;
    first = v.first;
    stopped = v.stopped;
    told = v.told;
  }
  Step-Inv id {a} (stores e) v = record {
    ticket = λ h. refl;
    order = λ h. refl;
    first = v.first;
    stopped = v.stopped;
    told = λ h k l. ground (arith, v.order h);
  }
  Step-Inv id {a} (checks e k) v = record {
    ticket = v.ticket;
    order = λ h. e;
    first = v.first;
    stopped = v.stopped;
    told = λ h k l. ground arith;
  }
  Step-Inv id {a} (cancels e) v =
      let f = finish-Finishes "" true none a.exec in
      record {
        ticket = λ h. f.ticket ∙ v.ticket h;
        order = v.order;
        first = λ h. refl;
        stopped = λ h. f.stopped;
        told = λ h k l. ground (arith, v.first k);
      }
  Step-Inv id {a} (tells e k) v = record {
    ticket = v.ticket;
    order = v.order;
    first = λ h. e;
    stopped = v.stopped;
    told = λ h k l. ground (arith, v.ticket (v.order h));
  }

  Reach-Inv_lem : (id : ℕ) {a b : World} → Reach id a b → Inv id a → Inv id b
  Reach-Inv_lem id here v = v
  Reach-Inv_lem id (next r step) v = Step-Inv id step (Reach-Inv_lem id r v)

  -- Whatever the order of the steps of the thread that submits, of the one that cancels and of the
  -- others: when the first has checked the ticket, the second is done with cancelling, and the
  -- operation was aborted, the queue was asked to cancel the ticket.
  pub Reach-told :
      (id : ℕ) (op : H) (w : World)
      → Reach id (begin op) w
      → w.checked ≡ true
      → w.cancelled ≡ true
      → w.exec.aborted ≡ true
      → w.told ≡ true
  Reach-told id op w r h k l = (Reach-Inv_lem id r (begin-Inv id op)).told h k l
