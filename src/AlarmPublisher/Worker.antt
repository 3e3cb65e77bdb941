-- ===== src/AlarmPublisher/Worker.antt =====
-- The worker of the alarm publisher in src/alarm_worker.cpp: `run` before and after it lets go of
-- `mutex` to send, and `status`.
use Prim.Native.Nat.{max}
use redis_pvxs_ioc.Prelude.{
  ℕ, zero, suc, ◌+◌, Bool, true, false, not, ◌&&◌, ◌||◌, Option, none, some, List, [], ◌∷◌, ◌++◌,
  ◌==◌, ltb, if◌then◌else◌, length, add64, bit,
}
use redis_pvxs_ioc.AlarmPublisher.Ring.{peek, drop_head}
use redis_pvxs_ioc.AlarmPublisher.Slots.{
  Slot, Event, no_error, delivery_rejected, transport_unavailable, Counters, AlarmPublisher,
  find_slot, put_slot, current, pending, discard_queue,
}
use redis_pvxs_ioc.AlarmPublisher.Threads.{event_of}

-- What a round does when it lets go of the mutex; the flag is `reconciliation`.
pub data Round : Type 0 where
  waits pings : Round
  sends : Event → Bool → Round

pub data SendResult : Type 0 where
  accepted rejected unavailable : SendResult

unfoldable pub is_current : Option Slot → AlarmPublisher → Bool
unfolding current
is_current none p = false
is_current (some s) p = current p s

unfoldable pub event_current : Event → AlarmPublisher → Bool
unfolding is_current find_slot
event_current event p = is_current (find_slot event.slot p.slots) p

abbrev pub count_discarded : AlarmPublisher → AlarmPublisher
count_discarded p = record p {
  counters = record p.counters { discarded_transitions = add64 p.counters.discarded_transitions 1 };
}

unfoldable pub first_of :
    Option Event → AlarmPublisher → AlarmPublisher × Option Event → AlarmPublisher × Option Event
unfolding event_current
first_of none p others = others
first_of (some event) p others = if event_current event p then (p, some event) else others

abbrev pub without_head : AlarmPublisher → AlarmPublisher
without_head p = record p { ring = drop_head p.ring }

-- while (count && !selected): the first event of a current slot, past those of others.
unfoldable pub next_event : ℕ → AlarmPublisher → AlarmPublisher × Option Event
unfolding peek drop_head first_of
next_event zero p = (p, none)
next_event (suc n) p =
    let others = next_event n (count_discarded (without_head p)) in
    first_of (peek p.ring) (without_head p) others

-- slots.upper_bound(last) and on, and then from the first slot
unfoldable pub above : ℕ → List Slot → List Slot
above last [] = []
above last (s ∷ slots) = let rest = above last slots in if ltb last s.id then s ∷ rest else rest

unfoldable pub up_to : ℕ → List Slot → List Slot
up_to last [] = []
up_to last (s ∷ slots) = let rest = up_to last slots in if ltb last s.id then rest else s ∷ rest

unfoldable pub first_pending : AlarmPublisher → List Slot → Option Slot
unfolding current pending
first_pending p [] = none
first_pending p (s ∷ slots) =
    let rest = first_pending p slots in if current p s && pending p s then some s else rest

unfoldable pub has_current : AlarmPublisher → List Slot → Bool
unfolding current
has_current p [] = false
has_current p (s ∷ slots) = current p s || has_current p slots

-- With nothing selected: recovery is over while the connection is live, and a heartbeat may be due.
unfoldable pub idle_round : ℕ → ℕ → AlarmPublisher → AlarmPublisher × Round
unfolding has_current
idle_round now heartbeat p = (
  (if p.live then record p { recovering = false } else p),
  (if not (has_current p p.slots) || ltb now heartbeat then waits else pings),
)

unfoldable pub reconcile : ℕ → ℕ → Option Slot → AlarmPublisher → AlarmPublisher × Round
unfolding idle_round
reconcile now heartbeat none p = idle_round now heartbeat p
reconcile now heartbeat (some s) p = (record p { last_id = s.id }, sends (event_of now s) true)

unfoldable pub choose : ℕ → ℕ → AlarmPublisher × Option Event → AlarmPublisher × Round
unfolding reconcile first_pending above up_to
choose now heartbeat (p, some event) = (p, sends event false)
choose now heartbeat (p, none) =
    reconcile now heartbeat (first_pending p (above p.last_id p.slots ++ up_to p.last_id p.slots)) p

-- A round of `run` up to `lock.unlock()`.
unfoldable pub begin_round : ℕ → ℕ → ℕ → AlarmPublisher → AlarmPublisher × Round
unfolding next_event choose
begin_round now retry_at heartbeat p =
    if p.stopping || (not p.enabled || ltb now retry_at)
    then (p, waits)
    else choose now heartbeat (next_event p.ring.count p)

-- What is noted of a slot that was sent and is still current.
unfoldable pub note_delivered : ℕ → Event → Option Slot → AlarmPublisher → AlarmPublisher
unfolding current put_slot
note_delivered epoch event none p = p
note_delivered epoch event (some s) p =
    if current p s
    then record p {
      slots =
          put_slot
            (record s {
              delivered = max s.delivered event.revision;
              delivered_epoch = epoch;
              force = false;
            })
            p.slots;
    }
    else p

abbrev pub count_sent : Bool → Counters → Counters
count_sent reconciliation c = record c {
  sent = add64 c.sent 1;
  reconciled = (if reconciliation then add64 c.reconciled 1 else c.reconciled);
}

unfoldable pub note_accepted : ℕ → Round → AlarmPublisher → AlarmPublisher
unfolding note_delivered find_slot
note_accepted epoch (sends event reconciliation) p =
    note_delivered epoch event (find_slot event.slot p.slots)
      (record p { counters = count_sent reconciliation p.counters })
note_accepted epoch _ p = p

-- The queue is given up, and all slots are to be sent again.
unfoldable pub recover : AlarmPublisher → AlarmPublisher
unfolding discard_queue
recover p = record (discard_queue p) { epoch = add64 p.epoch 1; recovering = true }

-- A round of `run` from `lock.lock()` on, with the epoch that it sent in.
unfoldable pub end_round : SendResult → ℕ → Round → AlarmPublisher → AlarmPublisher
unfolding note_accepted recover
end_round accepted epoch round p =
    note_accepted epoch round
      (record p { live = true; counters = record p.counters { last_error = no_error } })
end_round rejected epoch round p = recover (record p {
  counters = record p.counters {
    rejected = add64 p.counters.rejected 1;
    last_error = delivery_rejected;
  };
})
end_round unavailable epoch round p = recover (record p {
  live = false;
  counters = record p.counters {
    transport_failures = add64 p.counters.transport_failures 1;
    last_error = transport_unavailable;
  };
})

-- `state` of the status
pub data PublisherState : Type 0 where
  stopped staged idle disconnected recovering ready : PublisherState

pub record AlarmPublisherStatus : Type 0 where
  pub state : PublisherState
  pub counters : Counters
  pub registrations : ℕ
  pub active : ℕ
  pub pending : ℕ
  pub queued : ℕ
  pub reserved_bytes : ℕ
  pub peak_bytes : ℕ
  pub byte_limit : ℕ
  pub queue_limit : ℕ

unfoldable pub count_current : AlarmPublisher → List Slot → ℕ
unfolding current
count_current p [] = 0
count_current p (s ∷ slots) = bit (current p s) + count_current p slots

unfoldable pub count_pending : AlarmPublisher → List Slot → ℕ
unfolding current pending
count_pending p [] = 0
count_pending p (s ∷ slots) = bit (current p s && pending p s) + count_pending p slots

unfoldable pub state_of : AlarmPublisher → PublisherState
unfolding count_current count_pending
state_of p =
    if p.stopping
    then stopped
    else if not p.enabled
    then staged
    else if count_current p p.slots == 0
    then idle
    else if not p.live
    then disconnected
    else if p.recovering || (not (count_pending p p.slots == 0) || not (p.ring.count == 0))
    then recovering
    else ready

unfoldable pub status : AlarmPublisher → AlarmPublisherStatus
unfolding state_of
status p = record {
  state = state_of p;
  counters = p.counters;
  registrations = length p.slots;
  active = count_current p p.slots;
  pending = count_pending p p.slots;
  queued = p.ring.count;
  reserved_bytes = p.budget.used;
  peak_bytes = p.budget.peak;
  byte_limit = p.options.state_bytes;
  queue_limit = length p.ring.cells;
}
