-- ===== src/AlarmPublisher/Consistent/Rounds.antt =====
-- The rounds of the worker in src/alarm_worker.cpp keep the order of events of each slot.
use Prim.Native.Nat.{max}
use redis_pvxs_ioc.Prelude.{
  ℕ, ◌≡◌, refl, sym, ◌∙◌, false, not, ◌||◌, Option, none, some, List, [], ◌∷◌, ◌++◌, ltb,
  if◌then◌else◌, if_cases, All, arith, length, add64,
}
use mathlib.Core.Path.{subst}
use redis_pvxs_ioc.AlarmPublisher.Ring.{drop_head}
use redis_pvxs_ioc.AlarmPublisher.Ring.Fifo.{Represents, peek-Represents, drop_head-Represents}
use redis_pvxs_ioc.AlarmPublisher.Slots.{
  Slot, Event, delivery_rejected, transport_unavailable, AlarmPublisher, find_slot, current,
}
use redis_pvxs_ioc.AlarmPublisher.Threads.{event_of}
use redis_pvxs_ioc.AlarmPublisher.Worker.{
  Round, waits, pings, sends, SendResult, accepted, rejected, unavailable, event_current,
  count_discarded, first_of, without_head, next_event, above, up_to, first_pending, has_current,
  idle_round, reconcile, choose, begin_round, note_delivered, count_sent, note_accepted, recover,
  end_round,
}
use redis_pvxs_ioc.AlarmPublisher.Reach.{hear}
use redis_pvxs_ioc.AlarmPublisher.Ids.{Between-found, find_slot-id}
use redis_pvxs_ioc.AlarmPublisher.Tracks.{Tracked, Tracks, Tracks-put, heard_list}
use redis_pvxs_ioc.AlarmPublisher.Tracks.Flow.{
  Tracks-skip, Tracks-send, Tracks-accept, with_heard, Tracked-note,
}
use redis_pvxs_ioc.AlarmPublisher.Consistent.Picking.{
  above-All, up_to-All, first_pending-All, All-append,
}
use redis_pvxs_ioc.AlarmPublisher.Consistent.{Consistent, discard-Consistent}

-- The event that a round sends.
abbrev pub flying : Round → List Event
flying (sends event reconciliation) = event ∷ []
flying _ = []

module _ (heard : ℕ → Option Event) where
  -- What comes of looking for an event: it is on its way, or the queue is empty.
  record Found (r : AlarmPublisher × Option Event) : Type 0 where
    consistent : Consistent heard (heard_list r.1) r.0
    drained : r.1 ≡ none → r.0.ring.count ≡ 0

  next_event-Found :
      (queue : List Event) (p : AlarmPublisher)
      → Represents p.ring queue
      → Tracks p.slots p.next_id heard queue
      → Found (next_event (length queue) p)
  unfolding next_event
  next_event-Found [] p r t = record {
    consistent = record { queue = []; ring = r; tracks = t };
    drained = λ _. r.counted;
  }
  next_event-Found (event ∷ queue) p r t =
      subst (λ o. Found (first_of o (without_head p) others))
        (sym (peek-Represents p.ring event queue r))
        (if_cases Found (event_current event (without_head p)) (without_head p, some event) others
          (λ _. record {
            consistent = record { queue = queue; ring = dropped; tracks = t };
            drained = λ h. absurd (cc h);
          })
          (λ _.
            next_event-Found queue (count_discarded (without_head p)) dropped
              (Tracks-skip event queue t)))
    where
      others : AlarmPublisher × Option Event
      others = next_event (length queue) (count_discarded (without_head p))

      dropped : Represents (drop_head p.ring) queue
      dropped = drop_head-Represents p.ring event queue r

  idle_round-Consistent :
      (now heartbeat : ℕ) (p : AlarmPublisher)
      → Consistent heard [] p
      → Consistent heard (flying (idle_round now heartbeat p).1) (idle_round now heartbeat p).0
  unfolding idle_round
  idle_round-Consistent now heartbeat p v =
      if_cases
        (λ r. Consistent heard (flying r) (if p.live then record p { recovering = false } else p))
        (not (has_current p p.slots) || ltb now heartbeat) waits pings (λ _. settled) (λ _. settled)
    where
      settled : Consistent heard [] (if p.live then record p { recovering = false } else p)
      settled =
          if_cases (Consistent heard []) p.live (record p { recovering = false }) p
            (λ _. record { queue = v.queue; ring = v.ring; tracks = v.tracks }) (λ _. v)

  reconcile-Consistent :
      (now heartbeat : ℕ) (o : Option Slot) (p : AlarmPublisher)
      → ((s : Slot) → o ≡ some s → find_slot s.id p.slots ≡ some s)
      → p.ring.count ≡ 0
      → Consistent heard [] p
      → Consistent heard (flying (reconcile now heartbeat o p).1) (reconcile now heartbeat o p).0
  unfolding reconcile
  reconcile-Consistent now heartbeat none p known drained v =
      idle_round-Consistent now heartbeat p v
  reconcile-Consistent now heartbeat (some s) p known drained v = record {
    queue = [];
    ring = subst (Represents p.ring) nothing v.ring;
    tracks =
        Tracks-send (event_of now s) s [] (subst (Tracks p.slots p.next_id heard) nothing v.tracks)
          (known s refl) refl refl;
  }
    where
      empty : (queue : List Event) → length queue ≡ 0 → queue ≡ []
      empty [] h = refl
      empty (e ∷ queue) h = absurd (omega (arith, h))

      nothing : v.queue ≡ []
      nothing = empty v.queue (sym v.ring.counted ∙ drained)

  choose-Consistent :
      (now heartbeat : ℕ) (r : AlarmPublisher × Option Event)
      → Found r
      → Consistent heard (flying (choose now heartbeat r).1) (choose now heartbeat r).0
  unfolding choose
  choose-Consistent now heartbeat (p, some event) f = f.consistent
  choose-Consistent now heartbeat (p, none) f =
      reconcile-Consistent now heartbeat
        (first_pending p (above p.last_id p.slots ++ up_to p.last_id p.slots)) p
        (λ s. first_pending-All IsFound p (above p.last_id p.slots ++ up_to p.last_id p.slots) s (
          All-append IsFound (above p.last_id p.slots) (up_to p.last_id p.slots)
            (above-All IsFound p.last_id p.slots found)
            (up_to-All IsFound p.last_id p.slots found)))
        (f.drained refl) f.consistent
    where
      IsFound : Slot → Type 0
      IsFound s = find_slot s.id p.slots ≡ some s

      found : All IsFound p.slots
      found = Between-found 0 p.next_id p.slots f.consistent.tracks.ids

  pub begin_round-Consistent :
      (now retry_at heartbeat : ℕ) (p : AlarmPublisher)
      → Consistent heard [] p
      → Consistent heard
          (flying (begin_round now retry_at heartbeat p).1)
          (begin_round now retry_at heartbeat p).0
  unfolding begin_round
  begin_round-Consistent now retry_at heartbeat p v =
      if_cases (λ r. Consistent heard (flying r.1) r.0)
        (p.stopping || (not p.enabled || ltb now retry_at)) (p, waits)
        (choose now heartbeat (next_event p.ring.count p)) (λ _. v)
        (λ _. choose-Consistent now heartbeat (next_event p.ring.count p) (
          subst (λ n. Found (next_event n p)) (sym v.ring.counted)
            (next_event-Found v.queue p v.ring v.tracks)))

  recover-Consistent :
      (p : AlarmPublisher) → Consistent heard [] p → Consistent heard [] (recover p)
  unfolding recover
  recover-Consistent p v =
      let given_up = discard-Consistent heard [] p v in
      record { queue = given_up.queue; ring = given_up.ring; tracks = given_up.tracks }

  -- What is on its way does not arrive.
  lost-Consistent :
      (flight : Round) (p : AlarmPublisher)
      → Consistent heard (flying flight) p
      → Consistent heard [] p
  lost-Consistent waits p v = v
  lost-Consistent pings p v = v
  lost-Consistent (sends event reconciliation) p v = record {
    queue = v.queue;
    ring = v.ring;
    tracks = Tracks-skip event v.queue v.tracks;
  }

note_delivered-Consistent :
    (heard : ℕ → Option Event) (event : Event) (epoch : ℕ) (found : Option Slot)
    (p : AlarmPublisher)
    → find_slot event.slot p.slots ≡ found
    → Consistent (with_heard event heard) [] p
    → Consistent (with_heard event heard) [] (note_delivered epoch event found p)
unfolding note_delivered
note_delivered-Consistent heard event epoch none p h v = v
note_delivered-Consistent heard event epoch (some s) p h v =
    if_cases (Consistent (with_heard event heard) []) (current p s) _ p
      (λ _. record {
        queue = v.queue;
        ring = v.ring;
        tracks =
            Tracks-put noted s v.tracks (subst (λ i. find_slot i p.slots ≡ some s) (sym same) h)
              fits;
      })
      (λ _. v)
  where
    same : s.id ≡ event.slot
    same = find_slot-id event.slot p.slots s h

    noted : Slot
    noted = record s {
      delivered = max s.delivered event.revision;
      delivered_epoch = epoch;
      force = false;
    }

    fits : Tracked (with_heard event heard) v.queue s.id noted
    fits =
        subst (λ i. Tracked (with_heard event heard) v.queue i noted) (sym same)
          (Tracked-note heard event v.queue s epoch (v.tracks.each event.slot s h))

note_accepted-Consistent :
    (heard : ℕ → Option Event) (epoch : ℕ) (flight : Round) (p : AlarmPublisher)
    → Consistent heard (flying flight) p
    → Consistent (hear accepted flight heard) [] (note_accepted epoch flight p)
unfolding note_accepted hear
note_accepted-Consistent heard epoch waits p v = v
note_accepted-Consistent heard epoch pings p v = v
note_accepted-Consistent heard epoch (sends event reconciliation) p v =
    note_delivered-Consistent heard event epoch (find_slot event.slot p.slots)
      (record p { counters = count_sent reconciliation p.counters }) refl
      (record {
        queue = v.queue;
        ring = v.ring;
        tracks = Tracks-accept heard event v.queue v.tracks;
      })

pub end_round-Consistent :
    (heard : ℕ → Option Event) (result : SendResult) (epoch : ℕ) (flight : Round)
    (p : AlarmPublisher)
    → Consistent heard (flying flight) p
    → Consistent (hear result flight heard) [] (end_round result epoch flight p)
unfolding end_round hear
end_round-Consistent heard accepted epoch flight p v =
    note_accepted-Consistent heard epoch flight _
      (record { queue = v.queue; ring = v.ring; tracks = v.tracks })
end_round-Consistent heard rejected epoch flight p v =
    let lost = lost-Consistent heard flight p v in
    recover-Consistent heard
      (record p {
        counters = record p.counters {
          rejected = add64 p.counters.rejected 1;
          last_error = delivery_rejected;
        };
      })
      (record { queue = lost.queue; ring = lost.ring; tracks = lost.tracks })
end_round-Consistent heard unavailable epoch flight p v =
    let lost = lost-Consistent heard flight p v in
    recover-Consistent heard
      (record p {
        live = false;
        counters = record p.counters {
          transport_failures = add64 p.counters.transport_failures 1;
          last_error = transport_unavailable;
        };
      })
      (record { queue = lost.queue; ring = lost.ring; tracks = lost.tracks })
