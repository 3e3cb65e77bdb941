-- ===== src/AlarmPublisher/Consistent.antt =====
-- The calls of a registration in src/alarm_worker.cpp keep the order of events of each slot.
pub mod Picking
pub mod Rounds
use redis_pvxs_ioc.Prelude.{
  ℕ, zero, suc, ◌+◌, ◌-◌, ◌*◌, ◌/◌, ◌≤◌, ◌<◌, ◌≡◌, ◌≢◌, refl, sym, ap, ◌∙◌, String, Bool, true,
  false, not, ◌&&◌, ◌||◌, Option, none, some, List, [], ◌∷◌, ◌++◌, ◌==◌, ltb, if◌then◌else◌,
  if_cases, All, arith, length, add64, add64_exact, word,
}
use mathlib.Core.Path.{subst}
use mathlib.Core.List.{append_assoc, append-nil}
use redis_pvxs_ioc.Prelude.Int.{ℤ}
use redis_pvxs_ioc.Prelude.Results.{
  Result, ok, err, Meets, Meets-bind, Meets-ok, Meets-any, Meets-fail_if, Anything,
}
use redis_pvxs_ioc.ConfigParser.Text.{size}
use redis_pvxs_ioc.AlarmPublisher.{StoredState, encode, acquire}
use redis_pvxs_ioc.AlarmPublisher.Ring.{drop_all}
use redis_pvxs_ioc.AlarmPublisher.Ring.Fifo.{Represents, push-Represents, drop_all-Represents}
use redis_pvxs_ioc.AlarmPublisher.Slots.{
  Slot, Event, AlarmPublisher, find_slot, put_slot, same_state, current, discard_queue,
}
use redis_pvxs_ioc.AlarmPublisher.Threads.{
  PublisherError, count_truncated, enqueue, event_of, enqueue_current, with_latest, update_found,
  update, new_slot, add_slot, from_budget, reserved_for, prepare, activated, retired_slot, activate,
  retire, remove, change_found, remove_found,
}
use redis_pvxs_ioc.AlarmPublisher.Story.{Chain, Chain-grow}
use redis_pvxs_ioc.AlarmPublisher.Ids.{find_slot-id, find_slot-put_self}
use redis_pvxs_ioc.AlarmPublisher.Tracks.{
  Tracked, Tracks, Tracks-put, Tracks-erase, Tracks-add, heard_list,
}
use redis_pvxs_ioc.AlarmPublisher.Tracks.Flow.{Tracks-send, Tracks-first}

-- The ring holds a queue, which is behind what is on its way.
pub record Consistent (heard : ℕ → Option Event) (front : List Event) (p : AlarmPublisher)
    : Type 0 where
  pub queue : List Event
  pub ring : Represents p.ring queue
  pub tracks : Tracks p.slots p.next_id heard (front ++ queue)

module _ (heard : ℕ → Option Event) (front : List Event) where
  pub discard-Consistent :
      (p : AlarmPublisher) → Consistent heard front p → Consistent heard front (discard_queue p)
  unfolding discard_queue
  discard-Consistent p v = record {
    queue = [];
    ring =
        subst (λ n. Represents (drop_all n p.ring) []) (sym v.ring.counted)
          (drop_all-Represents v.queue p.ring v.ring);
    tracks = Tracks-first front v.queue v.tracks;
  }

  overflow-Consistent :
      (p q : AlarmPublisher)
      → Consistent heard front p
      → Consistent heard front q
      → (b : Bool) → Consistent heard front (if b then p else q)
  overflow-Consistent p q v w true = v
  overflow-Consistent p q v w false = w

  enqueue-Consistent :
      (event : Event) (s : Slot) (p : AlarmPublisher)
      → find_slot event.slot p.slots ≡ some s
      → event.revision ≡ s.revision
      → event.state ≡ s.latest
      → Consistent heard front p
      → Consistent heard front (enqueue event p)
  unfolding enqueue
  enqueue-Consistent event s p found rev state v =
      if_cases (Consistent heard front)
        (p.live && (not p.recovering && ltb p.ring.count (length p.ring.cells))) _ _
        (λ room. record {
          queue = v.queue ++ event ∷ [];
          ring = push-Represents p.ring event v.queue v.ring (ground (arith, room));
          tracks =
              subst (Tracks p.slots p.next_id heard) (append_assoc front v.queue (event ∷ []))
                (Tracks-send event s (front ++ v.queue) v.tracks found rev state);
        })
        (λ full.
          let counted : Consistent heard front (record p {
            counters = record p.counters {
              coalesced_updates = add64 p.counters.coalesced_updates 1;
            };
          }) =
            record { queue = v.queue; ring = v.ring; tracks = v.tracks } in
          let given_up = discard-Consistent _ counted in
          overflow-Consistent _ _
            (record { queue = given_up.queue; ring = given_up.ring; tracks = given_up.tracks })
            counted (p.ring.count == length p.ring.cells))

  count_truncated-Consistent :
      (truncated : Bool) (p : AlarmPublisher)
      → Consistent heard front p
      → Consistent heard front (count_truncated truncated p)
  unfolding count_truncated
  count_truncated-Consistent true p v = record { queue = v.queue; ring = v.ring; tracks = v.tracks }
  count_truncated-Consistent false p v = v

  count_truncated-slots :
      (truncated : Bool) (p : AlarmPublisher) → (count_truncated truncated p).slots ≡ p.slots
  unfolding count_truncated
  count_truncated-slots true p = refl
  count_truncated-slots false p = refl

  -- Another slot in the place of one, with the same revision, state and deliveries.
  put-Consistent :
      (s t : Slot) (p : AlarmPublisher)
      → find_slot s.id p.slots ≡ some t
      → ((flow : List Event) → Tracked heard flow s.id t → Tracked heard flow s.id s)
      → Consistent heard front p
      → Consistent heard front (record p { slots = put_slot s p.slots })
  put-Consistent s t p found fits v = record {
    queue = v.queue;
    ring = v.ring;
    tracks = Tracks-put s t v.tracks found (fits _ (v.tracks.each s.id t found));
  }

  update_found-Consistent :
      (id now : ℕ) (encoded : StoredState) (truncated : Bool) (found : Option Slot)
      (p : AlarmPublisher)
      → find_slot id p.slots ≡ found
      → ((s : Slot) → found ≡ some s → s.revision + 1 < word)
      → Consistent heard front p
      → Consistent heard front (update_found now encoded truncated found p)
  unfolding update_found enqueue_current
  update_found-Consistent id now encoded truncated none p h room v = v
  update_found-Consistent id now encoded truncated (some s) p h room v =
      if_cases (Consistent heard front) (p.stopping || (s.retired || same_state s.latest encoded)) _
        _ (λ _. v)
        λ _.
          if_cases (Consistent heard front) _ _ _
            (λ _.
              enqueue-Consistent (event_of now s1) s1 q
                (ap (find_slot s.id) (count_truncated-slots truncated changed)
                  ∙ find_slot-put_self s1 s p.slots at_id)
                refl refl kept)
            (λ _. kept)
    where
      s1 : Slot
      s1 = with_latest encoded s

      changed : AlarmPublisher
      changed = record p { slots = put_slot s1 p.slots }

      q : AlarmPublisher
      q = count_truncated truncated changed

      at_id : find_slot s.id p.slots ≡ some s
      at_id = subst (λ i. find_slot i p.slots ≡ some s) (sym (find_slot-id id p.slots s h)) h

      rises : s.revision < add64 s.revision 1
      rises = omega (arith, add64_exact s.revision 1 (room s refl))

      kept : Consistent heard front q
      kept = count_truncated-Consistent truncated changed (
          put-Consistent s1 s p at_id
            (λ flow t. record {
              chain =
                  Chain-grow s.id s.revision (add64 s.revision 1) s.latest encoded s.delivered _
                    rises t.chain;
              first = t.first;
              counted = omega (arith, rises);
            })
            v)

  pub update-Consistent :
      (id : ℕ) (severity status : ℤ) (message : List ℕ) (now : ℕ) (p : AlarmPublisher)
      → ((s : Slot) → find_slot id p.slots ≡ some s → s.revision + 1 < word)
      → Consistent heard front p
      → Consistent heard front (update id severity status message now p)
  unfolding update
  update-Consistent id severity status message now p room v =
      update_found-Consistent id now _ _ (find_slot id p.slots) p refl room v

  -- What a registration does to its slot leaves the state, the revision and what was delivered.
  change-Consistent :
      (f : Slot → Slot)
      → ((s : Slot)
          → ((f s).id ≡ s.id)
            × ((f s).revision ≡ s.revision)
            × ((f s).latest ≡ s.latest)
            × ((f s).delivered ≡ s.delivered))
      → (id : ℕ) (found : Option Slot) (p : AlarmPublisher) → find_slot id p.slots ≡ found
      → Consistent heard front p
      → Consistent heard front (change_found f found p)
  unfolding change_found
  change-Consistent f same id none p h v = v
  change-Consistent f same id (some s) p h v =
      put-Consistent (f s) s p
        (subst (λ i. find_slot i p.slots ≡ some s) (sym ((same s).0 ∙ find_slot-id id p.slots s h))
          h)
        (λ flow t. record {
          chain =
              subst
                (λ x.
                  Chain (f s).id x (f s).latest (f s).delivered
                    (heard_list (heard (f s).id) ++ flow))
                (sym (same s).1)
                (subst
                  (λ x.
                    Chain (f s).id s.revision x (f s).delivered
                      (heard_list (heard (f s).id) ++ flow))
                  (sym (same s).2)
                  (subst
                    (λ x.
                      Chain (f s).id s.revision s.latest x (heard_list (heard (f s).id) ++ flow))
                    (sym (same s).3) t.chain));
          first = λ k. (same s).3 ∙ t.first k;
          counted = subst (λ x. 1 ≤ x) (sym (same s).1) t.counted;
        })
        v

  pub activate-Consistent :
      (id : ℕ) (p : AlarmPublisher)
      → Consistent heard front p
      → Consistent heard front (activate id p)
  unfolding activate
  activate-Consistent id p v =
      change-Consistent activated (λ s. (ground arith, ground arith, ground arith, ground arith)) id
        (find_slot id p.slots) p refl v

  pub retire-Consistent :
      (id : ℕ) (p : AlarmPublisher)
      → Consistent heard front p
      → Consistent heard front (retire id p)
  unfolding retire
  retire-Consistent id p v =
      change-Consistent retired_slot (λ s. (refl, refl, refl, refl)) id (find_slot id p.slots) p
        refl v

  remove_found-Consistent :
      (found : Option Slot) (p : AlarmPublisher)
      → Consistent heard front p
      → Consistent heard front (remove_found found p)
  unfolding remove_found
  remove_found-Consistent none p v = v
  remove_found-Consistent (some s) p v = record {
    queue = v.queue;
    ring = v.ring;
    tracks = Tracks-erase s.id v.tracks;
  }

  pub remove-Consistent :
      (id : ℕ) (p : AlarmPublisher)
      → Consistent heard front p
      → Consistent heard front (remove id p)
  unfolding remove
  remove-Consistent id p v = remove_found-Consistent (find_slot id p.slots) p v

  add_slot-Consistent :
      (s : Slot) (p : AlarmPublisher)
      → p.next_id < s.id
      → s.delivered ≡ 0
      → 1 ≤ s.revision
      → Consistent heard front p
      → Consistent heard front (add_slot s p)
  unfolding add_slot
  add_slot-Consistent s p new none_yet counted v = record {
    queue = v.queue;
    ring = v.ring;
    tracks = Tracks-add s v.tracks new none_yet counted;
  }

  pub prepare-Meets :
      (name : String) (severity status : ℤ) (message : List ℕ) (p : AlarmPublisher)
      → p.next_id + 1 < word
      → Consistent heard front p
      → Meets (λ r. Consistent heard front r.0) Anything (prepare name severity status message p)
  unfolding prepare
  prepare-Meets name severity status message p room v =
      Meets-fail_if _ (ltb ((word - 1 - 1024) / 2) (size name)) _ _ λ _.
        Meets-bind _ _ _ (from_budget (acquire (reserved_for name) p.budget)) _ (Meets-any _)
          λ budget _. Meets-fail_if _ p.stopping _ _ λ _.
            let stored = encode severity status message in
            Meets-ok _ _ _ (
              count_truncated-Consistent stored.1
                (add_slot (new_slot name (add64 p.next_id 1) stored.0)
                  (record p { budget = budget }))
                (add_slot-Consistent (new_slot name (add64 p.next_id 1) stored.0)
                  (record p { budget = budget }) (omega (arith, add64_exact p.next_id 1 room)) refl
                  (omega arith) (record { queue = v.queue; ring = v.ring; tracks = v.tracks })))
