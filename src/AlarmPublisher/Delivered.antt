-- ===== src/AlarmPublisher/Delivered.antt =====
-- What Redis has of the slots of the alarm publisher in src/alarm_worker.cpp, over all its histories.
use redis_pvxs_ioc.Prelude.{
  ℕ, ◌*◌, ◌≤◌, ◌≡◌, refl, sym, ap, true, false, ◌&&◌, Option, none, some, List, [], ◌∷◌, ◌++◌, ◌==◌,
  if_cases, arith, bit,
}
use mathlib.Core.Path.{subst}
use redis_pvxs_ioc.Prelude.Results.{
  ok, Meets, Meets-bind, Meets-at, Meets-ok, Meets-any, Meets-fail_if, Anything,
}
use redis_pvxs_ioc.Config.Defaults.{alarm_queue_entry_bytes}
use redis_pvxs_ioc.AlarmPublisher.{StoredState, Budget, new_budget, acquire}
use redis_pvxs_ioc.AlarmPublisher.Ring.Fifo.{new_ring-Represents}
use redis_pvxs_ioc.AlarmPublisher.Slots.{
  AlarmPublisherOptions, Slot, Event, AlarmPublisher, find_slot, current, pending,
}
use redis_pvxs_ioc.AlarmPublisher.Threads.{
  from_budget, fresh_publisher, create_publisher, prepare, free_reservation, enable, stop,
}
use redis_pvxs_ioc.AlarmPublisher.Worker.{count_pending, ready, state_of, status}
use redis_pvxs_ioc.AlarmPublisher.Reach.{
  World, Step, updates, prepares, activates, retires, removes, frees, enables, stops, begins, ends,
  Reach, here, next, begin_world,
}
use redis_pvxs_ioc.AlarmPublisher.Story.{Chain, Chain-first}
use redis_pvxs_ioc.AlarmPublisher.Ids.{Between}
use redis_pvxs_ioc.AlarmPublisher.Tracks.{heard_list}
use redis_pvxs_ioc.AlarmPublisher.Consistent.{
  Consistent, update-Consistent, prepare-Meets, activate-Consistent, retire-Consistent,
  remove-Consistent,
}
use redis_pvxs_ioc.AlarmPublisher.Consistent.Rounds.{
  flying, begin_round-Consistent, end_round-Consistent,
}

abbrev pub IsConsistent : World → Type 0
IsConsistent w = Consistent w.heard (flying w.flight) w.publisher

Step-IsConsistent : {a b : World} → Step a b → IsConsistent a → IsConsistent b
unfolding enable stop free_reservation
Step-IsConsistent {a = w} (updates id severity status message now room) v =
    update-Consistent w.heard (flying w.flight) id severity status message now w.publisher room v
Step-IsConsistent {a = w} (prepares name severity status message room done) v =
    Meets-at (λ r. Consistent w.heard (flying w.flight) r.0) Anything
      (prepare name severity status message w.publisher) _
      (prepare-Meets w.heard (flying w.flight) name severity status message w.publisher room v) done
Step-IsConsistent {a = w} (activates id) v =
    activate-Consistent w.heard (flying w.flight) id w.publisher v
Step-IsConsistent {a = w} (retires id) v =
    retire-Consistent w.heard (flying w.flight) id w.publisher v
Step-IsConsistent {a = w} (removes id) v =
    remove-Consistent w.heard (flying w.flight) id w.publisher v
Step-IsConsistent {a = w} (frees id name before after e free) v = record {
  queue = v.queue;
  ring = v.ring;
  tracks = v.tracks;
}
Step-IsConsistent {a = w} enables v = record { queue = v.queue; ring = v.ring; tracks = v.tracks }
Step-IsConsistent {a = w} stops v = record { queue = v.queue; ring = v.ring; tracks = v.tracks }
Step-IsConsistent {a = w} (begins now retry_at heartbeat free) v =
    begin_round-Consistent w.heard now retry_at heartbeat w.publisher
      (subst (λ r. Consistent w.heard (flying r) w.publisher) free v)
Step-IsConsistent {a = w} (ends result busy) v =
    end_round-Consistent w.heard result w.epoch w.flight w.publisher v

pub Reach-IsConsistent : {a b : World} → Reach a b → IsConsistent a → IsConsistent b
Reach-IsConsistent here v = v
Reach-IsConsistent (next r s) v = Step-IsConsistent s (Reach-IsConsistent r v)

empty-IsConsistent :
    (options : AlarmPublisherOptions) (budget : Budget)
    → 1 ≤ options.queue_entries
    → IsConsistent (begin_world (fresh_publisher options budget))
unfolding find_slot Between
empty-IsConsistent options budget h = record {
  queue = [];
  ring = new_ring-Represents Event options.queue_entries h;
  tracks = record {
    each = λ id s k. absurd (cc k);
    ids = omega arith;
    unheard = λ id k. refl;
    owned = λ id e k. absurd (cc k);
    known = tt;
  };
}

create_publisher-Meets :
    (options : AlarmPublisherOptions)
    → Meets (λ p. IsConsistent (begin_world p)) Anything (create_publisher options)
unfolding create_publisher
create_publisher-Meets options = Meets-fail_if _ _ _ _ λ h.
    Meets-bind _ _ _
      (from_budget (
        acquire (options.queue_entries * alarm_queue_entry_bytes) (new_budget options.state_bytes)))
      _ (Meets-any _)
      λ budget _. Meets-ok _ _ _ (empty-IsConsistent options budget (ground (arith, h)))

pub fresh-IsConsistent :
    (options : AlarmPublisherOptions) (p : AlarmPublisher)
    → create_publisher options ≡ ok p
    → IsConsistent (begin_world p)
fresh-IsConsistent options p h =
    Meets-at (λ q. IsConsistent (begin_world q)) Anything (create_publisher options) p
      (create_publisher-Meets options) h

-- The state that Redis has last accepted of a slot.
unfoldable pub heard_state : Option Event → Option StoredState
heard_state none = none
heard_state (some e) = some e.state

settled_lem :
    (heard : Option Event) (id : ℕ) (s : Slot)
    → Chain id s.revision s.latest s.delivered (heard_list heard)
    → s.revision ≤ s.delivered
    → 1 ≤ s.revision
    → (heard ≡ none → s.delivered ≡ 0)
    → ((e : Event) → heard ≡ some e → e.slot ≡ id)
    → heard_state heard ≡ some s.latest
unfolding Chain heard_state
settled_lem none id s chain whole counted first owned = absurd (omega (arith, first refl))
settled_lem (some e) id s chain whole counted first owned =
    let mine : e.slot ≡ id = owned e refl in
    let behind = chain.0 mine in ap some (behind.1 (ground (arith, behind.0, chain.1, mine)))

ready_lem : (p : AlarmPublisher) → state_of p ≡ ready → count_pending p p.slots ≡ 0
unfolding state_of
ready_lem p h = ground (arith, h)

all_delivered :
    (p : AlarmPublisher) (id : ℕ) (s : Slot) (slots : List Slot)
    → find_slot id slots ≡ some s
    → count_pending p slots ≡ 0
    → current p s ≡ true
    → pending p s ≡ false
unfolding find_slot count_pending
all_delivered p id s [] h k c = absurd (cc h)
all_delivered p id s (t ∷ slots) h k c =
    if_cases (λ o. o ≡ some s → pending p s ≡ false) (t.id == id) (some t) (find_slot id slots)
      (λ _ same.
        let is_s : t ≡ s = ground (arith, same) in
        subst (λ u. bit (current p u && pending p u) ≡ 0 → pending p s ≡ false) (sym is_s)
          (λ none. ground (arith, none, c)) (omega (arith, k)))
      (λ _ behind. all_delivered p id s slots behind (omega (arith, k)) c) h

-- Once a publisher has been set up, whatever was called since: of a slot that is not pending, Redis has last
-- accepted its latest state.
pub pending-heard_state :
    (options : AlarmPublisherOptions) (p : AlarmPublisher) (w : World) (id : ℕ) (s : Slot)
    → create_publisher options ≡ ok p
    → Reach (begin_world p) w
    → find_slot id w.publisher.slots ≡ some s
    → pending w.publisher s ≡ false
    → heard_state (w.heard id) ≡ some s.latest
unfolding pending
pending-heard_state options p w id s created history found done =
    let v = Reach-IsConsistent history (fresh-IsConsistent options p created) in
    let t = v.tracks.each id s found in
    settled_lem (w.heard id) id s
      (Chain-first id s.revision s.latest s.delivered (heard_list (w.heard id))
        (flying w.flight ++ v.queue) t.chain)
      (ground (arith, done)) t.counted t.first (v.tracks.owned id)

-- Once a publisher has been set up, whatever was called since: where its status says ready, Redis has last
-- accepted the latest state of each current slot.
pub status-heard_state :
    (options : AlarmPublisherOptions) (p : AlarmPublisher) (w : World) (id : ℕ) (s : Slot)
    → create_publisher options ≡ ok p
    → Reach (begin_world p) w
    → (status w.publisher).state ≡ ready
    → find_slot id w.publisher.slots ≡ some s
    → current w.publisher s ≡ true
    → heard_state (w.heard id) ≡ some s.latest
unfolding status
status-heard_state options p w id s created history told found serves =
    pending-heard_state options p w id s created history found
      (all_delivered w.publisher id s w.publisher.slots found (ready_lem w.publisher told) serves)
