-- ===== src/AlarmPublisher/Progress.antt =====
-- The worker of the alarm publisher in src/alarm_worker.cpp does not rest while a slot is pending.
use redis_pvxs_ioc.Prelude.{
  ℕ, zero, suc, ◌≤◌, ◌≡◌, ◌≢◌, refl, sym, ap, ◌∙◌, Bool, true, false, not, ◌&&◌, ◌||◌, Option, none,
  some, List, [], ◌∷◌, ◌++◌, ◌==◌, ltb, if◌then◌else◌, if_cases, All, arith,
}
use mathlib.Core.Path.{subst}
use redis_pvxs_ioc.Prelude.Results.{ok}
use redis_pvxs_ioc.AlarmPublisher.Ring.{peek}
use redis_pvxs_ioc.AlarmPublisher.Slots.{
  AlarmPublisherOptions, Slot, Event, AlarmPublisher, find_slot, current, pending,
}
use redis_pvxs_ioc.AlarmPublisher.Threads.{create_publisher, event_of}
use redis_pvxs_ioc.AlarmPublisher.Worker.{
  Round, sends, is_current, event_current, count_discarded, first_of, without_head, next_event,
  above, up_to, first_pending, reconcile, choose, begin_round,
}
use redis_pvxs_ioc.AlarmPublisher.Reach.{World, Reach, begin_world}
use redis_pvxs_ioc.AlarmPublisher.Ids.{Between-found}
use redis_pvxs_ioc.AlarmPublisher.Consistent.Picking.{
  above-All, up_to-All, first_pending-All, All-append,
}
use redis_pvxs_ioc.AlarmPublisher.Delivered.{Reach-IsConsistent, fresh-IsConsistent}

-- What looking for an event leaves as it was, and what it finds.
record Looked (p : AlarmPublisher) (r : AlarmPublisher × Option Event) : Type 0 where
  slots : r.0.slots ≡ p.slots
  names : r.0.names ≡ p.names
  epoch : r.0.epoch ≡ p.epoch
  serving : (e : Event) → r.1 ≡ some e → event_current e r.0 ≡ true

first_of-Looked :
    (o : Option Event) (p : AlarmPublisher) (others : AlarmPublisher × Option Event)
    → Looked p others
    → Looked p (first_of o p others)
unfolding first_of
first_of-Looked none p others v = v
first_of-Looked (some event) p others v =
    if_cases (Looked p) (event_current event p) (p, some event) others
      (λ yes. record {
        slots = refl;
        names = refl;
        epoch = refl;
        serving = λ e h.
            let same : event ≡ e = ground (arith, h) in
            subst (λ f. event_current f p ≡ true) same yes;
      })
      (λ _. v)

next_event-Looked : (n : ℕ) (p : AlarmPublisher) → Looked p (next_event n p)
unfolding next_event
next_event-Looked zero p = record {
  slots = refl;
  names = refl;
  epoch = refl;
  serving = λ e h. absurd (cc h);
}
next_event-Looked (suc n) p =
    let rest = next_event-Looked n (count_discarded (without_head p)) in
    let v =
      first_of-Looked (peek p.ring) (without_head p)
        (next_event n (count_discarded (without_head p)))
        (record {
          slots = rest.slots;
          names = rest.names;
          epoch = rest.epoch;
          serving = rest.serving;
        }) in
    record { slots = v.slots; names = v.names; epoch = v.epoch; serving = v.serving }

abbrev IsDue : AlarmPublisher → Slot → Type 0
IsDue p s = (current p s ≡ true) × (pending p s ≡ true)

IsDue-keeps :
    (p q : AlarmPublisher) (s : Slot)
    → q.slots ≡ p.slots
    → q.names ≡ p.names
    → q.epoch ≡ p.epoch
    → IsDue p s
    → IsDue q s
unfolding current pending
IsDue-keeps p q s e f g h = (cc (e, f, h.0), cc (g, h.1))

found-All :
    (P : Slot → Type 0) (id : ℕ) (s : Slot) (slots : List Slot)
    → All P slots
    → find_slot id slots ≡ some s
    → P s
unfolding find_slot
found-All P id s [] v h = absurd (cc h)
found-All P id s (t ∷ slots) v h =
    if_cases (λ o. o ≡ some s → P s) (t.id == id) (some t) (find_slot id slots)
      (λ _ same. subst P (ground (arith, same)) v.0) (λ _ behind. found-All P id s slots v.1 behind)
      h

All-split : (P : Slot → Type 0) (xs ys : List Slot) → All P (xs ++ ys) → All P xs × All P ys
All-split P [] ys v = (tt, v)
All-split P (x ∷ xs) ys v = let rest = All-split P xs ys v.1 in ((v.0, rest.0), rest.1)

around-All :
    (P : Slot → Type 0) (last : ℕ) (slots : List Slot)
    → All P (above last slots)
    → All P (up_to last slots)
    → All P slots
unfolding above up_to
around-All P last [] v w = tt
around-All P last (s ∷ slots) v w = go (around-All P last slots) (ltb last s.id) v w
  where
    go :
        (All P (above last slots) → All P (up_to last slots) → All P slots)
        → (b : Bool) → All P (if b then s ∷ above last slots else above last slots)
        → All P (if b then up_to last slots else s ∷ up_to last slots)
        → P s × All P slots
    go rest true x y = (x.0, rest x.1 y)
    go rest false x y = (y.0, rest x y.1)

-- Where none is found, none of the slots is due.
first_pending-none :
    (p : AlarmPublisher) (slots : List Slot)
    → first_pending p slots ≡ none
    → All (λ s. ¬ IsDue p s) slots
unfolding first_pending
first_pending-none p [] h = tt
first_pending-none p (s ∷ slots) h =
    if_cases (λ o. o ≡ none → All (λ s. ¬ IsDue p s) (s ∷ slots)) (current p s && pending p s)
      (some s) (first_pending p slots) (λ _ k. absurd (cc k))
      (λ no k. ((λ due. absurd (cc (no, due.0, due.1))), first_pending-none p slots k)) h

when_both : (a b : Bool) → (a && b) ≡ true → a ≡ true
when_both true b h = refl
when_both false b h = h

first_pending-current :
    (p : AlarmPublisher) (slots : List Slot) (s : Slot)
    → first_pending p slots ≡ some s
    → current p s ≡ true
unfolding first_pending
first_pending-current p [] s h = absurd (cc h)
first_pending-current p (t ∷ slots) s h =
    if_cases (λ o. o ≡ some s → current p s ≡ true) (current p t && pending p t) (some t)
      (first_pending p slots)
      (λ yes same.
        let is_s : t ≡ s = ground (arith, same) in
        let first : current p t ≡ true = when_both (current p t) (pending p t) yes in
        subst (λ u. current p u ≡ true) is_s first)
      (λ _ behind. first_pending-current p slots s behind) h

-- The event that a round sends.
unfoldable pub sent : Round → Option Event
sent (sends event reconciliation) = some event
sent _ = none

Serves : AlarmPublisher × Round → Type 0
Serves r = (e : Event) × (sent r.1 ≡ some e) × (event_current e r.0 ≡ true)

reconcile-Serves :
    (now heartbeat : ℕ) (o : Option Slot) (p : AlarmPublisher)
    → o ≢ none
    → ((t : Slot) → o ≡ some t → (find_slot t.id p.slots ≡ some t) × (current p t ≡ true))
    → Serves (reconcile now heartbeat o p)
unfolding Serves reconcile sent event_current is_current current
reconcile-Serves now heartbeat none p some_due known = absurd (some_due refl)
reconcile-Serves now heartbeat (some t) p some_due known =
    let k = known t refl in
    (
      event_of now t,
      refl,
      subst (λ o. is_current o (record p { last_id = t.id }) ≡ true) (sym k.0) k.1,
    )

choose-Serves :
    (now heartbeat id : ℕ) (s : Slot) (p : AlarmPublisher) (r : AlarmPublisher × Option Event)
    → All (λ t. find_slot t.id p.slots ≡ some t) p.slots
    → find_slot id p.slots ≡ some s
    → IsDue p s
    → Looked p r
    → Serves (choose now heartbeat r)
unfolding choose Serves sent
choose-Serves now heartbeat id s p (q, some event) ids found due v =
    (event, refl, v.serving event refl)
choose-Serves now heartbeat id s p (q, none) ids found due v =
    reconcile-Serves now heartbeat (first_pending q around) q
      (λ h.
        let spared = All-split (λ t. ¬ IsDue q t) _ _ (first_pending-none q around h) in
        found-All (λ t. ¬ IsDue q t) id s q.slots
          (around-All (λ t. ¬ IsDue q t) q.last_id q.slots spared.0 spared.1)
          (ap (find_slot id) v.slots ∙ found) (IsDue-keeps p q s v.slots v.names v.epoch due))
      (λ t h. (
        first_pending-All IsFound q around t
            (All-append IsFound _ _ (above-All IsFound q.last_id q.slots kept)
              (up_to-All IsFound q.last_id q.slots kept))
            h,
        first_pending-current q around t h,
      ))
  where
    around : List Slot
    around = above q.last_id q.slots ++ up_to q.last_id q.slots

    IsFound : Slot → Type 0
    IsFound t = find_slot t.id q.slots ≡ some t

    kept : All IsFound q.slots
    kept = subst (λ slots. All (λ t. find_slot t.id slots ≡ some t) slots) (sym v.slots) ids

-- Once a publisher has been set up, whatever was called since: a round that begins while the publisher is
-- enabled and not stopping, at a time when it may try, and while some current slot is pending, sends an
-- event, and the event is one of a current slot.
pub begin_round-sends :
    (options : AlarmPublisherOptions) (p : AlarmPublisher) (w : World)
    (now retry_at heartbeat id : ℕ) (s : Slot)
    → create_publisher options ≡ ok p
    → Reach (begin_world p) w
    → w.publisher.stopping ≡ false
    → w.publisher.enabled ≡ true
    → retry_at ≤ now
    → find_slot id w.publisher.slots ≡ some s
    → current w.publisher s ≡ true
    → pending w.publisher s ≡ true
    → (e : Event) × (sent (begin_round now retry_at heartbeat w.publisher).1 ≡ some e)
      × (event_current e (begin_round now retry_at heartbeat w.publisher).0 ≡ true)
unfolding begin_round Serves
begin_round-sends options p w now retry_at heartbeat id s created history going on time found
      serving due =
    let v = Reach-IsConsistent history (fresh-IsConsistent options p created) in
    if_cases Serves (w.publisher.stopping || (not w.publisher.enabled || ltb now retry_at)) _ _
      (λ idle. absurd (ground (arith, idle, going, on, time)))
      (λ _.
        choose-Serves now heartbeat id s w.publisher (next_event w.publisher.ring.count w.publisher)
          (Between-found 0 w.publisher.next_id w.publisher.slots v.tracks.ids) found (serving, due)
          (next_event-Looked w.publisher.ring.count w.publisher))
