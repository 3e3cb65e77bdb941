-- ===== src/AlarmPublisher/Tracks/Flow.antt =====
-- Events of src/alarm_worker.cpp that are queued, sent or given up.
use Prim.Native.Nat.{max}
use redis_pvxs_ioc.Prelude.{
  ℕ, ◌≤◌, ◌≡◌, ◌≢◌, refl, sym, ap, ◌∙◌, false, Option, none, some, List, [], ◌∷◌, ◌++◌, ◌==◌,
  if◌then◌else◌, All, arith,
}
use mathlib.Core.Path.{subst}
use mathlib.Core.List.{append_assoc, append-nil}
use native.Mathlib.Decide.{ℕ_discrete}
use redis_pvxs_ioc.AlarmPublisher.Slots.{Slot, Event, find_slot}
use redis_pvxs_ioc.AlarmPublisher.Story.{
  Chain, Chain-drop, Chain-first, Chain-append, Chain-reach, Chain-tail,
}
use redis_pvxs_ioc.AlarmPublisher.Ids.{find_slot-Between}
use redis_pvxs_ioc.AlarmPublisher.Tracks.{Tracked, Tracks, heard_list}

known-append :
    (next : ℕ) (e : Event) (flow : List Event)
    → e.slot ≤ next
    → All (λ f. f.slot ≤ next) flow
    → All (λ f. f.slot ≤ next) (flow ++ e ∷ [])
known-append next e [] h k = (h, tt)
known-append next e (f ∷ flow) h k = (k.0, known-append next e flow h k.1)

module _ {slots : List Slot} {next : ℕ} {heard : ℕ → Option Event} where
  -- An event of the flow that is given up.
  pub Tracks-skip :
      (e : Event) (flow : List Event)
      → Tracks slots next heard (e ∷ flow)
      → Tracks slots next heard flow
  Tracks-skip e flow v = record {
    each = λ id s h. record {
      chain =
          Chain-drop id s.revision s.latest s.delivered (heard_list (heard id)) e flow
            (v.each id s h).chain;
      first = (v.each id s h).first;
      counted = (v.each id s h).counted;
    };
    ids = v.ids;
    unheard = v.unheard;
    owned = v.owned;
    known = v.known.1;
  }

  pub Tracks-none : (flow : List Event) → Tracks slots next heard flow → Tracks slots next heard []
  Tracks-none [] v = v
  Tracks-none (e ∷ flow) v = Tracks-none flow (Tracks-skip e flow v)

  -- The latest state of a slot goes behind the others.
  pub Tracks-send :
      (e : Event) (t : Slot) (flow : List Event)
      → Tracks slots next heard flow
      → find_slot e.slot slots ≡ some t
      → e.revision ≡ t.revision
      → e.state ≡ t.latest
      → Tracks slots next heard (flow ++ e ∷ [])
  Tracks-send e t flow v found rev state = record {
    each = λ id s h. record {
      chain =
          subst (Chain id s.revision s.latest s.delivered)
            (append_assoc (heard_list (heard id)) flow (e ∷ []))
            (Chain-append id s.revision s.latest s.delivered (heard_list (heard id) ++ flow) e
              (v.each id s h).chain
              (λ k.
                let same : s ≡ t = cc (h, found, k) in
                (rev ∙ ap (λ u. u.revision) (sym same), state ∙ ap (λ u. u.latest) (sym same))));
      first = (v.each id s h).first;
      counted = (v.each id s h).counted;
    };
    ids = v.ids;
    unheard = v.unheard;
    owned = v.owned;
    known =
        known-append next e flow (find_slot-Between e.slot 0 next slots t v.ids found).1 v.known;
  }

-- What Redis has of each slot once it has accepted an event.
abbrev pub with_heard : Event → (ℕ → Option Event) → ℕ → Option Event
with_heard e heard id = if e.slot == id then some e else heard id

module _ (heard : ℕ → Option Event) (e : Event) (flow : List Event) where
  with_heard_self : (id : ℕ) → e.slot ≡ id → with_heard e heard id ≡ some e
  with_heard_self id h = ground (arith, h)

  with_heard_ne : (id : ℕ) → e.slot ≢ id → with_heard e heard id ≡ heard id
  with_heard_ne id h = ground (arith, h)

  forget_heard :
      (o : Option Event) (id : ℕ) (s : Slot) (low : ℕ)
      → Chain id s.revision s.latest low (heard_list o ++ e ∷ flow)
      → Chain id s.revision s.latest low (e ∷ flow)
  forget_heard none id s low h = h
  forget_heard (some old) id s low h = Chain-tail id s.revision s.latest low old (e ∷ flow) h

  Tracked-accept :
      (id : ℕ) (s : Slot) → Tracked heard (e ∷ flow) id s → Tracked (with_heard e heard) flow id s
  Tracked-accept id s v = record {
    chain = elim (ℕ_discrete e.slot id) [
      | yes same ↦
          subst (λ o. Chain id s.revision s.latest s.delivered (heard_list o ++ flow))
            (sym (with_heard_self id same)) (forget_heard (heard id) id s s.delivered v.chain)
      | no other ↦
          subst (λ o. Chain id s.revision s.latest s.delivered (heard_list o ++ flow))
            (sym (with_heard_ne id other))
            (Chain-drop id s.revision s.latest s.delivered (heard_list (heard id)) e flow v.chain)
    ];
    first = λ h. elim (ℕ_discrete e.slot id) [
      | yes same ↦ absurd (cc (h, with_heard_self id same))
      | no other ↦ v.first (sym (with_heard_ne id other) ∙ h)
    ];
    counted = v.counted;
  }

  -- Redis has accepted the first event of the flow.
  pub Tracks-accept :
      {slots : List Slot} {next : ℕ}
      → Tracks slots next heard (e ∷ flow)
      → Tracks slots next (with_heard e heard) flow
  Tracks-accept v = record {
    each = λ id s h. Tracked-accept id s (v.each id s h);
    ids = v.ids;
    unheard = λ id h. with_heard_ne id (λ k. omega (arith, h, k, v.known.0)) ∙ v.unheard id h;
    owned = λ id f h. elim (ℕ_discrete e.slot id) [
      | yes same ↦ ground (arith, h, same)
      | no other ↦ v.owned id f (sym (with_heard_ne id other) ∙ h)
    ];
    known = v.known.1;
  }

  -- The slot of an accepted event, with its revision noted.
  pub Tracked-note :
      (s : Slot) (low : ℕ)
      → Tracked (with_heard e heard) flow e.slot s
      → Tracked (with_heard e heard) flow e.slot (record s {
        delivered = max s.delivered e.revision;
        delivered_epoch = low;
        force = false;
      })
  Tracked-note s low v = record {
    chain =
        subst
          (λ o.
            Chain e.slot s.revision s.latest (max s.delivered e.revision) (heard_list o ++ flow))
          (sym (with_heard_self e.slot refl))
          (Chain-reach e.slot s.revision s.latest s.delivered e flow refl (
            subst (λ o. Chain e.slot s.revision s.latest s.delivered (heard_list o ++ flow))
              (with_heard_self e.slot refl) v.chain));
    first = λ h. absurd (cc (h, with_heard_self e.slot refl));
    counted = v.counted;
  }

All-first : (P : Event → Type 0) (xs ys : List Event) → All P (xs ++ ys) → All P xs
All-first P [] ys h = tt
All-first P (x ∷ xs) ys h = (h.0, All-first P xs ys h.1)

-- The queue is given up, and what is on its way stays.
pub Tracks-first :
    {slots : List Slot} {next : ℕ} {heard : ℕ → Option Event} (front queue : List Event)
    → Tracks slots next heard (front ++ queue)
    → Tracks slots next heard (front ++ [])
Tracks-first {slots} {next} {heard} front queue v =
    subst (Tracks slots next heard) (sym (append-nil front)) (record {
      each = λ id s h. record {
        chain =
            Chain-first id s.revision s.latest s.delivered (heard_list (heard id) ++ front) queue (
              subst (Chain id s.revision s.latest s.delivered)
                (sym (append_assoc (heard_list (heard id)) front queue)) (v.each id s h).chain);
        first = (v.each id s h).first;
        counted = (v.each id s h).counted;
      };
      ids = v.ids;
      unheard = v.unheard;
      owned = v.owned;
      known = All-first _ front queue v.known;
    })
