-- ===== src/AlarmPublisher/Tracks.antt =====
-- What the slots of src/alarm_worker.cpp have to do with the events that are on their way.
pub mod Flow
use redis_pvxs_ioc.Prelude.{
  ℕ, zero, suc, ◌+◌, ◌≤◌, ◌<◌, ◌≡◌, ◌≢◌, refl, sym, ap, ◌∙◌, Bool, true, false, Option, none, some,
  List, [], ◌∷◌, ◌++◌, ◌==◌, if◌then◌else◌, All, arith, if_cases,
}
use mathlib.Core.Path.{subst}
use mathlib.Core.List.{append_assoc, append-nil}
use native.Mathlib.Decide.{ℕ_discrete}
use redis_pvxs_ioc.AlarmPublisher.{StoredState}
use redis_pvxs_ioc.AlarmPublisher.Slots.{Slot, Event, find_slot, put_slot, erase_slot}
use redis_pvxs_ioc.AlarmPublisher.Story.{
  Chain, Chain-le, Chain-lower, Chain-drop, Chain-first, Chain-append, Chain-absent, Chain-grow,
}
use redis_pvxs_ioc.AlarmPublisher.Ids.{
  Between, find_slot-id, find_slot-Between, Between-put, Between-erase, Between-add,
  find_slot-put_self, find_slot-put_ne, find_slot-erase_self, find_slot-erase_ne, find_slot-add_ne,
  find_slot-add_self, Between-found,
}

-- The last event of a slot that Redis has, and then those on their way.
abbrev pub heard_list : Option Event → List Event
heard_list none = []
heard_list (some e) = e ∷ []

abbrev pub story : (ℕ → Option Event) → List Event → ℕ → List Event
story heard flow id = heard_list (heard id) ++ flow

-- What holds of the slot that an id finds.
pub record Tracked (heard : ℕ → Option Event) (flow : List Event) (id : ℕ) (s : Slot) : Type 0 where
  pub chain : Chain id s.revision s.latest s.delivered (story heard flow id)
  pub first : heard id ≡ none → s.delivered ≡ 0
  pub counted : 1 ≤ s.revision

pub record Tracks (slots : List Slot) (next : ℕ) (heard : ℕ → Option Event) (flow : List Event)
    : Type 0 where
  pub each : (id : ℕ) (s : Slot) → find_slot id slots ≡ some s → Tracked heard flow id s
  pub ids : Between 0 next slots
  pub unheard : (id : ℕ) → next < id → heard id ≡ none
  pub owned : (id : ℕ) (e : Event) → heard id ≡ some e → e.slot ≡ id
  pub known : All (λ e. e.slot ≤ next) flow

-- Another slot in the place of one.
pub Tracks-put :
    {slots : List Slot} {next : ℕ} {heard : ℕ → Option Event} {flow : List Event} (s t : Slot)
    → Tracks slots next heard flow
    → find_slot s.id slots ≡ some t
    → Tracked heard flow s.id s
    → Tracks (put_slot s slots) next heard flow
Tracks-put {slots} {next} {heard} {flow} s t v found fits = record {
  each = λ id u h. elim (ℕ_discrete id s.id) [
    | yes e ↦
        let same : u ≡ s = cc (h, find_slot-put_self s t slots found, e) in
        subst (λ w. Tracked heard flow id w) (sym same)
          (subst (λ i. Tracked heard flow i s) (sym e) fits)
    | no e ↦ v.each id u (sym (find_slot-put_ne id s slots e) ∙ h)
  ];
  ids = Between-put 0 next s slots v.ids;
  unheard = v.unheard;
  owned = v.owned;
  known = v.known;
}

pub Tracks-erase :
    {slots : List Slot} {next : ℕ} {heard : ℕ → Option Event} {flow : List Event} (id : ℕ)
    → Tracks slots next heard flow
    → Tracks (erase_slot id slots) next heard flow
Tracks-erase {slots} {next} id v = record {
  each = λ i u h. elim (ℕ_discrete i id) [
    | yes e ↦ absurd (cc (h, find_slot-erase_self id slots, e))
    | no e ↦ v.each i u (sym (find_slot-erase_ne i id slots e) ∙ h)
  ];
  ids = Between-erase 0 next id slots v.ids;
  unheard = v.unheard;
  owned = v.owned;
  known = v.known;
}

pub All-map :
    {A : Type 0} (P Q : A → Type 0) (xs : List A) → ((x : A) → P x → Q x) → All P xs → All Q xs
All-map P Q [] f p = tt
All-map P Q (x ∷ xs) f p = (f x p.0, All-map P Q xs f p.1)

-- A new slot, of which nothing was sent.
pub Tracks-add :
    {slots : List Slot} {next : ℕ} {heard : ℕ → Option Event} {flow : List Event} (s : Slot)
    → Tracks slots next heard flow
    → next < s.id
    → s.delivered ≡ 0
    → 1 ≤ s.revision
    → Tracks (slots ++ s ∷ []) s.id heard flow
Tracks-add {slots} {next} {heard} {flow} s v new none_yet counted = record {
  each = λ id u h. elim (ℕ_discrete id s.id) [
    | yes e ↦
        let same : u ≡ s = cc (h, find_slot-add_self s 0 next slots v.ids new, e) in
        subst (λ w. Tracked heard flow id w) (sym same)
          (subst (λ i. Tracked heard flow i s) (sym e) fresh)
    | no e ↦ v.each id u (sym (find_slot-add_ne id s slots e) ∙ h)
  ];
  ids = Between-add 0 next s slots new v.ids;
  unheard = λ id h. v.unheard id (omega (arith, h, new));
  owned = v.owned;
  known = All-map _ _ flow (λ e k. omega (arith, k, new)) v.known;
}
  where
    fresh : Tracked heard flow s.id s
    fresh = record {
      chain =
          subst (λ o. Chain s.id s.revision s.latest s.delivered (heard_list o ++ flow))
            (sym (v.unheard s.id new))
            (Chain-absent s.id s.revision s.latest s.delivered flow (omega (arith, none_yet))
              (All-map _ _ flow (λ e k h. omega (arith, k, h, new)) v.known));
      first = λ h. none_yet;
      counted = counted;
    }
