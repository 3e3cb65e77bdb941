-- ===== src/AlarmPublisher/Slots.antt =====
-- The state of the alarm publisher in src/alarm_worker.cpp, `Slot` and `Impl`. A slot is found by its id,
-- also where the source has a weak pointer: one that is removed is not found, and was retired, so that
-- it was not current before either. `names` has the ids of a name in their order.
use redis_pvxs_ioc.Prelude.{
  ℕ, String, Bool, false, not, ◌&&◌, ◌||◌, Option, none, some, List, [], ◌∷◌, ◌==◌, ltb,
  if◌then◌else◌, str_eq, add64,
}
use redis_pvxs_ioc.Prelude.Int.{ℤ, pos, negsuc}
use redis_pvxs_ioc.Prelude.Bytes.{same_bytes}
use redis_pvxs_ioc.AlarmPublisher.{StoredState, Budget}
use redis_pvxs_ioc.AlarmPublisher.Ring.{Ring, drop_all}

pub record Slot : Type 0 where
  pub name : String
  pub id : ℕ
  pub revision : ℕ
  pub delivered : ℕ
  pub delivered_epoch : ℕ
  pub active : Bool
  pub retired : Bool
  pub force : Bool
  pub latest : StoredState

pub record Event : Type 0 where
  pub slot : ℕ
  pub state : StoredState
  pub revision : ℕ
  pub timestamp : ℕ

-- `lastError`
pub data DeliveryError : Type 0 where
  no_error delivery_rejected transport_unavailable : DeliveryError

pub record Counters : Type 0 where
  pub last_error : DeliveryError
  pub sent : ℕ
  pub transport_failures : ℕ
  pub rejected : ℕ
  pub reconciled : ℕ
  pub coalesced_updates : ℕ
  pub discarded_transitions : ℕ
  pub messages_truncated : ℕ

pub record AlarmPublisherOptions : Type 0 where
  pub state_bytes : ℕ
  pub queue_entries : ℕ
  pub io_timeout_ms : ℕ
  pub retry_ms : ℕ
  pub heartbeat_ms : ℕ

pub record AlarmPublisher : Type 0 where
  pub options : AlarmPublisherOptions
  pub budget : Budget
  pub ring : Ring Event
  pub slots : List Slot
  pub names : String → List ℕ
  pub next_id : ℕ
  pub last_id : ℕ
  pub epoch : ℕ
  pub enabled : Bool
  pub stopping : Bool
  pub recovering : Bool
  pub live : Bool
  pub counters : Counters

unfoldable pub same_int : ℤ → ℤ → Bool
same_int (pos m) (pos n) = m == n
same_int (negsuc m) (negsuc n) = m == n
same_int _ _ = false

-- StoredState::operator==
unfoldable pub same_state : StoredState → StoredState → Bool
unfolding same_int
same_state a b =
    same_int a.severity b.severity && (same_int a.status b.status && same_bytes a.message b.message)

-- slots.find(id), or the lock of a weak pointer
unfoldable pub find_slot : ℕ → List Slot → Option Slot
find_slot id [] = none
find_slot id (s ∷ slots) = if s.id == id then some s else find_slot id slots

-- A write through a pointer to the slot with that id.
unfoldable pub put_slot : Slot → List Slot → List Slot
put_slot slot [] = []
put_slot slot (s ∷ slots) = if s.id == slot.id then slot ∷ slots else s ∷ put_slot slot slots

-- slots.erase(id)
unfoldable pub erase_slot : ℕ → List Slot → List Slot
erase_slot id [] = []
erase_slot id (s ∷ slots) = let rest = erase_slot id slots in if s.id == id then rest else s ∷ rest

unfoldable pub erase_id : ℕ → List ℕ → List ℕ
erase_id id [] = []
erase_id id (i ∷ ids) = let rest = erase_id id ids in if i == id then rest else i ∷ rest

-- names[name] = ids, and names.erase(name) where there are none
abbrev pub set_name : String → List ℕ → (String → List ℕ) → String → List ℕ
set_name name ids names n = if str_eq name n then ids else names n

unfoldable pub is_serving : Slot → Bool
is_serving s = s.active && not s.retired

unfoldable pub serves : Option Slot → Bool
unfolding is_serving
serves none = false
serves (some s) = is_serving s

-- The loop of `current`, from the greatest id down.
unfoldable pub last_serving : List Slot → List ℕ → Option ℕ
unfolding serves
last_serving slots [] = none
last_serving slots (id ∷ ids) =
    or_else (last_serving slots ids) (if serves (find_slot id slots) then some id else none)
  where
    or_else : Option ℕ → Option ℕ → Option ℕ
    or_else (some found) other = some found
    or_else none other = other

is_id : ℕ → Option ℕ → Bool
is_id id none = false
is_id id (some other) = other == id

unfoldable pub current : AlarmPublisher → Slot → Bool
unfolding is_serving last_serving is_id
current p s = is_serving s && is_id s.id (last_serving p.slots (p.names s.name))

unfoldable pub pending : AlarmPublisher → Slot → Bool
pending p s = s.force || (not (s.delivered_epoch == p.epoch) || ltb s.delivered s.revision)

unfoldable pub discard_queue : AlarmPublisher → AlarmPublisher
discard_queue p = record p {
  counters = record p.counters {
    discarded_transitions = add64 p.counters.discarded_transitions p.ring.count;
  };
  ring = drop_all p.ring.count p.ring;
}
