-- ===== src/AlarmPublisher/Threads.antt =====
-- The constructor and the calls of a registration in src/alarm_worker.cpp, each under `mutex`. Times are
-- arguments.
use redis_pvxs_ioc.Prelude.{
  ℕ, ◌+◌, ◌-◌, ◌*◌, ◌/◌, String, Bool, true, false, not, ◌&&◌, ◌||◌, Option, none, some, List, [],
  ◌∷◌, ◌++◌, ◌==◌, ltb, if◌then◌else◌, length, add64, word,
}
use redis_pvxs_ioc.Prelude.Int.{ℤ}
use redis_pvxs_ioc.Prelude.Results.{Result, ok, err, ◌>>=◌, ◌>>◌, fail_if}
use redis_pvxs_ioc.Config.Defaults.{alarm_queue_entry_bytes}
use redis_pvxs_ioc.ConfigParser.Text.{size}
use redis_pvxs_ioc.AlarmPublisher.{
  StoredState, encode, Budget, BudgetError, new_budget, acquire, release,
}
use redis_pvxs_ioc.AlarmPublisher.Ring.{new_ring, push}
use redis_pvxs_ioc.AlarmPublisher.Slots.{
  Slot, Event, no_error, Counters, AlarmPublisherOptions, AlarmPublisher, same_state, find_slot,
  put_slot, erase_slot, erase_id, set_name, current, discard_queue,
}

pub data PublisherError : Type 0 where
  bad_options name_too_large publisher_stopped : PublisherError
  budget_error : BudgetError → PublisherError

unfoldable pub from_budget : {A : Type 0} → Result BudgetError A → Result PublisherError A
from_budget (ok a) = ok a
from_budget (err e) = err (budget_error e)

abbrev pub no_counters : Counters
no_counters = record {
  last_error = no_error;
  sent = 0;
  transport_failures = 0;
  rejected = 0;
  reconciled = 0;
  coalesced_updates = 0;
  discarded_transitions = 0;
  messages_truncated = 0;
}

abbrev pub fresh_publisher : AlarmPublisherOptions → Budget → AlarmPublisher
fresh_publisher options budget = record {
  options = options;
  budget = budget;
  ring = new_ring options.queue_entries;
  slots = [];
  names = λ _. [];
  next_id = 0;
  last_id = 0;
  epoch = 1;
  enabled = false;
  stopping = false;
  recovering = true;
  live = false;
  counters = no_counters;
}

-- Impl(options)
unfoldable pub create_publisher : AlarmPublisherOptions → Result PublisherError AlarmPublisher
unfolding from_budget acquire new_ring
create_publisher options = do
  fail_if
      (options.queue_entries == 0
        || (options.io_timeout_ms == 0
            || (options.retry_ms == 0
                || (options.heartbeat_ms == 0
                    || ltb (options.state_bytes / alarm_queue_entry_bytes) options.queue_entries))))
      bad_options
  budget ←
      from_budget
        (acquire (options.queue_entries * alarm_queue_entry_bytes) (new_budget options.state_bytes))
  ok (fresh_publisher options budget)

unfoldable pub count_truncated : Bool → AlarmPublisher → AlarmPublisher
count_truncated truncated p =
    if truncated
    then record p {
      counters = record p.counters { messages_truncated = add64 p.counters.messages_truncated 1 };
    }
    else p

-- What `update` does for a slot that is current while the publisher is enabled.
unfoldable pub enqueue : Event → AlarmPublisher → AlarmPublisher
unfolding push discard_queue
enqueue event p =
    if p.live && (not p.recovering && ltb p.ring.count (length p.ring.cells))
    then record p { ring = push event p.ring }
    else overflow (record p {
      counters = record p.counters { coalesced_updates = add64 p.counters.coalesced_updates 1 };
    })
  where
    overflow : AlarmPublisher → AlarmPublisher
    overflow q =
        if q.ring.count == length q.ring.cells
        then record (discard_queue q) { epoch = add64 q.epoch 1; recovering = true }
        else q

abbrev pub event_of : ℕ → Slot → Event
event_of now s = record { slot = s.id; state = s.latest; revision = s.revision; timestamp = now }

unfoldable pub enqueue_current : ℕ → Slot → AlarmPublisher → AlarmPublisher
unfolding enqueue current
enqueue_current now s p = if p.enabled && current p s then enqueue (event_of now s) p else p

abbrev pub with_latest : StoredState → Slot → Slot
with_latest encoded s = record s { latest = encoded; revision = add64 s.revision 1 }

unfoldable pub update_found : ℕ → StoredState → Bool → Option Slot → AlarmPublisher → AlarmPublisher
unfolding same_state put_slot count_truncated enqueue_current
update_found now encoded truncated none p = p
update_found now encoded truncated (some s) p =
    if p.stopping || (s.retired || same_state s.latest encoded)
    then p
    else enqueue_current now (with_latest encoded s)
        (count_truncated truncated (record p { slots = put_slot (with_latest encoded s) p.slots }))

-- update(slot, state)
unfoldable pub update : ℕ → ℤ → ℤ → List ℕ → ℕ → AlarmPublisher → AlarmPublisher
unfolding encode find_slot update_found
update id severity status message now p =
    let (encoded, truncated) = encode severity status message in
    update_found now encoded truncated (find_slot id p.slots) p

abbrev pub new_slot : String → ℕ → StoredState → Slot
new_slot name id latest = record {
  name = name;
  id = id;
  revision = 1;
  delivered = 0;
  delivered_epoch = 0;
  active = false;
  retired = false;
  force = true;
  latest = latest;
}

unfoldable pub add_slot : Slot → AlarmPublisher → AlarmPublisher
add_slot s p = record p {
  next_id = s.id;
  slots = p.slots ++ s ∷ [];
  names = set_name s.name (p.names s.name ++ s.id ∷ []) p.names;
}

unfoldable pub reserved_for : String → ℕ
unfolding size
reserved_for name = 1024 + 2 * size name

-- prepare(name, state): the publisher, and the slot's id. What throws gives back what it has reserved.
unfoldable pub prepare :
    String → ℤ → ℤ → List ℕ → AlarmPublisher → Result PublisherError (AlarmPublisher × ℕ)
unfolding from_budget acquire encode count_truncated add_slot size reserved_for
prepare name severity status message p = do
  fail_if (ltb ((word - 1 - 1024) / 2) (size name)) name_too_large
  budget ← from_budget (acquire (reserved_for name) p.budget)
  let (encoded, truncated) = encode severity status message
  fail_if p.stopping publisher_stopped
  let id = add64 p.next_id 1
  ok (
    count_truncated truncated (add_slot (new_slot name id encoded) (record p { budget = budget })),
    id,
  )

unfoldable pub change_found : (Slot → Slot) → Option Slot → AlarmPublisher → AlarmPublisher
change_found f none p = p
change_found f (some s) p = record p { slots = put_slot (f s) p.slots }

abbrev pub activated : Slot → Slot
activated s = if not s.retired && not s.active then record s { active = true; force = true } else s

abbrev pub retired_slot : Slot → Slot
retired_slot s = record s { active = false; retired = true }

-- Registration::activate, Registration::retire
unfoldable pub activate : ℕ → AlarmPublisher → AlarmPublisher
unfolding change_found find_slot put_slot
activate id p = change_found activated (find_slot id p.slots) p

unfoldable pub retire : ℕ → AlarmPublisher → AlarmPublisher
unfolding change_found find_slot put_slot
retire id p = change_found retired_slot (find_slot id p.slots) p

-- The reservation stays until the slot is destroyed.
unfoldable pub remove_found : Option Slot → AlarmPublisher → AlarmPublisher
remove_found none p = p
remove_found (some s) p = record p {
  slots = erase_slot s.id p.slots;
  names = set_name s.name (erase_id s.id (p.names s.name)) p.names;
}

-- remove(slot)
unfoldable pub remove : ℕ → AlarmPublisher → AlarmPublisher
unfolding remove_found find_slot erase_slot erase_id
remove id p = remove_found (find_slot id p.slots) p

-- ~Reservation, with the slot of a name that was removed
unfoldable pub free_reservation : String → AlarmPublisher → AlarmPublisher
unfolding release reserved_for
free_reservation name p = record p { budget = release (reserved_for name) p.budget }

-- AlarmPublisher::activate and the first section of `stop`
unfoldable pub enable : AlarmPublisher → AlarmPublisher
enable p = record p { enabled = true }

unfoldable pub stop : AlarmPublisher → AlarmPublisher
stop p = record p { stopping = true }
