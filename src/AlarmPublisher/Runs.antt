-- ===== src/AlarmPublisher/Runs.antt =====
-- Runs of the alarm publisher of src/alarm_worker.cpp, and the theorems on its histories at them.
use redis_pvxs_ioc.Prelude.{
  ℕ, ◌+◌, ◌≡◌, refl, true, false, Option, none, some, List, [], ◌∷◌, arith, add64, if◌then◌else◌,
}
use redis_pvxs_ioc.Prelude.Int.{pos}
use redis_pvxs_ioc.Prelude.Bytes.{Bytes, bytes, same_bytes}
use redis_pvxs_ioc.AlarmPublisher.Sending.{
  Epics, Reply, string_reply, status_reply, Hiredis, Target, Connection, reset, freed, if_accepted,
  is_usable, after_timeout, after_connect, open_context, command, after_auth, auth_args,
  authenticate, connect, judge, same_reply, xadd_args, send, ping, is_empty, timeval,
  make_alarm_stream_fields, name_in,
}
use redis_pvxs_ioc.AlarmPublisher.Sending.Outcomes.{Outcome, send-Outcome}
use redis_pvxs_ioc.Prelude.Results.{ok}
use redis_pvxs_ioc.ConfigParser.Text.{size}
use redis_pvxs_ioc.AlarmPublisher.{StoredState, Budget, encode, acquire}
use redis_pvxs_ioc.AlarmPublisher.Ring.{new_ring, push, drop_head, peek, drop_all, cells_of}
use redis_pvxs_ioc.AlarmPublisher.Ring.Histories.{
  Use, puts, takes, gives_up, run_ring, use_ring, run_queue, run_ring-run_queue,
}
use redis_pvxs_ioc.AlarmPublisher.Slots.{
  AlarmPublisherOptions, Slot, Event, AlarmPublisher, find_slot, current, pending, last_serving,
  same_int, set_name, is_serving, serves, put_slot,
}
use redis_pvxs_ioc.AlarmPublisher.Threads.{
  fresh_publisher, create_publisher, new_slot, event_of, prepare, reserved_for, count_truncated,
  add_slot, activate, enable, from_budget, change_found, no_counters,
}
use redis_pvxs_ioc.AlarmPublisher.Worker.{
  waits, sends, accepted, event_current, next_event, choose, reconcile, first_pending, above, up_to,
  note_accepted, note_delivered, idle_round, has_current, begin_round, end_round, state_of,
  count_current, count_pending, status,
}
use redis_pvxs_ioc.AlarmPublisher.Reach.{
  World, prepares, activates, enables, begins, ends, Reach, here, next, begin_world, hear,
}
use redis_pvxs_ioc.AlarmPublisher.Delivered.{heard_state, pending-heard_state, status-heard_state}
use redis_pvxs_ioc.AlarmPublisher.Progress.{sent, begin_round-sends}

abbrev options : AlarmPublisherOptions
options = record {
  state_bytes = 9000;
  queue_entries = 2;
  io_timeout_ms = 500;
  retry_ms = 1000;
  heartbeat_ms = 1000;
}

abbrev budget : ℕ → Budget
budget used = record { limit = 9000; used = used; peak = used }

abbrev empty : AlarmPublisher
empty = fresh_publisher options (budget 2048)

created : create_publisher options ≡ ok empty
unfolding create_publisher from_budget acquire add64
created = refl

abbrev minor : StoredState
minor = record { severity = pos 1; status = pos 4; message = 104 ∷ 105 ∷ [] }

abbrev prepared : AlarmPublisher
prepared = record empty {
  budget = budget 3074;
  slots = new_slot "a" 1 minor ∷ [];
  names = set_name "a" (1 ∷ []) (λ _. []);
  next_id = 1;
}

prepared_lem : prepare "a" (pos 1) (pos 4) (104 ∷ 105 ∷ []) empty ≡ ok (prepared, 1)
unfolding prepare acquire encode from_budget reserved_for size count_truncated add_slot add64
prepared_lem = refl

abbrev serving : AlarmPublisher
serving = record prepared {
  slots = record (new_slot "a" 1 minor) { active = true } ∷ [];
  enabled = true;
}

abbrev due : World
due = record (begin_world empty) { publisher = serving }

-- A slot is prepared and activated, and then the publisher is.
to_due : Reach (begin_world empty) due
unfolding activate change_found find_slot put_slot enable
to_due =
    next
      (next (next here (prepares "a" (pos 1) (pos 4) (104 ∷ 105 ∷ []) (omega arith) prepared_lem))
        (activates 1))
      enables

abbrev flying_slot : Event
flying_slot = event_of 7 (record (new_slot "a" 1 minor) { active = true })

abbrev sending : World
sending = record due {
  publisher = record serving { last_id = 1 };
  flight = sends flying_slot true;
  epoch = 1;
}

abbrev delivered_slot : Slot
delivered_slot = record (new_slot "a" 1 minor) {
  active = true;
  delivered = 1;
  delivered_epoch = 1;
  force = false;
}

abbrev delivered : World
delivered = record sending {
  publisher = record serving {
    last_id = 1;
    live = true;
    slots = delivered_slot ∷ [];
    counters = record no_counters { sent = 1; reconciled = 1 };
  };
  flight = waits;
  heard = hear accepted (sends flying_slot true) (λ _. none);
}

-- The round after it finds nothing to send, and the worker has recovered.
abbrev settled : World
settled = record delivered { publisher = record delivered.publisher { recovering = false } }

to_sending : Reach (begin_world empty) sending
unfolding begin_round next_event choose reconcile first_pending above up_to current pending
    is_serving last_serving serves find_slot new_ring
to_sending = next to_due (begins 7 0 0 refl)

to_delivered : Reach (begin_world empty) delivered
unfolding end_round note_accepted note_delivered find_slot put_slot current is_serving last_serving
    serves add64
to_delivered = next to_sending (ends accepted refl)

to_settled : Reach (begin_world empty) settled
unfolding begin_round next_event choose reconcile idle_round has_current first_pending above up_to
    current pending is_serving last_serving serves find_slot new_ring
to_settled = next to_delivered (begins 8 0 100 refl)

pending-heard_state_example : heard_state (delivered.heard 1) ≡ some minor
unfolding find_slot pending
pending-heard_state_example =
    pending-heard_state options empty delivered 1 delivered_slot created to_delivered refl refl

status-heard_state_example : heard_state (settled.heard 1) ≡ some minor
unfolding find_slot current is_serving last_serving serves status state_of count_current
    count_pending pending new_ring
status-heard_state_example =
    status-heard_state options empty settled 1 delivered_slot created to_settled refl refl refl

begin_round-sends_example :
    (e : Event) × (sent (begin_round 7 0 0 serving).1 ≡ some e)
    × (event_current e (begin_round 7 0 0 serving).0 ≡ true)
unfolding find_slot current is_serving last_serving serves pending
begin_round-sends_example =
    begin_round-sends options empty due 7 0 0 1 (record (new_slot "a" 1 minor) { active = true })
      created to_due refl refl (omega arith) refl refl refl

-- The third finds no room, and what is left is given up.
abbrev uses : List (Use ℕ)
uses = puts 10 ∷ puts 11 ∷ puts 12 ∷ takes ∷ puts 13 ∷ takes ∷ gives_up ∷ takes ∷ []

run_ring-run_queue_example : run_ring uses (new_ring 2) ≡ run_queue 2 uses []
run_ring-run_queue_example = run_ring-run_queue 2 uses (omega arith)

run_ring_outputs :
    run_ring uses (new_ring 2) ≡ none ∷ none ∷ none ∷ some 10 ∷ none ∷ some 11 ∷ none ∷ none ∷ []
unfolding run_ring use_ring push drop_head peek drop_all new_ring cells_of
run_ring_outputs = refl

-- A server that answers all commands, and a world that counts them.
abbrev answer : List Bytes → Option Reply
answer (name ∷ args) = some (if same_bytes name (bytes "PING") then status_reply else string_reply)
answer [] = none

abbrev server : Hiredis
server = record {
  World = ℕ;
  Context = ℕ;
  has_error = λ x w. false;
  connect_with_timeout = λ host port timeout w. (w, some 5);
  set_timeout = λ x timeout w. (w, true);
  free = λ x w. w;
  command_argv = λ x args w. (w + 1, answer args);
}

abbrev epics : Epics
epics = record {
  condition_strings = bytes "NO_ALARM" ∷ bytes "READ" ∷ [];
  severity_strings = bytes "NO_ALARM" ∷ bytes "MINOR" ∷ bytes "MAJOR" ∷ bytes "INVALID" ∷ [];
  alarm_none = pos 0;
  sev_none = pos 0;
  sev_invalid = 3;
  to_string = λ n. b'7' ∷ [];
}

abbrev target : Target
target = record {
  host = bytes "localhost";
  port = 6379;
  stream = bytes "alarms";
  user = [];
  password = bytes "secret";
  io_timeout_ms = 1500;
}

abbrev unconnected : Connection server
unconnected = record { context = none; authenticated = false; world = 0 }

-- AUTH and XADD
sends_two :
    send server epics target (bytes "a") flying_slot unconnected
    ≡ (record { context = some 5; authenticated = true; world = 2 }, accepted)
unfolding send connect open_context is_usable reset freed after_connect after_timeout timeval
    if_accepted authenticate is_empty command auth_args after_auth judge same_reply same_bytes
sends_two = refl

fields_of_minor :
    make_alarm_stream_fields epics (bytes "a") minor 7
    ≡ (bytes "device", bytes "a")
      ∷ (bytes "source", bytes "INVALID")
      ∷ (bytes "severity", bytes "MINOR")
      ∷ (bytes "timestamp", bytes "7")
      ∷ (bytes "detail", bytes "INVALID")
      ∷ (bytes "message", bytes "hi")
      ∷ []
unfolding make_alarm_stream_fields name_in is_empty same_int
fields_of_minor = refl

send-Outcome_example :
    Outcome server target
      (xadd_args server epics target (bytes "a") flying_slot)
      string_reply
      (send server epics target (bytes "a") flying_slot unconnected)
    × Outcome server target (bytes "PING" ∷ []) status_reply (ping server target unconnected)
send-Outcome_example = send-Outcome server epics target (bytes "a") flying_slot unconnected
