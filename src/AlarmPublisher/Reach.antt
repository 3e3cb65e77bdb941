-- ===== src/AlarmPublisher/Reach.antt =====
-- The histories of the alarm publisher of src/alarm_worker.cpp: its critical sections in any order.
use redis_pvxs_ioc.Prelude.{
  ℕ, ◌+◌, ◌<◌, ◌≡◌, String, Bool, true, false, Option, none, some, List, [], ◌∷◌, ◌++◌, ◌==◌,
  if◌then◌else◌, word,
}
use redis_pvxs_ioc.Prelude.Int.{ℤ}
use redis_pvxs_ioc.Prelude.Results.{ok}
use redis_pvxs_ioc.AlarmPublisher.Slots.{Slot, Event, AlarmPublisher, find_slot}
use redis_pvxs_ioc.AlarmPublisher.Threads.{
  update, prepare, activate, retire, remove, free_reservation, enable, stop,
}
use redis_pvxs_ioc.AlarmPublisher.Worker.{
  Round, waits, sends, SendResult, accepted, begin_round, end_round,
}

-- The publisher, what the worker is sending and since which epoch, of each slot the last event that Redis
-- has accepted, and the slots that have been removed and not been destroyed yet.
pub record World : Type 0 where
  pub publisher : AlarmPublisher
  pub flight : Round
  pub epoch : ℕ
  pub heard : ℕ → Option Event
  pub departed : List (ℕ × String)

-- What Redis has of each slot after the worker's command.
unfoldable pub hear : SendResult → Round → (ℕ → Option Event) → ℕ → Option Event
hear accepted (sends event reconciliation) heard id =
    if event.slot == id then some event else heard id
hear _ _ heard id = heard id

abbrev pub is_busy : Round → Bool
is_busy waits = false
is_busy _ = true

unfoldable pub departing : Option Slot → List (ℕ × String)
departing none = []
departing (some s) = (s.id, s.name) ∷ []

-- Whether the worker has a pointer to the slot.
unfoldable pub holds : Round → ℕ → Bool
holds (sends event reconciliation) id = event.slot == id
holds _ id = false

-- Ids and revisions are not used up: there are 2 ^ 64 of them.
pub data Step (w : World) : World → Type 0 where
  updates :
      (id : ℕ) (severity status : ℤ) (message : List ℕ) (now : ℕ)
      → ((s : Slot) → find_slot id w.publisher.slots ≡ some s → s.revision + 1 < word)
      → Step w (record w { publisher = update id severity status message now w.publisher })
  prepares :
      (name : String) (severity status : ℤ) (message : List ℕ) {p : AlarmPublisher} {id : ℕ}
      → w.publisher.next_id + 1 < word
      → prepare name severity status message w.publisher ≡ ok (p, id)
      → Step w (record w { publisher = p })
  activates : (id : ℕ) → Step w (record w { publisher = activate id w.publisher })
  retires : (id : ℕ) → Step w (record w { publisher = retire id w.publisher })
  removes :
      (id : ℕ)
      → Step w (record w {
        publisher = remove id w.publisher;
        departed = departing (find_slot id w.publisher.slots) ++ w.departed;
      })
  frees :
      (id : ℕ) (name : String) (before after : List (ℕ × String))
      → w.departed ≡ before ++ (id, name) ∷ after
      → holds w.flight id ≡ false
      → Step w
          (record w { publisher = free_reservation name w.publisher; departed = before ++ after })
  enables : Step w (record w { publisher = enable w.publisher })
  stops : Step w (record w { publisher = stop w.publisher })
  begins :
      (now retry_at heartbeat : ℕ)
      → w.flight ≡ waits
      → Step w (record w {
        publisher = (begin_round now retry_at heartbeat w.publisher).0;
        flight = (begin_round now retry_at heartbeat w.publisher).1;
        epoch = (begin_round now retry_at heartbeat w.publisher).0.epoch;
      })
  ends :
      (result : SendResult)
      → is_busy w.flight ≡ true
      → Step w (record w {
        publisher = end_round result w.epoch w.flight w.publisher;
        flight = waits;
        heard = hear result w.flight w.heard;
      })

pub data Reach (w : World) : World → Type 0 where
  here : Reach w w
  next : {a b : World} → Reach w a → Step a b → Reach w b

abbrev pub begin_world : AlarmPublisher → World
begin_world p = record {
  publisher = p;
  flight = waits;
  epoch = 0;
  heard = λ _. none;
  departed = [];
}
