-- ===== src/AlarmPublisher.antt =====
-- The bounded parts of the alarm publisher, `StoredState` and `Budget` of src/alarm_worker.cpp. Of the
-- array `message` the model has the first `length` bytes, which are all that is read.
pub mod Encoding
pub mod Budgets
pub mod Ring
pub mod Slots
pub mod Threads
pub mod Worker
pub mod Reach
pub mod Story
pub mod Ids
pub mod Tracks
pub mod Consistent
pub mod Delivered
pub mod Progress
pub mod Sending
mod Runs
mod Tests
use redis_pvxs_ioc.Prelude.{
  ℕ, zero, suc, ◌+◌, ◌-◌, ◌/◌, ◌%◌, Bool, true, false, ◌||◌, Option, none, some, List, [], ◌∷◌,
  ◌++◌, ◌==◌, ltb, if◌then◌else◌, length, get_elem?, take, add64, sub64,
}
use Prim.Native.Nat.{max}
use redis_pvxs_ioc.Prelude.Results.{Result, ok, err}
use redis_pvxs_ioc.Prelude.Int.{ℤ}

pub record StoredState : Type 0 where
  pub severity : ℤ
  pub status : ℤ
  pub message : List ℕ

-- result.message.size()
abbrev pub message_size : ℕ
message_size = 512

abbrev pub dots : List ℕ
dots = b'.' ∷ b'.' ∷ b'.' ∷ []

-- (byte & 0xc0) == 0x80: a byte inside a UTF-8 character
abbrev pub is_continuation : ℕ → Bool
is_continuation byte = byte % 256 / 64 == 2

unfoldable pub continues : Option ℕ → Bool
continues none = false
continues (some byte) = is_continuation byte

-- while (length && continuation at length) --length;
unfoldable pub cut : ℕ → List ℕ → ℕ
unfolding continues
cut zero message = 0
cut (suc n) message =
    let shorter = cut n message in if continues (get_elem? message (suc n)) then shorter else suc n

unfoldable pub shorten : ℕ → List ℕ → List ℕ
unfolding cut
shorten room message = take (cut room message) message ++ dots

-- The stored state, and whether the message has been truncated.
unfoldable pub encode : ℤ → ℤ → List ℕ → StoredState × Bool
unfolding shorten
encode severity status message =
    if ltb message_size (length message)
    then (
      record { severity = severity; status = status; message = shorten (message_size - 3) message },
      true,
    )
    else (record { severity = severity; status = status; message = message }, false)

pub record Budget : Type 0 where
  pub limit : ℕ
  pub used : ℕ
  pub peak : ℕ

abbrev pub new_budget : ℕ → Budget
new_budget bytes = record { limit = bytes; used = 0; peak = 0 }

pub data BudgetError : Type 0 where
  budget_exceeded : BudgetError

-- The compare-and-swap that succeeds, with the raise of `peak` that follows it.
unfoldable pub acquire : ℕ → Budget → Result BudgetError Budget
acquire bytes budget =
    if ltb budget.limit bytes || ltb (budget.limit - bytes) budget.used
    then err budget_exceeded
    else ok (record budget {
      used = add64 budget.used bytes;
      peak = max budget.peak (add64 budget.used bytes);
    })

-- ~Reservation
unfoldable pub release : ℕ → Budget → Budget
release bytes budget = record budget { used = sub64 budget.used bytes }
