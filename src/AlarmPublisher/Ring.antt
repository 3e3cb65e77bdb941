-- ===== src/AlarmPublisher/Ring.antt =====
-- The ring of events in src/alarm_worker.cpp: `ring`, `head` and `count` of `Impl`. A cell whose
-- `slot` has been reset is `none`.
pub mod Fifo
pub mod Histories
use redis_pvxs_ioc.Prelude.{
  ℕ, zero, suc, ◌+◌, ◌-◌, ◌%◌, Option, none, some, List, [], ◌∷◌, length, get_elem?, get_or, set,
}

pub record Ring (A : Type 0) : Type 0 where
  pub cells : List (Option A)
  pub head : ℕ
  pub count : ℕ

module _ {A : Type 0} where
  -- ring.resize(entries)
  unfoldable pub cells_of : ℕ → List (Option A)
  cells_of zero = []
  cells_of (suc n) = none ∷ cells_of n

  unfoldable pub new_ring : ℕ → Ring A
  unfolding cells_of
  new_ring entries = record { cells = cells_of entries; head = 0; count = 0 }

  -- ring[(head + count++) % ring.size()] = event
  unfoldable pub push : A → Ring A → Ring A
  push event r = record r {
    cells = set r.cells ((r.head + r.count) % length r.cells) (some event);
    count = r.count + 1;
  }

  -- ring[head].slot.reset(); head = (head + 1) % ring.size(); --count;
  unfoldable pub drop_head : Ring A → Ring A
  drop_head r = record r {
    cells = set r.cells r.head none;
    head = (r.head + 1) % length r.cells;
    count = r.count - 1;
  }

  unfoldable pub peek : Ring A → Option A
  peek r = get_or r.cells r.head none

  -- The loop of `discardQueue`, which runs as often as there are events.
  unfoldable pub drop_all : ℕ → Ring A → Ring A
  unfolding drop_head
  drop_all zero r = r
  drop_all (suc n) r = drop_all n (drop_head r)
