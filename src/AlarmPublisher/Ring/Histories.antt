-- ===== src/AlarmPublisher/Ring/Histories.antt =====
-- The ring of src/alarm_worker.cpp under any calls of `update`, `run` and `discardQueue`, and the queue that
-- it stands for.
use redis_pvxs_ioc.Prelude.{
  ℕ, zero, suc, ◌+◌, ◌≤◌, ◌≡◌, refl, sym, ◌∙◌, Bool, true, false, Option, none, some, List, [], ◌∷◌,
  ◌++◌, ◌==◌, ltb, if◌then◌else◌, if_cases, arith, length, length-set, ◌%◌,
}
use mathlib.Core.Path.{subst}
use redis_pvxs_ioc.AlarmPublisher.Ring.{Ring, new_ring, push, drop_head, peek, drop_all}
use redis_pvxs_ioc.AlarmPublisher.Ring.Fifo.{
  Represents, new_ring-Represents, push-Represents, peek-Represents, drop_head-Represents,
  drop_all-Represents, cells_of-length,
}

pub data Use (A : Type 0) : Type 0 where
  puts : A → Use A
  takes gives_up : Use A

module _ {A : Type 0} where
  -- An event is put where there is room, and the next is taken where there is one.
  unfoldable pub use_ring : Use A → Ring A → Ring A × Option A
  unfolding push drop_head peek drop_all
  use_ring (puts event) r = ((if ltb r.count (length r.cells) then push event r else r), none)
  use_ring takes r = if r.count == 0 then (r, none) else (drop_head r, peek r)
  use_ring gives_up r = (drop_all r.count r, none)

  unfoldable pub run_ring : List (Use A) → Ring A → List (Option A)
  unfolding use_ring
  run_ring [] r = []
  run_ring (u ∷ uses) r = let (next, taken) = use_ring u r in taken ∷ run_ring uses next

  -- The same of a queue with room for some events.
  unfoldable pub use_queue : ℕ → Use A → List A → List A × Option A
  use_queue room (puts event) queue =
      ((if ltb (length queue) room then queue ++ event ∷ [] else queue), none)
  use_queue room takes [] = ([], none)
  use_queue room takes (event ∷ queue) = (queue, some event)
  use_queue room gives_up queue = ([], none)

  unfoldable pub run_queue : ℕ → List (Use A) → List A → List (Option A)
  unfolding use_queue
  run_queue room [] queue = []
  run_queue room (u ∷ uses) queue =
      let (next, taken) = use_queue room u queue in taken ∷ run_queue room uses next

  record Holds (room : ℕ) (r : Ring A) (queue : List A) : Type 0 where
    represents : Represents r queue
    size : length r.cells ≡ room

  push-size : (event : A) (r : Ring A) → length (push event r).cells ≡ length r.cells
  unfolding push
  push-size event r = length-set r.cells ((r.head + r.count) % length r.cells) (some event)

  drop_head-size : (r : Ring A) → length (drop_head r).cells ≡ length r.cells
  unfolding drop_head
  drop_head-size r = length-set r.cells r.head none

  drop_all-size : (n : ℕ) (r : Ring A) → length (drop_all n r).cells ≡ length r.cells
  unfolding drop_all
  drop_all-size zero r = refl
  drop_all-size (suc n) r = drop_all-size n (drop_head r) ∙ drop_head-size r

  -- A use of the ring and of the queue: what they hold then, and what is taken.
  record Agrees (room : ℕ) (a : Ring A × Option A) (b : List A × Option A) : Type 0 where
    held : Holds room a.0 b.0
    taken : a.1 ≡ b.1

  use_ring-Agrees :
      (room : ℕ) (u : Use A) (r : Ring A) (queue : List A)
      → Holds room r queue
      → Agrees room (use_ring u r) (use_queue room u queue)
  unfolding use_ring use_queue
  use_ring-Agrees room (puts event) r queue v = record {
    held = put_held (ltb r.count (length r.cells)) (ltb (length queue) room) refl same_room;
    taken = refl;
  }
    where
      same_room : ltb r.count (length r.cells) ≡ ltb (length queue) room
      same_room = cc (v.represents.counted, v.size)

      put_held :
          (b c : Bool)
          → ltb r.count (length r.cells) ≡ b
          → b ≡ c
          → Holds room (if b then push event r else r) (if c then queue ++ event ∷ [] else queue)
      put_held true true h k = record {
        represents = push-Represents r event queue v.represents (ground (arith, h));
        size = push-size event r ∙ v.size;
      }
      put_held false false h k = v
      put_held true false h k = absurd (cc k)
      put_held false true h k = absurd (cc k)
  use_ring-Agrees room takes r [] v =
      if_cases (λ a. Agrees room a ([], none)) (r.count == 0) (r, none) (drop_head r, peek r)
        (λ _. record { held = v; taken = refl })
        (λ some_left. absurd (ground (arith, some_left, v.represents.counted)))
  use_ring-Agrees room takes r (event ∷ queue) v =
      if_cases (λ a. Agrees room a (queue, some event)) (r.count == 0) (r, none)
        (drop_head r, peek r)
        (λ none_left. absurd (ground (arith, none_left, v.represents.counted)))
        (λ _. record {
          held = record {
            represents = drop_head-Represents r event queue v.represents;
            size = drop_head-size r ∙ v.size;
          };
          taken = peek-Represents r event queue v.represents;
        })
  use_ring-Agrees room gives_up r queue v = record {
    held = record {
      represents =
          subst (λ n. Represents (drop_all n r) []) (sym v.represents.counted)
            (drop_all-Represents queue r v.represents);
      size = drop_all-size r.count r ∙ v.size;
    };
    taken = refl;
  }

  run_ring-Holds :
      (room : ℕ) (uses : List (Use A)) (r : Ring A) (queue : List A)
      → Holds room r queue
      → run_ring uses r ≡ run_queue room uses queue
  unfolding run_ring run_queue
  run_ring-Holds room [] r queue v = refl
  run_ring-Holds room (u ∷ uses) r queue v =
      let step = use_ring-Agrees room u r queue v in
      cc (step.taken, run_ring-Holds room uses _ _ step.held)

-- A ring with some cells is a queue with room for as many events: whatever is put, taken and given up, the
-- same events come out in the same order.
pub run_ring-run_queue :
    {A : Type 0} (room : ℕ) (uses : List (Use A))
    → 1 ≤ room
    → run_ring uses (new_ring room) ≡ run_queue room uses []
unfolding new_ring
run_ring-run_queue {A} room uses h =
    run_ring-Holds room uses (new_ring room) []
      (record { represents = new_ring-Represents A room h; size = cells_of-length A room })
