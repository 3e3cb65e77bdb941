-- ===== src/QueuedExec.antt =====
-- include/redis_pvxs_ioc/queued_exec.h: the handle of an operation of a client, from its queueing to
-- its one answer. What the calls do outside is a list of effects, in their order. A handle, a waker
-- and a value stand for those of PVXS.
pub mod Once
pub mod Cancelling
mod Tests
use redis_pvxs_ioc.Prelude.{
  ℕ, suc, ◌+◌, String, Bool, true, false, not, ◌&&◌, ◌||◌, Option, none, some, List, [], ◌∷◌, ◌++◌,
  ◌==◌, if◌then◌else◌, str_eq,
}

pub record QueuedExec (H W : Type 0) : Type 0 where
  pub op : Option H
  pub wake : Option W
  pub stopped : Bool
  pub aborted : Bool
  pub ticket : ℕ

pub data Effect (H W V : Type 0) : Type 0 where
  notify : W → Effect H W V
  reply : H → Option V → Effect H W V
  error : H → String → Effect H W V
  cancel : ℕ → Effect H W V

abbrev pub Done : Type 0 → Type 0 → Type 0 → Type 0
Done H W V = QueuedExec H W × List (Effect H W V)

unfoldable pub create : {H W : Type 0} → H → QueuedExec H W
create op = record { op = some op; wake = none; stopped = false; aborted = false; ticket = 0 }

unfoldable pub notified : {H W V : Type 0} → Option W → List (Effect H W V)
notified none = []
notified (some fn) = notify fn ∷ []

-- What `finish` tells the client.
unfoldable pub answer : {H W V : Type 0} → Option H → String → Bool → Option V → List (Effect H W V)
answer none message cancelled value = []
answer (some op) message true value = []
answer (some op) message false value =
    (if str_eq message "" then reply op value else error op message) ∷ []

-- The first `finish`
unfoldable pub first_finish :
    {H W V : Type 0} → String → Bool → Option V → QueuedExec H W → Done H W V
unfolding notified answer
first_finish message cancelled value s = (
  record s { stopped = true; aborted = cancelled || not (str_eq message ""); op = none },
  notified s.wake ++ answer s.op message cancelled value,
)

unfoldable pub finish : {H W V : Type 0} → String → Bool → Option V → QueuedExec H W → Done H W V
unfolding first_finish
finish message cancelled value s =
    if s.stopped then (s, []) else first_finish message cancelled value s

unfoldable pub wake_by : {H W V : Type 0} → W → QueuedExec H W → Done H W V
wake_by fn s = (record s { wake = some fn }, if s.stopped then notify fn ∷ [] else [])

-- The two steps of `ticket`: the ID is stored, and then `aborted_` is read.
unfoldable pub set_ticket : {H W : Type 0} → ℕ → QueuedExec H W → QueuedExec H W
set_ticket id s = record s { ticket = id }

unfoldable pub check_ticket : {H W V : Type 0} → ℕ → QueuedExec H W → List (Effect H W V)
check_ticket id s = if s.aborted then cancel id ∷ [] else []

-- What `onCancel` does behind `finish`, if the queue is still there.
unfoldable pub cancel_ticket : {H W V : Type 0} → Bool → QueuedExec H W → List (Effect H W V)
cancel_ticket has_queue s = if has_queue then cancel s.ticket ∷ [] else []
