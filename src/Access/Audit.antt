-- ===== src/Access/Audit.antt =====
-- Histories of the operations of a channel in src/access_control.cpp.
pub mod Balance
pub mod Outcomes
pub mod Once
use redis_pvxs_ioc.Prelude.{
  ℕ, zero, suc, ◌+◌, ◌-◌, ◌≤◌, ◌<◌, ◌≡◌, ◌≢◌, refl, sym, ap, ◌∙◌, Bool, true, false, not, ◌&&◌,
  ◌||◌, List, [], ◌∷◌, ◌++◌, ◌==◌, if◌then◌else◌, if_cases, All, arith, bit, add64, sub64,
  add64_exact, sub64_exact, word,
}
use mathlib.Core.Path.{subst}
use redis_pvxs_ioc.Access.{
  Rights, AccessClient, recompute, access_changed, ChannelState, OperationKind, put, rpc,
  OperationOutcome, success, failure, cancelled, abandoned, denied, AuditRecord, allows, denies,
  completes, Accounts, record_audit, emits, note_suppressed, record_denied_read,
  record_denied_write, AccessOperation, audited, new_operation, count_outcome, claim, complete,
  finish, refuse, authorized, Admission, access_denied, passes, secured, on_read, on_write,
}

-- The channel of a client, the counters, the operations so far, the newest first, and the outcomes of
-- those that have ended.
pub record World : Type 0 where
  pub channel : ChannelState
  pub accounts : Accounts
  pub operations : List AccessOperation
  pub endings : List OperationOutcome

-- What happens to an operation: an answer, a cancelling or its end, or a dispatch.
pub data Call : Type 0 where
  finishes : OperationOutcome → Call
  dispatches : Bool → ℕ → Call

unfoldable pub call :
    Call → AccessOperation → ChannelState → Accounts → AccessOperation × ChannelState × Accounts
unfolding finish authorized
call (finishes outcome) op c a =
    let (finished, accounts) = finish outcome op a in (finished, c, accounts)
call (dispatches behind now) op c a =
    let (allowed, dispatched, channel, accounts) = authorized behind now op c a in
    (dispatched, channel, accounts)

-- A call of the operation at a place of the list.
unfoldable pub call_at :
    ℕ
    → Call
    → List AccessOperation
    → ChannelState
    → Accounts
    → List AccessOperation × ChannelState × Accounts
unfolding call
call_at i k [] c a = ([], c, a)
call_at zero k (op ∷ ops) c a =
    let (called, channel, accounts) = call k op c a in (called ∷ ops, channel, accounts)
call_at (suc i) k (op ∷ ops) c a =
    let (rest, channel, accounts) = call_at i k ops c a in (op ∷ rest, channel, accounts)

-- The outcome with which a call is to end an operation: that of the first answer, cancelling or end, or
-- `denied` at a dispatch without the right to write. What has ended stays so.
unfoldable pub ending : Call → AccessOperation → ChannelState → List OperationOutcome
ending (finishes outcome) op c = if op.done then [] else outcome ∷ []
ending (dispatches behind now) op c = if op.done || c.rights.write then [] else denied ∷ []

unfoldable pub ending_at : ℕ → Call → List AccessOperation → ChannelState → List OperationOutcome
unfolding ending
ending_at i k [] c = []
ending_at zero k (op ∷ ops) c = ending k op c
ending_at (suc i) k (op ∷ ops) c = ending_at i k ops c

unfoldable pub admitted : Admission → List AccessOperation → List AccessOperation
admitted (secured op) ops = op ∷ ops
admitted _ ops = ops

-- Ids are not used up.
pub data Step (w : World) : World → Type 0 where
  reads :
      (now : ℕ)
      → Step w (record w {
        channel = (on_read now w.channel w.accounts).1;
        accounts = (on_read now w.channel w.accounts).2;
      })
  writes :
      (kind : OperationKind) (now : ℕ)
      → w.accounts.authorized_operations + 1 < word
      → Step w (record w {
        channel = (on_write kind now w.channel w.accounts).1;
        accounts = (on_write kind now w.channel w.accounts).2;
        operations = admitted (on_write kind now w.channel w.accounts).0 w.operations;
      })
  calls :
      (i : ℕ) (k : Call)
      → Step w (record w {
        channel = (call_at i k w.operations w.channel w.accounts).1;
        accounts = (call_at i k w.operations w.channel w.accounts).2;
        operations = (call_at i k w.operations w.channel w.accounts).0;
        endings = ending_at i k w.operations w.channel ++ w.endings;
      })
  recomputes :
      (close_on_change : Bool) (clients : List AccessClient)
      → Step w (record w { channel = (recompute close_on_change clients w.channel).0 })
  revokes : Step w (record w { channel = (access_changed w.channel).0 })

pub data Reach (w : World) : World → Type 0 where
  here : Reach w w
  next : {a b : World} → Reach w a → Step a b → Reach w b

unfoldable pub open_operations : List AccessOperation → ℕ
open_operations [] = 0
open_operations (op ∷ ops) = bit (not op.done) + open_operations ops

unfoldable pub completed_as : ℕ → AuditRecord → Bool
completed_as id (completes other kind outcome) = other == id
completed_as id _ = false

unfoldable pub completions : ℕ → List AuditRecord → ℕ
unfolding completed_as
completions id [] = 0
completions id (line ∷ lines) = bit (completed_as id line) + completions id lines

-- The operations of an id that are done and audited.
unfoldable pub closed : ℕ → List AccessOperation → ℕ
closed id [] = 0
closed id (op ∷ ops) = bit (op.id == id && (op.done && op.trap)) + closed id ops

unfoldable pub outcomes : Accounts → ℕ
outcomes a =
    a.operations_succeeded
    + (a.operations_failed
        + (a.operations_cancelled + (a.operations_denied + a.operations_abandoned)))

-- The counter of an outcome.
unfoldable pub counter : OperationOutcome → Accounts → ℕ
counter success a = a.operations_succeeded
counter failure a = a.operations_failed
counter cancelled a = a.operations_cancelled
counter denied a = a.operations_denied
counter abandoned a = a.operations_abandoned

unfoldable pub same_outcome : OperationOutcome → OperationOutcome → Bool
same_outcome success success = true
same_outcome failure failure = true
same_outcome cancelled cancelled = true
same_outcome denied denied = true
same_outcome abandoned abandoned = true
same_outcome _ _ = false

-- How often an outcome stands in a list.
unfoldable pub times : OperationOutcome → List OperationOutcome → ℕ
unfolding same_outcome
times o [] = 0
times o (p ∷ ps) = bit (same_outcome o p) + times o ps
