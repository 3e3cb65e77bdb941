-- ===== src/Access.antt =====
-- Channels of clients in src/access_control.cpp: the rights of `ChannelState`, `AccessOperation`, and what
-- the Authorized classes do before they call on. A client of the access library is what it answers; an audit
-- line is its id, kind and result; clock readings are arguments.
pub mod Audit
pub mod Revocation
mod Tests
use redis_pvxs_ioc.Prelude.{
  ℕ, zero, suc, ◌+◌, ◌-◌, ◌≡◌, Bool, true, false, not, ◌&&◌, ◌||◌, List, [], ◌∷◌, ◌++◌, ◌==◌, leb,
  if◌then◌else◌, add64, sub64,
}

-- kRead, kWrite and kTrapWrite of the mask
pub record Rights : Type 0 where
  pub read : Bool
  pub write : Bool
  pub trap_write : Bool

abbrev pub no_rights : Rights
no_rights = record { read = false; write = false; trap_write = false }

same_bool : Bool → Bool → Bool
same_bool true b = b
same_bool false b = not b

unfoldable pub same_rights : Rights → Rights → Bool
unfolding same_bool
same_rights a b =
    same_bool a.read b.read && (same_bool a.write b.write && same_bool a.trap_write b.trap_write)

unfoldable pub both_rights : Rights → Rights → Rights
both_rights a b = record {
  read = a.read || b.read;
  write = a.write || b.write;
  trap_write = a.trap_write || b.trap_write;
}

-- asCheckGet, asCheckPut and trapMask of a client
pub record AccessClient : Type 0 where
  pub check_get : Bool
  pub check_put : Bool
  pub trap_mask : Bool

-- The loop of `recompute`
unfoldable pub rights_of : List AccessClient → Rights
unfolding both_rights
rights_of [] = no_rights
rights_of (client ∷ clients) =
    both_rights
      (record {
        read = client.check_get;
        write = client.check_put;
        trap_write = client.check_put && client.trap_mask;
      })
      (rights_of clients)

pub record ChannelState : Type 0 where
  pub rights : Rights
  pub rights_before_change : Rights
  pub dirty : Bool
  pub initialized : Bool
  pub last_denied_read_ms : ℕ
  pub last_denied_write_ms : ℕ

-- The channel, and whether it is closed.
unfoldable pub recompute : Bool → List AccessClient → ChannelState → ChannelState × Bool
unfolding rights_of same_rights
recompute close_on_change clients c =
    let prior =
      if same_rights c.rights_before_change no_rights then c.rights else c.rights_before_change in
    (
      record c { rights = rights_of clients; dirty = false; rights_before_change = no_rights },
      close_on_change && not (same_rights prior (rights_of clients)),
    )

-- The channel, and whether it is marked for `drainDirty`.
unfoldable pub access_changed : ChannelState → ChannelState × Bool
unfolding both_rights
access_changed c =
    let changed = record c {
      rights = no_rights;
      rights_before_change = both_rights c.rights_before_change c.rights;
    } in
    if c.initialized && not c.dirty
    then (record changed { dirty = true }, true)
    else (changed, false)

pub data OperationKind : Type 0 where
  put rpc : OperationKind

pub data OperationOutcome : Type 0 where
  success failure cancelled abandoned denied : OperationOutcome

-- A line of `recordAudit`
pub data AuditRecord : Type 0 where
  allows denies : ℕ → OperationKind → AuditRecord
  completes : ℕ → OperationKind → OperationOutcome → AuditRecord

-- The counters of `Impl`, and its audit, the newest line first.
pub record Accounts : Type 0 where
  pub denied_reads : ℕ
  pub denied_writes : ℕ
  pub denial_logs_suppressed : ℕ
  pub authorized_operations : ℕ
  pub operations_in_flight : ℕ
  pub operations_succeeded : ℕ
  pub operations_failed : ℕ
  pub operations_cancelled : ℕ
  pub operations_abandoned : ℕ
  pub operations_denied : ℕ
  pub audit : List AuditRecord

unfoldable pub record_audit : AuditRecord → Accounts → Accounts
record_audit line a = record a { audit = line ∷ a.audit }

abbrev pub log_interval_ms : ℕ
log_interval_ms = 5000

-- The throttled line of `recordDenied`: the stamp that is kept, and whether the line is written.
unfoldable pub emits : ℕ → ℕ → Bool
emits prior now = prior == 0 || leb log_interval_ms (now - prior)

unfoldable pub note_suppressed : Bool → Accounts → Accounts
note_suppressed emit a =
    if emit then a else record a { denial_logs_suppressed = add64 a.denial_logs_suppressed 1 }

unfoldable pub record_denied_read : ℕ → ChannelState → Accounts → ChannelState × Accounts
unfolding emits note_suppressed
record_denied_read now c a =
    let emit = emits c.last_denied_read_ms now in
    (
      (if emit then record c { last_denied_read_ms = now } else c),
      note_suppressed emit (record a { denied_reads = add64 a.denied_reads 1 }),
    )

unfoldable pub record_denied_write :
    ℕ → ℕ → OperationKind → ChannelState → Accounts → ChannelState × Accounts
unfolding emits note_suppressed record_audit
record_denied_write now id kind c a =
    let emit = emits c.last_denied_write_ms now in
    (
      (if emit then record c { last_denied_write_ms = now } else c),
      note_suppressed emit
          (record_audit (denies id kind) (record a { denied_writes = add64 a.denied_writes 1 })),
    )

pub record AccessOperation : Type 0 where
  pub kind : OperationKind
  pub trap : Bool
  pub id : ℕ
  pub done : Bool

-- recordAudit where `trap`
unfoldable pub audited : Bool → AuditRecord → Accounts → Accounts
unfolding record_audit
audited trap line a = if trap then record_audit line a else a

unfoldable pub new_operation : OperationKind → Bool → Accounts → AccessOperation × Accounts
unfolding audited
new_operation kind trap a =
    let id = add64 a.authorized_operations 1 in
    (
      record { kind = kind; trap = trap; id = id; done = false },
      audited trap (allows id kind) (record a {
        authorized_operations = id;
        operations_in_flight = add64 a.operations_in_flight 1;
      }),
    )

unfoldable pub count_outcome : OperationOutcome → Accounts → Accounts
count_outcome success a = record a { operations_succeeded = add64 a.operations_succeeded 1 }
count_outcome failure a = record a { operations_failed = add64 a.operations_failed 1 }
count_outcome cancelled a = record a { operations_cancelled = add64 a.operations_cancelled 1 }
count_outcome denied a = record a { operations_denied = add64 a.operations_denied 1 }
count_outcome abandoned a = record a { operations_abandoned = add64 a.operations_abandoned 1 }

-- The operation, and whether this caller has won.
unfoldable pub claim : AccessOperation → AccessOperation × Bool
claim op = (record op { done = true }, not op.done)

unfoldable pub complete : OperationOutcome → AccessOperation → Accounts → Accounts
unfolding count_outcome audited
complete outcome op a =
    audited op.trap (completes op.id op.kind outcome)
      (count_outcome outcome (record a { operations_in_flight = sub64 a.operations_in_flight 1 }))

unfoldable pub finish : OperationOutcome → AccessOperation → Accounts → AccessOperation × Accounts
unfolding claim complete
finish outcome op a =
    let (claimed, won) = claim op in (claimed, (if won then complete outcome claimed a else a))

-- AuthorizedExecOp::authorized without the right to write
unfoldable pub refuse :
    ℕ → AccessOperation → ChannelState → Accounts → AccessOperation × ChannelState × Accounts
unfolding claim complete record_denied_write
refuse now op c a =
    let (claimed, won) = claim op in
    let (channel, accounts) =
      record_denied_write now (if won && op.trap then op.id else 0) op.kind c a in
    (claimed, channel, (if won then complete denied claimed accounts else accounts))

-- AuthorizedExecOp::authorized, with what the operation behind it says.
unfoldable pub authorized :
    Bool
    → ℕ
    → AccessOperation
    → ChannelState
    → Accounts
    → Bool × AccessOperation × ChannelState × Accounts
unfolding refuse
authorized behind now op c a =
    if c.rights.write
    then (behind, op, c, a)
    else (let (refused, channel, accounts) = refuse now op c a in
        (false, refused, channel, accounts))

pub data Admission : Type 0 where
  access_denied : Admission
  passes : Admission
  secured : AccessOperation → Admission

-- onGet, onSubscribe, and connect for Info
unfoldable pub on_read : ℕ → ChannelState → Accounts → Admission × ChannelState × Accounts
unfolding record_denied_read
on_read now c a =
    if c.rights.read
    then (passes, c, a)
    else (let (channel, accounts) = record_denied_read now c a in
        (access_denied, channel, accounts))

-- onPut, onRPC
unfoldable pub on_write :
    OperationKind → ℕ → ChannelState → Accounts → Admission × ChannelState × Accounts
unfolding record_denied_write new_operation
on_write kind now c a =
    if c.rights.write
    then (let (op, accounts) = new_operation kind c.rights.trap_write a in
        (secured op, c, accounts))
    else (let (channel, accounts) = record_denied_write now 0 kind c a in
        (access_denied, channel, accounts))
