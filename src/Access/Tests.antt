-- ===== src/Access/Tests.antt =====
-- Runs of the channels and operations of src/access_control.cpp, and the theorems at them.
use redis_pvxs_ioc.Prelude.{
  ℕ, ◌+◌, ◌≤◌, ◌≡◌, refl, true, false, not, List, [], ◌∷◌, ◌++◌, arith, add64,
}
use redis_pvxs_ioc.Access.{
  no_rights, same_rights, both_rights, AccessClient, rights_of, ChannelState, recompute,
  access_changed, OperationOutcome, put, rpc, cancelled, denied, allows, denies, completes,
  record_audit, audited, note_suppressed, emits, record_denied_write, AccessOperation,
  new_operation, count_outcome, claim, complete, finish, refuse, authorized, access_denied, on_read,
  on_write,
}
use redis_pvxs_ioc.Access.Audit.{
  World, Call, finishes, dispatches, call, call_at, admitted, writes, calls, revokes, Reach, here,
  next, open_operations, completions, closed, outcomes, counter, times, ending_at,
}
use redis_pvxs_ioc.Access.Audit.Once.{no_accounts, begin_world, Reach-accounted}
use redis_pvxs_ioc.Access.Revocation.{changes, recompute-changes}

abbrev channel : ChannelState
channel = record {
  rights = record { read = true; write = true; trap_write = true };
  rights_before_change = no_rights;
  dirty = false;
  initialized = true;
  last_denied_read_ms = 0;
  last_denied_write_ms = 0;
}

abbrev put_at : ℕ → World → World
put_at now w = record w {
  channel = (on_write put now w.channel w.accounts).1;
  accounts = (on_write put now w.channel w.accounts).2;
  operations = admitted (on_write put now w.channel w.accounts).0 w.operations;
}

abbrev first : Call → World → World
first k w = record w {
  channel = (call_at 0 k w.operations w.channel w.accounts).1;
  accounts = (call_at 0 k w.operations w.channel w.accounts).2;
  operations = (call_at 0 k w.operations w.channel w.accounts).0;
  endings = ending_at 0 k w.operations w.channel ++ w.endings;
}

abbrev revoked : World → World
revoked w = record w { channel = (access_changed w.channel).0 }

-- An operation is admitted, its rights are taken, its dispatch is refused, and then it is cancelled.
abbrev ended : World
ended =
    first (finishes cancelled)
      (first (dispatches true 9000) (revoked (put_at 1 (begin_world channel))))

to_ended : Reach (begin_world channel) ended
to_ended =
    next
      (next (next (next here (writes put 1 (omega arith))) revokes)
        (calls 0 (dispatches true 9000)))
      (calls 0 (finishes cancelled))

ended_audit : ended.accounts.audit ≡ completes 1 put denied ∷ denies 1 put ∷ allows 1 put ∷ []
unfolding on_write new_operation audited record_audit admitted access_changed both_rights call_at
    call authorized refuse claim record_denied_write emits note_suppressed complete count_outcome
    finish add64
ended_audit = refl

ended_as : ended.endings ≡ denied ∷ []
unfolding on_write new_operation audited record_audit admitted access_changed both_rights call_at
    call authorized refuse claim record_denied_write emits note_suppressed complete count_outcome
    finish add64 ending_at
ended_as = refl

Reach-accounted_example :
    ((o : OperationOutcome) → counter o ended.accounts ≡ times o ended.endings)
    × (ended.accounts.operations_in_flight ≡ open_operations ended.operations)
    × (outcomes ended.accounts + ended.accounts.operations_in_flight
        ≡ ended.accounts.authorized_operations)
    × ((id : ℕ)
        → (completions id ended.accounts.audit ≡ closed id ended.operations)
          × (completions id ended.accounts.audit ≤ 1))
Reach-accounted_example = Reach-accounted channel ended to_ended

abbrev reader : List AccessClient
reader = record { check_get = true; check_put = false; trap_mask = false } ∷ []

abbrev operation : AccessOperation
operation = record { kind = put; trap = true; id = 1; done = false }

recompute-changes_example :
    (((on_read 1 (changes 2 channel) no_accounts).0 ≡ access_denied)
      × ((on_write rpc 1 (changes 2 channel) no_accounts).0 ≡ access_denied)
      × ((authorized true 1 operation (changes 2 channel) no_accounts).0 ≡ false)
      × ((authorized true 1 operation (changes 2 channel) no_accounts).1.done ≡ true))
    × ((recompute true reader (changes 2 channel)).1
        ≡ not (same_rights channel.rights (rights_of reader)))
    × ((recompute true reader (changes 2 channel)).0.rights ≡ rights_of reader)
recompute-changes_example = recompute-changes 1 channel reader no_accounts rpc operation true 1 refl
