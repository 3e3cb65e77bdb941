-- ===== src/Access/Audit/Once.antt =====
-- Each operation of src/access_control.cpp ends once, in its counters and in its audit.
use redis_pvxs_ioc.Prelude.{
  ℕ, zero, suc, ◌+◌, ◌≤◌, ◌<◌, ◌≡◌, refl, ap, ◌∙◌, Bool, true, false, List, [], ◌∷◌, ◌==◌, if_cases,
  arith, bit, add64, add64_exact, word,
}
use redis_pvxs_ioc.Access.{
  ChannelState, OperationKind, OperationOutcome, success, failure, cancelled, denied, abandoned,
  allows, Accounts, AccessOperation, audited, new_operation, claim, finish, refuse, authorized,
  Admission, on_read, on_write,
}
use redis_pvxs_ioc.Access.Audit.{
  World, Call, finishes, dispatches, call, call_at, admitted, Step, reads, writes, calls,
  recomputes, revokes, Reach, here, next, open_operations, completed_as, completions, closed,
  outcomes, counter, times, ending_at,
}
use redis_pvxs_ioc.Access.Audit.Balance.{
  Balanced, Balanced-eq, record_audit-Balanced, denied_write-Balanced, denied_read-Balanced,
  call_at-Balanced,
}
use redis_pvxs_ioc.Access.Audit.Outcomes.{
  times-append, counter-le-outcomes, counter-denied_write, counter-denied_read,
  counter-new_operation, counter-call_at,
}

abbrev pub no_accounts : Accounts
no_accounts = record {
  denied_reads = 0;
  denied_writes = 0;
  denial_logs_suppressed = 0;
  authorized_operations = 0;
  operations_in_flight = 0;
  operations_succeeded = 0;
  operations_failed = 0;
  operations_cancelled = 0;
  operations_abandoned = 0;
  operations_denied = 0;
  audit = [];
}

abbrev pub begin_world : ChannelState → World
begin_world c = record { channel = c; accounts = no_accounts; operations = []; endings = [] }

unfoldable with_id : ℕ → List AccessOperation → ℕ
with_id id [] = 0
with_id id (op ∷ ops) = bit (op.id == id) + with_id id ops

closed-le : (id : ℕ) (ops : List AccessOperation) → closed id ops ≤ with_id id ops
unfolding closed with_id
closed-le id [] = omega arith
closed-le id (op ∷ ops) = ground (arith, closed-le id ops)

authorized-id :
    (behind : Bool) (now : ℕ) (op : AccessOperation) (c : ChannelState) (a : Accounts)
    → (authorized behind now op c a).1.id ≡ op.id
unfolding authorized refuse claim
authorized-id behind now op c a =
    if_cases {A = Bool × AccessOperation × ChannelState × Accounts} (λ r. r.1.id ≡ op.id)
      c.rights.write (behind, op, c, a) _ (λ _. refl) (λ _. refl)

call-id :
    (k : Call) (op : AccessOperation) (c : ChannelState) (a : Accounts)
    → (call k op c a).0.id ≡ op.id
unfolding call finish claim
call-id (finishes outcome) op c a = refl
call-id (dispatches behind now) op c a = authorized-id behind now op c a

with_id-call_at :
    (id i : ℕ) (k : Call) (ops : List AccessOperation) (c : ChannelState) (a : Accounts)
    → with_id id (call_at i k ops c a).0 ≡ with_id id ops
unfolding with_id call_at
with_id-call_at id i k [] c a = refl
with_id-call_at id zero k (op ∷ ops) c a =
    ap (λ n. bit (n == id) + with_id id ops) (call-id k op c a)
with_id-call_at id (suc i) k (op ∷ ops) c a =
    ap (λ n. bit (op.id == id) + n) (with_id-call_at id i k ops c a)

record IsAccounted (w : World) : Type 0 where
  top : ℕ
  balanced : Balanced top w.accounts (open_operations w.operations) (λ id. closed id w.operations)
  fresh : (id : ℕ) → top < id → with_id id w.operations ≡ 0
  unique : (id : ℕ) → with_id id w.operations ≤ 1
  each : (o : OperationOutcome) → counter o w.accounts ≡ times o w.endings

new_operation-Balanced :
    (top : ℕ) (kind : OperationKind) (trap : Bool) (a : Accounts) (n : ℕ) (f : ℕ → ℕ)
    → top + 1 < word
    → Balanced top a n f
    → Balanced (top + 1) (new_operation kind trap a).1 (1 + n) f
unfolding new_operation audited completed_as outcomes
new_operation-Balanced top kind trap a n f room v = told trap
  where
    id : ℕ
    id = add64 a.authorized_operations 1

    next_id : id ≡ top + 1
    next_id = omega (arith, v.total, add64_exact a.authorized_operations 1, room)

    counted : Accounts
    counted = record a {
      authorized_operations = id;
      operations_in_flight = add64 a.operations_in_flight 1;
    }

    begun : Balanced (top + 1) counted (1 + n) f
    begun = record {
      flying = omega (arith, v.flying, v.counted, room, add64_exact a.operations_in_flight 1);
      counted = omega (arith, v.counted);
      total = next_id;
      small = room;
      lines = v.lines;
    }

    told : (b : Bool) → Balanced (top + 1) (audited b (allows id kind) counted) (1 + n) f
    told true =
        Balanced-eq (top + 1) _ (1 + n) (1 + n) _ f refl (λ other. omega arith)
          (record_audit-Balanced (top + 1) (allows id kind) counted (1 + n) f begun)
    told false = begun

admit-IsAccounted :
    (kind : OperationKind) (now : ℕ) (w : World)
    → w.accounts.authorized_operations + 1 < word
    → IsAccounted w
    → IsAccounted (record w {
      channel = (on_write kind now w.channel w.accounts).1;
      accounts = (on_write kind now w.channel w.accounts).2;
      operations = admitted (on_write kind now w.channel w.accounts).0 w.operations;
    })
unfolding on_write admitted new_operation with_id closed open_operations
admit-IsAccounted kind now w room v =
    if_cases {A = Admission × ChannelState × Accounts}
      (λ r.
        IsAccounted
          (record w { channel = r.1; accounts = r.2; operations = admitted r.0 w.operations }))
      w.channel.rights.write _ _ (λ _. admits)
      (λ _. record {
        top = v.top;
        balanced = denied_write-Balanced v.top now 0 kind w.channel w.accounts _ _ v.balanced;
        fresh = v.fresh;
        unique = v.unique;
        each = λ o. counter-denied_write o now 0 kind w.channel w.accounts ∙ v.each o;
      })
  where
    id : ℕ
    id = add64 w.accounts.authorized_operations 1

    next_id : id ≡ v.top + 1
    next_id = omega (arith, v.balanced.total, add64_exact w.accounts.authorized_operations 1, room)

    admits : IsAccounted (record w {
      accounts = (new_operation kind w.channel.rights.trap_write w.accounts).1;
      operations = (new_operation kind w.channel.rights.trap_write w.accounts).0 ∷ w.operations;
    })
    admits = record {
      top = v.top + 1;
      balanced =
          Balanced-eq (v.top + 1) _ _ _ _ _ refl (λ other. ground arith)
            (new_operation-Balanced v.top kind w.channel.rights.trap_write w.accounts _ _
              (omega (arith, room, v.balanced.total)) v.balanced);
      fresh = λ other h. ground (arith, next_id, h, v.fresh other);
      unique = λ other. ground (arith, next_id, v.fresh other, v.unique other);
      each = λ o. counter-new_operation o kind w.channel.rights.trap_write w.accounts ∙ v.each o;
    }

Step-IsAccounted : {a b : World} → Step a b → IsAccounted a → IsAccounted b
unfolding on_read
Step-IsAccounted {a = w} (reads now) v = record {
  top = v.top;
  balanced =
      if_cases {A = Admission × ChannelState × Accounts}
        (λ r. Balanced v.top r.2 (open_operations w.operations) (λ id. closed id w.operations))
        w.channel.rights.read _ _ (λ _. v.balanced)
        (λ _. denied_read-Balanced v.top now w.channel w.accounts _ _ v.balanced);
  fresh = v.fresh;
  unique = v.unique;
  each = λ o.
      if_cases {A = Admission × ChannelState × Accounts} (λ r. counter o r.2 ≡ times o w.endings)
        w.channel.rights.read _ _ (λ _. v.each o)
        (λ _. counter-denied_read o now w.channel w.accounts ∙ v.each o);
}
Step-IsAccounted {a = w} (writes kind now room) v = admit-IsAccounted kind now w room v
Step-IsAccounted {a = w} (calls i k) v = record {
  top = v.top;
  balanced =
      Balanced-eq v.top _ _ _ _ _ (omega arith) (λ id. omega arith)
        (call_at-Balanced v.top i k w.operations w.channel w.accounts 0 (λ id. 0)
          (Balanced-eq v.top w.accounts _ _ _ _ (omega arith) (λ id. omega arith) v.balanced));
  fresh = λ id h. with_id-call_at id i k w.operations w.channel w.accounts ∙ v.fresh id h;
  unique =
      λ id. omega (arith, with_id-call_at id i k w.operations w.channel w.accounts, v.unique id);
  each = λ o. omega (
    arith,
    v.each o,
    times-append o (ending_at i k w.operations w.channel) w.endings,
    counter-call_at o i k w.operations w.channel w.accounts
        (omega (arith, counter-le-outcomes o w.accounts, v.balanced.counted, v.balanced.small)),
  );
}
Step-IsAccounted (recomputes close_on_change clients) v = record {
  top = v.top;
  balanced = v.balanced;
  fresh = v.fresh;
  unique = v.unique;
  each = v.each;
}
Step-IsAccounted revokes v = record {
  top = v.top;
  balanced = v.balanced;
  fresh = v.fresh;
  unique = v.unique;
  each = v.each;
}

Reach-IsAccounted : {a b : World} → Reach a b → IsAccounted a → IsAccounted b
Reach-IsAccounted here v = v
Reach-IsAccounted (next r s) v = Step-IsAccounted s (Reach-IsAccounted r v)

counter-begun : (o : OperationOutcome) → counter o no_accounts ≡ times o []
unfolding counter times
counter-begun success = refl
counter-begun failure = refl
counter-begun cancelled = refl
counter-begun denied = refl
counter-begun abandoned = refl

begun-IsAccounted : (c : ChannelState) → IsAccounted (begin_world c)
unfolding open_operations closed completions outcomes with_id
begun-IsAccounted c = record {
  top = 0;
  balanced = record {
    flying = refl;
    counted = refl;
    total = refl;
    small = omega arith;
    lines = λ id. refl;
  };
  fresh = λ id h. refl;
  unique = λ id. omega arith;
  each = λ o. counter-begun o;
}

-- From the start of a channel, whatever comes of its operations: the counter of each outcome is the number
-- of operations that have ended with it, the counter of operations in flight that of those that are not
-- done, and together they are as many as were authorized; and of each id the audit has as many lines of
-- completion as there are audited operations with it that are done, and at most one.
pub Reach-accounted :
    (c : ChannelState) (w : World)
    → Reach (begin_world c) w
    → ((o : OperationOutcome) → counter o w.accounts ≡ times o w.endings)
      × (w.accounts.operations_in_flight ≡ open_operations w.operations)
      × (outcomes w.accounts + w.accounts.operations_in_flight ≡ w.accounts.authorized_operations)
      × ((id : ℕ)
          → (completions id w.accounts.audit ≡ closed id w.operations)
            × (completions id w.accounts.audit ≤ 1))
Reach-accounted c w history =
    let v = Reach-IsAccounted history (begun-IsAccounted c) in
    let b = v.balanced in
    (
      v.each,
      b.flying,
      omega (arith, b.counted, b.flying, b.total),
      λ id. (b.lines id, omega (arith, b.lines id, closed-le id w.operations, v.unique id)),
    )
