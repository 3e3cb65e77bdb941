-- ===== src/Access/Audit/Balance.antt =====
-- The counters and the audit of src/access_control.cpp, beside its operations.
use redis_pvxs_ioc.Prelude.{
  ℕ, zero, suc, ◌+◌, ◌<◌, ◌≡◌, refl, sym, ap, ◌∙◌, Bool, true, false, not, ◌&&◌, List, [], ◌∷◌,
  ◌==◌, if◌then◌else◌, if_cases, arith, bit, add64, sub64, add64_exact, sub64_exact, word,
}
use redis_pvxs_ioc.Access.{
  ChannelState, OperationKind, OperationOutcome, success, failure, cancelled, abandoned, denied,
  AuditRecord, denies, completes, Accounts, record_audit, emits, note_suppressed,
  record_denied_read, record_denied_write, AccessOperation, audited, count_outcome, claim, complete,
  finish, refuse, authorized,
}
use redis_pvxs_ioc.Access.Audit.{
  Call, finishes, dispatches, call, call_at, open_operations, completed_as, completions, closed,
  outcomes,
}

count_outcome-outcomes :
    (outcome : OperationOutcome) (a : Accounts)
    → outcomes a + 1 < word
    → outcomes (count_outcome outcome a) ≡ outcomes a + 1
unfolding outcomes count_outcome
count_outcome-outcomes success a h = omega (arith, h, add64_exact a.operations_succeeded 1)
count_outcome-outcomes failure a h = omega (arith, h, add64_exact a.operations_failed 1)
count_outcome-outcomes cancelled a h = omega (arith, h, add64_exact a.operations_cancelled 1)
count_outcome-outcomes abandoned a h = omega (arith, h, add64_exact a.operations_abandoned 1)
count_outcome-outcomes denied a h = omega (arith, h, add64_exact a.operations_denied 1)

count_outcome-same :
    (outcome : OperationOutcome) (a : Accounts)
    → ((count_outcome outcome a).operations_in_flight ≡ a.operations_in_flight)
      × ((count_outcome outcome a).authorized_operations ≡ a.authorized_operations)
      × ((count_outcome outcome a).audit ≡ a.audit)
unfolding count_outcome
count_outcome-same success a = (refl, refl, refl)
count_outcome-same failure a = (refl, refl, refl)
count_outcome-same cancelled a = (refl, refl, refl)
count_outcome-same abandoned a = (refl, refl, refl)
count_outcome-same denied a = (refl, refl, refl)

module _ (top : ℕ) where
  -- The counters and the audit are those of the operations, with some of them left out.
  pub record Balanced (a : Accounts) (in_flight_of : ℕ) (closed_of : ℕ → ℕ) : Type 0 where
    pub flying : a.operations_in_flight ≡ in_flight_of
    pub counted : outcomes a + in_flight_of ≡ top
    pub total : a.authorized_operations ≡ top
    pub small : top < word
    pub lines : (id : ℕ) → completions id a.audit ≡ closed_of id

  pub Balanced-eq :
      (a : Accounts) (m n : ℕ) (f g : ℕ → ℕ)
      → m ≡ n
      → ((id : ℕ) → f id ≡ g id)
      → Balanced a m f
      → Balanced a n g
  Balanced-eq a m n f g h k v = record {
    flying = v.flying ∙ h;
    counted = ap (λ x. outcomes a + x) (sym h) ∙ v.counted;
    total = v.total;
    small = v.small;
    lines = λ id. v.lines id ∙ k id;
  }

  pub record_audit-Balanced :
      (line : AuditRecord) (a : Accounts) (n : ℕ) (f : ℕ → ℕ)
      → Balanced a n f
      → Balanced (record_audit line a) n (λ id. bit (completed_as id line) + f id)
  unfolding record_audit completions outcomes
  record_audit-Balanced line a n f v = record {
    flying = v.flying;
    counted = v.counted;
    total = v.total;
    small = v.small;
    lines = λ id. ap (λ x. bit (completed_as id line) + x) (v.lines id);
  }

  -- An outcome is counted, and the operation no longer in flight.
  landed-Balanced :
      (outcome : OperationOutcome) (a : Accounts) (n : ℕ) (f : ℕ → ℕ)
      → Balanced a (1 + n) f
      → Balanced
          (count_outcome outcome
            (record a { operations_in_flight = sub64 a.operations_in_flight 1 }))
          n
          f
  unfolding outcomes
  landed-Balanced outcome a n f v =
      let b : Accounts = record a { operations_in_flight = sub64 a.operations_in_flight 1 } in
      let same = count_outcome-same outcome b in
      record {
        flying =
            same.0
            ∙ omega (arith, v.flying, v.counted, v.small, sub64_exact a.operations_in_flight 1);
        counted = omega (arith, count_outcome-outcomes outcome b, v.counted, v.small, same.1);
        total = same.1 ∙ v.total;
        small = v.small;
        lines = λ id. ap (completions id) same.2 ∙ v.lines id;
      }

  complete-Balanced :
      (outcome : OperationOutcome) (kind : OperationKind) (trap : Bool) (id : ℕ) (a : Accounts)
      (n : ℕ) (f : ℕ → ℕ)
      → Balanced a (1 + n) f
      → Balanced
          (complete outcome (record { kind = kind; trap = trap; id = id; done = true }) a)
          n
          (λ other. bit (id == other && trap) + f other)
  unfolding complete audited completed_as
  complete-Balanced outcome kind true id a n f v =
      Balanced-eq _ n n _ _ refl (λ other. ap (λ x. x + f other) (ground (arith)))
        (record_audit-Balanced (completes id kind outcome) _ n f (landed-Balanced outcome a n f v))
  complete-Balanced outcome kind false id a n f v =
      Balanced-eq _ n n _ _ refl (λ other. ground arith) (landed-Balanced outcome a n f v)

  -- What an operation has to do with the counters and the audit, beside the others.
  abbrev Holds : AccessOperation → ℕ → (ℕ → ℕ) → Accounts → Type 0
  Holds op n f a =
      Balanced a (bit (not op.done) + n)
        (λ other. bit (op.id == other && (op.done && op.trap)) + f other)

  finish-Holds :
      (outcome : OperationOutcome) (op : AccessOperation) (a : Accounts) (n : ℕ) (f : ℕ → ℕ)
      → Holds op n f a
      → Holds (finish outcome op a).0 n f (finish outcome op a).1
  unfolding finish claim
  finish-Holds outcome op a n f v = go op.done v
    where
      go :
          (done : Bool)
          → Holds (record op { done = done }) n f a
          → Holds
              (record op { done = true })
              n
              f
              (if not done then complete outcome (record op { done = true }) a else a)
      go true w = w
      go false w =
          Balanced-eq _ n _ _ _ (omega arith) (λ other. refl)
            (complete-Balanced outcome op.kind op.trap op.id a n f
              (Balanced-eq a _ _ _ _ (omega arith) (λ other. ground arith) w))

  note_suppressed-Balanced :
      (emit : Bool) (a : Accounts) (n : ℕ) (f : ℕ → ℕ)
      → Balanced a n f
      → Balanced (note_suppressed emit a) n f
  unfolding note_suppressed outcomes
  note_suppressed-Balanced true a n f v = v
  note_suppressed-Balanced false a n f v = record {
    flying = v.flying;
    counted = v.counted;
    total = v.total;
    small = v.small;
    lines = v.lines;
  }

  pub denied_write-Balanced :
      (now id : ℕ) (kind : OperationKind) (c : ChannelState) (a : Accounts) (n : ℕ) (f : ℕ → ℕ)
      → Balanced a n f
      → Balanced (record_denied_write now id kind c a).1 n f
  unfolding record_denied_write completed_as outcomes
  denied_write-Balanced now id kind c a n f v =
      note_suppressed-Balanced (emits c.last_denied_write_ms now) _ n f (
        Balanced-eq _ n n _ _ refl (λ other. ground arith)
          (record_audit-Balanced (denies id kind)
            (record a { denied_writes = add64 a.denied_writes 1 }) n f
            (record {
              flying = v.flying;
              counted = v.counted;
              total = v.total;
              small = v.small;
              lines = v.lines;
            })))

  pub denied_read-Balanced :
      (now : ℕ) (c : ChannelState) (a : Accounts) (n : ℕ) (f : ℕ → ℕ)
      → Balanced a n f
      → Balanced (record_denied_read now c a).1 n f
  unfolding record_denied_read outcomes
  denied_read-Balanced now c a n f v =
      note_suppressed-Balanced (emits c.last_denied_read_ms now)
        (record a { denied_reads = add64 a.denied_reads 1 }) n f
        (record {
          flying = v.flying;
          counted = v.counted;
          total = v.total;
          small = v.small;
          lines = v.lines;
        })

  refuse-Holds :
      (now : ℕ) (op : AccessOperation) (c : ChannelState) (a : Accounts) (n : ℕ) (f : ℕ → ℕ)
      → Holds op n f a
      → Holds (refuse now op c a).0 n f (refuse now op c a).2
  unfolding refuse finish
  refuse-Holds now op c a n f v =
      finish-Holds denied op (record_denied_write now _ op.kind c a).1 n f
        (denied_write-Balanced now (if not op.done && op.trap then op.id else 0) op.kind c a _ _ v)

  call-Holds :
      (k : Call) (op : AccessOperation) (c : ChannelState) (a : Accounts) (n : ℕ) (f : ℕ → ℕ)
      → Holds op n f a
      → Holds (call k op c a).0 n f (call k op c a).2
  unfolding call authorized
  call-Holds (finishes outcome) op c a n f v = finish-Holds outcome op a n f v
  call-Holds (dispatches behind now) op c a n f v =
      if_cases {A = Bool × AccessOperation × ChannelState × Accounts} (λ r. Holds r.1 n f r.3)
        c.rights.write (behind, op, c, a) _ (λ _. v) (λ _. refuse-Holds now op c a n f v)

  pub call_at-Balanced :
      (i : ℕ) (k : Call) (ops : List AccessOperation) (c : ChannelState) (a : Accounts) (n : ℕ)
      (f : ℕ → ℕ)
      → Balanced a (n + open_operations ops) (λ other. f other + closed other ops)
      → Balanced
          (call_at i k ops c a).2
          (n + open_operations (call_at i k ops c a).0)
          (λ other. f other + closed other (call_at i k ops c a).0)
  unfolding call_at open_operations closed
  call_at-Balanced i k [] c a n f v = v
  call_at-Balanced zero k (op ∷ ops) c a n f v =
      Balanced-eq _ _ _ _ _ (omega arith) (λ other. omega arith)
        (call-Holds k op c a (n + open_operations ops) (λ other. f other + closed other ops)
          (Balanced-eq a _ _ _ _ (omega arith) (λ other. omega arith) v))
  call_at-Balanced (suc i) k (op ∷ ops) c a n f v =
      Balanced-eq _ _ _ _ _ (omega arith) (λ other. omega arith)
        (call_at-Balanced i k ops c a (n + bit (not op.done))
          (λ other. f other + bit (op.id == other && (op.done && op.trap)))
          (Balanced-eq a _ _ _ _ (omega arith) (λ other. omega arith) v))
