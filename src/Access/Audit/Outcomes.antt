-- ===== src/Access/Audit/Outcomes.antt =====
-- The counters of src/access_control.cpp of how operations ended, outcome by outcome.
use redis_pvxs_ioc.Prelude.{
  ℕ, zero, suc, ◌+◌, ◌≤◌, ◌<◌, ◌≡◌, refl, ap, ◌∙◌, Bool, true, false, not, ◌&&◌, ◌||◌, List, [],
  ◌∷◌, ◌++◌, if◌then◌else◌, if_cases, arith, bit, sub64, add64_exact, word,
}
use redis_pvxs_ioc.Access.{
  ChannelState, OperationKind, OperationOutcome, success, failure, cancelled, abandoned, denied,
  AuditRecord, Accounts, record_audit, emits, note_suppressed, record_denied_read,
  record_denied_write, AccessOperation, audited, new_operation, count_outcome, claim, complete,
  finish, refuse, authorized,
}
use redis_pvxs_ioc.Access.Audit.{
  Call, finishes, dispatches, call, call_at, ending, ending_at, open_operations, outcomes, counter,
  same_outcome, times,
}

pub times-append :
    (o : OperationOutcome) (ps qs : List OperationOutcome)
    → times o (ps ++ qs) ≡ times o ps + times o qs
unfolding times
times-append o [] qs = omega arith
times-append o (p ∷ ps) qs = omega (arith, times-append o ps qs)

pub counter-le-outcomes : (o : OperationOutcome) (a : Accounts) → counter o a ≤ outcomes a
unfolding counter outcomes
counter-le-outcomes success a = omega arith
counter-le-outcomes failure a = omega arith
counter-le-outcomes cancelled a = omega arith
counter-le-outcomes denied a = omega arith
counter-le-outcomes abandoned a = omega arith

-- An outcome is counted by its own counter only.
counter-count_outcome :
    (p o : OperationOutcome) (a : Accounts)
    → counter o a + 1 < word
    → counter o (count_outcome p a) ≡ counter o a + bit (same_outcome o p)
unfolding counter count_outcome same_outcome
counter-count_outcome success success a h = omega (arith, h, add64_exact a.operations_succeeded 1)
counter-count_outcome success _ a h = omega arith
counter-count_outcome failure failure a h = omega (arith, h, add64_exact a.operations_failed 1)
counter-count_outcome failure _ a h = omega arith
counter-count_outcome cancelled cancelled a h =
    omega (arith, h, add64_exact a.operations_cancelled 1)
counter-count_outcome cancelled _ a h = omega arith
counter-count_outcome denied denied a h = omega (arith, h, add64_exact a.operations_denied 1)
counter-count_outcome denied _ a h = omega arith
counter-count_outcome abandoned abandoned a h =
    omega (arith, h, add64_exact a.operations_abandoned 1)
counter-count_outcome abandoned _ a h = omega arith

module _ (o : OperationOutcome) where
  -- The counter of an outcome is one of five fields.
  counter-fields :
      (a b : Accounts)
      → b.operations_succeeded ≡ a.operations_succeeded
      → b.operations_failed ≡ a.operations_failed
      → b.operations_cancelled ≡ a.operations_cancelled
      → b.operations_denied ≡ a.operations_denied
      → b.operations_abandoned ≡ a.operations_abandoned
      → counter o b ≡ counter o a
  unfolding counter
  counter-fields a b s f c d e = by_outcome o
    where
      by_outcome : (p : OperationOutcome) → counter p b ≡ counter p a
      by_outcome success = s
      by_outcome failure = f
      by_outcome cancelled = c
      by_outcome denied = d
      by_outcome abandoned = e

  counter-audited :
      (trap : Bool) (line : AuditRecord) (a : Accounts)
      → counter o (audited trap line a) ≡ counter o a
  unfolding audited record_audit
  counter-audited true line a = counter-fields a _ refl refl refl refl refl
  counter-audited false line a = refl

  counter-note_suppressed :
      (emit : Bool) (a : Accounts) → counter o (note_suppressed emit a) ≡ counter o a
  unfolding note_suppressed
  counter-note_suppressed true a = refl
  counter-note_suppressed false a = counter-fields a _ refl refl refl refl refl

  pub counter-denied_write :
      (now id : ℕ) (kind : OperationKind) (c : ChannelState) (a : Accounts)
      → counter o (record_denied_write now id kind c a).1 ≡ counter o a
  unfolding record_denied_write record_audit
  counter-denied_write now id kind c a =
      counter-note_suppressed (emits c.last_denied_write_ms now) _
      ∙ counter-fields a _ refl refl refl refl refl

  pub counter-denied_read :
      (now : ℕ) (c : ChannelState) (a : Accounts)
      → counter o (record_denied_read now c a).1 ≡ counter o a
  unfolding record_denied_read
  counter-denied_read now c a =
      counter-note_suppressed (emits c.last_denied_read_ms now) _
      ∙ counter-fields a _ refl refl refl refl refl

  pub counter-new_operation :
      (kind : OperationKind) (trap : Bool) (a : Accounts)
      → counter o (new_operation kind trap a).1 ≡ counter o a
  unfolding new_operation
  counter-new_operation kind trap a =
      counter-audited trap _ _ ∙ counter-fields a _ refl refl refl refl refl

  counter-complete :
      (p : OperationOutcome) (op : AccessOperation) (a : Accounts)
      → counter o a + 1 < word
      → counter o (complete p op a) ≡ counter o a + bit (same_outcome o p)
  unfolding complete
  counter-complete p op a h =
      let b : Accounts = record a { operations_in_flight = sub64 a.operations_in_flight 1 } in
      let same : counter o b ≡ counter o a = counter-fields a b refl refl refl refl refl in
      counter-audited op.trap _ _
      ∙ counter-count_outcome p o b (omega (arith, h, same))
      ∙ ap (λ n. n + bit (same_outcome o p)) same

  counter-finish :
      (p : OperationOutcome) (op : AccessOperation) (a : Accounts)
      → counter o a + bit (not op.done) < word
      → counter o (finish p op a).1 ≡ counter o a + times o (if op.done then [] else p ∷ [])
  unfolding finish claim times
  counter-finish p op a h = go op.done h
    where
      go :
          (done : Bool)
          → counter o a + bit (not done) < word
          → counter o (if not done then complete p (record op { done = true }) a else a)
            ≡ counter o a + times o (if done then [] else p ∷ [])
      go true k = omega arith
      go false k = omega (arith, counter-complete p (record op { done = true }) a k)

  counter-refuse :
      (now : ℕ) (op : AccessOperation) (c : ChannelState) (a : Accounts)
      → counter o a + bit (not op.done) < word
      → counter o (refuse now op c a).2
        ≡ counter o a + times o (if op.done then [] else denied ∷ [])
  unfolding refuse finish
  counter-refuse now op c a h =
      let same =
        counter-denied_write now (if not op.done && op.trap then op.id else 0) op.kind c a in
      counter-finish denied op _ (omega (arith, h, same))
      ∙ ap (λ n. n + times o (if op.done then [] else denied ∷ [])) same

  counter-call :
      (k : Call) (op : AccessOperation) (c : ChannelState) (a : Accounts)
      → counter o a + bit (not op.done) < word
      → counter o (call k op c a).2 ≡ counter o a + times o (ending k op c)
  unfolding call authorized ending times
  counter-call (finishes outcome) op c a h = counter-finish outcome op a h
  counter-call (dispatches behind now) op c a h =
      if_cases {A = Bool × AccessOperation × ChannelState × Accounts}
        (λ r.
          counter o r.3
          ≡ counter o a + times o (if op.done || c.rights.write then [] else denied ∷ []))
        c.rights.write (behind, op, c, a) _ (λ w. ground (arith, w))
        (λ w.
          counter-refuse now op c a h
          ∙ ap (λ b. counter o a + times o (if b then [] else denied ∷ [])) (ground (arith, w)))

  pub counter-call_at :
      (i : ℕ) (k : Call) (ops : List AccessOperation) (c : ChannelState) (a : Accounts)
      → counter o a + open_operations ops < word
      → counter o (call_at i k ops c a).2 ≡ counter o a + times o (ending_at i k ops c)
  unfolding call_at ending_at open_operations times
  counter-call_at i k [] c a h = omega arith
  counter-call_at zero k (op ∷ ops) c a h = counter-call k op c a (omega (arith, h))
  counter-call_at (suc i) k (op ∷ ops) c a h = counter-call_at i k ops c a (omega (arith, h))
