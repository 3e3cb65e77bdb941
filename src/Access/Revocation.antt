-- ===== src/Access/Revocation.antt =====
-- The rights of a channel in src/access_control.cpp between a change of policy and the next `recompute`.
use redis_pvxs_ioc.Prelude.{
  ℕ, zero, suc, ◌≡◌, refl, ap, ◌∙◌, Bool, true, false, not, ◌&&◌, List, if◌then◌else◌, if_cases,
  arith,
}
use redis_pvxs_ioc.Access.{
  Rights, no_rights, same_rights, both_rights, AccessClient, rights_of, ChannelState, recompute,
  access_changed, OperationKind, Accounts, AccessOperation, authorized, refuse, claim, Admission,
  access_denied, on_read, on_write,
}

-- Some callbacks of the access library, one after the other.
unfoldable pub changes : ℕ → ChannelState → ChannelState
unfolding access_changed
changes zero c = c
changes (suc n) c = (access_changed (changes n c)).0

both_rights_none : (r : Rights) → both_rights no_rights r ≡ r
unfolding both_rights
both_rights_none r = ground arith

both_rights-none : (r : Rights) → both_rights r no_rights ≡ r
unfolding both_rights
both_rights-none r = ground arith

prior_lem : (r : Rights) → (if same_rights r no_rights then no_rights else r) ≡ r
unfolding same_rights
prior_lem r = ground arith

access_changed-rights :
    (c : ChannelState)
    → ((access_changed c).0.rights ≡ no_rights)
      × ((access_changed c).0.rights_before_change ≡ both_rights c.rights_before_change c.rights)
unfolding access_changed
access_changed-rights c =
    if_cases {A = ChannelState × Bool}
      (λ r.
        (r.0.rights ≡ no_rights)
        × (r.0.rights_before_change ≡ both_rights c.rights_before_change c.rights))
      (c.initialized && not c.dirty) _ _ (λ _. (refl, refl)) (λ _. (refl, refl))

changes-rights :
    (n : ℕ) (c : ChannelState)
    → c.rights_before_change ≡ no_rights
    → ((changes (suc n) c).rights ≡ no_rights)
      × ((changes (suc n) c).rights_before_change ≡ c.rights)
unfolding changes
changes-rights zero c h =
    let one = access_changed-rights c in
    (one.0, one.1 ∙ ap (λ r. both_rights r c.rights) h ∙ both_rights_none c.rights)
changes-rights (suc n) c h =
    let last = access_changed-rights (changes (suc n) c) in
    let before = changes-rights n c h in
    (
      last.0,
      last.1
          ∙ ap (λ r. both_rights (changes (suc n) c).rights_before_change r) before.0
          ∙ both_rights-none (changes (suc n) c).rights_before_change
          ∙ before.1,
    )

recompute-closes :
    (clients : List AccessClient) (r : Rights) (c : ChannelState)
    → c.rights ≡ no_rights
    → c.rights_before_change ≡ r
    → (recompute true clients c).1 ≡ not (same_rights r (rights_of clients))
unfolding recompute
recompute-closes clients r c h k =
    ap (λ p. not (same_rights p (rights_of clients)))
      (ap (λ b. if same_rights b no_rights then c.rights else b) k
        ∙ ap (λ x. if same_rights r no_rights then x else r) h
        ∙ prior_lem r)

refused_lem :
    (c : ChannelState) (a : Accounts) (kind : OperationKind) (op : AccessOperation) (behind : Bool)
    (now : ℕ)
    → c.rights ≡ no_rights
    → ((on_read now c a).0 ≡ access_denied)
      × ((on_write kind now c a).0 ≡ access_denied)
      × ((authorized behind now op c a).0 ≡ false)
      × ((authorized behind now op c a).1.done ≡ true)
unfolding on_read on_write authorized refuse claim
refused_lem c a kind op behind now h =
    let reads : c.rights.read ≡ false = ap (λ r. r.read) h in
    let writes : c.rights.write ≡ false = ap (λ r. r.write) h in
    (
      if_cases {A = Admission × ChannelState × Accounts} (λ r. r.0 ≡ access_denied) c.rights.read _
          _ (λ yes. absurd (cc (yes, reads))) (λ _. refl),
      if_cases {A = Admission × ChannelState × Accounts} (λ r. r.0 ≡ access_denied) c.rights.write _
          _ (λ yes. absurd (cc (yes, writes))) (λ _. refl),
      if_cases {A = Bool × AccessOperation × ChannelState × Accounts} (λ r. r.0 ≡ false)
          c.rights.write _ _ (λ yes. absurd (cc (yes, writes))) (λ _. refl),
      if_cases {A = Bool × AccessOperation × ChannelState × Accounts} (λ r. r.1.done ≡ true)
          c.rights.write _ _ (λ yes. absurd (cc (yes, writes))) (λ _. refl),
    )

-- A channel whose rights have been taken by one or more callbacks since they were computed. Until they are
-- computed again a new request of it, to get, subscribe or know, to put or to call, is denied, and an
-- operation that was admitted before is refused where it is dispatched, and done with. Then the channel
-- is closed exactly when its rights are others than those before the first callback, and has the new ones.
-- Of a monitor that was set up before, which asks for nothing any more, only the closing is stated.
pub recompute-changes :
    (n : ℕ) (c : ChannelState) (clients : List AccessClient) (a : Accounts) (kind : OperationKind)
    (op : AccessOperation) (behind : Bool) (now : ℕ)
    → c.rights_before_change ≡ no_rights
    → (((on_read now (changes (suc n) c) a).0 ≡ access_denied)
        × ((on_write kind now (changes (suc n) c) a).0 ≡ access_denied)
        × ((authorized behind now op (changes (suc n) c) a).0 ≡ false)
        × ((authorized behind now op (changes (suc n) c) a).1.done ≡ true))
      × ((recompute true clients (changes (suc n) c)).1
          ≡ not (same_rights c.rights (rights_of clients)))
      × ((recompute true clients (changes (suc n) c)).0.rights ≡ rights_of clients)
unfolding recompute
recompute-changes n c clients a kind op behind now h =
    let taken = changes-rights n c h in
    (
      refused_lem (changes (suc n) c) a kind op behind now taken.0,
      recompute-closes clients c.rights (changes (suc n) c) taken.0 taken.1,
      refl,
    )
