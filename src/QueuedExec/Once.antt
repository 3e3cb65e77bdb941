-- ===== src/QueuedExec/Once.antt =====
-- That an operation has one answer (include/redis_pvxs_ioc/queued_exec.h).
use redis_pvxs_ioc.Prelude.{
  ℕ, ◌≡◌, refl, String, Bool, true, false, Option, none, some, List, [], ◌∷◌, ◌++◌, if◌then◌else◌,
  str_eq, ap, sym, ◌∙◌, ◌≢◌, if_cases, arith, eq_iff,
}
use mathlib.Core.Path.{subst}
use mathlib.Core.List.{append-nil}
use redis_pvxs_ioc.QueuedExec.{
  QueuedExec, Effect, notify, reply, error, cancel, Done, create, notified, answer, first_finish,
  finish, wake_by, set_ticket, check_ticket, cancel_ticket,
}

module _ (H W V : Type 0) where
  -- The calls and steps of the threads that share a handle.
  pub data Call : Type 0 where
    finishing : String → Bool → Option V → Call
    waking : W → Call
    setting : ℕ → Call
    checking : ℕ → Call
    cancelling : Bool → Call

  unfoldable pub call : Call → QueuedExec H W → Done H W V
  unfolding finish wake_by set_ticket check_ticket cancel_ticket
  call (finishing message cancelled value) s = finish message cancelled value s
  call (waking fn) s = wake_by fn s
  call (setting id) s = (set_ticket id s, [])
  call (checking id) s = (s, check_ticket id s)
  call (cancelling has_queue) s = (s, cancel_ticket has_queue s)

  -- The effects of calls in any order.
  unfoldable pub effects : List Call → QueuedExec H W → List (Effect H W V)
  unfolding call
  effects [] s = []
  effects (c ∷ calls) s = (call c s).1 ++ effects calls (call c s).0

  unfoldable pub answers : List (Effect H W V) → List (Effect H W V)
  answers [] = []
  answers (notify fn ∷ rest) = answers rest
  answers (reply op value ∷ rest) = reply op value ∷ answers rest
  answers (error op message ∷ rest) = error op message ∷ answers rest
  answers (cancel id ∷ rest) = answers rest

  -- What the client of `op` is to be told after some calls: nothing before a `finish`, and then what the
  -- first of them says, which is nothing where the client has cancelled, the value where there is no
  -- error, and the error otherwise.
  pub data Told (op : H) : List Call → List (Effect H W V) → Type 0 where
    nothing_yet : Told op [] []
    own_cancel :
        {message : String} {value : Option V} {calls : List Call}
        → Told op (finishing message true value ∷ calls) []
    has_value :
        {message : String} {value : Option V} {calls : List Call}
        → message ≡ ""
        → Told op (finishing message false value ∷ calls) (reply op value ∷ [])
    has_error :
        {message : String} {value : Option V} {calls : List Call}
        → message ≢ ""
        → Told op (finishing message false value ∷ calls) (error op message ∷ [])
    wakes :
        {fn : W} {calls : List Call} {told : List (Effect H W V)}
        → Told op calls told
        → Told op (waking fn ∷ calls) told
    sets :
        {id : ℕ} {calls : List Call} {told : List (Effect H W V)}
        → Told op calls told
        → Told op (setting id ∷ calls) told
    checks :
        {id : ℕ} {calls : List Call} {told : List (Effect H W V)}
        → Told op calls told
        → Told op (checking id ∷ calls) told
    cancels :
        {has_queue : Bool} {calls : List Call} {told : List (Effect H W V)}
        → Told op calls told
        → Told op (cancelling has_queue ∷ calls) told

  -- The answer of the first `finish`.
  first_answer : H → List Call → List (Effect H W V)
  first_answer op [] = []
  first_answer op (finishing message cancelled value ∷ calls) =
      answer (some op) message cancelled value
  first_answer op (waking fn ∷ calls) = first_answer op calls
  first_answer op (setting id ∷ calls) = first_answer op calls
  first_answer op (checking id ∷ calls) = first_answer op calls
  first_answer op (cancelling has_queue ∷ calls) = first_answer op calls

  answers-append : (xs ys : List (Effect H W V)) → answers (xs ++ ys) ≡ answers xs ++ answers ys
  unfolding answers
  answers-append [] ys = refl
  answers-append (notify fn ∷ xs) ys = answers-append xs ys
  answers-append (reply op value ∷ xs) ys = ap (λ l. reply op value ∷ l) (answers-append xs ys)
  answers-append (error op message ∷ xs) ys = ap (λ l. error op message ∷ l) (answers-append xs ys)
  answers-append (cancel id ∷ xs) ys = answers-append xs ys

  ap2_append : {xs xs1 ys ys1 : List (Effect H W V)} → xs ≡ xs1 → ys ≡ ys1 → xs ++ ys ≡ xs1 ++ ys1
  ap2_append h k = cc

  -- A call that says nothing to the client.
  answers_if :
      (b : Bool) (e : Effect H W V)
      → answers (e ∷ []) ≡ []
      → answers (if b then e ∷ [] else []) ≡ []
  unfolding answers
  answers_if true e h = h
  answers_if false e h = refl

  answers-notified : (fn : Option W) → answers (notified fn) ≡ []
  unfolding answers notified
  answers-notified none = refl
  answers-notified (some fn) = refl

  answers-answer :
      (op : Option H) (message : String) (cancelled : Bool) (value : Option V)
      → answers (answer op message cancelled value) ≡ answer op message cancelled value
  unfolding answers answer
  answers-answer none message cancelled value = refl
  answers-answer (some op) message true value = refl
  answers-answer (some op) message false value = of_test (str_eq message "")
    where
      of_test :
          (b : Bool)
          → answers ((if b then reply op value else error op message) ∷ [])
            ≡ (if b then reply op value else error op message) ∷ []
      of_test true = refl
      of_test false = refl

  finish-stopped :
      (message : String) (cancelled : Bool) (value : Option V) (s : QueuedExec H W)
      → s.stopped ≡ true
      → finish message cancelled value s ≡ (s, [])
  unfolding finish
  finish-stopped message cancelled value s h =
      ap (λ b. if b then (s, []) else first_finish message cancelled value s) h

  finish-open :
      (message : String) (cancelled : Bool) (value : Option V) (s : QueuedExec H W)
      → s.stopped ≡ false
      → finish message cancelled value s ≡ first_finish message cancelled value s
  unfolding finish
  finish-open message cancelled value s h =
      ap (λ b. if b then (s, []) else first_finish message cancelled value s) h

  -- Once stopped, nothing is answered any more.
  answers-stopped :
      (calls : List Call) (s : QueuedExec H W) → s.stopped ≡ true → answers (effects calls s) ≡ []
  unfolding answers effects call wake_by set_ticket check_ticket cancel_ticket
  answers-stopped [] s h = refl
  answers-stopped (finishing message cancelled value ∷ calls) s h =
      ap (λ r. answers (r.1 ++ effects calls r.0)) (finish-stopped message cancelled value s h)
      ∙ answers-stopped calls s h
  answers-stopped (waking fn ∷ calls) s h =
      answers-append (if s.stopped then notify fn ∷ [] else []) _
      ∙ ap2_append (answers_if s.stopped (notify fn) refl)
          (answers-stopped calls (record s { wake = some fn }) h)
  answers-stopped (setting id ∷ calls) s h = answers-stopped calls (record s { ticket = id }) h
  answers-stopped (checking id ∷ calls) s h =
      answers-append (if s.aborted then cancel id ∷ [] else []) _
      ∙ ap2_append (answers_if s.aborted (cancel id) refl) (answers-stopped calls s h)
  answers-stopped (cancelling has_queue ∷ calls) s h =
      answers-append (if has_queue then cancel s.ticket ∷ [] else []) _
      ∙ ap2_append (answers_if has_queue (cancel s.ticket) refl) (answers-stopped calls s h)

  -- Before, the handle is there and the first `finish` has the say.
  answers-open :
      (calls : List Call) (op : H) (s : QueuedExec H W)
      → s.stopped ≡ false
      → s.op ≡ some op
      → answers (effects calls s) ≡ first_answer op calls
  unfolding answers effects call first_answer wake_by set_ticket check_ticket cancel_ticket
      first_finish
  answers-open [] op s h k = refl
  answers-open (finishing message cancelled value ∷ calls) op s h k =
      ap (λ r. answers (r.1 ++ effects calls r.0)) (finish-open message cancelled value s h)
      ∙ answers-append (notified s.wake ++ answer s.op message cancelled value) _
      ∙ ap2_append
          (answers-append (notified s.wake) _
            ∙ ap2_append (answers-notified s.wake) (answers-answer s.op message cancelled value))
          (answers-stopped calls (first_finish message cancelled value s).0 refl)
      ∙ append-nil _
      ∙ ap (λ o. answer o message cancelled value) k
  answers-open (waking fn ∷ calls) op s h k =
      answers-append (if s.stopped then notify fn ∷ [] else []) _
      ∙ ap2_append (answers_if s.stopped (notify fn) refl)
          (answers-open calls op (record s { wake = some fn }) h k)
  answers-open (setting id ∷ calls) op s h k = answers-open calls op (record s { ticket = id }) h k
  answers-open (checking id ∷ calls) op s h k =
      answers-append (if s.aborted then cancel id ∷ [] else []) _
      ∙ ap2_append (answers_if s.aborted (cancel id) refl) (answers-open calls op s h k)
  answers-open (cancelling has_queue ∷ calls) op s h k =
      answers-append (if has_queue then cancel s.ticket ∷ [] else []) _
      ∙ ap2_append (answers_if has_queue (cancel s.ticket) refl) (answers-open calls op s h k)

  first_answer-Told : (calls : List Call) (op : H) → Told op calls (first_answer op calls)
  unfolding first_answer answer
  first_answer-Told [] op = nothing_yet
  first_answer-Told (finishing message true value ∷ calls) op = own_cancel
  first_answer-Told (finishing message false value ∷ calls) op =
      if_cases (λ e. Told op (finishing message false value ∷ calls) (e ∷ [])) (str_eq message "")
        (reply op value) (error op message)
        (λ same. has_value (ground (arith, eq_iff message "", same)))
        (λ other. has_error λ same. ground (arith, eq_iff message "", same, other))
  first_answer-Told (waking fn ∷ calls) op = wakes (first_answer-Told calls op)
  first_answer-Told (setting id ∷ calls) op = sets (first_answer-Told calls op)
  first_answer-Told (checking id ∷ calls) op = checks (first_answer-Told calls op)
  first_answer-Told (cancelling has_queue ∷ calls) op = cancels (first_answer-Told calls op)

  -- Whatever the order of the calls and steps of all threads, the client is told what the first `finish`
  -- says: its value where there is no error, its error otherwise, and nothing where it is the client's
  -- own cancelling; and nothing where there is no `finish`.
  pub answers-effects :
      (calls : List Call) (op : H) → Told op calls (answers (effects calls (create op)))
  unfolding create
  answers-effects calls op =
      subst (Told op calls) (sym (answers-open calls op (create op) refl refl))
        (first_answer-Told calls op)
