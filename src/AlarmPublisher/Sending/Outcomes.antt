-- ===== src/AlarmPublisher/Sending/Outcomes.antt =====
-- What the commands to Redis in src/alarm_worker.cpp leave of the connection.
use redis_pvxs_ioc.Prelude.{
  ◌≡◌, refl, sym, ap, ◌∙◌, true, false, not, ◌&&◌, ◌||◌, Option, none, some, List, [], ◌∷◌,
  if_cases, ◌⊎◌, inl, inr, ◌≢◌, Bool,
}
use mathlib.Core.Path.{subst}
use redis_pvxs_ioc.Prelude.Bytes.{Bytes, bytes}
use redis_pvxs_ioc.AlarmPublisher.Slots.{Event}
use redis_pvxs_ioc.AlarmPublisher.Worker.{SendResult, accepted, rejected, unavailable}
use redis_pvxs_ioc.AlarmPublisher.Sending.{
  Epics, Reply, string_reply, status_reply, error_reply, other_reply, Hiredis, Target, Connection,
  freed, reset, if_accepted, is_usable, after_timeout, after_connect, open_context, command,
  after_auth, auth_args, authenticate, connect, same_reply, judge, timeval, xadd_args, send, ping,
  is_empty,
}

same_reply→eq : (a b : Reply) → same_reply a b ≡ true → a ≡ b
unfolding same_reply
same_reply→eq string_reply string_reply h = refl
same_reply→eq string_reply status_reply h = absurd (cc h)
same_reply→eq string_reply error_reply h = absurd (cc h)
same_reply→eq string_reply other_reply h = absurd (cc h)
same_reply→eq status_reply string_reply h = absurd (cc h)
same_reply→eq status_reply status_reply h = refl
same_reply→eq status_reply error_reply h = absurd (cc h)
same_reply→eq status_reply other_reply h = absurd (cc h)
same_reply→eq error_reply string_reply h = absurd (cc h)
same_reply→eq error_reply status_reply h = absurd (cc h)
same_reply→eq error_reply error_reply h = refl
same_reply→eq error_reply other_reply h = absurd (cc h)
same_reply→eq other_reply string_reply h = absurd (cc h)
same_reply→eq other_reply status_reply h = absurd (cc h)
same_reply→eq other_reply error_reply h = absurd (cc h)
same_reply→eq other_reply other_reply h = refl

same_reply_self : (a : Reply) → same_reply a a ≡ true
unfolding same_reply
same_reply_self string_reply = refl
same_reply_self status_reply = refl
same_reply_self error_reply = refl
same_reply_self other_reply = refl

other_reply-ne : (a b : Reply) → same_reply a b ≡ false → b ≢ a
other_reply-ne a b h e = absurd (cc (h, ap (λ r. same_reply a r) e, same_reply_self a))

module _ (api : Hiredis) where
  unfoldable IsOpen : Connection api → Type 0
  IsOpen c = (x : api.Context) × (c.context ≡ some x)

  -- An answer to a command on the open connection.
  unfoldable Answered : List Bytes → Reply → Connection api → Type 0
  Answered args reply c =
      (x : api.Context) × (w : api.World) × (c.context ≡ some x)
      × (api.command_argv x args w ≡ (c.world, some reply))

  -- Why a connection is given up, and the world in which it is: its context could not be made, or was
  -- made with an error, or took no timeout, or a command on it had no answer. Where there is a
  -- context it has been freed.
  pub data GivesUp (target : Target) (args : List Bytes) : api.World → Type 0 where
    no_context :
        {v w : api.World}
        → api.connect_with_timeout target.host target.port (timeval target.io_timeout_ms) v
          ≡ (w, none)
        → GivesUp target args w
    bad_context :
        {v w : api.World} {x : api.Context}
        → api.connect_with_timeout target.host target.port (timeval target.io_timeout_ms) v
          ≡ (w, some x)
        → api.has_error x w ≡ true
        → GivesUp target args (api.free x w)
    no_timeout :
        {v w : api.World} {x : api.Context}
        → api.set_timeout x (timeval target.io_timeout_ms) v ≡ (w, false)
        → GivesUp target args (api.free x w)
    no_answer :
        {v w : api.World} {x : api.Context}
        → api.command_argv x args v ≡ (w, none)
        → GivesUp target args (api.free x w)
    no_login :
        {v w : api.World} {x : api.Context}
        → api.command_argv x (auth_args api target) v ≡ (w, none)
        → GivesUp target args (api.free x w)

  unfoldable IsClosed : Target → List Bytes → Connection api → Type 0
  IsClosed target args c =
      (c.context ≡ none) × (c.authenticated ≡ false) × GivesUp target args c.world

  unfoldable IsRefused : Target → Connection api → Type 0
  unfolding Answered
  IsRefused target c = Answered (auth_args api target) error_reply c

  -- What a result means. Accepted: the command was answered as wanted, and the connection is open and
  -- noted as authenticated. Rejected: the connection is open, and the command was answered otherwise or
  -- the login by an error. Unavailable: the connection is closed, for a reason.
  unfoldable pub Outcome : Target → List Bytes → Reply → Connection api × SendResult → Type 0
  unfolding Answered IsClosed IsRefused
  Outcome target args wanted (c, accepted) = Answered args wanted c × (c.authenticated ≡ true)
  Outcome target args wanted (c, rejected) =
      ((reply : Reply) × (reply ≢ wanted) × Answered args reply c) ⊎ IsRefused target c
  Outcome target args wanted (c, unavailable) = IsClosed target args c

  -- The same of what comes before the command.
  unfoldable Ready : Target → List Bytes → Connection api × SendResult → Type 0
  unfolding IsOpen IsClosed IsRefused
  Ready target args (c, accepted) = IsOpen c × (c.authenticated ≡ true)
  Ready target args (c, rejected) = IsRefused target c
  Ready target args (c, unavailable) = IsClosed target args c

  unfoldable Opened : Target → List Bytes → Connection api × SendResult → Type 0
  unfolding IsOpen IsClosed
  Opened target args (c, accepted) = IsOpen c
  Opened target args (c, rejected) = ⊥
  Opened target args (c, unavailable) = IsClosed target args c

  after_timeout-Opened :
      (target : Target) (args : List Bytes) (x : api.Context) (v : api.World) (r : api.World × Bool)
      → api.set_timeout x (timeval target.io_timeout_ms) v ≡ r
      → Opened target args (after_timeout api x r)
  unfolding after_timeout reset Opened
  after_timeout-Opened target args x v (w, true) e = (x, refl)
  after_timeout-Opened target args x v (w, false) e = (refl, refl, no_timeout e)

  after_connect-Opened :
      (target : Target) (args : List Bytes) (v : api.World) (r : api.World × Option api.Context)
      → api.connect_with_timeout target.host target.port (timeval target.io_timeout_ms) v ≡ r
      → Opened target args (after_connect api target r)
  unfolding after_connect reset Opened
  after_connect-Opened target args v (w, none) e = (refl, refl, no_context e)
  after_connect-Opened target args v (w, some x) e =
      if_cases (Opened target args) (api.has_error x w) _ _ (λ bad. (refl, refl, bad_context e bad))
        (λ _. after_timeout-Opened target args x w _ refl)

  usable-IsOpen :
      (c : Connection api) (o : Option api.Context)
      → is_usable api c o ≡ true
      → (x : api.Context) × (o ≡ some x)
  unfolding is_usable
  usable-IsOpen c none h = absurd (cc h)
  usable-IsOpen c (some x) h = (x, refl)

  open_context-Opened :
      (target : Target) (args : List Bytes) (c : Connection api)
      → Opened target args (open_context api target c)
  unfolding open_context Opened
  open_context-Opened target args c =
      if_cases (Opened target args) (is_usable api c c.context) _ _
        (λ usable. usable-IsOpen c c.context usable)
        (λ _. after_connect-Opened target args _ _ refl)

  after_auth-Ready :
      (target : Target) (args : List Bytes) (x : api.Context) (v : api.World) (c : Connection api)
      (reply : Option Reply)
      → c.context ≡ some x
      → api.command_argv x (auth_args api target) v ≡ (c.world, reply)
      → Ready target args (after_auth api (c, reply))
  unfolding after_auth reset freed Ready Answered
  after_auth-Ready target args x v c none h e =
      (refl, refl, subst (λ o. GivesUp target args (freed api o c.world)) (sym h) (no_login e))
  after_auth-Ready target args x v c (some error_reply) h e = (x, v, h, e)
  after_auth-Ready target args x v c (some string_reply) h e = ((x, h), refl)
  after_auth-Ready target args x v c (some status_reply) h e = ((x, h), refl)
  after_auth-Ready target args x v c (some other_reply) h e = ((x, h), refl)

  -- A login on an open connection.
  login-Ready :
      (target : Target) (args : List Bytes) (c : Connection api)
      → IsOpen c
      → Ready target args (after_auth api (command api (auth_args api target) c c.context))
  unfolding command IsOpen
  login-Ready target args c (x, h) =
      subst (λ o. Ready target args (after_auth api (command api (auth_args api target) c o)))
        (sym h)
        (after_auth-Ready target args x c.world _
          (api.command_argv x (auth_args api target) c.world).1 h refl)

  authenticate-Ready :
      (target : Target) (args : List Bytes) (c : Connection api)
      → IsOpen c
      → Ready target args (authenticate api target c)
  unfolding authenticate Ready
  authenticate-Ready target args c v =
      if_cases (Ready target args)
        (not c.authenticated && (not (is_empty target.user) || not (is_empty target.password))) _ _
        (λ _. login-Ready target args c v) (λ _. (v, refl))

  connect-Ready :
      (target : Target) (args : List Bytes) (c : Connection api)
      → Ready target args (connect api target c)
  unfolding connect Opened Ready
  connect-Ready target args c = go (open_context api target c) (open_context-Opened target args c)
    where
      go :
          (r : Connection api × SendResult)
          → Opened target args r
          → Ready target args (if_accepted api r (authenticate api target))
      go (d, accepted) v = authenticate-Ready target args d v
      go (d, rejected) v = absurd v
      go (d, unavailable) v = v

  judge-Outcome :
      (target : Target) (args : List Bytes) (wanted : Reply) (x : api.Context) (w : api.World)
      (c : Connection api) (reply : Option Reply)
      → c.context ≡ some x
      → c.authenticated ≡ true
      → api.command_argv x args w ≡ (c.world, reply)
      → Outcome target args wanted (judge api wanted (c, reply))
  unfolding judge reset freed Outcome
  judge-Outcome target args wanted x w c none h k e =
      (refl, refl, subst (λ o. GivesUp target args (freed api o c.world)) (sym h) (no_answer e))
  judge-Outcome target args wanted x w c (some reply) h k e =
      if_cases (λ r. Outcome target args wanted (c, r)) (same_reply wanted reply) accepted rejected
        (λ same.
          ((x, w, h, e ∙ ap (λ r. (c.world, some r)) (sym (same_reply→eq wanted reply same))), k))
        (λ other. inl (reply, other_reply-ne wanted reply other, (x, w, h, e)))

  -- A command after what comes before it.
  asked-Outcome :
      (target : Target) (args : List Bytes) (wanted : Reply) (r : Connection api × SendResult)
      → Ready target args r
      → Outcome target args wanted
          (if_accepted api r (λ d. judge api wanted (command api args d d.context)))
  unfolding if_accepted command Ready IsOpen Outcome
  asked-Outcome target args wanted (d, rejected) v = inr v
  asked-Outcome target args wanted (d, unavailable) v = v
  asked-Outcome target args wanted (d, accepted) v =
      subst (λ o. Outcome target args wanted (judge api wanted (command api args d o))) (sym v.0.1)
        (judge-Outcome target args wanted v.0.0 d.world _ (api.command_argv v.0.0 args d.world).1
          v.0.1 v.1 refl)

  -- Whatever the connection was, and whatever hiredis answers: a command is accepted only where it was
  -- answered as wanted, on a connection that is open and noted as authenticated; it is rejected only
  -- where it was answered otherwise, or the login by an error, and the connection stays open; and
  -- it is unavailable only where no good context was to be had or a command had no answer, and then
  -- the connection is given up, its context freed and the note of the login taken back.
  pub send-Outcome :
      (epics : Epics) (target : Target) (name : Bytes) (event : Event) (c : Connection api)
      → Outcome target
          (xadd_args api epics target name event)
          string_reply
          (send api epics target name event c)
        × Outcome target (bytes "PING" ∷ []) status_reply (ping api target c)
  unfolding send ping
  send-Outcome epics target name event c = (
    asked-Outcome target (xadd_args api epics target name event) string_reply (connect api target c)
        (connect-Ready target _ c),
    asked-Outcome target (bytes "PING" ∷ []) status_reply (connect api target c)
        (connect-Ready target _ c),
  )
