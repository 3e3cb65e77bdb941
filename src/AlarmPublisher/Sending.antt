-- ===== src/AlarmPublisher/Sending.antt =====
-- What the alarm publisher sends to Redis: `makeAlarmStreamFields` of src/alarm_publisher.cpp, and
-- `connect`, `send` and `ping` of src/alarm_worker.cpp over an interface of what they call of hiredis. A
-- slot's name and what else goes to Redis are bytes.
pub mod Outcomes
use redis_pvxs_ioc.Prelude.{
  ℕ, ◌*◌, ◌/◌, ◌%◌, Bool, true, false, not, ◌&&◌, ◌||◌, Option, none, some, List, [], ◌∷◌, ◌++◌,
  if◌then◌else◌, get_or,
}
use redis_pvxs_ioc.Prelude.Int.{ℤ, pos, negsuc}
use redis_pvxs_ioc.Prelude.Bytes.{Bytes, bytes}
use redis_pvxs_ioc.AlarmPublisher.{StoredState}
use redis_pvxs_ioc.AlarmPublisher.Slots.{Event, same_int}
use redis_pvxs_ioc.AlarmPublisher.Worker.{SendResult, accepted, rejected, unavailable}

-- The names and constants of EPICS's alarm.h, and std::to_string
pub record Epics : Type 0 where
  pub condition_strings : List Bytes
  pub severity_strings : List Bytes
  pub alarm_none : ℤ
  pub sev_none : ℤ
  pub sev_invalid : ℕ
  pub to_string : ℕ → Bytes

-- A name of a table, where it has one.
unfoldable pub name_in : List Bytes → Bytes → ℤ → Bytes
name_in names other (pos n) = get_or names n other
name_in names other (negsuc n) = other

unfoldable pub is_empty : Bytes → Bool
is_empty [] = true
is_empty (b ∷ bs) = false

unfoldable pub make_alarm_stream_fields : Epics → Bytes → StoredState → ℕ → List (Bytes × Bytes)
unfolding name_in is_empty same_int
make_alarm_stream_fields epics pv_name state timestamp =
    let status = name_in epics.condition_strings (bytes "INVALID") state.status in
    let severity =
      name_in epics.severity_strings (get_or epics.severity_strings epics.sev_invalid [])
        state.severity in
    let clear = same_int state.status epics.alarm_none && same_int state.severity epics.sev_none in
    (bytes "device", pv_name)
    ∷ (bytes "source", status)
    ∷ (bytes "severity", severity)
    ∷ (bytes "timestamp", epics.to_string timestamp)
    ∷ (bytes "detail", status)
    ∷ (if clear
        then []
        else (
          bytes "message",
          (if is_empty state.message
              then status ++ bytes " alarm is " ++ severity
              else state.message),
        )
          ∷ [])

pub data Reply : Type 0 where
  string_reply status_reply error_reply other_reply : Reply

unfoldable pub same_reply : Reply → Reply → Bool
same_reply string_reply string_reply = true
same_reply status_reply status_reply = true
same_reply error_reply error_reply = true
same_reply other_reply other_reply = true
same_reply _ _ = false

-- hiredis: its calls may change the world, and what they give depends on it.
pub record Hiredis : Type 1 where
  pub World : Type 0
  pub Context : Type 0
  pub has_error : Context → World → Bool
  pub connect_with_timeout : Bytes → ℕ → ℕ × ℕ → World → World × Option Context
  pub set_timeout : Context → ℕ × ℕ → World → World × Bool
  pub free : Context → World → World
  pub command_argv : Context → List Bytes → World → World × Option Reply

pub record Target : Type 0 where
  pub host : Bytes
  pub port : ℕ
  pub stream : Bytes
  pub user : Bytes
  pub password : Bytes
  pub io_timeout_ms : ℕ

-- timeval
unfoldable pub timeval : ℕ → ℕ × ℕ
timeval ms = (ms / 1000, ms % 1000 * 1000)

module _ (api : Hiredis) where
  pub record Connection : Type 0 where
    pub context : Option api.Context
    pub authenticated : Bool
    pub world : api.World

  unfoldable pub freed : Option api.Context → api.World → api.World
  freed none w = w
  freed (some x) w = api.free x w

  unfoldable pub reset : Connection → Connection
  unfolding freed
  reset c = record { context = none; authenticated = false; world = freed c.context c.world }

  -- if (result != SendResult::Accepted) return result;
  unfoldable pub if_accepted :
      Connection × SendResult → (Connection → Connection × SendResult) → Connection × SendResult
  if_accepted (c, accepted) f = f c
  if_accepted (c, rejected) f = (c, rejected)
  if_accepted (c, unavailable) f = (c, unavailable)

  unfoldable pub is_usable : Connection → Option api.Context → Bool
  is_usable c none = false
  is_usable c (some x) = not (api.has_error x c.world)

  abbrev pub opened : api.Context → api.World → Connection
  opened x w = record { context = some x; authenticated = false; world = w }

  unfoldable pub after_timeout : api.Context → api.World × Bool → Connection × SendResult
  unfolding reset
  after_timeout x (w, set) =
      if set then (opened x w, accepted) else (reset (opened x w), unavailable)

  unfoldable pub after_connect : Target → api.World × Option api.Context → Connection × SendResult
  unfolding reset after_timeout timeval
  after_connect target (w, none) =
      (record { context = none; authenticated = false; world = w }, unavailable)
  after_connect target (w, some x) =
      if api.has_error x w
      then (reset (opened x w), unavailable)
      else after_timeout x (api.set_timeout x (timeval target.io_timeout_ms) w)

  unfoldable pub open_context : Target → Connection → Connection × SendResult
  unfolding is_usable reset after_connect timeval
  open_context target c =
      if is_usable c c.context
      then (c, accepted)
      else after_connect target (
          api.connect_with_timeout target.host target.port (timeval target.io_timeout_ms)
            (reset c).world)

  -- A command, for which there is a context.
  unfoldable pub command : List Bytes → Connection → Option api.Context → Connection × Option Reply
  command args c none = (c, none)
  command args c (some x) =
      let (w, reply) = api.command_argv x args c.world in (record c { world = w }, reply)

  unfoldable pub after_auth : Connection × Option Reply → Connection × SendResult
  unfolding reset
  after_auth (c, none) = (reset c, unavailable)
  after_auth (c, some error_reply) = (c, rejected)
  after_auth (c, some _) = (record c { authenticated = true }, accepted)

  unfoldable pub auth_args : Target → List Bytes
  unfolding is_empty
  auth_args target =
      if is_empty target.user
      then bytes "AUTH" ∷ target.password ∷ []
      else bytes "AUTH" ∷ target.user ∷ target.password ∷ []

  unfoldable pub authenticate : Target → Connection → Connection × SendResult
  unfolding is_empty command after_auth auth_args
  authenticate target c =
      if not c.authenticated && (not (is_empty target.user) || not (is_empty target.password))
      then after_auth (command (auth_args target) c c.context)
      else (record c { authenticated = true }, accepted)

  unfoldable pub connect : Target → Connection → Connection × SendResult
  unfolding if_accepted open_context authenticate
  connect target c = if_accepted (open_context target c) (authenticate target)

  -- The reply that is wanted, and then another or none.
  unfoldable pub judge : Reply → Connection × Option Reply → Connection × SendResult
  unfolding reset same_reply
  judge wanted (c, none) = (reset c, unavailable)
  judge wanted (c, some reply) = (c, (if same_reply wanted reply then accepted else rejected))

  unfoldable pub flat : List (Bytes × Bytes) → List Bytes
  flat [] = []
  flat ((name, value) ∷ fields) = name ∷ value ∷ flat fields

  unfoldable pub xadd_args : Epics → Target → Bytes → Event → List Bytes
  unfolding flat make_alarm_stream_fields
  xadd_args epics target name event =
      bytes "XADD"
      ∷ target.stream
      ∷ bytes "MAXLEN"
      ∷ bytes "99999"
      ∷ bytes "*"
      ∷ flat (make_alarm_stream_fields epics name event.state event.timestamp)

  unfoldable pub send : Epics → Target → Bytes → Event → Connection → Connection × SendResult
  unfolding if_accepted connect command judge xadd_args
  send epics target name event c =
      if_accepted (connect target c)
        λ d. judge string_reply (command (xadd_args epics target name event) d d.context)

  unfoldable pub ping : Target → Connection → Connection × SendResult
  unfolding if_accepted connect command judge
  ping target c =
      if_accepted (connect target c)
        λ d. judge status_reply (command (bytes "PING" ∷ []) d d.context)
