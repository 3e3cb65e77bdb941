-- ===== src/Lib.antt =====
-- redis-pvxs-ioc serves values that live in Redis as EPICS process variables (PVs). A configuration
-- names the PVs, src/app.cpp builds the bound objects of src/runtime.cpp from it, which subscribe to
-- Redis, put what arrives into PVXS and answer gets, puts and RPCs from clients. What may block runs on
-- the operation queue; a source whose data is not fresh, or a value out of its limits, raises an alarm.
--
-- The files, and the code that each is about:
-- Prelude: shared names, the Boolean tests, lists over the native numbers, 64-bit words (`word` is
--   2 ^ 64, `add64` and `sub64` wrap), results for code that throws, integers.
-- Config: the structs of include/redis_pvxs_ioc/config.h, and in Defaults their initialisers.
-- ConfigParser: src/config.cpp from a YAML document to `AppConfig`, over the interface `Yaml` of what it
--   uses of yaml-cpp, of `double` and of the host. Tree is `validateTree`, Values the types, shapes and
--   initial values, Access, Redis, Pv and Limits the sections of these names with what they accept
--   (Pv/Ordered, Limits/Valid), Serve the loop of `parseConfig` over the PVs, whose state is `Served`,
--   and Root `parseConfig` (Root/Whole). Text holds what the source does with texts, Names `toString`.
--   Serve/Accepted and Root/Accepted say what an accepted configuration is like.
-- OperationQueue: `OperationQueue` of src/operation_queue.cpp. The state is the record
--   `OperationQueue` (the fields of `Impl`), and each critical section under `mutex` is one function of
--   it: `submit`, `cancel`, `stop_accepting` and `stop_clear` (`stop`), `take` and `finish` (the two
--   sections of `worker`), `expire` (a round of the timer). Tasks holds the task table and its lanes
--   seen through it, Threads the sections of the threads, Invariant the well-formedness and its
--   preservation, Reach any interleaving of the sections as a history. `none` stands for a throw.
-- NdArray: src/ntndarray.cpp: `parse_frame` (`parseNDArrayFrame`) with all it calls, Shape
--   (`parseShape`, `validateColorShape`), Frame (sizes and validity), Gap (`assessNDArrayFrameGap`).
-- Alarms: `hasAlarmRules` and `evaluateNumericAlarm` of src/util.cpp, over the interface `Doubles` of
--   what they use of `double`. Severities says what severity they give.
-- Acf: the reader of access policies in src/access_control.cpp: `tokenize_acf` (`tokenizeAcf`) here, and
--   `AcfSubsetParser` in Parser (Lists for groups of users and hosts, Rules for access groups). Tokens
--   and Parser/Ends, Whole and Groups hold what is shown of them for any text. Parser/Policy says what a
--   policy is and how it is written, and Reading, Conditions, Definitions, WrittenGroups and Accepted
--   what the parser makes of one. Loops run on the number of characters or tokens left, plus one, which
--   is enough since each round takes one.
-- Access: the channels of clients in src/access_control.cpp: `recompute` and `access_changed`
--   (`accessChanged`) of `ChannelState`, `on_read` (onGet, onSubscribe and Info) and `on_write` (onPut and
--   onRPC) of the Authorized classes, and `AccessOperation`. A client of the access library is what it
--   answers. Audit is about histories of operations (their `World` has, beside the state, with what
--   outcomes operations have ended), Revocation about rights that are taken back.
-- Endpoints: include/redis_pvxs_ioc/endpoints.h: `reserve`, `add_pv` and `configured_endpoints` of the
--   registry of names, with the names of src/config.cpp. Unique says what an accepted registry holds.
-- AlarmPublisher: src/alarm_worker.cpp. `StoredState` (`encode`) and `Budget` (`acquire`, `release`) are
--   here, Ring is the ring of events of `Impl`, Slots its slots with its fields (the record
--   `AlarmPublisher`), Threads the calls of a registration (`update`, `prepare`, `activate`, `retire`,
--   `remove`, with `create_publisher` for the constructor), and Worker a round of `run` before and after
--   it lets go of the mutex to send (`begin_round`, `end_round`), and `status`. A weak pointer to a slot
--   is the slot's id. Reach has these sections in any order, with what Redis has accepted of each slot,
--   and `free_reservation` (`~Reservation`) for a removed slot once the worker has let go of it;
--   Ids, Story, Tracks and Consistent say how this and the events on their way stand to the slots.
--   Sending is `connect`, `send` and `ping` over an interface of hiredis, with `makeAlarmStreamFields` of
--   src/alarm_publisher.cpp. Delivered and Progress are about what Redis gets, Ring/Histories about the
--   ring as a queue, Encoding about the shortening of messages, Budgets about histories of reservations.
-- QueuedExec: include/redis_pvxs_ioc/queued_exec.h: `finish`, `wake_by` (`wake`) and the atomic steps of
--   `ticket` and `onCancel`. Once is about the answer to the client, Cancelling about the ticket.
-- Secrets: src/secrets.cpp, with what the system calls give as arguments; Line says what is accepted.
-- SourceHealth: src/source_health.cpp: `SourceSampleState` with `accept` and `reject`, and
--   `assess_source` (`assessSource`), over the interface `Reader` of the fields of RedisAdapter's
--   reader status. Ready says when a source is ready, Stale how transitions are counted.
--
-- Bounds and fuel. Ids, revisions and byte counts are 64-bit words; theorems that need an id
-- not to wrap say so, and a `Step` of the alarm publisher or of Access has it that there are some left.
-- The loop of `parseShape` runs on the number of dimensions still allowed, which is the test that the
-- source makes before each round, and `validateTree` on the 64 ancestors that it allows, so neither
-- needs further fuel. Time is a number that the caller gives.
--
-- Not modelled: waiting on condition variables and joining threads, what the callbacks do, and the
-- parts of the program that have no file here: the loading and printing of configurations, the access
-- policy's macros, reload and watcher, application and reload, the runtime, the NT metadata of
-- src/util.cpp, discovery, ChannelFinder, gRPC. Redis, PVXS and EPICS are third-party.
pub mod Prelude
pub mod Config
pub mod Access
pub mod Acf
pub mod AlarmPublisher
pub mod Alarms
pub mod ConfigParser
pub mod Endpoints
pub mod NdArray
pub mod OperationQueue
pub mod QueuedExec
pub mod Secrets
pub mod SourceHealth
