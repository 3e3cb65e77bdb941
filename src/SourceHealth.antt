-- ===== src/SourceHealth.antt =====
-- src/source_health.cpp and include/redis_pvxs_ioc/source_health.h. Times are nanoseconds of the
-- monotonic clock, 0 the one that a sample starts with; counters are 64-bit words.
pub mod Ready
pub mod Stale
mod Tests
use redis_pvxs_ioc.Prelude.{
  ℕ, zero, suc, ◌-◌, ◌/◌, String, Bool, true, false, not, ◌&&◌, ◌||◌, Option, ◌==◌, ltb, leb,
  if◌then◌else◌, add64,
}
use redis_pvxs_ioc.Prelude.Int.{ℤ, pos, negsuc}
use redis_pvxs_ioc.Config.{RouteConfig, SourceHealthConfig}

-- RedisAdapter::StreamKind: the kinds that the source names, and any other.
pub data StreamKind : Type 0 where
  missing invalid stream other : StreamKind

-- RedisAdapter::ReaderStatus, by the fields that the source reads.
pub record Reader : Type 1 where
  pub Status : Type 0
  pub active : Status → Bool
  pub connected : Status → Bool
  pub inspected : Status → Bool
  pub inspection_rejections : Status → ℕ
  pub inspection_failures : Status → ℕ
  pub read_rejections : Status → ℕ
  pub epoch : Status → ℕ
  pub stream_kind : Status → StreamKind

pub record SourceSampleState : Type 0 where
  pub valid : Bool
  pub was_stale : Bool
  pub cursor : String
  pub error : String
  pub epoch : ℕ
  pub invalid_samples : ℕ
  pub stale_transitions : ℕ
  pub stale_callbacks : ℕ
  pub accepted_read_rejections : ℕ
  pub seen_epoch : ℕ
  pub received : ℕ

abbrev pub new_sample : SourceSampleState
new_sample = record {
  valid = false;
  was_stale = false;
  cursor = "";
  error = "No valid source data";
  epoch = 0;
  invalid_samples = 0;
  stale_transitions = 0;
  stale_callbacks = 0;
  accepted_read_rejections = 0;
  seen_epoch = 0;
  received = 0;
}

unfoldable pub accept : String → ℕ → ℕ → SourceSampleState → SourceSampleState
accept id captured_epoch now sample = record sample {
  valid = true;
  was_stale = false;
  cursor = id;
  epoch = captured_epoch;
  seen_epoch = captured_epoch;
  received = now;
  error = "";
}

unfoldable pub reject : String → ℕ → SourceSampleState → SourceSampleState
reject reason captured_epoch sample = record sample {
  valid = false;
  seen_epoch = captured_epoch;
  error = reason;
  invalid_samples = add64 sample.invalid_samples 1;
}

pub record SourceStatus (Status : Type 0) : Type 0 where
  pub pv : String
  pub backend : String
  pub key : String
  pub role : String
  pub state : String
  pub error : String
  pub inspection : String
  pub required : Bool
  pub valid : Bool
  pub fresh : Bool
  pub stale : Bool
  pub ready : Bool
  pub stale_after_ms : ℕ
  pub reader_probe_ms : ℕ
  pub last_valid_age_ms : ℤ
  pub last_valid_cursor : String
  pub last_valid_epoch : ℕ
  pub invalid_samples : ℕ
  pub stale_transitions : ℕ
  pub stale_callbacks : ℕ
  pub reader : Status

unfoldable pub stream_kind_name : StreamKind → String
stream_kind_name missing = "missing"
stream_kind_name invalid = "wrong-type"
stream_kind_name stream = "stream"
stream_kind_name other = "unknown"

-- -1 before the first valid sample, then whole milliseconds, and 0 where `now` is earlier.
unfoldable pub age_ms : ℕ → ℕ → ℤ
age_ms now zero = negsuc 0
age_ms now (suc t) = pos ((now - suc t) / 1000000)

-- lastValidAgeMs >= staleAfterMs
unfoldable pub is_old : ℤ → ℕ → Bool
is_old (pos n) limit = leb limit n
is_old (negsuc n) limit = false

unfoldable pub is_missing : StreamKind → Bool
is_missing missing = true
is_missing _ = false

unfoldable pub is_invalid : StreamKind → Bool
is_invalid invalid = true
is_invalid _ = false

module _ (api : Reader) where
  unfoldable pub valid_now : SourceSampleState → api.Status → Bool
  valid_now sample reader = sample.valid && sample.epoch == api.epoch reader

  unfoldable pub stale_now : SourceSampleState → api.Status → SourceHealthConfig → ℕ → Bool
  unfolding valid_now age_ms is_old
  stale_now sample reader config now =
      valid_now sample reader
      && (not (config.stale_after_ms == 0)
          && is_old (age_ms now sample.received) config.stale_after_ms)

  unfoldable pub inspection_of : ℕ → api.Status → String
  inspection_of probe_ms reader =
      if probe_ms == 0
      then "disabled"
      else if api.inspected reader
      then "available"
      else if not (api.inspection_rejections reader == 0)
      then "rejected"
      else if not (api.inspection_failures reader == 0)
      then "unavailable"
      else "pending"

  -- The state, its error, and whether the source is ready.
  unfoldable pub state_of :
      SourceSampleState → api.Status → SourceHealthConfig → Bool → ℕ → String × String × Bool
  unfolding is_missing is_invalid stale_now valid_now
  state_of sample reader config active now =
      if not active || not (api.active reader)
      then ("inactive", "", false)
      else if not (api.connected reader)
      then ("disconnected", "Source reader disconnected", false)
      else if is_missing (api.stream_kind reader)
      then ("missing", "Source stream missing", false)
      else if is_invalid (api.stream_kind reader)
      then ("wrong-type", "Source key is not a Redis stream", false)
      else if ltb sample.accepted_read_rejections (api.read_rejections reader)
      then ("read-rejected", "Source read rejected; waiting for valid data", false)
      else if not sample.valid && sample.seen_epoch == api.epoch reader
      then ("invalid", sample.error, false)
      else if not (sample.epoch == api.epoch reader)
      then ("waiting", "Waiting for valid data in current source epoch", false)
      else if not (valid_now sample reader)
      then ("invalid", sample.error, false)
      else if stale_now sample reader config now
      then ("stale", "Source freshness deadline exceeded", false)
      else ("ready", "", true)

  -- What an assessment writes to the sample.
  unfoldable pub note_stale : Bool → SourceSampleState → SourceSampleState
  note_stale stale sample = record sample {
    was_stale = stale;
    stale_transitions =
        if stale && not sample.was_stale
        then add64 sample.stale_transitions 1
        else sample.stale_transitions;
  }

  unfoldable pub assess_source :
      SourceSampleState
      → api.Status
      → SourceHealthConfig
      → String
      → RouteConfig
      → String
      → Bool
      → ℕ
      → ℕ
      → SourceSampleState × SourceStatus api.Status
  unfolding note_stale state_of inspection_of stale_now valid_now age_ms
  assess_source sample reader config name route role active probe_ms now =
      let stale = stale_now sample reader config now in
      let noted = note_stale stale sample in
      let found = state_of sample reader config active now in
      (
        noted,
        record {
          pv = name;
          backend = route.backend;
          key = route.key;
          role = role;
          state = found.0;
          error = found.1;
          inspection = inspection_of probe_ms reader;
          required = config.required;
          valid = valid_now sample reader;
          fresh = valid_now sample reader && not stale;
          stale = stale;
          ready = found.2;
          stale_after_ms = config.stale_after_ms;
          reader_probe_ms = probe_ms;
          last_valid_age_ms = age_ms now sample.received;
          last_valid_cursor = sample.cursor;
          last_valid_epoch = sample.epoch;
          invalid_samples = noted.invalid_samples;
          stale_transitions = noted.stale_transitions;
          stale_callbacks = noted.stale_callbacks;
          reader = reader;
        },
      )
