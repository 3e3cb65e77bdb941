-- ===== src/SourceHealth/Ready.antt =====
-- When `assessSource` of src/source_health.cpp reports a source as ready, also after `accept` and
-- `reject`.
use redis_pvxs_ioc.Prelude.{
  ℕ, ◌+◌, ◌*◌, ◌≤◌, ◌<◌, String, ◌≡◌, ◌≢◌, ◌↔◌, ◌⊎◌, refl, ap, Bool, true, false, arith,
}
use redis_pvxs_ioc.Config.{RouteConfig, SourceHealthConfig}
use redis_pvxs_ioc.SourceHealth.{
  Reader, SourceSampleState, SourceStatus, missing, invalid, accept, reject, age_ms, is_old,
  is_missing, is_invalid, valid_now, stale_now, state_of, assess_source,
}

-- The reader is in use, connected, on a stream, and has refused nothing since the last valid sample.
pub record IsUsable (api : Reader) (sample : SourceSampleState) (reader : api.Status)
    (active : Bool) : Type 0 where
  pub in_use : active ≡ true
  pub reads : api.active reader ≡ true
  pub linked : api.connected reader ≡ true
  pub found : api.stream_kind reader ≢ missing
  pub well_typed : api.stream_kind reader ≢ invalid
  pub unrefused : api.read_rejections reader ≤ sample.accepted_read_rejections

-- The last sample is not older than the deadline, if there is one.
abbrev pub IsTimely : SourceSampleState → SourceHealthConfig → ℕ → Type 0
IsTimely sample config now =
    (config.stale_after_ms ≡ 0)
    ⊎ (sample.received ≡ 0)
    ⊎ (now < sample.received + config.stale_after_ms * 1000000)

module _ (api : Reader) (sample : SourceSampleState) (reader : api.Status)
    (config : SourceHealthConfig) (name : String) (route : RouteConfig) (role : String)
    (active : Bool) (probe_ms now : ℕ) where
  abbrev pub assessed : SourceStatus api.Status
  assessed = (assess_source api sample reader config name route role active probe_ms now).1

  -- A source is ready exactly when its reader is usable, its last sample is valid, of the reader's
  -- epoch, and not older than the deadline.
  pub assess_source-ready_iff :
      (assessed.ready ≡ true)
      ↔ IsUsable api sample reader active
        × (sample.valid ≡ true)
        × (sample.epoch ≡ api.epoch reader)
        × IsTimely sample config now
  unfolding assess_source state_of stale_now valid_now is_missing is_invalid age_ms is_old
  assess_source-ready_iff = (
    λ h. (
      record {
        in_use = ground arith;
        reads = ground arith;
        linked = ground arith;
        found = λ e. ground arith;
        well_typed = λ e. ground arith;
        unrefused = ground arith;
      },
      ground arith,
      ground arith,
      ground arith,
    ),
    λ (u, v, e, t). ground (arith, u.in_use, u.reads, u.linked, u.found, u.well_typed, u.unrefused),
  )

module _ (api : Reader) (sample : SourceSampleState) (reader : api.Status)
    (config : SourceHealthConfig) (name : String) (route : RouteConfig) (role : String)
    (usable : IsUsable api sample reader true) where
  -- After a valid sample of the reader's epoch, at a time past 0 and while its reader is usable, a
  -- source is ready for as long as the deadline says, or for ever where there is none, and is stale
  -- from then on.
  pub assess_source-accept :
      (id : String) (probe_ms t now : ℕ)
      → 0 < t
      → let status =
          assessed api
            (accept id (api.epoch reader) t sample)
            reader
            config
            name
            route
            role
            true
            probe_ms
            now in
        ((status.ready ≡ true)
          ↔ (config.stale_after_ms ≡ 0) ⊎ (now < t + config.stale_after_ms * 1000000))
        × ((status.stale ≡ true)
            ↔ (1 ≤ config.stale_after_ms) × (t + config.stale_after_ms * 1000000 ≤ now))
  unfolding assess_source state_of stale_now valid_now is_missing is_invalid age_ms is_old accept
  assess_source-accept id probe_ms t now late = (
    (
      λ h. ground arith,
      λ h.
          ground
            (arith, usable.reads, usable.linked, usable.found, usable.well_typed, usable.unrefused),
    ),
    (λ h. ground arith, λ h. ground arith),
  )

  state_of-reject :
      (reason : String) (now : ℕ)
      → state_of api (reject reason (api.epoch reader) sample) reader config true now
        ≡ ("invalid", reason, false)
  unfolding state_of is_missing is_invalid reject
  state_of-reject reason now =
      ground (arith, usable.reads, usable.linked, usable.found, usable.well_typed, usable.unrefused)

  -- After a rejected sample of the reader's epoch, while the reader is usable, a source is invalid for
  -- the reason of the rejection, whatever the time; what it says of the last valid sample stays.
  pub assess_source-reject :
      (reason : String) (probe_ms now : ℕ)
      → let status =
          assessed api
            (reject reason (api.epoch reader) sample)
            reader
            config
            name
            route
            role
            true
            probe_ms
            now in
        (status.state ≡ "invalid")
        × (status.error ≡ reason)
        × (status.ready ≡ false)
        × (status.fresh ≡ false)
        × (status.last_valid_cursor ≡ sample.cursor)
        × (status.last_valid_epoch ≡ sample.epoch)
        × (status.last_valid_age_ms ≡ age_ms now sample.received)
  unfolding assess_source valid_now reject
  assess_source-reject reason probe_ms now =
      let found = state_of-reject reason now in
      (ap (λ x. x.0) found, ap (λ x. x.1) found, ap (λ x. x.2) found, refl, refl, refl, refl)
