-- ===== src/SourceHealth/Tests.antt =====
-- Runs of src/source_health.cpp on a small reader, and the theorems at them.
use redis_pvxs_ioc.Prelude.{ℕ, ◌+◌, ◌*◌, ◌≤◌, ◌<◌, ◌≡◌, refl, ◌↔◌, ◌⊎◌, true, [], ◌∷◌, arith}
use redis_pvxs_ioc.Config.{RouteConfig, SourceHealthConfig}
use redis_pvxs_ioc.SourceHealth.{Reader, SourceSampleState, new_sample, accept, reject, stream}
use redis_pvxs_ioc.SourceHealth.Ready.{
  IsUsable, IsTimely, assessed, assess_source-ready_iff, assess_source-accept,
}
use redis_pvxs_ioc.SourceHealth.Stale.{Rises, polled, polled-once}

-- A status is its epoch.
abbrev api : Reader
api = record {
  Status = ℕ;
  active = λ s. true;
  connected = λ s. true;
  inspected = λ s. true;
  inspection_rejections = λ s. 0;
  inspection_failures = λ s. 0;
  read_rejections = λ s. 0;
  epoch = λ s. s;
  stream_kind = λ s. stream;
}

abbrev config : SourceHealthConfig
config = record { required = true; stale_after_ms = 5 }

abbrev route : RouteConfig
route = record { backend = "main"; key = "beam" }

usable : IsUsable api new_sample 1 true
usable = record {
  in_use = refl;
  reads = refl;
  linked = refl;
  found = λ e. ground arith;
  well_typed = λ e. ground arith;
  unrefused = omega arith;
}

abbrev good : SourceSampleState
good = accept "1-0" 1 7000000 new_sample

assess_source-ready_iff_example :
    ((assessed api good 1 config "PV" route "read" true 0 9000000).ready ≡ true)
    ↔ IsUsable api good 1 true
      × (good.valid ≡ true)
      × (good.epoch ≡ 1)
      × IsTimely good config 9000000
assess_source-ready_iff_example =
    assess_source-ready_iff api good 1 config "PV" route "read" true 0 9000000

assess_source-accept_example :
    (((assessed api good 1 config "PV" route "read" true 0 12000000).ready ≡ true)
      ↔ (config.stale_after_ms ≡ 0) ⊎ (12000000 < 7000000 + 5 * 1000000))
    × (((assessed api good 1 config "PV" route "read" true 0 12000000).stale ≡ true)
        ↔ (1 ≤ 5) × (7000000 + 5 * 1000000 ≤ 12000000))
assess_source-accept_example =
    assess_source-accept api new_sample 1 config "PV" route "read" usable "1-0" 0 7000000 12000000
      (omega arith)

abbrev bad : SourceSampleState
bad = reject "not a number" 1 new_sample

rising : Rises 0 (8000000 ∷ 12000000 ∷ 90000000 ∷ [])
unfolding Rises
rising = (omega arith, (omega arith, (omega arith, tt)))

polled-once_example :
    (0
      ≤ (polled api 1 config "PV" route "read" true 0 good
          (8000000 ∷ 12000000 ∷ 90000000 ∷ [])).stale_transitions)
    × ((polled api 1 config "PV" route "read" true 0 good
          (8000000 ∷ 12000000 ∷ 90000000 ∷ [])).stale_transitions
        ≤ 0 + 1)
unfolding accept
polled-once_example =
    polled-once api 1 config "PV" route "read" true 0 good 0 (8000000 ∷ 12000000 ∷ 90000000 ∷ [])
      rising (omega arith)
