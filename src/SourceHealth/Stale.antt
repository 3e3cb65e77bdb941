-- ===== src/SourceHealth/Stale.antt =====
-- How `assessSource` of src/source_health.cpp counts the times that a source becomes stale.
use redis_pvxs_ioc.Prelude.{
  ℕ, ◌+◌, ◌≤◌, ◌<◌, String, ◌≡◌, refl, ◌⊎◌, inl, inr, Bool, true, false, List, [], ◌∷◌, arith, word,
  add64_exact, ◌∙◌, Bool-cases,
}
use redis_pvxs_ioc.Config.{RouteConfig, SourceHealthConfig}
use redis_pvxs_ioc.SourceHealth.{
  Reader, SourceSampleState, age_ms, is_old, valid_now, stale_now, note_stale, assess_source,
}

-- Times that do not run backwards, from a given one on.
unfoldable pub Rises : ℕ → List ℕ → Type 0
Rises now [] = Unit
Rises now (t ∷ ts) = (now ≤ t) × Rises t ts

module _ (api : Reader) (reader : api.Status) (config : SourceHealthConfig) (name : String)
    (route : RouteConfig) (role : String) (active : Bool) (probe_ms : ℕ) where
  -- The sample after an assessment at each of the times, with the reader's status unchanged.
  unfoldable pub polled : SourceSampleState → List ℕ → SourceSampleState
  polled sample [] = sample
  polled sample (now ∷ later) =
      polled (assess_source api sample reader config name route role active probe_ms now).0 later

  stale_now-le :
      (sample : SourceSampleState) (now later : ℕ)
      → now ≤ later
      → stale_now api sample reader config now ≡ true
      → stale_now api sample reader config later ≡ true
  unfolding stale_now age_ms is_old
  stale_now-le sample now later le h = ground arith

  noted : SourceSampleState → ℕ → SourceSampleState
  noted sample now = note_stale api (stale_now api sample reader config now) sample

  was_stale-noted :
      (sample : SourceSampleState) (now : ℕ)
      → (noted sample now).was_stale ≡ stale_now api sample reader config now
  unfolding noted note_stale
  was_stale-noted sample now = refl

  transitions-noted :
      (sample : SourceSampleState) (now : ℕ)
      → sample.stale_transitions + 1 < word
      → (sample.stale_transitions ≤ (noted sample now).stale_transitions)
        × ((noted sample now).stale_transitions ≤ sample.stale_transitions + 1)
  unfolding noted note_stale
  transitions-noted sample now small = (
    ground (arith, add64_exact sample.stale_transitions 1),
    ground (arith, add64_exact sample.stale_transitions 1),
  )

  transitions_kept-noted :
      (sample : SourceSampleState) (now : ℕ)
      → (stale_now api sample reader config now ≡ false) ⊎ (sample.was_stale ≡ true)
      → (noted sample now).stale_transitions ≡ sample.stale_transitions
  unfolding noted note_stale
  transitions_kept-noted sample now h = ground arith

  -- Assessing changes nothing that staleness depends on.
  stale_now-noted :
      (sample : SourceSampleState) (t now : ℕ)
      → stale_now api (noted sample t) reader config now ≡ stale_now api sample reader config now
  unfolding stale_now valid_now noted note_stale
  stale_now-noted sample t now = refl

  polled-stale :
      (sample : SourceSampleState) (now : ℕ) (later : List ℕ)
      → Rises now later
      → sample.was_stale ≡ true
      → stale_now api sample reader config now ≡ true
      → (polled sample later).stale_transitions ≡ sample.stale_transitions
  unfolding polled assess_source noted Rises
  polled-stale sample now [] r w h = refl
  polled-stale sample now (t ∷ ts) (le, r) w h =
      let stale = stale_now-le sample now t le h in
      polled-stale (noted sample t) t ts r (was_stale-noted sample t ∙ stale)
        (stale_now-noted sample t t ∙ stale)
      ∙ transitions_kept-noted sample t (inr w)

  -- While the reader's status stays the same and no sample comes, a source that is assessed at any
  -- number of times becomes stale at most once.
  pub polled-once :
      (sample : SourceSampleState) (now : ℕ) (later : List ℕ)
      → Rises now later
      → sample.stale_transitions + 1 < word
      → (sample.stale_transitions ≤ (polled sample later).stale_transitions)
        × ((polled sample later).stale_transitions ≤ sample.stale_transitions + 1)
  unfolding polled assess_source noted Rises
  polled-once sample now [] r small = (omega arith, omega arith)
  polled-once sample now (t ∷ ts) (le, r) small =
      elim (Bool-cases (stale_now api sample reader config t)) [
        | inl stale ↦
            let same =
              polled-stale (noted sample t) t ts r (was_stale-noted sample t ∙ stale)
                (stale_now-noted sample t t ∙ stale) in
            let grown = transitions-noted sample t small in
            (omega (arith, same, grown.0), omega (arith, same, grown.1))
        | inr timely ↦
            let same = transitions_kept-noted sample t (inl timely) in
            let rest = polled-once (noted sample t) t ts r (omega (arith, same, small)) in
            (omega (arith, same, rest.0), omega (arith, same, rest.1))
      ]
