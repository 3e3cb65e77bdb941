-- ===== src/Alarms/Severities.antt =====
-- What `evaluateNumericAlarm` of src/util.cpp makes of a value, a configuration and a prior status.
use redis_pvxs_ioc.Prelude.{ℕ, ◌≤◌, ◌≡◌, ◌↔◌, ◌⊎◌, refl, ap, true, Option, none, some, arith}
use redis_pvxs_ioc.Config.{AlarmConfig}
use redis_pvxs_ioc.Alarms.{
  Doubles, Severity, Status, sev_none, sev_minor, sev_major, sev_invalid, no_alarm, hi_hi, lo_lo,
  same_status, is_set, has_alarm_rules, at_least, at_most, keeps_high, keeps_low,
  evaluate_numeric_alarm,
}

-- The order of the severities in EPICS.
unfoldable pub rank : Severity → ℕ
rank sev_none = 0
rank sev_minor = 1
rank sev_major = 2
rank sev_invalid = 3

module _ (d : Doubles) (alarms : AlarmConfig d.Number) (value : d.Number) where
  -- To evaluate again the value that gave an alarm, with the status that it gave, changes nothing.
  pub evaluate_numeric_alarm-twice :
      (prior : Status)
      → evaluate_numeric_alarm d alarms value (evaluate_numeric_alarm d alarms value prior).status
        ≡ evaluate_numeric_alarm d alarms value prior
  unfolding evaluate_numeric_alarm same_status
  evaluate_numeric_alarm-twice prior = ground arith

  -- A prior status never lowers the severity below that of the value alone.
  pub rank-evaluate_numeric_alarm :
      (prior : Status)
      → rank (evaluate_numeric_alarm d alarms value no_alarm).severity
        ≤ rank (evaluate_numeric_alarm d alarms value prior).severity
  unfolding evaluate_numeric_alarm same_status rank
  rank-evaluate_numeric_alarm prior = ground arith

  -- The severity is major exactly for a finite value that is past an alarm limit, or that has not come
  -- back from the limit that it was past by more than the hysteresis.
  pub evaluate_numeric_alarm-major_iff :
      (prior : Status)
      → ((evaluate_numeric_alarm d alarms value prior).severity ≡ sev_major)
        ↔ (d.is_finite value ≡ true)
          × ((at_least d alarms.high_alarm value ≡ true)
              ⊎ (at_most d alarms.low_alarm value ≡ true)
              ⊎ (prior ≡ hi_hi) × (keeps_high d alarms.high_alarm alarms.hysteresis value ≡ true)
              ⊎ (prior ≡ lo_lo) × (keeps_low d alarms.low_alarm alarms.hysteresis value ≡ true))
  unfolding evaluate_numeric_alarm same_status has_alarm_rules is_set at_least at_most keeps_high
      keeps_low
  evaluate_numeric_alarm-major_iff prior = (λ h. (ground arith, ground arith), λ h. ground arith)

  keeps_high-at_least :
      ((limit : d.Number) → d.minus limit alarms.hysteresis ≡ limit)
      → (limit : Option d.Number)
      → keeps_high d limit alarms.hysteresis value ≡ at_least d limit value
  unfolding keeps_high at_least
  keeps_high-at_least down none = refl
  keeps_high-at_least down (some limit) = ap (λ l. d.le l value) (down limit)

  keeps_low-at_most :
      ((limit : d.Number) → d.plus limit alarms.hysteresis ≡ limit)
      → (limit : Option d.Number)
      → keeps_low d limit alarms.hysteresis value ≡ at_most d limit value
  unfolding keeps_low at_most
  keeps_low-at_most up none = refl
  keeps_low-at_most up (some limit) = ap (λ l. d.le value l) (up limit)

  -- Where the hysteresis changes no limit, the prior status plays no part.
  pub evaluate_numeric_alarm-no_hysteresis :
      ((limit : d.Number) → d.minus limit alarms.hysteresis ≡ limit)
      → ((limit : d.Number) → d.plus limit alarms.hysteresis ≡ limit)
      → (prior : Status)
      → evaluate_numeric_alarm d alarms value prior ≡ evaluate_numeric_alarm d alarms value no_alarm
  unfolding evaluate_numeric_alarm
  evaluate_numeric_alarm-no_hysteresis down up prior = ground (
    arith,
    keeps_high-at_least down alarms.high_alarm,
    keeps_high-at_least down alarms.high_warning,
    keeps_low-at_most up alarms.low_alarm,
    keeps_low-at_most up alarms.low_warning,
  )
