-- ===== src/Alarms/Tests.antt =====
-- Runs of `evaluateNumericAlarm` of src/util.cpp over numbers that stand for doubles, and the
-- theorems at them.
use redis_pvxs_ioc.Prelude.{ℕ, ◌+◌, ◌-◌, ◌≡◌, ◌↔◌, ◌⊎◌, refl, true, none, some, arith, leb}
use redis_pvxs_ioc.Config.{AlarmConfig}
use redis_pvxs_ioc.Alarms.{
  Doubles, AlarmState, sev_major, no_alarm, hi_hi, lo_lo, has_alarm_rules, at_least, at_most,
  keeps_high, keeps_low, evaluate_numeric_alarm,
}
use redis_pvxs_ioc.Alarms.Severities.{
  evaluate_numeric_alarm-major_iff, evaluate_numeric_alarm-no_hysteresis,
}

abbrev numbers : Doubles
numbers = record {
  Number = ℕ;
  le = leb;
  plus = λ a b. a + b;
  minus = λ a b. a - b;
  is_finite = λ a. true;
}

abbrev alarms : ℕ → AlarmConfig ℕ
alarms hysteresis = record {
  low_alarm = some 10;
  low_warning = none;
  high_warning = some 80;
  high_alarm = some 90;
  hysteresis = hysteresis;
}

abbrev hi_hi_state : AlarmState
hi_hi_state = record { severity = sev_major; status = hi_hi; message = "High alarm" }

keeps_alarm : evaluate_numeric_alarm numbers (alarms 5) 86 hi_hi ≡ hi_hi_state
unfolding evaluate_numeric_alarm has_alarm_rules at_least at_most keeps_high
keeps_alarm = refl

evaluate_numeric_alarm-major_iff_example :
    ((evaluate_numeric_alarm numbers (alarms 5) 86 hi_hi).severity ≡ sev_major)
    ↔ (true ≡ true)
      × ((at_least numbers (some 90) 86 ≡ true)
          ⊎ (at_most numbers (some 10) 86 ≡ true)
          ⊎ (hi_hi ≡ hi_hi) × (keeps_high numbers (some 90) 5 86 ≡ true)
          ⊎ (hi_hi ≡ lo_lo) × (keeps_low numbers (some 10) 5 86 ≡ true))
evaluate_numeric_alarm-major_iff_example =
    evaluate_numeric_alarm-major_iff numbers (alarms 5) 86 hi_hi

evaluate_numeric_alarm-no_hysteresis_example :
    evaluate_numeric_alarm numbers (alarms 0) 86 hi_hi
    ≡ evaluate_numeric_alarm numbers (alarms 0) 86 no_alarm
evaluate_numeric_alarm-no_hysteresis_example =
    evaluate_numeric_alarm-no_hysteresis numbers (alarms 0) 86 (λ limit. omega arith)
      (λ limit. omega arith) hi_hi
