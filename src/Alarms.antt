-- ===== src/Alarms.antt =====
-- `hasAlarmRules` and `evaluateNumericAlarm` of src/util.cpp. What the source uses of `double` and
-- of the EPICS codes of an alarm's severity and status are parameters and names.
pub mod Severities
mod Tests
use redis_pvxs_ioc.Prelude.{
  ℕ, String, Bool, true, false, not, ◌&&◌, ◌||◌, Option, none, some, ◌==◌, if◌then◌else◌,
}
use redis_pvxs_ioc.Config.{AlarmConfig}

-- `double`, as far as alarms use it: `le a b` is `a <= b`, which is `b >= a`.
pub record Doubles : Type 1 where
  pub Number : Type 0
  pub le : Number → Number → Bool
  pub plus : Number → Number → Number
  pub minus : Number → Number → Number
  pub is_finite : Number → Bool

pub data Severity : Type 0 where
  sev_none sev_minor sev_major sev_invalid : Severity

-- The codes that the source names, and the others.
pub data Status : Type 0 where
  no_alarm hi_hi lo_lo high low udf : Status
  other : ℕ → Status

pub record AlarmState : Type 0 where
  pub severity : Severity
  pub status : Status
  pub message : String

unfoldable pub same_status : Status → Status → Bool
same_status no_alarm no_alarm = true
same_status hi_hi hi_hi = true
same_status lo_lo lo_lo = true
same_status high high = true
same_status low low = true
same_status udf udf = true
same_status (other m) (other n) = m == n
same_status _ _ = false

unfoldable pub is_set {ℓ} : {A : Type ℓ} → Option A → Bool
is_set none = false
is_set (some a) = true

module _ (d : Doubles) where
  unfoldable pub has_alarm_rules : AlarmConfig d.Number → Bool
  unfolding is_set
  has_alarm_rules alarms =
      is_set alarms.low_alarm
      || (is_set alarms.low_warning || (is_set alarms.high_warning || is_set alarms.high_alarm))

  -- limit && value >= *limit
  unfoldable pub at_least : Option d.Number → d.Number → Bool
  at_least none value = false
  at_least (some limit) value = d.le limit value

  -- limit && value <= *limit
  unfoldable pub at_most : Option d.Number → d.Number → Bool
  at_most none value = false
  at_most (some limit) value = d.le value limit

  -- limit && value >= *limit - hyst
  unfoldable pub keeps_high : Option d.Number → d.Number → d.Number → Bool
  keeps_high none hyst value = false
  keeps_high (some limit) hyst value = d.le (d.minus limit hyst) value

  -- limit && value <= *limit + hyst
  unfoldable pub keeps_low : Option d.Number → d.Number → d.Number → Bool
  keeps_low none hyst value = false
  keeps_low (some limit) hyst value = d.le value (d.plus limit hyst)

  unfoldable pub evaluate_numeric_alarm : AlarmConfig d.Number → d.Number → Status → AlarmState
  unfolding same_status
  evaluate_numeric_alarm alarms value prior =
      if not (d.is_finite value)
      then record { severity = sev_invalid; status = udf; message = "Non-finite source value" }
      else if not (has_alarm_rules alarms)
      then record { severity = sev_none; status = no_alarm; message = "" }
      else if at_least alarms.high_alarm value
      then record { severity = sev_major; status = hi_hi; message = "High alarm" }
      else if at_most alarms.low_alarm value
      then record { severity = sev_major; status = lo_lo; message = "Low alarm" }
      else if same_status prior hi_hi && keeps_high alarms.high_alarm alarms.hysteresis value
      then record { severity = sev_major; status = hi_hi; message = "High alarm" }
      else if same_status prior lo_lo && keeps_low alarms.low_alarm alarms.hysteresis value
      then record { severity = sev_major; status = lo_lo; message = "Low alarm" }
      else if at_least alarms.high_warning value
      then record { severity = sev_minor; status = high; message = "High warning" }
      else if at_most alarms.low_warning value
      then record { severity = sev_minor; status = low; message = "Low warning" }
      else if same_status prior high && keeps_high alarms.high_warning alarms.hysteresis value
      then record { severity = sev_minor; status = high; message = "High warning" }
      else if same_status prior low && keeps_low alarms.low_warning alarms.hysteresis value
      then record { severity = sev_minor; status = low; message = "Low warning" }
      else record { severity = sev_none; status = no_alarm; message = "" }
