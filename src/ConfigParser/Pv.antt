-- ===== src/ConfigParser/Pv.antt =====
-- The metadata, alarms and transform of a PV, as src/config.cpp reads them.
pub mod Definition
pub mod Rpc
pub mod Ordered
use redis_pvxs_ioc.Prelude.{
  ℕ, suc, String, Bool, true, false, not, ◌&&◌, ◌||◌, Option, none, some, List, [], ◌∷◌,
  if◌then◌else◌, str_eq,
}
use redis_pvxs_ioc.Prelude.Results.{Result, ok, err, ◌>>=◌, ◌>>◌}
use redis_pvxs_ioc.Config.{
  PrimitiveType, LimitConfig, MetadataConfig, AlarmConfig, LinearTransformConfig,
}
use redis_pvxs_ioc.Config.Defaults.{no_limits, default_metadata, default_alarms}
use redis_pvxs_ioc.ConfigParser.{
  Yaml, Where, Parsed, below, refuse, parse_string, parse_signed, parse_number, optional,
  optional_some, reject_unknown_keys,
}
use redis_pvxs_ioc.ConfigParser.Text.{lower_copy}
use redis_pvxs_ioc.ConfigParser.Values.{parse_display_form}

module _ (y : Yaml) where
  abbrev pub parse_double : y.Node → Where → Parsed y.Number
  parse_double = parse_number y PrimitiveType.float64

  -- a && b && *a > *b
  unfoldable pub exceeds : Option y.Number → Option y.Number → Bool
  exceeds (some a) (some b) = y.less b a
  exceeds _ _ = false

  -- a && *a < 0
  unfoldable pub is_below_zero : Option y.Number → Bool
  is_below_zero none = false
  is_below_zero (some a) = y.is_negative a

  unfoldable pub parse_limit_config : y.Node → Where → Bool → Parsed (LimitConfig y.Number)
  unfolding refuse exceeds
  parse_limit_config node path control = if not (y.is_defined node) then ok no_limits else (do
    reject_unknown_keys y node path
        (if control then "low" ∷ "high" ∷ "min_step" ∷ [] else "low" ∷ "high" ∷ [])
    low ← optional_some y parse_double node path "low"
    high ← optional_some y parse_double node path "high"
    refuse (exceeds low high) path "low must not exceed high"
    ok (record { low = low; high = high }))

  -- `min_step`, and the one of `control` in its place if it has one
  unfoldable pub parse_min_step : y.Node → Where → Parsed (Option y.Number)
  unfolding refuse is_below_zero
  parse_min_step node path = do
    own ← optional_some y parse_double node path "min_step"
    let control = y.get node "control"
    min_step ←
        if y.is_defined control && y.is_defined (y.get control "min_step")
        then parse_double (y.get control "min_step") (below (below path "control") "min_step")
          >>= (λ x. ok (some x))
        else ok own
    refuse (is_below_zero min_step) (below path "min_step") "must not be negative"
    ok min_step

  unfoldable pub parse_metadata : y.Node → Where → Parsed (MetadataConfig y.Number)
  unfolding parse_limit_config parse_min_step
  parse_metadata node path = if not (y.is_defined node) then ok default_metadata else (do
    reject_unknown_keys y node path
        ("description" ∷ "units" ∷ "precision" ∷ "form" ∷ "display" ∷ "control" ∷ "min_step" ∷ [])
    description ← optional y (parse_string y) node path "description" ""
    units ← optional y (parse_string y) node path "units" ""
    precision ← optional_some y (parse_signed y 32) node path "precision"
    form ← optional_some y (parse_display_form y) node path "form"
    display ← parse_limit_config (y.get node "display") (below path "display") false
    control ← parse_limit_config (y.get node "control") (below path "control") true
    min_step ← parse_min_step node path
    ok (record {
      description = description;
      units = units;
      precision = precision;
      form = form;
      display = display;
      control = control;
      min_step = min_step;
    }))

  -- Whether a threshold of the list is less than the one before it; `previous` is the last one set.
  unfoldable pub disordered : Option y.Number → List (Option y.Number) → Bool
  unfolding exceeds
  disordered previous [] = false
  disordered previous (none ∷ rest) = disordered previous rest
  disordered previous (some threshold ∷ rest) =
      exceeds previous (some threshold) || disordered (some threshold) rest

  unfoldable pub thresholds : AlarmConfig y.Number → List (Option y.Number)
  thresholds alarm =
      alarm.low_alarm ∷ alarm.low_warning ∷ alarm.high_warning ∷ alarm.high_alarm ∷ []

  unfoldable pub check_alarms : Where → AlarmConfig y.Number → Parsed (AlarmConfig y.Number)
  unfolding refuse disordered thresholds
  check_alarms path alarm = do
    refuse (y.is_negative alarm.hysteresis) (below path "hysteresis") "must not be negative"
    refuse (disordered none (thresholds alarm)) path
        "alarm thresholds must be ordered low_alarm <= low_warning <= high_warning <= high_alarm"
    ok alarm

  unfoldable pub parse_alarm_config : y.Node → Where → Parsed (AlarmConfig y.Number)
  unfolding check_alarms
  parse_alarm_config node path =
      if not (y.is_defined node) then ok (default_alarms y.zero_number) else (do
        reject_unknown_keys y node path
            ("low_alarm" ∷ "low_warning" ∷ "high_warning" ∷ "high_alarm" ∷ "hysteresis" ∷ [])
        low_alarm ← optional_some y parse_double node path "low_alarm"
        low_warning ← optional_some y parse_double node path "low_warning"
        high_warning ← optional_some y parse_double node path "high_warning"
        high_alarm ← optional_some y parse_double node path "high_alarm"
        hysteresis ← optional y parse_double node path "hysteresis" y.zero_number
        check_alarms path (record {
          low_alarm = low_alarm;
          low_warning = low_warning;
          high_warning = high_warning;
          high_alarm = high_alarm;
          hysteresis = hysteresis;
        }))

  unfoldable pub parse_linear : y.Node → Where → Parsed (Unit {0})
  unfolding refuse lower_copy
  parse_linear node path = do
    kind ← parse_string y node path
    refuse (not (str_eq (lower_copy kind) "linear")) path "only linear transforms are supported"
    ok tt

  unfoldable pub parse_transform : y.Node → Where → Parsed (Option (LinearTransformConfig y.Number))
  unfolding refuse parse_linear
  parse_transform node path = if not (y.is_defined node) then ok none else (do
    reject_unknown_keys y node path ("kind" ∷ "scale" ∷ "offset" ∷ [])
    optional y parse_linear node path "kind" tt
    scale ← optional y parse_double node path "scale" y.one_number
    offset ← optional y parse_double node path "offset" y.zero_number
    refuse (y.is_zero scale || not (y.is_finite (y.inverse scale))) (below path "scale")
        "must be nonzero with a finite inverse"
    ok (some (record { scale = scale; offset = offset })))
