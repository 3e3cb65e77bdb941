-- ===== src/ConfigParser/Pv/Ordered.antt =====
-- What `parseAlarmConfig` and `parsePV` of src/config.cpp accept.
use redis_pvxs_ioc.Prelude.{
  ◌≡◌, String, refl, true, false, not, Option, none, some, List, [], ◌∷◌, All, arith,
}
use redis_pvxs_ioc.Prelude.Results.{
  ok, Meets, Meets-bind, Meets-ok, Meets-any, Meets-fail_if, Meets-if, Meets-at, Anything,
}
use redis_pvxs_ioc.Config.{PrimitiveType, AlarmConfig}
use redis_pvxs_ioc.ConfigParser.{
  Yaml, Where, below, refuse, converted, optional, optional_some, parse_number, reject_unknown_keys,
}
use redis_pvxs_ioc.ConfigParser.Pv.{
  parse_double, exceeds, disordered, thresholds, check_alarms, parse_alarm_config,
}

module _ (y : Yaml) where
  -- Each threshold of the list is at least every one that is set before it.
  abbrev pub IsAscending : List (Option y.Number) → Type 0
  IsAscending [] = Unit
  IsAscending (t ∷ rest) = All (λ u. exceeds y t u ≡ false) rest × IsAscending rest

  abbrev pub IsFinite : Option y.Number → Type 0
  IsFinite none = Unit
  IsFinite (some x) = y.is_finite x ≡ true

  -- What `<` of doubles is on those that are not NaN: the order that it gives is transitive.
  abbrev pub IsTransitive : Type 0
  IsTransitive =
      (a b c : y.Number)
      → y.is_finite a ≡ true
      → y.is_finite b ≡ true
      → y.is_finite c ≡ true
      → y.less b a ≡ false
      → y.less c b ≡ false
      → y.less c a ≡ false

  exceeds_trans :
      IsTransitive
      → (p : Option y.Number) (t : y.Number) (rest : List (Option y.Number)) → IsFinite p
      → y.is_finite t ≡ true
      → All IsFinite rest
      → exceeds y p (some t) ≡ false
      → All (λ u. exceeds y (some t) u ≡ false) rest
      → All (λ u. exceeds y p u ≡ false) rest
  unfolding exceeds
  exceeds_trans trans p t [] fp ft fs h k = tt
  exceeds_trans trans none t (u ∷ rest) fp ft fs h k =
      (refl, exceeds_trans trans none t rest fp ft fs.1 h k.1)
  exceeds_trans trans (some x) t (none ∷ rest) fp ft fs h k =
      (refl, exceeds_trans trans (some x) t rest fp ft fs.1 h k.1)
  exceeds_trans trans (some x) t (some u ∷ rest) fp ft fs h k =
      (trans x t u fp ft fs.0 h k.0, exceeds_trans trans (some x) t rest fp ft fs.1 h k.1)

  none-exceeds : (rest : List (Option y.Number)) → All (λ u. exceeds y none u ≡ false) rest
  unfolding exceeds
  none-exceeds [] = tt
  none-exceeds (u ∷ rest) = (refl, none-exceeds rest)

  exceeds-none : (p : Option y.Number) → exceeds y p none ≡ false
  unfolding exceeds
  exceeds-none none = refl
  exceeds-none (some x) = refl

  disordered-IsAscending :
      IsTransitive
      → (p : Option y.Number) (rest : List (Option y.Number)) → IsFinite p
      → All IsFinite rest
      → disordered y p rest ≡ false
      → All (λ u. exceeds y p u ≡ false) rest × IsAscending rest
  unfolding disordered
  disordered-IsAscending trans p [] fp fs h = (tt, tt)
  disordered-IsAscending trans p (none ∷ rest) fp fs h =
      let below_ = disordered-IsAscending trans p rest fp fs.1 h in
      ((exceeds-none p, below_.0), (none-exceeds rest, below_.1))
  disordered-IsAscending trans p (some t ∷ rest) fp fs h =
      let first : exceeds y p (some t) ≡ false = ground arith in
      let later = disordered-IsAscending trans (some t) rest fs.0 fs.1 (ground arith) in
      ((first, exceeds_trans trans p t rest fp fs.0 fs.1 first later.0), later)

  parse_double-IsFinite :
      (node : y.Node) (path : Where)
      → Meets (λ x. y.is_finite x ≡ true) Anything (parse_double y node path)
  unfolding parse_number refuse
  parse_double-IsFinite node path =
      Meets-bind _ _ _ (converted path (y.as_number PrimitiveType.float64 node)) _ (Meets-any _)
        λ x _. Meets-fail_if _ (not (y.is_finite x)) _ _ λ fine. Meets-ok _ _ _ (ground arith)

  threshold-IsFinite :
      (node : y.Node) (path : Where) (name : String)
      → Meets IsFinite Anything (optional_some y (parse_double y) node path name)
  unfolding optional_some
  threshold-IsFinite node path name =
      Meets-if _ _ (y.is_defined (y.get node name)) _ _
        (Meets-bind _ _ _ (parse_double y (y.get node name) (below path name)) _
          (parse_double-IsFinite _ _) λ x h. Meets-ok _ _ _ h)
        (Meets-ok _ _ _ tt)

  pub record IsSound (alarm : AlarmConfig y.Number) : Type 0 where
    pub ascending : IsAscending (thresholds y alarm)
    pub hysteresis : y.is_negative alarm.hysteresis ≡ false

  parse_alarm_config-Meets :
      IsTransitive
      → y.is_negative y.zero_number ≡ false
      → (node : y.Node) (path : Where) → Meets IsSound Anything (parse_alarm_config y node path)
  unfolding parse_alarm_config check_alarms refuse thresholds exceeds
  parse_alarm_config-Meets trans zero_ node path =
      Meets-if _ _ (not (y.is_defined node)) _ _
        (Meets-ok _ _ _ (record {
          ascending = ((refl, (refl, (refl, tt))), ((refl, (refl, tt)), ((refl, tt), (tt, tt))));
          hysteresis = zero_;
        }))
        (Meets-bind _ _ _ (reject_unknown_keys y node path _) _ (Meets-any _) λ _ _.
          Meets-bind _ _ _ (optional_some y (parse_double y) node path "low_alarm") _
            (threshold-IsFinite node path "low_alarm")
            λ a fa.
              Meets-bind _ _ _ (optional_some y (parse_double y) node path "low_warning") _
                (threshold-IsFinite node path "low_warning")
                λ b fb.
                  Meets-bind _ _ _ (optional_some y (parse_double y) node path "high_warning") _
                    (threshold-IsFinite node path "high_warning")
                    λ c fc.
                      Meets-bind _ _ _ (optional_some y (parse_double y) node path "high_alarm") _
                        (threshold-IsFinite node path "high_alarm")
                        λ d fd.
                          Meets-bind _ _ _
                            (optional y (parse_double y) node path "hysteresis" y.zero_number) _
                            (Meets-any _)
                            λ hysteresis _.
                              Meets-fail_if _ (y.is_negative hysteresis) _ _ λ positive.
                                Meets-fail_if _ (disordered y none (a ∷ b ∷ c ∷ d ∷ [])) _ _
                                  λ order. Meets-ok _ _ _ (record {
                                    ascending =
                                        (disordered-IsAscending trans none (a ∷ b ∷ c ∷ d ∷ []) tt
                                          (fa, (fb, (fc, (fd, tt)))) order).1;
                                    hysteresis = positive;
                                  }))

  -- Where `<` of finite doubles gives a transitive order and zero is not negative, the thresholds of an
  -- accepted alarm are in order, each set one against every other one, and its hysteresis is not
  -- negative.
  pub parse_alarm_config-IsSound :
      IsTransitive
      → y.is_negative y.zero_number ≡ false
      → (node : y.Node) (path : Where) (alarm : AlarmConfig y.Number)
      → parse_alarm_config y node path ≡ ok alarm
      → IsSound alarm
  parse_alarm_config-IsSound trans zero_ node path alarm e =
      Meets-at _ _ _ _ (parse_alarm_config-Meets trans zero_ node path) e
