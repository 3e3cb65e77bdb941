-- ===== src/ConfigParser/Limits/Valid.antt =====
-- What `parseOperationLimits` of src/config.cpp accepts.
use redis_pvxs_ioc.Prelude.{
  ℕ, ◌*◌, ◌/◌, ◌≤◌, ◌≡◌, String, true, false, not, ◌||◌, Option, none, some, refl, ◌⊎◌, inl, inr,
  if_cases, ltb, arith,
}
use redis_pvxs_ioc.Prelude.Results.{
  ok, ◌>>=◌, Meets, Meets-bind, Meets-ok, Meets-any, Meets-fail_if, Meets-self, Meets-at, Anything,
}
use redis_pvxs_ioc.Config.{OperationLimitsConfig}
use redis_pvxs_ioc.Config.Defaults.{default_limits, alarm_queue_entry_bytes}
use redis_pvxs_ioc.ConfigParser.{
  Yaml, Where, Parsed, refuse, optional, parse_unsigned, reject_unknown_keys,
}
use redis_pvxs_ioc.ConfigParser.Limits.{
  gibibyte, limits_path, bounded, operation_timeout, parse_operation_limits,
}

-- A timeout is from a millisecond to five minutes.
abbrev pub TimeoutFits : Option ℕ → Type 0
TimeoutFits none = Unit
TimeoutFits (some t) = (1 ≤ t) × (t ≤ 300000)

-- The limits that the rest of the program relies on: at least one worker and place in each queue, and
-- room for the alarm queue in the bytes of the alarm states.
pub record IsValid (limits : OperationLimitsConfig) : Type 0 where
  pub writers : (1 ≤ limits.write_workers) × (limits.write_workers ≤ 64)
  pub writes : (1 ≤ limits.queued_writes_per_pv) × (limits.queued_writes_per_pv ≤ 4096)
  pub write_bytes : (1024 ≤ limits.queued_write_bytes) × (limits.queued_write_bytes ≤ gibibyte)
  pub rpc_workers : (1 ≤ limits.rpc_workers) × (limits.rpc_workers ≤ 64)
  pub rpcs : (1 ≤ limits.queued_rpc_per_method) × (limits.queued_rpc_per_method ≤ 4096)
  pub rpc_bytes : (1024 ≤ limits.queued_rpc_bytes) × (limits.queued_rpc_bytes ≤ gibibyte)
  pub payload : (1 ≤ limits.max_payload_bytes) × (limits.max_payload_bytes ≤ gibibyte)
  pub entries : (1 ≤ limits.alarm_queue_entries) × (limits.alarm_queue_entries ≤ 1000000)
  pub state : (1024 ≤ limits.alarm_state_bytes) × (limits.alarm_state_bytes ≤ gibibyte)
  pub covers : limits.alarm_queue_entries * alarm_queue_entry_bytes ≤ limits.alarm_state_bytes
  pub timeout : TimeoutFits limits.operation_timeout_ms

module _ (y : Yaml) where
  -- A number of the section, or what stands for it where the section has none.
  abbrev pub Reads : y.Node → String → ℕ → ℕ → Type 0
  Reads node name initial value =
      optional y (parse_unsigned y 64) node limits_path name initial ≡ ok value

  -- There is a timeout exactly where the section has one.
  abbrev pub ReadsTimeout : y.Node → Option ℕ → Type 0
  ReadsTimeout node none = y.is_defined (y.get node "operation_timeout_ms") ≡ false
  ReadsTimeout node (some t) =
      (y.is_defined (y.get node "operation_timeout_ms") ≡ true)
      × Reads node "operation_timeout_ms" 0 t

  -- Each limit is the number of its own key, and its own default where there is no such key.
  pub record IsRead (node : y.Node) (limits : OperationLimitsConfig) : Type 0 where
    pub writers : Reads node "write_workers" default_limits.write_workers limits.write_workers
    pub writes :
        Reads node "queued_writes_per_pv" default_limits.queued_writes_per_pv
          limits.queued_writes_per_pv
    pub write_bytes :
        Reads node "queued_write_bytes" default_limits.queued_write_bytes limits.queued_write_bytes
    pub rpc_workers : Reads node "rpc_workers" default_limits.rpc_workers limits.rpc_workers
    pub rpcs :
        Reads node "queued_rpc_per_method" default_limits.queued_rpc_per_method
          limits.queued_rpc_per_method
    pub rpc_bytes :
        Reads node "queued_rpc_bytes" default_limits.queued_rpc_bytes limits.queued_rpc_bytes
    pub payload :
        Reads node "max_payload_bytes" default_limits.max_payload_bytes limits.max_payload_bytes
    pub entries :
        Reads node "alarm_queue_entries" default_limits.alarm_queue_entries
          limits.alarm_queue_entries
    pub state :
        Reads node "alarm_state_bytes" default_limits.alarm_state_bytes limits.alarm_state_bytes
    pub timeout : ReadsTimeout node limits.operation_timeout_ms

  -- The limits are those of the section, and the defaults where the document has no such section.
  abbrev pub IsOf : y.Node → OperationLimitsConfig → Type 0
  IsOf node limits =
      ((y.is_defined node ≡ false) × (limits ≡ default_limits))
      ⊎ ((y.is_defined node ≡ true) × IsRead node limits)

  bounded-Between :
      (node : y.Node) (path : Where) (name : String) (initial low high : ℕ)
      → Meets
          (λ n.
            (optional y (parse_unsigned y 64) node path name initial ≡ ok n)
            × ((low ≤ n) × (n ≤ high)))
          Anything
          (bounded y node path name initial low high)
  unfolding bounded refuse
  bounded-Between node path name initial low high =
      Meets-bind _ _ _ (optional y (parse_unsigned y 64) node path name initial) _ (Meets-self _)
        λ n read.
          Meets-fail_if _ (ltb n low || ltb high n) _ _
            λ within. Meets-ok _ _ _ (read, (ground arith, ground arith))

  operation_timeout-Meets :
      (node : y.Node)
      → Meets (λ t. ReadsTimeout node t × TimeoutFits t) Anything (operation_timeout y node)
  unfolding operation_timeout
  operation_timeout-Meets node =
      if_cases (Meets (λ t. ReadsTimeout node t × TimeoutFits t) Anything)
        (y.is_defined (y.get node "operation_timeout_ms")) _ _
        (λ there.
          Meets-bind _ _ _ (bounded y node limits_path "operation_timeout_ms" 0 1 300000) _
            (bounded-Between node limits_path "operation_timeout_ms" 0 1 300000)
            λ t h. Meets-ok _ _ _ ((there, h.0), h.1))
        (λ missing. Meets-ok _ _ _ (missing, tt))

  within :
      {B : Type 0} (P : B → Type 0) (node : y.Node) (name : String) (initial low high : ℕ)
      (rest : ℕ → Parsed B)
      → ((n : ℕ) → Reads node name initial n × ((low ≤ n) × (n ≤ high)) → Meets P Anything (rest n))
      → Meets P Anything (bounded y node limits_path name initial low high >>= rest)
  within P node name initial low high rest k =
      Meets-bind _ _ _ (bounded y node limits_path name initial low high) _
        (bounded-Between node limits_path name initial low high) k

  default_limits-IsValid : IsValid default_limits
  default_limits-IsValid = record {
    writers = (omega arith, omega arith);
    writes = (omega arith, omega arith);
    write_bytes = (omega arith, omega arith);
    rpc_workers = (omega arith, omega arith);
    rpcs = (omega arith, omega arith);
    rpc_bytes = (omega arith, omega arith);
    payload = (omega arith, omega arith);
    entries = (omega arith, omega arith);
    state = (omega arith, omega arith);
    covers = omega arith;
    timeout = tt;
  }

  abbrev pub IsAllowed : y.Node → OperationLimitsConfig → Type 0
  IsAllowed node limits = IsValid limits × IsOf node limits

  pub parse_operation_limits-Meets :
      (node : y.Node) → Meets (IsAllowed node) Anything (parse_operation_limits y node)
  unfolding parse_operation_limits refuse
  parse_operation_limits-Meets node =
      if_cases (Meets (IsAllowed node) Anything) (not (y.is_defined node)) _ _
        (λ missing. Meets-ok _ _ _ (default_limits-IsValid, inl (ground (arith, missing), refl)))
        λ there. Meets-bind _ _ _ (reject_unknown_keys y node limits_path _) _ (Meets-any _) λ _ _.
          within _ node "write_workers" default_limits.write_workers 1 64 _ λ writers h0.
            within _ node "queued_writes_per_pv" default_limits.queued_writes_per_pv 1 4096 _
              λ writes h1.
                within _ node "queued_write_bytes" default_limits.queued_write_bytes 1024 gibibyte _
                  λ write_bytes h2.
                    within _ node "rpc_workers" default_limits.rpc_workers 1 64 _ λ rpc_workers h3.
                      within _ node "queued_rpc_per_method" default_limits.queued_rpc_per_method 1
                        4096 _
                        λ rpcs h4.
                          within _ node "queued_rpc_bytes" default_limits.queued_rpc_bytes 1024
                            gibibyte _
                            λ rpc_bytes h5.
                              within _ node "max_payload_bytes" default_limits.max_payload_bytes 1
                                gibibyte _
                                λ payload h6.
                                  within _ node "alarm_queue_entries"
                                    default_limits.alarm_queue_entries 1 1000000 _
                                    λ entries h7.
                                      within _ node "alarm_state_bytes"
                                        default_limits.alarm_state_bytes 1024 gibibyte _
                                        λ state h8.
                                          Meets-fail_if _
                                            (ltb (state / alarm_queue_entry_bytes) entries) _ _
                                            λ room.
                                              Meets-bind _ _ _ (operation_timeout y node) _
                                                (operation_timeout-Meets node)
                                                λ timeout h9. Meets-ok _ _ _ (
                                                  record {
                                                    writers = h0.1;
                                                    writes = h1.1;
                                                    write_bytes = h2.1;
                                                    rpc_workers = h3.1;
                                                    rpcs = h4.1;
                                                    rpc_bytes = h5.1;
                                                    payload = h6.1;
                                                    entries = h7.1;
                                                    state = h8.1;
                                                    covers = ground arith;
                                                    timeout = h9.1;
                                                  },
                                                  inr (
                                                    ground (arith, there),
                                                    record {
                                                      writers = h0.0;
                                                      writes = h1.0;
                                                      write_bytes = h2.0;
                                                      rpc_workers = h3.0;
                                                      rpcs = h4.0;
                                                      rpc_bytes = h5.0;
                                                      payload = h6.0;
                                                      entries = h7.0;
                                                      state = h8.0;
                                                      timeout = h9.0;
                                                    },
                                                  ),
                                                )

  -- Accepted limits are the defaults where the document has no such section; else each is the number of
  -- its own key, or its own default. They have at least one worker and one place in each queue, no more than
  -- the stated maxima, a timeout, where there is one, of 1 to 300000 ms, and room in the bytes of the alarm
  -- states for the alarm queue.
  pub parse_operation_limits-IsValid :
      (node : y.Node) (limits : OperationLimitsConfig)
      → parse_operation_limits y node ≡ ok limits
      → IsValid limits × IsOf node limits
  parse_operation_limits-IsValid node limits e =
      Meets-at _ _ _ _ (parse_operation_limits-Meets node) e
