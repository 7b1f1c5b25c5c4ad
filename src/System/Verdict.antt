-- ===== src/System/Verdict.antt =====
-- F-01 into F-02, against the policy of the design (docs/Software_Detailed_Design.md, 8): crash before
-- faults, faults before the driver, the driver before the auto-lock.
use mbp_t05_child_lock.Base.{
  ◌≡◌, refl, ap, Bool-cases, inl, inr, ◌≢◌, ◌⊎◌, ◌↔◌, Bool, true, false, not, ◌&&◌, ◌||◌, Option,
  none, some, ltb, sub32, if◌then◌else◌, arith,
}
use mbp_t05_child_lock.Float
use mbp_t05_child_lock.Float.Order.{lt-eq-not-le, number_of_le}
use mbp_t05_child_lock.Types.{
  SwitchRequest, request_on, request_off, ign_on, is_ign_on, float_zero, speed_max_valid_kmh,
  speed_signal_timeout_ms,
}
use mbp_t05_child_lock.InputMonitor.{RawInput, ValidatedOutput, process}
use mbp_t05_child_lock.InputMonitor.Speed.{process-speed_cases, process-speed_safe}
use mbp_t05_child_lock.InputMonitor.Cycle.{process_signals}
use mbp_t05_child_lock.Decision.{
  ChildLockState, cl_off, cl_on, DriverRequest, driver_req_on, driver_req_off, FaultFlags,
  DecisionInput, unlock_inhibit_speed_kmh, decide_child_lock_state,
}
use mbp_t05_child_lock.Decision.Safety.{crash_decides}
use mbp_t05_child_lock.System.DoorControl
use mbp_t05_child_lock.System.AutoLock.{process-IsUsable_iff}

-- A recent speed between 0 and 250 km/h.
abbrev pub is_usable : RawInput → Bool
is_usable raw =
    Float.le float_zero raw.vehicle_speed_kmh
    && (Float.le raw.vehicle_speed_kmh speed_max_valid_kmh
        && ltb (sub32 raw.current_timestamp_ms raw.speed_timestamp_ms) speed_signal_timeout_ms)

-- With a usable speed: the driver's request, or else the speed.
abbrev pub requested : SwitchRequest → Bool → Option ChildLockState
requested request_on slow = some cl_on
requested request_off slow = if slow then some cl_off else none
requested _ slow = if slow then none else some cl_on

-- What the signals of one cycle want of the lock, if anything; `faulty` tells a fault that other
-- components report.
abbrev pub verdict : RawInput → Bool → Option ChildLockState
verdict raw faulty =
    if not (is_ign_on raw.ignition_state)
    then (if faulty then some cl_on else none)
    else if raw.crash_signal_active && raw.crash_signal_valid
    then some cl_off
    else if faulty || not (is_usable raw)
    then some cl_on
    else requested raw.switch_request (Float.le raw.vehicle_speed_kmh unlock_inhibit_speed_kmh)

abbrev pub others : FaultFlags → Bool
others f = f.sensor_fault || f.state_inconsistency

abbrev pub settle : Option ChildLockState → ChildLockState → ChildLockState
settle none s = s
settle (some v) s = v

-- What F-02 chooses, by the driver's request, whether the speed is at most 3 km/h, and the auto-lock
-- condition.
abbrev chosen : DriverRequest → Bool → Bool → Option ChildLockState
chosen driver_req_on slow auto = some cl_on
chosen driver_req_off slow auto = if slow then some cl_off else none
chosen _ slow auto = if auto then some cl_on else none

decide_chooses :
    (i : DecisionInput)
    → i.valid_crash_signal ≡ false
    → i.fault_flags.speed_signal_fault ≡ false
    → others i.fault_flags ≡ false
    → (decide_child_lock_state i).target_cl_state
      ≡ settle
          (chosen i.valid_switch_input
            (Float.le i.vehicle_speed_kmh unlock_inhibit_speed_kmh)
            i.auto_lock_condition_met)
          i.current_cl_state
unfolding decide_child_lock_state
decide_chooses i quiet sound others = ground arith

decide_faulty :
    (i : DecisionInput)
    → i.valid_crash_signal ≡ false
    → (i.fault_flags.speed_signal_fault ≡ true) ⊎ (others i.fault_flags ≡ true)
    → (decide_child_lock_state i).target_cl_state ≡ cl_on
unfolding decide_child_lock_state
decide_faulty i quiet faulty = ground arith

chosen-none :
    (r : DriverRequest) (slow : Bool)
    → r ≢ driver_req_on
    → r ≢ driver_req_off
    → chosen r slow false ≡ none
chosen-none r slow a b = ground arith

module _ (raw : RawInput) (output : ValidatedOutput) (i : DecisionInput)
    (joined : DoorControl.Joins (process raw output) i) where
  parked :
      raw.ignition_state ≢ ign_on
      → (i.valid_crash_signal ≡ false)
        × (i.fault_flags.speed_signal_fault ≡ false)
        × (i.valid_switch_input ≢ driver_req_on)
        × (i.valid_switch_input ≢ driver_req_off)
        × (i.auto_lock_condition_met ≡ false)
  parked off = ground (arith, process_signals raw output, process-speed_safe raw output, joined)

  quiet : raw.crash_signal_active && raw.crash_signal_valid ≡ false → i.valid_crash_signal ≡ false
  quiet calm = ground (arith, process_signals raw output, joined.crashes)

  faulty :
      raw.ignition_state ≡ ign_on
      → (i.fault_flags.speed_signal_fault ≡ true) ↔ (is_usable raw ≡ false)
  faulty on = ground (arith, process-IsUsable_iff raw output on, joined.speed_fault)

  sound :
      raw.ignition_state ≡ ign_on
      → is_usable raw ≡ true
      → (i.vehicle_speed_kmh ≡ raw.vehicle_speed_kmh)
        × (i.auto_lock_condition_met
            ≡ not (Float.le raw.vehicle_speed_kmh unlock_inhibit_speed_kmh))
  sound on usable =
      let v = raw.vehicle_speed_kmh in
      ground (
        arith,
        process-speed_cases raw output on,
        process-IsUsable_iff raw output on,
        lt-eq-not-le unlock_inhibit_speed_kmh v refl,
        number_of_le v speed_max_valid_kmh,
        joined,
      )

  asked :
      (slow : Bool)
      → raw.ignition_state ≡ ign_on
      → chosen i.valid_switch_input slow (not slow) ≡ requested raw.switch_request slow
  asked slow on = ground (arith, process_signals raw output, joined.asks_on, joined.asks_off)

  -- The decision when the ignition is not on.
  decide_parked :
      raw.ignition_state ≢ ign_on
      → (decide_child_lock_state i).target_cl_state
        ≡ settle (if others i.fault_flags then some cl_on else none) i.current_cl_state
  decide_parked off =
      let (calm, no_fault, not_on, not_off, auto) = parked off in
      elim (Bool-cases (others i.fault_flags)) [
        | inl f ↦ rw f (decide_faulty i calm (inr f))
        | inr f ↦
            rw (f, decide_chooses i calm no_fault f, auto)
              (ap (λ c. settle c i.current_cl_state)
                (chosen-none i.valid_switch_input
                  (Float.le i.vehicle_speed_kmh unlock_inhibit_speed_kmh) not_on not_off))
      ]

  -- The decision with the ignition on and no crash.
  decide_driving :
      raw.ignition_state ≡ ign_on
      → raw.crash_signal_active && raw.crash_signal_valid ≡ false
      → (decide_child_lock_state i).target_cl_state
        ≡ settle
            (if others i.fault_flags || not (is_usable raw)
              then some cl_on
              else requested raw.switch_request
                  (Float.le raw.vehicle_speed_kmh unlock_inhibit_speed_kmh))
            i.current_cl_state
  decide_driving on calm = elim (Bool-cases (others i.fault_flags)) [
    | inl f ↦ rw f (decide_faulty i (quiet calm) (inr f))
    | inr f ↦ elim (Bool-cases (is_usable raw)) [
      | inl u ↦
          let slow = Float.le raw.vehicle_speed_kmh unlock_inhibit_speed_kmh in
          let (same, auto) = sound on u in
          rw (f, u, decide_chooses i (quiet calm) (ground (arith, faulty on)) f, same, auto)
            (ap (λ c. settle c i.current_cl_state) (asked slow on))
      | inr u ↦ rw (f, u) (decide_faulty i (quiet calm) (inl ((faulty on).1 u)))
    ]
  ]

  -- The decision, in every case.
  pub decide_by_verdict :
      (decide_child_lock_state i).target_cl_state
      ≡ settle (verdict raw (others i.fault_flags)) i.current_cl_state
  decide_by_verdict = elim (Bool-cases (is_ign_on raw.ignition_state)) [
    | inr off ↦ rw off (decide_parked (λ e. ground arith))
    | inl running ↦
        let on : raw.ignition_state ≡ ign_on = ground arith in
        elim (Bool-cases (raw.crash_signal_active && raw.crash_signal_valid)) [
          | inr calm ↦ rw (on, calm) (decide_driving on calm)
          | inl crash ↦
              rw (on, crash)
                (crash_decides i (ground (arith, process_signals raw output, joined.crashes))).0
        ]
  ]
