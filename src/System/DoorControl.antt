-- ===== src/System/DoorControl.antt =====
-- F-01 into F-02: from the raw signals to the decision on the lock.
use mbp_t05_child_lock.Base.{◌≡◌, refl, ◌↔◌, ◌≢◌, ◌&&◌, not, ◌∙◌, inl, inr, true, false, arith}
use mbp_t05_child_lock.Float
use mbp_t05_child_lock.Float.Order.{lt-eq-not-le}
use mbp_t05_child_lock.Types.{ign_on, request_on, request_off, fault_flag_speed_fault}
use mbp_t05_child_lock.InputMonitor.{RawInput, ValidatedOutput, process}
use mbp_t05_child_lock.InputMonitor.Speed.{
  process-speed_cases, process-speed_bounds, process-auto_lock_iff,
}
use mbp_t05_child_lock.InputMonitor.Cycle.{process_signals}
use mbp_t05_child_lock.Decision.{
  cl_off, cl_on, crash_detected, enter_emergency_released, driver_req_on, driver_req_off,
  DecisionInput, unlock_inhibit_speed_kmh, decide_child_lock_state,
}
use mbp_t05_child_lock.Decision.Rules.{IsCalm}
use mbp_t05_child_lock.Decision.Safety.{decide_opens_iff, decide_keeps_on, crash_decides}

-- The decision input that belongs to a validated output.
pub record Joins (o : ValidatedOutput) (i : DecisionInput) : Type 0 where
  pub speed : i.vehicle_speed_kmh ≡ o.valid_speed_kmh
  pub crashes : i.valid_crash_signal ≡ o.valid_crash_signal
  pub speed_fault :
      (i.fault_flags.speed_signal_fault ≡ true) ↔ (o.fault_flags ≡ fault_flag_speed_fault)
  pub auto_lock : i.auto_lock_condition_met ≡ o.auto_lock_condition_met
  pub asks_on : (i.valid_switch_input ≡ driver_req_on) ↔ (o.valid_switch_input ≡ request_on)
  pub asks_off : (i.valid_switch_input ≡ driver_req_off) ↔ (o.valid_switch_input ≡ request_off)

module _ (raw : RawInput) (output : ValidatedOutput) (i : DecisionInput)
    (on : raw.ignition_state ≡ ign_on) (joined : Joins (process raw output) i) where
  no_crash : raw.crash_signal_active && raw.crash_signal_valid ≡ false → i.valid_crash_signal ≢ true
  no_crash calm crashed =
      let seen = (process_signals raw output).0.0 (ground (arith, joined.crashes)) in ground arith

  calm_speed : IsCalm i → i.vehicle_speed_kmh ≡ raw.vehicle_speed_kmh
  calm_speed calm = elim (process-speed_cases raw output on) [
    | inl (valid, same, clear) ↦ joined.speed ∙ same
    | inr (invalid, zero, fault, auto) ↦ absurd (calm.no_fault (inl (joined.speed_fault.1 fault)))
  ]

  -- The interlock from sensor to decision: with the ignition on and no trustworthy crash signal, if
  -- the raw speed is not at most 3 km/h (over it, or NaN), a lock that is on stays on, whatever the
  -- driver asks for and however old the speed signal is.
  pub moving_keeps_lock :
      raw.crash_signal_active && raw.crash_signal_valid ≡ false
      → Float.le raw.vehicle_speed_kmh unlock_inhibit_speed_kmh ≡ false
      → i.current_cl_state ≡ cl_on
      → (decide_child_lock_state i).target_cl_state ≡ cl_on
  moving_keeps_lock quiet moving locked = decide_keeps_on i locked λ opened.
      elim ((decide_opens_iff i (λ e. cc)).0 opened) [
        | inl crashed ↦ no_crash quiet crashed
        | inr (calm, asked, slow) ↦ ground (arith, calm_speed calm)
      ]

  -- From crash sensor to decision: with the ignition on, an active and trustworthy crash signal opens
  -- the lock, whatever else is read, and names the emergency.
  pub crash_opens_lock :
      raw.crash_signal_active ≡ true
      → raw.crash_signal_valid ≡ true
      → let r = decide_child_lock_state i in
        (r.target_cl_state ≡ cl_off)
        × (r.decision_reason ≡ crash_detected)
        × (r.safety_action ≡ enter_emergency_released)
  crash_opens_lock active valid =
      let seen = joined.crashes ∙ (process_signals raw output).0.1 (on, active, valid) in
      crash_decides i seen

  -- The thresholds of both components complement each other: with no crash and no fault, a driver's
  -- request to open a lock that is not off is granted exactly if the auto-lock condition is not met.
  pub unlock_complements_auto_lock :
      IsCalm i
      → i.current_cl_state ≢ cl_off
      → i.valid_switch_input ≡ driver_req_off
      → ((decide_child_lock_state i).target_cl_state ≡ cl_off) ↔ (i.auto_lock_condition_met ≡ false)
  unlock_complements_auto_lock calm closed asked =
      let v = (process raw output).valid_speed_kmh in
      let swap : Float.lt unlock_inhibit_speed_kmh v ≡ not (Float.le v unlock_inhibit_speed_kmh) =
        lt-eq-not-le unlock_inhibit_speed_kmh v refl (process-speed_bounds raw output).0 in
      ground (
        arith,
        decide_opens_iff i closed,
        process-auto_lock_iff raw output,
        process-speed_cases raw output on,
        joined,
        swap,
        calm,
      )
