-- ===== src/System/DoorCommand.antt =====
-- F-01 into F-02 into F-03: from the raw signals to the command for the Door ECU.
use mbp_t05_child_lock.Base.{◌≡◌, ◌↔◌, ◌≢◌, ◌⊎◌, ◌<◌, true, false, some, inl, ap, arith, sub32}
use mbp_t05_child_lock.Float
use mbp_t05_child_lock.Types.{
  cl_off as shared_off, cl_on as shared_on, ign_on, request_off, float_zero, fault_flag_speed_fault,
  speed_max_valid_kmh, speed_signal_timeout_ms,
}
use mbp_t05_child_lock.InputMonitor.{RawInput, ValidatedOutput, process}
use mbp_t05_child_lock.InputMonitor.Cycle.{process_signals}
use mbp_t05_child_lock.Decision.{
  cl_off, cl_on, DecisionInput, DecisionResult, unlock_inhibit_speed_kmh, decide_child_lock_state,
}
use mbp_t05_child_lock.Decision.Safety.{decide_opens_iff}
use mbp_t05_child_lock.DoorEcu
use mbp_t05_child_lock.DoorEcu.{command_cl_off}
use mbp_t05_child_lock.DoorEcu.Handling.{IsReason, handle_command_answers, handle_command-Reports}
use mbp_t05_child_lock.System.DoorControl

-- The command's input that belongs to a decision.
pub record Orders (r : DecisionResult) (c : DoorEcu.Input) : Type 0 where
  pub opens : (r.target_cl_state ≡ cl_off) ↔ (c.target_cl_state ≡ shared_off)
  pub locks : (r.target_cl_state ≡ cl_on) ↔ (c.target_cl_state ≡ shared_on)
  pub reason : IsReason c.decision_reason

-- The raw signals allow the driver to open: a recent speed between 0 and 3 km/h.
pub record IsSlow (raw : RawInput) : Type 0 where
  pub forward : Float.le float_zero raw.vehicle_speed_kmh ≡ true
  pub slow : Float.le raw.vehicle_speed_kmh unlock_inhibit_speed_kmh ≡ true
  pub recent : sub32 raw.current_timestamp_ms raw.speed_timestamp_ms < speed_signal_timeout_ms

slow_in_range :
    (v : Float.Float)
    → Float.le v unlock_inhibit_speed_kmh ≡ true
    → Float.le v speed_max_valid_kmh ≡ true
unfolding Float.le
slow_in_range v h = ground arith

-- With the ignition on, no speed fault and a speed of at most 3 km/h say that the raw signals are slow.
process-IsSlow_iff :
    (raw : RawInput) (output : ValidatedOutput)
    → raw.ignition_state ≡ ign_on
    → let o = process raw output in
      ((o.fault_flags ≢ fault_flag_speed_fault)
        × (Float.le o.valid_speed_kmh unlock_inhibit_speed_kmh ≡ true))
      ↔ IsSlow raw
unfolding process
process-IsSlow_iff raw output on = ground (arith, slow_in_range raw.vehicle_speed_kmh)

-- F-03 accepts the input, and commands the Door ECU to open.
abbrev pub CommandsOff : DoorEcu.Input → DoorEcu.Output → Type 0
CommandsOff c p =
    (o : DoorEcu.Output) × (DoorEcu.handle_command (some c) (some p) ≡ (true, some o))
    × (o.child_lock_command ≡ command_cl_off)

CommandsOff-iff :
    (c : DoorEcu.Input) (p : DoorEcu.Output)
    → IsReason c.decision_reason
    → CommandsOff c p ↔ (c.target_cl_state ≡ shared_off)
CommandsOff-iff c p reason = (
  λ (o, ran, off).
      let (o', ran', fits) = handle_command-Reports c p (ap (λ q. q.0) ran) in
      fits.off_command.0 (ground arith),
  λ e.
      let accepted = (handle_command_answers (some c) (some p)).0.1 (inl e, reason) in
      let (o, ran, fits) = handle_command-Reports c p accepted in (o, ran, fits.off_command.1 e),
)

-- The whole chain of door control: with the ignition on and a lock that is not off, where the three
-- components are joined, F-03 commands the Door ECU to open exactly if the crash signal is active and
-- trustworthy, or the driver asks to open, there is neither a sensor fault nor an inconsistent state,
-- and the raw speed lies between 0 and 3 km/h and is less than 500 ms old.
pub commands_opening_iff :
    (raw : RawInput) (output : ValidatedOutput) (i : DecisionInput) (c : DoorEcu.Input)
    (p : DoorEcu.Output)
    → raw.ignition_state ≡ ign_on
    → DoorControl.Joins (process raw output) i
    → Orders (decide_child_lock_state i) c
    → i.current_cl_state ≢ cl_off
    → CommandsOff c p ↔ (
        ((raw.crash_signal_active ≡ true) × (raw.crash_signal_valid ≡ true))
        ⊎ ((raw.switch_request ≡ request_off)
            × (i.fault_flags.sensor_fault ≡ false)
            × (i.fault_flags.state_inconsistency ≡ false)
            × IsSlow raw))
commands_opening_iff raw output i c p on joined orders closed = ground (
  arith,
  CommandsOff-iff c p orders.reason,
  orders.opens,
  decide_opens_iff i closed,
  process_signals raw output,
  process-IsSlow_iff raw output on,
  joined,
)
