-- ===== src/System/AutoLock.antt =====
-- F-01 into F-02 into F-03: when the raw signals make the Door ECU lock.
use mbp_t05_child_lock.Base.{◌≡◌, ◌↔◌, ◌≢◌, ◌⊎◌, ◌<◌, true, some, inr, ap, arith, sub32}
use mbp_t05_child_lock.Float
use mbp_t05_child_lock.Types.{
  cl_on as shared_on, ign_on, float_zero, auto_lock_speed_threshold_kmh, fault_flag_speed_fault,
  speed_max_valid_kmh, speed_signal_timeout_ms,
}
use mbp_t05_child_lock.InputMonitor.{RawInput, ValidatedOutput, process}
use mbp_t05_child_lock.Decision.{
  cl_on, driver_req_on, driver_req_off, DecisionInput, decide_child_lock_state,
}
use mbp_t05_child_lock.Decision.Rules.{IsFaulty}
use mbp_t05_child_lock.DoorEcu
use mbp_t05_child_lock.DoorEcu.{command_cl_on}
use mbp_t05_child_lock.DoorEcu.Handling.{IsReason, handle_command_answers, handle_command-Reports}
use mbp_t05_child_lock.System.DoorControl
use mbp_t05_child_lock.System.DoorCommand

-- The speed signal can be used: a recent speed between 0 and 250 km/h.
pub record IsUsable (raw : RawInput) : Type 0 where
  pub forward : Float.le float_zero raw.vehicle_speed_kmh ≡ true
  pub in_range : Float.le raw.vehicle_speed_kmh speed_max_valid_kmh ≡ true
  pub recent : sub32 raw.current_timestamp_ms raw.speed_timestamp_ms < speed_signal_timeout_ms

-- An active and trustworthy crash signal.
abbrev pub IsCrash : RawInput → Type 0
IsCrash raw = (raw.crash_signal_active ≡ true) × (raw.crash_signal_valid ≡ true)

-- With the ignition on, the speed fault tells a speed signal that cannot be used, and the auto-lock
-- condition one that can, with a speed over 3 km/h.
pub process-IsUsable_iff :
    (raw : RawInput) (output : ValidatedOutput)
    → raw.ignition_state ≡ ign_on
    → let o = process raw output in
      ((o.fault_flags ≡ fault_flag_speed_fault) ↔ (¬ IsUsable raw))
      × ((o.auto_lock_condition_met ≡ true)
          ↔ (IsUsable raw × (Float.lt auto_lock_speed_threshold_kmh raw.vehicle_speed_kmh ≡ true)))
unfolding process
process-IsUsable_iff raw output on = ground arith

-- A lock that is not on is set to on exactly with no crash, and with a fault, the driver's request to
-- lock, or no request to unlock and the auto-lock condition.
pub decide_locks_iff :
    (i : DecisionInput)
    → i.current_cl_state ≢ cl_on
    → ((decide_child_lock_state i).target_cl_state ≡ cl_on) ↔ (
        (i.valid_crash_signal ≢ true)
        × (IsFaulty i.fault_flags
            ⊎ ((i.valid_switch_input ≡ driver_req_on)
                ⊎ ((i.valid_switch_input ≢ driver_req_off) × (i.auto_lock_condition_met ≡ true)))))
unfolding decide_child_lock_state
decide_locks_iff i unlocked = ground arith

-- F-03 accepts the input, and commands the Door ECU to lock.
abbrev pub CommandsOn : DoorEcu.Input → DoorEcu.Output → Type 0
CommandsOn c p =
    (o : DoorEcu.Output) × (DoorEcu.handle_command (some c) (some p) ≡ (true, some o))
    × (o.child_lock_command ≡ command_cl_on)

pub CommandsOn-iff :
    (c : DoorEcu.Input) (p : DoorEcu.Output)
    → IsReason c.decision_reason
    → CommandsOn c p ↔ (c.target_cl_state ≡ shared_on)
CommandsOn-iff c p reason = (
  λ (o, ran, on).
      let (o', ran', fits) = handle_command-Reports c p (ap (λ q. q.0) ran) in
      fits.on_command.0 (ground arith),
  λ e.
      let accepted = (handle_command_answers (some c) (some p)).0.1 (inr e, reason) in
      let (o, ran, fits) = handle_command-Reports c p accepted in (o, ran, fits.on_command.1 e),
)
