-- ===== src/System/DoorExamples.antt =====
-- The theorems on F-01 with F-02 and F-03 at concrete inputs.
use mbp_t05_child_lock.Base.{◌≡◌, refl, ◌↔◌, ◌⊎◌, true, false, arith}
use mbp_t05_child_lock.Float.{nan, positive, le, lt}
use mbp_t05_child_lock.Types.{cl_off as shared_off, ign_on, request_off, request_none}
use mbp_t05_child_lock.InputMonitor.{RawInput, ValidatedOutput, process}
use mbp_t05_child_lock.Decision.{cl_on, driver_req_off, DecisionInput, decide_child_lock_state}
use mbp_t05_child_lock.DoorEcu
use mbp_t05_child_lock.System.DoorControl
use mbp_t05_child_lock.System.DoorCommand

-- The speed signal is NaN, and the driver asks to unlock.
abbrev raw : RawInput
raw = record {
  switch_request = request_off;
  vehicle_speed_kmh = nan;
  speed_timestamp_ms = 100;
  current_timestamp_ms = 150;
  crash_signal_active = false;
  crash_signal_valid = true;
  rear_door_inner_handle_active = false;
  ignition_state = ign_on;
}

abbrev blank : ValidatedOutput
blank = record {
  valid_switch_input = request_none;
  valid_speed_kmh = nan;
  speed_valid = false;
  valid_crash_signal = false;
  auto_lock_condition_met = false;
  event_flags = 0;
  fault_flags = 0;
}

abbrev asking : DecisionInput
asking = record {
  valid_switch_input = driver_req_off;
  vehicle_speed_kmh = positive 0;
  valid_crash_signal = false;
  current_cl_state = cl_on;
  fault_flags = record {
    speed_signal_fault = true;
    sensor_fault = false;
    state_inconsistency = false;
  };
  auto_lock_condition_met = false;
}

asking-Joins : DoorControl.Joins (process raw blank) asking
unfolding process le lt
asking-Joins = record {
  speed = refl;
  crashes = refl;
  speed_fault = (λ e. refl, λ e. refl);
  auto_lock = refl;
  asks_on = (λ e. cc, λ e. ground arith);
  asks_off = (λ e. refl, λ e. refl);
}

-- The same at 2 km/h.
abbrev slow : RawInput
slow = record raw { vehicle_speed_kmh = positive 0x4000_0000 }

abbrev granted : DecisionInput
granted = record asking {
  vehicle_speed_kmh = positive 0x4000_0000;
  fault_flags = record {
    speed_signal_fault = false;
    sensor_fault = false;
    state_inconsistency = false;
  };
}

granted-Joins : DoorControl.Joins (process slow blank) granted
unfolding process le lt
granted-Joins = record {
  speed = refl;
  crashes = refl;
  speed_fault = (λ e. cc, λ e. ground arith);
  auto_lock = refl;
  asks_on = (λ e. cc, λ e. ground arith);
  asks_off = (λ e. refl, λ e. refl);
}

abbrev unlocking : DoorEcu.Input
unlocking = record {
  target_cl_state = shared_off;
  decision_reason = DoorEcu.driver_request;
  door_ecu_ack = true;
}

granted-Orders : DoorCommand.Orders (decide_child_lock_state granted) unlocking
unfolding decide_child_lock_state le
granted-Orders = record {
  opens = (λ e. refl, λ e. refl);
  locks = (λ e. cc, λ e. cc);
  reason = λ n e. cc;
}

abbrev no_report : DoorEcu.Output
no_report = record {
  child_lock_command = DoorEcu.command_none;
  ack_status = DoorEcu.not_checked;
  retry_status = DoorEcu.not_required;
  dtc = 0;
  retry_count = 0;
}

commands_opening_iff_example : DoorCommand.CommandsOff unlocking no_report ↔ (
    ((false ≡ true) × (true ≡ true))
    ⊎ ((request_off ≡ request_off) × (false ≡ false) × (false ≡ false) × DoorCommand.IsSlow slow))
unfolding process le lt
commands_opening_iff_example =
    DoorCommand.commands_opening_iff slow blank granted unlocking no_report refl granted-Joins
      granted-Orders (λ e. cc)
