-- ===== src/InputMonitor.antt =====
-- src/F01_InputMonitorAndValidator.c and its header. A pointer is an `Option`, NULL is `none`; a
-- function returns what its pointers hold when it ends.
pub mod Speed
pub mod Cycle
mod Examples
mod UnitTests
use mbp_t05_child_lock.Base.{
  ℕ, ◌%◌, bit_or, Bool, true, false, not, ◌&&◌, Option, none, some, ltb, if◌then◌else◌, sub32,
}
use mbp_t05_child_lock.Float
use mbp_t05_child_lock.Float.{Float}
use mbp_t05_child_lock.Types.{
  float_zero, auto_lock_speed_threshold_kmh, speed_signal_timeout_ms, speed_max_valid_kmh,
  IgnitionState, is_ign_on, SwitchRequest, request_none, FaultFlag, fault_flag_none,
  fault_flag_speed_fault, EventFlag, event_flag_none, event_flag_rear_door_handle,
}

pub record Context : Type 0 where
  pub is_initialized : Bool

pub record RawInput : Type 0 where
  pub switch_request : SwitchRequest
  pub vehicle_speed_kmh : Float
  pub speed_timestamp_ms : ℕ  -- uint32_t
  pub current_timestamp_ms : ℕ  -- uint32_t
  pub crash_signal_active : Bool
  pub crash_signal_valid : Bool
  pub rear_door_inner_handle_active : Bool
  pub ignition_state : IgnitionState

pub record ValidatedOutput : Type 0 where
  pub valid_switch_input : SwitchRequest
  pub valid_speed_kmh : Float
  pub speed_valid : Bool
  pub valid_crash_signal : Bool
  pub auto_lock_condition_met : Bool
  pub event_flags : EventFlag
  pub fault_flags : FaultFlag

unfoldable pub init_default_output : ValidatedOutput → ValidatedOutput
init_default_output output = record output {
  valid_switch_input = request_none;
  valid_speed_kmh = float_zero;
  speed_valid = false;
  valid_crash_signal = false;
  auto_lock_condition_met = false;
  event_flags = event_flag_none;
  fault_flags = fault_flag_none;
}

validate_crash_signal : RawInput → ValidatedOutput → ValidatedOutput
validate_crash_signal input output =
    if input.crash_signal_active && input.crash_signal_valid
    then record output { valid_crash_signal = true }
    else output

range_valid : RawInput → Bool
range_valid input =
    Float.ge input.vehicle_speed_kmh float_zero
    && Float.le input.vehicle_speed_kmh speed_max_valid_kmh

timeout_valid : RawInput → Bool
timeout_valid input =
    ltb (sub32 input.current_timestamp_ms input.speed_timestamp_ms) speed_signal_timeout_ms

validate_speed : RawInput → ValidatedOutput → ValidatedOutput
unfolding range_valid timeout_valid
validate_speed input output =
    if range_valid input && timeout_valid input
    then record output { valid_speed_kmh = input.vehicle_speed_kmh; speed_valid = true }
    else record output {
      valid_speed_kmh = float_zero;
      speed_valid = false;
      fault_flags = bit_or (output.fault_flags % 256) fault_flag_speed_fault;
    }

validate_switch_input : RawInput → ValidatedOutput → ValidatedOutput
validate_switch_input input output = record output { valid_switch_input = input.switch_request }

evaluate_auto_lock_condition : ValidatedOutput → ValidatedOutput
evaluate_auto_lock_condition output =
    if output.speed_valid && Float.gt output.valid_speed_kmh auto_lock_speed_threshold_kmh
    then record output { auto_lock_condition_met = true }
    else output

detect_events : RawInput → ValidatedOutput → ValidatedOutput
detect_events input output =
    if input.rear_door_inner_handle_active
    then record output {
      event_flags = bit_or (output.event_flags % 256) event_flag_rear_door_handle;
    }
    else output

unfoldable pub init : Option Context → Option Context
init none = none
init (some ctx) = some (record ctx { is_initialized = true })

-- Steps 3 to 9 of `run`, where no pointer is NULL.
unfoldable pub process : RawInput → ValidatedOutput → ValidatedOutput
unfolding init_default_output validate_crash_signal validate_speed validate_switch_input
    evaluate_auto_lock_condition detect_events
process input output =
    let o = init_default_output output in
    if not (is_ign_on input.ignition_state)
    then o
    else (let o = validate_crash_signal input o in
        let o = validate_speed input o in
        let o = validate_switch_input input o in
        let o = evaluate_auto_lock_condition o in detect_events input o)

unfoldable pub run :
    Option Context
    → Option RawInput
    → Option ValidatedOutput
    → Option Context × Option ValidatedOutput
unfolding init process
run none input output = (none, output)
run (some ctx) none output = (some ctx, output)
run (some ctx) (some input) none = (some ctx, none)
run (some ctx) (some input) (some output) =
    (if not ctx.is_initialized then init (some ctx) else some ctx, some (process input output))

unfoldable pub reset : Option Context → Option Context
unfolding init
reset ctx = init ctx
