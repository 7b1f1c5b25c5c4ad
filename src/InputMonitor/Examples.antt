-- ===== src/InputMonitor/Examples.antt =====
-- Runs of F-01, and its theorems at concrete inputs.
use mbp_t05_child_lock.Base.{◌≡◌, refl, ◌↔◌, ◌≢◌, ◌⊎◌, ◌<◌, true, false, some, arith}
use mbp_t05_child_lock.Float
use mbp_t05_child_lock.Float.{Float, nan, positive, le, lt}
use mbp_t05_child_lock.Types.{
  ign_on, request_off, request_none, float_zero, speed_max_valid_kmh, fault_flag_none,
  fault_flag_speed_fault, event_flag_rear_door_handle, speed_signal_timeout_ms,
}
use mbp_t05_child_lock.InputMonitor.{RawInput, ValidatedOutput, process, run}
use mbp_t05_child_lock.InputMonitor.Speed.{process-speed_valid_iff, process-speed_safe}
use mbp_t05_child_lock.InputMonitor.Cycle.{run_signals}

-- 60 km/h, stamped 96 ms before the counter wraps around and read 200 ms later.
abbrev cruising : RawInput
cruising = record {
  switch_request = request_off;
  vehicle_speed_kmh = positive 0x4270_0000;
  speed_timestamp_ms = 4294967200;
  current_timestamp_ms = 104;
  crash_signal_active = true;
  crash_signal_valid = false;
  rear_door_inner_handle_active = true;
  ignition_state = ign_on;
}

abbrev stale : ValidatedOutput
stale = record {
  valid_switch_input = request_off;
  valid_speed_kmh = nan;
  speed_valid = true;
  valid_crash_signal = true;
  auto_lock_condition_met = true;
  event_flags = 255;
  fault_flags = 255;
}

cruises : run (some (record { is_initialized = false })) (some cruising) (some stale) ≡ (
  some (record { is_initialized = true }),
  some (record {
    valid_switch_input = request_off;
    valid_speed_kmh = positive 0x4270_0000;
    speed_valid = true;
    valid_crash_signal = false;
    auto_lock_condition_met = true;
    event_flags = event_flag_rear_door_handle;
    fault_flags = fault_flag_none;
  }),
)
unfolding run le lt
cruises = refl

faults : (process (record cruising { vehicle_speed_kmh = nan }) stale).fault_flags ≡ 1
unfolding process le
faults = refl

times_out : (process (record cruising { current_timestamp_ms = 404 }) stale).speed_valid ≡ false
unfolding process le
times_out = refl

process-speed_valid_iff_example : ((process cruising stale).speed_valid ≡ true) ↔ (
    (Float.le float_zero cruising.vehicle_speed_kmh ≡ true)
    × (Float.le cruising.vehicle_speed_kmh speed_max_valid_kmh ≡ true)
    × (200 < speed_signal_timeout_ms))
process-speed_valid_iff_example =
    process-speed_valid_iff cruising stale 4294967200 200 refl refl refl (omega arith)

abbrev glitch : RawInput
glitch = record cruising { vehicle_speed_kmh = nan }

process-speed_safe_example :
    let o = process glitch stale in
    ((Float.is_number o.valid_speed_kmh ≡ true)
      × (Float.le float_zero o.valid_speed_kmh ≡ true)
      × (Float.le o.valid_speed_kmh speed_max_valid_kmh ≡ true))
    × (((glitch.ignition_state ≢ ign_on)
          × (o.speed_valid ≡ false)
          × (o.valid_speed_kmh ≡ float_zero)
          × (o.fault_flags ≡ fault_flag_none)
          × (o.auto_lock_condition_met ≡ false))
        ⊎ (((glitch.ignition_state ≡ ign_on)
              × (o.speed_valid ≡ true)
              × (o.valid_speed_kmh ≡ nan)
              × (o.fault_flags ≡ fault_flag_none))
            ⊎ ((glitch.ignition_state ≡ ign_on)
                × (o.speed_valid ≡ false)
                × (o.valid_speed_kmh ≡ float_zero)
                × (o.fault_flags ≡ fault_flag_speed_fault)
                × (o.auto_lock_condition_met ≡ false))))
process-speed_safe_example = process-speed_safe glitch stale

run_signals_example :
    let o = process cruising (process cruising stale) in
    let on = cruising.ignition_state ≡ ign_on in
    (run (some (record { is_initialized = false })) (some cruising) (some stale)
      ≡ (some (record { is_initialized = true }), some o))
    × ((o.valid_crash_signal ≡ true) ↔ (on × (true ≡ true) × (false ≡ true)))
    × ((o.event_flags ≡ event_flag_rear_door_handle) ↔ (on × (true ≡ true)))
    × (o.fault_flags ≢ fault_flag_none → on × (o.fault_flags ≡ fault_flag_speed_fault))
    × (on → o.valid_switch_input ≡ request_off)
    × (¬ on → o.valid_switch_input ≡ request_none)
run_signals_example =
    run_signals (record { is_initialized = false }) cruising stale (process cruising stale)
