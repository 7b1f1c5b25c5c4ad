-- ===== src/InputMonitor/UnitTests.antt =====
-- The cases of test/test_F01_InputMonitorAndValidator.cpp, run on the definitions: what a case expects
-- of the output is part of the whole output here.
use mbp_t05_child_lock.Base.{◌≡◌, refl, true, false, none, some}
use mbp_t05_child_lock.Float.{Float, positive, negative, le, lt}
use mbp_t05_child_lock.Types.{
  ign_off, ign_on, request_none, request_on, request_off, float_zero, event_flag_none,
  event_flag_rear_door_handle, fault_flag_none, fault_flag_speed_fault,
}
use mbp_t05_child_lock.InputMonitor.{Context, RawInput, ValidatedOutput, process, init, run, reset}

abbrev ready : Context
ready = record { is_initialized = true }

abbrev input : RawInput
input = record {
  switch_request = request_none;
  vehicle_speed_kmh = float_zero;
  speed_timestamp_ms = 1000;
  current_timestamp_ms = 1000;
  crash_signal_active = false;
  crash_signal_valid = false;
  rear_door_inner_handle_active = false;
  ignition_state = ign_on;
}

-- The output at ignition off.
abbrev defaults : ValidatedOutput
defaults = record {
  valid_switch_input = request_none;
  valid_speed_kmh = float_zero;
  speed_valid = false;
  valid_crash_signal = false;
  auto_lock_condition_met = false;
  event_flags = event_flag_none;
  fault_flags = fault_flag_none;
}

-- Standing still, with a speed that is fresh.
abbrev standing : ValidatedOutput
standing = record defaults { speed_valid = true }

abbrev moving : Float → ValidatedOutput
moving v = record standing { valid_speed_kmh = v; auto_lock_condition_met = true }

abbrev faulty : ValidatedOutput
faulty = record defaults { fault_flags = fault_flag_speed_fault }

-- What a cycle on the input leaves.
abbrev Gives : RawInput → ValidatedOutput → Type 0
Gives i o = run (some ready) (some i) (some defaults) ≡ (some ready, some o)

positive_no_input_safe_defaults : Gives (input) (standing)
unfolding run process le lt
positive_no_input_safe_defaults = refl

positive_switch_on_request :
    Gives
      (record input { switch_request = request_on })
      (record standing { valid_switch_input = request_on })
unfolding run process le lt
positive_switch_on_request = refl

positive_switch_off_request :
    Gives
      (record input { switch_request = request_off })
      (record standing { valid_switch_input = request_off })
unfolding run process le lt
positive_switch_off_request = refl

positive_valid_speed_normal :
    Gives
      (record input { vehicle_speed_kmh = positive 0x4270_0000 })
      (moving (positive 0x4270_0000))
unfolding run process le lt
positive_valid_speed_normal = refl

positive_valid_crash_signal :
    Gives
      (record input { crash_signal_active = true; crash_signal_valid = true })
      (record standing { valid_crash_signal = true })
unfolding run process le lt
positive_valid_crash_signal = refl

positive_rear_door_handle_event :
    Gives
      (record input { rear_door_inner_handle_active = true })
      (record standing { event_flags = event_flag_rear_door_handle })
unfolding run process le lt
positive_rear_door_handle_event = refl

positive_auto_lock_condition_speed_above_threshold :
    Gives
      (record input { vehicle_speed_kmh = positive 0x40a0_0000 })
      (moving (positive 0x40a0_0000))
unfolding run process le lt
positive_auto_lock_condition_speed_above_threshold = refl

positive_all_inputs_simultaneous :
    Gives
      (record input {
        switch_request = request_on;
        vehicle_speed_kmh = positive 0x4248_0000;
        crash_signal_active = true;
        crash_signal_valid = true;
        rear_door_inner_handle_active = true;
      })
      (record (moving (positive 0x4248_0000)) {
        valid_switch_input = request_on;
        valid_crash_signal = true;
        event_flags = event_flag_rear_door_handle;
      })
unfolding run process le lt
positive_all_inputs_simultaneous = refl

boundary_speed_at_exact_threshold :
    Gives
      (record input { vehicle_speed_kmh = positive 0x4040_0000 })
      (record standing { valid_speed_kmh = positive 0x4040_0000 })
unfolding run process le lt
boundary_speed_at_exact_threshold = refl

boundary_speed_just_above_threshold :
    Gives
      (record input { vehicle_speed_kmh = positive 0x4046_6666 })
      (moving (positive 0x4046_6666))
unfolding run process le lt
boundary_speed_just_above_threshold = refl

boundary_speed_at_max :
    Gives
      (record input { vehicle_speed_kmh = positive 0x437a_0000 })
      (moving (positive 0x437a_0000))
unfolding run process le lt
boundary_speed_at_max = refl

boundary_speed_just_above_max :
    Gives (record input { vehicle_speed_kmh = positive 0x437a_199a }) (faulty)
unfolding run process le lt
boundary_speed_just_above_max = refl

boundary_speed_timeout_just_before :
    Gives
      (record input { vehicle_speed_kmh = positive 0x4270_0000; speed_timestamp_ms = 501 })
      (moving (positive 0x4270_0000))
unfolding run process le lt
boundary_speed_timeout_just_before = refl

boundary_speed_timeout_at_boundary :
    Gives
      (record input { vehicle_speed_kmh = positive 0x4270_0000; speed_timestamp_ms = 500 })
      (faulty)
unfolding run process le lt
boundary_speed_timeout_at_boundary = refl

fault_speed_negative : Gives (record input { vehicle_speed_kmh = negative 0x3f80_0000 }) (faulty)
unfolding run process le lt
fault_speed_negative = refl

fault_speed_far_above_max :
    Gives (record input { vehicle_speed_kmh = positive 0x4396_0000 }) (faulty)
unfolding run process le lt
fault_speed_far_above_max = refl

fault_speed_timeout :
    Gives
      (record input { vehicle_speed_kmh = positive 0x4270_0000; speed_timestamp_ms = 0 })
      (faulty)
unfolding run process le lt
fault_speed_timeout = refl

fault_crash_active_but_not_valid : Gives (record input { crash_signal_active = true }) (standing)
unfolding run process le lt
fault_crash_active_but_not_valid = refl

fault_crash_valid_but_not_active : Gives (record input { crash_signal_valid = true }) (standing)
unfolding run process le lt
fault_crash_valid_but_not_active = refl

fault_ignition_off :
    Gives
      (record input {
        ignition_state = ign_off;
        switch_request = request_on;
        crash_signal_active = true;
        crash_signal_valid = true;
        vehicle_speed_kmh = positive 0x4270_0000;
        rear_door_inner_handle_active = true;
      })
      (defaults)
unfolding run process le lt
fault_ignition_off = refl

fault_null_pointers :
    (run none (some input) (some defaults) ≡ (none, some defaults))
    × (run (some ready) none (some defaults) ≡ (some ready, some defaults))
    × (run (some ready) (some input) none ≡ (some ready, none))
    × (run none none none ≡ (none, none))
    × (init none ≡ none)
    × (reset none ≡ none)
unfolding run init reset
fault_null_pointers = (refl, refl, refl, refl, refl, refl)

uc1_switch_off_passthrough_while_driving :
    Gives
      (record input { switch_request = request_off; vehicle_speed_kmh = positive 0x4248_0000 })
      (record (moving (positive 0x4248_0000)) { valid_switch_input = request_off })
unfolding run process le lt
uc1_switch_off_passthrough_while_driving = refl

robustness_auto_init :
    run (some (record { is_initialized = false })) (some input) (some defaults)
    ≡ (some ready, some standing)
unfolding run init process le lt
robustness_auto_init = refl

robustness_zero_speed_but_stale_timestamp :
    Gives (record input { speed_timestamp_ms = 0; current_timestamp_ms = 600 }) (faulty)
unfolding run process le lt
robustness_zero_speed_but_stale_timestamp = refl
