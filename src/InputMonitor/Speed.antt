-- ===== src/InputMonitor/Speed.antt =====
-- The validation of the vehicle speed (D2) and the auto-lock condition (D6) of F-01.
use mbp_t05_child_lock.Base.{
  ℕ, ◌+◌, ◌%◌, ◌<◌, ◌≡◌, refl, ◌↔◌, ◌≢◌, ◌⊎◌, true, false, u32_mod, sub32, arith,
}
use mbp_t05_child_lock.Float
use mbp_t05_child_lock.Float.Order.{number_of_le}
use mbp_t05_child_lock.Types.{
  float_zero, speed_max_valid_kmh, auto_lock_speed_threshold_kmh, speed_signal_timeout_ms, ign_on,
  fault_flag_none, fault_flag_speed_fault,
}
use mbp_t05_child_lock.InputMonitor.{RawInput, ValidatedOutput, process}

-- The difference of two wrapped timestamps is the time between them, if that is below 2 ^ 32.
pub sub32_elapsed : (t d : ℕ) → d < u32_mod → sub32 ((t + d) % u32_mod) (t % u32_mod) ≡ d
sub32_elapsed t d h = omega arith

-- With the ignition on, for a speed signal that was last updated `d` milliseconds ago, `d` below
-- 2 ^ 32, the speed is valid exactly when it lies between 0 and 250 km/h and `d` is below 500,
-- also where the millisecond counter has wrapped around in between.
pub process-speed_valid_iff :
    (input : RawInput) (output : ValidatedOutput) (t d : ℕ)
    → input.ignition_state ≡ ign_on
    → input.speed_timestamp_ms ≡ t % u32_mod
    → input.current_timestamp_ms ≡ (t + d) % u32_mod
    → d < u32_mod
    → ((process input output).speed_valid ≡ true) ↔ (
        (Float.le float_zero input.vehicle_speed_kmh ≡ true)
        × (Float.le input.vehicle_speed_kmh speed_max_valid_kmh ≡ true)
        × (d < speed_signal_timeout_ms))
unfolding process
process-speed_valid_iff input output t d on stamped now small =
    ground (arith, sub32_elapsed t d small)

zero_in_range :
    (Float.le float_zero float_zero ≡ true) × (Float.le float_zero speed_max_valid_kmh ≡ true)
unfolding Float.le
zero_in_range = (refl, refl)

-- In every cycle, whatever the raw speed is (NaN and the infinities included), the speed handed on
-- is a number from 0 to 250 km/h.
pub process-speed_bounds :
    (input : RawInput) (output : ValidatedOutput)
    → let v = (process input output).valid_speed_kmh in
      (Float.is_number v ≡ true)
      × (Float.le float_zero v ≡ true)
      × (Float.le v speed_max_valid_kmh ≡ true)
unfolding process
process-speed_bounds input output =
    ground (arith, zero_in_range, number_of_le input.vehicle_speed_kmh speed_max_valid_kmh)

-- With the ignition on, either the speed is valid, handed on as it is, with no fault flag; or it is
-- invalid, handed on as 0, with the speed fault flag and no other, and no auto-lock condition.
pub process-speed_cases :
    (input : RawInput) (output : ValidatedOutput)
    → input.ignition_state ≡ ign_on
    → let o = process input output in
      ((o.speed_valid ≡ true)
        × (o.valid_speed_kmh ≡ input.vehicle_speed_kmh)
        × (o.fault_flags ≡ fault_flag_none))
      ⊎ ((o.speed_valid ≡ false)
          × (o.valid_speed_kmh ≡ float_zero)
          × (o.fault_flags ≡ fault_flag_speed_fault)
          × (o.auto_lock_condition_met ≡ false))
unfolding process
process-speed_cases input output on = ground arith

-- In every cycle the auto-lock condition is met exactly when the speed is valid and over 3 km/h.
pub process-auto_lock_iff :
    (input : RawInput) (output : ValidatedOutput)
    → let o = process input output in
      (o.auto_lock_condition_met ≡ true)
      ↔ ((o.speed_valid ≡ true) × (Float.lt auto_lock_speed_threshold_kmh o.valid_speed_kmh ≡ true))
unfolding process
process-auto_lock_iff input output = ground arith

-- In every cycle, whatever the raw speed is (NaN and the infinities included), the speed handed on is
-- a number from 0 to 250 km/h, and it is one of three: with an ignition that is not on it is 0,
-- invalid, with no fault; with the ignition on it is the raw speed, valid, with no fault, or it is 0,
-- invalid, with the speed fault and no other. In the two invalid cases the auto-lock condition is not
-- met.
pub process-speed_safe :
    (input : RawInput) (output : ValidatedOutput)
    → let o = process input output in
      ((Float.is_number o.valid_speed_kmh ≡ true)
        × (Float.le float_zero o.valid_speed_kmh ≡ true)
        × (Float.le o.valid_speed_kmh speed_max_valid_kmh ≡ true))
      × (((input.ignition_state ≢ ign_on)
            × (o.speed_valid ≡ false)
            × (o.valid_speed_kmh ≡ float_zero)
            × (o.fault_flags ≡ fault_flag_none)
            × (o.auto_lock_condition_met ≡ false))
          ⊎ (((input.ignition_state ≡ ign_on)
                × (o.speed_valid ≡ true)
                × (o.valid_speed_kmh ≡ input.vehicle_speed_kmh)
                × (o.fault_flags ≡ fault_flag_none))
              ⊎ ((input.ignition_state ≡ ign_on)
                  × (o.speed_valid ≡ false)
                  × (o.valid_speed_kmh ≡ float_zero)
                  × (o.fault_flags ≡ fault_flag_speed_fault)
                  × (o.auto_lock_condition_met ≡ false))))
unfolding process
process-speed_safe input output = (process-speed_bounds input output, ground arith)
