-- ===== src/InputMonitor/Cycle.antt =====
-- One cycle of F-01: its guards, the discrete signals, and what it keeps from earlier cycles.
use mbp_t05_child_lock.Base.{◌≡◌, ◌↔◌, ◌≢◌, ◌||◌, true, Option, some, is_null, arith}
use mbp_t05_child_lock.Types.{
  ign_on, request_none, fault_flag_none, fault_flag_speed_fault, event_flag_rear_door_handle,
}
use mbp_t05_child_lock.InputMonitor.{Context, RawInput, ValidatedOutput, process, run}

-- If a pointer is NULL, nothing is written.
pub run_null :
    (ctx : Option Context) (input : Option RawInput) (output : Option ValidatedOutput)
    → is_null ctx || is_null input || is_null output ≡ true
    → run ctx input output ≡ (ctx, output)
unfolding run
run_null ctx input output h = ground arith

-- A cycle without a NULL pointer leaves an initialised context, and its output is what `process`
-- makes of the raw input: neither the context nor what the output held before has a part in it.
pub run-process :
    (ctx : Context) (input : RawInput) (output other : ValidatedOutput)
    → run (some ctx) (some input) (some output)
      ≡ (some (record { is_initialized = true }), some (process input other))
unfolding run
run-process ctx input output other = ground arith

-- The signals that fit a raw input: a crash exactly if the ignition is on and the crash signal is
-- active and trustworthy, the handle event exactly if the ignition is on and the handle is pulled, a
-- speed fault, the only fault there is, only if the ignition is on; and the driver's request if the
-- ignition is on, else none.
pub process_signals :
    (input : RawInput) (output : ValidatedOutput)
    → let o = process input output in
      let on = input.ignition_state ≡ ign_on in
      ((o.valid_crash_signal ≡ true)
        ↔ (on × (input.crash_signal_active ≡ true) × (input.crash_signal_valid ≡ true)))
      × ((o.event_flags ≡ event_flag_rear_door_handle)
          ↔ (on × (input.rear_door_inner_handle_active ≡ true)))
      × (o.fault_flags ≢ fault_flag_none → on × (o.fault_flags ≡ fault_flag_speed_fault))
      × (on → o.valid_switch_input ≡ input.switch_request)
      × (¬ on → o.valid_switch_input ≡ request_none)
unfolding process
process_signals input output = ground arith

-- A cycle without a NULL pointer leaves an initialised context and an output in which neither the
-- context nor what the output held before has a part: it is the same for any earlier output `other`.
-- In it a crash is reported exactly if the ignition is on and the crash signal is active and
-- trustworthy, the handle event exactly if the ignition is on and the handle is pulled, and a speed
-- fault, the only fault there is, only if the ignition is on; the driver's request is passed through
-- if the ignition is on, and is none if not.
pub run_signals :
    (ctx : Context) (input : RawInput) (output other : ValidatedOutput)
    → let o = process input other in
      let on = input.ignition_state ≡ ign_on in
      (run (some ctx) (some input) (some output)
        ≡ (some (record { is_initialized = true }), some o))
      × ((o.valid_crash_signal ≡ true)
          ↔ (on × (input.crash_signal_active ≡ true) × (input.crash_signal_valid ≡ true)))
      × ((o.event_flags ≡ event_flag_rear_door_handle)
          ↔ (on × (input.rear_door_inner_handle_active ≡ true)))
      × (o.fault_flags ≢ fault_flag_none → on × (o.fault_flags ≡ fault_flag_speed_fault))
      × (on → o.valid_switch_input ≡ input.switch_request)
      × (¬ on → o.valid_switch_input ≡ request_none)
run_signals ctx input output other =
    let (crash, handle, fault, on, off) = process_signals input other in
    (run-process ctx input output other, crash, handle, fault, on, off)
