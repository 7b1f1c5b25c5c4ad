-- ===== src/Protection/UnitTests.antt =====
-- The cases of test/test_F08_RearRiskProtectionController.cpp, run on the definitions.
use mbp_t05_child_lock.Base.{◌≡◌, refl, Bool, true, false, none, some}
use mbp_t05_child_lock.Types.{
  ChildLockState, cl_off, cl_on, ign_off, ign_on, WarningMsgId, msg_none, rear_risk_high,
  sensor_fault, cl_already_on,
}
use mbp_t05_child_lock.Protection.{Input, Output, run}

-- What an output may hold before.
abbrev used : Output
used = record {
  target_cl_state = cl_off;
  warning_msg_id = sensor_fault;
  warning_sound = true;
  cl_changed = true;
  event_log = true;
}

abbrev calm : ChildLockState → Input
calm s = record {
  risk_high = false;
  risk_valid = true;
  current_cl_state = s;
  ignition_state = ign_on;
}

abbrev danger : ChildLockState → Input
danger s = record (calm s) { risk_high = true }

abbrev sensorless : ChildLockState → Input
sensorless s = record (calm s) { risk_valid = false }

abbrev neutral : ChildLockState → Output
neutral s = record {
  target_cl_state = s;
  warning_msg_id = msg_none;
  warning_sound = false;
  cl_changed = false;
  event_log = false;
}

abbrev locked : WarningMsgId → Bool → Output
locked m changed = record {
  target_cl_state = cl_on;
  warning_msg_id = m;
  warning_sound = true;
  cl_changed = changed;
  event_log = true;
}

high_risk_cl_was_off_auto_activate :
    run (some (danger cl_off)) (some used) ≡ some (locked rear_risk_high true)
unfolding run
high_risk_cl_was_off_auto_activate = refl

high_risk_cl_was_on_maintain_lock :
    run (some (danger cl_on)) (some used) ≡ some (locked cl_already_on false)
unfolding run
high_risk_cl_was_on_maintain_lock = refl

no_risk_cl_off_remain_off : run (some (calm cl_off)) (some used) ≡ some (neutral cl_off)
unfolding run
no_risk_cl_off_remain_off = refl

sensor_fault_invalid_risk_force_safe_state :
    run (some (sensorless cl_off)) (some used) ≡ some (locked sensor_fault true)
unfolding run
sensor_fault_invalid_risk_force_safe_state = refl

sensor_fault_cl_was_already_on :
    run (some (sensorless cl_on)) (some used) ≡ some (locked sensor_fault false)
unfolding run
sensor_fault_cl_was_already_on = refl

system_off_ignition_off_do_nothing :
    run (some (record (danger cl_off) { ignition_state = ign_off })) (some used)
    ≡ some (neutral cl_off)
unfolding run
system_off_ignition_off_do_nothing = refl

robustness_null_pointers :
    (run none (some used) ≡ some used)
    × (run (some (calm cl_off)) none ≡ none)
    × (run none none ≡ none)
unfolding run
robustness_null_pointers = (refl, refl, refl)

no_risk_cl_on_maintain_state_no_warning : run (some (calm cl_on)) (some used) ≡ some (neutral cl_on)
unfolding run
no_risk_cl_on_maintain_state_no_warning = refl

ignition_off_sensor_fault_no_action :
    run (some (record (sensorless cl_off) { ignition_state = ign_off })) (some used)
    ≡ some (neutral cl_off)
unfolding run
ignition_off_sensor_fault_no_action = refl
