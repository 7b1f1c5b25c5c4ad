-- ===== src/DoorEcu/UnitTests.antt =====
-- The cases of test/test_F03_DoorEcuCommandHandler.cpp, run on the definitions.
use mbp_t05_child_lock.Base.{◌≡◌, refl, true, false, none, some}
use mbp_t05_child_lock.Types.{
  ChildLockState, cl_off, cl_on, cl_other, fault_flag_none, fault_flag_ecu_ack_fail,
  max_ecu_retry_count,
}
use mbp_t05_child_lock.DoorEcu.{
  DecisionReason, driver_request, auto_lock, emergency_release, safe_locked, state_restore,
  reason_other, ChildLockCommand, command_none, command_cl_off, command_cl_on, not_checked,
  received, not_received, not_required, exhausted, Input, Output, handle_command,
}

-- What an output may hold before.
abbrev used : Output
used = record {
  child_lock_command = command_cl_off;
  ack_status = not_received;
  retry_status = exhausted;
  dtc = 9;
  retry_count = 7;
}

abbrev with_ack : ChildLockState → DecisionReason → Input
with_ack s r = record { target_cl_state = s; decision_reason = r; door_ecu_ack = true }

abbrev no_ack : ChildLockState → DecisionReason → Input
no_ack s r = record (with_ack s r) { door_ecu_ack = false }

abbrev acknowledged : ChildLockCommand → Output
acknowledged c = record {
  child_lock_command = c;
  ack_status = received;
  retry_status = not_required;
  dtc = fault_flag_none;
  retry_count = 0;
}

abbrev unacknowledged : ChildLockCommand → Output
unacknowledged c = record {
  child_lock_command = c;
  ack_status = not_received;
  retry_status = exhausted;
  dtc = fault_flag_ecu_ack_fail;
  retry_count = max_ecu_retry_count;
}

abbrev cleared : Output
cleared = record (acknowledged command_none) { ack_status = not_checked }

ack_received_with_on_target_produces_on_command :
    handle_command (some (with_ack cl_on driver_request)) (some used)
    ≡ (true, some (acknowledged command_cl_on))
unfolding handle_command
ack_received_with_on_target_produces_on_command = refl

ack_received_with_off_target_produces_off_command :
    handle_command (some (with_ack cl_off driver_request)) (some used)
    ≡ (true, some (acknowledged command_cl_off))
unfolding handle_command
ack_received_with_off_target_produces_off_command = refl

auto_lock_reason_ack_received_succeeds :
    handle_command (some (with_ack cl_on auto_lock)) (some used)
    ≡ (true, some (acknowledged command_cl_on))
unfolding handle_command
auto_lock_reason_ack_received_succeeds = refl

safe_locked_reason_ack_received_succeeds :
    handle_command (some (with_ack cl_on safe_locked)) (some used)
    ≡ (true, some (acknowledged command_cl_on))
unfolding handle_command
safe_locked_reason_ack_received_succeeds = refl

state_restore_reason_ack_received_succeeds :
    handle_command (some (with_ack cl_on state_restore)) (some used)
    ≡ (true, some (acknowledged command_cl_on))
unfolding handle_command
state_restore_reason_ack_received_succeeds = refl

missing_ack_exhausts_retry_and_sets_dtc :
    handle_command (some (no_ack cl_on driver_request)) (some used)
    ≡ (true, some (unacknowledged command_cl_on))
unfolding handle_command
missing_ack_exhausts_retry_and_sets_dtc = refl

emergency_release_still_uses_ack_retry_policy :
    handle_command (some (no_ack cl_off emergency_release)) (some used)
    ≡ (true, some (unacknowledged command_cl_off))
unfolding handle_command
emergency_release_still_uses_ack_retry_policy = refl

state_restore_reason_no_ack_sets_retry_and_dtc :
    handle_command (some (no_ack cl_on state_restore)) (some used)
    ≡ (true, some (unacknowledged command_cl_on))
unfolding handle_command
state_restore_reason_no_ack_sets_retry_and_dtc = refl

invalid_target_state_is_rejected :
    handle_command (some (with_ack (cl_other 0xffff_fffd) driver_request)) (some used)
    ≡ (false, some cleared)
unfolding handle_command
invalid_target_state_is_rejected = refl

invalid_decision_reason_is_rejected :
    handle_command (some (with_ack cl_on (reason_other 0xffff_fffa))) (some used)
    ≡ (false, some cleared)
unfolding handle_command
invalid_decision_reason_is_rejected = refl

null_input_is_rejected : handle_command none (some used) ≡ (false, some cleared)
unfolding handle_command
null_input_is_rejected = refl

null_output_is_rejected : handle_command (some (with_ack cl_on driver_request)) none ≡ (false, none)
unfolding handle_command
null_output_is_rejected = refl
