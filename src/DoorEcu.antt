-- ===== src/DoorEcu.antt =====
-- src/F03_DoorEcuCommandHandler.c and its header. A pointer is an `Option`, NULL is `none`; the
-- handler returns its result and what the output pointer holds when it ends.
pub mod Handling
mod Examples
mod UnitTests
use mbp_t05_child_lock.Base.{ℕ, Bool, true, false, ◌&&◌, ◌||◌, Option, none, some, if◌then◌else◌}
use mbp_t05_child_lock.Types.{
  ChildLockState, is_cl_off, is_cl_on, FaultFlag, fault_flag_none, fault_flag_ecu_ack_fail,
  max_ecu_retry_count,
}

-- `reason_other n` is the value n + 5.
pub data DecisionReason : Type 0 where
  driver_request auto_lock emergency_release safe_locked state_restore : DecisionReason
  reason_other : ℕ → DecisionReason

pub data ChildLockCommand : Type 0 where
  command_none command_cl_off command_cl_on : ChildLockCommand

pub data AckStatus : Type 0 where
  not_checked received not_received : AckStatus

pub data RetryStatus : Type 0 where
  not_required exhausted : RetryStatus

pub record Input : Type 0 where
  pub target_cl_state : ChildLockState
  pub decision_reason : DecisionReason
  pub door_ecu_ack : Bool

pub record Output : Type 0 where
  pub child_lock_command : ChildLockCommand
  pub ack_status : AckStatus
  pub retry_status : RetryStatus
  pub dtc : FaultFlag
  pub retry_count : ℕ  -- uint8_t

unfoldable pub clear_output : Option Output → Option Output
clear_output none = none
clear_output (some output) = some (record output {
  child_lock_command = command_none;
  ack_status = not_checked;
  retry_status = not_required;
  dtc = fault_flag_none;
  retry_count = 0;
})

unfoldable pub is_valid_state : ChildLockState → Bool
is_valid_state state = is_cl_off state || is_cl_on state

-- `reason == DECH_REASON_DRIVER_REQUEST || ...`, over the five enumerators.
unfoldable pub is_valid_reason : DecisionReason → Bool
is_valid_reason driver_request = true
is_valid_reason auto_lock = true
is_valid_reason emergency_release = true
is_valid_reason safe_locked = true
is_valid_reason state_restore = true
is_valid_reason (reason_other n) = false

unfoldable pub map_command : ChildLockState → ChildLockCommand
map_command state = if is_cl_off state then command_cl_off else command_cl_on

-- The body of the handler's `if`, over the cleared output.
issue : Input → Output → Output
unfolding map_command
issue input output =
    let o = record output { child_lock_command = map_command input.target_cl_state } in
    if input.door_ecu_ack then record o { ack_status = received } else record o {
      ack_status = not_received;
      retry_status = exhausted;
      dtc = fault_flag_ecu_ack_fail;
      retry_count = max_ecu_retry_count;
    }

handle_cleared : Option Input → Option Output → Bool × Option Output
unfolding is_valid_state is_valid_reason issue
handle_cleared none output = (false, output)
handle_cleared (some input) none = (false, none)
handle_cleared (some input) (some output) =
    if is_valid_state input.target_cl_state && is_valid_reason input.decision_reason
    then (true, some (issue input output))
    else (false, some output)

unfoldable pub handle_command : Option Input → Option Output → Bool × Option Output
unfolding clear_output handle_cleared
handle_command input output = handle_cleared input (clear_output output)
