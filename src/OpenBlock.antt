-- ===== src/OpenBlock.antt =====
-- src/F04_RearDoorOpenBlockHandler.c and its header. A pointer is an `Option`, NULL is `none`; the
-- handler returns its result and what the output pointer holds when it ends.
pub mod Handling
mod Examples
mod UnitTests
use mbp_t05_child_lock.Base.{ℕ, Bool, true, false, not, ◌||◌, Option, none, some, if◌then◌else◌}
use mbp_t05_child_lock.Types.{ChildLockState, is_cl_off, is_cl_on}

-- `feedback_other n` is the value n + 3.
pub data DoorFeedback : Type 0 where
  closed opened unknown : DoorFeedback
  feedback_other : ℕ → DoorFeedback

pub data DriverNotice : Type 0 where
  notice_none notice_blocked notice_block_failure : DriverNotice

pub data BlockResult : Type 0 where
  no_event allowed blocked block_failed safe_blocked : BlockResult

pub record Input : Type 0 where
  pub rear_door_inner_handle_event : Bool
  pub current_cl_state : ChildLockState
  pub door_state_feedback : DoorFeedback

pub record Output : Type 0 where
  pub open_request_block : Bool
  pub driver_notice : DriverNotice
  pub block_result : BlockResult

unfoldable pub clear_output : Option Output → Option Output
clear_output none = none
clear_output (some output) = some (record output {
  open_request_block = false;
  driver_notice = notice_none;
  block_result = no_event;
})

unfoldable pub is_valid_state : ChildLockState → Bool
is_valid_state state = is_cl_off state || is_cl_on state

abbrev pub is_opened : DoorFeedback → Bool
is_opened closed = false
is_opened opened = true
is_opened unknown = false
is_opened (feedback_other n) = false

-- The branches on the child lock state, for a handle event.
on_handle : Input → Output → Output
unfolding is_valid_state
on_handle input output =
    if not (is_valid_state input.current_cl_state)
    then record output {
      open_request_block = true;
      driver_notice = notice_block_failure;
      block_result = safe_blocked;
    }
    else if is_cl_off input.current_cl_state
    then record output {
      open_request_block = false;
      driver_notice = notice_none;
      block_result = allowed;
    }
    else (let o = record output {
      open_request_block = true;
      driver_notice = notice_blocked;
      block_result = blocked;
    } in
        if is_opened input.door_state_feedback
        then record o { driver_notice = notice_block_failure; block_result = block_failed }
        else o)

handle_cleared : Option Input → Option Output → Bool × Option Output
unfolding on_handle
handle_cleared none output = (false, output)
handle_cleared (some input) none = (false, none)
handle_cleared (some input) (some output) =
    (true, some (if input.rear_door_inner_handle_event then on_handle input output else output))

unfoldable pub handle_event : Option Input → Option Output → Bool × Option Output
unfolding clear_output handle_cleared
handle_event input output = handle_cleared input (clear_output output)
