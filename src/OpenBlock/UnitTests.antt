-- ===== src/OpenBlock/UnitTests.antt =====
-- The cases of test/test_F04_RearDoorOpenBlockHandler.cpp, run on the definitions.
use mbp_t05_child_lock.Base.{◌≡◌, refl, Bool, true, false, none, some}
use mbp_t05_child_lock.Types.{ChildLockState, cl_off, cl_on, cl_other}
use mbp_t05_child_lock.OpenBlock.{
  DoorFeedback, closed, opened, unknown, DriverNotice, notice_none, notice_blocked,
  notice_block_failure, BlockResult, no_event, allowed, blocked, block_failed, safe_blocked, Input,
  Output, handle_event,
}

-- What an output may hold before.
abbrev used : Output
used = record {
  open_request_block = true;
  driver_notice = notice_block_failure;
  block_result = safe_blocked;
}

abbrev pulled : ChildLockState → DoorFeedback → Input
pulled s f = record {
  rear_door_inner_handle_event = true;
  current_cl_state = s;
  door_state_feedback = f;
}

abbrev quiet : Input
quiet = record (pulled cl_off closed) { rear_door_inner_handle_event = false }

abbrev report : Bool → DriverNotice → BlockResult → Output
report b n r = record { open_request_block = b; driver_notice = n; block_result = r }

no_handle_event_produces_no_action :
    handle_event (some (quiet)) (some used) ≡ (true, some (report false notice_none no_event))
unfolding handle_event
no_handle_event_produces_no_action = refl

handle_event_with_child_lock_off_allows_open_request :
    handle_event (some (pulled cl_off opened)) (some used)
    ≡ (true, some (report false notice_none allowed))
unfolding handle_event
handle_event_with_child_lock_off_allows_open_request = refl

handle_event_with_child_lock_on_and_closed_feedback_blocked :
    handle_event (some (pulled cl_on closed)) (some used)
    ≡ (true, some (report true notice_blocked blocked))
unfolding handle_event
handle_event_with_child_lock_on_and_closed_feedback_blocked = refl

handle_event_with_child_lock_on_and_unknown_feedback_blocked :
    handle_event (some (pulled cl_on unknown)) (some used)
    ≡ (true, some (report true notice_blocked blocked))
unfolding handle_event
handle_event_with_child_lock_on_and_unknown_feedback_blocked = refl

door_opened_despite_block_reports_failure :
    handle_event (some (pulled cl_on opened)) (some used)
    ≡ (true, some (report true notice_block_failure block_failed))
unfolding handle_event
door_opened_despite_block_reports_failure = refl

invalid_child_lock_state_falls_back_to_safe_block :
    handle_event (some (pulled (cl_other 0xffff_fffd) unknown)) (some used)
    ≡ (true, some (report true notice_block_failure safe_blocked))
unfolding handle_event
invalid_child_lock_state_falls_back_to_safe_block = refl

null_input_is_rejected :
    handle_event none (some used) ≡ (false, some (report false notice_none no_event))
unfolding handle_event
null_input_is_rejected = refl

null_output_is_rejected : handle_event (some quiet) none ≡ (false, none)
unfolding handle_event
null_output_is_rejected = refl
