-- ===== src/OpenBlock/Examples.antt =====
-- Runs of F-04, and its theorems at concrete inputs.
use mbp_t05_child_lock.Base.{◌≡◌, refl, true, false, none, some}
use mbp_t05_child_lock.Types.{cl_on}
use mbp_t05_child_lock.OpenBlock.{
  opened, notice_none, notice_block_failure, allowed, block_failed, Input, Output, clear_output,
  handle_event,
}
use mbp_t05_child_lock.OpenBlock.Handling.{Classifies, handle_event-Answers}

abbrev pulled : Input
pulled = record {
  rear_door_inner_handle_event = true;
  current_cl_state = cl_on;
  door_state_feedback = opened;
}

abbrev used : Output
used = record { open_request_block = false; driver_notice = notice_none; block_result = allowed }

fails_to_block : handle_event (some pulled) (some used) ≡ (
  true,
  some (record {
    open_request_block = true;
    driver_notice = notice_block_failure;
    block_result = block_failed;
  }),
)
unfolding handle_event
fails_to_block = refl

clears : handle_event none (some used) ≡ (false, clear_output (some used))
unfolding handle_event
clears = refl

handle_event-Answers_example :
    (o : Output) × (handle_event (some pulled) (some used) ≡ (true, some o)) × Classifies pulled o
handle_event-Answers_example = handle_event-Answers (some pulled) (some used)
