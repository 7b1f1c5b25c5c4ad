-- ===== src/DoorEcu/Examples.antt =====
-- Runs of F-03, and its theorems at concrete inputs.
use mbp_t05_child_lock.Base.{◌≡◌, refl, ◌⊎◌, true, false, some}
use mbp_t05_child_lock.Types.{cl_on, cl_other}
use mbp_t05_child_lock.DoorEcu.{
  safe_locked, command_cl_on, received, not_received, exhausted, Input, Output, clear_output,
  handle_command,
}
use mbp_t05_child_lock.DoorEcu.Handling.{IsAcceptable, Reports, handle_command-Answers}

abbrev locking : Input
locking = record { target_cl_state = cl_on; decision_reason = safe_locked; door_ecu_ack = false }

abbrev used : Output
used = record {
  child_lock_command = command_cl_on;
  ack_status = received;
  retry_status = exhausted;
  dtc = 7;
  retry_count = 9;
}

reports_failure : handle_command (some locking) (some used) ≡ (
  true,
  some (record {
    child_lock_command = command_cl_on;
    ack_status = not_received;
    retry_status = exhausted;
    dtc = 4;
    retry_count = 3;
  }),
)
unfolding handle_command
reports_failure = refl

abbrev broken : Input
broken = record locking { target_cl_state = cl_other 5 }

rejects : handle_command (some broken) (some used) ≡ (false, clear_output (some used))
unfolding handle_command
rejects = refl

handle_command-Answers_example :
    (IsAcceptable (some locking) (some used)
      × (o : Output) × (handle_command (some locking) (some used) ≡ (true, some o))
      × Reports locking o)
    ⊎ ((¬ IsAcceptable (some locking) (some used))
        × (handle_command (some locking) (some used) ≡ (false, clear_output (some used))))
handle_command-Answers_example = handle_command-Answers (some locking) (some used)
