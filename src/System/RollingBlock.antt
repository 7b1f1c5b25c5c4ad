-- ===== src/System/RollingBlock.antt =====
-- F-01, F-02 and F-04: no inner handle opens a rear door of a vehicle that rolls.
use mbp_t05_child_lock.Base.{◌≡◌, ◌↔◌, ◌≢◌, ap, ◌∙◌, true, some, List, ◌∷◌}
use mbp_t05_child_lock.Types.{ign_on, request_off, event_flag_rear_door_handle}
use mbp_t05_child_lock.InputMonitor.{RawInput, ValidatedOutput, process}
use mbp_t05_child_lock.Decision.{ChildLockState}
use mbp_t05_child_lock.OpenBlock
use mbp_t05_child_lock.System.LockControl.{shared}
use mbp_t05_child_lock.System.HandleBlock.{locked_blocks}
use mbp_t05_child_lock.System.Trip.{Trip, IsRolling, AllRolling, rolling_ends_locked}

-- If a trip of F-01 and F-02 begins with a cycle in which the vehicle rolls and the driver does not
-- ask to open, and it rolls in all later cycles, then in a cycle of F-01 with the ignition on and the
-- inner handle pulled, F-04, given the handle event of F-01 and the lock at the end of the trip,
-- handles the event and blocks the request, whatever state the lock was in at first, whatever the
-- driver asks for later, and whichever faults come and go.
pub rolling_blocks_handle :
    {s t : ChildLockState} (raw : RawInput) (raws : List RawInput) (pull : RawInput)
    (validated : ValidatedOutput) (i : OpenBlock.Input) (output : OpenBlock.Output)
    → IsRolling raw
    → raw.switch_request ≢ request_off
    → AllRolling raws
    → Trip s (raw ∷ raws) t
    → pull.ignition_state ≡ ign_on
    → pull.rear_door_inner_handle_active ≡ true
    → ((i.rear_door_inner_handle_event ≡ true)
        ↔ ((process pull validated).event_flags ≡ event_flag_rear_door_handle))
    → i.current_cl_state ≡ shared t
    → (o : OpenBlock.Output) × (OpenBlock.handle_event (some i) (some output) ≡ (true, some o))
      × (o.open_request_block ≡ true)
rolling_blocks_handle raw raws pull validated i output r no_request rs trip on pulled joined lock =
    locked_blocks pull validated i output on pulled joined
      (lock ∙ ap shared (rolling_ends_locked raw raws r no_request rs trip))
