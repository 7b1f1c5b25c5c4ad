-- ===== src/System/HandleBlock.antt =====
-- F-01 into F-04: from the inner handle to the block.
use mbp_t05_child_lock.Base.{◌≡◌, ◌↔◌, ◌≢◌, true, some, arith}
use mbp_t05_child_lock.Types.{ign_on, cl_off, cl_on, event_flag_rear_door_handle}
use mbp_t05_child_lock.InputMonitor.{RawInput, ValidatedOutput, process}
use mbp_t05_child_lock.InputMonitor.Cycle.{process_signals}
use mbp_t05_child_lock.OpenBlock.{Input, Output, handle_event}
use mbp_t05_child_lock.OpenBlock.Handling.{handle_event-Answers}

-- A pulled handle is blocked exactly if the ignition is on and the lock is anything but off: for a
-- handle event that F-04 takes from the event flags of F-01, F-04 handles it, and it blocks the
-- request exactly if the raw handle signal is active, the ignition is on, and the lock is not off.
pub handle_blocks_iff :
    (raw : RawInput) (validated : ValidatedOutput) (i : Input) (output : Output)
    → ((i.rear_door_inner_handle_event ≡ true)
        ↔ ((process raw validated).event_flags ≡ event_flag_rear_door_handle))
    → (o : Output) × (handle_event (some i) (some output) ≡ (true, some o))
      × ((o.open_request_block ≡ true) ↔ (
          (raw.rear_door_inner_handle_active ≡ true)
          × (raw.ignition_state ≡ ign_on)
          × (i.current_cl_state ≢ cl_off)))
handle_blocks_iff raw validated i output joined =
    let (o, ran, fits) = handle_event-Answers (some i) (some output) in
    let (crash, handle, fault, on, off) = process_signals raw validated in
    (o, ran, ground (arith, fits.blocks, handle, joined))

-- So with the ignition on and a lock that is on, a pulled handle is blocked.
pub locked_blocks :
    (raw : RawInput) (validated : ValidatedOutput) (i : Input) (output : Output)
    → raw.ignition_state ≡ ign_on
    → raw.rear_door_inner_handle_active ≡ true
    → ((i.rear_door_inner_handle_event ≡ true)
        ↔ ((process raw validated).event_flags ≡ event_flag_rear_door_handle))
    → i.current_cl_state ≡ cl_on
    → (o : Output) × (handle_event (some i) (some output) ≡ (true, some o))
      × (o.open_request_block ≡ true)
locked_blocks raw validated i output on pulled joined locked =
    let (o, ran, blocks) = handle_blocks_iff raw validated i output joined in
    (o, ran, blocks.1 (pulled, on, λ off. ground arith))
