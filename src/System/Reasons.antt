-- ===== src/System/Reasons.antt =====
-- F-02 into F-03, with the decision's reason passed on as the number that it is in C.
use mbp_t05_child_lock.Base.{◌≡◌, ◌↔◌, ◌⊎◌, Bool, false, some, arith}
use mbp_t05_child_lock.Decision
use mbp_t05_child_lock.Decision.{
  DecisionInput, DecisionReason, no_state_change, crash_detected, fault_detected,
  driver_lock_request, driver_unlock_request, unlock_inhibited_while_moving,
  auto_lock_condition_met, decide_child_lock_state,
}
use mbp_t05_child_lock.DoorEcu
use mbp_t05_child_lock.DoorEcu.{
  driver_request, auto_lock, emergency_release, safe_locked, state_restore, reason_other,
  handle_command,
}
use mbp_t05_child_lock.System.LockControl.{shared}

-- The reason of F-03 with the same value, where the enumerators of both count from 0.
abbrev pub by_value : DecisionReason → DoorEcu.DecisionReason
by_value no_state_change = driver_request
by_value crash_detected = auto_lock
by_value fault_detected = emergency_release
by_value driver_lock_request = safe_locked
by_value driver_unlock_request = state_restore
by_value unlock_inhibited_while_moving = reason_other 0
by_value auto_lock_condition_met = reason_other 1

abbrev pub order : DecisionInput → Bool → DoorEcu.Input
order i ack =
    let r = decide_child_lock_state i in
    record {
      target_cl_state = shared r.target_cl_state;
      decision_reason = by_value r.decision_reason;
      door_ecu_ack = ack;
    }

-- With the reason passed on as its number: for a lock that is off or on, F-03 rejects a decision exactly
-- if its reason is the inhibited unlock or the auto-lock.
pub rejects_by_value_iff :
    (i : DecisionInput) (ack : Bool) (output : DoorEcu.Output)
    → (i.current_cl_state ≡ Decision.cl_off) ⊎ (i.current_cl_state ≡ Decision.cl_on)
    → ((handle_command (some (order i ack)) (some output)).0 ≡ false) ↔ (
        ((decide_child_lock_state i).decision_reason ≡ unlock_inhibited_while_moving)
        ⊎ ((decide_child_lock_state i).decision_reason ≡ auto_lock_condition_met))
unfolding decide_child_lock_state handle_command
rejects_by_value_iff i ack output valid = ground arith
