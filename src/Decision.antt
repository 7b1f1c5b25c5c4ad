-- ===== src/Decision.antt =====
-- src/F02_ChildLockStateDecision.c and its header. The caller's pointer is taken to be valid: the
-- code reads through it with no test.
pub mod Rules
pub mod Safety
mod Examples
mod UnitTests
use mbp_t05_child_lock.Base.{ℕ, Bool, true, false, not, ◌||◌, ◌==◌, if◌then◌else◌}
use mbp_t05_child_lock.Float
use mbp_t05_child_lock.Float.{Float, positive}

-- `cl_other n` is the value n + 2, and `driver_other n` the value n + 3.
pub data ChildLockState : Type 0 where
  cl_off cl_on : ChildLockState
  cl_other : ℕ → ChildLockState

pub data DecisionReason : Type 0 where
  no_state_change crash_detected fault_detected : DecisionReason
  driver_lock_request driver_unlock_request : DecisionReason
  unlock_inhibited_while_moving auto_lock_condition_met : DecisionReason

pub data SafetyAction : Type 0 where
  safety_none enter_safe_locked enter_emergency_released inhibit_unlock : SafetyAction

pub data DriverRequest : Type 0 where
  driver_none driver_req_on driver_req_off : DriverRequest
  driver_other : ℕ → DriverRequest

pub record FaultFlags : Type 0 where
  pub speed_signal_fault : Bool
  pub sensor_fault : Bool
  pub state_inconsistency : Bool

pub record DecisionInput : Type 0 where
  pub valid_switch_input : DriverRequest
  pub vehicle_speed_kmh : Float
  pub valid_crash_signal : Bool
  pub current_cl_state : ChildLockState
  pub fault_flags : FaultFlags
  pub auto_lock_condition_met : Bool

pub record DecisionResult : Type 0 where
  pub target_cl_state : ChildLockState
  pub decision_reason : DecisionReason
  pub safety_action : SafetyAction
  pub state_changed : Bool

abbrev pub unlock_inhibit_speed_kmh : Float
unlock_inhibit_speed_kmh = positive 0x4040_0000

unfoldable pub has_any_fault : FaultFlags → Bool
has_any_fault faults =
    faults.speed_signal_fault || faults.sensor_fault || faults.state_inconsistency

-- `a == b` on the values of the enumeration.
abbrev pub same_state : ChildLockState → ChildLockState → Bool
same_state cl_off cl_off = true
same_state cl_on cl_on = true
same_state (cl_other a) (cl_other b) = a == b
same_state _ _ = false

unfoldable pub make_result :
    ChildLockState → DecisionReason → SafetyAction → ChildLockState → DecisionResult
make_result target reason action current = record {
  target_cl_state = target;
  decision_reason = reason;
  safety_action = action;
  state_changed = not (same_state target current);
}

abbrev is_req_on : DriverRequest → Bool
is_req_on driver_none = false
is_req_on driver_req_on = true
is_req_on driver_req_off = false
is_req_on (driver_other n) = false

abbrev is_req_off : DriverRequest → Bool
is_req_off driver_none = false
is_req_off driver_req_on = false
is_req_off driver_req_off = true
is_req_off (driver_other n) = false

unfoldable pub decide_child_lock_state : DecisionInput → DecisionResult
unfolding has_any_fault make_result
decide_child_lock_state input =
    if input.valid_crash_signal
    then make_result cl_off crash_detected enter_emergency_released current
    else if has_any_fault input.fault_flags
    then make_result cl_on fault_detected enter_safe_locked current
    else if is_req_on input.valid_switch_input
    then make_result cl_on driver_lock_request safety_none current
    else if is_req_off input.valid_switch_input
    then (if Float.le input.vehicle_speed_kmh unlock_inhibit_speed_kmh
        then make_result cl_off driver_unlock_request safety_none current
        else make_result current unlock_inhibited_while_moving inhibit_unlock current)
    else if input.auto_lock_condition_met
    then make_result cl_on auto_lock_condition_met safety_none current
    else make_result current no_state_change safety_none current
  where
    current : ChildLockState
    current = input.current_cl_state
