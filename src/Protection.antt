-- ===== src/Protection.antt =====
-- src/F08_RearRiskProtectionController.c, with its types in childlock_types.h. A pointer is an
-- `Option`, NULL is `none`; `run` returns what the output pointer holds when it ends.
pub mod Actions
mod Examples
mod UnitTests
use mbp_t05_child_lock.Base.{Bool, true, false, not, Option, none, some, if◌then◌else◌}
use mbp_t05_child_lock.Types.{
  ChildLockState, cl_on, is_cl_off, IgnitionState, is_ign_on, WarningMsgId, msg_none,
  rear_risk_high, sensor_fault, cl_already_on,
}

pub record Input : Type 0 where
  pub risk_high : Bool
  pub risk_valid : Bool
  pub current_cl_state : ChildLockState
  pub ignition_state : IgnitionState

pub record Output : Type 0 where
  pub target_cl_state : ChildLockState
  pub warning_msg_id : WarningMsgId
  pub warning_sound : Bool
  pub cl_changed : Bool
  pub event_log : Bool

unfoldable pub init_neutral_output : ChildLockState → Output → Output
init_neutral_output current output = record output {
  target_cl_state = current;
  warning_msg_id = msg_none;
  warning_sound = false;
  cl_changed = false;
  event_log = false;
}

-- The branch for an invalid risk.
on_sensor_fault : Input → Output → Output
on_sensor_fault input output =
    let o = record output {
      target_cl_state = cl_on;
      warning_msg_id = sensor_fault;
      warning_sound = true;
      event_log = true;
    } in
    if is_cl_off input.current_cl_state then record o { cl_changed = true } else o

-- The branch for a high risk.
on_risk_high : Input → Output → Output
on_risk_high input output =
    let o = record output { target_cl_state = cl_on; warning_sound = true; event_log = true } in
    if is_cl_off input.current_cl_state
    then record o { warning_msg_id = rear_risk_high; cl_changed = true }
    else record o { warning_msg_id = cl_already_on; cl_changed = false }

-- `run` where no pointer is NULL.
protect : Input → Output → Output
unfolding init_neutral_output on_sensor_fault on_risk_high
protect input output =
    let o = init_neutral_output input.current_cl_state output in
    if not (is_ign_on input.ignition_state)
    then o
    else if not input.risk_valid
    then on_sensor_fault input o
    else if input.risk_high
    then on_risk_high input o
    else o

unfoldable pub run : Option Input → Option Output → Option Output
unfolding protect
run none output = output
run (some input) none = none
run (some input) (some output) = some (protect input output)
