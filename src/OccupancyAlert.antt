-- ===== src/OccupancyAlert.antt =====
-- src/F09_RearSeatOccupancyAlert.c and its header. A pointer is an `Option`, NULL is `none`; `run`
-- returns what the output pointer holds when it ends.
pub mod Alerts
mod Examples
mod UnitTests
use mbp_t05_child_lock.Base.{Bool, true, false, not, ◌||◌, Option, none, some, if◌then◌else◌}
use mbp_t05_child_lock.Types.{ChildLockState, is_cl_off, WarningMsgId, msg_none, child_lock_on}

pub data AlertType : Type 0 where
  alert_none recommendation status : AlertType

pub record Input : Type 0 where
  pub departure_event : Bool
  pub rear_seat_occupancy : Bool
  pub current_cl_state : ChildLockState
  pub hmi_health : Bool

pub record Output : Type 0 where
  pub alert_type : AlertType
  pub alert_message_id : WarningMsgId
  pub event_log : Bool

unfoldable pub init_neutral_output : Output → Output
init_neutral_output output = record output {
  alert_type = alert_none;
  alert_message_id = msg_none;
  event_log = false;
}

-- `run` where no pointer is NULL.
alert : Input → Output → Output
unfolding init_neutral_output
alert input output =
    let o = init_neutral_output output in
    if not input.departure_event || not input.hmi_health
    then o
    else if input.rear_seat_occupancy
    then (let o = record o { event_log = true } in
        if is_cl_off input.current_cl_state
        then record o { alert_type = recommendation; alert_message_id = msg_none }
        else record o { alert_type = status; alert_message_id = child_lock_on })
    else record o { event_log = true }

unfoldable pub run : Option Input → Option Output → Option Output
unfolding alert
run none output = output
run (some input) none = none
run (some input) (some output) = some (alert input output)
