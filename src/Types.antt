-- ===== src/Types.antt =====
-- include/childlock_types.h: the constants and the types that the components share.
-- An enumeration that the code reads from outside has one more constructor for the values that
-- are none of its enumerators. A set of flags is its bit mask.
mod Thresholds
use mbp_t05_child_lock.Base.{ℕ, Bool}
use mbp_t05_child_lock.Float.{Float, positive}

abbrev pub float_zero : Float
float_zero = positive 0

abbrev pub unlock_inhibit_speed_kmh : ℕ
unlock_inhibit_speed_kmh = 3

-- An integer in the source, converted to `float` where it is compared.
abbrev pub auto_lock_speed_threshold_kmh : Float
auto_lock_speed_threshold_kmh = positive 0x4040_0000

abbrev pub max_ecu_retry_count : ℕ
max_ecu_retry_count = 3

abbrev pub hmi_alert_max_count : ℕ
hmi_alert_max_count = 1

abbrev pub speed_signal_timeout_ms : ℕ
speed_signal_timeout_ms = 500

abbrev pub speed_max_valid_kmh : Float
speed_max_valid_kmh = positive 0x437a_0000

abbrev pub rear_risk_dist_threshold_m : Float
rear_risk_dist_threshold_m = positive 0x4040_0000

abbrev pub rear_risk_relspeed_threshold_mps : Float
rear_risk_relspeed_threshold_mps = positive 0x4000_0000

abbrev pub rear_risk_confirm_duration_ms : ℕ
rear_risk_confirm_duration_ms = 500

abbrev pub rear_risk_clear_duration_ms : ℕ
rear_risk_clear_duration_ms = 1000

abbrev pub rear_risk_sensor_confidence_min : Float
rear_risk_sensor_confidence_min = positive 0x3f33_3333

abbrev pub rear_risk_dist_max_valid_m : Float
rear_risk_dist_max_valid_m = positive 0x4248_0000

abbrev pub rear_risk_relspeed_max_valid_mps : Float
rear_risk_relspeed_max_valid_mps = positive 0x4248_0000

-- `cl_other n` is the value n + 2.
pub data ChildLockState : Type 0 where
  cl_off cl_on : ChildLockState
  cl_other : ℕ → ChildLockState

pub data RiskLevel : Type 0 where
  risk_none risk_low risk_medium risk_high : RiskLevel

pub data WarningMsgId : Type 0 where
  msg_none rear_risk_high child_lock_on sensor_fault cl_already_on : WarningMsgId
  msg_other : ℕ → WarningMsgId

pub data IgnitionState : Type 0 where
  ign_off ign_on : IgnitionState
  ign_other : ℕ → IgnitionState

pub data SwitchRequest : Type 0 where
  request_none request_on request_off : SwitchRequest
  request_other : ℕ → SwitchRequest

abbrev pub FaultFlag : Type 0
FaultFlag = ℕ

abbrev pub fault_flag_none : FaultFlag
fault_flag_none = 0x00

abbrev pub fault_flag_speed_fault : FaultFlag
fault_flag_speed_fault = 0x01

abbrev pub fault_flag_rear_sensor : FaultFlag
fault_flag_rear_sensor = 0x02

abbrev pub fault_flag_ecu_ack_fail : FaultFlag
fault_flag_ecu_ack_fail = 0x04

abbrev pub fault_flag_hmi_fault : FaultFlag
fault_flag_hmi_fault = 0x08

abbrev pub EventFlag : Type 0
EventFlag = ℕ

abbrev pub event_flag_none : EventFlag
event_flag_none = 0x00

abbrev pub event_flag_rear_door_handle : EventFlag
event_flag_rear_door_handle = 0x01

-- `state == CL_STATE_OFF` and the like.
abbrev pub is_cl_off : ChildLockState → Bool
is_cl_off cl_off = Bool.true
is_cl_off cl_on = Bool.false
is_cl_off (cl_other n) = Bool.false

abbrev pub is_cl_on : ChildLockState → Bool
is_cl_on cl_off = Bool.false
is_cl_on cl_on = Bool.true
is_cl_on (cl_other n) = Bool.false

abbrev pub is_ign_on : IgnitionState → Bool
is_ign_on ign_off = Bool.false
is_ign_on ign_on = Bool.true
is_ign_on (ign_other n) = Bool.false

abbrev pub is_msg_none : WarningMsgId → Bool
is_msg_none msg_none = Bool.true
is_msg_none m = Bool.false
