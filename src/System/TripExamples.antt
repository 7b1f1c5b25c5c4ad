-- ===== src/System/TripExamples.antt =====
-- The theorems on locking at concrete inputs: a departure at 5 km/h, then a request to open and a pulled
-- handle on the way.
use mbp_t05_child_lock.Base.{◌≡◌, refl, false, true, some, [], ◌∷◌, arith}
use mbp_t05_child_lock.Float
use mbp_t05_child_lock.Float.{positive, le, lt}
use mbp_t05_child_lock.Types.{cl_on as shared_on, ign_on, request_off, request_none}
use mbp_t05_child_lock.InputMonitor.{RawInput, ValidatedOutput, process}
use mbp_t05_child_lock.Decision.{
  ChildLockState, cl_off, cl_on, DriverRequest, driver_none, driver_req_off, DecisionInput,
  decide_child_lock_state,
}
use mbp_t05_child_lock.DoorEcu
use mbp_t05_child_lock.System.Verdict
use mbp_t05_child_lock.System.Policy
use mbp_t05_child_lock.System.DoorControl
use mbp_t05_child_lock.System.DoorCommand
use mbp_t05_child_lock.System.AutoLock
use mbp_t05_child_lock.System.Trip.{Trip, arrived, cycle, IsRolling}

abbrev pub departing : RawInput
departing = record {
  switch_request = request_none;
  vehicle_speed_kmh = positive 0x40a0_0000;
  speed_timestamp_ms = 100;
  current_timestamp_ms = 150;
  crash_signal_active = true;
  crash_signal_valid = false;
  rear_door_inner_handle_active = false;
  ignition_state = ign_on;
}

abbrev pub driving : RawInput
driving = record departing {
  switch_request = request_off;
  crash_signal_valid = true;
  crash_signal_active = false;
}

abbrev pub blank : ValidatedOutput
blank = record {
  valid_switch_input = request_none;
  valid_speed_kmh = positive 0;
  speed_valid = false;
  valid_crash_signal = false;
  auto_lock_condition_met = false;
  event_flags = 0;
  fault_flags = 0;
}

-- The decision input for both, with the lock and the request as given.
abbrev pub input_of : ChildLockState → DriverRequest → DecisionInput
input_of s r = record {
  valid_switch_input = r;
  vehicle_speed_kmh = positive 0x40a0_0000;
  valid_crash_signal = false;
  current_cl_state = s;
  fault_flags = record {
    speed_signal_fault = false;
    sensor_fault = false;
    state_inconsistency = false;
  };
  auto_lock_condition_met = true;
}

departing-Joins :
    (s : ChildLockState) → DoorControl.Joins (process departing blank) (input_of s driver_none)
unfolding process le lt
departing-Joins s = record {
  speed = refl;
  crashes = refl;
  speed_fault = (λ e. cc, λ e. ground arith);
  auto_lock = refl;
  asks_on = (λ e. cc, λ e. ground arith);
  asks_off = (λ e. cc, λ e. ground arith);
}

driving-Joins :
    (s : ChildLockState) → DoorControl.Joins (process driving blank) (input_of s driver_req_off)
unfolding process le lt
driving-Joins s = record {
  speed = refl;
  crashes = refl;
  speed_fault = (λ e. cc, λ e. ground arith);
  auto_lock = refl;
  asks_on = (λ e. cc, λ e. ground arith);
  asks_off = (λ e. refl, λ e. refl);
}

abbrev locking : DoorEcu.Input
locking = record {
  target_cl_state = shared_on;
  decision_reason = DoorEcu.auto_lock;
  door_ecu_ack = true;
}

abbrev no_report : DoorEcu.Output
no_report = record {
  child_lock_command = DoorEcu.command_none;
  ack_status = DoorEcu.not_checked;
  retry_status = DoorEcu.not_required;
  dtc = 0;
  retry_count = 0;
}

pub departing-IsRolling : IsRolling departing
unfolding le
departing-IsRolling = record { on = refl; no_crash = λ c. ground (arith, c.1); moving = refl }

pub driving-IsRolling : IsRolling driving
unfolding le
driving-IsRolling = record { on = refl; no_crash = λ c. ground (arith, c.0); moving = refl }

-- The lock after both, from an unlocked start.
abbrev pub departed : ChildLockState
departed = (decide_child_lock_state (input_of cl_off driver_none)).target_cl_state

abbrev pub driven : ChildLockState
driven = (decide_child_lock_state (input_of departed driver_req_off)).target_cl_state

pub two_cycles : Trip cl_off (departing ∷ driving ∷ []) driven
two_cycles =
    cycle blank (input_of cl_off driver_none) (departing-Joins cl_off)
      (cycle blank (input_of departed driver_req_off) (driving-Joins departed) arrived)

lock_follows_policy_example :
    driven
    ≡ Verdict.settle (Policy.last_verdict (Policy.log (departing ∷ driving ∷ []) two_cycles)) cl_off
lock_follows_policy_example = Policy.lock_follows_policy (departing ∷ driving ∷ []) two_cycles

-- At 5 km/h the departure wants the lock on, and the request to open wants nothing.
last_verdict_of_both : Policy.last_verdict ((departing, false) ∷ (driving, false) ∷ []) ≡ some cl_on
unfolding le
last_verdict_of_both = refl
