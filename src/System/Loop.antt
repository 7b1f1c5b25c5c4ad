-- ===== src/System/Loop.antt =====
-- A joint of F-01 and F-02 as a function, and the trips that it makes of any raw signals.
use mbp_t05_child_lock.Base.{◌≡◌, ◌↔◌, refl, List, [], ◌∷◌, ◌==◌, arith}
use mbp_t05_child_lock.Types.{
  SwitchRequest, request_none, request_on, request_off, request_other, fault_flag_speed_fault,
}
use mbp_t05_child_lock.InputMonitor.{RawInput, ValidatedOutput, process}
use mbp_t05_child_lock.Decision.{
  ChildLockState, DriverRequest, driver_none, driver_req_on, driver_req_off, driver_other,
  FaultFlags, DecisionInput, decide_child_lock_state,
}
use mbp_t05_child_lock.System.DoorControl.{Joins}
use mbp_t05_child_lock.System.Trip.{Trip, arrived, cycle}

-- The request with the same value.
abbrev pub driver_request : SwitchRequest → DriverRequest
driver_request request_none = driver_none
driver_request request_on = driver_req_on
driver_request request_off = driver_req_off
driver_request (request_other n) = driver_other n

abbrev pub join : ValidatedOutput → ChildLockState → FaultFlags → DecisionInput
join o s faults = record {
  valid_switch_input = driver_request o.valid_switch_input;
  vehicle_speed_kmh = o.valid_speed_kmh;
  valid_crash_signal = o.valid_crash_signal;
  current_cl_state = s;
  fault_flags = record faults { speed_signal_fault = o.fault_flags == fault_flag_speed_fault };
  auto_lock_condition_met = o.auto_lock_condition_met;
}

asks_on_iff : (r : SwitchRequest) → (driver_request r ≡ driver_req_on) ↔ (r ≡ request_on)
asks_on_iff r = ground arith

asks_off_iff : (r : SwitchRequest) → (driver_request r ≡ driver_req_off) ↔ (r ≡ request_off)
asks_off_iff r = ground arith

pub join-Joins :
    (o : ValidatedOutput) (s : ChildLockState) (faults : FaultFlags) → Joins o (join o s faults)
join-Joins o s faults = record {
  speed = refl;
  crashes = refl;
  speed_fault = ground arith;
  auto_lock = refl;
  asks_on = asks_on_iff o.valid_switch_input;
  asks_off = asks_off_iff o.valid_switch_input;
}

-- What one cycle is given: the raw signals, what the output of F-01 held, and the faults that others
-- report.
pub record Given : Type 0 where
  pub raw : RawInput
  pub held : ValidatedOutput
  pub faults : FaultFlags

-- The lock after the cycles.
pub drive : ChildLockState → List Given → ChildLockState
drive s [] = s
drive s (g ∷ gs) =
    drive (decide_child_lock_state (join (process g.raw g.held) s g.faults)).target_cl_state gs

abbrev pub signals : List Given → List RawInput
signals [] = []
signals (g ∷ gs) = g.raw ∷ signals gs

-- Every list of cycles makes a trip from every state.
pub drive-Trip : (gs : List Given) (s : ChildLockState) → Trip s (signals gs) (drive s gs)
unfolding drive
drive-Trip [] s = arrived
drive-Trip (g ∷ gs) s =
    let o = process g.raw g.held in
    let i = join o s g.faults in
    cycle g.held i (join-Joins o s g.faults)
      (drive-Trip gs (decide_child_lock_state i).target_cl_state)
