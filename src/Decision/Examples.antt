-- ===== src/Decision/Examples.antt =====
-- Runs of F-02, and its theorems at concrete inputs.
use mbp_t05_child_lock.Base.{◌≡◌, refl, ◌↔◌, true, false}
use mbp_t05_child_lock.Float.{Float, nan, positive, le}
use mbp_t05_child_lock.Decision.{
  cl_off, cl_on, driver_req_off, safety_none, inhibit_unlock, driver_unlock_request, DecisionInput,
  decide_child_lock_state,
}
use mbp_t05_child_lock.Decision.Rules.{Decides, Decides-iff}

-- The driver asks to unlock at the given speed.
abbrev asking : Float → DecisionInput
asking v = record {
  valid_switch_input = driver_req_off;
  vehicle_speed_kmh = v;
  valid_crash_signal = false;
  current_cl_state = cl_on;
  fault_flags = record {
    speed_signal_fault = false;
    sensor_fault = false;
    state_inconsistency = false;
  };
  auto_lock_condition_met = false;
}

abbrev three_kmh : Float
three_kmh = positive 0x4040_0000

unlocks : decide_child_lock_state (asking three_kmh) ≡ record {
  target_cl_state = cl_off;
  decision_reason = driver_unlock_request;
  safety_action = safety_none;
  state_changed = true;
}
unfolding decide_child_lock_state le
unlocks = refl

inhibits : (decide_child_lock_state (asking nan)).safety_action ≡ inhibit_unlock
unfolding decide_child_lock_state le
inhibits = refl

Decides-iff_example :
    Decides (asking three_kmh) (decide_child_lock_state (asking three_kmh))
    ↔ (decide_child_lock_state (asking three_kmh) ≡ decide_child_lock_state (asking three_kmh))
Decides-iff_example = Decides-iff (asking three_kmh) (decide_child_lock_state (asking three_kmh))
