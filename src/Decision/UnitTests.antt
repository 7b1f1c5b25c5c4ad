-- ===== src/Decision/UnitTests.antt =====
-- The cases of test/test_F02_ChildLockStateDecision.cpp, run on the definitions.
use mbp_t05_child_lock.Base.{◌≡◌, refl, true, false, Bool}
use mbp_t05_child_lock.Float.{positive, le}
use mbp_t05_child_lock.Decision

abbrev input : Decision.DecisionInput
input = record {
  valid_switch_input = Decision.driver_none;
  vehicle_speed_kmh = positive 0;
  valid_crash_signal = false;
  current_cl_state = Decision.cl_off;
  fault_flags = record {
    speed_signal_fault = false;
    sensor_fault = false;
    state_inconsistency = false;
  };
  auto_lock_condition_met = false;
}

abbrev faults : Bool → Bool → Bool → Decision.FaultFlags
faults speed sensor inconsistency = record {
  speed_signal_fault = speed;
  sensor_fault = sensor;
  state_inconsistency = inconsistency;
}

abbrev decided :
    Decision.ChildLockState
    → Decision.DecisionReason
    → Decision.SafetyAction
    → Bool
    → Decision.DecisionResult
decided target reason action changed = record {
  target_cl_state = target;
  decision_reason = reason;
  safety_action = action;
  state_changed = changed;
}

crash_has_highest_priority_over_fault_and_driver :
    Decision.decide_child_lock_state (record input {
      valid_crash_signal = true;
      valid_switch_input = Decision.driver_req_on;
      fault_flags = faults true true true;
      auto_lock_condition_met = true;
    })
    ≡ decided Decision.cl_off Decision.crash_detected Decision.enter_emergency_released false
unfolding Decision.decide_child_lock_state le
crash_has_highest_priority_over_fault_and_driver = refl

crash_when_cl_was_on_state_changed_true :
    Decision.decide_child_lock_state
      (record input { current_cl_state = Decision.cl_on; valid_crash_signal = true })
    ≡ decided Decision.cl_off Decision.crash_detected Decision.enter_emergency_released true
unfolding Decision.decide_child_lock_state le
crash_when_cl_was_on_state_changed_true = refl

fault_has_priority_over_driver_input :
    Decision.decide_child_lock_state (record input {
      valid_switch_input = Decision.driver_req_off;
      fault_flags = faults false true false;
    })
    ≡ decided Decision.cl_on Decision.fault_detected Decision.enter_safe_locked true
unfolding Decision.decide_child_lock_state le
fault_has_priority_over_driver_input = refl

fault_speed_signal_fault_safe_locked :
    Decision.decide_child_lock_state (record input { fault_flags = faults true false false })
    ≡ decided Decision.cl_on Decision.fault_detected Decision.enter_safe_locked true
unfolding Decision.decide_child_lock_state le
fault_speed_signal_fault_safe_locked = refl

fault_state_inconsistency_safe_locked :
    Decision.decide_child_lock_state (record input { fault_flags = faults false false true })
    ≡ decided Decision.cl_on Decision.fault_detected Decision.enter_safe_locked true
unfolding Decision.decide_child_lock_state le
fault_state_inconsistency_safe_locked = refl

driver_on_request_activates_lock :
    Decision.decide_child_lock_state (record input { valid_switch_input = Decision.driver_req_on })
    ≡ decided Decision.cl_on Decision.driver_lock_request Decision.safety_none true
unfolding Decision.decide_child_lock_state le
driver_on_request_activates_lock = refl

driver_off_request_at_zero_speed_allowed :
    Decision.decide_child_lock_state (record input {
      current_cl_state = Decision.cl_on;
      valid_switch_input = Decision.driver_req_off;
    })
    ≡ decided Decision.cl_off Decision.driver_unlock_request Decision.safety_none true
unfolding Decision.decide_child_lock_state le
driver_off_request_at_zero_speed_allowed = refl

driver_off_request_at_threshold_allowed :
    Decision.decide_child_lock_state (record input {
      current_cl_state = Decision.cl_on;
      valid_switch_input = Decision.driver_req_off;
      vehicle_speed_kmh = positive 0x4040_0000;
    })
    ≡ decided Decision.cl_off Decision.driver_unlock_request Decision.safety_none true
unfolding Decision.decide_child_lock_state le
driver_off_request_at_threshold_allowed = refl

driver_off_request_above_threshold_inhibited :
    Decision.decide_child_lock_state (record input {
      current_cl_state = Decision.cl_on;
      valid_switch_input = Decision.driver_req_off;
      vehicle_speed_kmh = positive 0x4046_6666;
    })
    ≡ decided Decision.cl_on Decision.unlock_inhibited_while_moving Decision.inhibit_unlock false
unfolding Decision.decide_child_lock_state le
driver_off_request_above_threshold_inhibited = refl

auto_lock_activates_lock_when_cl_off :
    Decision.decide_child_lock_state (record input { auto_lock_condition_met = true })
    ≡ decided Decision.cl_on Decision.auto_lock_condition_met Decision.safety_none true
unfolding Decision.decide_child_lock_state le
auto_lock_activates_lock_when_cl_off = refl

auto_lock_when_cl_already_on_state_changed_false :
    Decision.decide_child_lock_state
      (record input { current_cl_state = Decision.cl_on; auto_lock_condition_met = true })
    ≡ decided Decision.cl_on Decision.auto_lock_condition_met Decision.safety_none false
unfolding Decision.decide_child_lock_state le
auto_lock_when_cl_already_on_state_changed_false = refl

no_conditions_cl_on_holds_state :
    Decision.decide_child_lock_state (record input { current_cl_state = Decision.cl_on })
    ≡ decided Decision.cl_on Decision.no_state_change Decision.safety_none false
unfolding Decision.decide_child_lock_state le
no_conditions_cl_on_holds_state = refl

no_conditions_cl_off_holds_state :
    Decision.decide_child_lock_state (input)
    ≡ decided Decision.cl_off Decision.no_state_change Decision.safety_none false
unfolding Decision.decide_child_lock_state le
no_conditions_cl_off_holds_state = refl
