-- ===== src/Decision/Rules.antt =====
-- The decision table of F-02 as a relation, and that the code decides by it.
use mbp_t05_child_lock.Base.{◌≡◌, ◌↔◌, ◌≢◌, ◌⊎◌, true, false, arith}
use mbp_t05_child_lock.Float
use mbp_t05_child_lock.Decision.{
  ChildLockState, cl_off, cl_on, DecisionReason, no_state_change, crash_detected, fault_detected,
  driver_lock_request, driver_unlock_request, unlock_inhibited_while_moving,
  auto_lock_condition_met, SafetyAction, safety_none, enter_safe_locked, enter_emergency_released,
  inhibit_unlock, DriverRequest, driver_req_on, driver_req_off, FaultFlags, same_state,
  DecisionInput, DecisionResult, unlock_inhibit_speed_kmh, decide_child_lock_state,
}

abbrev pub IsFaulty : FaultFlags → Type 0
IsFaulty f =
    (f.speed_signal_fault ≡ true) ⊎ ((f.sensor_fault ≡ true) ⊎ (f.state_inconsistency ≡ true))

-- Neither a crash nor a fault: the driver and the speed decide.
pub record IsCalm (i : DecisionInput) : Type 0 where
  pub no_crash : i.valid_crash_signal ≡ false
  pub no_fault : ¬ IsFaulty i.fault_flags

abbrev NoRequest : DriverRequest → Type 0
NoRequest r = (r ≢ driver_req_on) × (r ≢ driver_req_off)

-- The rules, in the priority of the design: crash, fault, driver, auto-lock. The last three indices
-- are the target state, the reason and the safety action.
pub data Rule (i : DecisionInput) : ChildLockState → DecisionReason → SafetyAction → Type 0 where
  crash : i.valid_crash_signal ≡ true → Rule i cl_off crash_detected enter_emergency_released
  fault :
      i.valid_crash_signal ≡ false
      → IsFaulty i.fault_flags
      → Rule i cl_on fault_detected enter_safe_locked
  lock :
      IsCalm i → i.valid_switch_input ≡ driver_req_on → Rule i cl_on driver_lock_request safety_none
  unlock :
      IsCalm i
      → i.valid_switch_input ≡ driver_req_off
      → Float.le i.vehicle_speed_kmh unlock_inhibit_speed_kmh ≡ true
      → Rule i cl_off driver_unlock_request safety_none
  inhibit :
      {s : ChildLockState}
      → IsCalm i
      → i.valid_switch_input ≡ driver_req_off
      → Float.le i.vehicle_speed_kmh unlock_inhibit_speed_kmh ≡ false
      → s ≡ i.current_cl_state
      → Rule i s unlock_inhibited_while_moving inhibit_unlock
  auto_lock :
      IsCalm i
      → NoRequest i.valid_switch_input
      → i.auto_lock_condition_met ≡ true
      → Rule i cl_on auto_lock_condition_met safety_none
  stay :
      {s : ChildLockState}
      → IsCalm i
      → NoRequest i.valid_switch_input
      → i.auto_lock_condition_met ≡ false
      → s ≡ i.current_cl_state
      → Rule i s no_state_change safety_none

abbrev pub Decides : DecisionInput → DecisionResult → Type 0
Decides i r =
    Rule i r.target_cl_state r.decision_reason r.safety_action
    × ((r.state_changed ≡ true) ↔ (r.target_cl_state ≢ i.current_cl_state))

same_state_lem : (s t : ChildLockState) → (same_state s t ≡ true) ↔ (s ≡ t)
same_state_lem s t = ground arith

decide-Rule :
    (i : DecisionInput)
    → let r = decide_child_lock_state i in
      Rule i r.target_cl_state r.decision_reason r.safety_action
unfolding decide_child_lock_state
decide-Rule i = grind (arith, crash, fault, lock, unlock, inhibit, auto_lock, stay)

decide_changed :
    (i : DecisionInput)
    → let r = decide_child_lock_state i in
      (r.state_changed ≡ true) ↔ (r.target_cl_state ≢ i.current_cl_state)
unfolding decide_child_lock_state
decide_changed i = ground arith

Rule-determined :
    (i : DecisionInput) {s : ChildLockState} {reason : DecisionReason} {action : SafetyAction}
    → Rule i s reason action
    → let r = decide_child_lock_state i in
      (s ≡ r.target_cl_state) × (reason ≡ r.decision_reason) × (action ≡ r.safety_action)
unfolding decide_child_lock_state
Rule-determined i (crash c) = ground arith
Rule-determined i (fault c f) = ground arith
Rule-determined i (lock c d) = ground arith
Rule-determined i (unlock c d v) = ground arith
Rule-determined i (inhibit c d v e) = ground arith
Rule-determined i (auto_lock c d a) = ground arith
Rule-determined i (stay c d a e) = ground arith

-- The code decides by the rules, and only so: a result has the rule that applies to the input, and a
-- changed flag that says exactly whether its target differs from the current state, if and only if
-- it is the result that the code returns.
pub Decides-iff :
    (i : DecisionInput) (r : DecisionResult) → Decides i r ↔ (r ≡ decide_child_lock_state i)
Decides-iff i r = (
  λ d. ground (arith, Rule-determined i d.0, d.1, decide_changed i),
  λ e. rw e (decide-Rule i, decide_changed i),
)
