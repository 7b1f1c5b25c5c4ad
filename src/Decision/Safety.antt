-- ===== src/Decision/Safety.antt =====
-- When F-02 opens the lock, and what a sequence of its decisions leads to.
use mbp_t05_child_lock.Base.{◌≡◌, refl, ◌↔◌, ◌≢◌, ◌⊎◌, true, false, List, [], ◌∷◌, arith}
use mbp_t05_child_lock.Float
use mbp_t05_child_lock.Decision.{
  ChildLockState, cl_off, cl_on, crash_detected, enter_emergency_released, driver_req_off,
  DecisionInput, unlock_inhibit_speed_kmh, decide_child_lock_state,
}
use mbp_t05_child_lock.Decision.Rules.{IsCalm}

-- A lock that is not off is opened exactly by a crash, or, with neither crash nor fault, by the
-- driver's request at a speed of at most 3 km/h. A speed that is NaN is not at most 3 km/h.
pub decide_opens_iff :
    (i : DecisionInput)
    → i.current_cl_state ≢ cl_off
    → ((decide_child_lock_state i).target_cl_state ≡ cl_off) ↔ (
        (i.valid_crash_signal ≡ true)
        ⊎ (IsCalm i
            × (i.valid_switch_input ≡ driver_req_off)
            × (Float.le i.vehicle_speed_kmh unlock_inhibit_speed_kmh ≡ true)))
unfolding decide_child_lock_state
decide_opens_iff i closed = ground arith

-- The same input with another current state.
abbrev pub at : ChildLockState → DecisionInput → DecisionInput
at s i = record i { current_cl_state = s }

-- The states that the caller goes through: it applies each target state before the next decision.
pub drive : ChildLockState → List DecisionInput → ChildLockState
drive s [] = s
drive s (i ∷ is) = drive (decide_child_lock_state (at s i)).target_cl_state is

-- No crash, and a speed that is over 3 km/h or NaN.
abbrev pub IsMoving : DecisionInput → Type 0
IsMoving i =
    (i.valid_crash_signal ≡ false) × (Float.le i.vehicle_speed_kmh unlock_inhibit_speed_kmh ≡ false)

abbrev pub AllMoving : List DecisionInput → Type 0
AllMoving [] = Unit
AllMoving (i ∷ is) = IsMoving i × AllMoving is

moving_keeps_on :
    (i : DecisionInput)
    → IsMoving i
    → (decide_child_lock_state (at cl_on i)).target_cl_state ≡ cl_on
unfolding decide_child_lock_state
moving_keeps_on i m = ground arith

-- While the vehicle moves and does not crash, a lock that is on stays on, whatever the driver asks
-- for and whichever faults come and go.
pub drive_moving : (is : List DecisionInput) → AllMoving is → drive cl_on is ≡ cl_on
unfolding drive
drive_moving [] m = refl
drive_moving (i ∷ is) (m, ms) = rw (moving_keeps_on i m) (drive_moving is ms)

-- A lock that is on stays on unless it is opened.
pub decide_keeps_on :
    (i : DecisionInput)
    → i.current_cl_state ≡ cl_on
    → (decide_child_lock_state i).target_cl_state ≢ cl_off
    → (decide_child_lock_state i).target_cl_state ≡ cl_on
unfolding decide_child_lock_state
decide_keeps_on i on kept = ground arith

-- A crash is decided before all else.
pub crash_decides :
    (i : DecisionInput)
    → i.valid_crash_signal ≡ true
    → let r = decide_child_lock_state i in
      (r.target_cl_state ≡ cl_off)
      × (r.decision_reason ≡ crash_detected)
      × (r.safety_action ≡ enter_emergency_released)
unfolding decide_child_lock_state
crash_decides i crashed = ground arith
