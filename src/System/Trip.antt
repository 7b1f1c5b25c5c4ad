-- ===== src/System/Trip.antt =====
-- F-01 and F-02 in a loop: the lock through the cycles of a trip, each target state applied before the
-- next cycle.
use mbp_t05_child_lock.Base.{◌≡◌, refl, ◌≢◌, ◌⊎◌, true, false, List, [], ◌∷◌, arith}
use mbp_t05_child_lock.Float
use mbp_t05_child_lock.Float.Order.{lt-eq-not-le, number_of_le}
use mbp_t05_child_lock.Types.{
  ign_on, request_off, auto_lock_speed_threshold_kmh, speed_max_valid_kmh,
}
use mbp_t05_child_lock.InputMonitor.{RawInput, ValidatedOutput, process}
use mbp_t05_child_lock.InputMonitor.Cycle.{process_signals}
use mbp_t05_child_lock.Decision.{
  ChildLockState, cl_on, driver_req_off, DecisionInput, unlock_inhibit_speed_kmh,
  decide_child_lock_state,
}
use mbp_t05_child_lock.System.DoorControl
use mbp_t05_child_lock.System.AutoLock.{IsUsable, IsCrash, process-IsUsable_iff}

-- The cycles for the raw inputs lead from one lock state to another. What the output of F-01 held, and
-- the faults that others report, may be anything in each cycle.
pub data Trip : ChildLockState → List RawInput → ChildLockState → Type 0 where
  arrived : {s : ChildLockState} → Trip s [] s
  cycle :
      {t : ChildLockState} {raw : RawInput} {raws : List RawInput} (output : ValidatedOutput)
      (i : DecisionInput)
      → DoorControl.Joins (process raw output) i
      → Trip (decide_child_lock_state i).target_cl_state raws t
      → Trip i.current_cl_state (raw ∷ raws) t

-- The ignition is on, with no trustworthy crash signal, and a speed over 3 km/h, or NaN.
pub record IsRolling (raw : RawInput) : Type 0 where
  pub on : raw.ignition_state ≡ ign_on
  pub no_crash : ¬ IsCrash raw
  pub moving : Float.le raw.vehicle_speed_kmh unlock_inhibit_speed_kmh ≡ false

abbrev pub AllRolling : List RawInput → Type 0
AllRolling [] = Unit
AllRolling (raw ∷ raws) = IsRolling raw × AllRolling raws

usable_is_fast :
    (raw : RawInput)
    → IsRolling raw
    → IsUsable raw
    → Float.lt auto_lock_speed_threshold_kmh raw.vehicle_speed_kmh ≡ true
usable_is_fast raw rolling usable =
    let v = raw.vehicle_speed_kmh in
    ground (
      arith,
      lt-eq-not-le unlock_inhibit_speed_kmh v refl,
      number_of_le v speed_max_valid_kmh usable.in_range,
      rolling.moving,
    )

-- A fault, or an auto-lock condition with no request to open, locks, unless there is a crash.
decide_locks :
    (i : DecisionInput)
    → i.valid_crash_signal ≢ true
    → (i.fault_flags.speed_signal_fault ≡ true)
      ⊎ ((i.valid_switch_input ≢ driver_req_off) × (i.auto_lock_condition_met ≡ true))
    → (decide_child_lock_state i).target_cl_state ≡ cl_on
unfolding decide_child_lock_state
decide_locks i quiet reason = ground arith

module _ (raw : RawInput) (output : ValidatedOutput) (i : DecisionInput) (rolling : IsRolling raw)
    (joined : DoorControl.Joins (process raw output) i) where
  rolling_keeps : i.current_cl_state ≡ cl_on → (decide_child_lock_state i).target_cl_state ≡ cl_on
  rolling_keeps locked =
      DoorControl.moving_keeps_lock raw output i rolling.on joined
        (ground (arith, rolling.no_crash)) rolling.moving locked

  rolling_locks :
      raw.switch_request ≢ request_off → (decide_child_lock_state i).target_cl_state ≡ cl_on
  rolling_locks no_request =
      decide_locks i (ground (arith, joined.crashes, process_signals raw output, rolling.no_crash))
        (ground (
          arith,
          process_signals raw output,
          process-IsUsable_iff raw output rolling.on,
          usable_is_fast raw rolling,
          joined,
        ))

-- While the vehicle rolls, a lock that is on stays on.
rolling_stays_locked :
    (raws : List RawInput)
    → AllRolling raws
    → {s t : ChildLockState} → s ≡ cl_on
    → Trip s raws t
    → t ≡ cl_on
rolling_stays_locked [] rolling locked arrived = locked
rolling_stays_locked (raw ∷ raws) (r, rs) locked (cycle output i joined rest) =
    rolling_stays_locked raws rs (rolling_keeps raw output i r joined locked) rest

-- If a trip begins with a cycle in which the vehicle rolls and the driver does not ask to open, and it
-- rolls in all later cycles, then the lock is on at the end, whatever state it was in, whatever the
-- driver asks for later, and whichever faults come and go. To roll is to have the ignition on, no
-- active and trustworthy crash signal, and a raw speed that is not at most 3 km/h, NaN included, however
-- old it is.
pub rolling_ends_locked :
    {s t : ChildLockState} (raw : RawInput) (raws : List RawInput)
    → IsRolling raw
    → raw.switch_request ≢ request_off
    → AllRolling raws
    → Trip s (raw ∷ raws) t
    → t ≡ cl_on
rolling_ends_locked raw raws r no_request rs (cycle output i joined rest) =
    rolling_stays_locked raws rs (rolling_locks raw output i r joined no_request) rest
