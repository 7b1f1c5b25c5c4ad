-- ===== src/Protection/Actions.antt =====
-- What F-08 does to the lock, and when it warns.
use mbp_t05_child_lock.Base.{◌≡◌, refl, ◌↔◌, ◌≢◌, ◌⊎◌, true, false, some, arith}
use mbp_t05_child_lock.Types.{
  cl_off, cl_on, ign_on, msg_none, rear_risk_high, sensor_fault, cl_already_on,
}
use mbp_t05_child_lock.Protection.{Input, Output, protect, run}

-- The ignition is on, and the risk is invalid or high.
abbrev pub IsAlarm : Input → Type 0
IsAlarm input =
    (input.ignition_state ≡ ign_on) × ((input.risk_valid ≡ false) ⊎ (input.risk_high ≡ true))

-- The target and the flags that fit an input.
pub record Protects (input : Input) (o : Output) : Type 0 where
  pub locks : IsAlarm input → o.target_cl_state ≡ cl_on
  pub leaves : (¬ IsAlarm input) → o.target_cl_state ≡ input.current_cl_state
  pub sounds : (o.warning_sound ≡ true) ↔ IsAlarm input
  pub logs : (o.event_log ≡ true) ↔ IsAlarm input
  pub shows : (o.warning_msg_id ≢ msg_none) ↔ IsAlarm input
  pub changes : (o.cl_changed ≡ true) ↔ (IsAlarm input × (input.current_cl_state ≡ cl_off))
  pub faults :
      (o.warning_msg_id ≡ sensor_fault)
      ↔ ((input.ignition_state ≡ ign_on) × (input.risk_valid ≡ false))
  pub activates :
      (o.warning_msg_id ≡ rear_risk_high)
      ↔ (IsAlarm input × (input.risk_valid ≡ true) × (input.current_cl_state ≡ cl_off))
  pub maintains :
      (o.warning_msg_id ≡ cl_already_on)
      ↔ (IsAlarm input × (input.risk_valid ≡ true) × (input.current_cl_state ≢ cl_off))

-- `run` fills an output that is not NULL, whatever it held before. In an alarm the target is on,
-- with sound, message and log entry, and a change is reported exactly if the lock was off; outside
-- an alarm the target is the current state, and nothing is reported. The message tells the sensor
-- fault, the activation and the warning for a lock that was not off apart.
pub run-Protects :
    (input : Input) (output : Output)
    → (o : Output) × (run (some input) (some output) ≡ some o) × Protects input o
unfolding run
run-Protects input output = (protect input output, refl, ground arith)
