-- ===== src/OccupancyAlert/Alerts.antt =====
-- What F-09 asks for.
use mbp_t05_child_lock.Base.{◌≡◌, refl, ◌↔◌, ◌≢◌, true, some, arith}
use mbp_t05_child_lock.Types.{cl_off, msg_none, child_lock_on}
use mbp_t05_child_lock.OccupancyAlert.{Input, Output, recommendation, status, alert, run}

-- A departure that the HMI can announce.
abbrev IsDeparture : Input → Type 0
IsDeparture input = (input.departure_event ≡ true) × (input.hmi_health ≡ true)

-- The alert that fits an input.
pub record Fits (input : Input) (o : Output) : Type 0 where
  pub recommends :
      (o.alert_type ≡ recommendation)
      ↔ (IsDeparture input × (input.rear_seat_occupancy ≡ true) × (input.current_cl_state ≡ cl_off))
  pub informs :
      (o.alert_type ≡ status)
      ↔ (IsDeparture input × (input.rear_seat_occupancy ≡ true) × (input.current_cl_state ≢ cl_off))
  pub logs : (o.event_log ≡ true) ↔ IsDeparture input
  pub names : (o.alert_message_id ≡ child_lock_on) ↔ (o.alert_type ≡ status)
  pub is_mute : (o.alert_message_id ≡ msg_none) ↔ (o.alert_type ≢ status)

-- `run` fills an output that is not NULL, whatever it held before, with the alert that fits the
-- input: the recommendation to lock for an occupied seat and a lock that is off, the status for one
-- that is not off, a log entry for every departure with a healthy HMI; and a message goes with the
-- status alone.
pub run-Fits :
    (input : Input) (output : Output)
    → (o : Output) × (run (some input) (some output) ≡ some o) × Fits input o
unfolding run
run-Fits input output = (alert input output, refl, ground arith)
