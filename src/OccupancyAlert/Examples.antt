-- ===== src/OccupancyAlert/Examples.antt =====
-- Runs of F-09, and its theorem at a concrete input.
use mbp_t05_child_lock.Base.{◌≡◌, refl, true, false, some}
use mbp_t05_child_lock.Types.{cl_off, child_lock_on, msg_none}
use mbp_t05_child_lock.OccupancyAlert.{Input, Output, recommendation, status, run}
use mbp_t05_child_lock.OccupancyAlert.Alerts.{Fits, run-Fits}

abbrev seated : Input
seated = record {
  departure_event = true;
  rear_seat_occupancy = true;
  current_cl_state = cl_off;
  hmi_health = true;
}

abbrev used : Output
used = record { alert_type = status; alert_message_id = child_lock_on; event_log = false }

recommends :
    run (some seated) (some used)
    ≡ some (record { alert_type = recommendation; alert_message_id = msg_none; event_log = true })
unfolding run
recommends = refl

run-Fits_example : (o : Output) × (run (some seated) (some used) ≡ some o) × Fits seated o
run-Fits_example = run-Fits seated used
