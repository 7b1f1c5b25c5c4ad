-- ===== src/OccupancyAlert/UnitTests.antt =====
-- The cases of test/test_F09_RearSeatOccupancyAlert.cpp, run on the definitions.
use mbp_t05_child_lock.Base.{◌≡◌, refl, true, false, none, some}
use mbp_t05_child_lock.Types.{ChildLockState, cl_off, cl_on, WarningMsgId, msg_none, child_lock_on}
use mbp_t05_child_lock.OccupancyAlert.{
  AlertType, alert_none, recommendation, status, Input, Output, run,
}

-- What an output may hold before.
abbrev used : Output
used = record { alert_type = status; alert_message_id = child_lock_on; event_log = true }

abbrev departure : ChildLockState → Input
departure s = record {
  departure_event = true;
  rear_seat_occupancy = true;
  current_cl_state = s;
  hmi_health = true;
}

abbrev logged : AlertType → WarningMsgId → Output
logged a m = record { alert_type = a; alert_message_id = m; event_log = true }

abbrev neutral : Output
neutral = record { alert_type = alert_none; alert_message_id = msg_none; event_log = false }

positive_occupied_and_lock_off_recommends_lock :
    run (some (departure cl_off)) (some used) ≡ some (logged recommendation msg_none)
unfolding run
positive_occupied_and_lock_off_recommends_lock = refl

positive_occupied_and_lock_on_status_alert :
    run (some (departure cl_on)) (some used) ≡ some (logged status child_lock_on)
unfolding run
positive_occupied_and_lock_on_status_alert = refl

positive_not_occupied_departure_logs_event_only :
    run (some (record (departure cl_off) { rear_seat_occupancy = false })) (some used)
    ≡ some (logged alert_none msg_none)
unfolding run
positive_not_occupied_departure_logs_event_only = refl

fault_hmi_unhealthy_do_nothing :
    run (some (record (departure cl_off) { hmi_health = false })) (some used) ≡ some (neutral)
unfolding run
fault_hmi_unhealthy_do_nothing = refl

boundary_no_departure_do_nothing :
    run (some (record (departure cl_off) { departure_event = false })) (some used) ≡ some (neutral)
unfolding run
boundary_no_departure_do_nothing = refl

robustness_null_pointers :
    (run none (some used) ≡ some used)
    × (run (some (departure cl_off)) none ≡ none)
    × (run none none ≡ none)
unfolding run
robustness_null_pointers = (refl, refl, refl)
