-- ===== src/Protection/Examples.antt =====
-- Runs of F-08, and its theorem at a concrete input.
use mbp_t05_child_lock.Base.{◌≡◌, refl, true, false, some}
use mbp_t05_child_lock.Types.{cl_off, cl_on, ign_on, msg_none, rear_risk_high}
use mbp_t05_child_lock.Protection.{Input, Output, run}
use mbp_t05_child_lock.Protection.Actions.{Protects, run-Protects}

abbrev danger : Input
danger = record {
  risk_high = true;
  risk_valid = true;
  current_cl_state = cl_off;
  ignition_state = ign_on;
}

abbrev used : Output
used = record {
  target_cl_state = cl_off;
  warning_msg_id = msg_none;
  warning_sound = false;
  cl_changed = false;
  event_log = false;
}

locks :
    run (some danger) (some used)
    ≡ some (record {
      target_cl_state = cl_on;
      warning_msg_id = rear_risk_high;
      warning_sound = true;
      cl_changed = true;
      event_log = true;
    })
unfolding run
locks = refl

run-Protects_example : (o : Output) × (run (some danger) (some used) ≡ some o) × Protects danger o
run-Protects_example = run-Protects danger used
