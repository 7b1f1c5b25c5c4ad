-- ===== src/System/LockExamples.antt =====
-- The theorems on what sets the lock, at concrete inputs.
use mbp_t05_child_lock.Base.{
  ◌≡◌, refl, ◌↔◌, ◌⊎◌, inl, inr, true, false, Option, none, some, List, [], ◌∷◌,
}
use mbp_t05_child_lock.Float.{positive, le}
use mbp_t05_child_lock.Types.{ChildLockState, cl_off, cl_on, msg_none, ign_on}
use mbp_t05_child_lock.Decision
use mbp_t05_child_lock.Decision.{DecisionInput, decide_child_lock_state}
use mbp_t05_child_lock.DoorEcu
use mbp_t05_child_lock.Protection
use mbp_t05_child_lock.Persistence
use mbp_t05_child_lock.Persistence.{WriteCallback, ReadCallback, SyncCallback, ReadReply}
use mbp_t05_child_lock.Persistence.Restore.{outcome}
use mbp_t05_child_lock.Persistence.PowerCycle.{Nvm}
use mbp_t05_child_lock.System.LockSetter.{drive}
use mbp_t05_child_lock.System.LockControl.{door_lock}
use mbp_t05_child_lock.System.Reasons.{order, rejects_by_value_iff}
use mbp_t05_child_lock.System.Restoration.{Link, resync}

-- The driver asks to unlock at 60 km/h.
abbrev asking : DecisionInput
asking = record {
  valid_switch_input = Decision.driver_req_off;
  vehicle_speed_kmh = positive 0x4270_0000;
  valid_crash_signal = false;
  current_cl_state = Decision.cl_off;
  fault_flags = record {
    speed_signal_fault = false;
    sensor_fault = false;
    state_inconsistency = false;
  };
  auto_lock_condition_met = true;
}

abbrev crashed : DecisionInput
crashed = record asking { valid_crash_signal = true }

abbrev driving : DecisionInput
driving = record asking { valid_switch_input = Decision.driver_none }

abbrev danger : Protection.Input
danger = record {
  risk_high = true;
  risk_valid = true;
  current_cl_state = cl_off;
  ignition_state = ign_on;
}

abbrev idle : Protection.Output
idle = record {
  target_cl_state = cl_off;
  warning_msg_id = msg_none;
  warning_sound = false;
  cl_changed = false;
  event_log = false;
}

abbrev pub no_report : DoorEcu.Output
no_report = record {
  child_lock_command = DoorEcu.command_none;
  ack_status = DoorEcu.not_checked;
  retry_status = DoorEcu.not_required;
  dtc = 0;
  retry_count = 0;
}

-- A memory cell, and what F-03 has written last.
pub record Bench : Type 0 where
  pub cell : Option ChildLockState
  pub ordered : Option DoorEcu.Output

abbrev pub write : WriteCallback Bench
write s e = (true, record e { cell = some s })

abbrev pub reply : Option ChildLockState → ReadReply
reply none = record { available = false; state = cl_off; is_valid = false }
reply (some s) = record { available = true; state = s; is_valid = true }

abbrev pub read : ReadCallback Bench
read t v e = (reply e.cell, e)

abbrev pub sync : SyncCallback Bench
sync s e = record e { ordered = (DoorEcu.handle_command (some (resync s true)) (some no_report)).1 }

abbrev pub bench_Nvm : Nvm write read
bench_Nvm = record {
  stored = λ e. e.cell;
  write_stores = λ s e done. refl;
  read_delivers = λ s t v e there. rw there;
}

abbrev pub bench_Link : Link sync
bench_Link = record {
  last = λ e. e.ordered;
  ack = λ e. true;
  before = λ e. no_report;
  forwards = λ s e. refl;
}

abbrev pub garbage : Persistence.Manager Bench
garbage = record {
  config = record {
    write_persisted_state = none;
    read_persisted_state = some read;
    request_door_ecu_sync = none;
  };
  is_initialized = true;
}

abbrev pub used : Persistence.Result
used = outcome Persistence.restored cl_on true

abbrev pub bench : Bench
bench = record { cell = some cl_on; ordered = none }

abbrev trip : List (door_lock write read sync garbage).Input
trip = inl asking ∷ inr (inl (danger, idle)) ∷ inr (inr (used, bench)) ∷ inl driving ∷ []

trip_keeps : drive (door_lock write read sync garbage) cl_on trip ≡ cl_on
unfolding decide_child_lock_state Protection.run Persistence.handle_ignition_on Persistence.init le
trip_keeps = refl

rejects_by_value_iff_example :
    ((DoorEcu.handle_command (some (order driving true)) (some no_report)).0 ≡ false) ↔ (
      ((decide_child_lock_state driving).decision_reason ≡ Decision.unlock_inhibited_while_moving)
      ⊎ ((decide_child_lock_state driving).decision_reason ≡ Decision.auto_lock_condition_met))
rejects_by_value_iff_example = rejects_by_value_iff driving true no_report (inl refl)

auto_lock_lost : (DoorEcu.handle_command (some (order driving true)) (some no_report)).0 ≡ false
unfolding decide_child_lock_state DoorEcu.handle_command
auto_lock_lost = refl
