-- ===== src/System/VehicleExamples.antt =====
-- The loop of F-01, F-02, F-07 and F-08 at concrete signals: a crash at a standstill, and a threat from
-- behind.
use mbp_t05_child_lock.Base.{◌≡◌, refl, true, false, List, [], ◌∷◌, ◌++◌}
use mbp_t05_child_lock.Float.{positive, le, lt}
use mbp_t05_child_lock.Types.{cl_on, cl_off, risk_none, msg_none}
use mbp_t05_child_lock.InputMonitor.{RawInput}
use mbp_t05_child_lock.RearRisk
use mbp_t05_child_lock.RearRisk.Phase.{phase_of, next_phase, step}
use mbp_t05_child_lock.System.TripExamples.{departing, blank}
use mbp_t05_child_lock.System.Vehicle.{Signals, Vehicle, Held}
use mbp_t05_child_lock.System.Plan.{plan_of, plan_after, follow}

abbrev crashed : RawInput
crashed = record departing {
  vehicle_speed_kmh = positive 0;
  crash_signal_active = true;
  crash_signal_valid = true;
}

-- At 2 m, approaching at 5 m/s.
abbrev pub threat : RearRisk.Input
threat = record {
  distance_m = positive 0x4000_0000;
  rel_speed_mps = positive 0x40a0_0000;
  sensor_health = true;
  sensor_confidence = positive 0x3f80_0000;
  timestamp_ms = 0;
}

abbrev signals : List Signals
signals =
    record { raw = crashed; faulty = true; rear = record { time = 4294967000; input = threat } }
    ∷ record { raw = crashed; faulty = true; rear = record { time = 4294967400; input = threat } }
    ∷ []

abbrev later : Signals
later = record { raw = crashed; faulty = true; rear = record { time = 4294967500; input = threat } }

abbrev pub vehicle : Vehicle
vehicle = record {
  lock = cl_on;
  context = record {
    risk_onset_timestamp_ms = 77;
    risk_clear_timestamp_ms = 99;
    is_risk_high_active = true;
    is_threat_ongoing = true;
    is_initialized = false;
  };
}

abbrev pub held : Held
held = record {
  validated = blank;
  risk = record { risk_high = true; risk_level = risk_none; risk_valid = false; fault_flag = 9 };
  protection = record {
    target_cl_state = cl_off;
    warning_msg_id = msg_none;
    warning_sound = false;
    cl_changed = false;
    event_log = false;
  };
}

-- The crash opens the lock as long as the threat is not confirmed.
opened : (plan_after (plan_of vehicle) signals).lock ≡ cl_off
unfolding plan_after follow next_phase step phase_of RearRisk.is_input_valid
    RearRisk.is_raw_threat_active le lt
opened = refl

-- The third threat, 500 ms after the first, locks it again.
locked : (plan_after (plan_of vehicle) (signals ++ later ∷ [])).lock ≡ cl_on
unfolding plan_after follow next_phase step phase_of RearRisk.is_input_valid
    RearRisk.is_raw_threat_active le lt
locked = refl
