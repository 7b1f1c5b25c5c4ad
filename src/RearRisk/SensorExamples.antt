-- ===== src/RearRisk/SensorExamples.antt =====
-- The theorems on the sensor check of F-07 at concrete inputs.
use mbp_t05_child_lock.Base.{◌≡◌, refl, inr, true, false, some}
use mbp_t05_child_lock.Float.{nan, positive, le}
use mbp_t05_child_lock.Types.{fault_flag_none, risk_high}
use mbp_t05_child_lock.RearRisk.{Context, Input, Output, is_raw_threat_active, run}
use mbp_t05_child_lock.RearRisk.Sensor.{run_accepts_nan}

-- The sensor reports no distance.
abbrev lost : Input
lost = record {
  distance_m = nan;
  rel_speed_mps = positive 0x40a0_0000;
  sensor_health = true;
  sensor_confidence = positive 0x3f80_0000;
  timestamp_ms = 0;
}

abbrev garbage : Context
garbage = record {
  risk_onset_timestamp_ms = 77;
  risk_clear_timestamp_ms = 99;
  is_risk_high_active = true;
  is_threat_ongoing = true;
  is_initialized = true;
}

abbrev used : Output
used = record { risk_high = true; risk_level = risk_high; risk_valid = true; fault_flag = 9 }

run_accepts_nan_example :
    (is_raw_threat_active lost ≡ false)
    × (o : Output) × ((run (some garbage) (some lost) (some used)).1 ≡ some o)
    × (o.risk_valid ≡ true)
    × (o.fault_flag ≡ fault_flag_none)
unfolding le
run_accepts_nan_example =
    run_accepts_nan garbage lost used refl refl (inr refl) (inr refl) (inr refl)
