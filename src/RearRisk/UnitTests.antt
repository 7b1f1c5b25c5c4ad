-- ===== src/RearRisk/UnitTests.antt =====
-- The cases of test/test_F07_RearRiskEvaluation.cpp, run on the definitions: what a case expects of the
-- output is part of the whole output here.
use mbp_t05_child_lock.Base.{◌≡◌, refl, true, false, Option, none, some}
use mbp_t05_child_lock.Float.{positive, negative, le, lt}
use mbp_t05_child_lock.Types.{
  RiskLevel, risk_none, risk_low, risk_medium, risk_high, fault_flag_none, fault_flag_rear_sensor,
}
use mbp_t05_child_lock.RearRisk.{
  Context, Input, Output, is_input_valid, is_raw_threat_active, classify_risk_level,
  update_hysteresis, run, init, reset,
}
use mbp_t05_child_lock.RearRisk.Cycle.{fresh}

abbrev input : Input
input = record {
  distance_m = positive 0x4120_0000;
  rel_speed_mps = positive 0x0000_0000;
  sensor_health = true;
  sensor_confidence = positive 0x3f66_6666;
  timestamp_ms = 1000;
}

abbrev output : Output
output = record {
  risk_high = false;
  risk_level = risk_none;
  risk_valid = false;
  fault_flag = fault_flag_none;
}

-- What a valid cycle writes: no high risk, or a confirmed one.
abbrev safe : RiskLevel → Output
safe level = record {
  risk_high = false;
  risk_level = level;
  risk_valid = true;
  fault_flag = fault_flag_none;
}

abbrev confirmed : RiskLevel → Output
confirmed level = record (safe level) { risk_high = true }

abbrev failed : Output
failed = record {
  risk_high = false;
  risk_level = risk_none;
  risk_valid = false;
  fault_flag = fault_flag_rear_sensor;
}

-- One cycle after another.
abbrev then_run : Option Context × Option Output → Input → Option Context × Option Output
then_run (c, o) i = run c (some i) o

abbrev set_up : Option Context × Option Output
set_up = (some fresh, some output)

abbrev threat : Input
threat = record input { distance_m = positive 0x4000_0000; rel_speed_mps = positive 0x4040_0000 }

abbrev later : Input
later = record threat { timestamp_ms = 1500 }

abbrev clearing : Input
clearing = record input {
  distance_m = positive 0x40a0_0000;
  rel_speed_mps = positive 0x3f00_0000;
  timestamp_ms = 2000;
}

abbrev at_thresholds : Input
at_thresholds = record input {
  distance_m = positive 0x4040_0000;
  rel_speed_mps = positive 0x4000_0000;
}

positive_normal_safe_state :
    (then_run set_up
      (record input { distance_m = positive 0x40a0_0000; rel_speed_mps = positive 0x3f80_0000 })).1
    ≡ some (safe risk_low)
unfolding run is_input_valid is_raw_threat_active classify_risk_level update_hysteresis le lt
positive_normal_safe_state = refl

positive_high_risk_not_yet_confirmed : (then_run set_up (threat)).1 ≡ some (safe risk_high)
unfolding run is_input_valid is_raw_threat_active classify_risk_level update_hysteresis le lt
positive_high_risk_not_yet_confirmed = refl

positive_high_risk_confirmed :
    (then_run (then_run set_up threat) later).1 ≡ some (confirmed risk_high)
unfolding run is_input_valid is_raw_threat_active classify_risk_level update_hysteresis le lt
positive_high_risk_confirmed = refl

positive_high_risk_still_high :
    (then_run (then_run (then_run set_up threat) later) clearing).1 ≡ some (confirmed risk_low)
unfolding run is_input_valid is_raw_threat_active classify_risk_level update_hysteresis le lt
positive_high_risk_still_high = refl

positive_high_risk_cleared :
    (then_run
      (then_run (then_run (then_run set_up threat) later) clearing)
      (record clearing { timestamp_ms = 3000 })).1
    ≡ some (safe risk_low)
unfolding run is_input_valid is_raw_threat_active classify_risk_level update_hysteresis le lt
positive_high_risk_cleared = refl

boundary_risk_thresholds : (then_run set_up (at_thresholds)).1 ≡ some (safe risk_high)
unfolding run is_input_valid is_raw_threat_active classify_risk_level update_hysteresis le lt
boundary_risk_thresholds = refl

boundary_risk_thresholds_confirmed :
    (then_run (then_run set_up at_thresholds) (record at_thresholds { timestamp_ms = 1500 })).1
    ≡ some (confirmed risk_high)
unfolding run is_input_valid is_raw_threat_active classify_risk_level update_hysteresis le lt
boundary_risk_thresholds_confirmed = refl

boundary_medium_risk_fast_but_far :
    (then_run set_up
      (record input { distance_m = positive 0x4080_0000; rel_speed_mps = positive 0x4000_0000 })).1
    ≡ some (safe risk_medium)
unfolding run is_input_valid is_raw_threat_active classify_risk_level update_hysteresis le lt
boundary_medium_risk_fast_but_far = refl

boundary_medium_risk_close_but_slow :
    (then_run set_up
      (record input { distance_m = positive 0x4040_0000; rel_speed_mps = positive 0x3fc0_0000 })).1
    ≡ some (safe risk_medium)
unfolding run is_input_valid is_raw_threat_active classify_risk_level update_hysteresis le lt
boundary_medium_risk_close_but_slow = refl

fault_sensor_health_false :
    (then_run set_up (record input { sensor_health = false })).1 ≡ some (failed)
unfolding run is_input_valid is_raw_threat_active classify_risk_level update_hysteresis le lt
fault_sensor_health_false = refl

fault_low_confidence :
    (then_run set_up (record input { sensor_confidence = positive 0x3f19_9999 })).1 ≡ some (failed)
unfolding run is_input_valid is_raw_threat_active classify_risk_level update_hysteresis le lt
fault_low_confidence = refl

fault_invalid_distance_negative :
    (then_run set_up (record input { distance_m = negative 0x3f80_0000 })).1 ≡ some (failed)
unfolding run is_input_valid is_raw_threat_active classify_risk_level update_hysteresis le lt
fault_invalid_distance_negative = refl

fault_invalid_distance_too_large :
    (then_run set_up (record input { distance_m = positive 0x424c_0000 })).1 ≡ some (failed)
unfolding run is_input_valid is_raw_threat_active classify_risk_level update_hysteresis le lt
fault_invalid_distance_too_large = refl

fault_invalid_speed_negative :
    (then_run set_up (record input { rel_speed_mps = negative 0x3f80_0000 })).1 ≡ some (failed)
unfolding run is_input_valid is_raw_threat_active classify_risk_level update_hysteresis le lt
fault_invalid_speed_negative = refl

fault_invalid_speed_too_large :
    (then_run set_up (record input { rel_speed_mps = positive 0x424c_0000 })).1 ≡ some (failed)
unfolding run is_input_valid is_raw_threat_active classify_risk_level update_hysteresis le lt
fault_invalid_speed_too_large = refl

robustness_null_pointers :
    (run none (some input) (some output) ≡ (none, some output))
    × (run (some fresh) none (some output) ≡ (some fresh, some output))
    × (run (some fresh) (some input) none ≡ (some fresh, none))
    × (init none ≡ none)
    × (reset none ≡ none)
unfolding run init reset
robustness_null_pointers = (refl, refl, refl, refl, refl)

robustness_auto_init :
    (run
      (some (record fresh { is_initialized = false; is_risk_high_active = true }))
      (some input)
      (some output))
    ≡ (some (record fresh { risk_onset_timestamp_ms = 1000 }), some (safe risk_none))
unfolding run init is_input_valid is_raw_threat_active classify_risk_level update_hysteresis le lt
robustness_auto_init = refl

boundary_risk_level_none_very_far_object :
    (then_run set_up (record input { distance_m = positive 0x4110_0000 })).1 ≡ some (safe risk_none)
unfolding run is_input_valid is_raw_threat_active classify_risk_level update_hysteresis le lt
boundary_risk_level_none_very_far_object = refl
