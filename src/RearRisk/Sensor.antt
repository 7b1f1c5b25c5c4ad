-- ===== src/RearRisk/Sensor.antt =====
-- The sensor check and the risk levels of F-07, over all floats.
use mbp_t05_child_lock.Base.{ℕ, ◌≡◌, ◌↔◌, ◌⊎◌, not, inl, true, false, some, arith}
use mbp_t05_child_lock.Float
use mbp_t05_child_lock.Float.{Float, nan, positive, negative}
use mbp_t05_child_lock.Types.{
  float_zero, rear_risk_dist_threshold_m, rear_risk_relspeed_threshold_mps,
  rear_risk_sensor_confidence_min, rear_risk_dist_max_valid_m, rear_risk_relspeed_max_valid_mps,
  risk_low, risk_medium, risk_high, fault_flag_none,
}
use mbp_t05_child_lock.RearRisk.Cycle.{run-next, next_output}
use mbp_t05_child_lock.RearRisk.{
  Context, Input, Output, is_input_valid, is_raw_threat_active, twice_dist_threshold_m,
  classify_risk_level, run,
}

-- `lo <= x`, or NaN.
abbrev pub AtLeast : Float → Float → Type 0
AtLeast lo x = (x ≡ nan) ⊎ (Float.le lo x ≡ true)

-- `x <= hi`, or NaN.
abbrev pub AtMost : Float → Float → Type 0
AtMost hi x = (x ≡ nan) ⊎ (Float.le x hi ≡ true)

not_lt_iff : (m : ℕ) (x : Float) → (Float.lt x (positive m) ≡ false) ↔ AtLeast (positive m) x
unfolding Float.le Float.lt
not_lt_iff m nan = ground arith
not_lt_iff m (positive a) = ground arith
not_lt_iff m (negative a) = ground arith

not_gt_iff : (m : ℕ) (x : Float) → (Float.lt (positive m) x ≡ false) ↔ AtMost (positive m) x
unfolding Float.le Float.lt
not_gt_iff m nan = ground arith
not_gt_iff m (positive a) = ground arith
not_gt_iff m (negative a) = ground arith

-- A measurement passes the check exactly when the sensor is healthy and each of its three values is
-- NaN or in its range: a confidence of at least 0.7, a distance and a speed from 0 to 50.
pub is_input_valid_iff :
    (input : Input)
    → (is_input_valid input ≡ true) ↔ (
        (input.sensor_health ≡ true)
        × AtLeast rear_risk_sensor_confidence_min input.sensor_confidence
        × AtLeast float_zero input.distance_m
        × AtMost rear_risk_dist_max_valid_m input.distance_m
        × AtLeast float_zero input.rel_speed_mps
        × AtMost rear_risk_relspeed_max_valid_mps input.rel_speed_mps)
unfolding is_input_valid
is_input_valid_iff input = ground (
  arith,
  not_lt_iff 0x3f33_3333 input.sensor_confidence,
  not_lt_iff 0 input.distance_m,
  not_gt_iff 0x4248_0000 input.distance_m,
  not_lt_iff 0 input.rel_speed_mps,
  not_gt_iff 0x4248_0000 input.rel_speed_mps,
)

-- A measurement of a failing sensor: unhealthy, with a confidence below 0.7, or with a distance or a
-- speed that is below 0 or above 50. A value that is NaN is neither.
abbrev pub IsFailing : Input → Type 0
IsFailing input =
    (input.sensor_health ≡ false)
    ⊎ (Float.lt input.sensor_confidence rear_risk_sensor_confidence_min ≡ true)
    ⊎ (Float.lt input.distance_m float_zero ≡ true)
    ⊎ (Float.lt rear_risk_dist_max_valid_m input.distance_m ≡ true)
    ⊎ (Float.lt input.rel_speed_mps float_zero ≡ true)
    ⊎ (Float.lt rear_risk_relspeed_max_valid_mps input.rel_speed_mps ≡ true)

-- The check fails exactly for these.
pub is_input_valid-IsFailing_iff :
    (input : Input) → (is_input_valid input ≡ false) ↔ IsFailing input
unfolding is_input_valid
is_input_valid-IsFailing_iff input = ground arith

-- If a healthy sensor delivers NaN for a distance, with a confidence and a speed that pass, then the
-- measurement counts as valid, with no fault, and it can never be a threat.
pub run_accepts_nan :
    (ctx : Context) (input : Input) (output : Output)
    → input.sensor_health ≡ true
    → input.distance_m ≡ nan
    → AtLeast rear_risk_sensor_confidence_min input.sensor_confidence
    → AtLeast float_zero input.rel_speed_mps
    → AtMost rear_risk_relspeed_max_valid_mps input.rel_speed_mps
    → (is_raw_threat_active input ≡ false)
      × (o : Output) × ((run (some ctx) (some input) (some output)).1 ≡ some o)
      × (o.risk_valid ≡ true)
      × (o.fault_flag ≡ fault_flag_none)
unfolding next_output is_raw_threat_active Float.le
run_accepts_nan ctx input output healthy missing confident fast slow =
    let passes : is_input_valid input ≡ true =
      (is_input_valid_iff input).1 (healthy, confident, inl missing, inl missing, fast, slow) in
    (rw missing, next_output ctx input, rw (run-next ctx input output), ground arith, ground arith)

-- The levels. High is the raw threat; medium is one of its two conditions without the other; low is
-- neither, within 6 m; none is all else.
pub record Classifies (input : Input) : Type 0 where
  pub is_high : (classify_risk_level input ≡ risk_high) ↔ (is_raw_threat_active input ≡ true)
  pub is_medium : (classify_risk_level input ≡ risk_medium) ↔ (
      Float.le input.distance_m rear_risk_dist_threshold_m
      ≡ not (Float.le rear_risk_relspeed_threshold_mps input.rel_speed_mps))
  pub is_low : (classify_risk_level input ≡ risk_low) ↔ (
      (Float.le input.distance_m rear_risk_dist_threshold_m ≡ false)
      × (Float.le rear_risk_relspeed_threshold_mps input.rel_speed_mps ≡ false)
      × (Float.le input.distance_m twice_dist_threshold_m ≡ true))

-- Every measurement is classified so.
pub classify_risk_level-Classifies : (input : Input) → Classifies input
unfolding classify_risk_level is_raw_threat_active
classify_risk_level-Classifies input = ground arith
