-- ===== src/Types/Thresholds.antt =====
-- The bit patterns of the thresholds stand for the numbers that the sources write.
use mbp_t05_child_lock.Base.{ℕ, ◌+◌, ◌*◌, ◌<◌, ◌≡◌, refl, arith}
use mbp_t05_child_lock.Float.{Float, nan, positive, negative}
use mbp_t05_child_lock.Float.Value.{pow2, value}
use mbp_t05_child_lock.Types.{
  unlock_inhibit_speed_kmh, auto_lock_speed_threshold_kmh, speed_max_valid_kmh,
  rear_risk_dist_threshold_m, rear_risk_relspeed_threshold_mps, rear_risk_sensor_confidence_min,
  rear_risk_dist_max_valid_m, rear_risk_relspeed_max_valid_mps,
}
use mbp_t05_child_lock.Decision
use mbp_t05_child_lock.RearRisk.{twice_dist_threshold_m}

-- In units of 2 ^ -149; 0 for what is no positive float.
abbrev units : Float → ℕ
units nan = 0
units (positive m) = value m
units (negative m) = 0

one : ℕ
unfolding pow2
one = pow2 149

-- `kUnlockInhibitSpeedKmh` of F-02 and the constant that the types declare for it are the same number.
unlock_inhibit : units Decision.unlock_inhibit_speed_kmh ≡ unlock_inhibit_speed_kmh * one
unfolding value one
unlock_inhibit = refl

auto_lock : units auto_lock_speed_threshold_kmh ≡ 3 * one
unfolding value one
auto_lock = refl

speed_max : units speed_max_valid_kmh ≡ 250 * one
unfolding value one
speed_max = refl

distance : units rear_risk_dist_threshold_m ≡ 3 * one
unfolding value one
distance = refl

twice_distance : units twice_dist_threshold_m ≡ 2 * units rear_risk_dist_threshold_m
unfolding value
twice_distance = refl

approach : units rear_risk_relspeed_threshold_mps ≡ 2 * one
unfolding value one
approach = refl

distance_max : units rear_risk_dist_max_valid_m ≡ 50 * one
unfolding value one
distance_max = refl

approach_max : units rear_risk_relspeed_max_valid_mps ≡ 50 * one
unfolding value one
approach_max = refl

-- 0.7 is no float. The nearest one is at most half a unit of its last place away, 2 ^ -25.
confidence :
    (7 * one < 10 * units rear_risk_sensor_confidence_min + 5 * pow2 125)
    × (10 * units rear_risk_sensor_confidence_min < 7 * one + 5 * pow2 125)
unfolding value one pow2
confidence = (omega arith, omega arith)
