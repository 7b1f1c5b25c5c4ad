-- ===== src/RearRisk.antt =====
-- src/F07_RearRiskEvaluation.c and its header, with the input and the output of
-- childlock_types.h. A pointer is an `Option`, NULL is `none`; a function returns what its pointers
-- hold when it ends. Timestamps are `uint32_t`, so times elapsed are taken modulo 2 ^ 32.
pub mod Cycle
pub mod Sensor
pub mod History
pub mod Timers
pub mod Phase
pub mod Machine
pub mod Events
pub mod Evaluation
pub mod Sustained
pub mod Outage
pub mod Shift
mod Examples
mod UnitTests
mod SensorExamples
use mbp_t05_child_lock.Base.{
  ℕ, Bool, true, false, not, ◌&&◌, ◌||◌, Option, none, some, leb, if◌then◌else◌, sub32,
}
use mbp_t05_child_lock.Float
use mbp_t05_child_lock.Float.{Float, positive}
use mbp_t05_child_lock.Types.{
  float_zero, rear_risk_dist_threshold_m, rear_risk_relspeed_threshold_mps,
  rear_risk_confirm_duration_ms, rear_risk_clear_duration_ms, rear_risk_sensor_confidence_min,
  rear_risk_dist_max_valid_m, rear_risk_relspeed_max_valid_mps, RiskLevel, risk_none, risk_low,
  risk_medium, risk_high, FaultFlag, fault_flag_none, fault_flag_rear_sensor,
}

pub record Context : Type 0 where
  pub risk_onset_timestamp_ms : ℕ  -- uint32_t
  pub risk_clear_timestamp_ms : ℕ  -- uint32_t
  pub is_risk_high_active : Bool
  pub is_threat_ongoing : Bool
  pub is_initialized : Bool

pub record Input : Type 0 where
  pub distance_m : Float
  pub rel_speed_mps : Float
  pub sensor_health : Bool
  pub sensor_confidence : Float
  pub timestamp_ms : ℕ  -- uint32_t

pub record Output : Type 0 where
  pub risk_high : Bool
  pub risk_level : RiskLevel
  pub risk_valid : Bool
  pub fault_flag : FaultFlag

unfoldable pub is_input_valid : Input → Bool
is_input_valid input =
    if not input.sensor_health
    then false
    else if Float.lt input.sensor_confidence rear_risk_sensor_confidence_min
    then false
    else if Float.lt input.distance_m float_zero
        || Float.gt input.distance_m rear_risk_dist_max_valid_m
    then false
    else if Float.lt input.rel_speed_mps float_zero
        || Float.gt input.rel_speed_mps rear_risk_relspeed_max_valid_mps
    then false
    else true

unfoldable pub is_raw_threat_active : Input → Bool
is_raw_threat_active input =
    let is_close = Float.le input.distance_m rear_risk_dist_threshold_m in
    let is_fast = Float.ge input.rel_speed_mps rear_risk_relspeed_threshold_mps in
    is_close && is_fast

-- `REAR_RISK_DIST_THRESHOLD_M * 2.0f`, which is 6 and exact.
abbrev pub twice_dist_threshold_m : Float
twice_dist_threshold_m = positive 0x40c0_0000

unfoldable pub classify_risk_level : Input → RiskLevel
classify_risk_level input =
    if is_close && is_fast
    then risk_high
    else if is_close || is_fast
    then risk_medium
    else if Float.le input.distance_m twice_dist_threshold_m
    then risk_low
    else risk_none
  where
    is_close : Bool
    is_close = Float.le input.distance_m rear_risk_dist_threshold_m

    is_fast : Bool
    is_fast = Float.ge input.rel_speed_mps rear_risk_relspeed_threshold_mps

-- The branch of `update_hysteresis` for a threat.
on_threat : Context → ℕ → Context
on_threat ctx now =
    let c = record ctx { risk_clear_timestamp_ms = now } in
    let c' =
      if not c.is_threat_ongoing
      then record c { is_threat_ongoing = true; risk_onset_timestamp_ms = now }
      else c in
    if leb rear_risk_confirm_duration_ms (sub32 now c'.risk_onset_timestamp_ms)
    then record c' { is_risk_high_active = true }
    else c'

-- The branch of `update_hysteresis` for no threat.
on_safe : Context → ℕ → Context
on_safe ctx now =
    let c = record ctx { risk_onset_timestamp_ms = now; is_threat_ongoing = false } in
    if leb rear_risk_clear_duration_ms (sub32 now c.risk_clear_timestamp_ms)
    then record c { is_risk_high_active = false }
    else c

pub update_hysteresis : Context → Bool → ℕ → Context
unfolding on_threat on_safe
update_hysteresis ctx raw_threat now = if raw_threat then on_threat ctx now else on_safe ctx now

unfoldable pub init : Option Context → Option Context
init none = none
init (some ctx) = some (record {
  risk_onset_timestamp_ms = 0;
  risk_clear_timestamp_ms = 0;
  is_risk_high_active = false;
  is_threat_ongoing = false;
  is_initialized = true;
})

-- Steps 3 to 8 of `run`, over an initialised context.
evaluate : Context → Input → Output → Context × Output
evaluate ctx input output =
    if not (is_input_valid input)
    then (
      ctx,
      record output {
        risk_high = false;
        risk_level = risk_none;
        risk_valid = false;
        fault_flag = fault_flag_rear_sensor;
      },
    )
    else (let raw_threat = is_raw_threat_active input in
        let ctx = update_hysteresis ctx raw_threat input.timestamp_ms in
        (
          ctx,
          record output {
            risk_high = ctx.is_risk_high_active;
            risk_level = classify_risk_level input;
            risk_valid = true;
            fault_flag = fault_flag_none;
          },
        ))

-- `evaluate` over the context that step 2 leaves.
evaluate_at : Option Context → Input → Output → Option Context × Option Output
evaluate_at none input output = (none, some output)
evaluate_at (some ctx) input output = let (c, o) = evaluate ctx input output in (some c, some o)

unfoldable pub run : Option Context → Option Input → Option Output → Option Context × Option Output
unfolding init evaluate evaluate_at
run none input output = (none, output)
run (some ctx) none output = (some ctx, output)
run (some ctx) (some input) none = (some ctx, none)
run (some ctx) (some input) (some output) =
    evaluate_at (if not ctx.is_initialized then init (some ctx) else some ctx) input output

unfoldable pub reset : Option Context → Option Context
unfolding init
reset ctx = init ctx
