-- ===== src/RearRisk/Cycle.antt =====
-- One cycle of F-07: its guards, its start, and its two outcomes.
use mbp_t05_child_lock.Base.{◌≡◌, ◌||◌, true, false, Option, some, is_null, if◌then◌else◌, arith}
use mbp_t05_child_lock.Types.{risk_none, fault_flag_none, fault_flag_rear_sensor}
use mbp_t05_child_lock.RearRisk.{
  Context, Input, Output, is_input_valid, is_raw_threat_active, classify_risk_level,
  update_hysteresis, run,
}

-- The context that `init` writes.
abbrev pub fresh : Context
fresh = record {
  risk_onset_timestamp_ms = 0;
  risk_clear_timestamp_ms = 0;
  is_risk_high_active = false;
  is_threat_ongoing = false;
  is_initialized = true;
}

-- The context that a cycle works on: its own, if it is initialised.
abbrev pub started : Context → Context
started ctx = if ctx.is_initialized then ctx else fresh

-- The context and the output of a cycle.
unfoldable pub next_context : Context → Input → Context
next_context ctx input =
    if is_input_valid input
    then update_hysteresis (started ctx) (is_raw_threat_active input) input.timestamp_ms
    else started ctx

unfoldable pub next_output : Context → Input → Output
unfolding next_context
next_output ctx input =
    if is_input_valid input
    then record {
      risk_high = (next_context ctx input).is_risk_high_active;
      risk_level = classify_risk_level input;
      risk_valid = true;
      fault_flag = fault_flag_none;
    }
    else record {
      risk_high = false;
      risk_level = risk_none;
      risk_valid = false;
      fault_flag = fault_flag_rear_sensor;
    }

-- A cycle whose pointers are not NULL starts from its context, or from a fresh one if that is not
-- initialised. A valid measurement updates the hysteresis and gives its state as the risk, with the
-- level and no fault; an invalid one leaves the hysteresis alone and gives no risk, marked as
-- invalid with the sensor fault. What the output held before has no part in it.
pub run-next :
    (ctx : Context) (input : Input) (output : Output)
    → run (some ctx) (some input) (some output)
      ≡ (some (next_context ctx input), some (next_output ctx input))
unfolding run next_context next_output
run-next ctx input output = ground arith

-- If a pointer is NULL, nothing is written.
pub run_null :
    (ctx : Option Context) (input : Option Input) (output : Option Output)
    → is_null ctx || is_null input || is_null output ≡ true
    → run ctx input output ≡ (ctx, output)
unfolding run
run_null ctx input output h = ground arith
