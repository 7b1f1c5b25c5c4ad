-- ===== src/RearRisk/Examples.antt =====
-- Runs of F-07, and its theorems at concrete inputs.
use mbp_t05_child_lock.Base.{
  ℕ, ◌≡◌, ◌≤◌, ◌↔◌, refl, ◌&&◌, true, false, Option, some, List, [], ◌∷◌, arith,
}
use mbp_t05_child_lock.Float.{positive, le, lt}
use mbp_t05_child_lock.Types.{fault_flag_none, risk_high}
use mbp_t05_child_lock.RearRisk.{
  Context, Input, Output, is_input_valid, is_raw_threat_active, classify_risk_level,
  update_hysteresis, run, reset,
}
use mbp_t05_child_lock.RearRisk.History.{high}
use mbp_t05_child_lock.RearRisk.Events.{
  Reading, Event, cycle, restart, stamped, sample, history_of, context_after, Starts,
}
use mbp_t05_child_lock.RearRisk.Evaluation.{run_refines_history}
use mbp_t05_child_lock.RearRisk.Sustained.{
  Lasts, Calm, Confirmed, ReportsHigh, run_high_only_if, run_high_if, run_high_ends,
}
use mbp_t05_child_lock.RearRisk.Phase.{phase_of, phase_after}
use mbp_t05_child_lock.RearRisk.Machine.{Shows, run_follows_phase}
use mbp_t05_child_lock.RearRisk.Shift.{later, run_shift}
use mbp_t05_child_lock.RearRisk.Outage.{run_confirms_by_wrapped_time}

-- At 2 m, approaching at 5 m/s.
abbrev close : Input
close = record {
  distance_m = positive 0x4000_0000;
  rel_speed_mps = positive 0x40a0_0000;
  sensor_health = true;
  sensor_confidence = positive 0x3f80_0000;
  timestamp_ms = 0;
}

abbrev far : Input
far = record close { distance_m = positive 0x4120_0000 }

abbrev sick : Input
sick = record close { sensor_health = false }

abbrev at : ℕ → Input → Reading
at t i = record { time = t; input = i }

abbrev garbage : Context
garbage = record {
  risk_onset_timestamp_ms = 77;
  risk_clear_timestamp_ms = 99;
  is_risk_high_active = true;
  is_threat_ongoing = true;
  is_initialized = true;
}

-- A context that nothing has initialised yet.
abbrev unused : Context
unused = record garbage { is_initialized = false }

abbrev other : Context
other = record unused { is_risk_high_active = false; risk_onset_timestamp_ms = 5 }

abbrev used : Output
used = record { risk_high = true; risk_level = risk_high; risk_valid = true; fault_flag = 9 }

-- A threat across the wrap-around of the counter at 4294967296, after a reset.
abbrev threats : List Event
threats =
    cycle (at 4294967200 close)
    ∷ cycle (at 4294966990 close)
    ∷ cycle (at 4294966800 close)
    ∷ restart
    ∷ cycle (at 9 close)
    ∷ []

abbrev next : Reading
next = at 4294967300 close

confirms :
    (run (context_after garbage used threats) (some (stamped next)) (some used)).1
    ≡ some (record { risk_high = true; risk_level = risk_high; risk_valid = true; fault_flag = 0 })
unfolding run context_after update_hysteresis is_input_valid is_raw_threat_active
    classify_risk_level le lt reset
confirms = refl

waits :
    (run
      (context_after unused used (cycle (at 4294966990 close) ∷ cycle (at 4294966801 close) ∷ []))
      (some (stamped (at 4294967300 close)))
      (some used)).1
    ≡ some (record { risk_high = false; risk_level = risk_high; risk_valid = true; fault_flag = 0 })
unfolding run context_after update_hysteresis is_input_valid is_raw_threat_active
    classify_risk_level le lt
waits = refl

run_refines_history_example :
    (c : Option Context) × (o : Output) × (run
        (context_after garbage used threats)
        (some (stamped next))
        (some used)
      ≡ (c, some o))
    × (o.risk_valid ≡ is_input_valid (stamped next))
    × (o.risk_high ≡ (is_input_valid (stamped next) && high (history_of (cycle next ∷ threats))))
    × (o.risk_level ≡ classify_risk_level (stamped next))
    × (o.fault_flag ≡ fault_flag_none)
unfolding Starts history_of le lt is_input_valid
run_refines_history_example = run_refines_history garbage used next threats tt (omega arith)

run_high_only_if_example :
    (is_input_valid (stamped next) ≡ true) × Confirmed (history_of (cycle next ∷ threats))
unfolding Starts history_of run context_after update_hysteresis is_input_valid is_raw_threat_active
    classify_risk_level le lt reset
run_high_only_if_example = run_high_only_if garbage used next threats tt (omega arith) (
  record { risk_high = true; risk_level = risk_high; risk_valid = true; fault_flag = 0 },
  refl,
  refl,
)

threats_last : Lasts 4294966800 (sample next ∷ sample (at 4294966800 close) ∷ [])
unfolding is_raw_threat_active le
threats_last =
    Lasts.goes_on 4294966800 _ _ refl
      (Lasts.begins 4294966800 (sample (at 4294966800 close)) [] refl refl)

run_high_if_example : ReportsHigh unused used (cycle (at 4294966800 close) ∷ []) next true
unfolding Starts history_of le lt is_input_valid is_raw_threat_active
run_high_if_example =
    run_high_if unused used next (cycle (at 4294966800 close) ∷ []) refl 4294966800 (omega arith)
      refl threats_last (omega arith)

abbrev calm : Reading
calm = at 4294968300 far

now_calm : Calm 4294967200 (sample calm ∷ sample (at 4294967200 close) ∷ [])
unfolding is_raw_threat_active le
now_calm =
    Calm.goes_on 4294967200 _ _ refl
      (Calm.begins 4294967200 (sample (at 4294967200 close)) [] refl refl)

run_high_ends_example : ReportsHigh unused used (cycle (at 4294967200 close) ∷ []) calm false
unfolding Starts history_of le lt is_input_valid is_raw_threat_active
run_high_ends_example =
    run_high_ends unused used calm (cycle (at 4294967200 close) ∷ []) refl 4294967200 (omega arith)
      refl now_calm (omega arith)

-- The second threat comes 2 ^ 32 ms and 300 ms after the first.
run_confirms_by_wrapped_time_example :
    (o : Output) × ((run
        (context_after garbage used
          (cycle (at 900 sick) ∷ cycle (at 500 sick) ∷ cycle (at 100 close) ∷ restart ∷ []))
        (some (stamped (at 4294967696 close)))
        (some used)).1
      ≡ some o)
    × ((o.risk_high ≡ true) ↔ (500 ≤ 300))
unfolding le lt is_input_valid is_raw_threat_active
run_confirms_by_wrapped_time_example =
    run_confirms_by_wrapped_time garbage used (at 4294967696 close) (at 100 close)
      (cycle (at 900 sick) ∷ cycle (at 500 sick) ∷ []) [] (refl, (refl, tt)) refl refl refl refl
      (omega arith)

-- In the second run the counter does not wrap around.
run_shift_example :
    (run
      (context_after unused used (cycle (at 4294966800 close) ∷ []))
      (some (stamped next))
      (some used)).1
    ≡ (run
        (context_after other used (later 500 (cycle (at 4294966800 close) ∷ [])))
        (some (stamped (at 4294967800 close)))
        (some used)).1
unfolding Starts
run_shift_example =
    run_shift 500 unused other used used next (cycle (at 4294966800 close) ∷ []) refl refl

run_follows_phase_example :
    (c : Context) × (o : Output) × (run
        (context_after garbage used (cycle (at 9 close) ∷ []))
        (some (stamped next))
        (some used)
      ≡ (some c, some o))
    × (phase_of c ≡ phase_after (phase_of garbage) (cycle next ∷ cycle (at 9 close) ∷ []))
    × Shows next (phase_after (phase_of garbage) (cycle next ∷ cycle (at 9 close) ∷ [])) o
run_follows_phase_example = run_follows_phase garbage used next (cycle (at 9 close) ∷ [])
