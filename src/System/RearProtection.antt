-- ===== src/System/RearProtection.antt =====
-- F-07 into F-08: from the rear sensor to the lock.
use mbp_t05_child_lock.Base.{
  ℕ, ap, ◌∙◌, ◌≡◌, ◌+◌, ◌≤◌, ◌⊎◌, ◌↔◌, inl, inr, true, false, Option, some, List, ◌∷◌, arith,
}
use mbp_t05_child_lock.Types.{
  cl_on, ign_on, sensor_fault, fault_flag_none, fault_flag_rear_sensor,
  rear_risk_confirm_duration_ms,
}
use mbp_t05_child_lock.RearRisk
use mbp_t05_child_lock.RearRisk.History.{WellTimed}
use mbp_t05_child_lock.RearRisk.Cycle.{next_output, run-next}
use mbp_t05_child_lock.RearRisk.Events.{
  Reading, Event, cycle, stamped, history_of, context_after, Starts,
}
use mbp_t05_child_lock.RearRisk.Sensor.{IsFailing, is_input_valid-IsFailing_iff}
use mbp_t05_child_lock.RearRisk.Sustained.{Lasts, run_high_if}
use mbp_t05_child_lock.Protection
use mbp_t05_child_lock.Protection.Actions.{run-Protects}

-- The input of F-08 that belongs to an output of F-07, with the ignition on.
pub record Joins (o : RearRisk.Output) (i : Protection.Input) : Type 0 where
  pub high : i.risk_high ≡ o.risk_high
  pub valid : i.risk_valid ≡ o.risk_valid
  pub ignition : i.ignition_state ≡ ign_on

-- The lock is set to on, with sound and a log entry.
pub record IsLocking (o : Protection.Output) : Type 0 where
  pub target : o.target_cl_state ≡ cl_on
  pub sound : o.warning_sound ≡ true
  pub log : o.event_log ≡ true

alarm_locks :
    (i : Protection.Input) (p : Protection.Output)
    → i.ignition_state ≡ ign_on
    → (i.risk_valid ≡ false) ⊎ (i.risk_high ≡ true)
    → (o : Protection.Output) × (Protection.run (some i) (some p) ≡ some o) × IsLocking o
alarm_locks i p on alarm =
    let (o, ran, fits) = run-Protects i p in
    (
      o,
      ran,
      record {
        target = fits.locks (on, alarm);
        sound = fits.sounds.1 (on, alarm);
        log = fits.logs.1 (on, alarm);
      },
    )

-- F-08 sets the lock to on, with sound and a log entry, after a cycle of F-07 on `input`, where
-- `wire` makes the input of F-08 from the output of F-07.
abbrev pub LocksAfter :
    (RearRisk.Output → Protection.Input)
    → Option RearRisk.Context
    → RearRisk.Input
    → RearRisk.Output
    → Protection.Output
    → Type 0
LocksAfter wire ctx input output p =
    (risk : RearRisk.Output) × ((RearRisk.run ctx (some input) (some output)).1 ≡ some risk)
    × (o : Protection.Output) × (Protection.run (some (wire risk)) (some p) ≡ some o)
    × IsLocking o

module _ (wire : RearRisk.Output → Protection.Input)
    (joined : (o : RearRisk.Output) → Joins o (wire o)) (output : RearRisk.Output)
    (p : Protection.Output) where
  -- A threat that lasts 500 ms locks the doors: if the context of F-07 starts, the valid readings
  -- since its last reset are well timed, those of the last 500 ms or more are threats, the new one
  -- included, and the input of F-08 is joined to the output of F-07 with the ignition on, then in
  -- this cycle F-08 sets the lock to on, with sound and a log entry, whatever state the lock was in.
  pub lasting_threat_locks :
      (memory : RearRisk.Context) (r : Reading) (es : List Event) (t : ℕ)
      → Starts memory es
      → WellTimed (history_of (cycle r ∷ es))
      → RearRisk.is_input_valid (stamped r) ≡ true
      → Lasts t (history_of (cycle r ∷ es))
      → t + rear_risk_confirm_duration_ms ≤ r.time
      → LocksAfter wire (context_after memory output es) (stamped r) output p
  lasting_threat_locks memory r es t starts timed valid lasts long =
      let (risk, ran, high) = run_high_if memory output r es starts t timed valid lasts long in
      let join = joined risk in
      let (o, acted, locks) = alarm_locks (wire risk) p join.ignition (inr (join.high ∙ high)) in
      (risk, ran, o, acted, locks)

  -- A failing sensor locks the doors: whatever the context of F-07 holds, if a measurement does not
  -- pass the check of F-07, and the input of F-08 is joined to the output of F-07 with the ignition
  -- on, then F-08 sets the lock to on, with sound and a log entry, in the same cycle.
  pub invalid_reading_locks :
      (ctx : RearRisk.Context) (input : RearRisk.Input)
      → RearRisk.is_input_valid input ≡ false
      → LocksAfter wire (some ctx) input output p
  unfolding next_output
  invalid_reading_locks ctx input invalid =
      let risk = next_output ctx input in
      let join = joined risk in
      let off : risk.risk_valid ≡ false = ground arith in
      let (o, acted, locks) = alarm_locks (wire risk) p join.ignition (inl (join.valid ∙ off)) in
      (
        risk,
        ap (λ (q : Option RearRisk.Context × Option RearRisk.Output). q.1)
            (run-next ctx input output),
        o,
        acted,
        locks,
      )

  -- A failing sensor is told apart: where the input of F-08 is joined to the output of F-07 with the
  -- ignition on, whatever the context of F-07 holds, F-07 reports the fault of the rear sensor, and
  -- F-08 gives the message of a sensor fault, exactly if the sensor is unhealthy, its confidence is
  -- below 0.7, or the distance or the speed is below 0 or above 50; with any other measurement, NaN
  -- included, F-07 reports no fault.
  pub sensor_fault_reported_iff :
      (ctx : RearRisk.Context) (input : RearRisk.Input)
      → (risk : RearRisk.Output) × ((RearRisk.run (some ctx) (some input) (some output)).1
          ≡ some risk)
        × (o : Protection.Output) × (Protection.run (some (wire risk)) (some p) ≡ some o)
        × ((risk.fault_flag ≡ fault_flag_rear_sensor) ↔ IsFailing input)
        × ((risk.fault_flag ≡ fault_flag_none) ↔ (¬ IsFailing input))
        × ((o.warning_msg_id ≡ sensor_fault) ↔ IsFailing input)
  unfolding next_output
  sensor_fault_reported_iff ctx input =
      let risk = next_output ctx input in
      let (o, acted, fits) = run-Protects (wire risk) p in
      let fails = is_input_valid-IsFailing_iff input in
      (
        risk,
        ap (λ (q : Option RearRisk.Context × Option RearRisk.Output). q.1)
            (run-next ctx input output),
        o,
        acted,
        ground (arith, fails),
        ground (arith, fails),
        ground (arith, fails, fits.faults, (joined risk).valid, (joined risk).ignition),
      )
