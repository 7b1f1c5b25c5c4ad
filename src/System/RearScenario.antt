-- ===== src/System/RearScenario.antt =====
-- F-07 into F-08 into F-03 and F-06: from the rear sensor to the Door ECU and the display.
use mbp_t05_child_lock.Base.{
  ℕ, ◌∙◌, ◌≡◌, ◌≢◌, ◌⊎◌, ◌+◌, ◌≤◌, inl, inr, ap, true, false, Option, some, List, ◌∷◌, arith,
}
use mbp_t05_child_lock.Types.{
  ChildLockState, cl_off, FaultFlag, WarningMsgId, msg_none, rear_risk_high, cl_already_on,
  sensor_fault, rear_risk_confirm_duration_ms,
}
use mbp_t05_child_lock.RearRisk
use mbp_t05_child_lock.RearRisk.Cycle.{next_output, run-next}
use mbp_t05_child_lock.RearRisk.Sensor.{IsFailing, is_input_valid-IsFailing_iff}
use mbp_t05_child_lock.RearRisk.History.{WellTimed}
use mbp_t05_child_lock.RearRisk.Events.{
  Reading, Event, cycle, stamped, history_of, context_after, Starts,
}
use mbp_t05_child_lock.RearRisk.Evaluation.{run_refines_history}
use mbp_t05_child_lock.RearRisk.Sustained.{Lasts, run_high_if}
use mbp_t05_child_lock.Protection
use mbp_t05_child_lock.Protection.Actions.{IsAlarm, Protects, run-Protects}
use mbp_t05_child_lock.DoorEcu
use mbp_t05_child_lock.DoorEcu.Handling.{IsReason}
use mbp_t05_child_lock.HmiLogger
use mbp_t05_child_lock.HmiLogger.{EventType, HmiDisplayCb, EventLogCb, DtcStoreCb, process}
use mbp_t05_child_lock.System.RearProtection
use mbp_t05_child_lock.System.AutoLock.{CommandsOn, CommandsOn-iff}
use mbp_t05_child_lock.System.Reports.{logger, process_displays}

-- The command's input that belongs to an output of F-08.
pub record Orders (o : Protection.Output) (c : DoorEcu.Input) : Type 0 where
  pub target : c.target_cl_state ≡ o.target_cl_state
  pub reason : IsReason c.decision_reason

-- The warning of a danger: the activation for a lock that was off, else that it is on already.
abbrev pub Warns : ChildLockState → WarningMsgId → Type 0
Warns s msg = ((s ≡ cl_off) × (msg ≡ rear_risk_high)) ⊎ ((s ≢ cl_off) × (msg ≡ cl_already_on))

-- After a lasting threat the cycle of F-07 reports a valid and high risk.
reports_valid :
    (memory : RearRisk.Context) (output : RearRisk.Output) (r : Reading) (es : List Event) (t : ℕ)
    → Starts memory es
    → WellTimed (history_of (cycle r ∷ es))
    → RearRisk.is_input_valid (stamped r) ≡ true
    → Lasts t (history_of (cycle r ∷ es))
    → t + rear_risk_confirm_duration_ms ≤ r.time
    → (risk : RearRisk.Output) × ((RearRisk.run
          (context_after memory output es)
          (some (stamped r))
          (some output)).1
        ≡ some risk)
      × (risk.risk_valid ≡ true)
      × (risk.risk_high ≡ true)
reports_valid memory output r es t starts timed valid lasts long =
    let (risk, ran, high) = run_high_if memory output r es starts t timed valid lasts long in
    let (c, risk', ran', passed, high', level, fault) =
      run_refines_history memory output r es starts timed in
    (risk, ran, ground arith, high)

module _ {E : Type 0} (show : HmiDisplayCb E) (write : EventLogCb E) (store : DtcStoreCb E)
    (wire : RearRisk.Output → Protection.Input)
    (joined : (o : RearRisk.Output) → RearProtection.Joins o (wire o))
    (order : Protection.Output → DoorEcu.Input)
    (ordered : (o : Protection.Output) → Orders o (order o)) where
  -- What F-08, F-03 and F-06 do in a cycle: F-08 locks, F-03 commands the Door ECU to lock, and F-06,
  -- given the message and the sound of F-08, displays the message, with sound, and then does what it
  -- would do without a message; the message is as `W` says.
  abbrev pub Responds :
      (WarningMsgId → Type 0)
      → HmiLogger.Context E
      → Protection.Input
      → Protection.Output
      → DoorEcu.Output
      → EventType
      → FaultFlag
      → E
      → Type 0
  Responds W memory i p q type fault e =
      (o : Protection.Output) × (Protection.run (some i) (some p) ≡ some o)
      × RearProtection.IsLocking o
      × CommandsOn (order o) q
      × W o.warning_msg_id
      × (process (logger show write store memory) o.warning_msg_id o.warning_sound type fault
            o.target_cl_state e
          ≡ process (logger show write store memory) msg_none false type fault o.target_cl_state
              (show o.warning_msg_id true e))

  -- In an alarm they do so.
  alarm_acts :
      (W : WarningMsgId → Type 0) (memory : HmiLogger.Context E) (i : Protection.Input)
      (p : Protection.Output) (q : DoorEcu.Output) (type : EventType) (fault : FaultFlag) (e : E)
      → IsAlarm i
      → ((o : Protection.Output) → Protects i o → W o.warning_msg_id)
      → Responds W memory i p q type fault e
  alarm_acts W memory i p q type fault e alarm message =
      let (o, ran, fits) = run-Protects i p in
      let to = ordered o in
      let shown = fits.shows.1 alarm in
      (
        o,
        ran,
        record { target = fits.locks alarm; sound = fits.sounds.1 alarm; log = fits.logs.1 alarm },
        (CommandsOn-iff (order o) q to.reason).1 (to.target ∙ fits.locks alarm),
        message o fits,
        rw (fits.sounds.1 alarm) (
            process_displays show write store memory o.warning_msg_id true type fault
              o.target_cl_state e shown),
      )

  -- A threat that lasts 500 ms, through the components of UC-5 (F-07 into F-08 into F-03 and F-06):
  -- if the context of F-07 starts, the valid readings since its last reset are well timed, those of
  -- the last 500 ms or more are threats, the new one included, the input of F-08 is joined to the
  -- output of F-07 with the ignition on, and F-03 is given the target of F-08 with one of its
  -- reasons, then in this cycle F-08 sets the lock to on, F-03 commands the Door ECU to lock, and
  -- F-06, initialised with success and given the message and the sound of F-08, first displays with
  -- sound the warning of the danger: of the activation, if the lock was off, and that it is on
  -- already, if not. It does so in every such cycle, however many warnings came before.
  pub lasting_threat_acts :
      (context : RearRisk.Context) (output : RearRisk.Output) (r : Reading) (es : List Event)
      (t : ℕ) (memory : HmiLogger.Context E) (p : Protection.Output) (q : DoorEcu.Output)
      (type : EventType) (fault : FaultFlag) (e : E)
      → Starts context es
      → WellTimed (history_of (cycle r ∷ es))
      → RearRisk.is_input_valid (stamped r) ≡ true
      → Lasts t (history_of (cycle r ∷ es))
      → t + rear_risk_confirm_duration_ms ≤ r.time
      → (risk : RearRisk.Output) × ((RearRisk.run
            (context_after context output es)
            (some (stamped r))
            (some output)).1
          ≡ some risk)
        × Responds (Warns (wire risk).current_cl_state) memory (wire risk) p q type fault e
  lasting_threat_acts context output r es t memory p q type fault e starts timed valid lasts long =
      let (risk, ran, passed, high) =
        reports_valid context output r es t starts timed valid lasts long in
      let join = joined risk in
      (
        risk,
        ran,
        alarm_acts (Warns (wire risk).current_cl_state) memory (wire risk) p q type fault e
            (join.ignition, inr (join.high ∙ high))
            (λ o fits. ground (
              arith,
              join.ignition,
              join.valid ∙ passed,
              join.high ∙ high,
              fits.activates,
              fits.maintains,
            )),
      )

  -- A failing sensor, through the components of UC-5 (F-07 into F-08 into F-03 and F-06): whatever
  -- the context of F-07 holds, if the sensor is unhealthy, its confidence is below 0.7, or the
  -- distance or the speed is below 0 or above 50, the input of F-08 is joined to the output of F-07
  -- with the ignition on, and F-03 is given the target of F-08 with one of its reasons, then in this
  -- cycle F-08 sets the lock to on, F-03 commands the Door ECU to lock, and F-06, initialised with
  -- success and given the message and the sound of F-08, first displays with sound the message of the
  -- sensor fault. It does so in every such cycle, however many warnings came before.
  pub invalid_reading_acts :
      (ctx : RearRisk.Context) (input : RearRisk.Input) (output : RearRisk.Output)
      (memory : HmiLogger.Context E) (p : Protection.Output) (q : DoorEcu.Output) (type : EventType)
      (fault : FaultFlag) (e : E)
      → IsFailing input
      → (risk : RearRisk.Output) × ((RearRisk.run (some ctx) (some input) (some output)).1
          ≡ some risk)
        × Responds (λ msg. msg ≡ sensor_fault) memory (wire risk) p q type fault e
  unfolding next_output
  invalid_reading_acts ctx input output memory p q type fault e failing =
      let risk = next_output ctx input in
      let join = joined risk in
      let invalid = (is_input_valid-IsFailing_iff input).1 failing in
      let off : risk.risk_valid ≡ false = ground arith in
      (
        risk,
        ap (λ (q : Option RearRisk.Context × Option RearRisk.Output). q.1)
            (run-next ctx input output),
        alarm_acts (λ msg. msg ≡ sensor_fault) memory (wire risk) p q type fault e
            (join.ignition, inl (join.valid ∙ off))
            (λ o fits. fits.faults.1 (join.ignition, join.valid ∙ off)),
      )
