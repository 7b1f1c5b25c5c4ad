-- ===== src/System/RearExamples.antt =====
-- The theorems from F-07 to the Door ECU and the display, and on F-09 and F-06, at concrete inputs.
use mbp_t05_child_lock.Base.{
  ℕ, ◌≡◌, refl, ◌↔◌, inl, inr, Bool, true, false, some, none, List, [], ◌∷◌, arith,
}
use mbp_t05_child_lock.Float.{positive, le, lt}
use mbp_t05_child_lock.Types.{
  ChildLockState, FaultFlag, cl_off as shared_off, ign_on, risk_high as high_level, msg_none,
  sensor_fault, fault_flag_none, fault_flag_rear_sensor,
}
use mbp_t05_child_lock.RearRisk
use mbp_t05_child_lock.RearRisk.Sensor.{IsFailing}
use mbp_t05_child_lock.RearRisk.Events.{
  Reading, cycle, stamped, sample, history_of, context_after, Starts,
}
use mbp_t05_child_lock.RearRisk.Sustained.{Lasts}
use mbp_t05_child_lock.Protection
use mbp_t05_child_lock.DoorEcu
use mbp_t05_child_lock.OccupancyAlert
use mbp_t05_child_lock.HmiLogger
use mbp_t05_child_lock.HmiLogger.Calls.{Call, displays, logs, stores}
use mbp_t05_child_lock.System.RearProtection
use mbp_t05_child_lock.System.RearScenario
use mbp_t05_child_lock.System.SeatAlert

-- At 2 m, approaching at 5 m/s.
abbrev close : RearRisk.Input
close = record {
  distance_m = positive 0x4000_0000;
  rel_speed_mps = positive 0x40a0_0000;
  sensor_health = true;
  sensor_confidence = positive 0x3f80_0000;
  timestamp_ms = 0;
}

abbrev at : ℕ → RearRisk.Input → Reading
at t i = record { time = t; input = i }

abbrev memory : RearRisk.Context
memory = record {
  risk_onset_timestamp_ms = 77;
  risk_clear_timestamp_ms = 99;
  is_risk_high_active = true;
  is_threat_ongoing = true;
  is_initialized = false;
}

abbrev used : RearRisk.Output
used = record { risk_high = true; risk_level = high_level; risk_valid = true; fault_flag = 9 }

close-Lasts : Lasts 100 (sample (at 700 close) ∷ sample (at 100 close) ∷ [])
unfolding RearRisk.is_raw_threat_active le
close-Lasts = Lasts.goes_on 100 _ _ refl (Lasts.begins 100 (sample (at 100 close)) [] refl refl)

-- F-08 behind F-07, with the lock off and the ignition on.
abbrev wire : RearRisk.Output → Protection.Input
wire o = record {
  risk_high = o.risk_high;
  risk_valid = o.risk_valid;
  current_cl_state = shared_off;
  ignition_state = ign_on;
}

abbrev joined : (o : RearRisk.Output) → RearProtection.Joins o (wire o)
joined o = record { high = refl; valid = refl; ignition = refl }

abbrev idle : Protection.Output
idle = record {
  target_cl_state = shared_off;
  cl_changed = false;
  warning_msg_id = msg_none;
  warning_sound = false;
  event_log = false;
}

-- At a confidence of 0.5.
abbrev unsure : RearRisk.Input
unsure = record close { sensor_confidence = positive 0x3f00_0000 }

-- F-06 over a list of calls.
abbrev write : HmiLogger.EventLogCb (List Call)
write type state e = logs type state ∷ e

abbrev store : HmiLogger.DtcStoreCb (List Call)
store fault e = stores fault ∷ e

abbrev logger : HmiLogger.Context (List Call)
logger = record {
  config = record { display_cb = none; log_cb = none; dtc_cb = none };
  is_initialized = false;
}

abbrev seated : OccupancyAlert.Input
seated = record {
  departure_event = true;
  rear_seat_occupancy = true;
  current_cl_state = shared_off;
  hmi_health = true;
}

abbrev no_alert : OccupancyAlert.Output
no_alert = record {
  alert_type = OccupancyAlert.alert_none;
  alert_message_id = msg_none;
  event_log = false;
}

recommendation_not_displayed_example :
    (o : OccupancyAlert.Output) × (OccupancyAlert.run (some seated) (some no_alert) ≡ some o)
    × (o.alert_type ≡ OccupancyAlert.recommendation)
    × ((show show' : HmiLogger.HmiDisplayCb (List Call)) (sound : Bool) (type : HmiLogger.EventType)
          (fault : FaultFlag) (state : ChildLockState) (e : List Call)
        → HmiLogger.process
            (SeatAlert.with_display write store logger show)
            o.alert_message_id
            sound
            type
            fault
            state
            e
          ≡ HmiLogger.process
              (SeatAlert.with_display write store logger show')
              o.alert_message_id
              sound
              type
              fault
              state
              e)
recommendation_not_displayed_example =
    SeatAlert.recommendation_not_displayed write store logger seated no_alert refl refl refl refl

abbrev show : HmiLogger.HmiDisplayCb (List Call)
show msg sound e = displays msg sound ∷ e

abbrev order : Protection.Output → DoorEcu.Input
order o = record {
  target_cl_state = o.target_cl_state;
  decision_reason = DoorEcu.safe_locked;
  door_ecu_ack = false;
}

ordered : (o : Protection.Output) → RearScenario.Orders o (order o)
ordered o = record { target = refl; reason = λ n e. cc }

abbrev no_report : DoorEcu.Output
no_report = record {
  child_lock_command = DoorEcu.command_none;
  ack_status = DoorEcu.not_checked;
  retry_status = DoorEcu.not_required;
  dtc = 0;
  retry_count = 0;
}

lasting_threat_acts_example :
    (risk : RearRisk.Output) × ((RearRisk.run
        (context_after memory used (cycle (at 100 close) ∷ []))
        (some (stamped (at 700 close)))
        (some used)).1
      ≡ some risk)
    × RearScenario.Responds show write store wire joined order ordered
        (RearScenario.Warns shared_off)
        logger
        (wire risk)
        idle
        no_report
        HmiLogger.state_change
        4
        []
unfolding Starts history_of RearRisk.is_input_valid RearRisk.is_raw_threat_active le lt
lasting_threat_acts_example =
    RearScenario.lasting_threat_acts show write store wire joined order ordered memory used
      (at 700 close) (cycle (at 100 close) ∷ []) 100 logger idle no_report HmiLogger.state_change 4
      [] refl (omega arith) refl close-Lasts (omega arith)

invalid_reading_acts_example :
    (risk : RearRisk.Output) × ((RearRisk.run (some memory) (some unsure) (some used)).1
      ≡ some risk)
    × RearScenario.Responds show write store wire joined order ordered
        (λ msg. msg ≡ sensor_fault)
        logger
        (wire risk)
        idle
        no_report
        HmiLogger.state_change
        4
        []
unfolding lt
invalid_reading_acts_example =
    RearScenario.invalid_reading_acts show write store wire joined order ordered memory unsure used
      logger idle no_report HmiLogger.state_change 4 [] (inr (inl refl))

sensor_fault_reported_iff_example :
    (risk : RearRisk.Output) × ((RearRisk.run (some memory) (some unsure) (some used)).1
      ≡ some risk)
    × (o : Protection.Output) × (Protection.run (some (wire risk)) (some idle) ≡ some o)
    × ((risk.fault_flag ≡ fault_flag_rear_sensor) ↔ IsFailing unsure)
    × ((risk.fault_flag ≡ fault_flag_none) ↔ (¬ IsFailing unsure))
    × ((o.warning_msg_id ≡ sensor_fault) ↔ IsFailing unsure)
sensor_fault_reported_iff_example =
    RearProtection.sensor_fault_reported_iff wire joined used idle memory unsure
