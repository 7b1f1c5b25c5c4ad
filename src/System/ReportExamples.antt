-- ===== src/System/ReportExamples.antt =====
-- The theorems on the reports of F-03 at concrete inputs, over a list of calls.
use mbp_t05_child_lock.Base.{◌≡◌, refl, true, false, none, some, List, [], ◌∷◌}
use mbp_t05_child_lock.Types.{cl_on, rear_risk_high}
use mbp_t05_child_lock.DoorEcu
use mbp_t05_child_lock.HmiLogger
use mbp_t05_child_lock.HmiLogger.Calls.{Call, displays, logs, stores}
use mbp_t05_child_lock.System.Reports.{logger, missing_ack_is_stored}

abbrev show : HmiLogger.HmiDisplayCb (List Call)
show msg sound e = displays msg sound ∷ e

abbrev write : HmiLogger.EventLogCb (List Call)
write type state e = logs type state ∷ e

abbrev store : HmiLogger.DtcStoreCb (List Call)
store fault e = stores fault ∷ e

abbrev garbage : HmiLogger.Context (List Call)
garbage = record {
  config = record { display_cb = none; log_cb = none; dtc_cb = none };
  is_initialized = true;
}

abbrev locking : DoorEcu.Input
locking = record {
  target_cl_state = cl_on;
  decision_reason = DoorEcu.safe_locked;
  door_ecu_ack = false;
}

abbrev no_report : DoorEcu.Output
no_report = record {
  child_lock_command = DoorEcu.command_none;
  ack_status = DoorEcu.not_checked;
  retry_status = DoorEcu.not_required;
  dtc = 0;
  retry_count = 0;
}

missing_ack_is_stored_example :
    (o : DoorEcu.Output) × (DoorEcu.handle_command (some locking) (some no_report) ≡ (true, some o))
    × (HmiLogger.process
          (logger show write store garbage)
          rear_risk_high
          true
          HmiLogger.state_change
          o.dtc
          cl_on
          []
        ≡ some (stores 4 ∷ logs HmiLogger.state_change cl_on ∷ displays rear_risk_high true ∷ []))
unfolding DoorEcu.handle_command
missing_ack_is_stored_example =
    missing_ack_is_stored show write store garbage locking no_report rear_risk_high true
      HmiLogger.state_change cl_on [] refl refl
