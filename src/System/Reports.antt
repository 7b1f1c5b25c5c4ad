-- ===== src/System/Reports.antt =====
-- F-08 and F-03 into F-06: what becomes of their warnings and faults.
use mbp_t05_child_lock.Base.{◌≡◌, ◌≢◌, Bool, true, false, Option, some, arith}
use mbp_t05_child_lock.Types.{
  ChildLockState, FaultFlag, fault_flag_none, fault_flag_ecu_ack_fail, WarningMsgId, msg_none,
}
use mbp_t05_child_lock.DoorEcu
use mbp_t05_child_lock.DoorEcu.Handling.{handle_command-Reports}
use mbp_t05_child_lock.Protection
use mbp_t05_child_lock.Protection.Actions.{IsAlarm, run-Protects}
use mbp_t05_child_lock.HmiLogger
use mbp_t05_child_lock.HmiLogger.{EventType, HmiDisplayCb, EventLogCb, DtcStoreCb, init, process}
use mbp_t05_child_lock.HmiLogger.Calls.{config, perform, requested}

module _ {E : Type 0} (show : HmiDisplayCb E) (write : EventLogCb E) (store : DtcStoreCb E)
    (memory : HmiLogger.Context E) where
  -- The context of F-06 after a successful initialisation.
  abbrev pub logger : Option (HmiLogger.Context E)
  logger = (init (some memory) (some (config show write store))).1

  pub process_displays :
      (msg : WarningMsgId) (sound : Bool) (type : EventType) (fault : FaultFlag)
      (state : ChildLockState) (e : E)
      → msg ≢ msg_none
      → process logger msg sound type fault state e
        ≡ process logger msg_none false type fault state (show msg sound e)
  unfolding process init
  process_displays msg sound type fault state e m = ground arith

  process_stores :
      (msg : WarningMsgId) (sound : Bool) (type : EventType) (fault : FaultFlag)
      (state : ChildLockState) (e : E)
      → fault ≢ fault_flag_none
      → process logger msg sound type fault state e
        ≡ some (
            store fault
              (perform show write store (requested msg sound type fault_flag_none state) e))
  unfolding process init
  process_stores msg sound type fault state e f = ground arith

  -- A danger or a failing sensor is shown: in an alarm of F-08 (ignition on, and the risk invalid or
  -- high) F-06, given the message and the sound of F-08, first displays this message, with sound, and
  -- then does what it would do without a message.
  pub alarm_is_displayed :
      (input : Protection.Input) (output : Protection.Output) (type : EventType) (fault : FaultFlag)
      (state : ChildLockState) (e : E)
      → IsAlarm input
      → (o : Protection.Output) × (Protection.run (some input) (some output) ≡ some o)
        × (o.warning_msg_id ≢ msg_none)
        × (process logger o.warning_msg_id o.warning_sound type fault state e
            ≡ process logger msg_none false type fault state (show o.warning_msg_id true e))
  alarm_is_displayed input output type fault state e alarm =
      let (o, ran, fits) = run-Protects input output in
      let shown = fits.shows.1 alarm in
      let sounds = fits.sounds.1 alarm in
      (o, ran, shown, rw sounds (process_displays o.warning_msg_id true type fault state e shown))

  -- A missing acknowledgement is recorded: for a command that F-03 accepts and that the Door ECU does
  -- not acknowledge, F-06, given the fault of F-03, stores the acknowledgement fault, after it has
  -- done what it would do without a fault.
  pub missing_ack_is_stored :
      (input : DoorEcu.Input) (output : DoorEcu.Output) (msg : WarningMsgId) (sound : Bool)
      (type : EventType) (state : ChildLockState) (e : E)
      → (DoorEcu.handle_command (some input) (some output)).0 ≡ true
      → input.door_ecu_ack ≡ false
      → (o : DoorEcu.Output) × (DoorEcu.handle_command (some input) (some output) ≡ (true, some o))
        × (process logger msg sound type o.dtc state e
            ≡ some (
                store fault_flag_ecu_ack_fail
                  (perform show write store (requested msg sound type fault_flag_none state) e)))
  missing_ack_is_stored input output msg sound type state e accepted missing =
      let (o, ran, fits) = handle_command-Reports input output accepted in
      let (status, retries, dtc, count) = fits.unacknowledged missing in
      (
        o,
        ran,
        rw dtc (process_stores msg sound type fault_flag_ecu_ack_fail state e (λ z. omega arith)),
      )
