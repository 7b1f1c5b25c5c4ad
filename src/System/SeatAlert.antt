-- ===== src/System/SeatAlert.antt =====
-- F-09 into F-06: what becomes of the alerts for an occupied rear seat.
use mbp_t05_child_lock.Base.{◌≡◌, Bool, true, Option, some, arith}
use mbp_t05_child_lock.Types.{ChildLockState, cl_off, FaultFlag, msg_none}
use mbp_t05_child_lock.OccupancyAlert
use mbp_t05_child_lock.OccupancyAlert.{recommendation, status}
use mbp_t05_child_lock.OccupancyAlert.Alerts.{run-Fits}
use mbp_t05_child_lock.HmiLogger
use mbp_t05_child_lock.HmiLogger.{EventType, HmiDisplayCb, EventLogCb, DtcStoreCb}
use mbp_t05_child_lock.HmiLogger.Calls.{config, process_mute}

module _ {E : Type 0} (write : EventLogCb E) (store : DtcStoreCb E)
    (memory : HmiLogger.Context E) where
  -- The context of F-06 with a display, after a successful initialisation.
  abbrev pub with_display : HmiDisplayCb E → Option (HmiLogger.Context E)
  with_display show = (HmiLogger.init (some memory) (some (config show write store))).1

  -- The recommendation to lock never reaches the display: for a departure with a healthy HMI, an
  -- occupied seat and a lock that is off, F-09 decides on the recommendation; and when F-06 processes
  -- its message, with any sound, event, fault and lock state, the outcome is the same whichever
  -- display is connected.
  pub recommendation_not_displayed :
      (input : OccupancyAlert.Input) (output : OccupancyAlert.Output)
      → input.departure_event ≡ true
      → input.hmi_health ≡ true
      → input.rear_seat_occupancy ≡ true
      → input.current_cl_state ≡ cl_off
      → (o : OccupancyAlert.Output) × (OccupancyAlert.run (some input) (some output) ≡ some o)
        × (o.alert_type ≡ recommendation)
        × ((show show' : HmiDisplayCb E) (sound : Bool) (type : EventType) (fault : FaultFlag)
              (state : ChildLockState) (e : E)
            → HmiLogger.process (with_display show) o.alert_message_id sound type fault state e
              ≡ HmiLogger.process (with_display show') o.alert_message_id sound type fault state e)
  recommendation_not_displayed input output departs healthy seated unlocked =
      let (o, ran, fits) = OccupancyAlert.Alerts.run-Fits input output in
      let recommends : o.alert_type ≡ recommendation =
        fits.recommends.1 ((departs, healthy), seated, unlocked) in
      let mute : o.alert_message_id ≡ msg_none = fits.is_mute.1 (λ e. ground arith) in
      (
        o,
        ran,
        recommends,
        λ show show' sound type fault state e.
            rw mute (process_mute show show' write store memory sound type fault state e),
      )
