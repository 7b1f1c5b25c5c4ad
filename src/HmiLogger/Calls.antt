-- ===== src/HmiLogger/Calls.antt =====
-- The calls that F-06 makes, and that it never calls through NULL.
use mbp_t05_child_lock.Base.{
  ◌≡◌, ◌≢◌, ◌&&◌, not, Bool, false, Option, none, some, is_null, List, [], ◌∷◌, ◌++◌, ◌==◌,
  if◌then◌else◌, arith,
}
use mbp_t05_child_lock.Types.{
  ChildLockState, WarningMsgId, msg_none, FaultFlag, fault_flag_none, is_msg_none,
}
use mbp_t05_child_lock.HmiLogger.{
  EventType, is_event_none, HmiDisplayCb, EventLogCb, DtcStoreCb, Config, Context, has_valid_config,
  init, process,
}

-- One call of a callback, with its arguments.
pub data Call : Type 0 where
  displays : WarningMsgId → Bool → Call
  logs : EventType → ChildLockState → Call
  stores : FaultFlag → Call

-- The calls that a request is meant to make, in their order.
abbrev pub requested : WarningMsgId → Bool → EventType → FaultFlag → ChildLockState → List Call
requested msg sound type fault state =
    (if is_msg_none msg then [] else displays msg sound ∷ [])
    ++ ((if is_event_none type then [] else logs type state ∷ [])
        ++ (if fault == fault_flag_none then [] else stores fault ∷ []))

module _ {E : Type 0} (show : HmiDisplayCb E) (write : EventLogCb E) (store : DtcStoreCb E) where
  abbrev pub perform : List Call → E → E
  perform [] e = e
  perform (displays msg sound ∷ calls) e = perform calls (show msg sound e)
  perform (logs type state ∷ calls) e = perform calls (write type state e)
  perform (stores fault ∷ calls) e = perform calls (store fault e)

  abbrev pub config : Config E
  config = record { display_cb = some show; log_cb = some write; dtc_cb = some store }

  -- After a successful initialisation a request has the effect of its calls, one after the other:
  -- the message is displayed unless it is none, the event is logged with the lock state unless it is
  -- none, and the fault is stored unless it is none, in this order and each once.
  pub process-perform :
      (memory : Context E) (msg : WarningMsgId) (sound : Bool) (type : EventType)
      (fault : FaultFlag) (state : ChildLockState) (e : E)
      → process (init (some memory) (some config)).1 msg sound type fault state e
        ≡ some (perform (requested msg sound type fault state) e)
  unfolding process init
  process-perform memory msg sound type fault state e = ground arith

-- Without a message the display makes no difference.
pub process_mute :
    {E : Type 0} (show show' : HmiDisplayCb E) (write : EventLogCb E) (store : DtcStoreCb E)
    (memory : Context E) (sound : Bool) (type : EventType) (fault : FaultFlag)
    (state : ChildLockState) (e : E)
    → process
        (init (some memory) (some (config show write store))).1
        msg_none
        sound
        type
        fault
        state
        e
      ≡ process
          (init (some memory) (some (config show' write store))).1
          msg_none
          sound
          type
          fault
          state
          e
unfolding process init
process_mute show show' write store memory sound type fault state e = ground arith

module _ {E : Type 0} where
  -- Initialisation succeeds exactly with a context and a configuration that has all three
  -- callbacks. After any initialisation, failed ones included, no request calls through NULL; and
  -- after a failed one a request has no effect.
  pub process_defined :
      (ctx : Option (Context E)) (config : Option (Config E)) (msg : WarningMsgId) (sound : Bool)
      (type : EventType) (fault : FaultFlag) (state : ChildLockState) (e : E)
      → let (done, after) = init ctx config in
        (done ≡ (not (is_null ctx) && has_valid_config config))
        × (process after msg sound type fault state e ≢ none)
        × (done ≡ false → process after msg sound type fault state e ≡ some e)
  unfolding process init
  process_defined ctx config msg sound type fault state e = ground arith
