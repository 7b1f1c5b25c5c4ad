-- ===== src/System/Journey.antt =====
-- F-01, F-02, F-05 and F-03 over a journey: a trip, the ignition off, and the next ignition on.
use mbp_t05_child_lock.Base.{◌≡◌, ◌≢◌, ap, true, some, List, ◌∷◌}
use mbp_t05_child_lock.Types.{cl_on, request_off}
use mbp_t05_child_lock.InputMonitor.{RawInput}
use mbp_t05_child_lock.Decision.{ChildLockState}
use mbp_t05_child_lock.DoorEcu
use mbp_t05_child_lock.DoorEcu.{command_cl_on}
use mbp_t05_child_lock.Persistence.{
  WriteCallback, ReadCallback, SyncCallback, Manager, Result, handle_ignition_off,
  handle_ignition_on,
}
use mbp_t05_child_lock.Persistence.PowerCycle.{Nvm, manager_of}
use mbp_t05_child_lock.System.LockControl.{shared}
use mbp_t05_child_lock.System.Trip.{Trip, IsRolling, AllRolling, rolling_ends_locked}
use mbp_t05_child_lock.System.Restoration.{Link, wakes_locked}

module _ {E : Type 0} (write : WriteCallback E) (read : ReadCallback E) (sync : SyncCallback E)
    (nvm : Nvm write read) (link : Link sync) where
  open nvm use {stored}
  open link use {last}

  -- If a trip of F-01 and F-02 begins with a cycle in which the vehicle rolls and the driver does not
  -- ask to open, and it rolls in all later cycles, and F-05 saves the lock at its end with success at
  -- ignition off, over a memory that keeps what was written, then the next ignition on restores the
  -- lock on, and, with a synchronisation that goes through F-03, leaves the Door ECU with the command
  -- to lock; whatever state the lock was in at first, whatever the driver asks for later, whichever
  -- faults come and go, and even if the environment has changed while the ignition was off in
  -- everything but what is stored.
  pub locked_after_journey :
      {s t : ChildLockState} (raw : RawInput) (raws : List RawInput) (before after : Manager E)
      (r r' : Result) (e : E)
      → IsRolling raw
      → raw.switch_request ≢ request_off
      → AllRolling raws
      → Trip s (raw ∷ raws) t
      → (saved : Result) (off on : E)
      → handle_ignition_off (manager_of write read sync nvm (some before)) (shared t) (some r) e
        ≡ some (true, some saved, off)
      → saved.persist_succeeded ≡ true
      → stored on ≡ stored off
      → (restored : Result) × (end : E) × (o : DoorEcu.Output) × (handle_ignition_on
            (manager_of write read sync nvm (some after))
            (some r')
            on
          ≡ some (true, some restored, end))
        × (restored.restored_cl_state ≡ cl_on)
        × (last end ≡ some o)
        × (o.child_lock_command ≡ command_cl_on)
  locked_after_journey {s} {t} raw raws before after r r' e rolls no_request rs trip =
      wakes_locked write read sync nvm link before after (shared t) r r' e
        (ap shared (rolling_ends_locked raw raws rolls no_request rs trip))
