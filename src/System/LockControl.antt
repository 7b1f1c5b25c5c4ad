-- ===== src/System/LockControl.antt =====
-- The three components that set one lock: F-02 decides, F-08 protects, F-05 restores.
use mbp_t05_child_lock.Base.{
  ◌≡◌, ◌⊎◌, inl, Bool, true, false, Option, none, some, List, if◌then◌else◌, arith,
}
use mbp_t05_child_lock.Float
use mbp_t05_child_lock.Types.{ChildLockState, cl_off, cl_on, cl_other}
use mbp_t05_child_lock.Decision
use mbp_t05_child_lock.Decision.{
  DecisionInput, driver_req_off, unlock_inhibit_speed_kmh, decide_child_lock_state,
}
use mbp_t05_child_lock.Decision.Rules.{IsCalm}
use mbp_t05_child_lock.Decision.Safety.{at}
use mbp_t05_child_lock.Protection
use mbp_t05_child_lock.Protection.Actions.{IsAlarm}
use mbp_t05_child_lock.Persistence
use mbp_t05_child_lock.Persistence.{WriteCallback, ReadCallback, SyncCallback}
use mbp_t05_child_lock.System.LockSetter.{LockSetter, either, drive, SomeOpens, drive-keeps}

-- F-02 has an enumeration of its own for the lock; the conversions keep the value.
abbrev pub own : ChildLockState → Decision.ChildLockState
own cl_off = Decision.cl_off
own cl_on = Decision.cl_on
own (cl_other n) = Decision.cl_other n

abbrev pub shared : Decision.ChildLockState → ChildLockState
shared Decision.cl_off = cl_off
shared Decision.cl_on = cl_on
shared (Decision.cl_other n) = cl_other n

-- F-02 sets the lock to its target.
abbrev pub decided : DecisionInput → ChildLockState → ChildLockState
decided i s = shared (decide_child_lock_state (at (own s) i)).target_cl_state

-- A crash, or a driver's request with no fault at no more than 3 km/h.
abbrev pub MayRelease : DecisionInput → Type 0
MayRelease i =
    (i.valid_crash_signal ≡ true)
    ⊎ (IsCalm i
        × (i.valid_switch_input ≡ driver_req_off)
        × (Float.le i.vehicle_speed_kmh unlock_inhibit_speed_kmh ≡ true))

pub decided_keeps : (i : DecisionInput) → (decided i cl_on ≡ cl_on) ⊎ MayRelease i
unfolding decide_child_lock_state
decided_keeps i = ground arith

abbrev pub decision : LockSetter
decision = record {
  Input = DecisionInput;
  target = decided;
  MayOpen = MayRelease;
  keeps = decided_keeps;
}

-- F-08 sets the lock to its target.
abbrev pub set_by : Option Protection.Output → ChildLockState → ChildLockState
set_by none s = s
set_by (some o) s = o.target_cl_state

abbrev pub protected : Protection.Input × Protection.Output → ChildLockState → ChildLockState
protected (i, p) s = set_by (Protection.run (some (record i { current_cl_state = s })) (some p)) s

pub protected_keeps : (i : Protection.Input × Protection.Output) → (protected i cl_on ≡ cl_on) ⊎ ⊥
unfolding Protection.run
protected_keeps (i, p) = inl (ground arith)

abbrev pub protection : LockSetter
protection = record {
  Input = Protection.Input × Protection.Output;
  target = protected;
  MayOpen = λ i. ⊥;
  keeps = protected_keeps;
}

module _ {E : Type 0} (write : WriteCallback E) (read : ReadCallback E) (sync : SyncCallback E)
    (memory : Persistence.Manager E) where
  -- F-05 sets the lock by its synchronisation, to the state that it has restored.
  abbrev pub synchronised :
      Option (Bool × Option Persistence.Result × E) → ChildLockState → ChildLockState
  synchronised (some (handled, some r, e)) s = if r.sync_requested then r.restored_cl_state else s
  synchronised (some (handled, none, e)) s = s
  synchronised none s = s

  abbrev pub woken : Persistence.Result × E → ChildLockState → ChildLockState
  woken (r, e) s =
      synchronised
        (Persistence.handle_ignition_on
          (Persistence.init (some memory) (
            some (record {
              write_persisted_state = some write;
              read_persisted_state = some read;
              request_door_ecu_sync = some sync;
            }))).1
          (some r) e)
        s

  -- The memory delivers, as available and valid, that the lock was off.
  abbrev pub MayRestoreOff : Persistence.Result × E → Type 0
  MayRestoreOff (r, e) =
      let reply = (read cl_off false e).0 in
      (reply.available ≡ true) × (reply.is_valid ≡ true) × (reply.state ≡ cl_off)

  pub woken_keeps : (i : Persistence.Result × E) → (woken i cl_on ≡ cl_on) ⊎ MayRestoreOff i
  unfolding Persistence.handle_ignition_on Persistence.init
  woken_keeps (r, e) = ground arith

  abbrev pub restoration : LockSetter
  restoration = record {
    Input = Persistence.Result × E;
    target = woken;
    MayOpen = MayRestoreOff;
    keeps = woken_keeps;
  }

  abbrev pub door_lock : LockSetter
  door_lock = either decision (either protection restoration)

  -- Nothing else opens the lock: after any interleaving of decisions of F-02, cycles of F-08 and wakes
  -- of F-05, over any inputs and callbacks, a lock that was on is on, unless one of the decisions had
  -- a crash, or a driver's request with no fault at no more than 3 km/h, or one of the wakes read an
  -- available and valid state off.
  pub lock_stays_on :
      (is : List door_lock.Input) → (drive door_lock cl_on is ≡ cl_on) ⊎ SomeOpens door_lock is
  lock_stays_on is = drive-keeps door_lock is

-- Crash and alarm contend: in an alarm of F-08 (ignition on, and the risk invalid or high) during a
-- crash, the component that comes last wins. F-08 after F-02 locks the doors that the crash has
-- opened, and F-02 after F-08 opens them, whatever state the lock was in.
pub crash_and_alarm_contend :
    (i : DecisionInput) (j : Protection.Input) (p : Protection.Output) (s : ChildLockState)
    → i.valid_crash_signal ≡ true
    → IsAlarm j
    → (protected (j, p) (decided i s) ≡ cl_on) × (decided i (protected (j, p) s) ≡ cl_off)
unfolding Protection.run decide_child_lock_state
crash_and_alarm_contend i j p s crashed alarm = ground arith
