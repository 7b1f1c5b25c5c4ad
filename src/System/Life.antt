-- ===== src/System/Life.antt =====
-- The life of a car: cycles of F-01, F-02, F-07 and F-08 in one loop, saves of F-05 at ignition off,
-- and wakes of F-05 at ignition on or after a reset, with F-07 initialised anew.
use mbp_t05_child_lock.Base.{◌≡◌, Bool, Option, some, List, [], ◌∷◌, if◌then◌else◌}
use mbp_t05_child_lock.Types.{ChildLockState}
use mbp_t05_child_lock.RearRisk
use mbp_t05_child_lock.Persistence.{
  WriteCallback, ReadCallback, SyncCallback, Manager, Result, Outcome, handle_ignition_off,
  handle_ignition_on, handle_reset,
}
use mbp_t05_child_lock.Persistence.PowerCycle.{Nvm, manager_of}
use mbp_t05_child_lock.System.Vehicle.{Signals, Vehicle, Cycles}

-- What F-05 wakes on.
pub data Trigger : Type 0 where
  ignition_on reset : Trigger

-- What happens to a car. A save shows whether it succeeded.
pub data Event : Type 0 where
  drives : Signals → Event
  parks : Bool → Event
  wakes : Trigger → Event
  elapses : Event

pub record Car (E : Type 0) : Type 0 where
  pub vehicle : Vehicle
  pub manager : Option (Manager E)
  pub env : E

-- F-05 sets the lock by its synchronisation. What becomes of the lock at a start without one, the
-- sources leave open: F-05 then reports the state off, but asks for no synchronisation with it. The
-- rule for it is an argument, `unrestored`: it may keep the lock, or set it to the off reported.
abbrev pub lock_after : (ChildLockState → ChildLockState) → Result → ChildLockState → ChildLockState
lock_after unrestored o s = if o.sync_requested then o.restored_cl_state else unrestored s

module _ {E : Type 0} where
  -- The handler for a trigger.
  abbrev pub restore_on : Trigger → Option (Manager E) → Option Result → E → Outcome E
  restore_on ignition_on = handle_ignition_on
  restore_on reset = handle_reset

module _ {E : Type 0} (write : WriteCallback E) (read : ReadCallback E) (sync : SyncCallback E)
    (nvm : Nvm write read) (unrestored : ChildLockState → ChildLockState) where
  open nvm use {stored}

  -- One step. F-05 saves the lock of the car; a wake comes after a start over any memory of the
  -- manager and of F-07; the environment may change at any time in all but what is stored.
  pub data Step (u : Car E) : Event → Car E → Type 0 where
    drive :
        {g : Signals} {v : Vehicle}
        → Cycles u.vehicle g v
        → Step u (drives g) (record u { vehicle = v })
    park :
        (r o : Result) (handled : Bool) (e : E)
        → handle_ignition_off u.manager u.vehicle.lock (some r) u.env ≡ some (handled, some o, e)
        → Step u (parks o.persist_succeeded) (record u { env = e })
    wake :
        (t : Trigger) (memory : Manager E) (context started : RearRisk.Context) (r o : Result)
        (handled : Bool) (e : E)
        → RearRisk.init (some context) ≡ some started
        → restore_on t (manager_of write read sync nvm (some memory)) (some r) u.env
          ≡ some (handled, some o, e)
        → Step u (wakes t) (record {
          vehicle = record { lock = lock_after unrestored o u.vehicle.lock; context = started };
          manager = manager_of write read sync nvm (some memory);
          env = e;
        })
    elapse : (e : E) → stored e ≡ stored u.env → Step u elapses (record u { env = e })

  -- Any number of steps.
  pub data Life : Car E → List Event → Car E → Type 0 where
    ends : {u : Car E} → Life u [] u
    next :
        {u v w : Car E} {event : Event} {events : List Event}
        → Step u event v
        → Life v events w
        → Life u (event ∷ events) w
