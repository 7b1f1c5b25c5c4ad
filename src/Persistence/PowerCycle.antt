-- ===== src/Persistence/PowerCycle.antt =====
-- The round trip of F-05 through a power cycle: saved at ignition off, restored at ignition on.
use mbp_t05_child_lock.Base.{◌≡◌, ◌⊎◌, Bool, true, false, Option, some, arith}
use mbp_t05_child_lock.Types.{ChildLockState, cl_off, cl_on}
use mbp_t05_child_lock.Persistence.{
  WriteCallback, ReadCallback, SyncCallback, Config, Manager, Result, Outcome, restored, init,
  handle_ignition_off, handle_ignition_on, handle_reset,
}

-- A non-volatile memory behind the two callbacks: a write that reports success stores the state,
-- and a read of a stored state delivers it, marked as valid.
pub record Nvm {E : Type 0} (write : WriteCallback E) (read : ReadCallback E) : Type 0 where
  pub stored : E → Option ChildLockState
  pub write_stores :
      (s : ChildLockState) (e : E) → (write s e).0 ≡ true → stored (write s e).1 ≡ some s
  pub read_delivers :
      (s t : ChildLockState) (v : Bool) (e : E)
      → stored e ≡ some s
      → (read t v e).0 ≡ record { available = true; state = s; is_valid = true }

module _ {E : Type 0} (write : WriteCallback E) (read : ReadCallback E) (sync : SyncCallback E)
    (nvm : Nvm write read) where
  open nvm use {stored, write_stores, read_delivers}

  abbrev pub config : Config E
  config = record {
    write_persisted_state = some write;
    read_persisted_state = some read;
    request_door_ecu_sync = some sync;
  }

  -- What `init` makes of any memory of the manager.
  abbrev pub manager_of : Option (Manager E) → Option (Manager E)
  manager_of memory = (init memory (some config)).1

  -- Over a memory that keeps what was written, a state that was saved at ignition off with success is
  -- restored at the next ignition on, and equally after a reset, and the Door ECU is synchronised
  -- with it. The manager is initialised anew in between, over any memory `before` and `after`, and
  -- the environment may change from `off` to `on` in everything but what is stored.
  pub power_cycle :
      (before after : Manager E) (state : ChildLockState) (r r' : Result) (e : E)
      → (state ≡ cl_off) ⊎ (state ≡ cl_on)
      → (saved : Result) (off on : E)
      → handle_ignition_off (manager_of (some before)) state (some r) e
        ≡ some (true, some saved, off)
      → saved.persist_succeeded ≡ true
      → stored on ≡ stored off
      → let woken : Outcome E = some (
        true,
        some (record {
          saved_cl_state = cl_off;
          restored_cl_state = state;
          restore_status = restored;
          persist_succeeded = false;
          sync_requested = true;
        }),
        sync state (read cl_off false on).1,
      ) in
        (handle_ignition_on (manager_of (some after)) (some r') on ≡ woken)
        × (handle_reset (manager_of (some after)) (some r') on ≡ woken)
  unfolding handle_ignition_off handle_ignition_on handle_reset init
  power_cycle before after state r r' e valid saved off on did succeeded kept =
      let there : stored on ≡ some state = ground (arith, write_stores state e) in
      ground (arith, read_delivers state cl_off false on there)
