-- ===== src/Persistence.antt =====
-- src/F05_StatePersistenceManager.c and its header. A pointer is an `Option`, NULL is `none`.
-- The callbacks of the configuration are not part of the sources: they are functions over a type
-- `E` of environments, which stands for the non-volatile memory and the Door ECU. A handler gives
-- its result, what the result pointer holds, and the environment; it gives `none` where the code
-- would call through NULL or read through NULL.
pub mod Defined
pub mod Restore
pub mod PowerCycle
pub mod Lifetime
pub mod LastSaved
mod Examples
mod UnitTests
pub mod LifetimeExamples
use mbp_t05_child_lock.Base.{
  Bool, true, false, not, ◌&&◌, ◌||◌, Option, none, some, is_null, if◌then◌else◌,
}
use mbp_t05_child_lock.Types.{ChildLockState, cl_off, is_cl_off, is_cl_on}

pub data RestoreStatus : Type 0 where
  not_requested restored unavailable invalid error : RestoreStatus

-- What the read callback answers, and what it leaves in its two out parameters.
pub record ReadReply : Type 0 where
  pub available : Bool
  pub state : ChildLockState
  pub is_valid : Bool

abbrev pub WriteCallback : Type 0 → Type 0
WriteCallback E = ChildLockState → E → Bool × E

-- The callback is given what the out parameters hold when it is called.
abbrev pub ReadCallback : Type 0 → Type 0
ReadCallback E = ChildLockState → Bool → E → ReadReply × E

abbrev pub SyncCallback : Type 0 → Type 0
SyncCallback E = ChildLockState → E → E

pub record Config (E : Type 0) : Type 0 where
  pub write_persisted_state : Option (WriteCallback E)
  pub read_persisted_state : Option (ReadCallback E)
  pub request_door_ecu_sync : Option (SyncCallback E)

pub record Result : Type 0 where
  pub saved_cl_state : ChildLockState
  pub restored_cl_state : ChildLockState
  pub restore_status : RestoreStatus
  pub persist_succeeded : Bool
  pub sync_requested : Bool

pub record Manager (E : Type 0) : Type 0 where
  pub config : Config E
  pub is_initialized : Bool

unfoldable pub clear_result : Option Result → Option Result
clear_result none = none
clear_result (some result) = some (record result {
  saved_cl_state = cl_off;
  restored_cl_state = cl_off;
  restore_status = not_requested;
  persist_succeeded = false;
  sync_requested = false;
})

unfoldable pub is_valid_state : ChildLockState → Bool
is_valid_state state = is_cl_off state || is_cl_on state

abbrev pub Outcome : Type 0 → Type 0
Outcome E = Option (Bool × Option Result × E)

module _ {E : Type 0} where
  unfoldable pub has_valid_config : Option (Config E) → Bool
  has_valid_config none = false
  has_valid_config (some c) =
      not (is_null c.write_persisted_state)
      && not (is_null c.read_persisted_state)
      && not (is_null c.request_door_ecu_sync)

  unfoldable pub is_ready : Option (Manager E) → Option Result → Bool
  is_ready none result = false
  is_ready (some manager) none = false
  is_ready (some manager) (some result) = manager.is_initialized

  -- The second `if` of `init`, over the manager that the first one has marked.
  init_marked : Manager E → Option (Config E) → Bool × Option (Manager E)
  init_marked manager none = (false, some manager)
  init_marked manager (some config) =
      if has_valid_config (some config)
      then (true, some (record manager { config = config; is_initialized = true }))
      else (false, some manager)

  unfoldable pub init : Option (Manager E) → Option (Config E) → Bool × Option (Manager E)
  unfolding has_valid_config init_marked
  init none config = (false, none)
  init (some manager) config = init_marked (record manager { is_initialized = false }) config

  persist : Option (WriteCallback E) → ChildLockState → Result → E → Outcome E
  persist none state result e = none
  persist (some write) state result e =
      let (succeeded, e') = write state e in
      some
        (true, some (record result { saved_cl_state = state; persist_succeeded = succeeded }), e')

  save_ready : Option (Manager E) → ChildLockState → Option Result → E → Outcome E
  save_ready none state result e = none
  save_ready (some manager) state none e = none
  save_ready (some manager) state (some result) e =
      if is_valid_state state
      then persist manager.config.write_persisted_state state result e
      else some (false, some result, e)

  unfoldable pub handle_ignition_off :
      Option (Manager E) → ChildLockState → Option Result → E → Outcome E
  unfolding clear_result is_ready is_valid_state persist save_ready
  handle_ignition_off manager state result e =
      let cleared = clear_result result in
      if is_ready manager cleared
      then save_ready manager state cleared e
      else some (false, cleared, e)

  synchronise : Option (SyncCallback E) → ChildLockState → Result → E → Outcome E
  synchronise none state result e = none
  synchronise (some sync) state result e = some (
    true,
    some (record result {
      restored_cl_state = state;
      restore_status = restored;
      sync_requested = true;
    }),
    sync state e,
  )

  -- The branches on what was read.
  restore_read : Option (SyncCallback E) → Result → ReadReply × E → Outcome E
  restore_read sync result (reply, e) =
      if not reply.available
      then some (true, some (record result { restore_status = unavailable }), e)
      else if not reply.is_valid || not (is_valid_state reply.state)
      then some (true, some (record result { restore_status = invalid }), e)
      else synchronise sync reply.state result e

  read_persisted : Option (ReadCallback E) → Option (SyncCallback E) → Result → E → Outcome E
  read_persisted none sync result e = none
  read_persisted (some read) sync result e = restore_read sync result (read cl_off false e)

  restore_ready : Option (Manager E) → Option Result → E → Outcome E
  restore_ready none result e = none
  restore_ready (some manager) none e = none
  restore_ready (some manager) (some result) e =
      read_persisted manager.config.read_persisted_state manager.config.request_door_ecu_sync result
        e

  unfoldable pub handle_restore : Option (Manager E) → Option Result → E → Outcome E
  unfolding clear_result is_ready is_valid_state synchronise restore_read read_persisted
      restore_ready
  handle_restore manager result e =
      let cleared = clear_result result in
      if is_ready manager cleared then restore_ready manager cleared e else some (false, cleared, e)

  unfoldable pub handle_ignition_on : Option (Manager E) → Option Result → E → Outcome E
  unfolding handle_restore
  handle_ignition_on manager result e = handle_restore manager result e

  unfoldable pub handle_reset : Option (Manager E) → Option Result → E → Outcome E
  unfolding handle_restore
  handle_reset manager result e = handle_restore manager result e
