-- ===== src/Persistence/UnitTests.antt =====
-- The cases of test/test_F05_StatePersistenceManager.cpp, run on the definitions.
use mbp_t05_child_lock.Base.{ℕ, ◌+◌, ◌≡◌, refl, Bool, true, false, none, some}
use mbp_t05_child_lock.Types.{ChildLockState, cl_off, cl_on}
use mbp_t05_child_lock.Persistence.{
  WriteCallback, ReadCallback, SyncCallback, Config, Manager, Result, Outcome, not_requested,
  restored, unavailable, invalid, init, handle_ignition_off, handle_ignition_on, handle_reset,
}
use mbp_t05_child_lock.Persistence.Restore.{outcome}

-- The fake backend of the cases.
record Backend : Type 0 where
  write_return_value : Bool
  read_return_value : Bool
  read_valid_value : Bool
  stored_state : ChildLockState
  last_synced_state : ChildLockState
  write_call_count : ℕ
  read_call_count : ℕ
  sync_call_count : ℕ

abbrev write : WriteCallback Backend
write s e =
    (e.write_return_value, record e { write_call_count = e.write_call_count + 1; stored_state = s })

abbrev read : ReadCallback Backend
read s v e = (
  record { available = e.read_return_value; state = e.stored_state; is_valid = e.read_valid_value },
  record e { read_call_count = e.read_call_count + 1 },
)

abbrev sync : SyncCallback Backend
sync s e = record e { sync_call_count = e.sync_call_count + 1; last_synced_state = s }

abbrev config : Config Backend
config = record {
  write_persisted_state = some write;
  read_persisted_state = some read;
  request_door_ecu_sync = some sync;
}

-- What a manager and a result may hold before.
abbrev memory : Manager Backend
memory = record {
  config = record {
    write_persisted_state = none;
    read_persisted_state = none;
    request_door_ecu_sync = none;
  };
  is_initialized = true;
}

abbrev manager : Manager Backend
manager = record { config = config; is_initialized = true }

abbrev unmarked : Manager Backend
unmarked = record manager { is_initialized = false }

abbrev used : Result
used = record (outcome restored cl_on true) { saved_cl_state = cl_on; persist_succeeded = true }

abbrev cleared : Result
cleared = outcome not_requested cl_off false

abbrev backend : Backend
backend = record {
  write_return_value = true;
  read_return_value = true;
  read_valid_value = true;
  stored_state = cl_off;
  last_synced_state = cl_off;
  write_call_count = 0;
  read_call_count = 0;
  sync_call_count = 0;
}

-- A backend that holds a state, and one that has been read, and synchronised.
abbrev holding : ChildLockState → Backend
holding s = record backend { stored_state = s }

abbrev saved : ChildLockState → Bool → Outcome Backend
saved s done = some (
  true,
  some (record cleared { saved_cl_state = s; persist_succeeded = done }),
  record (holding s) { write_return_value = done; write_call_count = 1 },
)

abbrev synced : ChildLockState → Outcome Backend
synced s = some (
  true,
  some (outcome restored s true),
  record (holding s) { last_synced_state = s; read_call_count = 1; sync_call_count = 1 },
)

abbrev corrupt : Backend
corrupt = record (holding cl_on) { read_valid_value = false }

abbrev rejected : Outcome Backend
rejected = some (false, some cleared, backend)

set_up : init (some memory) (some config) ≡ (true, some manager)
unfolding init
set_up = refl

init_null_manager_returns_false : init none (some config) ≡ (false, none)
unfolding init
init_null_manager_returns_false = refl

init_null_config_returns_false :
    init (some memory) none ≡ (false, some (record memory { is_initialized = false }))
unfolding init
init_null_config_returns_false = refl

init_missing_write_callback_returns_false :
    (init (some memory) (some (record config { write_persisted_state = none })))
    ≡ (false, some (record memory { is_initialized = false }))
unfolding init
init_missing_write_callback_returns_false = refl

init_missing_read_callback_returns_false :
    (init (some memory) (some (record config { read_persisted_state = none })))
    ≡ (false, some (record memory { is_initialized = false }))
unfolding init
init_missing_read_callback_returns_false = refl

init_missing_sync_callback_returns_false :
    (init (some memory) (some (record config { request_door_ecu_sync = none })))
    ≡ (false, some (record memory { is_initialized = false }))
unfolding init
init_missing_sync_callback_returns_false = refl

persist_child_lock_state_on_ignition_off_on :
    handle_ignition_off (some manager) cl_on (some used) backend ≡ saved cl_on true
unfolding handle_ignition_off
persist_child_lock_state_on_ignition_off_on = refl

persist_child_lock_state_on_ignition_off_off :
    handle_ignition_off (some manager) cl_off (some used) backend ≡ saved cl_off true
unfolding handle_ignition_off
persist_child_lock_state_on_ignition_off_off = refl

handle_ignition_off_write_fails_persist_failed :
    handle_ignition_off
      (some manager)
      cl_on
      (some used)
      (record backend { write_return_value = false })
    ≡ saved cl_on false
unfolding handle_ignition_off
handle_ignition_off_write_fails_persist_failed = refl

handle_ignition_off_null_manager_returns_false :
    handle_ignition_off none cl_on (some used) backend ≡ rejected
unfolding handle_ignition_off
handle_ignition_off_null_manager_returns_false = refl

handle_ignition_off_null_result_returns_false :
    handle_ignition_off (some manager) cl_on none backend ≡ some (false, none, backend)
unfolding handle_ignition_off
handle_ignition_off_null_result_returns_false = refl

handle_ignition_off_uninit_manager_returns_false :
    handle_ignition_off (some unmarked) cl_on (some used) backend ≡ rejected
unfolding handle_ignition_off
handle_ignition_off_uninit_manager_returns_false = refl

restore_persisted_state_on_ignition_on_cl_on :
    handle_ignition_on (some manager) (some used) (holding cl_on) ≡ synced cl_on
unfolding handle_ignition_on
restore_persisted_state_on_ignition_on_cl_on = refl

restore_persisted_state_on_ignition_on_cl_off :
    handle_ignition_on (some manager) (some used) backend ≡ synced cl_off
unfolding handle_ignition_on
restore_persisted_state_on_ignition_on_cl_off = refl

handle_unavailable_persisted_state_safely :
    handle_ignition_on (some manager) (some used) (record backend { read_return_value = false })
    ≡ some (
      true,
      some (outcome unavailable cl_off false),
      record backend { read_return_value = false; read_call_count = 1 },
    )
unfolding handle_ignition_on
handle_unavailable_persisted_state_safely = refl

handle_invalid_persisted_state_safely :
    handle_ignition_on (some manager) (some used) corrupt
    ≡ some (true, some (outcome invalid cl_off false), record corrupt { read_call_count = 1 })
unfolding handle_ignition_on
handle_invalid_persisted_state_safely = refl

handle_ignition_on_null_manager_returns_false :
    handle_ignition_on none (some used) backend ≡ rejected
unfolding handle_ignition_on
handle_ignition_on_null_manager_returns_false = refl

handle_ignition_on_null_result_returns_false :
    handle_ignition_on (some manager) none backend ≡ some (false, none, backend)
unfolding handle_ignition_on
handle_ignition_on_null_result_returns_false = refl

handle_ignition_on_uninit_manager_returns_false :
    handle_ignition_on (some unmarked) (some used) backend ≡ rejected
unfolding handle_ignition_on
handle_ignition_on_uninit_manager_returns_false = refl

restore_persisted_state_on_reset :
    handle_reset (some manager) (some used) (holding cl_on) ≡ synced cl_on
unfolding handle_reset
restore_persisted_state_on_reset = refl

handle_invalid_state_on_reset_status_invalid :
    handle_reset (some manager) (some used) corrupt
    ≡ some (true, some (outcome invalid cl_off false), record corrupt { read_call_count = 1 })
unfolding handle_reset
handle_invalid_state_on_reset_status_invalid = refl

handle_reset_null_manager_returns_false : handle_reset none (some used) backend ≡ rejected
unfolding handle_reset
handle_reset_null_manager_returns_false = refl
