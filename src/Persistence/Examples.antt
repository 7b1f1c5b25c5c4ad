-- ===== src/Persistence/Examples.antt =====
-- Runs of F-05 over a memory cell, and its theorems at concrete inputs.
use mbp_t05_child_lock.Base.{
  ◌≡◌, refl, ◌≢◌, ◌&&◌, ◌⊎◌, inr, not, true, false, Option, none, some, List, [], ◌∷◌,
}
use mbp_t05_child_lock.Types.{ChildLockState, cl_off, cl_on, cl_other}
use mbp_t05_child_lock.Persistence.{
  WriteCallback, ReadCallback, SyncCallback, ReadReply, Config, Manager, Result, Outcome,
  not_requested, restored, unavailable, invalid, has_valid_config, init, handle_ignition_off,
  handle_ignition_on, handle_reset, handle_restore,
}
use mbp_t05_child_lock.Persistence.Defined.{handlers_defined}
use mbp_t05_child_lock.Persistence.Restore.{
  IsUsable, outcome, handle_restore_cases, handle_ignition_off_cases,
}
use mbp_t05_child_lock.Persistence.PowerCycle.{Nvm, manager_of, power_cycle}

-- A cell, and the synchronisations so far.
record Bench : Type 0 where
  cell : Option ChildLockState
  synced : List ChildLockState

abbrev write : WriteCallback Bench
write s e = (true, record e { cell = some s })

abbrev reply : Option ChildLockState → ReadReply
reply none = record { available = false; state = cl_off; is_valid = false }
reply (some s) = record { available = true; state = s; is_valid = true }

abbrev read : ReadCallback Bench
read t v e = (reply e.cell, e)

abbrev sync : SyncCallback Bench
sync s e = record e { synced = s ∷ e.synced }

cell-Nvm : Nvm write read
cell-Nvm = record {
  stored = λ e. e.cell;
  write_stores = λ s e done. refl;
  read_delivers = λ s t v e there. rw there;
}

abbrev config : Config Bench
config = record {
  write_persisted_state = some write;
  read_persisted_state = some read;
  request_door_ecu_sync = some sync;
}

-- A manager in memory that nobody has initialised, and one that is ready.
abbrev garbage : Manager Bench
garbage = record {
  config = record {
    write_persisted_state = none;
    read_persisted_state = some read;
    request_door_ecu_sync = none;
  };
  is_initialized = true;
}

abbrev ready : Manager Bench
ready = record { config = config; is_initialized = true }

abbrev used : Result
used = record {
  saved_cl_state = cl_other 3;
  restored_cl_state = cl_on;
  restore_status = restored;
  persist_succeeded = true;
  sync_requested = true;
}

abbrev bench : Bench
bench = record { cell = some (cl_other 0); synced = [] }

refuses_invalid :
    handle_ignition_on (some ready) (some used) bench
    ≡ some (true, some (outcome invalid cl_off false), bench)
unfolding handle_ignition_on
refuses_invalid = refl

calls_through_null : handle_ignition_off (some garbage) cl_on (some used) bench ≡ none
unfolding handle_ignition_off
calls_through_null = refl

handlers_defined_example :
    let (done, after) = init (some garbage) (some config) in
    (done ≡ (not false && has_valid_config (some config)))
    × (handle_ignition_off after cl_on (some used) bench ≢ none)
    × (handle_ignition_on after (some used) bench ≢ none)
    × (handle_reset after (some used) bench ≢ none)
handlers_defined_example = handlers_defined (some garbage) (some config) cl_on (some used) bench

abbrev bench_on : Bench
bench_on = record { cell = some cl_on; synced = [] }

handle_restore_cases_example :
    let run = handle_restore (some ready) (some used) bench_on in
    (IsUsable (reply (some cl_on))
      → run ≡ some (true, some (outcome restored cl_on true), sync cl_on bench_on))
    × (true ≡ true
        → ¬ IsUsable (reply (some cl_on))
        → run ≡ some (true, some (outcome invalid cl_off false), bench_on))
    × (true ≡ false → run ≡ some (true, some (outcome unavailable cl_off false), bench_on))
handle_restore_cases_example = handle_restore_cases ready used read sync bench_on refl refl refl

handle_ignition_off_cases_example :
    let run = handle_ignition_off (some ready) cl_on (some used) bench in
    let cleared = outcome not_requested cl_off false in
    ((cl_on ≡ cl_off) ⊎ (cl_on ≡ cl_on)
      → run
        ≡ some (
          true,
          some (record cleared { saved_cl_state = cl_on; persist_succeeded = true }),
          bench_on,
        ))
    × (cl_on ≢ cl_off → cl_on ≢ cl_on → run ≡ some (false, some cleared, bench))
handle_ignition_off_cases_example = handle_ignition_off_cases ready used write cl_on bench refl refl

-- The lock is on at ignition off; the Door ECU has been synchronised by others meanwhile.
power_cycle_example :
    let on = record bench_on { synced = cl_off ∷ [] } in
    let woken : Outcome Bench = some (true, some (outcome restored cl_on true), sync cl_on on) in
    (handle_ignition_on (manager_of write read sync cell-Nvm (some garbage)) (some used) on ≡ woken)
    × (handle_reset (manager_of write read sync cell-Nvm (some garbage)) (some used) on ≡ woken)
unfolding handle_ignition_off init cell-Nvm
power_cycle_example =
    power_cycle write read sync cell-Nvm garbage garbage cl_on used used bench (inr refl)
      (record (outcome not_requested cl_off false) {
        saved_cl_state = cl_on;
        persist_succeeded = true;
      })
      bench_on (record bench_on { synced = cl_off ∷ [] }) refl refl refl
