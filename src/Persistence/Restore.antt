-- ===== src/Persistence/Restore.antt =====
-- What the restore path of F-05 lets through.
use mbp_t05_child_lock.Base.{◌≡◌, ◌↔◌, ◌≢◌, ◌⊎◌, Bool, true, false, Option, some, arith}
use mbp_t05_child_lock.Types.{ChildLockState, cl_off, cl_on}
use mbp_t05_child_lock.Persistence.{
  WriteCallback, ReadCallback, SyncCallback, ReadReply, Manager, Result, RestoreStatus, restored,
  unavailable, invalid, error, not_requested, handle_ignition_off, handle_restore,
}

-- A reply that can be trusted: available, marked valid, and one of the two states.
abbrev pub IsUsable : ReadReply → Type 0
IsUsable reply =
    (reply.available ≡ true)
    × (reply.is_valid ≡ true)
    × ((reply.state ≡ cl_off) ⊎ (reply.state ≡ cl_on))

-- What a restore leaves in the result.
abbrev pub outcome : RestoreStatus → ChildLockState → Bool → Result
outcome status state synced = record {
  saved_cl_state = cl_off;
  restored_cl_state = state;
  restore_status = status;
  persist_succeeded = false;
  sync_requested = synced;
}

module _ {E : Type 0} where
  -- Whatever the callbacks do, a result of the restore path holds one of the two lock states, says
  -- that a synchronisation was requested exactly when it says that a state was restored, and never
  -- has the status `error`.
  pub handle_restore_safe :
      (manager : Option (Manager E)) (result : Option Result) (e e' : E) (handled : Bool)
      (r : Result)
      → handle_restore manager result e ≡ some (handled, some r, e')
      → ((r.restored_cl_state ≡ cl_off) ⊎ (r.restored_cl_state ≡ cl_on))
        × ((r.sync_requested ≡ true) ↔ (r.restore_status ≡ restored))
        × (r.restore_status ≢ error)
  unfolding handle_restore
  handle_restore_safe manager result e e' handled r h = ground arith

  -- With an initialised manager and a result that is not NULL, by what the read callback replies: a
  -- usable state is restored, and the Door ECU is synchronised with it; an unusable one and a
  -- missing one are told apart, the restored state is off, and nothing but the read has touched the
  -- environment.
  pub handle_restore_cases :
      (m : Manager E) (result : Result) (read : ReadCallback E) (sync : SyncCallback E) (e : E)
      → m.is_initialized ≡ true
      → m.config.read_persisted_state ≡ some read
      → m.config.request_door_ecu_sync ≡ some sync
      → let (reply, after_read) = read cl_off false e in
        let run = handle_restore (some m) (some result) e in
        (IsUsable reply
          → run
            ≡ some (true, some (outcome restored reply.state true), sync reply.state after_read))
        × (reply.available ≡ true
            → ¬ IsUsable reply
            → run ≡ some (true, some (outcome invalid cl_off false), after_read))
        × (reply.available ≡ false
            → run ≡ some (true, some (outcome unavailable cl_off false), after_read))
  unfolding handle_restore
  handle_restore_cases m result read sync e ready reads syncs = ground arith

  -- What a request to save does: with an initialised manager and a result that is not NULL, one of
  -- the two lock states is written, once, and the result holds it and whether the write succeeded; a
  -- value that is no lock state is not written, the handler answers false, and the result is cleared.
  pub handle_ignition_off_cases :
      (m : Manager E) (result : Result) (write : WriteCallback E) (state : ChildLockState) (e : E)
      → m.is_initialized ≡ true
      → m.config.write_persisted_state ≡ some write
      → let run = handle_ignition_off (some m) state (some result) e in
        let cleared = outcome not_requested cl_off false in
        ((state ≡ cl_off) ⊎ (state ≡ cl_on)
          → run
            ≡ some (
              true,
              some (record cleared {
                saved_cl_state = state;
                persist_succeeded = (write state e).0;
              }),
              (write state e).1,
            ))
        × (state ≢ cl_off → state ≢ cl_on → run ≡ some (false, some cleared, e))
  unfolding handle_ignition_off
  handle_ignition_off_cases m result write state e ready writes = ground arith
