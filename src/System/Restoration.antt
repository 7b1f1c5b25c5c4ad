-- ===== src/System/Restoration.antt =====
-- F-05 into F-03: from the saved state to the command for the Door ECU.
use mbp_t05_child_lock.Base.{◌≡◌, ◌↔◌, ◌⊎◌, inr, ap, ◌∙◌, Bool, true, false, refl, Option, some}
use mbp_t05_child_lock.Types.{ChildLockState, cl_off, cl_on}
use mbp_t05_child_lock.DoorEcu
use mbp_t05_child_lock.DoorEcu.{state_restore, command_cl_off, command_cl_on, handle_command}
use mbp_t05_child_lock.DoorEcu.Handling.{handle_command-Reports, handle_command_answers}
use mbp_t05_child_lock.Persistence.{
  WriteCallback, ReadCallback, SyncCallback, Manager, Result, handle_ignition_off,
  handle_ignition_on,
}
use mbp_t05_child_lock.Persistence.PowerCycle.{Nvm, manager_of, power_cycle}

-- The command input for a restored state.
abbrev pub resync : ChildLockState → Bool → DoorEcu.Input
resync s ack = record { target_cl_state = s; decision_reason = state_restore; door_ecu_ack = ack }

-- A synchronisation that goes through F-03: `last` is what F-03 has written last.
pub record Link {E : Type 0} (sync : SyncCallback E) : Type 0 where
  pub last : E → Option DoorEcu.Output
  pub ack : E → Bool
  pub before : E → DoorEcu.Output
  pub forwards :
      (s : ChildLockState) (e : E)
      → last (sync s e) ≡ (handle_command (some (resync s (ack e))) (some (before e))).1

module _ {E : Type 0} (write : WriteCallback E) (read : ReadCallback E) (sync : SyncCallback E)
    (nvm : Nvm write read) (link : Link sync) where
  open nvm use {stored}
  open link use {last, ack, before, forwards}

  resync_commands :
      (s : ChildLockState) (e : E)
      → (s ≡ cl_off) ⊎ (s ≡ cl_on)
      → (o : DoorEcu.Output) × (last (sync s e) ≡ some o)
        × ((o.child_lock_command ≡ command_cl_off) ↔ (s ≡ cl_off))
        × ((o.child_lock_command ≡ command_cl_on) ↔ (s ≡ cl_on))
  resync_commands s e valid =
      let accepted =
        (handle_command_answers (some (resync s (ack e))) (some (before e))).0.1
          (valid, λ n z. cc) in
      let (o, ran, fits) = handle_command-Reports (resync s (ack e)) (before e) accepted in
      (o, forwards s e ∙ ap (λ q. q.1) ran, fits.off_command, fits.on_command)

  -- The Door ECU follows a power cycle: over a memory that keeps what was written, and with a
  -- synchronisation that goes through F-03, if a lock state was saved at ignition off with success,
  -- the next ignition on succeeds and leaves the Door ECU with the command for that state, even if
  -- the environment has changed meanwhile in everything but what is stored.
  pub power_cycle_commands :
      (before after : Manager E) (state : ChildLockState) (r r' : Result) (e : E)
      → (state ≡ cl_off) ⊎ (state ≡ cl_on)
      → (saved : Result) (off on : E)
      → handle_ignition_off (manager_of write read sync nvm (some before)) state (some r) e
        ≡ some (true, some saved, off)
      → saved.persist_succeeded ≡ true
      → stored on ≡ stored off
      → (restored : Result) × (end : E) × (o : DoorEcu.Output) × (handle_ignition_on
            (manager_of write read sync nvm (some after))
            (some r')
            on
          ≡ some (true, some restored, end))
        × (restored.restored_cl_state ≡ state)
        × (last end ≡ some o)
        × ((o.child_lock_command ≡ command_cl_off) ↔ (state ≡ cl_off))
        × ((o.child_lock_command ≡ command_cl_on) ↔ (state ≡ cl_on))
  power_cycle_commands before after state r r' e valid saved off on did succeeded kept =
      let (woken, reset) =
        power_cycle write read sync nvm before after state r r' e valid saved off on did succeeded
          kept in
      let (o, ran, commands_off, commands_on) =
        resync_commands state (read cl_off false on).1 valid in
      (_, _, o, woken, refl, ran, commands_off, commands_on)

  -- For a lock that is on: the next ignition on restores it on, and leaves the Door ECU with the
  -- command to lock.
  pub wakes_locked :
      (before after : Manager E) (state : ChildLockState) (r r' : Result) (e : E)
      → state ≡ cl_on
      → (saved : Result) (off on : E)
      → handle_ignition_off (manager_of write read sync nvm (some before)) state (some r) e
        ≡ some (true, some saved, off)
      → saved.persist_succeeded ≡ true
      → stored on ≡ stored off
      → (restored : Result) × (end : E) × (o : DoorEcu.Output) × (handle_ignition_on
            (manager_of write read sync nvm (some after))
            (some r')
            on
          ≡ some (true, some restored, end))
        × (restored.restored_cl_state ≡ cl_on)
        × (last end ≡ some o)
        × (o.child_lock_command ≡ command_cl_on)
  wakes_locked before after state r r' e locked saved off on did done kept =
      let (restored, end, o, woken, same, ran, commands_off, commands_on) =
        power_cycle_commands before after state r r' e (inr locked) saved off on did done kept in
      (restored, end, o, woken, same ∙ locked, ran, commands_on.1 locked)
