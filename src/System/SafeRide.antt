-- ===== src/System/SafeRide.antt =====
-- The loop of F-01, F-02, F-07 and F-08 while the vehicle rolls.
use mbp_t05_child_lock.Base.{
  ◌≡◌, ◌≢◌, ◌⊎◌, ◌↔◌, ◌∙◌, ap, Bool, true, none, some, List, [], ◌∷◌, arith,
}
use mbp_t05_child_lock.Types.{cl_on, ign_on, request_off, event_flag_rear_door_handle}
use mbp_t05_child_lock.InputMonitor.{RawInput, ValidatedOutput, process}
use mbp_t05_child_lock.Decision
use mbp_t05_child_lock.Decision.{unlock_inhibit_speed_kmh}
use mbp_t05_child_lock.OpenBlock
use mbp_t05_child_lock.DoorEcu
use mbp_t05_child_lock.DoorEcu.{command_cl_on}
use mbp_t05_child_lock.Persistence.{
  WriteCallback, ReadCallback, SyncCallback, Manager, Result, handle_ignition_off,
  handle_ignition_on,
}
use mbp_t05_child_lock.Persistence.PowerCycle.{Nvm, manager_of}
use mbp_t05_child_lock.System.HandleBlock.{locked_blocks}
use mbp_t05_child_lock.System.Restoration.{Link, wakes_locked}
use mbp_t05_child_lock.System.Trip.{IsRolling}
use mbp_t05_child_lock.System.Verdict.{verdict}
use mbp_t05_child_lock.System.Vehicle.{Signals, Vehicle, Ride}
use mbp_t05_child_lock.System.Plan.{Plan, plan_of, follow, plan_after, loop_follows_plan}

-- The vehicle rolls in every cycle.
abbrev pub AllRolling : List Signals → Type 0
AllRolling [] = Unit
AllRolling (g ∷ gs) = IsRolling g.raw × AllRolling gs

-- While it rolls, no verdict is to open, and without a request to open the verdict is to lock.
rolling_verdict :
    (raw : RawInput) (faulty : Bool)
    → IsRolling raw
    → ((verdict raw faulty ≡ some Decision.cl_on) ⊎ (verdict raw faulty ≡ none))
      × (raw.switch_request ≢ request_off → verdict raw faulty ≡ some Decision.cl_on)
rolling_verdict raw faulty r = ground (arith, r.no_crash)

follow_keeps :
    (p : Plan) (g : Signals) → IsRolling g.raw → p.lock ≡ cl_on → (follow p g).lock ≡ cl_on
unfolding follow
follow_keeps p g r locked = ground (arith, (rolling_verdict g.raw g.faulty r).0)

follow_locks :
    (p : Plan) (g : Signals)
    → IsRolling g.raw
    → g.raw.switch_request ≢ request_off
    → (follow p g).lock ≡ cl_on
unfolding follow
follow_locks p g r no_request = rw ((rolling_verdict g.raw g.faulty r).1 no_request) (ground arith)

plan_stays_locked :
    (p : Plan) (gs : List Signals) → AllRolling gs → p.lock ≡ cl_on → (plan_after p gs).lock ≡ cl_on
unfolding plan_after
plan_stays_locked p [] rs locked = locked
plan_stays_locked p (g ∷ gs) (r, rs) locked =
    plan_stays_locked (follow p g) gs rs (follow_keeps p g r locked)

-- A vehicle that drives off, and rolls on, is locked.
pub rolling_vehicle_locked :
    {v w : Vehicle} (g : Signals) (gs : List Signals)
    → IsRolling g.raw
    → g.raw.switch_request ≢ request_off
    → AllRolling gs
    → Ride v (g ∷ gs) w
    → w.lock ≡ cl_on
unfolding plan_after
rolling_vehicle_locked {v} g gs r no_request rs ride =
    ap (λ (p : Plan). p.lock) (loop_follows_plan (g ∷ gs) ride)
    ∙ plan_stays_locked (follow (plan_of v) g) gs rs (follow_locks (plan_of v) g r no_request)

-- If the loop of F-01, F-02, F-07 and F-08 begins with a cycle in which the vehicle rolls and the driver
-- does not ask to open, and it rolls in all later cycles, then in a cycle of F-01 with the ignition on
-- and the inner handle pulled, F-04, given the handle event of F-01 and the lock at the end of the
-- loop, handles the event and blocks the request, whatever lock and context there were at first,
-- whatever the driver asks for later, whatever is behind the vehicle, and whichever faults come and
-- go.
pub rolling_vehicle_blocks_handle :
    {v w : Vehicle} (g : Signals) (gs : List Signals) (pull : RawInput)
    (validated : ValidatedOutput) (i : OpenBlock.Input) (output : OpenBlock.Output)
    → IsRolling g.raw
    → g.raw.switch_request ≢ request_off
    → AllRolling gs
    → Ride v (g ∷ gs) w
    → pull.ignition_state ≡ ign_on
    → pull.rear_door_inner_handle_active ≡ true
    → ((i.rear_door_inner_handle_event ≡ true)
        ↔ ((process pull validated).event_flags ≡ event_flag_rear_door_handle))
    → i.current_cl_state ≡ w.lock
    → (o : OpenBlock.Output) × (OpenBlock.handle_event (some i) (some output) ≡ (true, some o))
      × (o.open_request_block ≡ true)
rolling_vehicle_blocks_handle g gs pull validated i output r no_request rs ride on pulled joined
      lock =
    locked_blocks pull validated i output on pulled joined
      (lock ∙ rolling_vehicle_locked g gs r no_request rs ride)

module _ {E : Type 0} (write : WriteCallback E) (read : ReadCallback E) (sync : SyncCallback E)
    (nvm : Nvm write read) (link : Link sync) where
  open nvm use {stored}
  open link use {last}

  -- If the loop of F-01, F-02, F-07 and F-08 begins with a cycle in which the vehicle rolls and the
  -- driver does not ask to open, and it rolls in all later cycles, and F-05 saves the lock at its end
  -- with success at ignition off, over a memory that keeps what was written, then the next ignition on
  -- restores the lock on, and, with a synchronisation that goes through F-03, leaves the Door ECU with
  -- the command to lock; whatever lock and context there were at first, whatever the driver asks for
  -- later, whatever is behind the vehicle, whichever faults come and go, and even if the environment
  -- has changed while the ignition was off in everything but what is stored.
  pub rolling_vehicle_wakes_locked :
      {v w : Vehicle} (g : Signals) (gs : List Signals) (before after : Manager E) (r r' : Result)
      (e : E)
      → IsRolling g.raw
      → g.raw.switch_request ≢ request_off
      → AllRolling gs
      → Ride v (g ∷ gs) w
      → (saved : Result) (off on : E)
      → handle_ignition_off (manager_of write read sync nvm (some before)) w.lock (some r) e
        ≡ some (true, some saved, off)
      → saved.persist_succeeded ≡ true
      → stored on ≡ stored off
      → (restored : Result) × (end : E) × (o : DoorEcu.Output) × (handle_ignition_on
            (manager_of write read sync nvm (some after))
            (some r')
            on
          ≡ some (true, some restored, end))
        × (restored.restored_cl_state ≡ cl_on)
        × (last end ≡ some o)
        × (o.child_lock_command ≡ command_cl_on)
  rolling_vehicle_wakes_locked {v} {w} g gs before after r r' e rolls no_request rs ride =
      wakes_locked write read sync nvm link before after w.lock r r' e
        (rolling_vehicle_locked g gs rolls no_request rs ride)
