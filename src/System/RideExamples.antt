-- ===== src/System/RideExamples.antt =====
-- The theorems on a vehicle that rolls, at concrete signals: a departure at 5 km/h, a request to open on
-- the way with a threat behind, a pulled handle, and a power cycle.
use mbp_t05_child_lock.Base.{◌≡◌, refl, true, false, none, some, List, [], ◌∷◌}
use mbp_t05_child_lock.Float.{le, lt}
use mbp_t05_child_lock.Types.{cl_off, cl_on}
use mbp_t05_child_lock.InputMonitor.{RawInput, process}
use mbp_t05_child_lock.OpenBlock
use mbp_t05_child_lock.DoorEcu
use mbp_t05_child_lock.Persistence
use mbp_t05_child_lock.Persistence.Restore.{outcome}
use mbp_t05_child_lock.Persistence.PowerCycle.{manager_of}
use mbp_t05_child_lock.System.LockExamples.{
  Bench, write, read, sync, bench_Nvm, bench_Link, garbage, used, bench,
}
use mbp_t05_child_lock.System.TripExamples.{
  departing, driving, departing-IsRolling, driving-IsRolling, blank,
}
use mbp_t05_child_lock.System.VehicleExamples.{vehicle, held, threat}
use mbp_t05_child_lock.System.Vehicle.{Signals, Vehicle, Ride, some-Ride}
use mbp_t05_child_lock.System.SafeRide.{
  rolling_vehicle_locked, rolling_vehicle_blocks_handle, rolling_vehicle_wakes_locked,
}

abbrev pub first : Signals
first = record { raw = departing; faulty = false; rear = record { time = 100; input = threat } }

abbrev later : List Signals
later = record { raw = driving; faulty = true; rear = record { time = 700; input = threat } } ∷ []

-- From an unlocked start.
abbrev unlocked : Vehicle
unlocked = record vehicle { lock = cl_off }

abbrev driven : Vehicle
driven = (some-Ride unlocked (first ∷ later) held).0

ride : Ride unlocked (first ∷ later) driven
ride = (some-Ride unlocked (first ∷ later) held).1

abbrev pull : RawInput
pull = record driving { rear_door_inner_handle_active = true }

abbrev pulled : OpenBlock.Input
pulled = record {
  rear_door_inner_handle_event = true;
  current_cl_state = driven.lock;
  door_state_feedback = OpenBlock.closed;
}

abbrev no_block : OpenBlock.Output
no_block = record {
  open_request_block = false;
  driver_notice = OpenBlock.notice_none;
  block_result = OpenBlock.no_event;
}

rolling_vehicle_blocks_handle_example :
    (o : OpenBlock.Output) × (OpenBlock.handle_event (some pulled) (some no_block) ≡ (true, some o))
    × (o.open_request_block ≡ true)
unfolding process le lt
rolling_vehicle_blocks_handle_example =
    rolling_vehicle_blocks_handle first later pull blank pulled no_block departing-IsRolling
      (λ e. cc) (driving-IsRolling, tt) ride refl refl (λ e. refl, λ e. refl) refl

abbrev saved : Persistence.Result
saved = record (outcome Persistence.not_requested cl_off false) {
  saved_cl_state = cl_on;
  persist_succeeded = true;
}

saves :
    Persistence.handle_ignition_off
      (manager_of write read sync bench_Nvm (some garbage))
      driven.lock
      (some used)
      (record { cell = none; ordered = none })
    ≡ some (true, some saved, bench)
unfolding Persistence.handle_ignition_off Persistence.init
saves =
    rw
      (rolling_vehicle_locked first later departing-IsRolling (λ e. cc) (driving-IsRolling, tt)
        ride)
      refl

rolling_vehicle_wakes_locked_example :
    (restored : Persistence.Result) × (end : Bench) × (o : DoorEcu.Output)
    × (Persistence.handle_ignition_on
          (manager_of write read sync bench_Nvm (some garbage))
          (some used)
          bench
        ≡ some (true, some restored, end))
    × (restored.restored_cl_state ≡ cl_on)
    × (end.ordered ≡ some o)
    × (o.child_lock_command ≡ DoorEcu.command_cl_on)
rolling_vehicle_wakes_locked_example =
    rolling_vehicle_wakes_locked write read sync bench_Nvm bench_Link first later garbage garbage
      used used (record { cell = none; ordered = none }) departing-IsRolling (λ e. cc)
      (driving-IsRolling, tt) ride saved bench bench saves refl refl
