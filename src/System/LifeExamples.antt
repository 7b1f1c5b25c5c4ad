-- ===== src/System/LifeExamples.antt =====
-- The theorems on the life of a car, at a locked car: it is parked, its memory wears out, it is reset,
-- parked again in vain, and driven off with a threat behind.
use mbp_t05_child_lock.Base.{◌≡◌, refl, ◌⊎◌, inl, true, false, none, some, List, [], ◌∷◌}
use mbp_t05_child_lock.Float.{le, lt}
use mbp_t05_child_lock.Types.{ChildLockState, cl_off, cl_on}
use mbp_t05_child_lock.RearRisk
use mbp_t05_child_lock.RearRisk.Phase.{next_phase, step, idle}
use mbp_t05_child_lock.RearRisk.Cycle.{fresh}
use mbp_t05_child_lock.Persistence
use mbp_t05_child_lock.Persistence.Restore.{outcome}
use mbp_t05_child_lock.Persistence.PowerCycle.{manager_of}
use mbp_t05_child_lock.Persistence.LifetimeExamples.{
  Bench, write, read, sync, bench_Nvm, bench_Lossless, garbage, used, empty, kept, worn,
}
use mbp_t05_child_lock.System.VehicleExamples.{vehicle, held}
use mbp_t05_child_lock.System.RideExamples.{first}
use mbp_t05_child_lock.System.Vehicle.{Vehicle, some-Cycles}
use mbp_t05_child_lock.System.Life.{
  reset, Event, drives, parks, wakes, elapses, Car, Life, ends, next, drive, park, wake, elapse,
}
use mbp_t05_child_lock.System.Plan.{follow}
use mbp_t05_child_lock.System.Course.{Course, advance, course_of, course_after, life_follows_course}
use mbp_t05_child_lock.System.LockedLife.{SomeReleases, locked_life}

abbrev parked : Car Bench
parked = record {
  vehicle = vehicle;
  manager = manager_of write read sync bench_Nvm (some garbage);
  env = empty;
}

-- At a start with nothing stored the lock opens, as F-05 reports.
abbrev released : ChildLockState → ChildLockState
released s = cl_off

-- The car after the reset.
abbrev restarted : Vehicle
restarted = record { lock = cl_on; context = fresh }

abbrev driven : Car Bench
driven = record {
  vehicle = (some-Cycles restarted first held).0;
  manager = manager_of write read sync bench_Nvm (some garbage);
  env = worn;
}

abbrev events : List Event
events = parks true ∷ elapses ∷ wakes reset ∷ parks false ∷ drives first ∷ []

abbrev failed : Persistence.Result
failed = record kept { persist_succeeded = false }

life : Life write read sync bench_Nvm released parked events driven
unfolding Persistence.handle_ignition_off Persistence.handle_reset Persistence.init RearRisk.init
life = next (park used kept true (record worn { is_worn = false }) refl) (
    next (elapse worn refl) (
      next
        (wake reset garbage vehicle.context fresh used (outcome Persistence.restored cl_on true)
          true worn refl refl)
        (next (park used failed true worn refl)
          (next (drive (some-Cycles restarted first held).1) ends))))

life_follows_course_example :
    course_of write read sync bench_Nvm driven
    ≡ course_after released (course_of write read sync bench_Nvm parked) events
life_follows_course_example =
    life_follows_course write read sync bench_Nvm bench_Lossless released events garbage refl tt
      life

locked_life_example :
    ((driven.vehicle.lock ≡ cl_on) × ((driven.env.cell ≡ none) ⊎ (driven.env.cell ≡ some cl_on)))
    ⊎ SomeReleases true events
locked_life_example =
    locked_life write read sync bench_Nvm bench_Lossless released events garbage refl refl
      (inl refl) life

-- A reset on the way, after the lock was saved off: the cycle locks, the reset takes back what was saved.
abbrev saved_off : Course
saved_off = record { plan = record { lock = cl_off; phase = idle }; saved = some cl_off }

locks_on_the_way : (course_after released saved_off (drives first ∷ [])).plan.lock ≡ cl_on
unfolding course_after advance follow next_phase step RearRisk.is_input_valid
    RearRisk.is_raw_threat_active le lt
locks_on_the_way = refl

reset_takes_back :
    (course_after released saved_off (drives first ∷ wakes reset ∷ [])).plan.lock ≡ cl_off
unfolding course_after advance
reset_takes_back = refl
