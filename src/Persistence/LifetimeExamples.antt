-- ===== src/Persistence/LifetimeExamples.antt =====
-- A life of F-05 over a memory that wears out, and the theorem on it.
use mbp_t05_child_lock.Base.{
  ◌≡◌, refl, Bool, true, false, Option, none, some, List, [], ◌∷◌, if◌then◌else◌, arith,
}
use mbp_t05_child_lock.Types.{ChildLockState, cl_off, cl_on, cl_other}
use mbp_t05_child_lock.Persistence.{
  WriteCallback, ReadCallback, SyncCallback, ReadReply, Manager, Result, restored, not_requested,
  handle_ignition_on, handle_reset, handle_ignition_off, init,
}
use mbp_t05_child_lock.Persistence.Restore.{outcome}
use mbp_t05_child_lock.Persistence.PowerCycle.{Nvm, manager_of}
use mbp_t05_child_lock.Persistence.Lifetime.{
  Lossless, Seen, saved, other, World, save, restart, elapse, Reach, start, next,
}
use mbp_t05_child_lock.Persistence.LastSaved.{wake_restores_last}

-- A cell that may be worn, so that nothing can be written any more.
pub record Bench : Type 0 where
  pub cell : Option ChildLockState
  pub is_worn : Bool

abbrev pub write : WriteCallback Bench
write s e = if e.is_worn then (false, e) else (true, record e { cell = some s })

abbrev reply : Option ChildLockState → ReadReply
reply none = record { available = false; state = cl_off; is_valid = false }
reply (some s) = record { available = true; state = s; is_valid = true }

abbrev pub read : ReadCallback Bench
read t v e = (reply e.cell, e)

abbrev pub sync : SyncCallback Bench
sync s e = e

pub write_stores :
    (s : ChildLockState) (e : Bench) → (write s e).0 ≡ true → (write s e).1.cell ≡ some s
write_stores s e done = ground arith

abbrev pub bench_Nvm : Nvm write read
bench_Nvm = record {
  stored = λ e. e.cell;
  write_stores = write_stores;
  read_delivers = λ s t v e there. rw there;
}

failed_write :
    (s : ChildLockState) (e : Bench) → (write s e).0 ≡ false → (write s e).1.cell ≡ e.cell
failed_write s e failed = ground arith

read_empty :
    (t : ChildLockState) (v : Bool) (e : Bench) → e.cell ≡ none → (read t v e).0.available ≡ false
read_empty t v e empty = rw empty

pub bench_Lossless : Lossless sync bench_Nvm
bench_Lossless = record {
  failed_write = failed_write;
  read_keeps = λ t v e. refl;
  sync_keeps = λ s e. refl;
  read_empty = read_empty;
}

abbrev pub garbage : Manager Bench
garbage = record {
  config = record {
    write_persisted_state = none;
    read_persisted_state = some read;
    request_door_ecu_sync = none;
  };
  is_initialized = true;
}

abbrev pub used : Result
used = outcome restored (cl_other 3) true

abbrev pub empty : Bench
empty = record { cell = none; is_worn = false }

abbrev pub kept : Result
kept = record (outcome not_requested cl_off false) {
  saved_cl_state = cl_on;
  persist_succeeded = true;
}

abbrev lost : Result
lost = record kept { saved_cl_state = cl_off; persist_succeeded = false }

abbrev pub worn : Bench
worn = record { cell = some cl_on; is_worn = true }

-- The lock is saved as on; after a restart the memory wears out, and a save of off fails.
abbrev life : List Seen
life = saved cl_off lost ∷ other ∷ other ∷ saved cl_on kept ∷ []

abbrev last_world : World Bench
last_world = record { manager = manager_of write read sync bench_Nvm (some garbage); env = worn }

lived : Reach write read sync bench_Nvm garbage empty life last_world
unfolding handle_ignition_off init
lived =
    next
      (next
        (next (next start (save cl_on used kept true (record worn { is_worn = false }) refl))
          (restart garbage))
        (elapse worn refl))
      (save cl_off used lost true worn refl)

wake_restores_last_example :
    (e' : Bench) × (handle_ignition_on last_world.manager (some used) worn
      ≡ some (true, some (outcome restored cl_on true), e'))
    × (handle_reset last_world.manager (some used) worn
        ≡ some (true, some (outcome restored cl_on true), e'))
wake_restores_last_example =
    wake_restores_last write read sync bench_Nvm bench_Lossless garbage empty life last_world used
      tt lived
