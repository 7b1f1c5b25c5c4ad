-- ===== src/Persistence/Lifetime.antt =====
-- The whole life of F-05 over a memory: any sequence of saves, wakes, resets and restarts.
use mbp_t05_child_lock.Base.{
  ◌≡◌, Bool, true, false, Option, none, some, List, [], ◌∷◌, if◌then◌else◌,
}
use mbp_t05_child_lock.Types.{ChildLockState, cl_off}
use mbp_t05_child_lock.Persistence.{
  WriteCallback, ReadCallback, SyncCallback, Manager, Result, restored, unavailable,
  handle_ignition_off, handle_ignition_on, handle_reset,
}
use mbp_t05_child_lock.Persistence.Restore.{outcome}
use mbp_t05_child_lock.Persistence.PowerCycle.{Nvm, manager_of}

-- What more is asked of a memory in which nothing is lost: a failed write, a read and a
-- synchronisation leave what is stored, and where nothing is stored, nothing is available.
pub record Lossless {E : Type 0} {write : WriteCallback E} {read : ReadCallback E}
    (sync : SyncCallback E) (nvm : Nvm write read) : Type 0 where
  pub failed_write :
      (s : ChildLockState) (e : E) → (write s e).0 ≡ false → nvm.stored (write s e).1 ≡ nvm.stored e
  pub read_keeps :
      (t : ChildLockState) (v : Bool) (e : E) → nvm.stored (read t v e).1 ≡ nvm.stored e
  pub sync_keeps : (s : ChildLockState) (e : E) → nvm.stored (sync s e) ≡ nvm.stored e
  pub read_empty :
      (t : ChildLockState) (v : Bool) (e : E)
      → nvm.stored e ≡ none
      → (read t v e).0.available ≡ false

-- What a step shows: a save its state and its result.
pub data Seen : Type 0 where
  saved : ChildLockState → Result → Seen
  other : Seen

-- The state that was saved last with success, from what was stored at first; the newest step first.
abbrev pub last_saved : Option ChildLockState → List Seen → Option ChildLockState
last_saved first [] = first
last_saved first (saved s r ∷ h) = if r.persist_succeeded then some s else last_saved first h
last_saved first (other ∷ h) = last_saved first h

-- What a wake reports for what was saved last.
abbrev pub report : Option ChildLockState → Result
report none = outcome unavailable cl_off false
report (some s) = outcome restored s true

pub record World (E : Type 0) : Type 0 where
  pub manager : Option (Manager E)
  pub env : E

module _ {E : Type 0} (write : WriteCallback E) (read : ReadCallback E) (sync : SyncCallback E)
    (nvm : Nvm write read) where
  open nvm use {stored}

  -- One step: a handler that returns, a restart over any memory of the manager, or anything else that
  -- leaves what is stored.
  pub data Step (w : World E) : Seen → World E → Type 0 where
    save :
        (s : ChildLockState) (r o : Result) (handled : Bool) (e : E)
        → handle_ignition_off w.manager s (some r) w.env ≡ some (handled, some o, e)
        → Step w (saved s o) (record w { env = e })
    wake :
        (r o : Result) (handled : Bool) (e : E)
        → handle_ignition_on w.manager (some r) w.env ≡ some (handled, some o, e)
        → Step w other (record w { env = e })
    reset :
        (r o : Result) (handled : Bool) (e : E)
        → handle_reset w.manager (some r) w.env ≡ some (handled, some o, e)
        → Step w other (record w { env = e })
    restart :
        (memory : Manager E)
        → Step w other (record w { manager = manager_of write read sync nvm (some memory) })
    elapse : (e : E) → stored e ≡ stored w.env → Step w other (record w { env = e })

  -- The worlds that steps lead to, with what they have shown, the newest first.
  pub data Reach (memory : Manager E) (e : E) : List Seen → World E → Type 0 where
    start :
        Reach memory e []
          (record { manager = manager_of write read sync nvm (some memory); env = e })
    next :
        {h : List Seen} {v w : World E} {seen : Seen}
        → Reach memory e h v
        → Step v seen w
        → Reach memory e (seen ∷ h) w
