-- ===== src/Persistence/LastSaved.antt =====
-- Whatever F-05 goes through, it restores what was saved last.
use mbp_t05_child_lock.Base.{
  ◌≡◌, refl, ◌⊎◌, inl, inr, ap, sym, Bool-cases, Bool, true, false, Option, none, some, List, ◌∷◌,
  if◌then◌else◌, ◌∙◌, arith,
}
use mbp_t05_child_lock.Types.{ChildLockState, cl_off, cl_on}
use mbp_t05_child_lock.Persistence.{
  WriteCallback, ReadCallback, SyncCallback, Manager, Result, init, handle_ignition_off,
  handle_ignition_on, handle_reset,
}
use mbp_t05_child_lock.Persistence.PowerCycle.{Nvm, manager_of}
use mbp_t05_child_lock.Persistence.Lifetime.{
  Lossless, Seen, saved, last_saved, report, World, Step, save, wake, reset, restart, elapse, Reach,
  start, next,
}

abbrev pub IsState : Option ChildLockState → Type 0
IsState none = Unit
IsState (some s) = (s ≡ cl_off) ⊎ (s ≡ cl_on)

module _ {E : Type 0} (write : WriteCallback E) (read : ReadCallback E) (sync : SyncCallback E)
    (nvm : Nvm write read) where
  open nvm use {stored, write_stores, read_delivers}

  -- The manager is ready, and the memory holds what was saved last.
  record Keeps (first : Option ChildLockState) (h : List Seen) (w : World E) : Type 0 where
    memory : Manager E
    ready : w.manager ≡ manager_of write read sync nvm (some memory)
    holds : stored w.env ≡ last_saved first h
    is_state : IsState (last_saved first h)

  -- What a save does to the memory.
  save_effect :
      (memory : Manager E) (s : ChildLockState) (r o : Result) (handled : Bool) (e e' : E)
      → handle_ignition_off (manager_of write read sync nvm (some memory)) s (some r) e
        ≡ some (handled, some o, e')
      → (((s ≡ cl_off) ⊎ (s ≡ cl_on))
          × (o.persist_succeeded ≡ (write s e).0)
          × (e' ≡ (write s e).1))
        ⊎ ((o.persist_succeeded ≡ false) × (e' ≡ e))
  unfolding handle_ignition_off init
  save_effect memory s r o handled e e' did = ground arith

  -- What a wake does to the memory, and a reset alike: it reads, and perhaps synchronises.
  wake_effect :
      (memory : Manager E) (r o : Result) (handled : Bool) (e e' : E)
      → handle_ignition_on (manager_of write read sync nvm (some memory)) (some r) e
        ≡ some (handled, some o, e')
      → let (reply, after) = read cl_off false e in (e' ≡ after) ⊎ (e' ≡ sync reply.state after)
  unfolding handle_ignition_on init
  wake_effect memory r o handled e e' did = ground arith

  pub reset_wakes :
      (manager : Option (Manager E)) (r : Option Result) (e : E)
      → handle_reset manager r e ≡ handle_ignition_on manager r e
  unfolding handle_reset handle_ignition_on
  reset_wakes manager r e = refl

  module _ (lossless : Lossless sync nvm) where
    open lossless use {failed_write, read_keeps, sync_keeps, read_empty}

    pub save-stored :
        (memory : Manager E) (s : ChildLockState) (r o : Result) (handled : Bool) (e e' : E)
        → handle_ignition_off (manager_of write read sync nvm (some memory)) s (some r) e
          ≡ some (handled, some o, e')
        → stored e' ≡ (if o.persist_succeeded then some s else stored e)
    save-stored memory s r o handled e e' did =
        ground
          (arith, save_effect memory s r o handled e e' did, write_stores s e, failed_write s e)

    pub wake-stored :
        (memory : Manager E) (r o : Result) (handled : Bool) (e e' : E)
        → handle_ignition_on (manager_of write read sync nvm (some memory)) (some r) e
          ≡ some (handled, some o, e')
        → stored e' ≡ stored e
    wake-stored memory r o handled e e' did =
        let (reply, after) = read cl_off false e in
        ground (
          arith,
          wake_effect memory r o handled e e' did,
          read_keeps cl_off false e,
          sync_keeps reply.state after,
        )

    -- A save reports success only for one of the two states.
    pub save-IsState :
        (memory : Manager E) (s : ChildLockState) (r o : Result) (handled : Bool) (e e' : E)
        (first : Option ChildLockState) (h : List Seen)
        → handle_ignition_off (manager_of write read sync nvm (some memory)) s (some r) e
          ≡ some (handled, some o, e')
        → IsState (last_saved first h)
        → IsState (last_saved first (saved s o ∷ h))
    save-IsState memory s r o handled e e' first h did is =
        elim (save_effect memory s r o handled e e' did) [
          | inl (state, done, at) ↦ elim (Bool-cases o.persist_succeeded) [
            | inl y ↦ rw y state
            | inr n ↦ rw n is
          ]
          | inr (failed, at) ↦ rw failed is
        ]

    Step-Keeps :
        {first : Option ChildLockState} {h : List Seen} {v w : World E} {seen : Seen}
        → Step write read sync nvm v seen w
        → Keeps first h v
        → Keeps first (seen ∷ h) w
    Step-Keeps {first} {h} {v} (save s r o handled e did) k =
        let did' = rw k.ready at did in
        record {
          memory = k.memory;
          ready = k.ready;
          holds =
              save-stored k.memory s r o handled v.env e did'
              ∙ ap (λ t. if o.persist_succeeded then some s else t) k.holds;
          is_state = save-IsState k.memory s r o handled v.env e first h did' k.is_state;
        }
    Step-Keeps {v} (wake r o handled e did) k = record {
      memory = k.memory;
      ready = k.ready;
      holds = wake-stored k.memory r o handled v.env e (rw k.ready at did) ∙ k.holds;
      is_state = k.is_state;
    }
    Step-Keeps {v} (reset r o handled e did) k =
        let did' = sym (reset_wakes v.manager (some r) v.env) ∙ did in
        record {
          memory = k.memory;
          ready = k.ready;
          holds = wake-stored k.memory r o handled v.env e (rw k.ready at did') ∙ k.holds;
          is_state = k.is_state;
        }
    Step-Keeps (restart memory) k = record {
      memory = memory;
      ready = refl;
      holds = k.holds;
      is_state = k.is_state;
    }
    Step-Keeps (elapse e same) k = record {
      memory = k.memory;
      ready = k.ready;
      holds = same ∙ k.holds;
      is_state = k.is_state;
    }

    Reach-Keeps :
        {memory : Manager E} {e : E} {h : List Seen} {w : World E}
        → IsState (stored e)
        → Reach write read sync nvm memory e h w
        → Keeps (stored e) h w
    Reach-Keeps {memory} first start = record {
      memory = memory;
      ready = refl;
      holds = refl;
      is_state = first;
    }
    Reach-Keeps first (next r st) = Step-Keeps st (Reach-Keeps first r)

    pub wake_reports :
        (memory : Manager E) (r : Result) (e : E) (last : Option ChildLockState)
        → IsState last
        → stored e ≡ last
        → (e' : E) × (handle_ignition_on (manager_of write read sync nvm (some memory)) (some r) e
            ≡ some (true, some (report last), e'))
    unfolding handle_ignition_on init
    wake_reports memory r e none is empty =
        ((read cl_off false e).1, ground (arith, read_empty cl_off false e))
    wake_reports memory r e (some s) is there =
        (sync s (read cl_off false e).1, ground (arith, read_delivers s cl_off false e))

    -- F-05 restores what was saved last: over a memory in which nothing is lost, and from an
    -- initialised manager over a memory that holds nothing or a lock state, after any sequence of
    -- saves (failed writes and invalid states included), wakes, resets, restarts over any memory of
    -- the manager, and changes of the environment in all but what is stored, a wake succeeds and
    -- reports the state that was saved last with success, or, without one, that which was stored at
    -- first, or that none is available; and a reset does the same.
    pub wake_restores_last :
        (memory : Manager E) (e : E) (h : List Seen) (w : World E) (r : Result)
        → IsState (stored e)
        → Reach write read sync nvm memory e h w
        → (e' : E) × (handle_ignition_on w.manager (some r) w.env
            ≡ some (true, some (report (last_saved (stored e) h)), e'))
          × (handle_reset w.manager (some r) w.env
              ≡ some (true, some (report (last_saved (stored e) h)), e'))
    wake_restores_last memory e h w r first reached =
        let k = Reach-Keeps first reached in
        let (e', woke) =
          wake_reports k.memory r w.env (last_saved (stored e) h) k.is_state k.holds in
        let at = ap (λ m. handle_ignition_on m (some r) w.env) k.ready ∙ woke in
        (e', at, reset_wakes w.manager (some r) w.env ∙ at)
