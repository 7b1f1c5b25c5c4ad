-- ===== src/System/Progress.antt =====
-- The life of a car goes on: no component gets stuck, whatever is asked of it.
use mbp_t05_child_lock.Base.{
  ◌≡◌, ◌≢◌, refl, ap, ◌∙◌, Bool, Option, none, some, List, [], ◌∷◌, arith,
}
use mbp_t05_child_lock.Types.{ChildLockState, cl_off}
use mbp_t05_child_lock.RearRisk
use mbp_t05_child_lock.RearRisk.Cycle.{fresh}
use mbp_t05_child_lock.Persistence.{
  WriteCallback, ReadCallback, SyncCallback, Manager, Result, Outcome, handle_ignition_off,
  handle_ignition_on, handle_reset,
}
use mbp_t05_child_lock.Persistence.Defined.{handlers_defined}
use mbp_t05_child_lock.Persistence.PowerCycle.{Nvm, manager_of, config}
use mbp_t05_child_lock.System.Vehicle.{Signals, Held, some-Cycles}
use mbp_t05_child_lock.System.Life.{
  Trigger, ignition_on, reset, Event, drives, parks, wakes, Car, lock_after, restore_on, drive,
  park, wake, Life, ends, next,
}

-- What is asked of a car.
pub data Request : Type 0 where
  to_drive : Signals → Request
  to_park : Request
  to_wake : Trigger → Request

-- The event is what the request asks for; whether a save succeeds is not asked.
abbrev pub Answers : Request → Event → Type 0
Answers (to_drive g) event = event ≡ drives g
Answers to_park event = (done : Bool) × (event ≡ parks done)
Answers (to_wake t) event = event ≡ wakes t

abbrev pub AllAnswer : List Request → List Event → Type 0
AllAnswer [] [] = Unit
AllAnswer (request ∷ requests) (event ∷ events) = Answers request event × AllAnswer requests events
AllAnswer [] (event ∷ events) = ⊥
AllAnswer (request ∷ requests) [] = ⊥

module _ {E : Type 0} where
  -- An outcome with a result that is not NULL.
  abbrev IsFilled : Outcome E → Type 0
  IsFilled x = (handled : Bool) × (o : Result) × (e : E) × (x ≡ some (handled, some o, e))

  filled :
      (x : Outcome E)
      → x ≢ none
      → ((handled : Bool) (e : E) → x ≢ some (handled, none, e))
      → IsFilled x
  filled none defined full = absurd (defined refl)
  filled (some (handled, none, e)) defined full = absurd (full handled e refl)
  filled (some (handled, some o, e)) defined full = (handled, o, e, refl)

  -- A handler leaves a result that it is given.
  keeps_result :
      (manager : Option (Manager E)) (state : ChildLockState) (r : Result) (e e' : E)
      (handled : Bool)
      → (handle_ignition_off manager state (some r) e ≢ some (handled, none, e'))
        × (handle_ignition_on manager (some r) e ≢ some (handled, none, e'))
        × (handle_reset manager (some r) e ≢ some (handled, none, e'))
  unfolding handle_ignition_off handle_ignition_on handle_reset
  keeps_result manager state r e e' handled = ground arith

module _ {E : Type 0} (write : WriteCallback E) (read : ReadCallback E) (sync : SyncCallback E)
    (nvm : Nvm write read) (unrestored : ChildLockState → ChildLockState) where
  starts_fresh : (context : RearRisk.Context) → RearRisk.init (some context) ≡ some fresh
  unfolding RearRisk.init
  starts_fresh context = refl

  handlers-IsFilled :
      (memory : Manager E) (s : ChildLockState) (r : Result) (e : E)
      → let manager = manager_of write read sync nvm (some memory) in
        IsFilled (handle_ignition_off manager s (some r) e)
        × IsFilled (handle_ignition_on manager (some r) e)
        × IsFilled (handle_reset manager (some r) e)
  handlers-IsFilled memory s r e =
      let manager = manager_of write read sync nvm (some memory) in
      let (done, off, on, again) =
        handlers_defined (some memory) (some (config write read sync nvm)) s (some r) e in
      (
        filled _ off (λ handled e'. (keeps_result manager s r e e' handled).0),
        filled _ on (λ handled e'. (keeps_result manager s r e e' handled).1),
        filled _ again (λ handled e'. (keeps_result manager s r e e' handled).2),
      )

  wake-IsFilled :
      (t : Trigger) (memory : Manager E) (r : Result) (e : E)
      → IsFilled (restore_on t (manager_of write read sync nvm (some memory)) (some r) e)
  wake-IsFilled ignition_on memory r e = (handlers-IsFilled memory cl_off r e).1
  wake-IsFilled reset memory r e = (handlers-IsFilled memory cl_off r e).2

  -- No component gets stuck: over a memory that keeps what was written, from any lock and any context
  -- of F-07, and from a manager of F-05 that is initialised over any memory of its own, for any
  -- sequence of requests to drive a cycle with given signals, to save the lock, and to start with a
  -- wake on ignition or reset, there is a life of the car with one event for each request: every
  -- cycle of F-01, F-02, F-07 and F-08 ends with a whole output of each, and every handler of F-05
  -- returns with a result and calls nothing through NULL, whatever the outputs and the result held
  -- before.
  pub life_goes_on :
      (requests : List Request) (u : Car E) (memory : Manager E) (held : Held) (r : Result)
      → u.manager ≡ manager_of write read sync nvm (some memory)
      → (events : List Event) × (w : Car E) × AllAnswer requests events
        × Life write read sync nvm unrestored u events w
  life_goes_on [] u memory held r ready = ([], u, tt, ends)
  life_goes_on (to_drive g ∷ requests) u memory held r ready =
      let (v, cycled) = some-Cycles u.vehicle g held in
      let (events, w, answers, life) =
        life_goes_on requests (record u { vehicle = v }) memory held r ready in
      (drives g ∷ events, w, (refl, answers), next (drive cycled) life)
  life_goes_on (to_park ∷ requests) u memory held r ready =
      let (handled, o, e, did) = (handlers-IsFilled memory u.vehicle.lock r u.env).0 in
      let (events, w, answers, life) =
        life_goes_on requests (record u { env = e }) memory held r ready in
      let at = ap (λ m. handle_ignition_off m u.vehicle.lock (some r) u.env) ready ∙ did in
      (
        parks o.persist_succeeded ∷ events,
        w,
        ((o.persist_succeeded, refl), answers),
        next (park r o handled e at) life,
      )
  life_goes_on (to_wake t ∷ requests) u memory held r ready =
      let (handled, o, e, did) = wake-IsFilled t memory r u.env in
      let (events, w, answers, life) =
        life_goes_on requests
          (record {
            vehicle = record { lock = lock_after unrestored o u.vehicle.lock; context = fresh };
            manager = manager_of write read sync nvm (some memory);
            env = e;
          })
          memory held r refl in
      (
        wakes t ∷ events,
        w,
        (refl, answers),
        next
            (wake t memory u.vehicle.context fresh r o handled e (starts_fresh u.vehicle.context)
              did)
            life,
      )
