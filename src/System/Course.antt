-- ===== src/System/Course.antt =====
-- The life of a car against a course of three facts: the lock, the phase of the rear risk, and the lock
-- that is saved.
use mbp_t05_child_lock.Base.{
  ◌≡◌, refl, ap, sym, ◌∙◌, subst, Option, none, some, List, [], ◌∷◌, if◌then◌else◌, arith,
}
use mbp_t05_child_lock.Types.{ChildLockState}
use mbp_t05_child_lock.RearRisk
use mbp_t05_child_lock.RearRisk.Phase.{phase_of, idle}
use mbp_t05_child_lock.Persistence.{
  WriteCallback, ReadCallback, SyncCallback, Manager, Result, handle_ignition_on,
}
use mbp_t05_child_lock.Persistence.PowerCycle.{Nvm, manager_of}
use mbp_t05_child_lock.Persistence.Lifetime.{Lossless, report}
use mbp_t05_child_lock.Persistence.LastSaved.{
  IsState, reset_wakes, save-stored, wake-stored, save-IsState, wake_reports,
}
use mbp_t05_child_lock.System.Plan.{Plan, plan_of, follow, Cycles-follow}
use mbp_t05_child_lock.System.Life.{
  Trigger, ignition_on, reset, Event, drives, parks, wakes, elapses, Car, lock_after, restore_on,
  Step, drive, park, wake, elapse, Life, ends, next,
}

pub record Course : Type 0 where
  pub plan : Plan
  pub saved : Option ChildLockState

module _ (unrestored : ChildLockState → ChildLockState) where
  -- The lock after a wake: what is saved, or, if nothing is, what the rule for it says.
  abbrev pub restored_lock : Option ChildLockState → ChildLockState → ChildLockState
  restored_lock none s = unrestored s
  restored_lock (some t) s = t

  unfoldable pub advance : Course → Event → Course
  advance c (drives g) = record c { plan = follow c.plan g }
  advance c (parks succeeded) = record c { saved = if succeeded then some c.plan.lock else c.saved }
  advance c (wakes t) = record c {
    plan = record { lock = restored_lock c.saved c.plan.lock; phase = idle };
  }
  advance c elapses = c

  unfoldable pub course_after : Course → List Event → Course
  course_after c [] = c
  course_after c (event ∷ events) = course_after (advance c event) events

  report-lock :
      (last : Option ChildLockState) (s : ChildLockState)
      → lock_after unrestored (report last) s ≡ restored_lock last s
  report-lock none s = refl
  report-lock (some t) s = refl

-- F-07 starts idle.
started_idle :
    (context started : RearRisk.Context)
    → RearRisk.init (some context) ≡ some started
    → phase_of started ≡ idle
unfolding RearRisk.init phase_of
started_idle context started did = ground arith

module _ {E : Type 0} (write : WriteCallback E) (read : ReadCallback E) (sync : SyncCallback E)
    (nvm : Nvm write read) where
  open nvm use {stored}

  abbrev pub course_of : Car E → Course
  course_of u = record { plan = plan_of u.vehicle; saved = stored u.env }

  restore_on-wakes :
      (t : Trigger) (manager : Option (Manager E)) (r : Option Result) (e : E)
      → restore_on t manager r e ≡ handle_ignition_on manager r e
  restore_on-wakes ignition_on manager r e = refl
  restore_on-wakes reset manager r e = reset_wakes write read sync nvm manager r e

  -- The manager of F-05 is ready, and the memory holds nothing or a lock state.
  record IsFit (u : Car E) : Type 0 where
    memory : Manager E
    ready : u.manager ≡ manager_of write read sync nvm (some memory)
    is_state : IsState (stored u.env)

  module _ (lossless : Lossless sync nvm) (unrestored : ChildLockState → ChildLockState) where
    Step-advances :
        {u v : Car E} {event : Event}
        → Step write read sync nvm unrestored u event v
        → IsFit u
        → IsFit v × (course_of v ≡ advance unrestored (course_of u) event)
    unfolding advance
    Step-advances {u} (drive {g} {v} c) fit = (
      record { memory = fit.memory; ready = fit.ready; is_state = fit.is_state },
      ap (λ (p : Plan). record { plan = p; saved = stored u.env }) (Cycles-follow u.vehicle g v c),
    )
    Step-advances {u} (park r o handled e did) fit =
        let did' = rw fit.ready at did in
        let now =
          save-stored write read sync nvm lossless fit.memory u.vehicle.lock r o handled u.env e
            did' in
        (
          record {
            memory = fit.memory;
            ready = fit.ready;
            is_state = subst IsState (sym now) (
                save-IsState write read sync nvm lossless fit.memory u.vehicle.lock r o handled
                  u.env e (stored u.env) [] did' fit.is_state);
          },
          ap (λ (s : Option ChildLockState). record { plan = plan_of u.vehicle; saved = s }) now,
        )
    Step-advances {u} (wake t memory context started r o handled e starts did) fit =
        let did' =
          sym (restore_on-wakes t (manager_of write read sync nvm (some memory)) (some r) u.env)
          ∙ did in
        let now = wake-stored write read sync nvm lossless memory r o handled u.env e did' in
        let (e', woke) =
          wake_reports write read sync nvm lossless memory r u.env (stored u.env) fit.is_state
            refl in
        let reported : o ≡ report (stored u.env) = ground (arith, did', woke) in
        (
          record { memory = memory; ready = refl; is_state = subst IsState (sym now) fit.is_state },
          rw
              (
                now,
                started_idle context started starts,
                reported,
                report-lock unrestored (stored u.env) u.vehicle.lock,
              )
              refl,
        )
    Step-advances {u} (elapse e same) fit = (
      record {
        memory = fit.memory;
        ready = fit.ready;
        is_state = subst IsState (sym same) fit.is_state;
      },
      ap (λ (s : Option ChildLockState). record { plan = plan_of u.vehicle; saved = s }) same,
    )

    Life-advances :
        (events : List Event) {u w : Car E}
        → IsFit u
        → Life write read sync nvm unrestored u events w
        → course_of w ≡ course_after unrestored (course_of u) events
    unfolding course_after
    Life-advances [] fit ends = refl
    Life-advances (event ∷ events) fit (next s rest) =
        let (fit', at) = Step-advances s fit in
        Life-advances events fit' rest ∙ ap (λ (c : Course). course_after unrestored c events) at

    -- The whole life of a car: over a memory in which nothing is lost, and from a manager of F-05 that
    -- is initialised over any memory of its own, with a memory that holds nothing or a lock state,
    -- and from any lock and any context of F-07, after any sequence of cycles of F-01, F-02, F-07 and
    -- F-08 in one loop, saves of the lock by F-05 (failed ones included), starts with a wake of F-05
    -- by its handler for ignition on or for a reset, over any memory of the components, and changes
    -- of the environment in all but what is stored, the lock, the phase of F-07 and the stored state
    -- are those of the course. In each step of the course, a cycle goes by the plan of System.Plan; a
    -- save that succeeds stores the lock, and one that fails changes nothing; a start leaves F-07 idle,
    -- and sets the lock to what is stored, or, if nothing is stored, to what the rule for a start
    -- without a restore makes of it. The rule is an argument: it may keep the lock, or set it to the
    -- state off that F-05 then reports.
    pub life_follows_course :
        {u w : Car E} (events : List Event) (memory : Manager E)
        → u.manager ≡ manager_of write read sync nvm (some memory)
        → IsState (stored u.env)
        → Life write read sync nvm unrestored u events w
        → course_of w ≡ course_after unrestored (course_of u) events
    life_follows_course events memory ready is life =
        Life-advances events (record { memory = memory; ready = ready; is_state = is }) life
