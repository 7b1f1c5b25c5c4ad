-- ===== src/System/LockedLife.antt =====
-- The life of a car that is locked.
use mbp_t05_child_lock.Base.{
  ◌≡◌, ◌≢◌, inl, inr, ◌⊎◌, Bool, true, false, not, ◌&&◌, is_null, if◌then◌else◌, refl, Option,
  subst, none, some, List, [], ◌∷◌, sym, arith,
}
use mbp_t05_child_lock.Types.{ChildLockState, cl_on, ign_on, request_off}
use mbp_t05_child_lock.InputMonitor.{RawInput}
use mbp_t05_child_lock.Decision
use mbp_t05_child_lock.Persistence.{WriteCallback, ReadCallback, SyncCallback, Manager}
use mbp_t05_child_lock.Persistence.PowerCycle.{Nvm, manager_of}
use mbp_t05_child_lock.Persistence.Lifetime.{Lossless}
use mbp_t05_child_lock.Persistence.LastSaved.{IsState}
use mbp_t05_child_lock.System.AutoLock.{IsCrash}
use mbp_t05_child_lock.System.DoorCommand.{IsSlow}
use mbp_t05_child_lock.System.Verdict.{verdict}
use mbp_t05_child_lock.System.Plan.{follow}
use mbp_t05_child_lock.System.Life.{Event, drives, parks, wakes, elapses, Car, Life}
use mbp_t05_child_lock.System.Course.{Course, course_of, advance, course_after, life_follows_course}

-- With the ignition on, an active and trustworthy crash signal, or a request to open, with no fault that
-- others report, at a recent speed between 0 and 3 km/h.
abbrev pub MayRelease : RawInput → Bool → Type 0
MayRelease raw faulty =
    (raw.ignition_state ≡ ign_on)
    × (IsCrash raw ⊎ ((raw.switch_request ≡ request_off) × (faulty ≡ false) × IsSlow raw))

-- Some cycle may open the lock, or some start comes while nothing is stored; `empty` tells whether
-- nothing is stored at first.
abbrev pub SomeReleases : Bool → List Event → Type 0
SomeReleases empty [] = ⊥
SomeReleases empty (drives g ∷ events) = MayRelease g.raw g.faulty ⊎ SomeReleases empty events
SomeReleases empty (parks done ∷ events) = SomeReleases (empty && not done) events
SomeReleases empty (wakes t ∷ events) = (empty ≡ true) ⊎ SomeReleases empty events
SomeReleases empty (elapses ∷ events) = SomeReleases empty events

verdict_releases :
    (raw : RawInput) (faulty : Bool)
    → (verdict raw faulty ≢ some Decision.cl_off) ⊎ MayRelease raw faulty
verdict_releases raw faulty = ground arith

-- The lock is on, and the memory holds nothing else.
record IsLocked (c : Course) : Type 0 where
  lock : c.plan.lock ≡ cl_on
  saved : (c.saved ≡ none) ⊎ (c.saved ≡ some cl_on)

valid_saved : (s : Option ChildLockState) → (s ≡ none) ⊎ (s ≡ some cl_on) → IsState s
valid_saved none is = tt
valid_saved (some t) is = inr (ground arith)

saved_empty :
    (saved : Option ChildLockState) (done : Bool) (s : ChildLockState)
    → is_null (if done then some s else saved) ≡ (is_null saved && not done)
saved_empty saved done s = ground arith

some_first :
    (empty : Bool) (event : Event) (events : List Event)
    → SomeReleases empty (event ∷ [])
    → SomeReleases empty (event ∷ events)
some_first empty event events opens = ground arith

module _ (unrestored : ChildLockState → ChildLockState) where
  advance-IsLocked :
      (c : Course) (event : Event)
      → IsLocked c
      → IsLocked (advance unrestored c event) ⊎ SomeReleases (is_null c.saved) (event ∷ [])
  unfolding advance follow
  advance-IsLocked c (drives g) l = elim (verdict_releases g.raw g.faulty) [
    | inr opens ↦ inr (inl opens)
    | inl closed ↦ inl (record { lock = ground (arith, l.lock, closed); saved = l.saved })
  ]
  advance-IsLocked c (parks done) l =
      inl (record { lock = l.lock; saved = ground (arith, l.lock, l.saved) })
  advance-IsLocked c (wakes t) l = elim l.saved [
    | inl empty ↦ inr (inl (rw empty refl))
    | inr on ↦ inl (record { lock = rw on refl; saved = l.saved })
  ]
  advance-IsLocked c elapses l = inl l

  some_later :
      (c : Course) (event : Event) (events : List Event)
      → SomeReleases (is_null (advance unrestored c event).saved) events
      → SomeReleases (is_null c.saved) (event ∷ events)
  unfolding advance
  some_later c (drives g) events opens = inr opens
  some_later c (parks done) events opens =
      subst (λ b. SomeReleases b events) (saved_empty c.saved done c.plan.lock) opens
  some_later c (wakes t) events opens = inr opens
  some_later c elapses events opens = opens

  course_after-IsLocked :
      (c : Course) (events : List Event)
      → IsLocked c
      → IsLocked (course_after unrestored c events) ⊎ SomeReleases (is_null c.saved) events
  unfolding course_after
  course_after-IsLocked c [] l = inl l
  course_after-IsLocked c (event ∷ events) l = elim (advance-IsLocked c event l) [
    | inr opens ↦ inr (some_first (is_null c.saved) event events opens)
    | inl l' ↦ elim (course_after-IsLocked (advance unrestored c event) events l') [
      | inl locked ↦ inl locked
      | inr opens ↦ inr (some_later c event events opens)
    ]
  ]

module _ {E : Type 0} (write : WriteCallback E) (read : ReadCallback E) (sync : SyncCallback E)
    (nvm : Nvm write read) (lossless : Lossless sync nvm)
    (unrestored : ChildLockState → ChildLockState) where
  open nvm use {stored}

  -- A locked car stays locked over its life: over a memory in which nothing is lost, from a manager of
  -- F-05 that is initialised over any memory of its own, if the lock is on and no other state is
  -- stored, then after any sequence of cycles of F-01, F-02, F-07 and F-08 in one loop, saves, starts
  -- with a wake of F-05 and changes of the environment in all but what is stored, the lock is on, and
  -- nothing else is stored, unless one of the cycles had, with the ignition on, an active and
  -- trustworthy crash signal, or a request to open, with no fault that other components report, at a
  -- speed between 0 and 3 km/h that was less than 500 ms old, or one of the starts came while nothing
  -- was stored, before any save that succeeded. What becomes of the lock at such a start does not
  -- matter: the rule for it is any function.
  pub locked_life :
      {u w : Car E} (events : List Event) (memory : Manager E)
      → u.manager ≡ manager_of write read sync nvm (some memory)
      → u.vehicle.lock ≡ cl_on
      → (stored u.env ≡ none) ⊎ (stored u.env ≡ some cl_on)
      → Life write read sync nvm unrestored u events w
      → ((w.vehicle.lock ≡ cl_on) × ((stored w.env ≡ none) ⊎ (stored w.env ≡ some cl_on)))
        ⊎ SomeReleases (is_null (stored u.env)) events
  locked_life {u} {w} events memory ready locked empty life =
      let at =
        life_follows_course write read sync nvm lossless unrestored events memory ready
          (valid_saved (stored u.env) empty) life in
      elim (course_after-IsLocked unrestored (course_of write read sync nvm u) events
        (record { lock = locked; saved = empty })) [
          | inr opens ↦ inr opens
          | inl l ↦ let l' = subst IsLocked (sym at) l in inl (l'.lock, l'.saved)
        ]
