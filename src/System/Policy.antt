-- ===== src/System/Policy.antt =====
-- F-01 and F-02 in a loop, against the policy of the design over a whole trip.
use mbp_t05_child_lock.Base.{◌≡◌, refl, ap, ◌∙◌, Bool, Option, none, some, List, [], ◌∷◌}
use mbp_t05_child_lock.InputMonitor.{RawInput}
use mbp_t05_child_lock.Decision.{ChildLockState}
use mbp_t05_child_lock.System.Trip.{Trip, arrived, cycle}
use mbp_t05_child_lock.System.Verdict.{verdict, others, settle, decide_by_verdict}

-- The later of two verdicts counts, if there is one.
abbrev pub latest : Option ChildLockState → Option ChildLockState → Option ChildLockState
latest none earlier = earlier
latest (some v) earlier = some v

-- One cycle: the raw signals, and whether other components report a fault.
abbrev pub Cycle : Type 0
Cycle = RawInput × Bool

-- The cycles of a trip.
unfoldable pub log : (raws : List RawInput) {s t : ChildLockState} → Trip s raws t → List Cycle
log [] arrived = []
log (raw ∷ raws) (cycle output i joined rest) = (raw, others i.fault_flags) ∷ log raws rest

-- The last verdict of the cycles, if there is one.
abbrev pub last_verdict : List Cycle → Option ChildLockState
last_verdict [] = none
last_verdict ((raw, f) ∷ cs) = latest (last_verdict cs) (verdict raw f)

settle-latest :
    (v w : Option ChildLockState) (s : ChildLockState)
    → settle v (settle w s) ≡ settle (latest v w) s
settle-latest none w s = refl
settle-latest (some v) w s = refl

-- The lock follows the signals by the policy: after any trip of F-01 and F-02 the lock is in the state
-- that the last cycle with a verdict wanted, or, without one, in the state that it was in at first. The
-- verdict of a cycle is a function of its raw signals, and of whether other components report a fault:
-- with an ignition that is not on, on for such a fault, else none; with the ignition on, off for an
-- active and trustworthy crash signal, else on for such a fault or a speed that is not between 0 and
-- 250 km/h or not less than 500 ms old, else on for the driver's request to lock, off for the request
-- to open at no more than 3 km/h and none above, and, with neither request, on above 3 km/h, else
-- none.
pub lock_follows_policy :
    (raws : List RawInput) {s t : ChildLockState} (trip : Trip s raws t)
    → t ≡ settle (last_verdict (log raws trip)) s
unfolding log
lock_follows_policy [] arrived = refl
lock_follows_policy (raw ∷ raws) (cycle output i joined rest) =
    lock_follows_policy raws rest
    ∙ ap (settle (last_verdict (log raws rest))) (decide_by_verdict raw output i joined)
    ∙ settle-latest (last_verdict (log raws rest)) (verdict raw (others i.fault_flags))
        i.current_cl_state
