-- ===== src/System/Plan.antt =====
-- The loop of F-01, F-02, F-07 and F-08 against a plan of two facts, the lock and the phase of the rear
-- risk.
use mbp_t05_child_lock.Base.{
  ◌≡◌, refl, ap, sym, ◌∙◌, Bool, not, ◌&&◌, ◌||◌, Option, none, some, is_null, List, [], ◌∷◌,
  if◌then◌else◌, arith,
}
use mbp_t05_child_lock.Types.{ChildLockState, cl_on, is_ign_on}
use mbp_t05_child_lock.Decision
use mbp_t05_child_lock.Decision.{DecisionInput, decide_child_lock_state}
use mbp_t05_child_lock.RearRisk
use mbp_t05_child_lock.RearRisk.Events.{stamped}
use mbp_t05_child_lock.RearRisk.Cycle.{next_context, next_output, run-next}
use mbp_t05_child_lock.RearRisk.Phase.{Phase, phase_of, next_phase}
use mbp_t05_child_lock.RearRisk.Machine.{Shows, phase_of-next_context, next_output-Shows}
use mbp_t05_child_lock.Protection
use mbp_t05_child_lock.Protection.Actions.{Protects, run-Protects}
use mbp_t05_child_lock.System.LockControl.{own, shared}
use mbp_t05_child_lock.System.Verdict.{verdict, settle, decide_by_verdict}
use mbp_t05_child_lock.System.Vehicle.{Signals, Vehicle, Cycles, Ride, arrived, cycle}

-- The plan: the lock, and the phase of the rear risk.
pub record Plan : Type 0 where
  pub lock : ChildLockState
  pub phase : Phase

abbrev pub plan_of : Vehicle → Plan
plan_of v = record { lock = v.lock; phase = phase_of v.context }

-- With the ignition on, a reading that fails the check or a high risk.
abbrev pub is_alarm : Signals → Phase → Bool
is_alarm g p =
    is_ign_on g.raw.ignition_state
    && (not (RearRisk.is_input_valid (stamped g.rear)) || not (is_null p.last_threat))

abbrev pub wanted : Option Decision.ChildLockState → ChildLockState → ChildLockState
wanted none s = s
wanted (some v) s = shared v

-- An alarm locks. Without one the verdict of the raw signals counts, if there is one.
unfoldable pub follow : Plan → Signals → Plan
follow p g =
    let phase = next_phase p.phase g.rear in
    record {
      lock = if is_alarm g phase then cl_on else wanted (verdict g.raw g.faulty) p.lock;
      phase = phase;
    }

unfoldable pub plan_after : Plan → List Signals → Plan
plan_after p [] = p
plan_after p (g ∷ gs) = plan_after (follow p g) gs

shared-settle :
    (v : Option Decision.ChildLockState) (s : ChildLockState)
    → shared (settle v (own s)) ≡ wanted v s
shared-settle v s = ground arith

-- The output of F-08 in an alarm and without one.
target_lem :
    (j : Protection.Input) (o : Protection.Output) (alarm : Bool)
    → Protects j o
    → (is_ign_on j.ignition_state && (not j.risk_valid || j.risk_high)) ≡ alarm
    → o.target_cl_state ≡ (if alarm then cl_on else j.current_cl_state)
target_lem j o alarm fits e = ground (arith, fits.locks, fits.leaves)

module _ (v : Vehicle) (g : Signals) (w : Vehicle) (c : Cycles v g w) where
  open c use {held, input, risk, danger, reaction}

  rear_lem :
      (w.context ≡ next_context v.context (stamped g.rear))
      × (risk ≡ next_output v.context (stamped g.rear))
  rear_lem = let ran = run-next v.context (stamped g.rear) held.risk in ground (arith, ran, c.rates)

  phase_lem : phase_of w.context ≡ next_phase (phase_of v.context) g.rear
  phase_lem = rw (rear_lem.0) (phase_of-next_context v.context g.rear)

  rated : Shows g.rear (phase_of w.context) risk
  rated = rw (rear_lem.0, rear_lem.1) (next_output-Shows v.context g.rear)

  alarm_lem :
      (is_ign_on danger.ignition_state && (not danger.risk_valid || danger.risk_high))
      ≡ is_alarm g (phase_of w.context)
  alarm_lem = ground (arith, rated.valid, rated.high, c.high, c.valid, c.ignition)

  decided_lem : danger.current_cl_state ≡ wanted (verdict g.raw g.faulty) v.lock
  decided_lem =
      c.decided
      ∙ ap shared (decide_by_verdict g.raw held.validated input c.joined)
      ∙ rw (c.faults, c.current) (shared-settle (verdict g.raw g.faulty) v.lock)

  reaction_lem :
      reaction.target_cl_state
      ≡ (if is_alarm g (phase_of w.context) then cl_on else danger.current_cl_state)
  reaction_lem =
      let (o, ran, fits) = run-Protects danger held.protection in
      let same : reaction ≡ o = ground (arith, ran, c.reacts) in
      rw same (target_lem danger o (is_alarm g (phase_of w.context)) fits alarm_lem)

  -- One cycle follows the plan.
  pub Cycles-follow : plan_of w ≡ follow (plan_of v) g
  unfolding follow
  Cycles-follow = rw (sym phase_lem) (ground (arith, c.sets, reaction_lem, decided_lem))

-- From any lock and any context of F-07, after any cycles of F-01, F-02, F-07 and F-08 in one loop,
-- F-08 after F-02 in each, the lock, and the phase of the context of F-07, are those of the plan,
-- with no assumption on the times. In each cycle of the plan, the phase goes on by the state machine
-- of F-07; in an alarm (ignition on, and a reading that fails the check or a phase with a high risk)
-- the lock is on; without one it is as the verdict of the raw signals wants, or as it was if there
-- is no verdict. The verdict, by the priority crash, faults, driver, auto-lock, is that of
-- System.Verdict.
pub loop_follows_plan :
    {v w : Vehicle} (gs : List Signals) → Ride v gs w → plan_of w ≡ plan_after (plan_of v) gs
unfolding plan_after
loop_follows_plan [] arrived = refl
loop_follows_plan (g ∷ gs) (cycle c rest) =
    loop_follows_plan gs rest ∙ ap (λ (p : Plan). plan_after p gs) (Cycles-follow _ g _ c)
