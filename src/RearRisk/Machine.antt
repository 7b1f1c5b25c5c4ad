-- ===== src/RearRisk/Machine.antt =====
-- The code of F-07 against the state machine: no assumption on the times, and no start.
use mbp_t05_child_lock.Base.{
  ℕ, ◌≡◌, refl, ap, subst, ◌∙◌, Bool-cases, inl, inr, Bool, true, ◌&&◌, some, is_null, not, List,
  [], ◌∷◌, if◌then◌else◌, arith,
}
use mbp_t05_child_lock.Types.{risk_none, fault_flag_none, fault_flag_rear_sensor}
use mbp_t05_child_lock.RearRisk.{
  Context, Input, Output, is_input_valid, is_raw_threat_active, classify_risk_level,
  update_hysteresis, init, reset, run,
}
use mbp_t05_child_lock.RearRisk.Cycle.{
  started, next_context, next_output, run-next, run_null, fresh,
}
use mbp_t05_child_lock.RearRisk.Timers.{update_hysteresis_initialized}
use mbp_t05_child_lock.RearRisk.Events.{
  Reading, stamped, Event, cycle, restart, failed, context_of, context_after,
}
use mbp_t05_child_lock.RearRisk.Phase.{Phase, idle, phase_of, step, next_phase, phase_after}

update_hysteresis-step :
    (ctx : Context) (threat : Bool) (now : ℕ)
    → ctx.is_initialized ≡ true
    → phase_of (update_hysteresis ctx threat now) ≡ step (phase_of ctx) threat now
unfolding phase_of update_hysteresis step
update_hysteresis-step ctx threat now ready = ground arith

phase_of-started : (ctx : Context) → phase_of (started ctx) ≡ phase_of ctx
unfolding phase_of
phase_of-started ctx = ground arith

started_ready : (ctx : Context) → (started ctx).is_initialized ≡ true
started_ready ctx = ground arith

pub phase_of-next_context :
    (ctx : Context) (r : Reading)
    → phase_of (next_context ctx (stamped r)) ≡ next_phase (phase_of ctx) r
unfolding next_context next_phase
phase_of-next_context ctx r = elim (Bool-cases (is_input_valid (stamped r))) [
  | inr fails ↦ rw fails (phase_of-started ctx)
  | inl passes ↦
      let threat = is_raw_threat_active (stamped r) in
      let now = (stamped r).timestamp_ms in
      rw passes (
        update_hysteresis-step (started ctx) threat now (started_ready ctx)
        ∙ ap (λ (p : Phase). step p threat now) (phase_of-started ctx))
]

reset-fresh : (ctx : Context) → reset (some ctx) ≡ some fresh
unfolding init reset
reset-fresh ctx = refl

phase_of-fresh : phase_of fresh ≡ idle
unfolding phase_of
phase_of-fresh = refl

-- The context after any events is there, and has the phase after them.
context_after-phase_after :
    (memory : Context) (output : Output) (es : List Event)
    → (c : Context) × (context_after memory output es ≡ some c)
      × (phase_of c ≡ phase_after (phase_of memory) es)
unfolding context_after phase_after
context_after-phase_after memory output [] = (memory, refl, refl)
context_after-phase_after memory output (cycle r ∷ es) =
    let (c, at, p) = context_after-phase_after memory output es in
    (
      next_context c (stamped r),
      rw at (ap context_of (run-next c (stamped r) output)),
      phase_of-next_context c r ∙ ap (λ (p : Phase). next_phase p r) p,
    )
context_after-phase_after memory output (restart ∷ es) =
    let (c, at, p) = context_after-phase_after memory output es in
    (fresh, rw at (reset-fresh c), phase_of-fresh)
context_after-phase_after memory output (failed i o e ∷ es) =
    let (c, at, p) = context_after-phase_after memory output es in
    (c, rw at (ap context_of (run_null (some c) i o e)), p)

-- The output of a cycle on a reading, with the phase that the cycle leaves.
pub record Shows (r : Reading) (p : Phase) (o : Output) : Type 0 where
  pub valid : o.risk_valid ≡ is_input_valid (stamped r)
  pub high : o.risk_high ≡ (is_input_valid (stamped r) && not (is_null p.last_threat))
  pub level :
      o.risk_level
      ≡ (if is_input_valid (stamped r) then classify_risk_level (stamped r) else risk_none)
  pub fault :
      o.fault_flag
      ≡ (if is_input_valid (stamped r) then fault_flag_none else fault_flag_rear_sensor)

high_of_phase :
    (ctx : Context)
    → ctx.is_initialized ≡ true
    → ctx.is_risk_high_active ≡ not (is_null (phase_of ctx).last_threat)
unfolding phase_of
high_of_phase ctx ready = ground arith

next_context_ready : (ctx : Context) (i : Input) → (next_context ctx i).is_initialized ≡ true
unfolding next_context
next_context_ready ctx i = ground (
  arith,
  update_hysteresis_initialized (started ctx) (is_raw_threat_active i) i.timestamp_ms,
  started_ready ctx,
)

pub next_output-Shows :
    (ctx : Context) (r : Reading)
    → Shows r (phase_of (next_context ctx (stamped r))) (next_output ctx (stamped r))
unfolding next_output
next_output-Shows ctx r =
    ground
      (arith, high_of_phase (next_context ctx (stamped r)) (next_context_ready ctx (stamped r)))

-- F-07 is this state machine, with no assumption on the times: for any memory, after any cycles, resets
-- and calls with NULL pointers, a cycle leaves a context in the phase that the machine goes to from
-- the phase of the memory, and writes a whole output, whose risk is high exactly if the reading is
-- valid and this phase has a high risk; validity, level and fault are those of the reading alone.
pub run_follows_phase :
    (memory : Context) (output : Output) (r : Reading) (es : List Event)
    → (c : Context) × (o : Output) × (run
          (context_after memory output es)
          (some (stamped r))
          (some output)
        ≡ (some c, some o))
      × (phase_of c ≡ phase_after (phase_of memory) (cycle r ∷ es))
      × Shows r (phase_after (phase_of memory) (cycle r ∷ es)) o
unfolding phase_after
run_follows_phase memory output r es =
    let (c, at, p) = context_after-phase_after memory output es in
    let next : phase_of (next_context c (stamped r))
        ≡ next_phase (phase_after (phase_of memory) es) r =
      phase_of-next_context c r ∙ ap (λ (p : Phase). next_phase p r) p in
    (
      next_context c (stamped r),
      next_output c (stamped r),
      rw at (run-next c (stamped r) output),
      next,
      subst (λ q. Shows r q (next_output c (stamped r))) next (next_output-Shows c r),
    )
