-- ===== src/RearRisk/Evaluation.antt =====
-- Any sequence of cycles and resets of F-07 against the history of its measurements.
use mbp_t05_child_lock.Base.{
  ◌≡◌, refl, ◌&&◌, Bool, true, false, Option, some, List, [], ◌∷◌, if◌then◌else◌, ap, arith,
}
use mbp_t05_child_lock.Types.{risk_none, fault_flag_none, fault_flag_rear_sensor}
use mbp_t05_child_lock.RearRisk.{
  Context, Input, Output, is_input_valid, is_raw_threat_active, classify_risk_level, init, run,
  reset,
}
use mbp_t05_child_lock.RearRisk.Cycle.{
  fresh, started, next_context, next_output, run-next, run_null,
}
use mbp_t05_child_lock.RearRisk.History.{History, high, WellTimed, WellTimed-tail}
use mbp_t05_child_lock.RearRisk.Timers.{
  Follows, fresh-Follows, update_hysteresis-Follows, update_hysteresis_initialized,
}
use mbp_t05_child_lock.RearRisk.Events.{
  Reading, stamped, sample, add_sample, Event, cycle, restart, failed, history_of, context_of,
  context_after, Starts,
}

-- A cycle leaves a context that the next one starts from.
started-next_context :
    (ctx : Context) (i : Input) → started (next_context ctx i) ≡ next_context ctx i
unfolding next_context
started-next_context ctx i =
    ground
      (arith, update_hysteresis_initialized (started ctx) (is_raw_threat_active i) i.timestamp_ms)

-- A cycle keeps a context, as far as it has started, with the history.
next_context-Follows :
    (ctx : Context) (r : Reading) (h : History) (valid : Bool)
    → is_input_valid (stamped r) ≡ valid
    → WellTimed (add_sample valid r h)
    → Follows h (started ctx)
    → Follows (add_sample valid r h) (next_context ctx (stamped r))
unfolding next_context
next_context-Follows ctx r h false e w f = rw e f
next_context-Follows ctx r h true e w f =
    rw e (update_hysteresis-Follows h (sample r) (started ctx) w f)

add_sample-WellTimed :
    (valid : Bool) (r : Reading) (h : History) → WellTimed (add_sample valid r h) → WellTimed h
add_sample-WellTimed false r h w = w
add_sample-WellTimed true r h w = WellTimed-tail (sample r) h w

-- The context is there after any events.
context_after-some :
    (memory : Context) (output : Output) (es : List Event)
    → (c : Context) × (context_after memory output es ≡ some c)
unfolding context_after init reset
context_after-some memory output [] = (memory, refl)
context_after-some memory output (cycle r ∷ es) =
    let (c, at) = context_after-some memory output es in
    (next_context c (stamped r), rw at (ap context_of (run-next c (stamped r) output)))
context_after-some memory output (restart ∷ es) =
    let (c, at) = context_after-some memory output es in (fresh, rw at refl)
context_after-some memory output (failed i o e ∷ es) =
    let (c, at) = context_after-some memory output es in
    (c, rw at (ap context_of (run_null (some c) i o e)))

-- After any events whose readings since the last reset are well timed, the context is there, and
-- what the next cycle starts from belongs to the history.
pub context_after-Follows :
    (memory : Context) (output : Output) (es : List Event)
    → Starts memory es
    → WellTimed (history_of es)
    → (c : Context) × (context_after memory output es ≡ some c)
      × Follows (history_of es) (started c)
unfolding history_of context_after Starts
context_after-Follows memory output [] s w = (memory, refl, rw s fresh-Follows)
context_after-Follows memory output (cycle r ∷ es) s w =
    let valid = is_input_valid (stamped r) in
    let (c, at, f) =
      context_after-Follows memory output es s (add_sample-WellTimed valid r (history_of es) w) in
    (
      next_context c (stamped r),
      rw at (ap context_of (run-next c (stamped r) output)),
      rw (started-next_context c (stamped r))
          (next_context-Follows c r (history_of es) valid refl w f),
    )
context_after-Follows memory output (restart ∷ es) s w =
    let (c, at) = context_after-some memory output es in
    (fresh, rw at (unfold init reset in refl), fresh-Follows)
context_after-Follows memory output (failed i o e ∷ es) s w =
    let (c, at, f) = context_after-Follows memory output es s w in
    (c, rw at (ap context_of (run_null (some c) i o e)), f)

-- For any memory that is not marked as initialised, or that is reset before, after any earlier
-- cycles, resets and calls with NULL pointers, and for any new reading: if the valid readings since
-- the last reset are well timed, the cycle writes a whole output. It is marked valid exactly if the
-- reading is, its risk is high exactly if the reading is valid and the risk is high by the history of
-- these readings, and level and fault are those of the reading alone. The timestamps wrap around
-- every 49.7 days, the history's times do not.
pub run_refines_history :
    (memory : Context) (output : Output) (r : Reading) (es : List Event)
    → Starts memory es
    → WellTimed (history_of (cycle r ∷ es))
    → (c : Option Context) × (o : Output) × (run
          (context_after memory output es)
          (some (stamped r))
          (some output)
        ≡ (c, some o))
      × (o.risk_valid ≡ is_input_valid (stamped r))
      × (o.risk_high ≡ (is_input_valid (stamped r) && high (history_of (cycle r ∷ es))))
      × (o.risk_level
          ≡ (if is_input_valid (stamped r) then classify_risk_level (stamped r) else risk_none))
      × (o.fault_flag
          ≡ (if is_input_valid (stamped r) then fault_flag_none else fault_flag_rear_sensor))
unfolding history_of next_output
run_refines_history memory output r es starts w =
    let h = history_of es in
    let valid = is_input_valid (stamped r) in
    let (c, at, f) =
      context_after-Follows memory output es starts (add_sample-WellTimed valid r h w) in
    let next = next_context-Follows c r h valid refl w f in
    (
      some (next_context c (stamped r)),
      next_output c (stamped r),
      rw at (run-next c (stamped r) output),
      ground arith,
      ground (arith, next.agrees),
      ground arith,
      ground arith,
    )
