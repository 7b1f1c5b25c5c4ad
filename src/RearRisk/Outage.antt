-- ===== src/RearRisk/Outage.antt =====
-- The hysteresis of F-07 across an outage of the sensor.
use mbp_t05_child_lock.Base.{
  ℕ, ◌%◌, ◌-◌, u32_mod, not, is_null, some, Option, ◌↔◌, ◌+◌, ◌≤◌, ◌<◌, ◌≡◌, refl, ap, true, false,
  List, [], ◌∷◌, ◌++◌, arith,
}
use mbp_t05_child_lock.Types.{rear_risk_confirm_duration_ms}
use mbp_t05_child_lock.RearRisk.{Context, Output, is_input_valid, run}
use mbp_t05_child_lock.RearRisk.History.{WellTimed, max_gap_ms}
use mbp_t05_child_lock.RearRisk.Events.{
  Reading, Event, cycle, restart, failed, stamped, sample, history_of, context_after, Starts,
}
use mbp_t05_child_lock.RearRisk.Phase.{Phase, phase_of, idle, step, next_phase, phase_after}
use mbp_t05_child_lock.RearRisk.Machine.{run_follows_phase}
use mbp_t05_child_lock.RearRisk.Sustained.{Lasts, ReportsHigh, run_high_if}

-- An outage: every reading fails the check, and nothing is reset.
abbrev pub AllInvalid : List Event → Type 0
AllInvalid [] = Unit
AllInvalid (cycle r ∷ es) = (is_input_valid (stamped r) ≡ false) × AllInvalid es
AllInvalid (restart ∷ es) = ⊥
AllInvalid (failed i o e ∷ es) = AllInvalid es

history_of-AllInvalid :
    (lost es : List Event) → AllInvalid lost → history_of (lost ++ es) ≡ history_of es
unfolding history_of
history_of-AllInvalid [] es i = refl
history_of-AllInvalid (cycle r ∷ lost) es (i, is) = rw i (history_of-AllInvalid lost es is)
history_of-AllInvalid (restart ∷ lost) es i = absurd i
history_of-AllInvalid (failed i o e ∷ lost) es is = history_of-AllInvalid lost es is

-- Whatever follows a reset starts.
Starts-after :
    (memory : Context) (lost es : List Event) (r0 : Reading)
    → AllInvalid lost
    → Starts memory (lost ++ cycle r0 ∷ restart ∷ es)
unfolding Starts
Starts-after memory [] es r0 is = tt
Starts-after memory (cycle r ∷ lost) es r0 (i, is) = Starts-after memory lost es r0 is
Starts-after memory (restart ∷ lost) es r0 is = absurd is
Starts-after memory (failed i o e ∷ lost) es r0 is = Starts-after memory lost es r0 is

history_of-outage :
    (r r0 : Reading) (lost es : List Event)
    → AllInvalid lost
    → is_input_valid (stamped r0) ≡ true
    → is_input_valid (stamped r) ≡ true
    → history_of (cycle r ∷ (lost ++ cycle r0 ∷ restart ∷ es)) ≡ sample r ∷ sample r0 ∷ []
unfolding history_of
history_of-outage r r0 lost es gone valid0 valid =
    rw valid (rw (history_of-AllInvalid lost (cycle r0 ∷ restart ∷ es) gone) (rw valid0))

-- After a reset, one valid threat, any number of readings that fail the check and no reset, and a
-- second valid threat 500 ms or more after the first (and within the well-timed gap), the second
-- reports a high risk, though no threat was measured in between.
pub run_high_across_outage :
    (memory : Context) (output : Output) (r r0 : Reading) (lost es : List Event)
    → AllInvalid lost
    → is_input_valid (stamped r0) ≡ true
    → is_input_valid (stamped r) ≡ true
    → (sample r0).threat ≡ true
    → (sample r).threat ≡ true
    → r0.time + rear_risk_confirm_duration_ms ≤ r.time
    → r.time < r0.time + max_gap_ms
    → ReportsHigh memory output (lost ++ cycle r0 ∷ restart ∷ es) r true
run_high_across_outage memory output r r0 lost es gone valid0 valid threat0 threat long close =
    let e = history_of-outage r r0 lost es gone valid0 valid in
    let lasts : Lasts r0.time (sample r ∷ sample r0 ∷ []) =
      Lasts.goes_on r0.time (sample r) (sample r0 ∷ []) threat
        (Lasts.begins r0.time (sample r0) [] threat0 refl) in
    let timed : WellTimed (sample r ∷ sample r0 ∷ []) = (omega arith, close, tt) in
    run_high_if memory output r (lost ++ cycle r0 ∷ restart ∷ es)
      (Starts-after memory lost es r0 gone) r0.time (rw e timed) valid (rw e lasts) long

phase_after-AllInvalid :
    (p : Phase) (lost es : List Event)
    → AllInvalid lost
    → phase_after p (lost ++ es) ≡ phase_after p es
unfolding phase_after next_phase
phase_after-AllInvalid p [] es i = refl
phase_after-AllInvalid p (cycle r ∷ lost) es (i, is) = rw i (phase_after-AllInvalid p lost es is)
phase_after-AllInvalid p (restart ∷ lost) es i = absurd i
phase_after-AllInvalid p (failed i o e ∷ lost) es is = phase_after-AllInvalid p lost es is

-- Whether the second of two threats makes the risk high.
second_threat :
    (t0 t : ℕ)
    → t0 ≤ t
    → (not (is_null (step (step idle true (t0 % u32_mod)) true (t % u32_mod)).last_threat) ≡ true)
      ↔ (rear_risk_confirm_duration_ms ≤ (t - t0) % u32_mod)
unfolding step
second_threat t0 t h = ground arith

-- After a reset, one valid threat, any number of readings that fail the check and no reset, a second
-- valid threat reports a high risk exactly if the time between the two, modulo 2 ^ 32 ms, is 500 ms or
-- more: with no threat measured in between, and with no bound on the time, which the code sees only
-- modulo 49.7 days.
pub run_confirms_by_wrapped_time :
    (memory : Context) (output : Output) (r r0 : Reading) (lost es : List Event)
    → AllInvalid lost
    → is_input_valid (stamped r0) ≡ true
    → is_input_valid (stamped r) ≡ true
    → (sample r0).threat ≡ true
    → (sample r).threat ≡ true
    → r0.time ≤ r.time
    → (o : Output) × ((run
          (context_after memory output (lost ++ cycle r0 ∷ restart ∷ es))
          (some (stamped r))
          (some output)).1
        ≡ some o)
      × ((o.risk_high ≡ true) ↔ (rear_risk_confirm_duration_ms ≤ (r.time - r0.time) % u32_mod))
unfolding phase_after next_phase
run_confirms_by_wrapped_time memory output r r0 lost es gone valid0 valid threat0 threat order =
    let since = lost ++ cycle r0 ∷ restart ∷ es in
    let (c, o, ran, phase, shows) = run_follows_phase memory output r since in
    let after : phase_after (phase_of memory) (cycle r ∷ since)
        ≡ step (step idle true (r0.time % u32_mod)) true (r.time % u32_mod) =
      rw
        (
          phase_after-AllInvalid (phase_of memory) lost (cycle r0 ∷ restart ∷ es) gone,
          valid0,
          valid,
          threat0,
          threat,
        )
        refl in
    (
      o,
      ap (λ (q : Option Context × Option Output). q.1) ran,
      ground (arith, after, shows.high, valid, second_threat r0.time r.time order),
    )
