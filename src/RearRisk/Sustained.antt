-- ===== src/RearRisk/Sustained.antt =====
-- The hysteresis of F-07 in terms of what was measured: what a high risk shows, what confirms one,
-- and what clears it.
use mbp_t05_child_lock.Base.{
  ℕ, ◌+◌, ◌≤◌, ◌≡◌, refl, ◌&&◌, Bool, true, false, Option, some, List, [], ◌∷◌, ap, ◌∙◌, inl, inr,
  Bool-cases, arith,
}
use mbp_t05_child_lock.Types.{rear_risk_confirm_duration_ms, rear_risk_clear_duration_ms}
use mbp_t05_child_lock.RearRisk.{Context, Output, is_input_valid, run}
use mbp_t05_child_lock.RearRisk.History.{
  Sample, History, in_threat, newest, streak_start, last_threat, high, WellTimed, WellTimed-tail,
  streak_start_bounds,
}
use mbp_t05_child_lock.RearRisk.Events.{
  Reading, Event, cycle, stamped, history_of, context_after, Starts,
}
use mbp_t05_child_lock.RearRisk.Evaluation.{run_refines_history}

-- `Lasts t h`: the newest samples of `h`, down to one that was taken at `t`, are threats.
pub data Lasts : ℕ → History → Type 0 where
  begins : (t : ℕ) (s : Sample) (h : History) → s.threat ≡ true → s.time ≡ t → Lasts t (s ∷ h)
  goes_on : (t : ℕ) (s : Sample) (h : History) → s.threat ≡ true → Lasts t h → Lasts t (s ∷ h)

-- `Calm t h`: the newest samples of `h`, down to a threat that was taken at `t`, are none.
pub data Calm : ℕ → History → Type 0 where
  begins : (t : ℕ) (s : Sample) (h : History) → s.threat ≡ true → s.time ≡ t → Calm t (s ∷ h)
  goes_on : (t : ℕ) (s : Sample) (h : History) → s.threat ≡ false → Calm t h → Calm t (s ∷ h)

-- `Confirmed h`: at the newest sample of `h` or at an earlier one, a threat had lasted 500 ms.
pub data Confirmed : History → Type 0 where
  now :
      (t : ℕ) (h : History) → Lasts t h → t + rear_risk_confirm_duration_ms ≤ newest h → Confirmed h
  earlier : (s : Sample) (h : History) → Confirmed h → Confirmed (s ∷ h)

Lasts-streak_start : (h : History) → in_threat h ≡ true → Lasts (streak_start h) h
unfolding streak_start
Lasts-streak_start [] e = cc
Lasts-streak_start (s ∷ h) e = elim (Bool-cases (in_threat h)) [
  | inl before ↦ rw before (Lasts.goes_on _ s h e (Lasts-streak_start h before))
  | inr first ↦ rw first (Lasts.begins _ s h e refl)
]

Lasts-in_threat : {t : ℕ} {h : History} → Lasts t h → in_threat h ≡ true
Lasts-in_threat (Lasts.begins t s h e at) = e
Lasts-in_threat (Lasts.goes_on t s h e l) = e

newest-le : (s : Sample) (h : History) → WellTimed (s ∷ h) → newest h ≤ s.time
newest-le s [] w = omega arith
newest-le s (t ∷ h) w = w.0

streak_start-le : {t : ℕ} {h : History} → WellTimed h → Lasts t h → streak_start h ≤ t
unfolding streak_start
streak_start-le w (Lasts.begins t s h e at) =
    ground (arith, newest-le s h w, streak_start_bounds h (WellTimed-tail s h w))
streak_start-le w (Lasts.goes_on t s h e l) =
    rw (Lasts-in_threat l) (streak_start-le (WellTimed-tail s h w) l)

high-Confirmed : (h : History) → high h ≡ true → Confirmed h
unfolding high
high-Confirmed [] e = cc
high-Confirmed (s ∷ h) e = elim (Bool-cases (high h)) [
  | inl before ↦ Confirmed.earlier s h (high-Confirmed h before)
  | inr first ↦
      Confirmed.now (streak_start (s ∷ h)) (s ∷ h) (Lasts-streak_start (s ∷ h) (ground arith))
        (ground arith)
]

high_of_Lasts :
    {t : ℕ} (h : History)
    → WellTimed h
    → Lasts t h
    → t + rear_risk_confirm_duration_ms ≤ newest h
    → high h ≡ true
unfolding high
high_of_Lasts [] w l e = absurd (omega arith)
high_of_Lasts (s ∷ h) w l e = ground (arith, streak_start-le w l, Lasts-in_threat l)

last_threat-Calm : {t : ℕ} {h : History} → Calm t h → last_threat h ≡ t
unfolding last_threat
last_threat-Calm (Calm.begins t s h e at) = ground arith
last_threat-Calm (Calm.goes_on t s h e c) = ground (arith, last_threat-Calm c)

not_high_of_Calm :
    {t : ℕ} {h : History} → Calm t h → t + rear_risk_clear_duration_ms ≤ newest h → high h ≡ false
unfolding high
not_high_of_Calm (Calm.begins t s h e at) le = absurd (omega arith)
not_high_of_Calm (Calm.goes_on t s h e c) le = ground (arith, last_threat-Calm c)

-- The risk that a cycle reports.
abbrev pub ReportsHigh : Context → Output → List Event → Reading → Bool → Type 0
ReportsHigh memory output es r b =
    (o : Output) × ((run (context_after memory output es) (some (stamped r)) (some output)).1
      ≡ some o)
    × (o.risk_high ≡ b)

newest-history_of :
    (r : Reading) (es : List Event)
    → is_input_valid (stamped r) ≡ true
    → newest (history_of (cycle r ∷ es)) ≡ r.time
unfolding history_of
newest-history_of r es valid = rw valid

module _ (memory : Context) (output : Output) (r : Reading) (es : List Event)
    (starts : Starts memory es) where
  reports :
      {b : Bool}
      → WellTimed (history_of (cycle r ∷ es))
      → (is_input_valid (stamped r) && high (history_of (cycle r ∷ es))) ≡ b
      → ReportsHigh memory output es r b
  reports w e =
      let (c, o, ran, valid, risk, level, fault) =
        run_refines_history memory output r es starts w in
      (o, ap (λ (p : Option Context × Option Output). p.1) ran, risk ∙ e)

  -- No false alarm: if the context starts, the valid readings since the last reset are well timed,
  -- and a cycle reports a high risk, then its reading is valid, and at it or at an earlier valid
  -- reading since the reset a threat had lasted 500 ms: the valid readings of those 500 ms or more
  -- were all threats.
  pub run_high_only_if :
      WellTimed (history_of (cycle r ∷ es))
      → ReportsHigh memory output es r true
      → (is_input_valid (stamped r) ≡ true) × Confirmed (history_of (cycle r ∷ es))
  run_high_only_if w (o, wrote, risk) =
      let (c, o', ran, valid, risk', level, fault) =
        run_refines_history memory output r es starts w in
      let both : (is_input_valid (stamped r) ≡ true) × (high (history_of (cycle r ∷ es)) ≡ true) =
        ground arith in
      (both.0, high-Confirmed (history_of (cycle r ∷ es)) both.1)

  -- No missed alarm: if the context starts, and the valid readings since the last reset are well
  -- timed, a cycle reports a high risk if its reading is valid and those of the last 500 ms or more,
  -- it included, are threats.
  pub run_high_if :
      (t : ℕ)
      → WellTimed (history_of (cycle r ∷ es))
      → is_input_valid (stamped r) ≡ true
      → Lasts t (history_of (cycle r ∷ es))
      → t + rear_risk_confirm_duration_ms ≤ r.time
      → ReportsHigh memory output es r true
  run_high_if t w valid lasts long =
      let late : t + rear_risk_confirm_duration_ms ≤ newest (history_of (cycle r ∷ es)) =
        rw (newest-history_of r es valid) long in
      reports w (rw (valid, high_of_Lasts (history_of (cycle r ∷ es)) w lasts late))

  -- The alarm ends: if the context starts, and the valid readings since the last reset are well
  -- timed, a cycle reports no high risk if its reading is valid and the last threat among them is
  -- 1000 ms or more ago.
  pub run_high_ends :
      (t : ℕ)
      → WellTimed (history_of (cycle r ∷ es))
      → is_input_valid (stamped r) ≡ true
      → Calm t (history_of (cycle r ∷ es))
      → t + rear_risk_clear_duration_ms ≤ r.time
      → ReportsHigh memory output es r false
  run_high_ends t w valid calm long =
      let late : t + rear_risk_clear_duration_ms ≤ newest (history_of (cycle r ∷ es)) =
        rw (newest-history_of r es valid) long in
      reports w (rw (valid, not_high_of_Calm calm late))
