-- ===== src/RearRisk/Shift.antt =====
-- F-07 does not depend on where the time begins, nor on what a memory held before it started.
use mbp_t05_child_lock.Base.{
  ℕ, ◌+◌, ◌%◌, ◌<◌, ◌≡◌, refl, Bool, true, false, Option, none, some, is_null, List, [], ◌∷◌,
  u32_mod, sub32, arith,
}
use mbp_t05_child_lock.RearRisk.{
  Context, Output, is_input_valid, is_raw_threat_active, classify_risk_level, run,
}
use mbp_t05_child_lock.RearRisk.Phase.{
  Phase, phase_of, begun, fading, step, next_phase, phase_after,
}
use mbp_t05_child_lock.RearRisk.Machine.{Shows, run_follows_phase}
use mbp_t05_child_lock.RearRisk.Events.{
  Reading, stamped, Event, cycle, restart, failed, context_after, Starts,
}

-- The same, `k` ms later.
abbrev pub later_reading : ℕ → Reading → Reading
later_reading k r = record r { time = r.time + k }

abbrev pub later : ℕ → List Event → List Event
later k [] = []
later k (cycle r ∷ es) = cycle (later_reading k r) ∷ later k es
later k (restart ∷ es) = restart ∷ later k es
later k (failed i o e ∷ es) = failed i o e ∷ later k es

module _ (k : ℕ) where
  -- A timestamp, and the same `k` ms later.
  abbrev IsLater : Option ℕ → Option ℕ → Type 0
  IsLater none none = Unit
  IsLater none (some b) = ⊥
  IsLater (some a) none = ⊥
  IsLater (some a) (some b) = (a < u32_mod) × (b ≡ (a + k) % u32_mod)

  record LaterPhase (p q : Phase) : Type 0 where
    threat : IsLater p.threat_since q.threat_since
    last : IsLater p.last_threat q.last_threat

  -- The time between two timestamps stays.
  sub32-later :
      (t a : ℕ)
      → a < u32_mod
      → sub32 ((t + k) % u32_mod) ((a + k) % u32_mod) ≡ sub32 (t % u32_mod) a
  sub32-later t a h = omega arith

  begun-IsLater :
      (p q : Option ℕ) (t : ℕ)
      → IsLater p q
      → (begun p (t % u32_mod) < u32_mod)
        × (begun q ((t + k) % u32_mod) ≡ (begun p (t % u32_mod) + k) % u32_mod)
  begun-IsLater p q t l = ground arith

  -- Both tell the same of the time that a threat has lasted, and of the time since the last one.
  lasted-later :
      (p q : Option ℕ) (t : ℕ)
      → IsLater p q
      → sub32 ((t + k) % u32_mod) (begun q ((t + k) % u32_mod))
        ≡ sub32 (t % u32_mod) (begun p (t % u32_mod))
  lasted-later p q t l =
      let (lt, e) = begun-IsLater p q t l in rw e (sub32-later t (begun p (t % u32_mod)) lt)

  fading-IsLater :
      (p q : Option ℕ) (t : ℕ)
      → IsLater p q
      → IsLater (fading p (t % u32_mod)) (fading q ((t + k) % u32_mod))
  fading-IsLater none none t l = tt
  fading-IsLater none (some b) t l = absurd l
  fading-IsLater (some a) none t l = absurd l
  fading-IsLater (some a) (some b) t (lt, e) = rw (e, sub32-later t a lt) (ground arith)

  is_null-later : (p q : Option ℕ) → IsLater p q → is_null q ≡ is_null p
  is_null-later p q l = ground arith

  step-LaterPhase :
      (p q : Phase) (threat : Bool) (t : ℕ)
      → LaterPhase p q
      → LaterPhase (step p threat (t % u32_mod)) (step q threat ((t + k) % u32_mod))
  unfolding step
  step-LaterPhase p q false t l = record {
    threat = tt;
    last = fading-IsLater p.last_threat q.last_threat t l.last;
  }
  step-LaterPhase p q true t l = record {
    threat = begun-IsLater p.threat_since q.threat_since t l.threat;
    last =
        rw
          (
            lasted-later p.threat_since q.threat_since t l.threat,
            is_null-later p.last_threat q.last_threat l.last,
          )
          (ground arith);
  }

  next_phase-LaterPhase :
      (p q : Phase) (r : Reading)
      → LaterPhase p q
      → LaterPhase (next_phase p r) (next_phase q (later_reading k r))
  unfolding next_phase is_input_valid is_raw_threat_active
  next_phase-LaterPhase p q r l =
      ground (arith, step-LaterPhase p q (is_raw_threat_active (stamped r)) r.time l)

  -- After the same events, `k` ms later, the phase is the same, `k` ms later.
  phase_after-LaterPhase :
      (memory memory' : Context) (es : List Event)
      → Starts memory es
      → Starts memory' es
      → LaterPhase (phase_after (phase_of memory) es) (phase_after (phase_of memory') (later k es))
  unfolding phase_after Starts phase_of
  phase_after-LaterPhase memory memory' [] s s' = rw (s, s') (record { threat = tt; last = tt })
  phase_after-LaterPhase memory memory' (cycle r ∷ es) s s' =
      next_phase-LaterPhase (phase_after (phase_of memory) es)
        (phase_after (phase_of memory') (later k es)) r
        (phase_after-LaterPhase memory memory' es s s')
  phase_after-LaterPhase memory memory' (restart ∷ es) s s' = record { threat = tt; last = tt }
  phase_after-LaterPhase memory memory' (failed i o e ∷ es) s s' =
      phase_after-LaterPhase memory memory' es s s'

  Shows-later :
      (r : Reading) (p q : Phase) (o o' : Output)
      → LaterPhase p q
      → Shows r p o
      → Shows (later_reading k r) q o'
      → o ≡ o'
  unfolding is_input_valid classify_risk_level
  Shows-later r p q o o' l shows shows' =
      ground (arith, is_null-later p.last_threat q.last_threat l.last)

  -- The time has no origin, and the memory no past: for two contexts that start, whatever they hold,
  -- a cycle after any events and the same cycle after the same events, all `k` ms later, write the
  -- same output, whatever the times are. The timestamps that the code sees wrap around at other
  -- places in the two.
  pub run_shift :
      (memory memory' : Context) (output output' : Output) (r : Reading) (es : List Event)
      → Starts memory es
      → Starts memory' es
      → (run (context_after memory output es) (some (stamped r)) (some output)).1
        ≡ (run
            (context_after memory' output' (later k es))
            (some (stamped (later_reading k r)))
            (some output')).1
  unfolding Starts
  run_shift memory memory' output output' r es starts starts' =
      let (c, o, ran, phase, shows) = run_follows_phase memory output r es in
      let (c', o', ran', phase', shows') =
        run_follows_phase memory' output' (later_reading k r) (later k es) in
      let same : o ≡ o' =
        Shows-later r _ _ o o' (phase_after-LaterPhase memory memory' (cycle r ∷ es) starts starts')
          shows shows' in
      rw (ran, ran', same) refl
