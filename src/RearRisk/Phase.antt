-- ===== src/RearRisk/Phase.antt =====
-- F-07 as a state machine. Of the five fields of a context only two facts count: since when a threat
-- has been going on, and when the last threat of a high risk was. A timer that no test reads is
-- forgotten. Timestamps are those of the code, modulo 2 ^ 32.
use mbp_t05_child_lock.Base.{
  ℕ, Bool, true, false, ◌||◌, Option, none, some, is_null, not, List, [], ◌∷◌, leb, sub32,
  if◌then◌else◌,
}
use mbp_t05_child_lock.Types.{rear_risk_confirm_duration_ms, rear_risk_clear_duration_ms}
use mbp_t05_child_lock.RearRisk.{Context, is_input_valid, is_raw_threat_active}
use mbp_t05_child_lock.RearRisk.Events.{Reading, stamped, Event, cycle, restart, failed}

pub record Phase : Type 0 where
  pub threat_since : Option ℕ
  pub last_threat : Option ℕ

-- No threat, and no high risk.
abbrev pub idle : Phase
idle = record { threat_since = none; last_threat = none }

-- The phase of a context; one that is not initialised counts as idle.
unfoldable pub phase_of : Context → Phase
phase_of ctx =
    if ctx.is_initialized
    then record {
      threat_since = if ctx.is_threat_ongoing then some ctx.risk_onset_timestamp_ms else none;
      last_threat = if ctx.is_risk_high_active then some ctx.risk_clear_timestamp_ms else none;
    }
    else idle

-- Since when a threat has been going on, with one seen now.
abbrev pub begun : Option ℕ → ℕ → ℕ
begun none now = now
begun (some t) now = t

-- A high risk without a threat: it ends 1000 ms or more after the last one.
abbrev pub fading : Option ℕ → ℕ → Option ℕ
fading none now = none
fading (some t) now = if leb rear_risk_clear_duration_ms (sub32 now t) then none else some t

-- A threat makes the risk high after 500 ms, and renews a high risk.
unfoldable pub step : Phase → Bool → ℕ → Phase
step p true now = record {
  threat_since = some (begun p.threat_since now);
  last_threat =
      if not (is_null p.last_threat)
        || leb rear_risk_confirm_duration_ms (sub32 now (begun p.threat_since now))
      then some now
      else none;
}
step p false now = record { threat_since = none; last_threat = fading p.last_threat now }

-- A reading that fails the check changes nothing.
unfoldable pub next_phase : Phase → Reading → Phase
next_phase p r =
    if is_input_valid (stamped r)
    then step p (is_raw_threat_active (stamped r)) (stamped r).timestamp_ms
    else p

unfoldable pub phase_after : Phase → List Event → Phase
phase_after p [] = p
phase_after p (cycle r ∷ es) = next_phase (phase_after p es) r
phase_after p (restart ∷ es) = idle
phase_after p (failed i o e ∷ es) = phase_after p es
