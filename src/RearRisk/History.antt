-- ===== src/RearRisk/History.antt =====
-- The hysteresis of F-07 as it is meant, over the history of the valid measurements: newest first,
-- with times that do not wrap around and with no timers.
use mbp_t05_child_lock.Base.{
  ℕ, ◌+◌, ◌-◌, ◌≤◌, ◌<◌, ◌≡◌, ◌⊎◌, Bool, true, false, ◌&&◌, ◌||◌, List, [], ◌∷◌, ltb, leb,
  if◌then◌else◌, arith,
}
use mbp_t05_child_lock.Types.{rear_risk_confirm_duration_ms, rear_risk_clear_duration_ms}

pub record Sample : Type 0 where
  pub time : ℕ
  pub threat : Bool

abbrev pub History : Type 0
History = List Sample

abbrev pub in_threat : History → Bool
in_threat [] = false
in_threat (s ∷ h) = s.threat

abbrev pub newest : History → ℕ
newest [] = 0
newest (s ∷ h) = s.time

-- When the threat that is present at the newest sample began.
unfoldable pub streak_start : History → ℕ
streak_start [] = 0
streak_start (s ∷ h) = let start = streak_start h in if in_threat h then start else s.time

-- When a threat was last present.
unfoldable pub last_threat : History → ℕ
last_threat [] = 0
last_threat (s ∷ h) = let last = last_threat h in if s.threat then s.time else last

-- The risk is high from a threat that has lasted 500 ms until 1000 ms with no threat have passed.
unfoldable pub high : History → Bool
high [] = false
high (s ∷ h) =
    let before = high h in
    if s.threat
    then before || leb rear_risk_confirm_duration_ms (s.time - streak_start (s ∷ h))
    else before && ltb (s.time - last_threat h) rear_risk_clear_duration_ms

-- Times do not fall, and the gap between two samples stays 1000 ms below 2 ^ 32 ms (49.7 days).
abbrev pub max_gap_ms : ℕ
max_gap_ms = 4294966296

abbrev pub WellTimed : History → Type 0
WellTimed [] = Unit
WellTimed (s ∷ []) = Unit
WellTimed (s ∷ t ∷ h) = (t.time ≤ s.time) × (s.time < t.time + max_gap_ms) × WellTimed (t ∷ h)

pub WellTimed-tail : (s : Sample) (h : History) → WellTimed (s ∷ h) → WellTimed h
WellTimed-tail s [] w = tt
WellTimed-tail s (t ∷ h) w = w.2

-- A threat that has not yet made the risk high is younger than 500 ms.
pub streak_start_bounds :
    (h : History)
    → WellTimed h
    → in_threat h ≡ true
    → (streak_start h ≤ newest h)
      × ((high h ≡ true) ⊎ (newest h < streak_start h + rear_risk_confirm_duration_ms))
unfolding streak_start high
streak_start_bounds [] w t = cc
streak_start_bounds (s ∷ []) w t = ground arith
streak_start_bounds (s ∷ r ∷ h) w t = ground (arith, streak_start_bounds (r ∷ h) w.2)

-- While the risk is high, the last threat is less than 1000 ms ago.
pub last_threat_bounds :
    (h : History)
    → WellTimed h
    → high h ≡ true
    → (last_threat h ≤ newest h) × (newest h < last_threat h + rear_risk_clear_duration_ms)
unfolding last_threat high
last_threat_bounds [] w t = cc
last_threat_bounds (s ∷ []) w t = ground arith
last_threat_bounds (s ∷ r ∷ h) w t = ground (arith, last_threat_bounds (r ∷ h) w.2)
