-- ===== src/RearRisk/Timers.antt =====
-- The timers of F-07, on wrapped timestamps, follow the history.
use mbp_t05_child_lock.Base.{ℕ, ◌%◌, ◌≡◌, refl, Bool, true, [], ◌∷◌, u32_mod, arith}
use mbp_t05_child_lock.RearRisk.{Context, update_hysteresis}
use mbp_t05_child_lock.RearRisk.Cycle.{fresh}
use mbp_t05_child_lock.RearRisk.History.{
  Sample, History, in_threat, streak_start, last_threat, high, WellTimed, streak_start_bounds,
  last_threat_bounds,
}

-- The context that belongs to a history. A timer that no later step reads is left open.
pub record Follows (h : History) (ctx : Context) : Type 0 where
  pub agrees : ctx.is_risk_high_active ≡ high h
  pub ongoing : ctx.is_threat_ongoing ≡ in_threat h
  pub onset : in_threat h ≡ true → ctx.risk_onset_timestamp_ms ≡ streak_start h % u32_mod
  pub cleared : high h ≡ true → ctx.risk_clear_timestamp_ms ≡ last_threat h % u32_mod

-- One update of the timers, at the wrapped time of the next sample, keeps the context with the
-- history. No timer has wrapped around unnoticed: a threat that lasts longer, or a calm that does,
-- has been acted on before.
pub update_hysteresis-Follows :
    (h : History) (s : Sample) (ctx : Context)
    → WellTimed (s ∷ h)
    → Follows h ctx
    → Follows (s ∷ h) (update_hysteresis ctx s.threat (s.time % u32_mod))
unfolding update_hysteresis streak_start last_threat high
update_hysteresis-Follows [] s ctx w f = ground arith
update_hysteresis-Follows (t ∷ h) s ctx w f =
    ground (arith, streak_start_bounds (t ∷ h) w.2, last_threat_bounds (t ∷ h) w.2)

-- A fresh context belongs to the empty history.
pub fresh-Follows : Follows [] fresh
unfolding high
fresh-Follows = record { agrees = refl; ongoing = refl; onset = λ e. cc; cleared = λ e. cc }

pub update_hysteresis_initialized :
    (ctx : Context) (threat : Bool) (now : ℕ)
    → (update_hysteresis ctx threat now).is_initialized ≡ ctx.is_initialized
unfolding update_hysteresis
update_hysteresis_initialized ctx threat now = ground arith
