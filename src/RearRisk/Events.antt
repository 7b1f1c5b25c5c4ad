-- ===== src/RearRisk/Events.antt =====
-- What happens to a context of F-07 over time, and the history of the measurements in it.
use mbp_t05_child_lock.Base.{
  ℕ, ◌%◌, ◌≡◌, ◌||◌, Bool, true, false, Option, some, is_null, List, [], ◌∷◌, u32_mod,
}
use mbp_t05_child_lock.RearRisk.{
  Context, Input, Output, is_input_valid, is_raw_threat_active, run, reset,
}
use mbp_t05_child_lock.RearRisk.History.{Sample, History}

-- A measurement, with the time at which it is taken. The code sees the time modulo 2 ^ 32.
pub record Reading : Type 0 where
  pub time : ℕ
  pub input : Input

abbrev pub stamped : Reading → Input
stamped r = record r.input { timestamp_ms = r.time % u32_mod }

-- The samples of the readings that pass the check, newest first as the readings are.
abbrev pub sample : Reading → Sample
sample r = record { time = r.time; threat = is_raw_threat_active (stamped r) }

abbrev pub add_sample : Bool → Reading → History → History
add_sample true r h = sample r ∷ h
add_sample false r h = h

-- What happens to a context: a cycle, a reset, or a call of `run` with a NULL pointer. The two
-- pointers of the last are those to the input and the output.
pub data Event : Type 0 where
  cycle : Reading → Event
  restart : Event
  failed :
      (input : Option Input) (output : Option Output)
      → is_null input || is_null output ≡ true
      → Event

-- The valid measurements since the last reset.
unfoldable pub history_of : List Event → History
history_of [] = []
history_of (cycle r ∷ es) = add_sample (is_input_valid (stamped r)) r (history_of es)
history_of (restart ∷ es) = []
history_of (failed i o e ∷ es) = history_of es

abbrev pub context_of : Option Context × Option Output → Option Context
context_of (c, o) = c

-- The context after a run for each cycle, and a reset for each reset, from any memory.
unfoldable pub context_after : Context → Output → List Event → Option Context
context_after memory output [] = some memory
context_after memory output (cycle r ∷ es) =
    context_of (run (context_after memory output es) (some (stamped r)) (some output))
context_after memory output (restart ∷ es) = reset (context_after memory output es)
context_after memory output (failed i o e ∷ es) =
    context_of (run (context_after memory output es) i o)

-- The memory is marked as not initialised, as zeroed memory is, or it is reset before it is used.
-- The code has the same function for initialisation and reset.
unfoldable pub Starts : Context → List Event → Type 0
Starts memory [] = memory.is_initialized ≡ false
Starts memory (cycle r ∷ es) = Starts memory es
Starts memory (restart ∷ es) = Unit
Starts memory (failed i o e ∷ es) = Starts memory es
