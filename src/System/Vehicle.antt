-- ===== src/System/Vehicle.antt =====
-- F-01, F-02, F-07 and F-08 in one loop, as the design has them side by side: in each cycle F-02 sets
-- the lock, and F-08 after it, on what F-07 makes of the rear sensor.
use mbp_t05_child_lock.Base.{◌≡◌, refl, Bool, false, ◌||◌, some, List, [], ◌∷◌, arith}
use mbp_t05_child_lock.Types.{ChildLockState}
use mbp_t05_child_lock.InputMonitor.{RawInput, ValidatedOutput, process}
use mbp_t05_child_lock.Decision.{DecisionInput, decide_child_lock_state}
use mbp_t05_child_lock.RearRisk
use mbp_t05_child_lock.RearRisk.Events.{Reading, stamped}
use mbp_t05_child_lock.RearRisk.Cycle.{next_context, next_output, run-next}
use mbp_t05_child_lock.Protection
use mbp_t05_child_lock.Protection.Actions.{run-Protects}
use mbp_t05_child_lock.System.DoorControl
use mbp_t05_child_lock.System.Loop.{join, join-Joins}
use mbp_t05_child_lock.System.LockControl.{own, shared}
use mbp_t05_child_lock.System.Verdict.{others}

-- What one cycle is given: the raw signals, whether other components report a fault to F-02, and the
-- reading of the rear sensor.
pub record Signals : Type 0 where
  pub raw : RawInput
  pub faulty : Bool
  pub rear : Reading

pub record Vehicle : Type 0 where
  pub lock : ChildLockState
  pub context : RearRisk.Context

-- What the outputs of the components held before the cycle.
pub record Held : Type 0 where
  pub validated : ValidatedOutput
  pub risk : RearRisk.Output
  pub protection : Protection.Output

-- One cycle, with the inputs of F-02 and F-08, and the outputs of F-07 and F-08.
pub record Cycles (v : Vehicle) (g : Signals) (w : Vehicle) : Type 0 where
  pub held : Held
  pub input : DecisionInput
  pub risk : RearRisk.Output
  pub danger : Protection.Input
  pub reaction : Protection.Output
  pub joined : DoorControl.Joins (process g.raw held.validated) input
  pub faults : others input.fault_flags ≡ g.faulty
  pub current : input.current_cl_state ≡ own v.lock
  pub rates :
      RearRisk.run (some v.context) (some (stamped g.rear)) (some held.risk)
      ≡ (some w.context, some risk)
  pub high : danger.risk_high ≡ risk.risk_high
  pub valid : danger.risk_valid ≡ risk.risk_valid
  pub ignition : danger.ignition_state ≡ g.raw.ignition_state
  pub decided : danger.current_cl_state ≡ shared (decide_child_lock_state input).target_cl_state
  pub reacts : Protection.run (some danger) (some held.protection) ≡ some reaction
  pub sets : w.lock ≡ reaction.target_cl_state

-- Any number of cycles.
pub data Ride : Vehicle → List Signals → Vehicle → Type 0 where
  arrived : {v : Vehicle} → Ride v [] v
  cycle :
      {u v w : Vehicle} {g : Signals} {gs : List Signals}
      → Cycles u g v
      → Ride v gs w
      → Ride u (g ∷ gs) w

-- A cycle can be had from any lock and any context, for any signals, whatever the outputs held.
abbrev pub input_of : Vehicle → Signals → Held → DecisionInput
input_of v g held =
    join (process g.raw held.validated) (own v.lock)
      (record { speed_signal_fault = false; sensor_fault = g.faulty; state_inconsistency = false })

abbrev pub danger_of : Vehicle → Signals → Held → Protection.Input
danger_of v g held =
    let risk = next_output v.context (stamped g.rear) in
    record {
      risk_high = risk.risk_high;
      risk_valid = risk.risk_valid;
      current_cl_state = shared (decide_child_lock_state (input_of v g held)).target_cl_state;
      ignition_state = g.raw.ignition_state;
    }

others_lem : (b : Bool) → (b || false) ≡ b
others_lem b = ground arith

pub some-Cycles : (v : Vehicle) (g : Signals) (held : Held) → (w : Vehicle) × Cycles v g w
some-Cycles v g held =
    let (o, ran, fits) = run-Protects (danger_of v g held) held.protection in
    (
      record { lock = o.target_cl_state; context = next_context v.context (stamped g.rear) },
      record {
        held = held;
        input = input_of v g held;
        risk = next_output v.context (stamped g.rear);
        danger = danger_of v g held;
        reaction = o;
        joined = join-Joins (process g.raw held.validated) (own v.lock) (record {
          speed_signal_fault = false;
          sensor_fault = g.faulty;
          state_inconsistency = false;
        });
        faults = others_lem g.faulty;
        current = refl;
        rates = run-next v.context (stamped g.rear) held.risk;
        high = refl;
        valid = refl;
        ignition = refl;
        decided = refl;
        reacts = ran;
        sets = refl;
      },
    )

-- So the loop runs on for any signals.
pub some-Ride : (v : Vehicle) (gs : List Signals) (held : Held) → (w : Vehicle) × Ride v gs w
some-Ride v [] held = (v, arrived)
some-Ride v (g ∷ gs) held =
    let (u, c) = some-Cycles v g held in let (w, rest) = some-Ride u gs held in (w, cycle c rest)
