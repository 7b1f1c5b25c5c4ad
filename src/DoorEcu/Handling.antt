-- ===== src/DoorEcu/Handling.antt =====
-- What F-03 reports for every input.
use mbp_t05_child_lock.Base.{
  ℕ, ◌≡◌, refl, ◌↔◌, ◌≢◌, ◌⊎◌, ◌&&◌, true, false, Option, none, some, Bool, Bool-cases, inl, inr,
  arith,
}
use mbp_t05_child_lock.Types.{
  ChildLockState, cl_off, cl_on, fault_flag_none, fault_flag_ecu_ack_fail, max_ecu_retry_count,
}
use mbp_t05_child_lock.DoorEcu.{
  DecisionReason, driver_request, auto_lock, emergency_release, safe_locked, state_restore,
  reason_other, Input, Output, command_none, command_cl_off, command_cl_on, not_checked, issue,
  received, not_received, not_required, exhausted, handle_command, clear_output, is_valid_state,
  is_valid_reason,
}

abbrev pub IsReason : DecisionReason → Type 0
IsReason r = (n : ℕ) → r ≢ reason_other n

is_valid_reason_iff : (r : DecisionReason) → (is_valid_reason r ≡ true) ↔ IsReason r
unfolding is_valid_reason
is_valid_reason_iff (reason_other n) = (λ h. cc, λ h. absurd (h n refl))
is_valid_reason_iff driver_request = (λ h n e. cc, λ h. refl)
is_valid_reason_iff auto_lock = (λ h n e. cc, λ h. refl)
is_valid_reason_iff emergency_release = (λ h n e. cc, λ h. refl)
is_valid_reason_iff safe_locked = (λ h n e. cc, λ h. refl)
is_valid_reason_iff state_restore = (λ h n e. cc, λ h. refl)

is_valid_state_iff : (s : ChildLockState) → (is_valid_state s ≡ true) ↔ ((s ≡ cl_off) ⊎ (s ≡ cl_on))
unfolding is_valid_state
is_valid_state_iff s = ground arith

handle_command_tests :
    (input : Input) (output : Output)
    → (handle_command (some input) (some output)).0
      ≡ is_valid_state input.target_cl_state && is_valid_reason input.decision_reason
unfolding handle_command
handle_command_tests input output = ground arith

accepts_iff :
    (input : Input) (output : Output)
    → ((handle_command (some input) (some output)).0 ≡ true) ↔ (
        ((input.target_cl_state ≡ cl_off) ⊎ (input.target_cl_state ≡ cl_on))
        × IsReason input.decision_reason)
accepts_iff input output =
    let (state, state') = is_valid_state_iff input.target_cl_state in
    let (reason, reason') = is_valid_reason_iff input.decision_reason in
    rw (handle_command_tests input output) (
      λ h. (state (ground arith), reason (ground arith)),
      λ h. ground (arith, state' h.0, reason' h.1),
    )

-- The arguments that the handler acts on.
abbrev pub IsAcceptable : Option Input → Option Output → Type 0
IsAcceptable none output = ⊥
IsAcceptable (some input) none = ⊥
IsAcceptable (some input) (some output) =
    ((input.target_cl_state ≡ cl_off) ⊎ (input.target_cl_state ≡ cl_on))
    × IsReason input.decision_reason

handle_command_clears :
    (input : Option Input) (output : Option Output)
    → (handle_command input output).0 ≡ false
    → (handle_command input output).1 ≡ clear_output output
unfolding handle_command
handle_command_clears input output h = ground arith

-- The handler accepts its arguments exactly when neither pointer is NULL, the state is one of the two
-- lock states, and the reason is one of the five enumerators. Where it does not, the output is
-- cleared: no command, no fault, and nothing left of what it held.
pub handle_command_answers :
    (input : Option Input) (output : Option Output)
    → (((handle_command input output).0 ≡ true) ↔ IsAcceptable input output)
      × ((handle_command input output).0 ≡ false
          → (handle_command input output).1 ≡ clear_output output)
unfolding handle_command
handle_command_answers none output = ((λ h. cc, λ h. absurd h), handle_command_clears none output)
handle_command_answers (some input) none =
    ((λ h. cc, λ h. absurd h), handle_command_clears (some input) none)
handle_command_answers (some input) (some output) =
    (accepts_iff input output, handle_command_clears (some input) (some output))

-- The report that fits an accepted input: the command of the target state, and, with no
-- acknowledgement, used-up retries and a fault to store.
pub record Reports (input : Input) (o : Output) : Type 0 where
  pub off_command : (o.child_lock_command ≡ command_cl_off) ↔ (input.target_cl_state ≡ cl_off)
  pub on_command : (o.child_lock_command ≡ command_cl_on) ↔ (input.target_cl_state ≡ cl_on)
  pub acknowledged :
      input.door_ecu_ack ≡ true
      → (o.ack_status ≡ received)
        × (o.retry_status ≡ not_required)
        × (o.dtc ≡ fault_flag_none)
        × (o.retry_count ≡ 0)
  pub unacknowledged :
      input.door_ecu_ack ≡ false
      → (o.ack_status ≡ not_received)
        × (o.retry_status ≡ exhausted)
        × (o.dtc ≡ fault_flag_ecu_ack_fail)
        × (o.retry_count ≡ max_ecu_retry_count)

-- What an accepted command leaves in the output.
report : Input → Output
report input = issue input (record {
  child_lock_command = command_none;
  ack_status = not_checked;
  retry_status = not_required;
  dtc = fault_flag_none;
  retry_count = 0;
})

-- An accepted command is answered with true and, whatever the output held before, with a report
-- that fits the input: the command of the target state, and, without an acknowledgement, used-up
-- retries (3) and the acknowledgement fault.
pub handle_command-Reports :
    (input : Input) (output : Output)
    → (handle_command (some input) (some output)).0 ≡ true
    → (o : Output) × (handle_command (some input) (some output) ≡ (true, some o)) × Reports input o
unfolding handle_command report
handle_command-Reports input output h = (report input, ground arith, ground arith)

-- What the handler answers, and what its output pointer holds afterwards, for any pointers.
abbrev pub Answers : Option Input → Option Output → Bool × Option Output → Type 0
Answers none output answer = answer ≡ (false, clear_output output)
Answers (some input) none answer = answer ≡ (false, none)
Answers (some input) (some output) answer =
    (IsAcceptable (some input) (some output)
      × (o : Output) × (answer ≡ (true, some o))
      × Reports input o)
    ⊎ ((¬ IsAcceptable (some input) (some output)) × (answer ≡ (false, clear_output (some output))))

rejected :
    (input : Input) (output : Output)
    → (handle_command (some input) (some output)).0 ≡ false
    → handle_command (some input) (some output) ≡ (false, clear_output (some output))
unfolding handle_command
rejected input output h = ground arith

-- With a pointer that is NULL the handler answers false, and only clears the output if there is one.
-- With both it accepts an input whose state is one of the two lock states and whose reason is one of
-- the five enumerators: it answers true, and leaves, whatever the output held before, a report that
-- fits, with the command of the target state, and, without an acknowledgement, used-up retries (3) and
-- the acknowledgement fault. Any other input it rejects: it answers false, and clears the output.
pub handle_command-Answers :
    (input : Option Input) (output : Option Output)
    → Answers input output (handle_command input output)
unfolding handle_command
handle_command-Answers none output = refl
handle_command-Answers (some input) none = refl
handle_command-Answers (some input) (some output) =
    let (accepts, accepted) = (handle_command_answers (some input) (some output)).0 in
    elim (Bool-cases ((handle_command (some input) (some output)).0)) [
      | inl done ↦
          let (o, ran, fits) = handle_command-Reports input output done in
          inl (accepts done, o, ran, fits)
      | inr not_done ↦ inr (λ a. ground (arith, accepted a), rejected input output not_done)
    ]
