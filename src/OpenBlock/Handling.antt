-- ===== src/OpenBlock/Handling.antt =====
-- When F-04 blocks, and what it tells the driver.
use mbp_t05_child_lock.Base.{
  ◌≡◌, ◌↔◌, ◌≢◌, ◌⊎◌, true, false, Option, none, some, Bool, refl, if◌then◌else◌, arith,
}
use mbp_t05_child_lock.Types.{cl_off, cl_on}
use mbp_t05_child_lock.OpenBlock.{
  Input, Output, opened, notice_none, notice_block_failure, no_event, allowed, blocked,
  block_failed, safe_blocked, handle_event, clear_output, on_handle,
}

-- What the handler leaves in the output.
outcome : Input → Output
outcome input = if input.rear_door_inner_handle_event then on_handle input none_yet else none_yet
  where
    none_yet : Output
    none_yet = record {
      open_request_block = false;
      driver_notice = notice_none;
      block_result = no_event;
    }

-- The result of each case, and the conditions under which it is given.
pub record Classifies (input : Input) (o : Output) : Type 0 where
  pub is_no_event : (o.block_result ≡ no_event) ↔ (input.rear_door_inner_handle_event ≡ false)
  pub is_allowed :
      (o.block_result ≡ allowed)
      ↔ ((input.rear_door_inner_handle_event ≡ true) × (input.current_cl_state ≡ cl_off))
  pub is_blocked : (o.block_result ≡ blocked) ↔ (
      (input.rear_door_inner_handle_event ≡ true)
      × (input.current_cl_state ≡ cl_on)
      × (input.door_state_feedback ≢ opened))
  pub is_block_failed : (o.block_result ≡ block_failed) ↔ (
      (input.rear_door_inner_handle_event ≡ true)
      × (input.current_cl_state ≡ cl_on)
      × (input.door_state_feedback ≡ opened))
  pub is_safe_blocked : (o.block_result ≡ safe_blocked) ↔ (
      (input.rear_door_inner_handle_event ≡ true)
      × (input.current_cl_state ≢ cl_off)
      × (input.current_cl_state ≢ cl_on))
  pub is_reported :
      (o.driver_notice ≡ notice_block_failure)
      ↔ ((o.block_result ≡ block_failed) ⊎ (o.block_result ≡ safe_blocked))
  pub is_silent :
      (o.driver_notice ≡ notice_none) ↔ ((o.block_result ≡ no_event) ⊎ (o.block_result ≡ allowed))
  pub blocks :
      (o.open_request_block ≡ true)
      ↔ ((input.rear_door_inner_handle_event ≡ true) × (input.current_cl_state ≢ cl_off))

-- What the handler answers, and what its output pointer holds afterwards, for any pointers.
abbrev pub Answers : Option Input → Option Output → Bool × Option Output → Type 0
Answers none output answer = answer ≡ (false, clear_output output)
Answers (some input) none answer = answer ≡ (false, none)
Answers (some input) (some output) answer =
    (o : Output) × (answer ≡ (true, some o)) × Classifies input o

-- With a pointer that is NULL the handler answers false, and only clears the output if there is one.
-- With both pointers it answers true, and its output classifies the input: the request is blocked
-- exactly when the handle is pulled and the lock is anything but off, and the result and the notice
-- tell no event, an allowed request, a block, a block that the door feedback contradicts, and the
-- block for an invalid lock state apart.
pub handle_event-Answers :
    (input : Option Input) (output : Option Output)
    → Answers input output (handle_event input output)
unfolding handle_event outcome
handle_event-Answers none output = refl
handle_event-Answers (some input) none = refl
handle_event-Answers (some input) (some output) = (outcome input, ground arith, ground arith)
