-- ===== src/IgnitionOffAlert.antt =====
-- src/F10_IgnitionOffStatusAlert.c and its header. A pointer is an `Option`, NULL is `none`. The
-- query callback is not part of the sources: it is a function over a type `E` of environments. The
-- handler gives its result, what its pointers hold, and the environment; it gives `none` where the
-- code would call or read through NULL.
pub mod Handling
pub mod Once
pub mod Policy
mod Examples
mod UnitTests
use mbp_t05_child_lock.Base.{
  Bool, true, false, not, ◌&&◌, ◌||◌, Option, none, some, is_null, if◌then◌else◌,
}
use mbp_t05_child_lock.Types.{ChildLockState, cl_off, is_cl_off, is_cl_on}

pub data Message : Type 0 where
  message_none cl_on_summary query_fallback : Message

pub data Priority : Type 0 where
  priority_none priority_status : Priority

-- What the query answers, and what it leaves in its out parameter.
pub record QueryReply : Type 0 where
  pub succeeded : Bool
  pub state : ChildLockState

-- The callback is given what the out parameter holds when it is called.
abbrev pub QueryStateCallback : Type 0 → Type 0
QueryStateCallback E = ChildLockState → E → QueryReply × E

pub record Config (E : Type 0) : Type 0 where
  pub query_child_lock_state : Option (QueryStateCallback E)

pub record Input : Type 0 where
  pub ignition_off_event : Bool
  pub active_hmi_alert : Bool
  pub hmi_healthy : Bool

pub record Output : Type 0 where
  pub status_summary_message : Message
  pub alert_priority : Priority
  pub event_log : Bool
  pub alert_issued : Bool

pub record Alert (E : Type 0) : Type 0 where
  pub config : Config E
  pub is_initialized : Bool
  pub alert_already_issued : Bool

unfoldable pub clear_output : Option Output → Option Output
clear_output none = none
clear_output (some output) = some (record output {
  status_summary_message = message_none;
  alert_priority = priority_none;
  event_log = false;
  alert_issued = false;
})

unfoldable pub is_valid_state : ChildLockState → Bool
is_valid_state state = is_cl_off state || is_cl_on state

issue_alert : Option Output → Message → Option Output
issue_alert none message = none
issue_alert (some output) message = some (record output {
  status_summary_message = message;
  alert_priority = priority_status;
  event_log = true;
  alert_issued = true;
})

module _ {E : Type 0} where
  unfoldable pub has_valid_config : Option (Config E) → Bool
  has_valid_config none = false
  has_valid_config (some config) = not (is_null config.query_child_lock_state)

  unfoldable pub is_ready : Option (Alert E) → Option Input → Option Output → Bool
  is_ready (some alert) (some input) (some output) = alert.is_initialized
  is_ready alert input output = false

  issue_latched_alert :
      Option (Alert E) → Option Output → Message → Option (Alert E) × Option Output
  unfolding issue_alert
  issue_latched_alert none output message = (none, output)
  issue_latched_alert (some alert) output message =
      (some (record alert { alert_already_issued = true }), issue_alert output message)

  -- The second `if` of `init`, over the context that the first one has marked.
  init_marked : Alert E → Option (Config E) → Bool × Option (Alert E)
  init_marked alert none = (false, some alert)
  init_marked alert (some config) =
      if has_valid_config (some config)
      then (
        true,
        some
            (record alert { config = config; is_initialized = true; alert_already_issued = false }),
      )
      else (false, some alert)

  unfoldable pub init : Option (Alert E) → Option (Config E) → Bool × Option (Alert E)
  unfolding has_valid_config init_marked
  init none config = (false, none)
  init (some alert) config =
      init_marked (record alert { is_initialized = false; alert_already_issued = false }) config

  -- The branches on what the query has answered.
  answer : Option (Alert E) → Option Output → QueryReply → Option (Alert E) × Option Output
  unfolding is_valid_state issue_latched_alert
  answer alert output reply =
      if not reply.succeeded || not (is_valid_state reply.state)
      then issue_latched_alert alert output query_fallback
      else if is_cl_on reply.state
      then issue_latched_alert alert output cl_on_summary
      else (alert, output)

-- What a handler leaves behind.
pub record After (E : Type 0) : Type 0 where
  pub handled : Bool
  pub alert : Option (Alert E)
  pub output : Option Output
  pub env : E

module _ {E : Type 0} where
  query : Option (QueryStateCallback E) → Alert E → Output → E → Option (After E)
  unfolding answer
  query none alert output e = none
  query (some ask) alert output e =
      let (reply, e') = ask cl_off e in
      let (alert', output') = answer (some alert) (some output) reply in
      some (record { handled = true; alert = alert'; output = output'; env = e' })

  handle_ready : Option (Alert E) → Option Input → Option Output → E → Option (After E)
  unfolding query
  handle_ready none input output e = none
  handle_ready (some alert) none output e = none
  handle_ready (some alert) (some input) none e = none
  handle_ready (some alert) (some input) (some output) e =
      if input.ignition_off_event && not alert.alert_already_issued
      then query alert.config.query_child_lock_state alert output e
      else some (record { handled = true; alert = some alert; output = some output; env = e })

  unfoldable pub handle_event :
      Option (Alert E) → Option Input → Option Output → E → Option (After E)
  unfolding clear_output is_ready handle_ready
  handle_event alert input output e =
      let cleared = clear_output output in
      if is_ready alert input cleared
      then handle_ready alert input cleared e
      else some (record { handled = false; alert = alert; output = cleared; env = e })
