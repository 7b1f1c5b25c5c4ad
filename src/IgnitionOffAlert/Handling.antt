-- ===== src/IgnitionOffAlert/Handling.antt =====
-- Initialisation of F-10, and what one event leads to.
use mbp_t05_child_lock.Base.{
  ◌≡◌, refl, ◌↔◌, ◌≢◌, ◌⊎◌, ◌&&◌, ◌||◌, not, Bool, true, false, Option, none, some, is_null,
  if◌then◌else◌, arith,
}
use mbp_t05_child_lock.Types.{cl_off, cl_on, is_cl_on}
use mbp_t05_child_lock.IgnitionOffAlert.{
  QueryReply, Message, is_valid_state, QueryStateCallback, Config, Input, Output, Alert, After,
  message_none, cl_on_summary, query_fallback, priority_none, priority_status, has_valid_config,
  init, handle_event,
}

-- A reply that gives one of the two lock states.
abbrev pub IsUsable : QueryReply → Type 0
IsUsable reply = (reply.succeeded ≡ true) × ((reply.state ≡ cl_off) ⊎ (reply.state ≡ cl_on))

abbrev is_none : Message → Bool
is_none message_none = true
is_none cl_on_summary = false
is_none query_fallback = false

says : Message → Output
says message = record {
  status_summary_message = message;
  alert_priority = if is_none message then priority_none else priority_status;
  event_log = not (is_none message);
  alert_issued = not (is_none message);
}

module _ {E : Type 0} where
  -- Initialisation succeeds exactly with a context and a configuration that has the callback. After
  -- any initialisation, failed ones included, no event makes the handler call through NULL; and the
  -- handler answers true exactly after a successful one, with neither pointer NULL.
  pub init_defined :
      (alert : Option (Alert E)) (config : Option (Config E)) (input : Option Input)
      (output : Option Output) (e : E)
      → let (done, after) = init alert config in
        (done ≡ (not (is_null alert) && has_valid_config config))
        × (handle_event after input output e ≢ none)
        × ((a : After E)
            → handle_event after input output e ≡ some a
            → a.handled ≡ (done && not (is_null input || is_null output)))
  unfolding init handle_event
  init_defined alert config input output e = ground arith

  -- The output of an event, and the latch after it.
  pub record Announces (alert : Alert E) (input : Input) (reply : QueryReply) (o : Output)
      (after : Alert E) : Type 0 where
    pub summary : (o.status_summary_message ≡ cl_on_summary) ↔ (
        (input.ignition_off_event ≡ true)
        × (alert.alert_already_issued ≡ false)
        × (reply.succeeded ≡ true)
        × (reply.state ≡ cl_on))
    pub fallback : (o.status_summary_message ≡ query_fallback) ↔ (
        (input.ignition_off_event ≡ true)
        × (alert.alert_already_issued ≡ false)
        × (¬ IsUsable reply))
    pub issued : (o.alert_issued ≡ true) ↔ (o.status_summary_message ≢ message_none)
    pub logged : o.event_log ≡ o.alert_issued
    pub ranked : (o.alert_priority ≡ priority_status) ↔ (o.alert_issued ≡ true)
    pub latched : after.alert_already_issued ≡ (alert.alert_already_issued || o.alert_issued)
    pub same_config : after.config ≡ alert.config

  -- The message, the output, the context and the environment after an event.
  told : Alert E → Input → QueryReply → Message
  told alert input reply =
      if input.ignition_off_event && not alert.alert_already_issued
      then (if reply.succeeded && is_valid_state reply.state
          then (if is_cl_on reply.state then cl_on_summary else message_none)
          else query_fallback)
      else message_none

  latched_by : Alert E → Message → Alert E
  latched_by alert message = record alert {
    alert_already_issued = alert.alert_already_issued || not (is_none message);
  }

  after_event : Alert E → QueryStateCallback E → Input → E → After E
  after_event alert ask input e =
      let message = told alert input (ask cl_off e).0 in
      record {
        handled = true;
        alert = some (latched_by alert message);
        output = some (says message);
        env =
            if input.ignition_off_event && not alert.alert_already_issued
            then (ask cl_off e).1
            else e;
      }

  -- With an initialised context, its query, and neither pointer NULL, the event is handled: as long
  -- as the context is not latched, an ignition off with the lock on gives the summary, and one whose
  -- query fails or gives no lock state the fallback; nothing else gives a message. A message is
  -- logged, ranked as a status, and latches the context, whose configuration stays. Without a message
  -- the code leaves no log entry, also where an alert is omitted, as the lock is off, or suppressed,
  -- as the context is latched.
  pub handle_event-Announces :
      (alert : Alert E) (ask : QueryStateCallback E) (input : Input) (output : Output) (e : E)
      → alert.is_initialized ≡ true
      → alert.config.query_child_lock_state ≡ some ask
      → (a : After E) × (o : Output) × (after : Alert E) × (handle_event
            (some alert)
            (some input)
            (some output)
            e
          ≡ some a)
        × (a.output ≡ some o)
        × (a.alert ≡ some after)
        × Announces alert input (ask cl_off e).0 o after
  unfolding handle_event is_valid_state told says latched_by after_event
  handle_event-Announces alert ask input output e ready asks =
      let message = told alert input (ask cl_off e).0 in
      (
        after_event alert ask input e,
        says message,
        latched_by alert message,
        ground arith,
        refl,
        refl,
        ground arith,
      )

  -- Neither another active HMI alert nor an unhealthy HMI changes anything: two inputs with the same
  -- ignition-off flag lead to the same outcome.
  pub handle_event_ignores_hmi :
      (alert : Option (Alert E)) (input input' : Input) (output : Option Output) (e : E)
      → input.ignition_off_event ≡ input'.ignition_off_event
      → handle_event alert (some input) output e ≡ handle_event alert (some input') output e
  unfolding handle_event
  handle_event_ignores_hmi alert input input' output e same = ground arith
