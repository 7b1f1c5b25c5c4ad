-- ===== src/IgnitionOffAlert/Policy.antt =====
-- The alert-once policy that F-10 follows, and any sequence of events and initialisations. An alert that
-- is omitted leaves no log entry, where the diagrams of the design want one.
use mbp_t05_child_lock.Base.{
  ◌≡◌, refl, ◌&&◌, ◌||◌, not, Bool, true, false, Option, none, some, List, [], ◌∷◌, if◌then◌else◌,
  ap, arith,
}
use mbp_t05_child_lock.Types.{cl_off, is_cl_off, is_cl_on}
use mbp_t05_child_lock.IgnitionOffAlert.{
  QueryReply, Message, message_none, cl_on_summary, query_fallback, priority_none, priority_status,
  QueryStateCallback, Config, Output, Alert, After, init, handle_event,
}
use mbp_t05_child_lock.IgnitionOffAlert.Once.{Event, context, handle}

-- The message that a reply calls for: none where it says that the lock is off.
abbrev pub message_for : QueryReply → Message
message_for reply =
    if reply.succeeded && is_cl_on reply.state
    then cl_on_summary
    else if reply.succeeded && is_cl_off reply.state
    then message_none
    else query_fallback

abbrev pub is_silent : Message → Bool
is_silent message_none = true
is_silent cl_on_summary = false
is_silent query_fallback = false

-- A message is shown with a priority and a log entry.
abbrev pub announcing : Message → Output
announcing message = record {
  status_summary_message = message;
  alert_priority = if is_silent message then priority_none else priority_status;
  event_log = not (is_silent message);
  alert_issued = not (is_silent message);
}

-- What happens to a context: an event, or a new initialisation.
pub data Action (E : Type 0) : Type 0 where
  happens : Event E → Action E
  restart : Action E

module _ {E : Type 0} (ask : QueryStateCallback E) where
  -- The message that an event deserves, whatever was shown before.
  abbrev pub deserved : Event E → Message
  deserved ev =
      if ev.input.ignition_off_event then message_for (ask cl_off ev.env).0 else message_none

  -- The outputs of the policy: after an initialisation the first event that deserves a message is
  -- announced, and no other; what is not announced is not logged either.
  abbrev pub policy : Bool → List (Action E) → List (Option Output)
  policy done [] = []
  policy done (restart ∷ acts) = policy false acts
  policy done (happens ev ∷ acts) =
      let message = if done then message_none else deserved ev in
      some (announcing message) ∷ policy (done || not (is_silent message)) acts

  abbrev pub output_of : Option (After E) → Option Output
  output_of none = none
  output_of (some a) = a.output

  abbrev pub config : Config E
  config = record { query_child_lock_state = some ask }

  -- The outputs of the code.
  unfoldable pub outputs : Option (Alert E) → List (Action E) → List (Option Output)
  outputs alert [] = []
  outputs alert (restart ∷ acts) = outputs (init alert (some config)).1 acts
  outputs alert (happens ev ∷ acts) =
      output_of (handle alert ev) ∷ outputs (context alert (handle alert ev)) acts

  abbrev ready : Bool → Alert E
  ready done = record { config = config; is_initialized = true; alert_already_issued = done }

  handle-ready :
      (done : Bool) (ev : Event E)
      → let message = if done then message_none else deserved ev in
        (output_of (handle (some (ready done)) ev) ≡ some (announcing message))
        × (context (some (ready done)) (handle (some (ready done)) ev)
            ≡ some (ready (done || not (is_silent message))))
  unfolding handle handle_event
  handle-ready done ev = ground arith

  outputs-ready :
      (done : Bool) (acts : List (Action E)) → outputs (some (ready done)) acts ≡ policy done acts
  unfolding outputs init
  outputs-ready done [] = refl
  outputs-ready done (restart ∷ acts) = outputs-ready false acts
  outputs-ready done (happens ev ∷ acts) =
      let message = if done then message_none else deserved ev in
      rw ((handle-ready done ev).0, (handle-ready done ev).1)
        (ap (λ os. some (announcing message) ∷ os)
          (outputs-ready (done || not (is_silent message)) acts))

  -- F-10 follows the alert-once policy: over any memory, after an initialisation and through any
  -- sequence of events and further initialisations, each output is the whole output of the policy,
  -- whatever the outputs held before and the environment does in between. The first ignition off
  -- with a message to give, the summary for a lock that is on, or the fallback for a query that fails
  -- or gives no lock state, is announced and logged. Nothing else is, until the next initialisation:
  -- the code leaves no log entry for an alert that is omitted, as the lock is off, or suppressed, as
  -- one was given before.
  pub outputs_follow_policy :
      (memory : Alert E) (acts : List (Action E))
      → outputs (init (some memory) (some config)).1 acts ≡ policy false acts
  unfolding init
  outputs_follow_policy memory acts = outputs-ready false acts
