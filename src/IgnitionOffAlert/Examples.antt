-- ===== src/IgnitionOffAlert/Examples.antt =====
-- Runs of F-10, and its theorems at concrete inputs.
use mbp_t05_child_lock.Base.{
  ◌≡◌, refl, ◌≢◌, ◌≤◌, ◌&&◌, ◌||◌, not, true, false, none, some, List, [], ◌∷◌,
}
use mbp_t05_child_lock.Types.{ChildLockState, cl_off, cl_on}
use mbp_t05_child_lock.IgnitionOffAlert.{
  QueryStateCallback, Config, Input, Output, Alert, After, message_none, cl_on_summary,
  priority_none, priority_status, has_valid_config, init, handle_event,
}
use mbp_t05_child_lock.IgnitionOffAlert.Handling.{Announces, init_defined, handle_event-Announces}
use mbp_t05_child_lock.IgnitionOffAlert.Once.{Event, handle, alerts, alerts_at_most_once}
use mbp_t05_child_lock.IgnitionOffAlert.Policy.{
  Action, happens, restart, announcing, outputs, outputs_follow_policy,
}

-- The environment is the lock's state, and the query reads it.
abbrev ask : QueryStateCallback ChildLockState
ask s e = (record { succeeded = true; state = e }, e)

abbrev config : Config ChildLockState
config = record { query_child_lock_state = some ask }

abbrev garbage : Alert ChildLockState
garbage = record {
  config = record { query_child_lock_state = none };
  is_initialized = true;
  alert_already_issued = true;
}

abbrev ready : Alert ChildLockState
ready = record { config = config; is_initialized = true; alert_already_issued = false }

abbrev parked : Input
parked = record { ignition_off_event = true; active_hmi_alert = true; hmi_healthy = false }

abbrev blank : Output
blank = record {
  status_summary_message = message_none;
  alert_priority = priority_none;
  event_log = false;
  alert_issued = false;
}

abbrev park : ChildLockState → Event ChildLockState
park s = record { input = parked; output = blank; env = s }

summarises :
    handle_event (some ready) (some parked) (some blank) cl_on
    ≡ some (record {
      handled = true;
      alert = some (record ready { alert_already_issued = true });
      output = some (record {
        status_summary_message = cl_on_summary;
        alert_priority = priority_status;
        event_log = true;
        alert_issued = true;
      });
      env = cl_on;
    })
unfolding handle_event
summarises = refl

alerts_later : alerts (some ready) (park cl_off ∷ park cl_on ∷ park cl_on ∷ []) ≡ 1
unfolding alerts handle handle_event
alerts_later = refl

init_defined_example :
    let (done, after) = init (some garbage) (some config) in
    (done ≡ (not false && has_valid_config (some config)))
    × (handle_event after (some parked) (some blank) cl_on ≢ none)
    × ((a : After ChildLockState)
        → handle_event after (some parked) (some blank) cl_on ≡ some a
        → a.handled ≡ (done && not (false || false)))
init_defined_example = init_defined (some garbage) (some config) (some parked) (some blank) cl_on

handle_event-Announces_example :
    (a : After ChildLockState) × (o : Output) × (after : Alert ChildLockState) × (handle_event
        (some ready)
        (some parked)
        (some blank)
        cl_on
      ≡ some a)
    × (a.output ≡ some o)
    × (a.alert ≡ some after)
    × Announces ready parked (ask cl_off cl_on).0 o after
handle_event-Announces_example = handle_event-Announces ready ask parked blank cl_on refl refl

alerts_at_most_once_example :
    alerts (init (some garbage) (some config)).1 (park cl_on ∷ park cl_off ∷ park cl_on ∷ []) ≤ 1
alerts_at_most_once_example =
    alerts_at_most_once (some garbage) (some config) (park cl_on ∷ park cl_off ∷ park cl_on ∷ [])

-- The lock is off, then on twice, and on once more after a new initialisation.
abbrev week : List (Action ChildLockState)
week =
    happens (park cl_off)
    ∷ happens (park cl_on)
    ∷ happens (park cl_on)
    ∷ restart
    ∷ happens (park cl_on)
    ∷ []

outputs_follow_policy_example :
    outputs ask (init (some garbage) (some config)).1 week
    ≡ some (announcing message_none)
      ∷ some (announcing cl_on_summary)
      ∷ some (announcing message_none)
      ∷ some (announcing cl_on_summary)
      ∷ []
outputs_follow_policy_example = outputs_follow_policy ask garbage week
