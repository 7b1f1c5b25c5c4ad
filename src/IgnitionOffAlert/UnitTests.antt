-- ===== src/IgnitionOffAlert/UnitTests.antt =====
-- The cases of test/test_F10_IgnitionOffStatusAlert.cpp, run on the definitions.
use mbp_t05_child_lock.Base.{ℕ, ◌+◌, ◌≡◌, refl, Bool, true, false, Option, none, some}
use mbp_t05_child_lock.Types.{ChildLockState, cl_off, cl_on}
use mbp_t05_child_lock.IgnitionOffAlert.{
  Message, message_none, cl_on_summary, query_fallback, priority_none, priority_status,
  QueryStateCallback, Config, Input, Output, Alert, After, init, handle_event,
}

-- The fake backend of the cases.
record Backend : Type 0 where
  query_return_value : Bool
  queried_state : ChildLockState
  query_call_count : ℕ

abbrev query : QueryStateCallback Backend
query s e = (
  record { succeeded = e.query_return_value; state = e.queried_state },
  record e { query_call_count = e.query_call_count + 1 },
)

abbrev config : Config Backend
config = record { query_child_lock_state = some query }

-- What an alert and an output may hold before.
abbrev memory : Alert Backend
memory = record {
  config = record { query_child_lock_state = none };
  is_initialized = true;
  alert_already_issued = true;
}

abbrev used : Output
used = record {
  status_summary_message = query_fallback;
  alert_priority = priority_status;
  event_log = true;
  alert_issued = true;
}

abbrev alert : Alert Backend
alert = record { config = config; is_initialized = true; alert_already_issued = false }

abbrev latched : Alert Backend
latched = record alert { alert_already_issued = true }

abbrev off : Input
off = record { ignition_off_event = true; active_hmi_alert = false; hmi_healthy = true }

abbrev backend : ChildLockState → Bool → ℕ → Backend
backend s answers queries = record {
  query_return_value = answers;
  queried_state = s;
  query_call_count = queries;
}

abbrev quiet : Output
quiet = record {
  status_summary_message = message_none;
  alert_priority = priority_none;
  event_log = false;
  alert_issued = false;
}

abbrev announced : Message → Output
announced m = record {
  status_summary_message = m;
  alert_priority = priority_status;
  event_log = true;
  alert_issued = true;
}

abbrev after : Alert Backend → Output → Backend → Option (After Backend)
after a o e = some (record { handled = true; alert = some a; output = some o; env = e })

abbrev rejected : Option (Alert Backend) → Option Output → Option (After Backend)
rejected a o = some (record { handled = false; alert = a; output = o; env = backend cl_off true 0 })

abbrev unmarked : Alert Backend
unmarked = record memory { is_initialized = false; alert_already_issued = false }

init_null_alert_returns_false : init none (some config) ≡ (false, none)
unfolding init
init_null_alert_returns_false = refl

init_null_config_returns_false : init (some memory) none ≡ (false, some unmarked)
unfolding init
init_null_config_returns_false = refl

init_null_callback_returns_false :
    init (some memory) (some (record { query_child_lock_state = none })) ≡ (false, some unmarked)
unfolding init
init_null_callback_returns_false = refl

init_valid_config_succeeds : init (some memory) (some config) ≡ (true, some alert)
unfolding init
init_valid_config_succeeds = refl

ignition_off_and_child_lock_on_emits_one_summary_alert :
    handle_event (some (alert)) (some (off)) (some used) (backend cl_on true 0)
    ≡ after latched (announced cl_on_summary) (backend cl_on true 1)
unfolding handle_event
ignition_off_and_child_lock_on_emits_one_summary_alert = refl

ignition_off_and_child_lock_off_does_not_emit_alert :
    handle_event (some (alert)) (some (off)) (some used) (backend cl_off true 0)
    ≡ after alert quiet (backend cl_off true 1)
unfolding handle_event
ignition_off_and_child_lock_off_does_not_emit_alert = refl

state_query_failure_emits_fallback_message :
    handle_event (some (alert)) (some (off)) (some used) (backend cl_off false 0)
    ≡ after latched (announced query_fallback) (backend cl_off false 1)
unfolding handle_event
state_query_failure_emits_fallback_message = refl

repeated_ignition_off_does_not_duplicate_alert :
    handle_event (some (latched)) (some (off)) (some used) (backend cl_on true 1)
    ≡ after latched quiet (backend cl_on true 1)
unfolding handle_event
repeated_ignition_off_does_not_duplicate_alert = refl

no_ignition_off_event_no_query_no_alert :
    handle_event
      (some (alert))
      (some (record off { ignition_off_event = false }))
      (some used)
      (backend cl_on true 0)
    ≡ after alert quiet (backend cl_on true 0)
unfolding handle_event
no_ignition_off_event_no_query_no_alert = refl

alert_already_issued_ign_off_no_query_no_alert :
    handle_event (some (latched)) (some (off)) (some used) (backend cl_on true 0)
    ≡ after latched quiet (backend cl_on true 0)
unfolding handle_event
alert_already_issued_ign_off_no_query_no_alert = refl

null_alert_returns_false :
    handle_event none (some off) (some used) (backend cl_off true 0) ≡ rejected none (some quiet)
unfolding handle_event
null_alert_returns_false = refl

null_input_returns_false :
    handle_event (some alert) none (some used) (backend cl_off true 0)
    ≡ rejected (some alert) (some quiet)
unfolding handle_event
null_input_returns_false = refl

null_output_returns_false :
    handle_event (some alert) (some off) none (backend cl_off true 0) ≡ rejected (some alert) none
unfolding handle_event
null_output_returns_false = refl

uninit_alert_returns_false :
    handle_event
      (some (record alert { is_initialized = false }))
      (some off)
      (some used)
      (backend cl_off true 0)
    ≡ rejected (some (record alert { is_initialized = false })) (some quiet)
unfolding handle_event
uninit_alert_returns_false = refl
