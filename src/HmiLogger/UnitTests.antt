-- ===== src/HmiLogger/UnitTests.antt =====
-- The cases of test/test_F06_HmiAndEventLogger.cpp, run on the definitions.
use mbp_t05_child_lock.Base.{◌≡◌, refl, true, false, Option, none, some, List, [], ◌∷◌}
use mbp_t05_child_lock.Types.{
  cl_off, cl_on, msg_none, sensor_fault, cl_already_on, fault_flag_none, fault_flag_speed_fault,
  fault_flag_rear_sensor, fault_flag_hmi_fault,
}
use mbp_t05_child_lock.HmiLogger.{
  HmiDisplayCb, EventLogCb, DtcStoreCb, Config, Context, event_none, state_change, event_error,
  init, process,
}
use mbp_t05_child_lock.HmiLogger.Calls.{Call, displays, logs, stores}

-- The fake backend of the cases records its calls, the newest first.
abbrev display : HmiDisplayCb (List Call)
display msg sound e = displays msg sound ∷ e

abbrev log : EventLogCb (List Call)
log type state e = logs type state ∷ e

abbrev store : DtcStoreCb (List Call)
store fault e = stores fault ∷ e

abbrev config : Config (List Call)
config = record { display_cb = some display; log_cb = some log; dtc_cb = some store }

-- What a context may hold before.
abbrev memory : Context (List Call)
memory = record {
  config = record { display_cb = none; log_cb = none; dtc_cb = none };
  is_initialized = true;
}

abbrev ctx : Context (List Call)
ctx = record { config = config; is_initialized = true }

-- Initialisation fails, and leaves the context marked so.
abbrev Fails : Option (Config (List Call)) → Type 0
Fails c = init (some memory) c ≡ (false, some (record memory { is_initialized = false }))

initialization_success : init (some memory) (some config) ≡ (true, some ctx)
unfolding init
initialization_success = refl

initialization_fail_with_missing_callback : Fails (some (record config { log_cb = none }))
unfolding init
initialization_fail_with_missing_callback = refl

positive_process_valid_requests :
    process (some ctx) sensor_fault true event_error fault_flag_rear_sensor cl_on []
    ≡ some
        (stores fault_flag_rear_sensor ∷ logs event_error cl_on ∷ displays sensor_fault true ∷ [])
unfolding process
positive_process_valid_requests = refl

positive_process_partial_requests :
    process (some ctx) msg_none false state_change fault_flag_none cl_on []
    ≡ some (logs state_change cl_on ∷ [])
unfolding process
positive_process_partial_requests = refl

robustness_process_uninitialized :
    process
      (some (record ctx { is_initialized = false }))
      cl_already_on
      true
      event_error
      fault_flag_hmi_fault
      cl_on
      []
    ≡ some []
unfolding process
robustness_process_uninitialized = refl

robustness_process_null :
    process {E = List Call} none cl_already_on true event_error fault_flag_hmi_fault cl_on []
    ≡ some []
unfolding process
robustness_process_null = refl

init_null_ctx_returns_false : init none (some config) ≡ (false, none)
unfolding init
init_null_ctx_returns_false = refl

init_null_config_returns_false : Fails none
unfolding init
init_null_config_returns_false = refl

init_null_display_cb_returns_false : Fails (some (record config { display_cb = none }))
unfolding init
init_null_display_cb_returns_false = refl

init_null_dtc_cb_returns_false : Fails (some (record config { dtc_cb = none }))
unfolding init
init_null_dtc_cb_returns_false = refl

process_all_none_no_callbacks_called :
    process (some ctx) msg_none false event_none fault_flag_none cl_off [] ≡ some []
unfolding process
process_all_none_no_callbacks_called = refl

process_only_fault_set_only_dtc_called :
    process (some ctx) msg_none false event_none fault_flag_speed_fault cl_off []
    ≡ some (stores fault_flag_speed_fault ∷ [])
unfolding process
process_only_fault_set_only_dtc_called = refl
