-- ===== src/HmiLogger/Examples.antt =====
-- Runs of F-06 that record its calls, and its theorems at concrete inputs.
use mbp_t05_child_lock.Base.{◌≡◌, refl, ◌≢◌, ◌&&◌, not, true, false, none, some, List, [], ◌∷◌}
use mbp_t05_child_lock.Types.{cl_on, child_lock_on, fault_flag_ecu_ack_fail}
use mbp_t05_child_lock.HmiLogger.{
  HmiDisplayCb, EventLogCb, DtcStoreCb, Config, Context, event_none, state_change, has_valid_config,
  init, process,
}
use mbp_t05_child_lock.HmiLogger.Calls.{
  Call, displays, logs, stores, requested, perform, config, process-perform, process_defined,
}

-- The environment is the list of calls, the newest first.
abbrev show : HmiDisplayCb (List Call)
show msg sound e = displays msg sound ∷ e

abbrev write : EventLogCb (List Call)
write type state e = logs type state ∷ e

abbrev store : DtcStoreCb (List Call)
store fault e = stores fault ∷ e

abbrev garbage : Context (List Call)
garbage = record {
  config = record { display_cb = none; log_cb = none; dtc_cb = none };
  is_initialized = true;
}

displays_and_stores :
    process
      (init (some garbage) (some (config show write store))).1
      child_lock_on
      true
      event_none
      fault_flag_ecu_ack_fail
      cl_on
      []
    ≡ some (stores 4 ∷ displays child_lock_on true ∷ [])
unfolding process init
displays_and_stores = refl

process-perform_example :
    process
      (init (some garbage) (some (config show write store))).1
      child_lock_on
      true
      state_change
      fault_flag_ecu_ack_fail
      cl_on
      []
    ≡ some (
        perform show write store
          (requested child_lock_on true state_change fault_flag_ecu_ack_fail cl_on)
          [])
process-perform_example =
    process-perform show write store garbage child_lock_on true state_change fault_flag_ecu_ack_fail
      cl_on []

abbrev partial : Config (List Call)
partial = record { display_cb = some show; log_cb = none; dtc_cb = some store }

process_defined_example :
    let (done, after) = init (some garbage) (some partial) in
    (done ≡ (not false && has_valid_config (some partial)))
    × (process after child_lock_on true state_change 4 cl_on [] ≢ none)
    × (done ≡ false → process after child_lock_on true state_change 4 cl_on [] ≡ some [])
process_defined_example =
    process_defined (some garbage) (some partial) child_lock_on true state_change 4 cl_on []
