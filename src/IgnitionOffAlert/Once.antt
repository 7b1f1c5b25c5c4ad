-- ===== src/IgnitionOffAlert/Once.antt =====
-- The alert-once policy of F-10 over any sequence of events.
use mbp_t05_child_lock.Base.{
  ℕ, ◌+◌, ◌≤◌, ◌≡◌, Bool, true, false, Option, none, some, List, [], ◌∷◌, arith, if◌then◌else◌,
}
use mbp_t05_child_lock.Types.{cl_off, cl_on, hmi_alert_max_count}
use mbp_t05_child_lock.IgnitionOffAlert.{
  QueryStateCallback, Config, Input, Output, Alert, After, init, handle_event,
}

-- An event with its output's memory and with the environment that it meets.
pub record Event (E : Type 0) : Type 0 where
  pub input : Input
  pub output : Output
  pub env : E

module _ {E : Type 0} where
  -- Whether an outcome asks for a summary alert to be shown.
  abbrev pub shows : Option (After E) → Bool
  shows none = false
  shows (some a) = elim (a.output) [ none ↦ false | some o ↦ o.alert_issued ]

  -- The context after an outcome.
  abbrev pub context : Option (Alert E) → Option (After E) → Option (Alert E)
  context alert none = alert
  context alert (some a) = a.alert

  unfoldable pub handle : Option (Alert E) → Event E → Option (After E)
  handle alert ev = handle_event alert (some ev.input) (some ev.output) ev.env

  -- How many alerts a sequence of events asks for.
  unfoldable pub alerts : Option (Alert E) → List (Event E) → ℕ
  alerts alert [] = 0
  alerts alert (ev ∷ evs) =
      (if shows (handle alert ev) then 1 else 0) + alerts (context alert (handle alert ev)) evs

  abbrev latch : Option (Alert E) → Bool
  latch none = true
  latch (some alert) = alert.alert_already_issued

  latch-handle :
      (alert : Option (Alert E)) (ev : Event E)
      → (if shows (handle alert ev) then 1 else 0)
          + (if latch (context alert (handle alert ev)) then 0 else 1)
        ≤ (if latch alert then 0 else 1)
  unfolding handle handle_event
  latch-handle alert ev = ground arith

  alerts-latch :
      (alert : Option (Alert E)) (evs : List (Event E))
      → alerts alert evs ≤ (if latch alert then 0 else 1)
  unfolding alerts
  alerts-latch alert [] = ground arith
  alerts-latch alert (ev ∷ evs) =
      omega (arith, latch-handle alert ev, alerts-latch (context alert (handle alert ev)) evs)

  -- From one initialisation on, any sequence of events asks for at most one alert
  -- (`HMI_ALERT_MAX_COUNT`), whatever the
  -- environment does between the events.
  pub alerts_at_most_once :
      (memory : Option (Alert E)) (config : Option (Config E)) (evs : List (Event E))
      → alerts (init memory config).1 evs ≤ hmi_alert_max_count
  alerts_at_most_once memory config evs = ground (arith, alerts-latch (init memory config).1 evs)

  handle_first :
      (memory : Alert E) (ask : QueryStateCallback E) (ev : Event E)
      → ev.input.ignition_off_event ≡ true
      → (ask cl_off ev.env).0.succeeded ≡ true
      → (ask cl_off ev.env).0.state ≡ cl_on
      → shows
          (handle (init (some memory) (some (record { query_child_lock_state = some ask }))).1 ev)
        ≡ true
  unfolding handle handle_event init
  handle_first memory ask ev off ok on = ground arith

  -- If the first event after a successful initialisation is an ignition off at which the query
  -- finds the lock on, exactly one alert is asked for, by this event and by none after it.
  pub alerts_first :
      (memory : Alert E) (ask : QueryStateCallback E) (ev : Event E) (evs : List (Event E))
      → ev.input.ignition_off_event ≡ true
      → (ask cl_off ev.env).0.succeeded ≡ true
      → (ask cl_off ev.env).0.state ≡ cl_on
      → let alert = (init (some memory) (some (record { query_child_lock_state = some ask }))).1 in
        (shows (handle alert ev) ≡ true) × (alerts alert (ev ∷ evs) ≡ 1)
  unfolding alerts
  alerts_first memory ask ev evs off ok on =
      let first = handle_first memory ask ev off ok on in
      let upper =
        alerts_at_most_once (some memory) (some (record { query_child_lock_state = some ask }))
          (ev ∷ evs) in
      (first, ground arith)
