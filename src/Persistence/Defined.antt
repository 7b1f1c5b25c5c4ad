-- ===== src/Persistence/Defined.antt =====
-- Initialisation of F-05, and that its handlers never call through NULL.
use mbp_t05_child_lock.Base.{◌≡◌, ◌≢◌, ◌&&◌, not, true, Option, none, some, is_null, arith}
use mbp_t05_child_lock.Types.{ChildLockState}
use mbp_t05_child_lock.Persistence.{
  Config, Manager, Result, has_valid_config, init, handle_ignition_off, handle_ignition_on,
  handle_reset,
}

module _ {E : Type 0} where
  -- A manager that counts as initialised has all its callbacks.
  abbrev pub IsSafe : Option (Manager E) → Type 0
  IsSafe none = Unit
  IsSafe (some m) = m.is_initialized ≡ true → has_valid_config (some m.config) ≡ true

  -- Initialisation succeeds exactly with a manager and a configuration that has all three callbacks.
  -- Whatever the manager's memory held before, and also where initialisation fails, the manager is
  -- safe afterwards, and it is initialised exactly when initialisation has succeeded.
  init-IsSafe :
      (manager : Option (Manager E)) (config : Option (Config E))
      → ((init manager config).0 ≡ (not (is_null manager) && has_valid_config config))
        × IsSafe (init manager config).1
        × ((m : Manager E)
            → (init manager config).1 ≡ some m
            → m.is_initialized ≡ (init manager config).0)
  unfolding init
  init-IsSafe manager config = ground arith

  -- On a safe manager no handler calls or reads through NULL, for any arguments.
  safe_handlers :
      (manager : Option (Manager E)) (state : ChildLockState) (result : Option Result) (e : E)
      → IsSafe manager
      → (handle_ignition_off manager state result e ≢ none)
        × (handle_ignition_on manager result e ≢ none)
        × (handle_reset manager result e ≢ none)
  unfolding handle_ignition_off handle_ignition_on handle_reset has_valid_config
  safe_handlers manager state result e safe = ground arith

  -- Initialisation succeeds exactly with a manager and a configuration that has all three callbacks.
  -- Whatever the manager's memory held before, after any initialisation, failed ones included, no
  -- handler calls or reads through NULL, for any arguments.
  pub handlers_defined :
      (manager : Option (Manager E)) (config : Option (Config E)) (state : ChildLockState)
      (result : Option Result) (e : E)
      → let (done, after) = init manager config in
        (done ≡ (not (is_null manager) && has_valid_config config))
        × (handle_ignition_off after state result e ≢ none)
        × (handle_ignition_on after result e ≢ none)
        × (handle_reset after result e ≢ none)
  handlers_defined manager config state result e =
      let (done, safe, marked) = init-IsSafe manager config in
      let (off, on, reset) = safe_handlers (init manager config).1 state result e safe in
      (done, off, on, reset)
