-- ===== src/HmiLogger.antt =====
-- src/F06_HmiAndEventLogger.c and its header. A pointer is an `Option`, NULL is `none`. The
-- callbacks of the configuration are not part of the sources: they are functions over a type `E` of
-- environments. `process` gives `none` where the code would call through NULL.
pub mod Calls
mod Examples
mod UnitTests
use mbp_t05_child_lock.Base.{
  Bool, true, false, not, ◌&&◌, ◌||◌, ◌==◌, ℕ, Option, none, some, is_null, if◌then◌else◌,
}
use mbp_t05_child_lock.Types.{ChildLockState, WarningMsgId, is_msg_none, FaultFlag, fault_flag_none}

-- `event_other n` is the value n + 4.
pub data EventType : Type 0 where
  event_none state_change safety_action event_error : EventType
  event_other : ℕ → EventType

abbrev pub is_event_none : EventType → Bool
is_event_none event_none = true
is_event_none t = false

abbrev pub HmiDisplayCb : Type 0 → Type 0
HmiDisplayCb E = WarningMsgId → Bool → E → E

abbrev pub EventLogCb : Type 0 → Type 0
EventLogCb E = EventType → ChildLockState → E → E

abbrev pub DtcStoreCb : Type 0 → Type 0
DtcStoreCb E = FaultFlag → E → E

pub record Config (E : Type 0) : Type 0 where
  pub display_cb : Option (HmiDisplayCb E)
  pub log_cb : Option (EventLogCb E)
  pub dtc_cb : Option (DtcStoreCb E)

pub record Context (E : Type 0) : Type 0 where
  pub config : Config E
  pub is_initialized : Bool

module _ {E : Type 0} where
  unfoldable pub has_valid_config : Option (Config E) → Bool
  has_valid_config none = false
  has_valid_config (some c) =
      not (is_null c.display_cb) && not (is_null c.log_cb) && not (is_null c.dtc_cb)

  -- The configuration is copied where it is valid; a valid one is not NULL.
  init_marked : Context E → Option (Config E) → Bool × Option (Context E)
  init_marked ctx none = (false, some ctx)
  init_marked ctx (some config) =
      if has_valid_config (some config)
      then (true, some (record ctx { config = config; is_initialized = true }))
      else (false, some ctx)

  unfoldable pub init : Option (Context E) → Option (Config E) → Bool × Option (Context E)
  unfolding has_valid_config init_marked
  init none config = (false, none)
  init (some ctx) config = init_marked (record ctx { is_initialized = false }) config

  display : Option (HmiDisplayCb E) → WarningMsgId → Bool → E → Option E
  display none msg sound e = none
  display (some cb) msg sound e = some (cb msg sound e)

  log : Option (EventLogCb E) → EventType → ChildLockState → E → Option E
  log none type state e = none
  log (some cb) type state e = some (cb type state e)

  store_dtc : Option (DtcStoreCb E) → FaultFlag → E → Option E
  store_dtc none fault e = none
  store_dtc (some cb) fault e = some (cb fault e)

  infixl 5 ◌>>=◌
  abbrev ◌>>=◌ : Option E → (E → Option E) → Option E
  none >>= f = none
  some e >>= f = f e

  unfoldable pub process :
      Option (Context E)
      → WarningMsgId
      → Bool
      → EventType
      → FaultFlag
      → ChildLockState
      → E
      → Option E
  unfolding display log store_dtc
  process none msg sound type fault state e = some e
  process (some ctx) msg sound type fault state e = if not ctx.is_initialized then some e else (do
    e ← if not (is_msg_none msg) then display ctx.config.display_cb msg sound e else some e
    e ← if not (is_event_none type) then log ctx.config.log_cb type state e else some e
    if not (fault == fault_flag_none) then store_dtc ctx.config.dtc_cb fault e else some e)
