-- ===== src/Registry/State.antt =====
-- registry/models.py and registry/store.py, with the state of the registry. Times are milliseconds. The
-- table of devices is a dict from ids to records: an upsert writes an item, and an UPDATE changes it
-- where there is one. `S` is the type of the values in states and capabilities.
use oi_interface.Base.{String, List, ◌++◌, ℕ, Option, Bool, ◌∷◌, some, ◌+◌, [], true, max}
use oi_interface.Dict.{Dict, put, update, get, has}
use oi_interface.Reconnection.{Reconnected, ReconnectionManager}

pub record DeviceInfo (S : Type 0) : Type 0 where
  pub device_id : String
  pub device_type : String
  pub session_id : String
  pub connected_at : ℕ
  pub last_seen : ℕ
  pub capabilities : Dict S
  pub resume_token : Option String
  pub nonce : Option String
  pub state : Dict S
  pub audio_cache_bytes : ℕ
  pub muted_until : Option ℕ
  pub character_pack_id : Option String
  pub last_interaction : Option ℕ
  pub reconnect_count : ℕ
  pub foreground_priority : ℕ
  pub heartbeat_timeout : ℕ
  pub last_heartbeat : Option ℕ
  pub is_healthy : Bool

-- `validate_capabilities_on_reconnect`
pub record CapabilitiesDiff : Type 0 where
  pub added : List String
  pub removed : List String
  pub changed : List String

-- The events that the registry emits, and `registry.device_reconnected` of the reconnection manager.
pub data RegistryEvent (S : Type 0) : Type 0 where
  device_online : String → String → String → RegistryEvent S
  device_reconnected : String → String → String → ℕ → CapabilitiesDiff → RegistryEvent S
  connection_restored : Reconnected → RegistryEvent S
  device_offline : String → RegistryEvent S
  state_updated : String → Dict S → RegistryEvent S
  device_unhealthy : String → RegistryEvent S

-- `RegistryService` with its store, its reconnection manager and its heartbeat monitor.
pub record Registry (S : Type 0) : Type 0 where
  pub store : Dict (DeviceInfo S)
  pub online : Dict Bool
  pub reconnection : ReconnectionManager S
  pub heartbeats : Dict ℕ
  pub unhealthy_devices : List String
  pub events : List (RegistryEvent S)

module _ {S : Type 0} where
  unfoldable pub emit : RegistryEvent S → Registry S → Registry S
  emit e r = record r { events = r.events ++ e ∷ [] }

  abbrev pub get_device : String → Registry S → Option (DeviceInfo S)
  get_device d r = get d r.store

  unfoldable pub upsert_device : DeviceInfo S → Registry S → Registry S
  upsert_device info r = record r { store = put info.device_id info r.store }

  -- `UPDATE devices SET ... WHERE device_id = ?`
  unfoldable pub update_device : String → (DeviceInfo S → DeviceInfo S) → Registry S → Registry S
  update_device d f r = record r { store = update d f r.store }

  unfoldable pub device_seen : ℕ → String → Registry S → Registry S
  unfolding update_device
  device_seen now d r = update_device d (λ info. record info { last_seen = now }) r

  unfoldable pub update_state : String → Dict S → Registry S → Registry S
  unfolding update_device
  update_state d s r = update_device d (λ info. record info { state = s }) r

  -- `true` where a record was changed
  unfoldable pub set_character_pack : String → Option String → Registry S → Registry S × Bool
  unfolding update_device
  set_character_pack d pack r =
      (update_device d (λ info. record info { character_pack_id = pack }) r, has d r.store)

  unfoldable pub update_last_interaction : ℕ → String → Registry S → Registry S
  unfolding update_device
  update_last_interaction now d r =
      update_device d (λ info. record info { last_interaction = some now }) r

  unfoldable pub update_heartbeat : ℕ → String → Registry S → Registry S
  unfolding update_device
  update_heartbeat now d r =
      update_device d (λ info. record info { last_heartbeat = some now; is_healthy = true }) r

  -- `SELECT MAX(foreground_priority)`, 0 for an empty table
  unfoldable pub max_priority : Dict (DeviceInfo S) → ℕ
  max_priority [] = 0
  max_priority ((d, info) ∷ rest) = max info.foreground_priority (max_priority rest)

  unfoldable pub set_foreground_priority_highest : String → Registry S → Registry S
  unfolding update_device max_priority
  set_foreground_priority_highest d r =
      update_device d (λ info. record info { foreground_priority = max_priority r.store + 1 }) r
