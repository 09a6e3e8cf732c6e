-- ===== src/Registry/Service.antt =====
-- registry/service.py: `RegistryService`. Calls of the store in a thread pool are made at once.
use oi_interface.Base.{
  ◌∷◌, String, Option, ℕ, Bool, keep_if, false, none, true, if◌then◌else◌, [], some, not, ◌==◌,
}
use oi_interface.Dict.{put, Dict, or_default, get, keys, has}
use oi_interface.Registry.Heartbeat.{remove_device, note_heartbeat}
use oi_interface.Registry.State.{
  update_state, set_foreground_priority_highest, DeviceInfo, Registry, device_seen,
  update_heartbeat, emit, upsert_device, state_updated, CapabilitiesDiff, get_device,
  device_reconnected, device_offline, device_online, connection_restored,
}
use oi_interface.Reconnection.{
  ReconnectionManager, record_disconnect, record_reconnect, get_reconnect_count, restore_state,
  save_state,
}

-- The arguments of `device_registered` but the id.
pub record Hello (S : Type 0) : Type 0 where
  pub hello_type : String
  pub hello_session : String
  pub hello_capabilities : Dict S
  pub hello_token : Option String
  pub hello_nonce : Option String
  pub hello_state : Option (Dict S)

module _ {S : Type 0} where
  -- `{**old, **new}`
  unfoldable pub merge : Dict S → Dict S → Dict S
  unfolding put
  merge old [] = old
  merge old ((k, v) ∷ new) = merge (put k v old) new

  -- `state` after the saved state is restored; `state or {}`
  unfoldable pub resumed_state : Option (Dict S) → Option (Dict S) → Dict S
  unfolding merge
  resumed_state none state = or_default state []
  resumed_state (some saved) state = merge saved (or_default state [])

  -- A device that was known, with a session.
  abbrev pub is_reconnect : Option (DeviceInfo S) → Bool
  is_reconnect none = false
  is_reconnect (some info) = not (info.session_id == "")

  -- The record that `device_registered` writes. `count` is the reconnect count.
  unfoldable pub registered_info :
      ℕ → String → Hello S → Dict S → ℕ → Option (DeviceInfo S) → DeviceInfo S
  registered_info now d hello state count existing = record {
    device_id = d;
    device_type = hello.hello_type;
    session_id = hello.hello_session;
    connected_at = now;
    last_seen = now;
    capabilities = hello.hello_capabilities;
    resume_token = hello.hello_token;
    nonce = hello.hello_nonce;
    state = state;
    audio_cache_bytes = 0;
    muted_until = none;
    character_pack_id = none;
    last_interaction = elim existing [ none ↦ none | some info ↦ info.last_interaction ];
    reconnect_count = count;
    foreground_priority = elim existing [ none ↦ 0 | some info ↦ info.foreground_priority ];
    heartbeat_timeout = elim existing [ none ↦ 30000 | some info ↦ info.heartbeat_timeout ];
    last_heartbeat = none;
    is_healthy = true;
  }

  unfoldable pub mark_online : String → Registry S → Registry S
  mark_online d r = record r { online = put d true r.online }

  abbrev pub is_online : String → Registry S → Bool
  is_online d r = or_default (get d r.online) false

  unfoldable pub save_info :
      String → Option (DeviceInfo S) → ReconnectionManager S → ReconnectionManager S
  save_info d none m = m
  save_info d (some info) m = save_state d info.state m

  unfoldable pub device_disconnected : ℕ → String → Registry S → Registry S
  unfolding remove_device device_seen emit save_info
  device_disconnected now d r =
      let left = record r {
        online = put d false r.online;
        reconnection = save_info d (get_device d r) (record_disconnect d now r.reconnection);
      } in
      if not (is_online d r)
      then r
      else emit (device_offline d) (device_seen now d (remove_device d left))

  unfoldable pub device_state_update : ℕ → String → Dict S → Registry S → Registry S
  unfolding update_state device_seen emit
  device_state_update now d state r =
      emit (state_updated d state) (device_seen now d (update_state d state r))

  unfoldable pub set_foreground_device : String → Registry S → Registry S × Bool
  unfolding set_foreground_priority_highest
  set_foreground_device d r =
      if not (has d r.store)
      then (r, false)
      else if not (is_online d r)
      then (r, false)
      else (set_foreground_priority_highest d r, true)

  unfoldable pub record_heartbeat : ℕ → String → Registry S → Registry S
  unfolding note_heartbeat update_heartbeat
  record_heartbeat now d r = update_heartbeat now d (note_heartbeat now d r)

  module _ (same_value : S → S → Bool) where
    -- `new_caps[k] != old_caps[k]`, for a key that is in both.
    abbrev pub is_changed : Dict S → String × S → Bool
    is_changed old (k, v) = elim (get k old) [ none ↦ false | some w ↦ not (same_value v w) ]

    unfoldable pub validate_capabilities_on_reconnect :
        Dict S → Option (DeviceInfo S) → CapabilitiesDiff
    unfolding keep_if
    validate_capabilities_on_reconnect new_caps none = record {
      added = keys new_caps;
      removed = [];
      changed = [];
    }
    validate_capabilities_on_reconnect new_caps (some info) = record {
      added = keys (keep_if (λ e. not (has e.0 info.capabilities)) new_caps);
      removed = keys (keep_if (λ e. not (has e.0 new_caps)) info.capabilities);
      changed = keys (keep_if (is_changed info.capabilities) new_caps);
    }

    -- The events of `device_registered`.
    unfoldable pub emit_registered :
        String → Hello S → ℕ → Option (DeviceInfo S) → Registry S → Registry S
    unfolding emit validate_capabilities_on_reconnect
    emit_registered d hello count existing r =
        let diff = validate_capabilities_on_reconnect hello.hello_capabilities existing in
        if is_reconnect existing
        then emit (device_reconnected d hello.hello_type hello.hello_session count diff) r
        else emit (device_online d hello.hello_type hello.hello_session) r

    -- `record_reconnect`, where the device was known.
    unfoldable pub reconnected : String → Option (DeviceInfo S) → Registry S → Registry S
    unfolding emit
    reconnected d existing r =
        let recorded = record_reconnect d r.reconnection in
        if is_reconnect existing
        then emit (connection_restored recorded.1) (record r { reconnection = recorded.0 })
        else r

    -- The count that is stored.
    abbrev pub count_after : String → Option (DeviceInfo S) → ReconnectionManager S → ℕ
    count_after d existing m =
        if is_reconnect existing
        then get_reconnect_count d m
        else elim existing [ none ↦ 0 | some info ↦ info.reconnect_count ]

    unfoldable pub device_registered : ℕ → String → Hello S → Registry S → Registry S
    unfolding resumed_state registered_info upsert_device mark_online note_heartbeat emit_registered
        reconnected
    device_registered now d hello r =
        let existing = get_device d r in
        let back = reconnected d existing r in
        let restored = restore_state d back.reconnection in
        let state = resumed_state restored.1 hello.hello_state in
        let count = count_after d existing restored.0 in
        emit_registered d hello count existing (
          note_heartbeat now d (
            mark_online d (
              upsert_device (registered_info now d hello state count existing)
                (record back { reconnection = restored.0 }))))
