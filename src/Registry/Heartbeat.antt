-- ===== src/Registry/Heartbeat.antt =====
-- registry/heartbeat.py: `HeartbeatMonitor`. Its loop calls `check_health` with the time.
use oi_interface.Base.{
  keep_if, ℕ, Option, String, List, not, true, some, ◌==◌, if◌then◌else◌, none, mem, false, ◌++◌,
  ◌∷◌, [], ltb, ◌-◌, ◌&&◌,
}
use oi_interface.Registry.State.{
  update_device, Registry, emit, DeviceInfo, device_unhealthy, get_device,
}
use oi_interface.Dict.{Dict, put, pop, get}

-- `set.discard`
unfoldable pub discard : String → List String → List String
unfolding keep_if
discard d = keep_if (λ x. not (d == x))

module _ {S : Type 0} where
  unfoldable pub mark_healthy : String → Registry S → Registry S
  unfolding discard update_device
  mark_healthy d r =
      update_device d (λ info. record info { is_healthy = true })
        (record r { unhealthy_devices = discard d r.unhealthy_devices })

  -- `HeartbeatMonitor.record_heartbeat`
  unfoldable pub note_heartbeat : ℕ → String → Registry S → Registry S
  unfolding mark_healthy
  note_heartbeat now d r =
      let noted = record r { heartbeats = put d now r.heartbeats } in
      if mem d r.unhealthy_devices then mark_healthy d noted else noted

  unfoldable pub mark_unhealthy : String → Registry S → Registry S
  unfolding update_device emit
  mark_unhealthy d r =
      let heartbeats = pop d r.heartbeats in
      if mem d r.unhealthy_devices
      then r
      else emit (device_unhealthy d) (
          update_device d
            (λ info. record info { is_healthy = false; last_heartbeat = get d heartbeats })
            (record r {
              unhealthy_devices = r.unhealthy_devices ++ d ∷ [];
              heartbeats = heartbeats;
            }))

  -- `info.heartbeat_timeout if info else 30.0`
  abbrev pub timeout_of : Option (DeviceInfo S) → ℕ
  timeout_of none = 30000
  timeout_of (some info) = info.heartbeat_timeout

  -- The loop of `check_health` over `list(self._heartbeats.items())`.
  unfoldable pub check_each : ℕ → Dict ℕ → Registry S → Registry S
  unfolding mark_unhealthy
  check_each now [] r = r
  check_each now ((d, last_heartbeat) ∷ rest) r =
      let timeout = timeout_of (get_device d r) in
      check_each now rest (
        if ltb timeout (now - last_heartbeat) && not (mem d r.unhealthy_devices)
        then mark_unhealthy d r
        else r)

  unfoldable pub check_health : ℕ → Registry S → Registry S
  unfolding check_each
  check_health now r = check_each now r.heartbeats r

  unfoldable pub remove_device : String → Registry S → Registry S
  unfolding discard
  remove_device d r = record r {
    heartbeats = pop d r.heartbeats;
    unhealthy_devices = discard d r.unhealthy_devices;
  }
