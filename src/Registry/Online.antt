-- ===== src/Registry/Online.antt =====
-- registry/service.py: a device that registers is online.
use oi_interface.Base.{
  String, Bool, true, false, Option, ℕ, ◌≡◌, refl, Bool-cases, inl, inr, mem, ap, ◌∙◌,
}
use oi_interface.Dict.{get, get-put_same, or_default}
use oi_interface.Registry.State.{Registry, DeviceInfo, upsert_device, get_device}
use oi_interface.Registry.Heartbeat.{note_heartbeat, mark_healthy}
use oi_interface.Registry.Service.{
  Hello, device_registered, emit_registered, is_reconnect, is_online, mark_online, reconnected,
  resumed_state, count_after, registered_info,
}
use oi_interface.Reconnection.{restore_state}

module _ {S : Type 0} (same_value : S → S → Bool) (now : ℕ) where
  emit_registered-online :
      (d : String) (hello : Hello S) (count : ℕ) (existing : Option (DeviceInfo S)) (r : Registry S)
      → (emit_registered same_value d hello count existing r).online ≡ r.online
  unfolding emit_registered oi_interface.Registry.State.emit
  emit_registered-online d hello count existing r = elim (Bool-cases (is_reconnect existing)) [
    | inl t ↦ rw t refl
    | inr t ↦ rw t refl
  ]

  note_heartbeat-online : (d : String) (r : Registry S) → (note_heartbeat now d r).online ≡ r.online
  unfolding note_heartbeat mark_healthy oi_interface.Registry.State.update_device
  note_heartbeat-online d r = elim (Bool-cases (mem d r.unhealthy_devices)) [
    | inl t ↦ rw t refl
    | inr t ↦ rw t refl
  ]

  pub device_registered-is_online :
      (d : String) (hello : Hello S) (r : Registry S)
      → is_online d (device_registered same_value now d hello r) ≡ true
  unfolding device_registered mark_online
  device_registered-is_online d hello r =
      let existing = get_device d r in
      let back = reconnected same_value d existing r in
      let restored = restore_state d back.reconnection in
      let state = resumed_state restored.1 hello.hello_state in
      let count = count_after same_value d existing restored.0 in
      let stored =
        upsert_device (registered_info now d hello state count existing)
          (record back { reconnection = restored.0 }) in
      let marked = mark_online d stored in
      ap (λ o. or_default (get d o) false)
        (emit_registered-online d hello count existing (note_heartbeat now d marked)
          ∙ note_heartbeat-online d marked)
      ∙ ap (λ o. or_default o false) (get-put_same d true stored.online)
