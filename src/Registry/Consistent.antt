-- ===== src/Registry/Consistent.antt =====
-- registry/service.py: no call leaves an unhealthy device that is tracked, or whose record is good.
use oi_interface.Registry.Service.{
  device_disconnected, set_foreground_device, record_heartbeat, device_registered, Hello, is_online,
  mark_online, save_info, reconnected, registered_info, is_reconnect, emit_registered,
  resumed_state, count_after, device_state_update,
}
use oi_interface.Base.{
  Bool, String, ℕ, Bool-cases, inl, ◌+◌, false, inr, refl, some, true, mem, ◌≡◌, ◌==◌, ap, ◌∙◌,
  eq_of_test, same_self, Option, List, ◌∷◌, [],
}
use oi_interface.Registry.State.{
  device_seen, set_foreground_priority_highest, emit, update_heartbeat, Registry, max_priority,
  get_device, update_device, DeviceInfo, upsert_device, update_last_interaction, set_character_pack,
  update_state,
}
use oi_interface.Reconnection.{record_disconnect, restore_state}
use oi_interface.Registry.Health.{
  IsConsistent, update_device-IsConsistent, remove_device-IsConsistent, note_heartbeat-IsConsistent,
  is_marked, mem-discard, IsConsistentBut, same_sym, step, run, check_each-IsConsistent, Call,
  registers, disconnects, reports, beats, checks, interacts, foregrounds, packs, marks_online,
}
use oi_interface.Registry.Heartbeat.{note_heartbeat, mark_healthy, remove_device, check_health}
use oi_interface.Dict.{has, put, get-update, Dict, get-put}

module _ {S : Type 0} where
  device_disconnected-IsConsistent :
      (now : ℕ) (d : String) (r : Registry S)
      → IsConsistent r
      → IsConsistent (device_disconnected now d r)
  unfolding device_disconnected device_seen emit
  device_disconnected-IsConsistent now d r c = elim (Bool-cases (is_online d r)) [
    | inl t ↦
        let left = record r {
          online = put d false r.online;
          reconnection = save_info d (get_device d r) (record_disconnect d now r.reconnection);
        } in
        rw t (
          update_device-IsConsistent d (λ info. record info { last_seen = now })
            (remove_device d left) (λ info. refl) (remove_device-IsConsistent d left c))
    | inr t ↦ rw t c
  ]

  set_foreground_device-IsConsistent :
      (d : String) (r : Registry S) → IsConsistent r → IsConsistent (set_foreground_device d r).0
  unfolding set_foreground_device set_foreground_priority_highest
  set_foreground_device-IsConsistent d r c = elim (Bool-cases (has d r.store)) [
    | inl t ↦ elim (Bool-cases (is_online d r)) [
      | inl u ↦ rw t (
          rw u (
            update_device-IsConsistent d
              (λ info. record info { foreground_priority = max_priority r.store + 1 }) r
              (λ info. refl) c))
      | inr u ↦ rw t (rw u c)
    ]
    | inr t ↦ rw t c
  ]

  -- Who beats is not unhealthy.
  note_heartbeat_healthy :
      (now : ℕ) (d : String) (r : Registry S)
      → mem d (note_heartbeat now d r).unhealthy_devices ≡ false
  unfolding note_heartbeat mark_healthy update_device
  note_heartbeat_healthy now d r = elim (Bool-cases (mem d r.unhealthy_devices)) [
    | inl t ↦ rw t (mem-discard d d r.unhealthy_devices ∙ rw (same_self d) refl)
    | inr t ↦ rw t t
  ]

  -- A record may change in any way while its device is not unhealthy.
  update_healthy-IsConsistent :
      (d : String) (f : DeviceInfo S → DeviceInfo S) (r : Registry S)
      → mem d r.unhealthy_devices ≡ false
      → IsConsistent r
      → IsConsistent (update_device d f r)
  unfolding update_device
  update_healthy-IsConsistent d f r n c j m = elim (Bool-cases (j == d)) [
    | inl t ↦ let e = eq_of_test j d t in cc
    | inr t ↦ ((c j m).0, ap is_marked (get-update j d f r.store) ∙ rw t (c j m).1)
  ]

  record_heartbeat-IsConsistent :
      (now : ℕ) (d : String) (r : Registry S)
      → IsConsistent r
      → IsConsistent (record_heartbeat now d r)
  unfolding record_heartbeat update_heartbeat
  record_heartbeat-IsConsistent now d r c =
      update_healthy-IsConsistent d
        (λ info. record info { last_heartbeat = some now; is_healthy = true })
        (note_heartbeat now d r) (note_heartbeat_healthy now d r)
        (note_heartbeat-IsConsistent now d r (λ j k m. c j m))

  reconnected-IsConsistent :
      (same_value : S → S → Bool) (d : String) (existing : Option (DeviceInfo S)) (r : Registry S)
      → IsConsistent r
      → IsConsistent (reconnected same_value d existing r)
  unfolding reconnected emit
  reconnected-IsConsistent same_value d existing r c = elim (Bool-cases (is_reconnect existing)) [
    | inl t ↦ rw t c
    | inr t ↦ rw t c
  ]

  upsert_device-IsConsistentBut :
      (now : ℕ) (d : String) (hello : Hello S) (state : Dict S) (count : ℕ)
      (existing : Option (DeviceInfo S)) (r : Registry S)
      → IsConsistent r
      → IsConsistentBut d (upsert_device (registered_info now d hello state count existing) r)
  unfolding upsert_device registered_info
  upsert_device-IsConsistentBut now d hello state count existing r c j n m = (
    (c j m).0,
    ap is_marked (get-put j d (registered_info now d hello state count existing) r.store)
        ∙ rw (same_sym j d ∙ n) (c j m).1,
  )

  emit_registered-IsConsistent :
      (same_value : S → S → Bool) (d : String) (hello : Hello S) (count : ℕ)
      (existing : Option (DeviceInfo S)) (r : Registry S)
      → IsConsistent r
      → IsConsistent (emit_registered same_value d hello count existing r)
  unfolding emit_registered emit
  emit_registered-IsConsistent same_value d hello count existing r c =
      elim (Bool-cases (is_reconnect existing)) [ inl t ↦ rw t c | inr t ↦ rw t c ]

  device_registered-IsConsistent :
      (same_value : S → S → Bool) (now : ℕ) (d : String) (hello : Hello S) (r : Registry S)
      → IsConsistent r
      → IsConsistent (device_registered same_value now d hello r)
  unfolding device_registered
  device_registered-IsConsistent same_value now d hello r c =
      let existing = get_device d r in
      let back = reconnected same_value d existing r in
      let restored = restore_state d back.reconnection in
      let state = resumed_state restored.1 hello.hello_state in
      let count = count_after same_value d existing restored.0 in
      let stored =
        upsert_device (registered_info now d hello state count existing)
          (record back { reconnection = restored.0 }) in
      emit_registered-IsConsistent same_value d hello count existing
        (note_heartbeat now d (mark_online d stored))
        (note_heartbeat-IsConsistent now d (mark_online d stored) (
          upsert_device-IsConsistentBut now d hello state count existing
            (record back { reconnection = restored.0 })
            (reconnected-IsConsistent same_value d existing r c)))

  device_state_update-IsConsistent :
      (now : ℕ) (d : String) (state : Dict S) (r : Registry S)
      → IsConsistent r
      → IsConsistent (device_state_update now d state r)
  unfolding device_state_update device_seen update_state emit
  device_state_update-IsConsistent now d state r h =
      update_device-IsConsistent d (λ info. record info { last_seen = now })
        (update_device d (λ info. record info { state = state }) r) (λ info. refl)
        (update_device-IsConsistent d (λ info. record info { state = state }) r (λ info. refl) h)

  check_health-IsConsistent :
      (now : ℕ) (r : Registry S) → IsConsistent r → IsConsistent (check_health now r)
  unfolding check_health
  check_health-IsConsistent now r h = check_each-IsConsistent now r.heartbeats r h

  update_last_interaction-IsConsistent :
      (now : ℕ) (d : String) (r : Registry S)
      → IsConsistent r
      → IsConsistent (update_last_interaction now d r)
  unfolding update_last_interaction
  update_last_interaction-IsConsistent now d r h =
      update_device-IsConsistent d (λ info. record info { last_interaction = some now }) r
        (λ info. refl) h

  set_character_pack-IsConsistent :
      (d : String) (pack : Option String) (r : Registry S)
      → IsConsistent r
      → IsConsistent (set_character_pack d pack r).0
  unfolding set_character_pack
  set_character_pack-IsConsistent d pack r h =
      update_device-IsConsistent d (λ info. record info { character_pack_id = pack }) r
        (λ info. refl) h

  mark_online-IsConsistent :
      (d : String) (r : Registry S) → IsConsistent r → IsConsistent (mark_online d r)
  unfolding mark_online
  mark_online-IsConsistent d r h = h

  step-IsConsistent :
      (same_value : S → S → Bool) (c : Call S) (r : Registry S)
      → IsConsistent r
      → IsConsistent (step same_value c r)
  unfolding step
  step-IsConsistent same_value (registers now d hello) r h =
      device_registered-IsConsistent same_value now d hello r h
  step-IsConsistent same_value (disconnects now d) r h = device_disconnected-IsConsistent now d r h
  step-IsConsistent same_value (reports now d state) r h =
      device_state_update-IsConsistent now d state r h
  step-IsConsistent same_value (beats now d) r h = record_heartbeat-IsConsistent now d r h
  step-IsConsistent same_value (checks now) r h = check_health-IsConsistent now r h
  step-IsConsistent same_value (interacts now d) r h =
      update_last_interaction-IsConsistent now d r h
  step-IsConsistent same_value (foregrounds d) r h = set_foreground_device-IsConsistent d r h
  step-IsConsistent same_value (packs d pack) r h = set_character_pack-IsConsistent d pack r h
  step-IsConsistent same_value (marks_online d) r h = mark_online-IsConsistent d r h

  -- After any calls, an unhealthy device is not tracked for heartbeats, and its record, if there is one,
  -- says that it is not healthy. That holds if it held before the calls.
  pub run-IsConsistent :
      (same_value : S → S → Bool) (calls : List (Call S)) (r : Registry S)
      → IsConsistent r
      → IsConsistent (run same_value calls r)
  unfolding run
  run-IsConsistent same_value [] r h = h
  run-IsConsistent same_value (c ∷ calls) r h =
      run-IsConsistent same_value calls (step same_value c r) (step-IsConsistent same_value c r h)
