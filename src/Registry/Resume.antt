-- ===== src/Registry/Resume.antt =====
-- registry/service.py with registry/reconnection.py: a device that comes back gets its state again.
use oi_interface.Base.{
  ◌∷◌, Option, String, some, IsDistinct, Bool, none, ℕ, ◌≡◌, Bool-cases, mem, refl, inl, true, inr,
  ◌∙◌, ap, same_self, arith, is_empty, false, [], eq_of_test,
}
use oi_interface.Registry.Service.{
  merge, emit_registered, reconnected, device_registered, registered_info, mark_online, Hello,
  resumed_state, is_reconnect, count_after, device_disconnected, is_online, save_info,
}
use oi_interface.Registry.Heartbeat.{note_heartbeat, mark_healthy, remove_device}
use oi_interface.Registry.State.{
  upsert_device, emit, Registry, update_device, DeviceInfo, get_device, device_seen,
}
use oi_interface.Dict.{
  get, Dict, keys, get-put_same, get-update, put, get-put, mem-keys, or_default,
}
use oi_interface.Reconnection.{
  restore_state, record_reconnect, save_state, ReconnectionManager, record_disconnect,
}

abbrev pub or_else {ℓ} : {A : Type ℓ} → Option A → Option A → Option A
or_else none b = b
or_else (some a) b = some a

module _ {S : Type 0} where
  -- `{**old, **new}`: new values win.
  get-merge :
      (k : String) (old new : Dict S)
      → IsDistinct (keys new)
      → get k (merge old new) ≡ or_else (get k new) (get k old)
  unfolding merge get
  get-merge k old [] h = refl
  get-merge k old ((j, v) ∷ new) h =
      ground (
        arith,
        get-merge k (put j v old) new h.1,
        get-put k j v old,
        mem-keys k new,
        eq_of_test k j,
      )

  -- The record is there, with this state, this number of reconnections and no character pack.
  abbrev pub HasRecord : String → Dict S → Registry S → Type 0
  HasRecord d state r =
      (info : DeviceInfo S) × (get d r.store ≡ some info)
      × (info.state ≡ state)
      × (info.character_pack_id ≡ none)

  note_heartbeat-HasRecord :
      (now : ℕ) (d : String) (state : Dict S) (r : Registry S)
      → HasRecord d state r
      → HasRecord d state (note_heartbeat now d r)
  unfolding note_heartbeat mark_healthy update_device
  note_heartbeat-HasRecord now d state r (info, g, e, c) =
      elim (Bool-cases (mem d r.unhealthy_devices)) [
        | inl t ↦ rw t (
          record info { is_healthy = true },
          get-update d d (λ i. record i { is_healthy = true }) r.store ∙ rw (same_self d, g) refl,
          e,
          c,
        )
        | inr t ↦ rw t (info, g, e, c)
      ]

  emit_registered-HasRecord :
      (same_value : S → S → Bool) (d : String) (state : Dict S) (hello : Hello S) (count : ℕ)
      (existing : Option (DeviceInfo S)) (r : Registry S)
      → HasRecord d state r
      → HasRecord d state (emit_registered same_value d hello count existing r)
  unfolding emit_registered emit
  emit_registered-HasRecord same_value d state hello count existing r h =
      elim (Bool-cases (is_reconnect existing)) [ inl t ↦ rw t h | inr t ↦ rw t h ]

  reconnected_saved :
      (same_value : S → S → Bool) (d : String) (existing : Option (DeviceInfo S)) (r : Registry S)
      → (reconnected same_value d existing r).reconnection.saved_states
        ≡ r.reconnection.saved_states
  unfolding reconnected emit record_reconnect
  reconnected_saved same_value d existing r = elim (Bool-cases (is_reconnect existing)) [
    | inl t ↦ rw t refl
    | inr t ↦ rw t refl
  ]

  upsert_device-HasRecord :
      (now : ℕ) (d : String) (hello : Hello S) (state : Dict S) (count : ℕ)
      (existing : Option (DeviceInfo S)) (r : Registry S)
      → HasRecord d state
          (mark_online d (upsert_device (registered_info now d hello state count existing) r))
  unfolding upsert_device registered_info mark_online
  upsert_device-HasRecord now d hello state count existing r =
      (registered_info now d hello state count existing, get-put_same d _ r.store, refl, refl)

  -- What `device_registered` stores: the state that was saved, with that of the hello on top.
  device_registered-HasRecord :
      (same_value : S → S → Bool) (now : ℕ) (d : String) (hello : Hello S) (r : Registry S)
      → HasRecord d
          (resumed_state (get d r.reconnection.saved_states) hello.hello_state)
          (device_registered same_value now d hello r)
  unfolding device_registered restore_state
  device_registered-HasRecord same_value now d hello r =
      let existing = get_device d r in
      let back = reconnected same_value d existing r in
      let restored = restore_state d back.reconnection in
      let state = resumed_state restored.1 hello.hello_state in
      let count = count_after same_value d existing restored.0 in
      let stored =
        upsert_device (registered_info now d hello state count existing)
          (record back { reconnection = restored.0 }) in
      let (info, g, e, c) =
        emit_registered-HasRecord same_value d state hello count existing
          (note_heartbeat now d (mark_online d stored))
          (note_heartbeat-HasRecord now d state (mark_online d stored) (
            upsert_device-HasRecord now d hello state count existing
              (record back { reconnection = restored.0 }))) in
      (
        info,
        g,
        e
            ∙ ap (λ s. resumed_state (get d s) hello.hello_state)
                (reconnected_saved same_value d existing r),
        c,
      )

  save_state-get :
      (d : String) (state : Dict S) (m : ReconnectionManager S)
      → is_empty state ≡ false
      → get d (save_state d state m).saved_states ≡ some state
  unfolding save_state
  save_state-get d [] m h = cc
  save_state-get d (e ∷ state) m h = get-put_same d (e ∷ state) m.saved_states

  device_disconnected_saved :
      (now : ℕ) (d : String) (r : Registry S) (info : DeviceInfo S)
      → is_online d r ≡ true
      → get d r.store ≡ some info
      → is_empty info.state ≡ false
      → get d (device_disconnected now d r).reconnection.saved_states ≡ some info.state
  unfolding device_disconnected device_seen update_device emit remove_device save_info
  device_disconnected_saved now d r info o g n =
      rw (o, g) (save_state-get d info.state (record_disconnect d now r.reconnection) n)

  -- A device that was online goes, and comes back with a hello. Its record then has the value that the
  -- hello gives for a key, and for the keys that the hello does not have the value from before. It has
  -- no character pack, whichever it had. The state from before is not empty, and a key stands once in
  -- the state of the hello.
  pub device_registered-resumes :
      (same_value : S → S → Bool) (then_ now : ℕ) (d : String) (hello : Hello S) (r : Registry S)
      (info : DeviceInfo S)
      → is_online d r ≡ true
      → get d r.store ≡ some info
      → is_empty info.state ≡ false
      → IsDistinct (keys (or_default hello.hello_state []))
      → (back : DeviceInfo S) × (get d
            (device_registered same_value now d hello (device_disconnected then_ d r)).store
          ≡ some back)
        × ((k : String)
            → get k back.state
              ≡ or_else (get k (or_default hello.hello_state [])) (get k info.state))
        × (back.character_pack_id ≡ none)
  unfolding resumed_state
  device_registered-resumes same_value then_ now d hello r info o g n h =
      let (back, there, e, c) =
        device_registered-HasRecord same_value now d hello (device_disconnected then_ d r) in
      let e' =
        e
        ∙ ap (λ s. resumed_state s hello.hello_state)
            (device_disconnected_saved then_ d r info o g n) in
      (
        back,
        there,
        λ k. ap (get k) e' ∙ get-merge k info.state (or_default hello.hello_state []) h,
        c,
      )
