-- ===== src/Datp/Server/Kept.antt =====
-- datp/server.py: a device that a connection has is safe from the other ones.
use oi_interface.Base.{
  String, Bool, true, false, List, [], ◌∷◌, Option, none, some, ◌==◌, ◌&&◌, ◌≡◌, refl, inl, inr,
  Bool-cases, ℕ, ◌∙◌, ap, ◌⊎◌, not, eqb, eq_of_test, sym, fails_other_way,
}
use oi_interface.Dict.{get, get-put, get-pop, has}
use oi_interface.Json.{Json}
use oi_interface.Datp.Server.State.{Server, Connection, DeviceEntry, connection_owns_device}
use oi_interface.Datp.Server.Hello.{Incoming}
use oi_interface.Datp.Server.Dispatch.{dispatch, end_connection, refusal, handle}
use oi_interface.Datp.Server.Effect.{Effect, same_table, written, send-device_registry}
use oi_interface.Datp.Server.Handled.{
  dispatch-Effect, and_device-state, and_or_none-state, refusal-IsSame,
}
use oi_interface.Datp.Server.Foreign.{
  about, SameBus, handle-SameBus, send-SameBus, send_error-SameBus,
}

-- A connection sends a text, or ends, with the device of its last message, if it has one.
pub data Act : Type 0 where
  sends : (now : ℕ) → (ts session_id : String) → Connection → String ⊎ Incoming → Act
  closes : (now : ℕ) → Connection → (last_device : Option String) → Act

-- The act is one of another connection than `v`, and no hello for `d`.
abbrev greets : String → String ⊎ Incoming → Bool
greets d (inl problem) = false
greets d (inr m) = m.msg_type == "hello" && m.device_id == d

abbrev pub IsForeign : Connection → String → Act → Type 0
IsForeign v d (sends now ts session_id w raw) = (eqb v w ≡ false) × (greets d raw ≡ false)
IsForeign v d (closes now w last) = eqb v w ≡ false

abbrev pub AreForeign : Connection → String → List Act → Type 0
AreForeign v d [] = Unit
AreForeign v d (a ∷ acts) = IsForeign v d a × AreForeign v d acts

abbrev IsKept : String → DeviceEntry → Server → Server → Type 0
IsKept d e s s' = (get d s'.device_registry ≡ some e) × (about d s'.bus ≡ about d s.bus)

module _ (same_value : Json → Json → Bool) where
  unfoldable pub act : Act → Server → Server
  act (sends now ts session_id w raw) s = (dispatch same_value now ts session_id w raw s).0
  act (closes now w last) s = end_connection same_value now w last s

  unfoldable pub run : List Act → Server → Server
  run [] s = s
  run (a ∷ acts) s = run acts (act a s)

  not_owned :
      (w : Connection) (d : String) (e : DeviceEntry) (s : Server)
      → get d s.device_registry ≡ some e
      → eqb e.ws w ≡ false
      → connection_owns_device w d s ≡ false
  unfolding connection_owns_device
  not_owned w d e s h n = rw h n

  refusal-SameBus :
      (ts : String) (w : Connection) (m : Incoming) (d : String) (s : Server)
      → SameBus d s (refusal ts w m s).0
  refusal-SameBus ts w m d s = elim (Bool-cases (has m.device_id s.device_registry)) [
    | inl t ↦ rw t (send_error-SameBus ts w m "DEVICE_ID_MISMATCH" _ d s)
    | inr t ↦ rw t (send_error-SameBus ts w m "UNKNOWN_DEVICE" _ d s)
  ]

  refusal-IsKept :
      (ts : String) (w : Connection) (m : Incoming) (d : String) (e : DeviceEntry) (s : Server)
      → get d s.device_registry ≡ some e
      → IsKept d e s (refusal ts w m s).0
  refusal-IsKept ts w m d e s h =
      (ap (get d) (refusal-IsSame same_value 0 ts w m s).1 ∙ h, refusal-SameBus ts w m d s)

  -- A message that names another device.
  other_device :
      (k d : String) (w : Connection) (e : DeviceEntry) (s s' : Server)
      → (d == k) ≡ false
      → get d s.device_registry ≡ some e
      → Effect w k s s'
      → get d s'.device_registry ≡ some e
  other_device k d w e s s' n h (same_table c t) = ap (get d) t ∙ h
  other_device k d w e s s' n h (written x c t v o) =
      ap (get d) t ∙ get-put d k x s.device_registry ∙ rw n h

  -- The test of the owner in `_dispatch`, for messages about other devices.
  dispatch-SameBus :
      (now : ℕ) (ts session_id : String) (w : Connection) (m : Incoming) (d : String) (s : Server)
      → (m.device_id == d) ≡ false
      → SameBus d s (dispatch same_value now ts session_id w (inr m) s).0
  unfolding dispatch
  dispatch-SameBus now ts session_id w m d s n =
      elim (Bool-cases
        (not (m.msg_type == "hello") && not (connection_owns_device w m.device_id s))) [
          | inl t ↦
              rw (t, and_or_none-state same_value now m.device_id (refusal ts w m s))
                (refusal-SameBus ts w m d s)
          | inr t ↦
              rw
                (
                  t,
                  and_device-state same_value now m.device_id
                      (handle same_value now ts session_id w m s),
                )
                (handle-SameBus same_value now ts session_id w m d s n)
        ]

  left_fails : (a b : Bool) → (a && b) ≡ false → b ≡ true → a ≡ false
  left_fails false b h t = refl
  left_fails true b h t = cc

  dispatch-IsKept :
      (now : ℕ) (ts session_id : String) (w : Connection) (raw : String ⊎ Incoming) (d : String)
      (e : DeviceEntry) (s : Server)
      → get d s.device_registry ≡ some e
      → eqb e.ws w ≡ false
      → greets d raw ≡ false
      → IsKept d e s (dispatch same_value now ts session_id w raw s).0
  unfolding dispatch
  dispatch-IsKept now ts session_id w (inl problem) d e s h n g =
      (ap (get d) (send-device_registry w _ s) ∙ h, send-SameBus w _ d s)
  dispatch-IsKept now ts session_id w (inr m) d e s h n g = elim (Bool-cases (m.device_id == d)) [
    | inl t ↦
        let no_hello = left_fails (m.msg_type == "hello") (m.device_id == d) g t in
        let not_own : connection_owns_device w m.device_id s ≡ false =
          ap (λ k. connection_owns_device w k s) (eq_of_test m.device_id d t)
          ∙ not_owned w d e s h n in
        rw (no_hello, not_own, and_or_none-state same_value now m.device_id (refusal ts w m s))
          (refusal-IsKept ts w m d e s h)
    | inr t ↦ (
      other_device m.device_id d w e s _ (fails_other_way m.device_id d t) h
          (dispatch-Effect same_value now ts session_id w (inr m) s),
      dispatch-SameBus now ts session_id w m d s t,
    )
  ]

  contradicts : (a b : Bool) → (a && b) ≡ true → ¬ (b ≡ false)
  contradicts false b h t = cc
  contradicts true b h t = cc

  act-IsKept :
      (d : String) (e : DeviceEntry) (a : Act) (s : Server)
      → get d s.device_registry ≡ some e
      → IsForeign e.ws d a
      → IsKept d e s (act a s)
  unfolding act end_connection
  act-IsKept d e (sends now ts session_id w raw) s h (n, g) =
      dispatch-IsKept now ts session_id w raw d e s h n g
  act-IsKept d e (closes now w none) s h n = (h, refl)
  act-IsKept d e (closes now w (some k)) s h n =
      elim (Bool-cases (not (k == "") && connection_owns_device w k s)) [
        | inl t ↦ rw t (elim (Bool-cases (d == k)) [
          | inl u ↦
              let not_own : connection_owns_device w k s ≡ false =
                ap (λ j. connection_owns_device w j s) (sym (eq_of_test d k u))
                ∙ not_owned w d e s h n in
              absurd (contradicts (not (k == "")) (connection_owns_device w k s) t not_own)
          | inr u ↦ (get-pop d k s.device_registry ∙ rw u h, refl)
        ])
        | inr t ↦ rw t (h, refl)
      ]

  -- While a connection has a device, nothing that other connections send or how they end changes the entry
  -- of the device or brings an event of the device on the bus, unless one of them sends a hello for it.
  pub run-kept :
      (d : String) (e : DeviceEntry) (acts : List Act) (s : Server)
      → get d s.device_registry ≡ some e
      → AreForeign e.ws d acts
      → (get d (run acts s).device_registry ≡ some e) × (about d (run acts s).bus ≡ about d s.bus)
  unfolding run
  run-kept d e [] s h f = (h, refl)
  run-kept d e (a ∷ acts) s h (f, fs) =
      let (there, same_bus) = act-IsKept d e a s h f in
      let (still, same_bus') = run-kept d e acts (act a s) there fs in (still, same_bus' ∙ same_bus)
