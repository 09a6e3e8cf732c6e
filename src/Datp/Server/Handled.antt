-- ===== src/Datp/Server/Handled.antt =====
-- datp/server.py: `_dispatch` writes at most the entry of the device that the message names.
use mathlib.Core.Path.{subst}
use oi_interface.Base.{
  String, Bool, true, false, Option, none, some, ◌==◌, if◌then◌else◌, ◌≡◌, refl, inl, inr,
  Bool-cases, Option-cases, ℕ, ◌∙◌, ap, ◌⊎◌, not, ◌&&◌, sym,
}
use oi_interface.Dict.{Dict, get, put, has}
use oi_interface.Json.{Json}
use oi_interface.Datp.Server.Conversation.{Conversation, ConversationError}
use oi_interface.Datp.Server.Offered.{IsValid, resolve_conversation-IsValid}
use oi_interface.Datp.Server.State.{
  Server, Connection, DeviceEntry, Result, emit, returned, connection_closed,
  connection_owns_device,
}
use oi_interface.Datp.Server.Hello.{
  Incoming, hello_begin, handle_hello, Begun, refused, going_on, update_device_conversation,
  handle_conversation_update, install, bad_conversation, requested_conversation, entry_of,
  error_text, request_of, Updated, updated, not_valid, no_device, after_update, update_valid, go_on,
}
use oi_interface.Datp.Server.Dispatch.{
  handle_event, handle_state, handle, is_text, is_true, and_device, and_or_none, refusal, dispatch,
}
use oi_interface.Datp.Server.Effect.{
  Effect, same_table, written, IsSame, send-config, send-device_registry, send_error-IsSame,
  hello_begin-IsSame, begin_valid-IsValid, hello_end-table,
}

pub hello_begin-IsValid :
    (ts : String) (w : Connection) (m : Incoming) (s : Server) (c : Conversation)
    (agent : Option (Dict Json))
    → (hello_begin ts w m s).1 ≡ going_on c agent
    → IsValid s.config c
unfolding hello_begin
hello_begin-IsValid ts w m s c agent h = elim (Bool-cases (bad_conversation m.payload)) [
  | inl t ↦ elim (clash (rw t at h)) [ ]
  | inr t ↦ begin_valid-IsValid ts w m s _ c agent (rw t at h)
]
  where
    clash : {r : Result (Unit {0})} → refused r ≡ going_on c agent → ⊥
    clash e = cc

module _ (same_value : Json → Json → Bool) (now : ℕ) where
  go_on-Effect :
      (ts session_id : String) (w : Connection) (m : Incoming) (s s' : Server) (b : Begun)
      → IsSame s s'
      → ((c : Conversation) (agent : Option (Dict Json))
          → b ≡ going_on c agent
          → IsValid s.config c)
      → Effect w m.device_id s (go_on same_value now ts session_id w m s' b).0
  go_on-Effect ts session_id w m s s' (refused r) h v = same_table h.0 h.1
  go_on-Effect ts session_id w m s s' (going_on c agent) h v =
      let (same_config, table) = hello_end-table same_value now ts session_id w m c agent s' in
      written (entry_of w session_id m.payload c) (same_config ∙ h.0)
        (table ∙ ap (put m.device_id (entry_of w session_id m.payload c)) h.1) (v c agent refl)
        (inl refl)

  handle_hello-Effect :
      (ts session_id : String) (w : Connection) (m : Incoming) (s : Server)
      → Effect w m.device_id s (handle_hello same_value now ts session_id w m s).0
  unfolding handle_hello
  handle_hello-Effect ts session_id w m s =
      go_on-Effect ts session_id w m s (hello_begin ts w m s).0 (hello_begin ts w m s).1
        (hello_begin-IsSame ts w m s) (hello_begin-IsValid ts w m s)

  update_valid-Effect :
      (ts d : String) (requested : Dict Json) (notify : Bool) (w : Connection) (s : Server)
      (entry : DeviceEntry) (o : Option ConversationError)
      → get d s.device_registry ≡ some entry
      → Effect w d s (update_valid ts d requested notify s entry o).0
  unfolding install
  update_valid-Effect ts d requested notify w s entry (some e) h = same_table refl refl
  update_valid-Effect ts d requested true w s entry none h =
      written _ (send-config entry.ws _ _) (send-device_registry entry.ws _ _)
        (resolve_conversation-IsValid s.config d requested (some entry.conversation))
        (inr (entry, h, refl))
  update_valid-Effect ts d requested false w s entry none h =
      written _ refl refl
        (resolve_conversation-IsValid s.config d requested (some entry.conversation))
        (inr (entry, h, refl))

  pub update_device_conversation-Effect :
      (ts d : String) (backend_id agent_id session_key : Option Json) (notify : Bool)
      (w : Connection) (s : Server)
      → Effect w d s (update_device_conversation ts d backend_id agent_id session_key notify s).0
  unfolding update_device_conversation
  update_device_conversation-Effect ts d backend_id agent_id session_key notify w s =
      elim (Option-cases (get d s.device_registry)) [
        | inl e ↦ rw e (same_table refl refl)
        | inr (entry, e) ↦ rw e (
            update_valid-Effect ts d (request_of backend_id agent_id session_key) notify w s entry _
              e)
      ]

  and_same :
      (w : Connection) (d : String) (s s' s'' : Server)
      → Effect w d s s'
      → IsSame s' s''
      → Effect w d s s''
  and_same w d s s' s'' (same_table c t) h = same_table (h.0 ∙ c) (h.1 ∙ t)
  and_same w d s s' s'' (written e c t v o) h = written e (h.0 ∙ c) (h.1 ∙ t) v o

  after_update-IsSame :
      (ts : String) (w : Connection) (m : Incoming) (x : Server × Updated)
      → IsSame x.0 (after_update ts w m x).0
  after_update-IsSame ts w m (s, updated c) = (refl, refl)
  after_update-IsSame ts w m (s, not_valid e) =
      send_error-IsSame ts w m "INVALID_CONVERSATION" (error_text e) s
  after_update-IsSame ts w m (s, no_device) =
      send_error-IsSame ts w m "UNKNOWN_DEVICE"
        "Device must complete hello before updating conversation" s

  handle_conversation_update-Effect :
      (ts : String) (w : Connection) (m : Incoming) (s : Server)
      → Effect w m.device_id s (handle_conversation_update ts w m s).0
  unfolding handle_conversation_update
  handle_conversation_update-Effect ts w m s = elim (Bool-cases (bad_conversation m.payload)) [
    | inl t ↦
        let (c, d) =
          send_error-IsSame ts w m "INVALID_CONVERSATION" "conversation must be an object" s in
        rw t (same_table c d)
    | inr t ↦
        let requested = requested_conversation m.payload in
        let x =
          update_device_conversation ts m.device_id (get "backend_id" requested)
            (get "agent_id" requested) (get "session_key" requested) true s in
        rw t (
          and_same w m.device_id s x.0 (after_update ts w m x).0
            (update_device_conversation-Effect ts m.device_id (get "backend_id" requested)
              (get "agent_id" requested) (get "session_key" requested) true w s)
            (after_update-IsSame ts w m x))
  ]

  handle_event-Effect :
      (ts : String) (w : Connection) (m : Incoming) (s : Server)
      → Effect w m.device_id s (handle_event same_value now ts w m s).0
  unfolding handle_event emit
  handle_event-Effect ts w m s =
      elim (Bool-cases (is_text "event" "conversation.update" m.payload)) [
        | inl t ↦ rw t (handle_conversation_update-Effect ts w m s)
        | inr t ↦ rw t (elim (Bool-cases (is_text "event" "heartbeat" m.payload)) [
          | inl u ↦ rw u (same_table refl refl)
          | inr u ↦ rw u (same_table refl refl)
        ])
      ]

  handle_state-IsSame : (m : Incoming) (s : Server) → IsSame s (handle_state same_value now m s)
  unfolding handle_state emit
  handle_state-IsSame m s = elim (Bool-cases (is_true "heartbeat" m.payload)) [
    | inl t ↦ rw t (refl, refl)
    | inr t ↦ rw t (refl, refl)
  ]

  -- One test of the type of a message.
  branch :
      (b : Bool) (w : Connection) (d : String) (s : Server) (x y : Server × Result (Unit {0}))
      → Effect w d s x.0
      → Effect w d s y.0
      → Effect w d s (if b then x else y).0
  branch true w d s x y hx hy = hx
  branch false w d s x y hx hy = hy

  handle-Effect :
      (ts session_id : String) (w : Connection) (m : Incoming) (s : Server)
      → Effect w m.device_id s (handle same_value now ts session_id w m s).0
  unfolding handle emit
  handle-Effect ts session_id w m s =
      let d = m.device_id in
      let state_same = handle_state-IsSame m s in
      let wrong_way =
        send_error-IsSame ts w m "INVALID_MESSAGE_DIRECTION"
          "Commands are sent by the gateway, not received from devices" s in
      let unknown = send_error-IsSame ts w m "UNKNOWN_MESSAGE_TYPE" _ s in
      branch (m.msg_type == "hello") w d s _ _ (handle_hello-Effect ts session_id w m s) (
        branch (m.msg_type == "event") w d s _ _ (handle_event-Effect ts w m s) (
          branch (m.msg_type == "audio_chunk") w d s _ _ (same_table refl refl) (
            branch (m.msg_type == "state") w d s _ _ (same_table state_same.0 state_same.1) (
              branch (m.msg_type == "command") w d s _ _ (same_table wrong_way.0 wrong_way.1) (
                branch (m.msg_type == "ack") w d s _ _ (same_table refl refl) (
                  branch (m.msg_type == "error") w d s _ _ (same_table refl refl) (
                    branch (m.msg_type == "hello_ack") w d s _ _ (same_table refl refl)
                      (same_table unknown.0 unknown.1))))))))

  pub and_device-state : (d : String) (x : Server × Result (Unit {0})) → (and_device d x).0 ≡ x.0
  and_device-state d (s, returned u) = refl
  and_device-state d (s, connection_closed) = refl

  pub and_or_none-state : (d : String) (x : Server × Result (Unit {0})) → (and_or_none d x).0 ≡ x.0
  and_or_none-state d (s, returned u) = refl
  and_or_none-state d (s, connection_closed) = refl

  pub refusal-IsSame :
      (ts : String) (w : Connection) (m : Incoming) (s : Server) → IsSame s (refusal ts w m s).0
  refusal-IsSame ts w m s = elim (Bool-cases (has m.device_id s.device_registry)) [
    | inl t ↦ rw t (send_error-IsSame ts w m "DEVICE_ID_MISMATCH" _ s)
    | inr t ↦ rw t (send_error-IsSame ts w m "UNKNOWN_DEVICE" _ s)
  ]

  -- The device of a message; any for a text that is no message.
  abbrev pub device_of : String ⊎ Incoming → String
  device_of (inl problem) = ""
  device_of (inr m) = m.device_id

  pub dispatch-Effect :
      (ts session_id : String) (w : Connection) (raw : String ⊎ Incoming) (s : Server)
      → Effect w (device_of raw) s (dispatch same_value now ts session_id w raw s).0
  unfolding dispatch
  dispatch-Effect ts session_id w (inl problem) s =
      same_table (send-config w _ s) (send-device_registry w _ s)
  dispatch-Effect ts session_id w (inr m) s =
      elim (Bool-cases
        (not (m.msg_type == "hello") && not (connection_owns_device w m.device_id s))) [
          | inl t ↦
              let (c, d) = refusal-IsSame ts w m s in
              let e = and_or_none-state m.device_id (refusal ts w m s) in
              rw t (same_table (ap (λ x. x.config) e ∙ c) (ap (λ x. x.device_registry) e ∙ d))
          | inr t ↦
              let x = handle same_value now ts session_id w m s in
              rw t (
                subst (λ r. Effect w m.device_id s r) (sym (and_device-state m.device_id x))
                  (handle-Effect ts session_id w m s))
        ]
