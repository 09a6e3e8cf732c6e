-- ===== src/Datp/Server/Foreign.antt =====
-- datp/server.py: what a connection cannot do to the device of another one.
use oi_interface.Base.{
  String, Bool, true, false, List, [], ◌∷◌, Option, none, some, ◌==◌, if◌then◌else◌, ◌≡◌, refl, inl,
  inr, Bool-cases, Option-cases, ℕ, ◌∙◌, ap, keep_if, keep_if-append, append_nil,
}
use oi_interface.Dict.{Dict, get}
use oi_interface.Json.{Json}
use oi_interface.Datp.Messages.{Message}
use oi_interface.Datp.Server.Conversation.{ConversationError}
use oi_interface.Datp.Server.State.{
  Server, Connection, DeviceEntry, Result, emit, returned, connection_closed,
  connection_owns_device, send, is_closed,
}
use oi_interface.Datp.Server.Hello.{
  Incoming, hello_begin, hello_end, handle_hello, Begun, refused, going_on,
  update_device_conversation, handle_conversation_update, install, bad_conversation,
  requested_conversation, error_text, request_of, Updated, updated, not_valid, no_device,
  after_update, update_valid, go_on, send_error, begin_valid, close_old, register, entry_of,
  hello_ack_of, hello_of,
}
use oi_interface.Datp.Server.Dispatch.{handle_event, handle_state, handle, is_text, is_true}
use oi_interface.Registry.Service.{Hello}

-- What has been emitted about a device.
abbrev pub about : String → List (String × String × Dict Json) → List (String × String × Dict Json)
about d bus = keep_if (λ e. e.1 == d) bus

abbrev pub SameBus : String → Server → Server → Type 0
SameBus d s s' = about d s'.bus ≡ about d s.bus

send-bus : (w : Connection) (m : Message) (s : Server) → (send w m s).0.bus ≡ s.bus
unfolding send
send-bus w m s = elim (Bool-cases (is_closed w s)) [ inl t ↦ rw t refl | inr t ↦ rw t refl ]

pub send-SameBus :
    (w : Connection) (m : Message) (d : String) (s : Server) → SameBus d s (send w m s).0
send-SameBus w m d s = ap (about d) (send-bus w m s)

pub send_error-SameBus :
    (ts : String) (w : Connection) (m : Incoming) (code message d : String) (s : Server)
    → SameBus d s (send_error ts w m code message s).0
unfolding send_error
send_error-SameBus ts w m code message d s = send-SameBus w _ d s

-- An event of another device.
emit-SameBus :
    (event_type k : String) (payload : Dict Json) (d : String) (s s' : Server)
    → (k == d) ≡ false
    → s'.bus ≡ s.bus
    → SameBus d s (emit event_type k payload s')
unfolding emit keep_if
emit-SameBus event_type k payload d s s' n same_bus =
    keep_if-append (λ e. e.1 == d) s'.bus ((event_type, k, payload) ∷ [])
    ∙ rw (n, same_bus) (append_nil (about d s.bus))

close_old-SameBus :
    (d : String) (s s' : Server)
    → SameBus d s s'
    → (o : Option DeviceEntry) → SameBus d s (close_old o s')
unfolding oi_interface.Datp.Server.State.close
close_old-SameBus d s s' h none = h
close_old-SameBus d s s' h (some old) = h

begin_valid-SameBus :
    (ts : String) (w : Connection) (m : Incoming) (d : String) (s : Server)
    (o : Option ConversationError)
    → SameBus d s (begin_valid ts w m s o).0
begin_valid-SameBus ts w m d s (some e) =
    send_error-SameBus ts w m "INVALID_CONVERSATION" (error_text e) d s
begin_valid-SameBus ts w m d s none =
    close_old-SameBus d s _ refl (get m.device_id s.device_registry)

hello_begin-SameBus :
    (ts : String) (w : Connection) (m : Incoming) (d : String) (s : Server)
    → SameBus d s (hello_begin ts w m s).0
unfolding hello_begin
hello_begin-SameBus ts w m d s = elim (Bool-cases (bad_conversation m.payload)) [
  | inl t ↦
      rw t (send_error-SameBus ts w m "INVALID_CONVERSATION" "conversation must be an object" d s)
  | inr t ↦ rw t (begin_valid-SameBus ts w m d s _)
]

update_valid-SameBus :
    (ts k : String) (requested : Dict Json) (notify : Bool) (d : String) (s : Server)
    (entry : DeviceEntry) (o : Option ConversationError)
    → SameBus d s (update_valid ts k requested notify s entry o).0
unfolding install
update_valid-SameBus ts k requested notify d s entry (some e) = refl
update_valid-SameBus ts k requested true d s entry none = send-SameBus entry.ws _ d _
update_valid-SameBus ts k requested false d s entry none = refl

update_device_conversation-SameBus :
    (ts k : String) (backend_id agent_id session_key : Option Json) (notify : Bool) (d : String)
    (s : Server)
    → SameBus d s (update_device_conversation ts k backend_id agent_id session_key notify s).0
unfolding update_device_conversation
update_device_conversation-SameBus ts k backend_id agent_id session_key notify d s =
    elim (Option-cases (get k s.device_registry)) [
      | inl e ↦ rw e refl
      | inr (entry, e) ↦ rw e (
          update_valid-SameBus ts k (request_of backend_id agent_id session_key) notify d s entry _)
    ]

after_update-SameBus :
    (ts : String) (w : Connection) (m : Incoming) (d : String) (x : Server × Updated)
    → SameBus d x.0 (after_update ts w m x).0
after_update-SameBus ts w m d (s, updated c) = refl
after_update-SameBus ts w m d (s, not_valid e) =
    send_error-SameBus ts w m "INVALID_CONVERSATION" (error_text e) d s
after_update-SameBus ts w m d (s, no_device) =
    send_error-SameBus ts w m "UNKNOWN_DEVICE"
      "Device must complete hello before updating conversation" d s

handle_conversation_update-SameBus :
    (ts : String) (w : Connection) (m : Incoming) (d : String) (s : Server)
    → SameBus d s (handle_conversation_update ts w m s).0
unfolding handle_conversation_update
handle_conversation_update-SameBus ts w m d s = elim (Bool-cases (bad_conversation m.payload)) [
  | inl t ↦
      rw t (send_error-SameBus ts w m "INVALID_CONVERSATION" "conversation must be an object" d s)
  | inr t ↦
      let requested = requested_conversation m.payload in
      let x =
        update_device_conversation ts m.device_id (get "backend_id" requested)
          (get "agent_id" requested) (get "session_key" requested) true s in
      rw t (
        after_update-SameBus ts w m d x
        ∙ update_device_conversation-SameBus ts m.device_id (get "backend_id" requested)
            (get "agent_id" requested) (get "session_key" requested) true d s)
]

module _ (same_value : Json → Json → Bool) (now : ℕ) where
  register-SameBus :
      (k : String) (hello : Hello Json) (d : String) (x : Server × Result (Unit {0}))
      → SameBus d x.0 (register same_value now k hello x).0
  register-SameBus k hello d (s, returned u) = refl
  register-SameBus k hello d (s, connection_closed) = refl

  go_on-SameBus :
      (ts session_id : String) (w : Connection) (m : Incoming) (d : String) (s : Server) (b : Begun)
      → SameBus d s (go_on same_value now ts session_id w m s b).0
  unfolding hello_end install
  go_on-SameBus ts session_id w m d s (refused r) = refl
  go_on-SameBus ts session_id w m d s (going_on c agent) =
      let installed = install m.device_id (entry_of w session_id m.payload c) s in
      let ack = hello_ack_of ts session_id m.device_id s.config c agent in
      register-SameBus m.device_id (hello_of session_id m.payload) d (send w ack installed)
      ∙ send-SameBus w ack d installed

  handle_hello-SameBus :
      (ts session_id : String) (w : Connection) (m : Incoming) (d : String) (s : Server)
      → SameBus d s (handle_hello same_value now ts session_id w m s).0
  unfolding handle_hello
  handle_hello-SameBus ts session_id w m d s =
      go_on-SameBus ts session_id w m d (hello_begin ts w m s).0 (hello_begin ts w m s).1
      ∙ hello_begin-SameBus ts w m d s

  handle_event-SameBus :
      (ts : String) (w : Connection) (m : Incoming) (d : String) (s : Server)
      → (m.device_id == d) ≡ false
      → SameBus d s (handle_event same_value now ts w m s).0
  unfolding handle_event
  handle_event-SameBus ts w m d s n =
      elim (Bool-cases (is_text "event" "conversation.update" m.payload)) [
        | inl t ↦ rw t (handle_conversation_update-SameBus ts w m d s)
        | inr t ↦ rw t (elim (Bool-cases (is_text "event" "heartbeat" m.payload)) [
          | inl u ↦ rw u (emit-SameBus "event" m.device_id m.payload d s _ n refl)
          | inr u ↦ rw u (emit-SameBus "event" m.device_id m.payload d s s n refl)
        ])
      ]

  handle_state-SameBus :
      (m : Incoming) (d : String) (s : Server)
      → (m.device_id == d) ≡ false
      → SameBus d s (handle_state same_value now m s)
  unfolding handle_state
  handle_state-SameBus m d s n = elim (Bool-cases (is_true "heartbeat" m.payload)) [
    | inl t ↦ rw t (emit-SameBus "state" m.device_id m.payload d s s n refl)
    | inr t ↦ rw t (emit-SameBus "state" m.device_id m.payload d s s n refl)
  ]

  branch :
      (b : Bool) (d : String) (s : Server) (x y : Server × Result (Unit {0}))
      → SameBus d s x.0
      → SameBus d s y.0
      → SameBus d s (if b then x else y).0
  branch true d s x y hx hy = hx
  branch false d s x y hx hy = hy

  pub handle-SameBus :
      (ts session_id : String) (w : Connection) (m : Incoming) (d : String) (s : Server)
      → (m.device_id == d) ≡ false
      → SameBus d s (handle same_value now ts session_id w m s).0
  unfolding handle
  handle-SameBus ts session_id w m d s n =
      let emitted : (t : String) → SameBus d s (emit t m.device_id m.payload s) =
        λ t. emit-SameBus t m.device_id m.payload d s s n refl in
      branch (m.msg_type == "hello") d s _ _ (handle_hello-SameBus ts session_id w m d s) (
        branch (m.msg_type == "event") d s _ _ (handle_event-SameBus ts w m d s n) (
          branch (m.msg_type == "audio_chunk") d s _ _ (emitted "audio_chunk") (
            branch (m.msg_type == "state") d s _ _ (handle_state-SameBus m d s n) (
              branch (m.msg_type == "command") d s _ _
                (send_error-SameBus ts w m "INVALID_MESSAGE_DIRECTION" _ d s)
                (branch (m.msg_type == "ack") d s _ _ (emitted "ack") (
                  branch (m.msg_type == "error") d s _ _ (emitted "error") (
                    branch (m.msg_type == "hello_ack") d s _ _ refl
                      (send_error-SameBus ts w m "UNKNOWN_MESSAGE_TYPE" _ d s))))))))
