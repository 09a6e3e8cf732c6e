-- ===== src/Datp/Server/Effect.antt =====
-- datp/server.py: what the handlers do to the table of devices.
use oi_interface.Base.{
  String, Bool, true, Option, none, some, ◌≡◌, refl, ◌⊎◌, inl, inr, Bool-cases, ℕ, ◌∙◌,
}
use mathlib.Core.Path.{subst}
use oi_interface.Dict.{Dict, get, put}
use oi_interface.Json.{Json}
use oi_interface.Datp.Messages.{Message}
use oi_interface.Datp.Server.Conversation.{
  Conversation, resolve_conversation, validate_conversation_request, ConversationError,
}
use oi_interface.Datp.Server.Offered.{IsValid, resolve_conversation-IsValid}
use oi_interface.Datp.Server.State.{
  Server, Connection, DeviceEntry, Result, returned, connection_closed, send, is_closed,
  on_registry, close,
}
use oi_interface.Datp.Server.Hello.{
  Incoming, send_error, hello_begin, hello_end, going_on, close_old, install, bad_conversation,
  requested_conversation, entry_of, hello_ack_of, error_text, begin_valid, hello_of, register,
}
use oi_interface.Registry.Service.{Hello, mark_online}

-- An entry for a connection, or for the one that had the device.
abbrev pub HasOwner : Connection → String → Server → DeviceEntry → Type 0
HasOwner w d s e =
    (e.ws ≡ w) ⊎ ((old : DeviceEntry) × (get d s.device_registry ≡ some old) × (e.ws ≡ old.ws))

abbrev pub IsSame : Server → Server → Type 0
IsSame s s' = (s'.config ≡ s.config) × (s'.device_registry ≡ s.device_registry)

-- At most the entry of one device is written, with a conversation that is on offer.
pub data Effect (w : Connection) (d : String) (s s' : Server) : Type 0 where
  same_table : s'.config ≡ s.config → s'.device_registry ≡ s.device_registry → Effect w d s s'
  written :
      (e : DeviceEntry)
      → s'.config ≡ s.config
      → s'.device_registry ≡ put d e s.device_registry
      → IsValid s.config e.conversation
      → HasOwner w d s e
      → Effect w d s s'

pub send-config : (w : Connection) (m : Message) (s : Server) → (send w m s).0.config ≡ s.config
unfolding send
send-config w m s = elim (Bool-cases (is_closed w s)) [ inl t ↦ rw t refl | inr t ↦ rw t refl ]

pub send-device_registry :
    (w : Connection) (m : Message) (s : Server) → (send w m s).0.device_registry ≡ s.device_registry
unfolding send
send-device_registry w m s = elim (Bool-cases (is_closed w s)) [
  | inl t ↦ rw t refl
  | inr t ↦ rw t refl
]

send-Effect :
    (w : Connection) (m : Message) (x : Connection) (d : String) (s : Server)
    → Effect x d s (send w m s).0
send-Effect w m x d s = same_table (send-config w m s) (send-device_registry w m s)

send_error-Effect :
    (ts : String) (w : Connection) (m : Incoming) (code message : String) (d : String) (s : Server)
    → Effect w d s (send_error ts w m code message s).0
unfolding send_error
send_error-Effect ts w m code message d s = send-Effect w _ w d s

pub send_error-IsSame :
    (ts : String) (w : Connection) (m : Incoming) (code message : String) (s : Server)
    → IsSame s (send_error ts w m code message s).0
unfolding send_error
send_error-IsSame ts w m code message s = (send-config w _ s, send-device_registry w _ s)

close_old-IsSame :
    (s s' : Server) → IsSame s s' → (o : Option DeviceEntry) → IsSame s (close_old o s')
unfolding close
close_old-IsSame s s' h none = h
close_old-IsSame s s' h (some old) = h

begin_valid-IsSame :
    (ts : String) (w : Connection) (m : Incoming) (s : Server) (o : Option ConversationError)
    → IsSame s (begin_valid ts w m s o).0
begin_valid-IsSame ts w m s (some e) =
    send_error-IsSame ts w m "INVALID_CONVERSATION" (error_text e) s
begin_valid-IsSame ts w m s none =
    close_old-IsSame s (on_registry (mark_online m.device_id) s) (refl, refl)
      (get m.device_id s.device_registry)

pub hello_begin-IsSame :
    (ts : String) (w : Connection) (m : Incoming) (s : Server) → IsSame s (hello_begin ts w m s).0
unfolding hello_begin
hello_begin-IsSame ts w m s = elim (Bool-cases (bad_conversation m.payload)) [
  | inl t ↦
      rw t (send_error-IsSame ts w m "INVALID_CONVERSATION" "conversation must be an object" s)
  | inr t ↦ rw t (
      begin_valid-IsSame ts w m s
        (validate_conversation_request s.config true (requested_conversation m.payload)))
]

-- A conversation with which the handshake goes on is on offer.
pub begin_valid-IsValid :
    (ts : String) (w : Connection) (m : Incoming) (s : Server) (o : Option ConversationError)
    (c : Conversation) (agent : Option (Dict Json))
    → (begin_valid ts w m s o).1 ≡ going_on c agent
    → IsValid s.config c
begin_valid-IsValid ts w m s (some e) c agent h = cc
begin_valid-IsValid ts w m s none c agent h =
    let e : (resolve_conversation s.config m.device_id (requested_conversation m.payload) none).0
        ≡ c =
      cc in
    subst (IsValid s.config) e
      (resolve_conversation-IsValid s.config m.device_id (requested_conversation m.payload) none)

register-IsSame :
    (same_value : Json → Json → Bool) (now : ℕ) (d : String) (hello : Hello Json)
    (x : Server × Result (Unit {0}))
    → IsSame x.0 (register same_value now d hello x).0
register-IsSame same_value now d hello (s, returned u) = (refl, refl)
register-IsSame same_value now d hello (s, connection_closed) = (refl, refl)

-- The second part writes the entry of the device, for this connection, and nothing else.
pub hello_end-table :
    (same_value : Json → Json → Bool) (now : ℕ) (ts session_id : String) (w : Connection)
    (m : Incoming) (c : Conversation) (agent : Option (Dict Json)) (s : Server)
    → let s' = (hello_end same_value now ts session_id w m c agent s).0 in
      (s'.config ≡ s.config)
      × (s'.device_registry ≡ put m.device_id (entry_of w session_id m.payload c) s.device_registry)
unfolding hello_end install
hello_end-table same_value now ts session_id w m c agent s =
    let e = entry_of w session_id m.payload c in
    let installed = install m.device_id e s in
    let ack = hello_ack_of ts session_id m.device_id s.config c agent in
    let sent = send w ack installed in
    let (same_config, same_devices) =
      register-IsSame same_value now m.device_id (hello_of session_id m.payload) sent in
    (same_config ∙ send-config w ack installed, same_devices ∙ send-device_registry w ack installed)
