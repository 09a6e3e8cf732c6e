-- ===== src/Datp/Server/Hello.antt =====
-- datp/server.py: the handshake and changes of a conversation. The handshake is in two parts, since other
-- connections go on while it waits for an old socket to close.
use Prim.Native.String.{◌++◌ as ◌<>◌}
use oi_interface.Base.{String, Bool, true, false, [], ◌∷◌, Option, none, some, if◌then◌else◌, ℕ}
use oi_interface.Dict.{Dict, get, put, or_default}
use oi_interface.Json.{Json, null, object, to_dict, as_text}
use oi_interface.Registry.Service.{Hello, mark_online, device_registered}
use oi_interface.Datp.Messages.{Message, build_error, build_hello_ack}
use oi_interface.Datp.Server.Conversation.{
  Conversation, ConversationError, backend_not_text, agent_not_text, session_key_not_text,
  unknown_backend, unknown_agent, validate_conversation_request, resolve_conversation, Config,
}
use oi_interface.Datp.Server.State.{
  Server, Connection, DeviceEntry, Result, returned, connection_closed, send, close, on_registry,
}

-- A message that `parse_message` let pass, whose device id is a text and whose payload is an object.
pub record Incoming : Type 0 where
  pub msg_type : String
  pub id : Json
  pub device_id : String
  pub payload : Dict Json

abbrev pub error_text : ConversationError → String
error_text backend_not_text = "backend_id must be a string"
error_text agent_not_text = "agent_id must be a string"
error_text session_key_not_text = "session_key must be a string"
error_text (unknown_backend i) = "unknown backend_id: " <> i
error_text (unknown_agent i) = "unknown agent_id: " <> i

-- `"conversation" in payload and not isinstance(payload["conversation"], dict)`
unfoldable pub bad_conversation : Dict Json → Bool
bad_conversation payload = elim (get "conversation" payload) [
  | none ↦ false
  | some (object fs) ↦ false
  | some v ↦ true
]

-- `payload["conversation"] if isinstance(payload.get("conversation"), dict) else {}`
unfoldable pub requested_conversation : Dict Json → Dict Json
requested_conversation payload = elim (get "conversation" payload) [
  | some (object fs) ↦ to_dict fs
  | v ↦ []
]

unfoldable pub send_error :
    String → Connection → Incoming → String → String → Server → Server × Result (Unit {0})
send_error ts w m code message s = send w (build_error ts m.device_id code message (some m.id)) s

unfoldable pub hello_ack_of :
    String → String → String → Config → Conversation → Option (Dict Json) → Message
hello_ack_of ts session_id device_id c conversation agent =
    build_hello_ack ts session_id device_id (record {
      server_id = "oi-home";
      server_name = "Home Oi";
      default_agent = c.default_agent;
      available_agents = c.available_agents;
      available_backends = c.available_backends;
      selected_backend = conversation.backend_id;
      selected_agent = agent;
      selected_session_key = some conversation.session_key;
      server_capabilities = none;
      policy = none;
    })

-- Where the first part of the handshake ends.
pub data Begun : Type 0 where
  refused : Result (Unit {0}) → Begun
  going_on : Conversation → Option (Dict Json) → Begun

abbrev pub close_old : Option DeviceEntry → Server → Server
close_old none s = s
close_old (some old) s = close old.ws s

abbrev pub and_refused : Server × Result (Unit {0}) → Server × Begun
and_refused (s, r) = (s, refused r)

-- After the validation.
abbrev pub begin_valid :
    String → Connection → Incoming → Server → Option ConversationError → Server × Begun
begin_valid ts w m s (some e) =
    and_refused (send_error ts w m "INVALID_CONVERSATION" (error_text e) s)
begin_valid ts w m s none =
    let (conversation, agent) =
      resolve_conversation s.config m.device_id (requested_conversation m.payload) none in
    (
      close_old (get m.device_id s.device_registry) (on_registry (mark_online m.device_id) s),
      going_on conversation agent,
    )

unfoldable pub hello_begin : String → Connection → Incoming → Server → Server × Begun
hello_begin ts w m s =
    if bad_conversation m.payload
    then and_refused (send_error ts w m "INVALID_CONVERSATION" "conversation must be an object" s)
    else begin_valid ts w m s
        (validate_conversation_request s.config true (requested_conversation m.payload))

-- The fields of a hello payload, where they have the types of the specification.
abbrev pub text_in : String → Dict Json → Option String
text_in key payload = elim (get key payload) [ none ↦ none | some v ↦ as_text v ]

abbrev pub dict_in : String → Dict Json → Option (Dict Json)
dict_in key payload = elim (get key payload) [ some (object fs) ↦ some (to_dict fs) | v ↦ none ]

abbrev pub hello_of : String → Dict Json → Hello Json
hello_of session_id payload = record {
  hello_type = or_default (text_in "device_type" payload) "unknown";
  hello_session = session_id;
  hello_capabilities = or_default (dict_in "capabilities" payload) [];
  hello_token = text_in "resume_token" payload;
  hello_nonce = text_in "nonce" payload;
  hello_state = dict_in "state" payload;
}

abbrev pub entry_of : Connection → String → Dict Json → Conversation → DeviceEntry
entry_of w session_id payload conversation = record {
  ws = w;
  session_id = session_id;
  capabilities = or_default (dict_in "capabilities" payload) [];
  resume_token = text_in "resume_token" payload;
  nonce = text_in "nonce" payload;
  conversation = conversation;
}

unfoldable pub install : String → DeviceEntry → Server → Server
install device_id e s = record s { device_registry = put device_id e s.device_registry }

module _ (same_value : Json → Json → Bool) (now : ℕ) where
  abbrev pub register :
      String → Hello Json → Server × Result (Unit {0}) → Server × Result (Unit {0})
  register device_id hello (s, connection_closed) = (s, connection_closed)
  register device_id hello (s, returned u) =
      (on_registry (device_registered same_value now device_id hello) s, returned u)

  -- The second part: the entry, the ack, and the registry if the ack went out.
  unfoldable pub hello_end :
      (ts session_id : String)
      → Connection
      → Incoming
      → Conversation
      → Option (Dict Json)
      → Server
      → Server × Result (Unit {0})
  hello_end ts session_id w m conversation agent s =
      register m.device_id (hello_of session_id m.payload) (
        send w (hello_ack_of ts session_id m.device_id s.config conversation agent)
          (install m.device_id (entry_of w session_id m.payload conversation) s))

  abbrev pub go_on :
      (ts session_id : String) → Connection → Incoming → Server → Begun → Server × Result (Unit {0})
  go_on ts session_id w m s (refused r) = (s, r)
  go_on ts session_id w m s (going_on conversation agent) =
      hello_end ts session_id w m conversation agent s

  -- The handshake where no other connection comes in between.
  unfoldable pub handle_hello :
      (ts session_id : String) → Connection → Incoming → Server → Server × Result (Unit {0})
  handle_hello ts session_id w m s =
      let (s', begun) = hello_begin ts w m s in go_on ts session_id w m s' begun

-- `update_device_conversation`
pub data Updated : Type 0 where
  no_device : Updated
  not_valid : ConversationError → Updated
  updated : Conversation → Updated

-- The request that `update_device_conversation` makes of its arguments: every key is there.
abbrev pub request_of : Option Json → Option Json → Option Json → Dict Json
request_of backend_id agent_id session_key =
    ("backend_id", or_default backend_id null)
    ∷ ("agent_id", or_default agent_id null)
    ∷ ("session_key", or_default session_key null)
    ∷ []

-- With the entry of the device, after the validation.
abbrev pub update_valid :
    String
    → String
    → Dict Json
    → Bool
    → Server
    → DeviceEntry
    → Option ConversationError
    → Server × Updated
update_valid ts device_id requested notify s entry (some e) = (s, not_valid e)
update_valid ts device_id requested notify s entry none =
    let (conversation, agent) =
      resolve_conversation s.config device_id requested (some entry.conversation) in
    let changed = install device_id (record entry { conversation = conversation }) s in
    let ack = hello_ack_of ts entry.session_id device_id s.config conversation agent in
    (if notify then (send entry.ws ack changed).0 else changed, updated conversation)

abbrev pub update_entry :
    String → String → Dict Json → Bool → Server → Option DeviceEntry → Server × Updated
update_entry ts device_id requested notify s none = (s, no_device)
update_entry ts device_id requested notify s (some entry) =
    update_valid ts device_id requested notify s entry
      (validate_conversation_request s.config true requested)

unfoldable pub update_device_conversation :
    String → String → Option Json → Option Json → Option Json → Bool → Server → Server × Updated
update_device_conversation ts device_id backend_id agent_id session_key notify s =
    update_entry ts device_id (request_of backend_id agent_id session_key) notify s
      (get device_id s.device_registry)

abbrev pub after_update :
    String → Connection → Incoming → Server × Updated → Server × Result (Unit {0})
after_update ts w m (s, updated c) = (s, returned tt)
after_update ts w m (s, not_valid e) = send_error ts w m "INVALID_CONVERSATION" (error_text e) s
after_update ts w m (s, no_device) =
    send_error ts w m "UNKNOWN_DEVICE" "Device must complete hello before updating conversation" s

-- `_maybe_handle_conversation_update`, for a payload whose event is "conversation.update".
unfoldable pub handle_conversation_update :
    String → Connection → Incoming → Server → Server × Result (Unit {0})
handle_conversation_update ts w m s =
    let requested = requested_conversation m.payload in
    if bad_conversation m.payload
    then send_error ts w m "INVALID_CONVERSATION" "conversation must be an object" s
    else after_update ts w m (
        update_device_conversation ts m.device_id (get "backend_id" requested)
          (get "agent_id" requested) (get "session_key" requested) true s)
