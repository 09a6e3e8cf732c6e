-- ===== src/Datp/Tests.antt =====
-- The protocol on a few messages, and its theorems there.
use Prim.Native.Char.{Char, code}
use oi_interface.Base.{
  String, Bool, true, false, List, [], ◌∷◌, ◌++◌, Option, none, some, ◌≡◌, refl, ◌&&◌, ltb, ℕ, inl,
  inr, not, ◌==◌, ◌||◌, mem, ◌⊎◌,
}
use oi_interface.Dict.{Dict, get}
use oi_interface.Json.{Json, bool, text, dict}
use oi_interface.Reconnection
use oi_interface.Registry.State.{Registry}
use oi_interface.Datp.Server.Conversation.{Conversation, Config}
use oi_interface.Datp.Server.State.{Server, DeviceEntry, Result, returned, connection_closed}
use oi_interface.Datp.Server.Hello.{
  Incoming, hello_end, handle_hello, update_device_conversation, Updated, updated,
}
use oi_interface.Datp.Server.Dispatch.{dispatch, end_connection}
use oi_interface.Datp.Server.Kept.{Act, sends, closes, run-kept}
use oi_interface.Datp.Server.Foreign.{about}
use oi_interface.Datp.Builders.{builders-IsAccepted, AreAccepted}
use oi_interface.Datp.Commands.{
  Dispatcher, ended, key_error, gives, start, Method, m_show_status, message_of, sent_message,
}
use oi_interface.Datp.Commands.Phases.{run-start_phase}
use oi_interface.Datp.Commands.Acks.{
  Step, started, event, device_answered, woken, phase_after, place_of, going_out,
}
use oi_interface.Datp.Commands.Methods.{sent_message-message_of}
use oi_interface.Datp.Parse.{valid_ts}
use oi_interface.Datp.Server.Hello.{entry_of, hello_ack_of}
use oi_interface.Datp.Server.Reach.{System, Event, received, resumed, ended, run}
use oi_interface.Datp.Server.Conversations.{AllValid, run-AllValid}
use oi_interface.Datp.Messages.{build_command}

abbrev same_json : Json → Json → Bool
same_json a b = true

abbrev agent : String → Dict Json
agent i = ("id", text i) ∷ []

abbrev config : Config
config = record {
  available_backends = agent "pi" ∷ agent "codex" ∷ [];
  default_backend_id = some "pi";
  default_agent = some (agent "home");
  available_agents = agent "home" ∷ agent "work" ∷ [];
}

abbrev no_devices : Registry Json
no_devices = record {
  store = [];
  online = [];
  reconnection = Reconnection.init 1000 60000 10 true;
  heartbeats = [];
  unhealthy_devices = [];
  events = [];
}

abbrev fresh : Server
fresh = record {
  config = config;
  device_registry = [];
  registry = some no_devices;
  bus = [];
  sent = [];
  closed = [];
}

abbrev hello : String → Incoming
hello backend = record {
  msg_type = "hello";
  id = text "hello_1";
  device_id = "desk";
  payload =
      ("device_type", text "desk")
      ∷ ("conversation", dict (("backend_id", text backend) ∷ []))
      ∷ [];
}

abbrev spoken : Incoming
spoken = record {
  msg_type = "event";
  id = text "evt_1";
  device_id = "desk";
  payload = ("event", text "button.pressed") ∷ [];
}

-- The desk on connection 1, with the backend "codex".
abbrev greeted : Server
greeted = (handle_hello same_json 0 "now" "sess_1" 1 (hello "codex") fresh).0

greeted_on_one :
    (get "desk" greeted.device_registry ≡ none)
    ⊎ ((e : DeviceEntry) × (get "desk" greeted.device_registry ≡ some e)
        × (e.conversation.backend_id ≡ some "codex"))
unfolding get handle_hello oi_interface.Datp.Server.Hello.hello_begin
    oi_interface.Datp.Server.Hello.bad_conversation oi_interface.Base.same
    oi_interface.Datp.Server.Conversation.validate_conversation_request
    oi_interface.Datp.Server.Hello.requested_conversation mem
    oi_interface.Datp.Server.Conversation.available_ids hello_end
    oi_interface.Datp.Server.State.send oi_interface.Datp.Server.State.among
    oi_interface.Datp.Server.Hello.install oi_interface.Dict.put
    oi_interface.Datp.Server.Conversation.resolve_conversation
greeted_on_one = inr (_, refl, refl)

-- A change of the agent alone takes the backend back to the default.
backend_is_lost :
    (update_device_conversation "now" "desk" none (some (text "work")) none false greeted).1
    ≡ updated
        (record { backend_id = some "pi"; agent_id = some "work"; session_key = "oi:device:desk" })
unfolding get handle_hello oi_interface.Datp.Server.Hello.hello_begin
    oi_interface.Datp.Server.Hello.bad_conversation oi_interface.Base.same
    oi_interface.Datp.Server.Conversation.validate_conversation_request
    oi_interface.Datp.Server.Hello.requested_conversation mem
    oi_interface.Datp.Server.Conversation.available_ids hello_end
    oi_interface.Datp.Server.State.send oi_interface.Datp.Server.State.among
    oi_interface.Datp.Server.Hello.install oi_interface.Dict.put
    oi_interface.Datp.Server.Conversation.resolve_conversation update_device_conversation
backend_is_lost = refl

-- The entry of a device stays when its connection ends after a text that is no message.
entry_stays :
    end_connection same_json 5 1 none
      (dispatch same_json 5 "now" "sess_2" 1 (inl "no JSON") greeted).0
    ≡ (dispatch same_json 5 "now" "sess_2" 1 (inl "no JSON") greeted).0
unfolding end_connection
entry_stays = refl

abbrev chosen_conversation : Conversation
chosen_conversation = record {
  backend_id = some "pi";
  agent_id = some "home";
  session_key = "oi:device:desk";
}

abbrev desk_entry : DeviceEntry
desk_entry = record {
  ws = 1;
  session_id = "sess_1";
  capabilities = [];
  resume_token = none;
  nonce = none;
  conversation = chosen_conversation;
}

-- The desk on connection 1, and what connection 2 does.
abbrev desk_taken : Server
desk_taken = record fresh { device_registry = ("desk", desk_entry) ∷ [] }

abbrev intruder : List Act
intruder =
    sends 5 "now" "sess_2" 2 (inr spoken)
    ∷ sends 5 "now" "sess_2" 2 (inr (record (hello "pi") { device_id = "hall" }))
    ∷ closes 6 2 (some "desk")
    ∷ closes 7 2 none
    ∷ []

run-kept_example :
    (get "desk" (oi_interface.Datp.Server.Kept.run same_json intruder desk_taken).device_registry
      ≡ some desk_entry)
    × (about "desk" (oi_interface.Datp.Server.Kept.run same_json intruder desk_taken).bus
        ≡ about "desk" desk_taken.bus)
unfolding get oi_interface.Base.same
run-kept_example =
    run-kept same_json "desk" desk_entry intruder desk_taken refl
      ((refl, refl), ((refl, refl), (refl, (refl, tt))))

abbrev packed : Dict Json
packed = ("v", text "datp") ∷ ("type", text "command") ∷ ("id", text "cmd_1") ∷ []

abbrev idle : System
idle = record { server = fresh; waiting = [] }

abbrev events : List Event
events =
    received 0 "now" "sess_1" 1 (inr (hello "codex"))
    ∷ received 1 "now" "sess_2" 2 (inr (hello "pi"))
    ∷ resumed 2 "now" "sess_2"
    ∷ resumed 3 "now" "sess_1"
    ∷ ended 4 2 (some "desk")
    ∷ []

idle-AllValid : AllValid config idle
unfolding get
idle-AllValid = ((refl, λ k e g. cc), tt)

run-AllValid_example : AllValid config (run same_json events idle)
run-AllValid_example = run-AllValid same_json config events idle idle-AllValid

abbrev is_digit : Char → Bool
is_digit c = ltb 47 (code c) && ltb (code c) 58

abbrev noon : String
noon = "2026-04-27T12:00:00.000Z"

noon_valid : valid_ts is_digit noon ≡ true
unfolding valid_ts oi_interface.Datp.Text.matches
noon_valid = refl

noon_invalid : valid_ts is_digit "2026-04-27 12:00" ≡ false
unfolding valid_ts oi_interface.Datp.Text.matches
noon_invalid = refl

builders-IsAccepted_example : AreAccepted is_digit noon "1f" "desk"
builders-IsAccepted_example = builders-IsAccepted is_digit noon "1f" "desk" noon_valid

abbrev none_sent : Dispatcher
none_sent = record { pending = []; done = []; places = [] }

abbrev acked : String → Step
acked i = event "ack" (("command_id", text i) ∷ ("ok", bool true) ∷ [])

-- A command whose ack comes before its message has gone out, between the steps of another one.
abbrev early_ack : List Step
early_ack =
    started "cmd_2"
    ∷ acked "cmd_1"
    ∷ device_answered "cmd_2" false
    ∷ device_answered "cmd_1" true
    ∷ woken "cmd_1"
    ∷ []

run-start_phase_example :
    get "cmd_1" (oi_interface.Datp.Commands.Acks.run early_ack (start "cmd_1" none_sent)).places
    ≡ some (place_of (phase_after "cmd_1" early_ack (going_out none)))
unfolding oi_interface.Base.same
run-start_phase_example = run-start_phase "cmd_1" early_ack none_sent (refl, tt)

early_ack_returned :
    place_of (phase_after "cmd_1" early_ack (going_out none)) ≡ ended (gives (bool true))
unfolding phase_after oi_interface.Datp.Commands.Acks.advance oi_interface.Base.same get
early_ack_returned = refl

-- Where the device cannot be reached although an ack came, `del` raises.
key_error_raised :
    get "cmd_1"
      (oi_interface.Datp.Commands.Acks.run
        (acked "cmd_1" ∷ device_answered "cmd_1" false ∷ [])
        (start "cmd_1" none_sent)).places
    ≡ some (ended key_error)
unfolding get oi_interface.Datp.Commands.Acks.run oi_interface.Datp.Commands.Acks.step
    oi_interface.Datp.Commands.send_returned oi_interface.Datp.Commands.on_event
    oi_interface.Base.same start oi_interface.Dict.put oi_interface.Dict.pop
key_error_raised = refl

sent_message-message_of_example :
    sent_message noon "a" "desk" (message_of noon "b" "desk" (m_show_status "thinking" none))
    ≡ build_command noon "a" "desk" "display.show_status" (("state", text "thinking") ∷ []) none
sent_message-message_of_example =
    sent_message-message_of noon "a" "desk" noon "b" (m_show_status "thinking" none)

-- Subscribers that leave their names; the first one raises, and takes the second one off the list.
abbrev leave_name :
    String
    → String
    → String
    → Dict Json
    → List String × List String
    → (List String × List String) × Bool
leave_name sub event_type device_id payload (subs, trace) =
    (("log" ∷ [], trace ++ sub ∷ []), sub == "log")
