-- ===== src/Datp/Server/Reach.antt =====
-- datp/server.py: connections side by side. A handshake waits between its two parts, where any other event
-- may come in; the locks of the code rule some of these orders out.
use oi_interface.Base.{
  String, Bool, true, List, [], ◌∷◌, ◌++◌, Option, ◌==◌, if◌then◌else◌, ◌⊎◌, inl, inr, ℕ,
}
use oi_interface.Dict.{Dict}
use oi_interface.Json.{Json}
use oi_interface.Datp.Messages.{Message}
use oi_interface.Datp.Server.Conversation.{Conversation}
use oi_interface.Datp.Server.State.{Server, Connection, close}
use oi_interface.Datp.Server.Hello.{
  Incoming, hello_begin, hello_end, Begun, refused, going_on, update_device_conversation,
}
use oi_interface.Datp.Server.Dispatch.{dispatch, end_connection, send_to_device}

-- A handshake that waits for the old socket to close.
pub record Waiting : Type 0 where
  pub connection : Connection
  pub hello : Incoming
  pub conversation : Conversation
  pub agent : Option (Dict Json)

pub record System : Type 0 where
  pub server : Server
  pub waiting : List Waiting

-- A message comes in, the first handshake that waits goes on, a connection ends, the other side closes
-- a socket, the gateway sends to a device, or the HTTP interface changes a conversation.
pub data Event : Type 0 where
  received : (now : ℕ) → (ts session_id : String) → Connection → String ⊎ Incoming → Event
  resumed : (now : ℕ) → (ts session_id : String) → Event
  ended : (now : ℕ) → Connection → Option String → Event
  lost : Connection → Event
  outgoing : String → Message → Event
  chosen : (ts device_id : String) → (backend_id agent_id session_key : Option Json) → Event
  -- The handshakes that wait finish in any order: the first is put behind the others.
  postponed : Event

module _ (same_value : Json → Json → Bool) where
  abbrev pub begun : Connection → Incoming → List Waiting → Server × Begun → System
  begun w m waiting (s, refused r) = record { server = s; waiting = waiting }
  begun w m waiting (s, going_on c agent) = record {
    server = s;
    waiting = record { connection = w; hello = m; conversation = c; agent = agent } ∷ waiting;
  }

  abbrev pub resume : ℕ → String → String → Server → List Waiting → System
  resume now ts session_id s [] = record { server = s; waiting = [] }
  resume now ts session_id s (p ∷ waiting) = record {
    server =
        (hello_end same_value now ts session_id p.connection p.hello p.conversation p.agent s).0;
    waiting = waiting;
  }

  abbrev pub behind : List Waiting → List Waiting
  behind [] = []
  behind (p ∷ waiting) = waiting ++ p ∷ []

  abbrev pub receive : ℕ → String → String → Connection → String ⊎ Incoming → System → System
  receive now ts session_id w (inl problem) y = record y {
    server = (dispatch same_value now ts session_id w (inl problem) y.server).0;
  }
  receive now ts session_id w (inr m) y =
      if m.msg_type == "hello"
      then begun w m y.waiting (hello_begin ts w m y.server)
      else record y { server = (dispatch same_value now ts session_id w (inr m) y.server).0 }

  unfoldable pub step : Event → System → System
  step (received now ts session_id w raw) y = receive now ts session_id w raw y
  step (resumed now ts session_id) y = resume now ts session_id y.server y.waiting
  step (ended now w d) y = record y { server = end_connection same_value now w d y.server }
  step (lost w) y = record y { server = close w y.server }
  step (outgoing d m) y = record y { server = (send_to_device d m y.server).0 }
  step (chosen ts d backend_id agent_id session_key) y = record y {
    server = (update_device_conversation ts d backend_id agent_id session_key true y.server).0;
  }
  step postponed y = record y { waiting = behind y.waiting }

  unfoldable pub run : List Event → System → System
  unfolding step
  run [] y = y
  run (e ∷ events) y = run events (step e y)
