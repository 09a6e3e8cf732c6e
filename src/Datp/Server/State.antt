-- ===== src/Datp/Server/State.antt =====
-- datp/server.py: the state of the server, with its bus, its registry and what its connections are sent.
use oi_interface.Base.{
  String, Bool, false, List, [], ◌∷◌, ◌++◌, Option, none, some, ℕ, eqb, ◌||◌, if◌then◌else◌,
}
use oi_interface.Dict.{Dict, get}
use oi_interface.Json.{Json}
use oi_interface.Datp.Messages.{Message}
use oi_interface.Datp.Server.Conversation.{Conversation, Config}
use oi_interface.Registry.State.{Registry}

-- A WebSocket, by a number.
abbrev pub Connection : Type 0
Connection = ℕ

-- `DeviceEntry`
pub record DeviceEntry : Type 0 where
  pub ws : Connection
  pub session_id : String
  pub capabilities : Dict Json
  pub resume_token : Option String
  pub nonce : Option String
  pub conversation : Conversation

-- `bus` holds what the server has emitted, `sent` what has gone out, and `closed` the sockets that are
-- closed, by the gateway or by the other side.
pub record Server : Type 0 where
  pub config : Config
  pub device_registry : Dict DeviceEntry
  pub registry : Option (Registry Json)
  pub bus : List (String × String × Dict Json)
  pub sent : List (Connection × Message)
  pub closed : List Connection

-- A coroutine returns, or ends with `ConnectionClosed`.
pub data Result (A : Type 0) : Type 0 where
  returned : A → Result A
  connection_closed : Result A

unfoldable pub among : Connection → List Connection → Bool
among w [] = false
among w (x ∷ xs) = eqb w x || among w xs

abbrev pub is_closed : Connection → Server → Bool
is_closed w s = among w s.closed

-- `await ws.send(json.dumps(message))`
unfoldable pub send : Connection → Message → Server → Server × Result (Unit {0})
send w m s =
    if is_closed w s
    then (s, connection_closed)
    else (record s { sent = s.sent ++ (w, m) ∷ [] }, returned tt)

unfoldable pub close : Connection → Server → Server
close w s = record s { closed = w ∷ s.closed }

unfoldable pub emit : String → String → Dict Json → Server → Server
emit event_type device_id payload s = record s {
  bus = s.bus ++ (event_type, device_id, payload) ∷ [];
}

-- `if self.registry is not None`
abbrev pub on_registry : (Registry Json → Registry Json) → Server → Server
on_registry f s = record s { registry = elim s.registry [ none ↦ none | some r ↦ some (f r) ] }

-- `bool(entry and entry.get("ws") is ws)`
abbrev pub owned_by : Connection → Option DeviceEntry → Bool
owned_by w none = false
owned_by w (some e) = eqb e.ws w

unfoldable pub connection_owns_device : Connection → String → Server → Bool
connection_owns_device w device_id s = owned_by w (get device_id s.device_registry)
