-- ===== src/Datp/Server/Ownership.antt =====
-- datp/server.py: what a handshake gives a connection, until it ends.
use mathlib.Core.Option
use oi_interface.Base.{
  String, Bool, true, false, [], ◌∷◌, ◌++◌, Option, none, some, if◌then◌else◌, ◌≡◌, inr, ℕ, not,
}
use oi_interface.Dict.{Dict, get}
use oi_interface.Json.{Json}
use oi_interface.Registry.State.{Registry}
use oi_interface.Registry.Service.{device_disconnected, is_online, Hello}
use oi_interface.Datp.Messages.{Message}
use oi_interface.Datp.Server.Conversation.{Conversation}
use oi_interface.Datp.Server.State.{
  Server, Connection, returned, connection_closed, DeviceEntry, Result,
}
use oi_interface.Datp.Server.Hello.{Incoming}
use oi_interface.Datp.Server.Dispatch.{dispatch, end_connection, send_to_device}

-- Whether a device is online in the registry; it is, where there is no registry.
abbrev pub online_in : String → Option (Registry Json) → Bool
online_in d none = true
online_in d (some r) = is_online d r

-- A chunk of audio of a device.
abbrev pub chunk : String → Incoming → Incoming
chunk d m = record m { msg_type = "audio_chunk"; device_id = d }

module _ (same_value : Json → Json → Bool) (now : ℕ) where
  -- The connection has the device: what it sends comes on the bus, what is sent to the device goes out on
  -- it, and when it ends the device has no entry, and the registry is told.
  abbrev pub Serves : Connection → String → Incoming → Message → Server → Type 0
  Serves w d later m s =
      ((dispatch same_value now "" "" w (inr (chunk d later)) s).0.bus
        ≡ s.bus ++ ("audio_chunk", d, later.payload) ∷ [])
      × ((send_to_device d m s).0.sent ≡ s.sent ++ (w, m) ∷ [])
      × ((send_to_device d m s).1 ≡ true)
      × (get d (end_connection same_value now w (some d) s).device_registry ≡ none)
      × ((end_connection same_value now w (some d) s).registry
          ≡ Option.map (device_disconnected now d) s.registry)

  -- A handshake on a closed socket, and on an open one.
  abbrev pub HasGreeted :
      Bool
      → Connection
      → Incoming
      → Conversation
      → Incoming
      → Message
      → Server
      → Server × Result (Unit {0})
      → Type 0
  HasGreeted true w m c later message s (s', r) =
      (r ≡ connection_closed) × (s'.sent ≡ s.sent) × (s'.registry ≡ s.registry) × (s'.bus ≡ s.bus)
  HasGreeted false w m c later message s (s', r) =
      (r ≡ returned tt)
      × ((e : DeviceEntry) × (get m.device_id s'.device_registry ≡ some e) × (e.conversation ≡ c))
      × (online_in m.device_id s'.registry ≡ true)
      × (s'.bus ≡ s.bus)
      × Serves w m.device_id later message s'
