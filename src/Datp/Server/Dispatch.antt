-- ===== src/Datp/Server/Dispatch.antt =====
-- datp/server.py: `_dispatch`, the end of a connection, and messages to devices.
use Prim.Native.String.{◌++◌ as ◌<>◌}
use oi_interface.Base.{
  String, Bool, true, false, Option, none, some, ◌==◌, ◌&&◌, if◌then◌else◌, ℕ, not, ◌⊎◌, inl, inr,
}
use oi_interface.Dict.{Dict, get, pop, has}
use oi_interface.Json.{Json, bool, text}
use oi_interface.Registry.Service.{record_heartbeat, device_state_update, device_disconnected}
use oi_interface.Datp.Messages.{Message, build_error, unknown_device}
use oi_interface.Datp.Server.State.{
  Server, Connection, Result, returned, connection_closed, send, emit, on_registry,
  connection_owns_device, DeviceEntry,
}
use oi_interface.Datp.Server.Hello.{Incoming, send_error, handle_hello, handle_conversation_update}

-- `payload.get(key) == value`
abbrev pub is_text : String → String → Dict Json → Bool
is_text key value payload = elim (get key payload) [ some (text t) ↦ t == value | v ↦ false ]

-- `payload.get("heartbeat") is True`
abbrev pub is_true : String → Dict Json → Bool
is_true key payload = elim (get key payload) [ some (bool b) ↦ b | v ↦ false ]

-- A coroutine that returns the id of the device.
abbrev pub and_device : String → Server × Result (Unit {0}) → Server × Result (Option String)
and_device d (s, returned u) = (s, returned (some d))
and_device d (s, connection_closed) = (s, connection_closed)

-- `return device_id or None`
abbrev or_none : String → Option String
or_none d = if d == "" then none else some d

abbrev pub refusal : String → Connection → Incoming → Server → Server × Result (Unit {0})
refusal ts w m s =
    if has m.device_id s.device_registry
    then send_error ts w m "DEVICE_ID_MISMATCH"
        "Message device_id does not match the connected device" s
    else send_error ts w m "UNKNOWN_DEVICE" "Device must complete hello before sending messages" s

abbrev pub and_or_none : String → Server × Result (Unit {0}) → Server × Result (Option String)
and_or_none d (s, returned u) = (s, returned (or_none d))
and_or_none d (s, connection_closed) = (s, connection_closed)

module _ (same_value : Json → Json → Bool) (now : ℕ) where
  unfoldable pub handle_event : String → Connection → Incoming → Server → Server × Result (Unit {0})
  handle_event ts w m s =
      if is_text "event" "conversation.update" m.payload
      then handle_conversation_update ts w m s
      else (
        emit "event" m.device_id m.payload (
            if is_text "event" "heartbeat" m.payload
            then on_registry (record_heartbeat now m.device_id) s
            else s),
        returned tt,
      )

  unfoldable pub handle_state : Incoming → Server → Server
  handle_state m s =
      let emitted = emit "state" m.device_id m.payload s in
      let beaten =
        if is_true "heartbeat" m.payload
        then on_registry (record_heartbeat now m.device_id) emitted
        else emitted in
      on_registry (device_state_update now m.device_id m.payload) beaten

  -- The branches by type. `parse_message` lets no other type through.
  unfoldable pub handle :
      (ts session_id : String) → Connection → Incoming → Server → Server × Result (Unit {0})
  handle ts session_id w m s =
      if m.msg_type == "hello"
      then handle_hello same_value now ts session_id w m s
      else if m.msg_type == "event"
      then handle_event ts w m s
      else if m.msg_type == "audio_chunk"
      then (emit "audio_chunk" m.device_id m.payload s, returned tt)
      else if m.msg_type == "state"
      then (handle_state m s, returned tt)
      else if m.msg_type == "command"
      then send_error ts w m "INVALID_MESSAGE_DIRECTION"
          "Commands are sent by the gateway, not received from devices" s
      else if m.msg_type == "ack"
      then (emit "ack" m.device_id m.payload s, returned tt)
      else if m.msg_type == "error"
      then (emit "error" m.device_id m.payload s, returned tt)
      else if m.msg_type == "hello_ack"
      then (s, returned tt)
      else send_error ts w m "UNKNOWN_MESSAGE_TYPE" ("Unhandled message type: " <> m.msg_type) s

  -- `_dispatch`, for a message, or for the text of the `ValueError` of `parse_message`.
  unfoldable pub dispatch :
      (ts session_id : String)
      → Connection
      → String ⊎ Incoming
      → Server
      → Server × Result (Option String)
  dispatch ts session_id w (inl problem) s =
      let (s', r) = send w (build_error ts unknown_device "INVALID_JSON" problem none) s in
      (s', elim r [ returned u ↦ returned none | connection_closed ↦ connection_closed ])
  dispatch ts session_id w (inr m) s =
      if not (m.msg_type == "hello") && not (connection_owns_device w m.device_id s)
      then and_or_none m.device_id (refusal ts w m s)
      else and_device m.device_id (handle ts session_id w m s)

  -- The `finally` block of `_handle_connection`, with the device id of the last message.
  unfoldable pub end_connection : Connection → Option String → Server → Server
  end_connection w none s = s
  end_connection w (some d) s =
      if not (d == "") && connection_owns_device w d s
      then on_registry (device_disconnected now d)
          (record s { device_registry = pop d s.device_registry })
      else s

abbrev pub and_sent : Server × Result (Unit {0}) → Server × Bool
and_sent (s, returned u) = (s, true)
and_sent (s, connection_closed) = (s, false)

abbrev pub send_entry : Message → Server → Option DeviceEntry → Server × Bool
send_entry m s none = (s, false)
send_entry m s (some e) =
    if has "v" m && has "type" m && has "id" m then and_sent (send e.ws m s) else (s, false)

-- `send_to_device`, for an envelope: whether the message went out.
unfoldable pub send_to_device : String → Message → Server → Server × Bool
send_to_device d m s = send_entry m s (get d s.device_registry)
