-- ===== src/Datp/Schema.antt =====
-- datp/spec.py: the schemas of the messages, without the descriptions, and the structural check.
use package.text.Mathlib.Text.{find?}
use oi_interface.Base.{
  String, Bool, false, List, [], ◌∷◌, ◌++◌, Option, none, some, ◌==◌, if◌then◌else◌, ℕ, is_empty,
  ◌||◌, not,
}
use oi_interface.Dict.{Dict, get, has, is_some}
use oi_interface.Json.{Json, null, text, array, object, Items, end_items, item, to_dict}
use oi_interface.Datp.Messages.{Message}

-- The values of "type".
pub data Kind : Type 0 where
  string_kind object_kind array_kind boolean_kind integer_kind null_kind : Kind

-- "const", "enum", "pattern" (it is that of a timestamp), or "minimum" and "maximum".
pub data Limit : Type 0 where
  unlimited : Limit
  equal_to : String → Limit
  one_of : List String → Limit
  timestamp : Limit
  within : (minimum maximum : ℕ) → Limit

pub record Property : Type 0 where
  pub kinds : List Kind
  pub limit : Limit

pub record Schema : Type 0 where
  pub required : List String
  pub properties : Dict Property

abbrev kind : Kind → Property
kind k = record { kinds = k ∷ []; limit = unlimited }

abbrev constant : String → Property
constant s = record { kinds = string_kind ∷ []; limit = equal_to s }

abbrev timestamp_property : Property
timestamp_property = record { kinds = string_kind ∷ []; limit = timestamp }

-- `"type": ["string", "null"]`
abbrev nullable_string : Property
nullable_string = record { kinds = string_kind ∷ null_kind ∷ []; limit = unlimited }

abbrev pub envelope_schema : Schema
envelope_schema = record {
  required = "v" ∷ "type" ∷ "id" ∷ "device_id" ∷ "ts" ∷ "payload" ∷ [];
  properties =
      ("v", constant "datp")
      ∷ (
        "type",
        record {
          kinds = string_kind ∷ [];
          limit = one_of (
              "hello" ∷ "hello_ack" ∷ "event" ∷ "audio_chunk" ∷ "state" ∷ "command" ∷ "ack"
              ∷ "error" ∷ []);
        },
      )
      ∷ ("id", kind string_kind)
      ∷ ("device_id", kind string_kind)
      ∷ ("ts", timestamp_property)
      ∷ ("payload", kind object_kind)
      ∷ [];
}

abbrev pub hello_schema : Schema
hello_schema = record {
  required = "device_type" ∷ "protocol" ∷ "firmware" ∷ "capabilities" ∷ [];
  properties =
      ("device_type", kind string_kind)
      ∷ ("protocol", constant "datp")
      ∷ ("firmware", kind string_kind)
      ∷ ("capabilities", kind object_kind)
      ∷ ("state", kind object_kind)
      ∷ ("resume_token", nullable_string)
      ∷ ("nonce", kind string_kind)
      ∷ ("conversation", kind object_kind)
      ∷ [];
}

abbrev pub hello_ack_schema : Schema
hello_ack_schema = record {
  required = "session_id" ∷ "server_time" ∷ "accepted_protocol" ∷ "send_capabilities" ∷ [];
  properties =
      ("session_id", kind string_kind)
      ∷ ("server_time", timestamp_property)
      ∷ ("accepted_protocol", constant "datp")
      ∷ ("send_capabilities", kind boolean_kind)
      ∷ ("server_id", kind string_kind)
      ∷ ("server_name", kind string_kind)
      ∷ ("default_agent", kind object_kind)
      ∷ ("available_agents", kind array_kind)
      ∷ ("available_backends", kind array_kind)
      ∷ ("selected_backend", kind string_kind)
      ∷ ("selected_agent", kind object_kind)
      ∷ ("selected_session_key", kind string_kind)
      ∷ ("server_capabilities", kind object_kind)
      ∷ ("policy", kind object_kind)
      ∷ [];
}

abbrev pub event_schema : Schema
event_schema = record {
  required = "event" ∷ [];
  properties =
      ("event", kind string_kind)
      ∷ ("button", kind string_kind)
      ∷ ("stream_id", kind string_kind)
      ∷ ("duration_ms", kind integer_kind)
      ∷ ("original_sample_rate", kind integer_kind)
      ∷ ("original_channels", kind integer_kind)
      ∷ ("samples", kind integer_kind)
      ∷ [];
}

abbrev pub audio_chunk_schema : Schema
audio_chunk_schema = record {
  required = "stream_id" ∷ "seq" ∷ "format" ∷ "sample_rate" ∷ "channels" ∷ "data_b64" ∷ [];
  properties =
      ("stream_id", kind string_kind)
      ∷ ("seq", kind integer_kind)
      ∷ ("format", constant "pcm16")
      ∷ ("sample_rate", kind integer_kind)
      ∷ ("channels", kind integer_kind)
      ∷ ("data_b64", kind string_kind)
      ∷ [];
}

abbrev pub state_schema : Schema
state_schema = record {
  required = "mode" ∷ [];
  properties =
      ("mode", kind string_kind)
      ∷ ("battery_percent", record { kinds = integer_kind ∷ []; limit = within 0 100 })
      ∷ ("charging", kind boolean_kind)
      ∷ ("wifi_rssi", kind integer_kind)
      ∷ ("heap_free", kind integer_kind)
      ∷ ("uptime_s", kind integer_kind)
      ∷ ("audio_cache_used_bytes", kind integer_kind)
      ∷ ("muted_until", nullable_string)
      ∷ [];
}

abbrev pub command_schema : Schema
command_schema = record {
  required = "op" ∷ "args" ∷ [];
  properties = ("op", kind string_kind) ∷ ("args", kind object_kind) ∷ [];
}

abbrev pub ack_schema : Schema
ack_schema = record {
  required = "command_id" ∷ "ok" ∷ [];
  properties = ("command_id", kind string_kind) ∷ ("ok", kind boolean_kind) ∷ [];
}

abbrev pub error_schema : Schema
error_schema = record {
  required = "code" ∷ "message" ∷ [];
  properties =
      ("code", kind string_kind)
      ∷ ("message", kind string_kind)
      ∷ ("related_id", nullable_string)
      ∷ [];
}

-- `MESSAGE_SCHEMAS`, by the schema of the payload.
abbrev pub message_schemas : Dict Schema
message_schemas =
    ("hello", hello_schema)
    ∷ ("hello_ack", hello_ack_schema)
    ∷ ("event", event_schema)
    ∷ ("audio_chunk", audio_chunk_schema)
    ∷ ("state", state_schema)
    ∷ ("command", command_schema)
    ∷ ("ack", ack_schema)
    ∷ ("error", error_schema)
    ∷ []

abbrev pub required_commands : List String
required_commands =
    "display.show_status" ∷ "display.show_card" ∷ "audio.cache.put_begin" ∷ "audio.cache.put_chunk"
    ∷ "audio.cache.put_end" ∷ "audio.play" ∷ "audio.stop" ∷ "device.set_brightness"
    ∷ "device.mute_until" ∷ []

abbrev pub optional_commands : List String
optional_commands = "display.show_response_delta" ∷ "display.show_progress" ∷ []

-- None where the code raises `ValueError`.
unfoldable pub get_schema_for_type : String → Option Schema
unfolding get
get_schema_for_type msg_type = get msg_type message_schemas

pub data StructureError : Type 0 where
  missing_envelope_field : String → StructureError
  invalid_version : Json → StructureError
  unknown_message_type : Json → StructureError
  missing_payload_field : String → StructureError

-- Whether a text is an item of a list.
abbrev holds : String → Items → Bool
holds s end_items = false
holds s (item (text t) vs) = (s == t) || holds s vs
holds s (item v vs) = holds s vs

-- `field in payload`: none where Python raises `TypeError`.
unfoldable pub contains : Json → String → Option Bool
unfolding get
contains (object fs) f = some (has f (to_dict fs))
contains (array vs) f = some (holds f vs)
contains (text s) f = some (is_some (find? s f))
contains v f = none

unfoldable pub missing_of : List String → Message → List StructureError
unfolding get
missing_of [] m = []
missing_of (f ∷ fields) m =
    let rest = missing_of fields m in if has f m then rest else missing_envelope_field f ∷ rest

abbrev note_missing :
    String → Option Bool → Option (List StructureError) → Option (List StructureError)
note_missing f none rest = none
note_missing f (some there) none = none
note_missing f (some there) (some rest) =
    if there then some rest else some (missing_payload_field f ∷ rest)

unfoldable pub missing_in_payload : List String → Json → Option (List StructureError)
missing_in_payload [] payload = some []
missing_in_payload (f ∷ fields) payload =
    note_missing f (contains payload f) (missing_in_payload fields payload)

abbrev with_errors :
    List StructureError → Option (List StructureError) → Option (List StructureError)
with_errors before none = none
with_errors before (some errors) = some (before ++ errors)

abbrev version_errors : Json → List StructureError
version_errors (text v) = if v == "datp" then [] else invalid_version (text v) ∷ []
version_errors v = invalid_version v ∷ []

abbrev check_required :
    Json → List StructureError → Option Schema → Json → Option (List StructureError)
check_required msg_type before none payload = some (before ++ unknown_message_type msg_type ∷ [])
check_required msg_type before (some schema) payload =
    with_errors before (missing_in_payload schema.required payload)

abbrev check_payload : List StructureError → Json → Json → Option (List StructureError)
check_payload before (text t) payload =
    check_required (text t) before (get_schema_for_type t) payload
check_payload before (array vs) payload = none
check_payload before (object fs) payload = none
check_payload before v payload = some (before ++ unknown_message_type v ∷ [])

abbrev value_at : String → Message → Json
value_at f m = elim (get f m) [ none ↦ null | some v ↦ v ]

-- None where the code raises `TypeError`.
unfoldable pub validate_message_structure : Message → Option (List StructureError)
unfolding missing_of missing_in_payload get_schema_for_type get
validate_message_structure m =
    let absent = missing_of envelope_schema.required m in
    if not (is_empty absent)
    then some absent
    else check_payload (version_errors (value_at "v" m)) (value_at "type" m) (value_at "payload" m)
