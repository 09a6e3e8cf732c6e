-- ===== src/Datp/Messages.antt =====
-- datp/messages.py: the builders of envelopes. The time, the random parts of ids and the defaults of
-- optional arguments that a caller leaves out are arguments.
use Prim.Native.String.{◌++◌ as ◌<>◌}
use oi_interface.Base.{
  String, Bool, true, List, [], ◌∷◌, Option, none, some, is_empty, truthy, if◌then◌else◌,
}
use oi_interface.Base.Int.{ℤ}
use oi_interface.Dict.{Dict, put}
use oi_interface.Json.{Json, null, bool, int, text, dict, dicts}
use oi_interface.Datp.Text.{first_chars}

abbrev pub datp_version : String
datp_version = "datp"

abbrev pub unknown_device : String
unknown_device = "*"

abbrev pub Message : Type 0
Message = Dict Json

-- The literal that every builder returns.
abbrev pub envelope : String → String → String → String → Message → Message
envelope msg_type id device_id ts payload =
    ("v", text datp_version)
    ∷ ("type", text msg_type)
    ∷ ("id", text id)
    ∷ ("device_id", text device_id)
    ∷ ("ts", text ts)
    ∷ ("payload", dict payload)
    ∷ []

-- `if value: payload[key] = value`, by the type of the value.
unfoldable pub with_text : String → Option String → Message → Message
unfolding put
with_text key none payload = payload
with_text key (some s) payload = if truthy s then put key (text s) payload else payload

unfoldable pub with_dict : String → Option (Dict Json) → Message → Message
unfolding put
with_dict key none payload = payload
with_dict key (some d) payload = if is_empty d then payload else put key (dict d) payload

unfoldable pub with_dicts : String → List (Dict Json) → Message → Message
unfolding put
with_dicts key ds payload = if is_empty ds then payload else put key (dicts ds) payload

-- `_with_optional_arg`, for a value that is there or not.
unfoldable pub with_optional_arg : String → Option Json → Message → Message
unfolding put
with_optional_arg key none args = args
with_optional_arg key (some v) args = put key v args

unfoldable pub build_hello :
    (ts token device_id device_type firmware : String)
    → Dict Json
    → Option (Dict Json)
    → (resume_token nonce : Option String) → Option (Dict Json)
    → Message
unfolding with_text with_dict
build_hello ts token device_id device_type firmware capabilities state resume_token nonce
      conversation =
    envelope "hello" ("hello_" <> token) device_id ts (
      with_dict "conversation" conversation (
        with_text "nonce" nonce (
          with_text "resume_token" resume_token (
            with_dict "state" state (
              ("device_type", text device_type)
              ∷ ("protocol", text datp_version)
              ∷ ("firmware", text firmware)
              ∷ ("capabilities", dict capabilities)
              ∷ [])))))

-- The optional arguments of `build_hello_ack`.
pub record HelloAck : Type 0 where
  pub server_id : String
  pub server_name : String
  pub default_agent : Option (Dict Json)
  pub available_agents : List (Dict Json)
  pub available_backends : List (Dict Json)
  pub selected_backend : Option String
  pub selected_agent : Option (Dict Json)
  pub selected_session_key : Option String
  pub server_capabilities : Option (Dict Json)
  pub policy : Option (Dict Json)

unfoldable pub hello_ack_payload : (ts session_id : String) → HelloAck → Message
unfolding with_text with_dict with_dicts
hello_ack_payload ts session_id ack = with_dict "policy" ack.policy (
    with_dict "server_capabilities" ack.server_capabilities (
      with_text "selected_session_key" ack.selected_session_key (
        with_dict "selected_agent" ack.selected_agent (
          with_text "selected_backend" ack.selected_backend (
            with_dicts "available_backends" ack.available_backends (
              with_dicts "available_agents" ack.available_agents (
                with_dict "default_agent" ack.default_agent (
                  ("session_id", text session_id)
                  ∷ ("server_time", text ts)
                  ∷ ("accepted_protocol", text datp_version)
                  ∷ ("send_capabilities", bool true)
                  ∷ ("server_id", text ack.server_id)
                  ∷ ("server_name", text ack.server_name)
                  ∷ []))))))))

unfoldable pub build_hello_ack : (ts session_id device_id : String) → HelloAck → Message
unfolding first_chars hello_ack_payload
build_hello_ack ts session_id device_id ack =
    envelope "hello_ack" ("ha_" <> first_chars 8 session_id) device_id ts
      (hello_ack_payload ts session_id ack)

unfoldable pub build_ack : (ts command_id : String) → Bool → Message
unfolding first_chars
build_ack ts command_id ok =
    envelope "ack" ("ack_" <> first_chars 16 command_id) unknown_device ts
      (("command_id", text command_id) ∷ ("ok", bool ok) ∷ [])

abbrev or_null : Option Json → Json
or_null none = null
or_null (some v) = v

unfoldable pub build_error : (ts device_id code message : String) → Option Json → Message
unfolding first_chars
build_error ts device_id code message related_id =
    envelope "error" ("err_" <> first_chars 8 code) device_id ts
      (("code", text code) ∷ ("message", text message) ∷ ("related_id", or_null related_id) ∷ [])

-- `command_id or f"cmd_{uuid.uuid4().hex[:12]}"`, with the random part.
abbrev pub id_of : String → Option String → String
id_of token none = "cmd_" <> token
id_of token (some i) = if truthy i then i else "cmd_" <> token

unfoldable pub build_command : (ts token device_id op : String) → Message → Option String → Message
build_command ts token device_id op args command_id =
    envelope "command" (id_of token command_id) device_id ts
      (("op", text op) ∷ ("args", dict args) ∷ [])

-- The commands with a builder of their own, with its arguments but the device.
pub data Command : Type 0 where
  show_status : (state : String) → (label : Option String) → Command
  show_card : (title : String) → (options : List (Dict Json)) → (body : Option String) → Command
  show_response_delta : (text_delta : String) → (is_final : Bool) → (sequence : Option ℤ) → Command
  show_progress : (progress : String) → (kind : Option String) → (sequence : Option ℤ) → Command
  cache_put_begin :
      (response_id format : String)
      → (sample_rate : ℤ) → (bytes : Option ℤ) → (label : Option String) → Command
  cache_chunk : (response_id : String) → (seq : ℤ) → (data_b64 : String) → Command
  cache_put_end : (response_id : String) → (sha256 : Option String) → Command
  play : (response_id : String) → Command
  stop : Command
  set_brightness : (value : ℤ) → Command
  mute_until : (until : String) → Command

abbrev opt_text : Option String → Option Json
opt_text none = none
opt_text (some s) = some (text s)

abbrev opt_int : Option ℤ → Option Json
opt_int none = none
opt_int (some n) = some (int n)

abbrev pub op_of : Command → String
op_of (show_status state label) = "display.show_status"
op_of (show_card title options body) = "display.show_card"
op_of (show_response_delta text_delta is_final sequence) = "display.show_response_delta"
op_of (show_progress progress kind sequence) = "display.show_progress"
op_of (cache_put_begin response_id format sample_rate bytes label) = "audio.cache.put_begin"
op_of (cache_chunk response_id seq data_b64) = "audio.cache.put_chunk"
op_of (cache_put_end response_id sha256) = "audio.cache.put_end"
op_of (play response_id) = "audio.play"
op_of stop = "audio.stop"
op_of (set_brightness value) = "device.set_brightness"
op_of (mute_until until) = "device.mute_until"

unfoldable pub args_of : Command → Message
unfolding with_optional_arg
args_of (show_status state label) =
    with_optional_arg "label" (opt_text label) (("state", text state) ∷ [])
args_of (show_card title options body) =
    with_optional_arg "body" (opt_text body)
      (("title", text title) ∷ ("options", dicts options) ∷ [])
args_of (show_response_delta text_delta is_final sequence) =
    with_optional_arg "sequence" (opt_int sequence)
      (("text_delta", text text_delta) ∷ ("is_final", bool is_final) ∷ [])
args_of (show_progress progress kind sequence) =
    with_optional_arg "sequence" (opt_int sequence)
      (with_optional_arg "kind" (opt_text kind) (("text", text progress) ∷ []))
args_of (cache_put_begin response_id format sample_rate bytes label) =
    with_optional_arg "label" (opt_text label) (
      with_optional_arg "bytes" (opt_int bytes) (
        ("response_id", text response_id)
        ∷ ("format", text format)
        ∷ ("sample_rate", int sample_rate)
        ∷ []))
args_of (cache_chunk response_id seq data_b64) =
    ("response_id", text response_id) ∷ ("seq", int seq) ∷ ("data_b64", text data_b64) ∷ []
args_of (cache_put_end response_id sha256) =
    with_optional_arg "sha256" (opt_text sha256) (("response_id", text response_id) ∷ [])
args_of (play response_id) = ("response_id", text response_id) ∷ []
args_of stop = []
args_of (set_brightness value) = ("value", int value) ∷ []
args_of (mute_until until) = ("until", text until) ∷ []

-- `build_display_show_status` and the other builders.
unfoldable pub build : (ts token device_id : String) → Command → Message
unfolding build_command args_of
build ts token device_id c = build_command ts token device_id (op_of c) (args_of c) none
