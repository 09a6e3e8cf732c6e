-- ===== src/Datp/Parse.antt =====
-- datp/messages.py: `parse_message`, on the value that `json.loads` returns, or none where it raises.
use Prim.Native.Char.{Char}
use oi_interface.Base.{
  String, Bool, List, [], ◌∷◌, ◌++◌, Option, none, some, mem, ◌==◌, if◌then◌else◌, is_empty,
}
use oi_interface.Dict.{get, has}
use oi_interface.Json.{Json, null, text, array, object, to_dict}
use oi_interface.Datp.Text.{Part, digit, char, matches}
use oi_interface.Datp.Messages.{Message, datp_version}

abbrev pub valid_message_types : List String
valid_message_types =
    "hello" ∷ "hello_ack" ∷ "event" ∷ "audio_chunk" ∷ "state" ∷ "ack" ∷ "command" ∷ "error" ∷ []

-- `^\d{4}-\d{2}-\d{2}T\d{2}:\d{2}:\d{2}\.\d{3}Z$`
abbrev ts_pattern : List Part
ts_pattern =
    (digit ∷ digit ∷ digit ∷ digit ∷ char 45 ∷ digit ∷ digit ∷ char 45 ∷ digit ∷ digit ∷ [])
    ++ (char 84 ∷ digit ∷ digit ∷ char 58 ∷ digit ∷ digit ∷ char 58 ∷ digit ∷ digit ∷ [])
    ++ (char 46 ∷ digit ∷ digit ∷ digit ∷ char 90 ∷ [])

-- The messages of the `ValueError`.
pub data ParseError : Type 0 where
  version_required : ParseError
  unsupported_version : Json → ParseError
  missing_field : String → ParseError
  invalid_timestamp : String → ParseError
  unknown_type : Json → ParseError

-- A message, a `ValueError`, or an error that the code does not catch.
pub data Parsed : Type 0 where
  parsed : Message → Parsed
  invalid_json : Parsed
  invalid : List ParseError → Parsed
  attribute_error : Parsed
  type_error : Parsed

abbrev version_errors : Option Json → List ParseError
version_errors none = version_required ∷ []
version_errors (some null) = version_required ∷ []
version_errors (some (text v)) = if v == datp_version then [] else unsupported_version (text v) ∷ []
version_errors (some v) = unsupported_version v ∷ []

unfoldable pub missing : List String → Message → List ParseError
unfolding get
missing [] m = []
missing (f ∷ fields) m =
    let rest = missing fields m in if has f m then rest else missing_field f ∷ rest

abbrev pub required_fields : List String
required_fields = "type" ∷ "id" ∷ "device_id" ∷ "ts" ∷ "payload" ∷ []

-- `msg_type not in VALID_MESSAGE_TYPES`: a list or a dict is not hashable.
abbrev type_errors : Option Json → Option (List ParseError)
type_errors none = some []
type_errors (some (text t)) =
    if mem t valid_message_types then some [] else some (unknown_type (text t) ∷ [])
type_errors (some (array vs)) = none
type_errors (some (object fs)) = none
type_errors (some v) = some (unknown_type v ∷ [])

module _ (is_digit : Char → Bool) where
  unfoldable pub valid_ts : String → Bool
  unfolding matches
  valid_ts ts = matches is_digit ts_pattern ts

  -- `_TS_RE.match` takes only texts.
  abbrev ts_errors : Option Json → Option (List ParseError)
  ts_errors none = some []
  ts_errors (some (text ts)) = if valid_ts ts then some [] else some (invalid_timestamp ts ∷ [])
  ts_errors (some v) = none

  abbrev outcome :
      Message → List ParseError → Option (List ParseError) → Option (List ParseError) → Parsed
  outcome m before none of_type = type_error
  outcome m before (some of_ts) none = type_error
  outcome m before (some of_ts) (some of_type) =
      let errors = before ++ of_ts ++ of_type in
      if is_empty errors then parsed m else invalid errors

  abbrev check_fields : Message → Parsed
  check_fields m =
      outcome m (version_errors (get "v" m) ++ missing required_fields m) (ts_errors (get "ts" m))
        (type_errors (get "type" m))

  unfoldable pub parse_message : Option Json → Parsed
  unfolding valid_ts missing get
  parse_message none = invalid_json
  parse_message (some (object fs)) = check_fields (to_dict fs)
  parse_message (some v) = attribute_error
