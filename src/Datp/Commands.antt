-- ===== src/Datp/Commands.antt =====
-- datp/commands.py: `CommandDispatcher`. A future is named by the id of its command. Between its steps a
-- `send` waits, so the steps of several of them, and the acks, come in any order.
pub mod Acks
pub mod Methods
pub mod Phases
use oi_interface.Base.{
  String, Bool, true, false, List, [], ◌∷◌, Option, none, some, ◌==◌, if◌then◌else◌, is_empty, ℕ,
}
use oi_interface.Base.Int.{ℤ, pos}
use oi_interface.Dict.{Dict, get, put, pop, has, or_default}
use oi_interface.Json.{Json, bool, text, null, object, to_dict}
use oi_interface.Datp.Messages.{
  Message, build_command, build, Command, show_status, show_card, show_response_delta,
  show_progress, cache_put_begin, cache_chunk, cache_put_end, play, stop, set_brightness,
  mute_until,
}

-- What a `send` ends with: its result, or the `KeyError` of `del self._pending[command_id]`.
pub data Ending : Type 0 where
  gives : Json → Ending
  key_error : Ending

-- Where a `send` is: in `send_to_device`, in the wait for the ack, or at its end.
pub data Place : Type 0 where
  sending waiting : Place
  ended : Ending → Place

-- `pending` has the commands whose future is in `_pending`, `done` the results of the futures that are set,
-- and `places` where each `send` is.
pub record Dispatcher : Type 0 where
  pub pending : List (String × Bool)
  pub done : Dict Json
  pub places : Dict Place

abbrev pub ok_in : Dict Json → Json
ok_in payload = or_default (get "ok" payload) (bool false)

abbrev pub resolve : String → Json → Dispatcher → Dispatcher
resolve command_id ok s =
    if has command_id s.pending
    then record s { pending = pop command_id s.pending; done = put command_id ok s.done }
    else s

-- `self._pending.pop(payload.get("command_id"), None)`: an id that is no text has no future.
abbrev pub ack_of : Option Json → Json → Dispatcher → Dispatcher
ack_of (some (text command_id)) ok s = resolve command_id ok s
ack_of v ok s = s

unfoldable pub on_event : String → Dict Json → Dispatcher → Dispatcher
on_event event_type payload s =
    if event_type == "ack" then ack_of (get "command_id" payload) (ok_in payload) s else s

-- `send` up to `send_to_device`, with a new future.
unfoldable pub start : String → Dispatcher → Dispatcher
start command_id s = record s {
  pending = put command_id true s.pending;
  done = pop command_id s.done;
  places = put command_id sending s.places;
}

-- `del self._pending[command_id]` and `return False`.
abbrev pub not_sent : String → Dispatcher → Dispatcher
not_sent command_id s =
    if has command_id s.pending
    then record s {
      pending = pop command_id s.pending;
      places = put command_id (ended (gives (bool false))) s.places;
    }
    else record s { places = put command_id (ended key_error) s.places }

abbrev pub after_sending : String → Bool → Dispatcher → Option Place → Dispatcher
after_sending command_id true s (some sending) = record s {
  places = put command_id waiting s.places;
}
after_sending command_id false s (some sending) = not_sent command_id s
after_sending command_id sent s (some waiting) = s
after_sending command_id sent s (some (ended o)) = s
after_sending command_id sent s none = s

-- `send_to_device` returns to a `send`, if that is where it is.
unfoldable pub send_returned : String → Bool → Dispatcher → Dispatcher
send_returned command_id sent s = after_sending command_id sent s (get command_id s.places)

-- The end of `wait_for`: with the result of the future, or with a timeout, if it has none.
abbrev pub end_wait : String → Dispatcher → Option Json → Dispatcher
end_wait command_id s (some ok) = record s { places = put command_id (ended (gives ok)) s.places }
end_wait command_id s none = record s {
  pending = pop command_id s.pending;
  places = put command_id (ended (gives (bool false))) s.places;
}

abbrev pub after_waiting : String → Dispatcher → Option Place → Dispatcher
after_waiting command_id s (some waiting) = end_wait command_id s (get command_id s.done)
after_waiting command_id s (some sending) = s
after_waiting command_id s (some (ended o)) = s
after_waiting command_id s none = s

unfoldable pub wake : String → Dispatcher → Dispatcher
wake command_id s = after_waiting command_id s (get command_id s.places)

-- The methods for single commands, with their arguments but the device and the timeout.
pub data Method : Type 0 where
  m_show_status : (state : String) → (label : Option String) → Method
  m_show_card : (title : String) → (options : List (Dict Json)) → (body : Option String) → Method
  m_show_response_delta : (text_delta : String) → (is_final : Bool) → (sequence : Option ℤ) → Method
  m_show_progress : (progress : String) → (kind : Option String) → (sequence : Option ℤ) → Method
  m_cache_put_begin : (response_id : String) → Method
  m_cache_put_chunk : (response_id : String) → (seq : ℤ) → (data_b64 : String) → Method
  m_cache_put_end : (response_id : String) → (sha256 : Option String) → Method
  m_audio_play : (response_id : String) → Method
  m_audio_stop : Method
  m_set_brightness : (level : ℤ) → Method
  m_mute_until : (until : String) → Method
  m_set_character_pack : (pack_id : Option String) → Method

abbrev text_or_null : Option String → Json
text_or_null none = null
text_or_null (some s) = text s

-- The message that a method builds.
unfoldable pub message_of : (ts token device_id : String) → Method → Message
message_of ts token d (m_show_status state label) = build ts token d (show_status state label)
message_of ts token d (m_show_card title options body) =
    build ts token d (show_card title options body)
message_of ts token d (m_show_response_delta text_delta is_final sequence) =
    build ts token d (show_response_delta text_delta is_final sequence)
message_of ts token d (m_show_progress progress kind sequence) =
    build ts token d (show_progress progress kind sequence)
message_of ts token d (m_cache_put_begin response_id) =
    build ts token d (cache_put_begin response_id "wav_pcm16" (pos 22050) none none)
message_of ts token d (m_cache_put_chunk response_id seq data_b64) =
    build ts token d (cache_chunk response_id seq data_b64)
message_of ts token d (m_cache_put_end response_id sha256) =
    build ts token d (cache_put_end response_id sha256)
message_of ts token d (m_audio_play response_id) = build ts token d (play response_id)
message_of ts token d m_audio_stop = build ts token d stop
message_of ts token d (m_set_brightness level) = build ts token d (set_brightness level)
message_of ts token d (m_mute_until until) = build ts token d (mute_until until)
message_of ts token d (m_set_character_pack pack_id) =
    build_command ts token d "character.set_state" (("pack_id", text_or_null pack_id) ∷ []) none

-- The payload of a message, and what `_send_built_command` takes out of it.
abbrev payload_of : Message → Dict Json
payload_of m = elim (get "payload" m) [ some (object fs) ↦ to_dict fs | v ↦ [] ]

abbrev op_in : Dict Json → String
op_in payload = elim (get "op" payload) [ some (text op) ↦ op | v ↦ "" ]

abbrev args_in : Dict Json → Dict Json
args_in payload = elim (get "args" payload) [ some (object fs) ↦ to_dict fs | v ↦ [] ]

-- The message that `send` builds anew from the operation and the arguments.
unfoldable pub sent_message : (ts token device_id : String) → Message → Message
sent_message ts token d m =
    build_command ts token d (op_in (payload_of m)) (args_in (payload_of m)) none
