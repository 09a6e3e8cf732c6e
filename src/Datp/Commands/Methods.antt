-- ===== src/Datp/Commands/Methods.antt =====
-- datp/commands.py: the methods for single commands.
use oi_interface.Base.{String, Option, none, some, List, [], ◌∷◌, ◌≡◌, refl, ap, Bool, ◌∙◌, ◌++◌}
use oi_interface.Dict.{get, Dict, put}
use oi_interface.Datp.Messages.{Message, build_command, build, args_of, with_optional_arg}
use oi_interface.Datp.Built.{to_dict-fields_of}
use oi_interface.Datp.Commands.{
  Method, m_show_status, m_show_card, m_show_response_delta, m_show_progress, m_cache_put_begin,
  m_cache_put_chunk, m_cache_put_end, m_audio_play, m_audio_stop, m_set_brightness, m_mute_until,
  m_set_character_pack, message_of, sent_message,
}
use oi_interface.Json.{Json, text, dicts, bool, int, null}
use oi_interface.Base.Int.{pos}

sent_message-build_command :
    (ts token d ts' token' op : String) (args : Message)
    → sent_message ts token d (build_command ts' token' d op args none)
      ≡ build_command ts token d op args none
unfolding sent_message build_command get oi_interface.Base.same
sent_message-build_command ts token d ts' token' op args =
    ap (λ a. build_command ts token d op a none) (to_dict-fields_of args)

-- An argument that is there if a value is given.
abbrev optional {ℓ} : {A : Type ℓ} → String → (A → Json) → Option A → Dict Json
optional key f none = []
optional key f (some v) = (key, f v) ∷ []

-- The operation and the arguments that each method is for.
abbrev pub op_named : Method → String
op_named (m_show_status state label) = "display.show_status"
op_named (m_show_card title options body) = "display.show_card"
op_named (m_show_response_delta text_delta is_final sequence) = "display.show_response_delta"
op_named (m_show_progress progress kind sequence) = "display.show_progress"
op_named (m_cache_put_begin response_id) = "audio.cache.put_begin"
op_named (m_cache_put_chunk response_id seq data_b64) = "audio.cache.put_chunk"
op_named (m_cache_put_end response_id sha256) = "audio.cache.put_end"
op_named (m_audio_play response_id) = "audio.play"
op_named m_audio_stop = "audio.stop"
op_named (m_set_brightness level) = "device.set_brightness"
op_named (m_mute_until until) = "device.mute_until"
op_named (m_set_character_pack pack_id) = "character.set_state"

abbrev pub arguments : Method → Dict Json
arguments (m_show_status state label) = ("state", text state) ∷ optional "label" text label
arguments (m_show_card title options body) =
    ("title", text title) ∷ ("options", dicts options) ∷ optional "body" text body
arguments (m_show_response_delta text_delta is_final sequence) =
    ("text_delta", text text_delta) ∷ ("is_final", bool is_final) ∷ optional "sequence" int sequence
arguments (m_show_progress progress kind sequence) =
    ("text", text progress) ∷ (optional "kind" text kind ++ optional "sequence" int sequence)
arguments (m_cache_put_begin response_id) =
    ("response_id", text response_id)
    ∷ ("format", text "wav_pcm16")
    ∷ ("sample_rate", int (pos 22050))
    ∷ []
arguments (m_cache_put_chunk response_id seq data_b64) =
    ("response_id", text response_id) ∷ ("seq", int seq) ∷ ("data_b64", text data_b64) ∷ []
arguments (m_cache_put_end response_id sha256) =
    ("response_id", text response_id) ∷ optional "sha256" text sha256
arguments (m_audio_play response_id) = ("response_id", text response_id) ∷ []
arguments m_audio_stop = []
arguments (m_set_brightness level) = ("value", int level) ∷ []
arguments (m_mute_until until) = ("until", text until) ∷ []
arguments (m_set_character_pack none) = ("pack_id", null) ∷ []
arguments (m_set_character_pack (some pack_id)) = ("pack_id", text pack_id) ∷ []

message_of-build_command :
    (ts token d : String) (m : Method)
    → message_of ts token d m ≡ build_command ts token d (op_named m) (arguments m) none
unfolding message_of build args_of with_optional_arg put oi_interface.Base.same
message_of-build_command ts token d (m_show_status state none) = refl
message_of-build_command ts token d (m_show_status state (some l)) = refl
message_of-build_command ts token d (m_show_card title options none) = refl
message_of-build_command ts token d (m_show_card title options (some b)) = refl
message_of-build_command ts token d (m_show_response_delta text_delta is_final none) = refl
message_of-build_command ts token d (m_show_response_delta text_delta is_final (some n)) = refl
message_of-build_command ts token d (m_show_progress progress none none) = refl
message_of-build_command ts token d (m_show_progress progress none (some n)) = refl
message_of-build_command ts token d (m_show_progress progress (some k) none) = refl
message_of-build_command ts token d (m_show_progress progress (some k) (some n)) = refl
message_of-build_command ts token d (m_cache_put_begin response_id) = refl
message_of-build_command ts token d (m_cache_put_chunk response_id seq data_b64) = refl
message_of-build_command ts token d (m_cache_put_end response_id none) = refl
message_of-build_command ts token d (m_cache_put_end response_id (some h)) = refl
message_of-build_command ts token d (m_audio_play response_id) = refl
message_of-build_command ts token d m_audio_stop = refl
message_of-build_command ts token d (m_set_brightness level) = refl
message_of-build_command ts token d (m_mute_until until) = refl
message_of-build_command ts token d (m_set_character_pack none) = refl
message_of-build_command ts token d (m_set_character_pack (some p)) = refl

-- What each method sends is a command with the operation and the arguments that are written here for it,
-- where an optional argument is there exactly if it is given, although `send` builds the message anew from
-- the one of the builder.
pub sent_message-message_of :
    (ts token d ts' token' : String) (m : Method)
    → sent_message ts token d (message_of ts' token' d m)
      ≡ build_command ts token d (op_named m) (arguments m) none
sent_message-message_of ts token d ts' token' m =
    ap (sent_message ts token d) (message_of-build_command ts' token' d m)
    ∙ sent_message-build_command ts token d ts' token' (op_named m) (arguments m)
