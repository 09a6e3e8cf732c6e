-- ===== src/Datp/Builders.antt =====
-- datp/messages.py: each of the builders against the parser and the specification.
use Prim.Native.Char.{Char}
use oi_interface.Base.{
  String, Bool, true, false, List, [], ◌∷◌, Option, none, some, mem, ◌≡◌, refl, arith, ◌||◌,
}
use oi_interface.Dict.{Dict}
use oi_interface.Json.{Json, text, dict, bool, null}
use oi_interface.Datp.Messages.{
  Message, build_hello, build_hello_ack, HelloAck, hello_ack_payload, build_ack, build_error, build,
  Command, op_of, args_of, show_status, show_card, show_response_delta, show_progress,
  cache_put_begin, cache_chunk, cache_put_end, play, stop, set_brightness, mute_until,
}
use oi_interface.Datp.Parse.{valid_ts}
use oi_interface.Datp.Schema.{
  hello_schema, hello_ack_schema, command_schema, ack_schema, error_schema, required_commands,
  optional_commands,
}
use oi_interface.Datp.Built.{
  IsAccepted, with_text-Conforms, with_dict-Conforms, with_dicts-Conforms, envelope-IsAccepted,
}

pub op_of-known :
    (c : Command) → (mem (op_of c) required_commands || mem (op_of c) optional_commands) ≡ true
unfolding mem oi_interface.Base.same
op_of-known (show_status state label) = refl
op_of-known (show_card title options body) = refl
op_of-known (show_response_delta text_delta is_final sequence) = refl
op_of-known (show_progress progress kind sequence) = refl
op_of-known (cache_put_begin response_id format sample_rate bytes label) = refl
op_of-known (cache_chunk response_id seq data_b64) = refl
op_of-known (cache_put_end response_id sha256) = refl
op_of-known (play response_id) = refl
op_of-known stop = refl
op_of-known (set_brightness value) = refl
op_of-known (mute_until until) = refl

module _ (is_digit : Char → Bool) where
  build-IsAccepted :
      (ts token device_id : String) (c : Command)
      → valid_ts is_digit ts ≡ true
      → IsAccepted is_digit command_schema (build ts token device_id c)
        × ((mem (op_of c) required_commands || mem (op_of c) optional_commands) ≡ true)
  unfolding build oi_interface.Datp.Messages.build_command oi_interface.Datp.Conforms.well_typed
      oi_interface.Dict.get mem oi_interface.Base.same oi_interface.Datp.Schema.get_schema_for_type
  build-IsAccepted ts token device_id c v = (
    envelope-IsAccepted is_digit command_schema "command" _ device_id ts
        (("op", text (op_of c)) ∷ ("args", dict (args_of c)) ∷ []) (refl, refl) v
        (record { complete = refl; typed = refl }),
    op_of-known c,
  )

  build_hello-IsAccepted :
      (ts token device_id device_type firmware : String) (capabilities : Dict Json)
      (state : Option (Dict Json)) (resume_token nonce : Option String)
      (conversation : Option (Dict Json))
      → valid_ts is_digit ts ≡ true
      → IsAccepted is_digit hello_schema (
          build_hello ts token device_id device_type firmware capabilities state resume_token nonce
            conversation)
  unfolding build_hello oi_interface.Datp.Conforms.well_typed oi_interface.Dict.get mem
      oi_interface.Base.same oi_interface.Datp.Schema.get_schema_for_type
  build_hello-IsAccepted ts token device_id device_type firmware capabilities state resume_token
        nonce conversation v =
      envelope-IsAccepted is_digit hello_schema "hello" _ device_id ts _ (refl, refl) v
        (with_dict-Conforms is_digit hello_schema "conversation" conversation _ (λ d. refl)
          (with_text-Conforms is_digit hello_schema "nonce" nonce _ (λ t. refl)
            (with_text-Conforms is_digit hello_schema "resume_token" resume_token _ (λ t. refl)
              (with_dict-Conforms is_digit hello_schema "state" state _ (λ d. refl)
                (record { complete = refl; typed = refl })))))

  build_hello_ack-IsAccepted :
      (ts session_id device_id : String) (ack : HelloAck)
      → valid_ts is_digit ts ≡ true
      → IsAccepted is_digit hello_ack_schema (build_hello_ack ts session_id device_id ack)
  unfolding build_hello_ack hello_ack_payload oi_interface.Datp.Conforms.well_typed
      oi_interface.Dict.get mem oi_interface.Base.same oi_interface.Datp.Schema.get_schema_for_type
  build_hello_ack-IsAccepted ts session_id device_id ack v =
      let s = hello_ack_schema in
      envelope-IsAccepted is_digit s "hello_ack" _ device_id ts _ (refl, refl) v
        (with_dict-Conforms is_digit s "policy" ack.policy _ (λ d. refl)
          (with_dict-Conforms is_digit s "server_capabilities" ack.server_capabilities _ (λ d. refl)
            (with_text-Conforms is_digit s "selected_session_key" ack.selected_session_key _
              (λ t. refl)
              (with_dict-Conforms is_digit s "selected_agent" ack.selected_agent _ (λ d. refl)
                (with_text-Conforms is_digit s "selected_backend" ack.selected_backend _ (λ t. refl)
                  (with_dicts-Conforms is_digit s "available_backends" ack.available_backends _ refl
                    (with_dicts-Conforms is_digit s "available_agents" ack.available_agents _ refl (
                      with_dict-Conforms is_digit s "default_agent" ack.default_agent _ (λ d. refl)
                        (record { complete = refl; typed = ground arith })))))))))

  build_ack-IsAccepted :
      (ts command_id : String) (ok : Bool)
      → valid_ts is_digit ts ≡ true
      → IsAccepted is_digit ack_schema (build_ack ts command_id ok)
  unfolding build_ack oi_interface.Datp.Conforms.well_typed oi_interface.Dict.get mem
      oi_interface.Base.same oi_interface.Datp.Schema.get_schema_for_type
  build_ack-IsAccepted ts command_id ok v =
      envelope-IsAccepted is_digit ack_schema "ack" _ _ ts
        (("command_id", text command_id) ∷ ("ok", bool ok) ∷ []) (refl, refl) v
        (record { complete = refl; typed = refl })

  -- `related_id` is the id of a message, or nothing.
  build_error-IsAccepted :
      (ts device_id code message : String) (related_id : Option String)
      → valid_ts is_digit ts ≡ true
      → IsAccepted is_digit error_schema (
          build_error ts device_id code message
            (elim related_id [ none ↦ none | some i ↦ some (text i) ]))
  unfolding build_error oi_interface.Datp.Conforms.well_typed oi_interface.Dict.get mem
      oi_interface.Base.same oi_interface.Datp.Schema.get_schema_for_type
  build_error-IsAccepted ts device_id code message none v =
      envelope-IsAccepted is_digit error_schema "error" _ device_id ts
        (("code", text code) ∷ ("message", text message) ∷ ("related_id", null) ∷ []) (refl, refl) v
        (record { complete = refl; typed = refl })
  build_error-IsAccepted ts device_id code message (some i) v =
      envelope-IsAccepted is_digit error_schema "error" _ device_id ts
        (("code", text code) ∷ ("message", text message) ∷ ("related_id", text i) ∷ []) (refl, refl)
        v (record { complete = refl; typed = refl })

  -- What each of the builders builds is accepted.
  abbrev pub AreAccepted : (ts token device_id : String) → Type 0
  AreAccepted ts token device_id =
      ((c : Command)
        → IsAccepted is_digit command_schema (build ts token device_id c)
          × ((mem (op_of c) required_commands || mem (op_of c) optional_commands) ≡ true))
      × ((device_type firmware : String) (capabilities : Dict Json) (state : Option (Dict Json))
            (resume_token nonce : Option String) (conversation : Option (Dict Json))
          → IsAccepted is_digit hello_schema (
              build_hello ts token device_id device_type firmware capabilities state resume_token
                nonce conversation))
      × ((session_id : String) (ack : HelloAck)
          → IsAccepted is_digit hello_ack_schema (build_hello_ack ts session_id device_id ack))
      × ((command_id : String) (ok : Bool)
          → IsAccepted is_digit ack_schema (build_ack ts command_id ok))
      × ((code message : String) (related_id : Option String)
          → IsAccepted is_digit error_schema (
              build_error ts device_id code message
                (elim related_id [ none ↦ none | some i ↦ some (text i) ])))

  -- Where the timestamp is well formed, each builder of messages, but build_command with an operation of the
  -- caller, builds one that the parser takes as it
  -- is, in which the structural check finds no error, and whose envelope and payload have the fields
  -- and the types that the specification declares; the operation of a command is one that it lists.
  pub builders-IsAccepted :
      (ts token device_id : String) → valid_ts is_digit ts ≡ true → AreAccepted ts token device_id
  builders-IsAccepted ts token device_id v = (
    λ c. build-IsAccepted ts token device_id c v,
    λ device_type firmware capabilities state resume_token nonce conversation.
        build_hello-IsAccepted ts token device_id device_type firmware capabilities state
          resume_token nonce conversation v,
    λ session_id ack. build_hello_ack-IsAccepted ts session_id device_id ack v,
    λ command_id ok. build_ack-IsAccepted ts command_id ok v,
    λ code message related_id. build_error-IsAccepted ts device_id code message related_id v,
  )
