-- ===== src/Characters/Service.antt =====
-- character_packs/__init__.py: `CharacterRendererService`, with the server that it sends through. The id of the
-- pack of a device, and the upper case of a text, are arguments; a task that is started is run at once.
use oi_interface.Base.{
  String, Bool, true, false, [], ◌∷◌, Option, none, some, ◌==◌, if◌then◌else◌, ◌⊎◌, inl, inr,
  truthy, ◌&&◌, not, ◌≡◌, refl, same_self,
}
use oi_interface.Dict.{Dict, get, put, pop, or_default}
use oi_interface.Json.{Json, as_text}
use oi_interface.Datp.Messages.{build_command}
use oi_interface.Datp.Server.State.{Server}
use oi_interface.Datp.Server.Dispatch.{send_to_device}
use oi_interface.Characters.Pack.{CharacterPack}
use oi_interface.Characters.BuiltIn.First.{create_synth_goblin}
use oi_interface.Characters.Renderer.{render, RenderInstruction, RenderError, command_args}

pub data SemanticState : Type 0 where
  idle listening uploading thinking response_cached playing confirm muted offline error safe_mode
        task_running blocked :
      SemanticState

abbrev pub value : SemanticState → String
value idle = "idle"
value listening = "listening"
value uploading = "uploading"
value thinking = "thinking"
value response_cached = "response_cached"
value playing = "playing"
value confirm = "confirm"
value muted = "muted"
value offline = "offline"
value error = "error"
value safe_mode = "safe_mode"
value task_running = "task_running"
value blocked = "blocked"

abbrev pub state_map : Dict SemanticState
state_map =
    ("BOOTING", idle)
    ∷ ("READY", idle)
    ∷ ("PAIRING", idle)
    ∷ ("OFFLINE", offline)
    ∷ ("MUTED", muted)
    ∷ ("RECORDING", listening)
    ∷ ("UPLOADING", uploading)
    ∷ ("THINKING", thinking)
    ∷ ("RESPONSE_CACHED", response_cached)
    ∷ ("PLAYING", playing)
    ∷ ("SAFE_MODE", safe_mode)
    ∷ ("ERROR", error)
    ∷ ("BLOCKED", blocked)
    ∷ ("TASK_RUNNING", task_running)
    ∷ []

pub record CharacterRendererService : Type 0 where
  pub last_rendered : Dict (String × Option String)
  pub render_enabled : Dict Bool

abbrev pub is_rendering_enabled : String → CharacterRendererService → Bool
is_rendering_enabled d s = or_default (get d s.render_enabled) true

unfoldable pub set_rendering : String → Bool → CharacterRendererService → CharacterRendererService
set_rendering d on s = record s { render_enabled = put d on s.render_enabled }

unfoldable pub invalidate_last : String → CharacterRendererService → CharacterRendererService
invalidate_last d s = record s { last_rendered = pop d s.last_rendered }

abbrev same_label : Option String → Option String → Bool
same_label none none = true
same_label (some a) (some b) = a == b
same_label a b = false

-- `self._last_rendered.get(device_id) == cache_key`
abbrev pub is_last : Option (String × Option String) → String → Option String → Bool
is_last none state label = false
is_last (some (s, l)) state label = s == state && same_label l label

abbrev pub note_sent :
    String
    → String
    → Option String
    → CharacterRendererService
    → Server × Bool
    → (CharacterRendererService × Server) × Bool
note_sent d state label s (server, true) =
    ((record s { last_rendered = put d (state, label) s.last_rendered }, server), true)
note_sent d state label s (server, false) = ((s, server), false)

abbrev pub send_instruction :
    (ts token d state : String)
    → Option String
    → CharacterPack
    → CharacterRendererService
    → Server
    → RenderError ⊎ RenderInstruction
    → (CharacterRendererService × Server) × Bool
send_instruction ts token d state label p s server (inl e) = ((s, server), false)
send_instruction ts token d state label p s server (inr r) = note_sent d state label s (
    send_to_device d
      (build_command ts token d "character.set_state" (command_args r p.pack_id p.target) none)
      server)

-- `get_character_pack` of the registry returns the id of a pack. It is taken for the pack, and the
-- `AttributeError` that follows is caught; without an id the first built-in pack is shown.
abbrev pub with_pack :
    (ts token d state : String)
    → Option String
    → Option String
    → CharacterRendererService
    → Server
    → (CharacterRendererService × Server) × Bool
with_pack ts token d state label (some pack_id) s server = ((s, server), false)
with_pack ts token d state label none s server =
    send_instruction ts token d state label create_synth_goblin s server
      (render create_synth_goblin state none label)

-- `_render_state_async`
unfoldable pub render_state :
    (ts token d : String)
    → SemanticState
    → Option String
    → Option String
    → CharacterRendererService
    → Server
    → (CharacterRendererService × Server) × Bool
render_state ts token d state label pack_id s server =
    if not (is_rendering_enabled d s)
    then ((s, server), false)
    else if is_last (get d s.last_rendered) (value state) label
    then ((s, server), true)
    else with_pack ts token d (value state) label pack_id s server

-- What an event or a command asks for.
pub data Reaction : Type 0 where
  renders : SemanticState → Option String → Reaction
  invalidates ignores : Reaction

module _ (upper : String → String) where
  unfoldable pub map_to_semantic_state : String → SemanticState
  map_to_semantic_state s = if truthy s then or_default (get (upper s) state_map) idle else idle

  abbrev mode_in : Option Json → Option String
  mode_in none = none
  mode_in (some v) = as_text v

  abbrev on_mode : Option String → Reaction
  on_mode none = ignores
  on_mode (some mode) = if truthy mode then renders (map_to_semantic_state mode) none else ignores

  abbrev on_name : String → Reaction
  on_name name =
      if name == "button.long_hold_started"
      then renders listening none
      else if name == "audio.recording_finished"
      then renders uploading none
      else if name == "button.double_tap"
      then renders playing none
      else if name == "audio.playback_started"
      then renders playing none
      else if name == "audio.playback_finished"
      then renders response_cached none
      else if name == "device.error"
      then renders error none
      else if name == "device.capability_updated"
      then invalidates
      else ignores

  -- `_on_event`, for payloads whose mode and event are texts.
  unfoldable pub reaction : String → Dict Json → Reaction
  reaction event_type payload =
      if event_type == "state"
      then on_mode (mode_in (get "mode" payload))
      else if event_type == "event"
      then on_name (or_default (mode_in (get "event" payload)) "")
      else ignores

  -- `_map_command_to_semantic`
  unfoldable pub command_reaction : String → Dict Json → Reaction
  command_reaction op args =
      if op == "display.show_status"
      then renders (map_to_semantic_state (or_default (mode_in (get "state" args)) ""))
          (mode_in (get "label" args))
      else if op == "audio.cache.put_begin"
      then renders uploading (some "Buffering")
      else if op == "audio.cache.put_end"
      then renders response_cached (some "Ready")
      else if op == "audio.play"
      then renders playing (some "Speaking")
      else if op == "audio.stop"
      then renders idle none
      else if op == "device.mute_until"
      then renders muted (some "Muted")
      else if op == "device.reboot"
      then renders idle (some "Booting")
      else if op == "device.shutdown"
      then renders offline (some "Off")
      else ignores

-- A reaction, run.
abbrev pub react :
    (ts token d : String)
    → Option String
    → Reaction
    → CharacterRendererService
    → Server
    → (CharacterRendererService × Server) × Bool
react ts token d pack (renders state label) s server =
    render_state ts token d state label pack s server
react ts token d pack invalidates s server = ((invalidate_last d s, server), false)
react ts token d pack ignores s server = ((s, server), false)

pub is_last_self :
    (state : String) (label : Option String) → is_last (some (state, label)) state label ≡ true
is_last_self state none = rw (same_self state) refl
is_last_self state (some l) = rw (same_self state, same_self l) refl
