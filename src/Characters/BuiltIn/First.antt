-- ===== src/Characters/BuiltIn/First.antt =====
-- character_packs/__init__.py: built-in packs.
use oi_interface.Base.{[], ◌∷◌, none, some}
use oi_interface.Characters.Pack.{CharacterPack, config}

abbrev pub create_synth_goblin : CharacterPack
create_synth_goblin = record {
  pack_id = "synth-goblin";
  target = "tiny_135x240";
  format = "indexed_png";
  states =
      ("idle", config "goblin-idle.png" "Ready" none)
      ∷ ("listening", config "goblin-listen.png" "Listening" (some "pulse"))
      ∷ ("uploading", config "goblin-upload.png" "Uploading" (some "pulse"))
      ∷ ("thinking", config "goblin-think.png" "Thinking" (some "spin"))
      ∷ ("response_cached", config "goblin-ready.png" "Ready" none)
      ∷ ("playing", config "goblin-speak.png" "Speaking" (some "waveform"))
      ∷ ("confirm", config "goblin-confirm.png" "Confirm?" (some "pulse"))
      ∷ ("muted", config "goblin-mute.png" "Muted" none)
      ∷ ("offline", config "goblin-offline.png" "Offline" (some "fade"))
      ∷ ("error", config "goblin-error.png" "Error" (some "pulse_red"))
      ∷ ("safe_mode", config "goblin-safe.png" "Safe Mode" (some "blink"))
      ∷ ("task_running", config "goblin-task.png" "Working" (some "spin"))
      ∷ ("blocked", config "goblin-blocked.png" "Waiting" (some "fade"))
      ∷ [];
  version = "1.0";
  overlays = some (
      ("battery_low", config "overlay-battery-low.png" "Low Battery" (some "blink"))
      ∷ ("wifi_weak", config "overlay-wifi-weak.png" "Weak Signal" none)
      ∷ ("tool_running", config "overlay-tool.png" "Tool Running" (some "spin"))
      ∷ []);
}

abbrev pub create_pixel_robot : CharacterPack
create_pixel_robot = record {
  pack_id = "pixel-robot";
  target = "tiny_135x240";
  format = "indexed_png";
  states =
      ("idle", config "robot-idle.png" "Online" none)
      ∷ ("listening", config "robot-listen.png" "Hear" (some "pulse"))
      ∷ ("uploading", config "robot-upload.png" "Send" (some "spin"))
      ∷ ("thinking", config "robot-think.png" "Think" (some "spin"))
      ∷ ("response_cached", config "robot-ready.png" "Ready" none)
      ∷ ("playing", config "robot-speak.png" "Talk" (some "waveform"))
      ∷ ("confirm", config "robot-confirm.png" "OK?" (some "pulse"))
      ∷ ("muted", config "robot-mute.png" "Mute" none)
      ∷ ("offline", config "robot-offline.png" "Off" (some "fade"))
      ∷ ("error", config "robot-error.png" "Err" (some "pulse_red"))
      ∷ ("safe_mode", config "robot-safe.png" "Safe" (some "blink"))
      ∷ ("task_running", config "robot-task.png" "Work" (some "spin"))
      ∷ ("blocked", config "robot-blocked.png" "Wait" (some "fade"))
      ∷ [];
  version = "1.0";
  overlays = none;
}

abbrev pub create_minimal_blob : CharacterPack
create_minimal_blob = record {
  pack_id = "minimal-blob";
  target = "tiny_135x240";
  format = "indexed_png";
  states =
      ("idle", config "blob-idle.png" "•" none)
      ∷ ("listening", config "blob-listen.png" "•" (some "pulse"))
      ∷ ("uploading", config "blob-upload.png" "↑" (some "spin"))
      ∷ ("thinking", config "blob-think.png" "..." (some "spin"))
      ∷ ("response_cached", config "blob-ready.png" "✓" none)
      ∷ ("playing", config "blob-speak.png" "♪" (some "waveform"))
      ∷ ("confirm", config "blob-confirm.png" "?" (some "pulse"))
      ∷ ("muted", config "blob-mute.png" "⊘" none)
      ∷ ("offline", config "blob-offline.png" "○" (some "fade"))
      ∷ ("error", config "blob-error.png" "!" (some "pulse_red"))
      ∷ ("safe_mode", config "blob-safe.png" "⚠" (some "blink"))
      ∷ ("task_running", config "blob-task.png" "▶" (some "spin"))
      ∷ ("blocked", config "blob-blocked.png" "⏸" (some "fade"))
      ∷ [];
  version = "1.0";
  overlays = none;
}

abbrev pub create_retro_terminal : CharacterPack
create_retro_terminal = record {
  pack_id = "retro-terminal";
  target = "tiny_135x240";
  format = "indexed_png";
  states =
      ("idle", config "term-idle.png" "$" none)
      ∷ ("listening", config "term-listen.png" "$" (some "blink"))
      ∷ ("uploading", config "term-upload.png" "^" (some "spin"))
      ∷ ("thinking", config "term-think.png" "..." (some "spin"))
      ∷ ("response_cached", config "term-ready.png" "$ ✓" none)
      ∷ ("playing", config "term-speak.png" "$ ▷" (some "waveform"))
      ∷ ("confirm", config "term-confirm.png" "[?]" (some "pulse"))
      ∷ ("muted", config "term-mute.png" "$ ⊘" none)
      ∷ ("offline", config "term-offline.png" "$ ×" (some "fade"))
      ∷ ("error", config "term-error.png" "$ !" (some "pulse_red"))
      ∷ ("safe_mode", config "term-safe.png" "!WARN!" (some "blink"))
      ∷ ("task_running", config "term-task.png" "$ ▶" (some "spin"))
      ∷ ("blocked", config "term-blocked.png" "$ ⏸" (some "fade"))
      ∷ [];
  version = "1.0";
  overlays = none;
}
