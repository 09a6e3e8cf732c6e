-- ===== src/Characters/BuiltIn/Third.antt =====
-- character_packs/__init__.py: built-in packs.
use oi_interface.Base.{[], ◌∷◌, none, some}
use oi_interface.Characters.Pack.{CharacterPack, config}

abbrev pub create_nature_leaf : CharacterPack
create_nature_leaf = record {
  pack_id = "nature-leaf";
  target = "tiny_135x240";
  format = "indexed_png";
  states =
      ("idle", config "leaf-idle.png" "Resting" none)
      ∷ ("listening", config "leaf-listen.png" "Listening" (some "pulse"))
      ∷ ("uploading", config "leaf-upload.png" "Growing" (some "spin"))
      ∷ ("thinking", config "leaf-think.png" "Blooming" (some "spin"))
      ∷ ("response_cached", config "leaf-ready.png" "Ready" none)
      ∷ ("playing", config "leaf-speak.png" "Swaying" (some "waveform"))
      ∷ ("confirm", config "leaf-confirm.png" "Sprout?" (some "pulse"))
      ∷ ("muted", config "leaf-mute.png" "Still" none)
      ∷ ("offline", config "leaf-offline.png" "Dormant" (some "fade"))
      ∷ ("error", config "leaf-error.png" "Wilted" (some "pulse_red"))
      ∷ ("safe_mode", config "leaf-safe.png" "Protected" (some "blink"))
      ∷ ("task_running", config "leaf-task.png" "Growing" (some "spin"))
      ∷ ("blocked", config "leaf-blocked.png" "Waiting" (some "fade"))
      ∷ [];
  version = "1.0";
  overlays = some (
      ("battery_low", config "overlay-battery-low.png" "Needs Water" (some "blink"))
      ∷ ("wifi_weak", config "overlay-wifi-weak.png" "Weak Signal" none)
      ∷ []);
}

abbrev pub create_neon_fox : CharacterPack
create_neon_fox = record {
  pack_id = "neon-fox";
  target = "tiny_135x240";
  format = "indexed_png";
  states =
      ("idle", config "fox-idle.png" "Ready" none)
      ∷ ("listening", config "fox-listen.png" "Scanning" (some "pulse"))
      ∷ ("uploading", config "fox-upload.png" "Uploading" (some "spin"))
      ∷ ("thinking", config "fox-think.png" "Hacking" (some "spin"))
      ∷ ("response_cached", config "fox-ready.png" "Done" none)
      ∷ ("playing", config "fox-speak.png" "Transmit" (some "waveform"))
      ∷ ("confirm", config "fox-confirm.png" "Confirm?" (some "pulse"))
      ∷ ("muted", config "fox-mute.png" "Silent" none)
      ∷ ("offline", config "fox-offline.png" "Disconnected" (some "fade"))
      ∷ ("error", config "fox-error.png" "ERROR" (some "pulse_red"))
      ∷ ("safe_mode", config "fox-safe.png" "Safe Mode" (some "blink"))
      ∷ ("task_running", config "fox-task.png" "Running" (some "spin"))
      ∷ ("blocked", config "fox-blocked.png" "Blocked" (some "fade"))
      ∷ [];
  version = "1.0";
  overlays = some (
      ("tool_running", config "overlay-tool.png" "Executing" (some "spin"))
      ∷ ("code_task", config "overlay-code.png" "Coding" (some "spin"))
      ∷ ("private_content", config "overlay-private.png" "Encrypted" none)
      ∷ ("remote_connection", config "overlay-remote.png" "Remote" (some "pulse"))
      ∷ []);
}

abbrev pub create_crystal_gem : CharacterPack
create_crystal_gem = record {
  pack_id = "crystal-gem";
  target = "tiny_135x240";
  format = "indexed_png";
  states =
      ("idle", config "gem-idle.png" "Radiant" none)
      ∷ ("listening", config "gem-listen.png" "Gleaming" (some "pulse"))
      ∷ ("uploading", config "gem-upload.png" "Charging" (some "spin"))
      ∷ ("thinking", config "gem-think.png" "Refracting" (some "spin"))
      ∷ ("response_cached", config "gem-ready.png" "Shine" none)
      ∷ ("playing", config "gem-speak.png" "Glow" (some "waveform"))
      ∷ ("confirm", config "gem-confirm.png" "Clear?" (some "pulse"))
      ∷ ("muted", config "gem-mute.png" "Dull" none)
      ∷ ("offline", config "gem-offline.png" "Dim" (some "fade"))
      ∷ ("error", config "gem-error.png" "Crack!" (some "pulse_red"))
      ∷ ("safe_mode", config "gem-safe.png" "Stable" (some "blink"))
      ∷ ("task_running", config "gem-task.png" "Polishing" (some "spin"))
      ∷ ("blocked", config "gem-blocked.png" "Suspended" (some "fade"))
      ∷ [];
  version = "1.0";
  overlays = some (
      ("battery_low", config "overlay-battery-low.png" "Low Energy" (some "blink"))
      ∷ ("wifi_weak", config "overlay-wifi-weak.png" "Weak Signal" none)
      ∷ ("cloud_model", config "overlay-cloud.png" "Cloud" (some "pulse"))
      ∷ []);
}
