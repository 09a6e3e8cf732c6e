-- ===== src/Characters/BuiltIn/Second.antt =====
-- character_packs/__init__.py: built-in packs.
use oi_interface.Base.{[], ◌∷◌, none, some}
use oi_interface.Characters.Pack.{CharacterPack, config}

abbrev pub create_wise_owl : CharacterPack
create_wise_owl = record {
  pack_id = "wise-owl";
  target = "tiny_135x240";
  format = "indexed_png";
  states =
      ("idle", config "owl-idle.png" " Awake" none)
      ∷ ("listening", config "owl-listen.png" "Watching" (some "pulse"))
      ∷ ("uploading", config "owl-upload.png" "Sending" (some "spin"))
      ∷ ("thinking", config "owl-think.png" "Pondering" (some "spin"))
      ∷ ("response_cached", config "owl-ready.png" "Ready" none)
      ∷ ("playing", config "owl-speak.png" "Speaking" (some "waveform"))
      ∷ ("confirm", config "owl-confirm.png" "Confirm?" (some "pulse"))
      ∷ ("muted", config "owl-mute.png" "Silent" none)
      ∷ ("offline", config "owl-offline.png" "Asleep" (some "fade"))
      ∷ ("error", config "owl-error.png" "Alert!" (some "pulse_red"))
      ∷ ("safe_mode", config "owl-safe.png" "Safe Mode" (some "blink"))
      ∷ ("task_running", config "owl-task.png" "Observing" (some "spin"))
      ∷ ("blocked", config "owl-blocked.png" "Waiting" (some "fade"))
      ∷ [];
  version = "1.0";
  overlays = some (
      ("battery_low", config "overlay-battery-low.png" "Low" (some "blink"))
      ∷ ("wifi_weak", config "overlay-wifi-weak.png" "Weak Signal" none)
      ∷ []);
}

abbrev pub create_cute_cat : CharacterPack
create_cute_cat = record {
  pack_id = "cute-cat";
  target = "tiny_135x240";
  format = "indexed_png";
  states =
      ("idle", config "cat-idle.png" "Relaxing" none)
      ∷ ("listening", config "cat-listen.png" "Alert!" (some "pulse"))
      ∷ ("uploading", config "cat-upload.png" "Purring" (some "spin"))
      ∷ ("thinking", config "cat-think.png" "Puzzling" (some "spin"))
      ∷ ("response_cached", config "cat-ready.png" "Purr" none)
      ∷ ("playing", config "cat-speak.png" "Meow!" (some "waveform"))
      ∷ ("confirm", config "cat-confirm.png" "Yes?" (some "pulse"))
      ∷ ("muted", config "cat-mute.png" "Shh!" none)
      ∷ ("offline", config "cat-offline.png" "Napping" (some "fade"))
      ∷ ("error", config "cat-error.png" "Hiss!" (some "pulse_red"))
      ∷ ("safe_mode", config "cat-safe.png" "Safe" (some "blink"))
      ∷ ("task_running", config "cat-task.png" "Hunting" (some "spin"))
      ∷ ("blocked", config "cat-blocked.png" "Waiting" (some "fade"))
      ∷ [];
  version = "1.0";
  overlays = none;
}

abbrev pub create_geometric_glyph : CharacterPack
create_geometric_glyph = record {
  pack_id = "geometric-glyph";
  target = "tiny_135x240";
  format = "indexed_png";
  states =
      ("idle", config "glyph-idle.png" "◇" none)
      ∷ ("listening", config "glyph-listen.png" "△" (some "pulse"))
      ∷ ("uploading", config "glyph-upload.png" "⬆" (some "spin"))
      ∷ ("thinking", config "glyph-think.png" "◈" (some "spin"))
      ∷ ("response_cached", config "glyph-ready.png" "✓" none)
      ∷ ("playing", config "glyph-speak.png" "◇ ▷" (some "waveform"))
      ∷ ("confirm", config "glyph-confirm.png" "◁?◀" (some "pulse"))
      ∷ ("muted", config "glyph-mute.png" "⊘" none)
      ∷ ("offline", config "glyph-offline.png" "○" (some "fade"))
      ∷ ("error", config "glyph-error.png" "✕" (some "pulse_red"))
      ∷ ("safe_mode", config "glyph-safe.png" "⚠" (some "blink"))
      ∷ ("task_running", config "glyph-task.png" "▶" (some "spin"))
      ∷ ("blocked", config "glyph-blocked.png" "⏸" (some "fade"))
      ∷ [];
  version = "1.0";
  overlays = none;
}
