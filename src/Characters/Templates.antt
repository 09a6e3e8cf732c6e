-- ===== src/Characters/Templates.antt =====
-- character_packs/__init__.py: the templates of `PackGenerator`.
use oi_interface.Base.{String, Option, none, some, [], ◌∷◌}
use oi_interface.Dict.{Dict}

abbrev animal_sprites : Dict String
animal_sprites =
    ("idle", "{name}-idle.png")
    ∷ ("listening", "{name}-listen.png")
    ∷ ("uploading", "{name}-upload.png")
    ∷ ("thinking", "{name}-think.png")
    ∷ ("response_cached", "{name}-ready.png")
    ∷ ("playing", "{name}-speak.png")
    ∷ ("confirm", "{name}-confirm.png")
    ∷ ("muted", "{name}-mute.png")
    ∷ ("offline", "{name}-offline.png")
    ∷ ("error", "{name}-error.png")
    ∷ ("safe_mode", "{name}-safe.png")
    ∷ ("task_running", "{name}-task.png")
    ∷ ("blocked", "{name}-blocked.png")
    ∷ []

abbrev robot_sprites : Dict String
robot_sprites =
    ("idle", "robot-idle.png")
    ∷ ("listening", "robot-listen.png")
    ∷ ("uploading", "robot-upload.png")
    ∷ ("thinking", "robot-think.png")
    ∷ ("response_cached", "robot-ready.png")
    ∷ ("playing", "robot-speak.png")
    ∷ ("confirm", "robot-confirm.png")
    ∷ ("muted", "robot-mute.png")
    ∷ ("offline", "robot-offline.png")
    ∷ ("error", "robot-error.png")
    ∷ ("safe_mode", "robot-safe.png")
    ∷ ("task_running", "robot-task.png")
    ∷ ("blocked", "robot-blocked.png")
    ∷ []

abbrev minimal_sprites : Dict String
minimal_sprites =
    ("idle", "min-idle.png")
    ∷ ("listening", "min-listen.png")
    ∷ ("uploading", "min-upload.png")
    ∷ ("thinking", "min-think.png")
    ∷ ("response_cached", "min-ready.png")
    ∷ ("playing", "min-speak.png")
    ∷ ("confirm", "min-confirm.png")
    ∷ ("muted", "min-mute.png")
    ∷ ("offline", "min-offline.png")
    ∷ ("error", "min-error.png")
    ∷ ("safe_mode", "min-safe.png")
    ∷ ("task_running", "min-task.png")
    ∷ ("blocked", "min-blocked.png")
    ∷ []

abbrev pub style_templates : Dict (Dict String)
style_templates =
    ("animal", animal_sprites) ∷ ("robot", robot_sprites) ∷ ("minimal", minimal_sprites) ∷ []

abbrev friendly_labels : Dict String
friendly_labels =
    ("idle", "Hello!")
    ∷ ("listening", "I hear you")
    ∷ ("uploading", "Sending")
    ∷ ("thinking", "Let me think")
    ∷ ("response_cached", "Got it!")
    ∷ ("playing", "Talking")
    ∷ ("confirm", "OK?")
    ∷ ("muted", "Quiet time")
    ∷ ("offline", "Away")
    ∷ ("error", "Oops!")
    ∷ ("safe_mode", "Resting")
    ∷ ("task_running", "Working")
    ∷ ("blocked", "Hold on")
    ∷ []

abbrev technical_labels : Dict String
technical_labels =
    ("idle", "Online")
    ∷ ("listening", "Receiving")
    ∷ ("uploading", "Transmit")
    ∷ ("thinking", "Process")
    ∷ ("response_cached", "Ready")
    ∷ ("playing", "Output")
    ∷ ("confirm", "Confirm")
    ∷ ("muted", "Muted")
    ∷ ("offline", "Offline")
    ∷ ("error", "Error")
    ∷ ("safe_mode", "Safe")
    ∷ ("task_running", "Active")
    ∷ ("blocked", "Wait")
    ∷ []

abbrev minimal_labels : Dict String
minimal_labels =
    ("idle", "•")
    ∷ ("listening", "○")
    ∷ ("uploading", "↑")
    ∷ ("thinking", "...")
    ∷ ("response_cached", "✓")
    ∷ ("playing", "♪")
    ∷ ("confirm", "?")
    ∷ ("muted", "⊘")
    ∷ ("offline", "○")
    ∷ ("error", "!")
    ∷ ("safe_mode", "⚠")
    ∷ ("task_running", "▶")
    ∷ ("blocked", "⏸")
    ∷ []

abbrev pub label_templates : Dict (Dict String)
label_templates =
    ("friendly", friendly_labels)
    ∷ ("technical", technical_labels)
    ∷ ("minimal", minimal_labels)
    ∷ []

abbrev standard_animations : Dict (Option String)
standard_animations =
    ("idle", none)
    ∷ ("listening", some "pulse")
    ∷ ("uploading", some "spin")
    ∷ ("thinking", some "spin")
    ∷ ("response_cached", none)
    ∷ ("playing", some "waveform")
    ∷ ("confirm", some "pulse")
    ∷ ("muted", none)
    ∷ ("offline", some "fade")
    ∷ ("error", some "pulse_red")
    ∷ ("safe_mode", some "blink")
    ∷ ("task_running", some "spin")
    ∷ ("blocked", some "fade")
    ∷ []

abbrev calm_animations : Dict (Option String)
calm_animations =
    ("idle", none)
    ∷ ("listening", some "fade")
    ∷ ("uploading", some "fade")
    ∷ ("thinking", some "pulse")
    ∷ ("response_cached", none)
    ∷ ("playing", some "pulse")
    ∷ ("confirm", some "fade")
    ∷ ("muted", none)
    ∷ ("offline", some "fade")
    ∷ ("error", some "fade")
    ∷ ("safe_mode", some "fade")
    ∷ ("task_running", some "pulse")
    ∷ ("blocked", some "fade")
    ∷ []

abbrev pub animation_templates : Dict (Dict (Option String))
animation_templates = ("standard", standard_animations) ∷ ("calm", calm_animations) ∷ []
