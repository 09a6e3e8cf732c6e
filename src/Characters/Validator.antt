-- ===== src/Characters/Validator.antt =====
-- character_packs/__init__.py: `PackValidator`. Which characters are digits, and which letters or digits, is
-- a parameter.
use Prim.Native.Char.{Char}
use Prim.Native.String.{count}
use oi_interface.Base.{
  String, Bool, true, false, List, [], ◌∷◌, ◌++◌, Option, none, some, not, is_empty, mem, ltb, ℕ,
  if◌then◌else◌, ◌&&◌, ◌||◌, truthy, length, take,
}
use oi_interface.Dict.{Dict, has}
use oi_interface.Characters.Text.{without, split_at, is_all}
use oi_interface.Characters.Pack.{CharacterPack, StateConfig, required_states}

abbrev pub max_sprite_path_length : ℕ
max_sprite_path_length = 128

abbrev pub max_label_length : ℕ
max_label_length = 32

abbrev pub valid_animations : List String
valid_animations = "pulse" ∷ "spin" ∷ "blink" ∷ "fade" ∷ "waveform" ∷ "pulse_red" ∷ []

abbrev pub valid_targets : List String
valid_targets = "tiny_135x240" ∷ "watch_240x280" ∷ "phone_390x450" ∷ []

abbrev pub valid_formats : List String
valid_formats = "indexed_png" ∷ "rgb565" ∷ "spritesheet" ∷ []

pub data PackError : Type 0 where
  missing_state : String → PackError
  invalid_target invalid_format : String → PackError
  no_sprite : String → PackError
  long_sprite : String → ℕ → PackError
  no_label : String → PackError
  long_label : String → ℕ → PackError
  invalid_animation : String → Option String → PackError
  overlay_without_sprite overlay_without_label : String → PackError
  invalid_overlay_animation : String → Option String → PackError
  invalid_pack_id invalid_version : String → PackError

-- `animation in VALID_ANIMATIONS`, with `None` among them.
abbrev pub is_animation : Option String → Bool
is_animation none = true
is_animation (some a) = mem a valid_animations

-- One error if a test fails.
abbrev pub unless : Bool → PackError → List PackError
unless true e = []
unless false e = e ∷ []

unfoldable pub missing_states : List String → Dict StateConfig → List PackError
missing_states [] states = []
missing_states (required ∷ rest) states =
    unless (has required states) (missing_state required) ++ missing_states rest states

abbrev sprite_errors : String → String → List PackError
sprite_errors name sprite =
    if not (truthy sprite)
    then no_sprite name ∷ []
    else unless (not (ltb max_sprite_path_length (count sprite))) (long_sprite name (count sprite))

abbrev label_errors : String → String → List PackError
label_errors name label =
    if not (truthy label)
    then no_label name ∷ []
    else unless (not (ltb max_label_length (count label))) (long_label name (count label))

unfoldable pub state_errors : String → StateConfig → List PackError
state_errors name c =
    sprite_errors name c.sprite
    ++ label_errors name c.label
    ++ unless (is_animation c.animation) (invalid_animation name c.animation)

unfoldable pub states_errors : Dict StateConfig → List PackError
states_errors [] = []
states_errors ((name, c) ∷ states) = state_errors name c ++ states_errors states

unfoldable pub overlay_errors : String → StateConfig → List PackError
overlay_errors name c =
    unless (truthy c.sprite) (overlay_without_sprite name)
    ++ unless (truthy c.label) (overlay_without_label name)
    ++ unless (is_animation c.animation) (invalid_overlay_animation name c.animation)

unfoldable pub overlays_errors : Dict StateConfig → List PackError
overlays_errors [] = []
overlays_errors ((name, c) ∷ overlays) = overlay_errors name c ++ overlays_errors overlays

abbrev pub overlays_in : Option (Dict StateConfig) → Dict StateConfig
overlays_in none = []
overlays_in (some overlays) = overlays

module _ (is_digit is_alnum : Char → Bool) where
  unfoldable pub is_pack_id : String → Bool
  is_pack_id s = truthy s && is_all is_alnum (without 95 (without 45 s))

  abbrev all_digits : List String → Bool
  all_digits [] = true
  all_digits (part ∷ parts) = is_all is_digit part && all_digits parts

  -- At least two parts between dots, the first two being numbers; an empty version passes.
  unfoldable pub is_version : String → Bool
  is_version s =
      let parts = split_at 46 s in
      not (truthy s) || (not (ltb (length parts) 2) && all_digits (take 2 parts))

  unfoldable pub validate : CharacterPack → Bool × List PackError
  validate p =
      let errors =
        missing_states required_states p.states
        ++ unless (mem p.target valid_targets) (invalid_target p.target)
        ++ unless (mem p.format valid_formats) (invalid_format p.format)
        ++ states_errors p.states
        ++ overlays_errors (overlays_in p.overlays)
        ++ unless (is_pack_id p.pack_id) (invalid_pack_id p.pack_id)
        ++ unless (is_version p.version) (invalid_version p.version) in
      (is_empty errors, errors)
