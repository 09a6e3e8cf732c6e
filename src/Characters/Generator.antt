-- ===== src/Characters/Generator.antt =====
-- character_packs/__init__.py: `PackGenerator`. The lower case of a text and the characters that are blank
-- are parameters.
use Prim.Native.Char.{Char}
use Prim.Native.String.{count, ◌++◌ as ◌<>◌}
use package.text.Mathlib.Text.{find?}
use oi_interface.Base.{
  String, Bool, false, List, [], ◌∷◌, Option, none, some, if◌then◌else◌, ◌||◌, ltb, keep_if,
  is_empty, take, ◌⊎◌, inl, inr,
}
use oi_interface.Dict.{Dict, get, put, or_default, is_some}
use oi_interface.Characters.Text.{replaced, parts_between, nonempty, joined}
use oi_interface.Characters.Pack.{CharacterPack, StateConfig, config, required_states}
use oi_interface.Characters.Templates.{style_templates, label_templates, animation_templates}

-- The `ValueError` of `generate`.
pub data GenerateError : Type 0 where
  unknown_style unknown_label_template unknown_animation_template : String → GenerateError

-- `labels.update(custom_labels)`
unfoldable pub updated : Dict String → Dict String → Dict String
updated labels [] = labels
updated labels ((k, v) ∷ custom) = updated (put k v labels) custom

-- The default of a label is not used, since each template has one for every required state.
abbrev pub state_of :
    Dict String → Dict String → Dict (Option String) → String → String × StateConfig
state_of sprites labels animations name = (
  name,
  config (or_default (get name sprites) (name <> ".png")) (or_default (get name labels) name)
      (or_default (get name animations) none),
)

unfoldable pub states_of :
    Dict String → Dict String → Dict (Option String) → List String → Dict StateConfig
states_of sprites labels animations [] = []
states_of sprites labels animations (name ∷ names) =
    state_of sprites labels animations name ∷ states_of sprites labels animations names

abbrev build_pack :
    String → String → Dict String → Dict String → Dict (Option String) → CharacterPack
build_pack pack_id target sprites labels animations = record {
  pack_id = pack_id;
  target = target;
  format = "indexed_png";
  states = states_of sprites labels animations required_states;
  version = "1.0";
  overlays = none;
}

abbrev generate_with :
    (pack_id target style label_template animation_template : String)
    → Dict String
    → Option (Dict String)
    → Option (Dict String)
    → Option (Dict (Option String))
    → GenerateError ⊎ CharacterPack
generate_with pack_id target style label_template animation_template custom none labels animations =
    inl (unknown_style style)
generate_with pack_id target style label_template animation_template custom (some sprites) none
      animations =
    inl (unknown_label_template label_template)
generate_with pack_id target style label_template animation_template custom (some sprites)
      (some labels) none =
    inl (unknown_animation_template animation_template)
generate_with pack_id target style label_template animation_template custom (some sprites)
      (some labels) (some animations) =
    inr (build_pack pack_id target sprites (updated labels custom) animations)

-- No custom labels are the empty ones.
unfoldable pub generate :
    (pack_id target style label_template animation_template : String)
    → Dict String
    → GenerateError ⊎ CharacterPack
generate pack_id target style label_template animation_template custom =
    generate_with pack_id target style label_template animation_template custom
      (get style style_templates) (get label_template label_templates)
      (get animation_template animation_templates)

-- `any(w in prompt for w in words)`
abbrev pub mentions : List String → String → Bool
mentions [] prompt = false
mentions (w ∷ words) prompt = is_some (find? prompt w) || mentions words prompt

unfoldable pub style_for : String → String
style_for prompt =
    if mentions ("animal" ∷ "cat" ∷ "dog" ∷ "fox" ∷ "owl" ∷ "bird" ∷ "creature" ∷ []) prompt
    then "animal"
    else if mentions ("minimal" ∷ "simple" ∷ "basic" ∷ "tiny" ∷ "symbol" ∷ []) prompt
    then "minimal"
    else "robot"

unfoldable pub labels_for : String → String
labels_for prompt =
    if mentions ("friendly" ∷ "cute" ∷ "warm" ∷ "soft" ∷ "nice" ∷ []) prompt
    then "friendly"
    else if mentions ("minimal" ∷ "symbol" ∷ "icon" ∷ "emoji" ∷ []) prompt
    then "minimal"
    else "technical"

unfoldable pub animations_for : String → String
animations_for prompt =
    if mentions ("calm" ∷ "slow" ∷ "relaxed" ∷ "gentle" ∷ "soft" ∷ []) prompt
    then "calm"
    else "standard"

module _ (lower : String → String) (is_space : Char → Bool) where
  -- The words of more than two characters, at most three of them.
  unfoldable pub id_for : String → String
  id_for prompt =
      let words = take 3 (
        keep_if (λ w. ltb 2 (count w))
          (nonempty (parts_between is_space (replaced 95 " " (replaced 45 " " prompt))))) in
      if is_empty words then "gen-custom" else "gen-" <> joined "-" words

  unfoldable pub generate_from_prompt : (prompt target : String) → GenerateError ⊎ CharacterPack
  generate_from_prompt prompt target =
      let low = lower prompt in
      generate (id_for low) target (style_for low) (labels_for low) (animations_for low) []
