-- ===== src/Characters/Renderer.antt =====
-- character_packs/__init__.py: `DeviceRenderer` and `RenderInstruction`.
use Prim.Native.String.{count, ◌++◌ as ◌<>◌}
use oi_interface.Base.{
  String, [], ◌∷◌, Option, none, some, if◌then◌else◌, ltb, ℕ, ◌-◌, truthy, ◌⊎◌, inl, inr,
}
use oi_interface.Dict.{Dict, get, or_default}
use oi_interface.Json.{Json, null, text}
use oi_interface.Datp.Text.{first_chars}
use oi_interface.Characters.Pack.{CharacterPack, StateConfig}

pub record RenderInstruction : Type 0 where
  pub sprite_path : String
  pub shown_label : String
  pub shown_animation : Option String
  pub overlay_sprite_path : Option String
  pub overlay_label : Option String

-- The `ValueError` of `render`.
pub data RenderError : Type 0 where
  no_state no_overlay : String → RenderError

abbrev pub max_label_lengths : Dict ℕ
max_label_lengths = ("tiny_135x240", 12) ∷ ("watch_240x280", 16) ∷ ("phone_390x450", 32) ∷ []

abbrev pub max_len : CharacterPack → ℕ
max_len p = or_default (get p.target max_label_lengths) 16

unfoldable pub fitted : ℕ → String → String
fitted limit label = if ltb limit (count label) then first_chars (limit - 1) label <> "…" else label

-- The sprite and the label of an overlay, or of none.
abbrev pub overlay_of : CharacterPack → Option String → Option (Option StateConfig)
overlay_of p none = some none
overlay_of p (some o) =
    if truthy o
    then elim (get o (or_default p.overlays [])) [ none ↦ none | some c ↦ some (some c) ]
    else some none

abbrev sprite_in : Option StateConfig → Option String
sprite_in none = none
sprite_in (some c) = some c.sprite

abbrev label_in : Option StateConfig → Option String
label_in none = none
label_in (some c) = some c.label

abbrev pub render_with :
    CharacterPack
    → String
    → Option String
    → Option String
    → Option StateConfig
    → Option (Option StateConfig)
    → RenderError ⊎ RenderInstruction
render_with p state overlay custom none o = inl (no_state state)
render_with p state overlay custom (some c) none = inl (no_overlay (or_default overlay ""))
render_with p state overlay custom (some c) (some o) = inr (record {
  sprite_path = c.sprite;
  shown_label = fitted (max_len p) (or_default custom c.label);
  shown_animation = c.animation;
  overlay_sprite_path = sprite_in o;
  overlay_label = label_in o;
})

unfoldable pub render :
    CharacterPack
    → (state : String) → (overlay custom_label : Option String) → RenderError ⊎ RenderInstruction
render p state overlay custom =
    render_with p state overlay custom (get state p.states) (overlay_of p overlay)

abbrev pub opt_text : Option String → Json
opt_text none = null
opt_text (some s) = text s

-- The arguments of the command that `to_datp_command` makes.
unfoldable pub command_args : RenderInstruction → (pack_id target : String) → Dict Json
command_args r pack_id target =
    ("sprite", text r.sprite_path)
    ∷ ("label", text r.shown_label)
    ∷ ("animation", opt_text r.shown_animation)
    ∷ ("overlay", opt_text r.overlay_sprite_path)
    ∷ ("overlay_label", opt_text r.overlay_label)
    ∷ ("pack_id", text pack_id)
    ∷ ("target", text target)
    ∷ []
