-- ===== src/Characters/Rendered.antt =====
-- character_packs/__init__.py: what `render` returns.
use Prim.Native.String.{count}
use oi_interface.Base.{
  String, true, false, Option, some, if◌then◌else◌, ltb, ℕ, ◌-◌, ◌⊎◌, inl, inr, ◌≤◌, ◌≡◌, refl, ap,
  same_self, ◌==◌, Bool-cases, Option-cases, arith, ◌==◌, eq_of_test, ◌<◌, none, [], sym,
}
use oi_interface.Dict.{get, or_default, has, is_some}
use mathlib.Core.Path.{subst}
use Prim.Native.String.{◌++◌ as ◌<>◌}
use oi_interface.Datp.Text.{first_chars, later_chars, count-first_chars_within}
use oi_interface.Characters.Pack.{CharacterPack, StateConfig}
use oi_interface.Characters.Renderer.{
  render, RenderInstruction, RenderError, no_state, no_overlay, max_len, fitted, overlay_of,
  render_with,
}

-- The characters that a target shows of a label.
abbrev pub shown_length : String → ℕ
shown_length target =
    if target == "tiny_135x240" then 12 else if target == "phone_390x450" then 32 else 16

max_len_lem : (p : CharacterPack) → max_len p ≡ shown_length p.target
unfolding get oi_interface.Base.same
max_len_lem p = elim (Bool-cases (p.target == "tiny_135x240")) [
  | inl t ↦ rw t refl
  | inr t ↦ elim (Bool-cases (p.target == "watch_240x280")) [
    | inl u ↦ rw (t, u, eq_of_test p.target "watch_240x280" u) refl
    | inr u ↦ elim (Bool-cases (p.target == "phone_390x450")) [
      | inl v ↦ rw (t, u, v) refl
      | inr v ↦ rw (t, u, v) refl
    ]
  ]
]

-- A label as it is shown: whole if it is no longer than the limit, else one character less than that of
-- its start, and "…".
abbrev pub IsShown : ℕ → String → String → Type 0
IsShown limit label shown =
    ((count label ≤ limit) × (shown ≡ label))
    ⊎ ((limit < count label)
        × ((start rest : String) × (label ≡ start <> rest)
            × (count start ≡ limit - 1)
            × (shown ≡ start <> "…")))

fitted-IsShown : (limit : ℕ) (label : String) → IsShown limit label (fitted limit label)
unfolding fitted
fitted-IsShown limit label = elim (Bool-cases (ltb limit (count label))) [
  | inl t ↦ rw t (
      inr (
        ground (arith, t),
        (
          first_chars (limit - 1) label,
          (later_chars (limit - 1) label).0,
          (later_chars (limit - 1) label).1,
          count-first_chars_within (limit - 1) label (ground (arith, t)),
          refl,
        ),
      ))
  | inr t ↦ rw t (inl (ground (arith, t), refl))
]

-- The overlay that is asked for, if any, and what is shown of it.
abbrev pub IsOverlay : CharacterPack → Option String → Option String → Option String → Type 0
IsOverlay p none sprite label = (sprite ≡ none) × (label ≡ none)
IsOverlay p (some o) sprite label =
    ((o == "") ≡ true) × (sprite ≡ none) × (label ≡ none)
    ⊎ ((o == "") ≡ false)
      × ((c : StateConfig) × (get o (or_default p.overlays []) ≡ some c)
          × (sprite ≡ some c.sprite)
          × (label ≡ some c.label))

-- What the answer of `render` says of a pack.
abbrev pub IsRendered :
    CharacterPack
    → String
    → Option String
    → Option String
    → RenderError ⊎ RenderInstruction
    → Type 0
IsRendered p state overlay custom (inl (no_state s)) = (s ≡ state) × (has state p.states ≡ false)
IsRendered p state overlay custom (inl (no_overlay o)) =
    (has state p.states ≡ true)
    × (overlay ≡ some o)
    × ((o == "") ≡ false)
    × (has o (or_default p.overlays []) ≡ false)
IsRendered p state overlay custom (inr r) =
    (c : StateConfig) × (get state p.states ≡ some c)
    × (r.sprite_path ≡ c.sprite)
    × (r.shown_animation ≡ c.animation)
    × IsShown (shown_length p.target) (or_default custom c.label) r.shown_label
    × IsOverlay p overlay r.overlay_sprite_path r.overlay_label

render_with-IsRendered :
    (p : CharacterPack) (state : String) (custom : Option String) (c : StateConfig)
    (overlay : Option String)
    → get state p.states ≡ some c
    → IsRendered p state overlay custom
        (render_with p state overlay custom (some c) (overlay_of p overlay))
render_with-IsRendered p state custom c none e = (c, e, refl, refl, label_shown, (refl, refl))
  where
    label_shown :
        IsShown
          (shown_length p.target)
          (or_default custom c.label)
          (fitted (max_len p) (or_default custom c.label))
    label_shown =
        rw (max_len_lem p) (fitted-IsShown (shown_length p.target) (or_default custom c.label))
render_with-IsRendered p state custom c (some o) e = elim (Bool-cases (o == "")) [
  | inl t ↦ rw t (c, e, refl, refl, label_shown, inl (t, refl, refl))
  | inr t ↦ elim (Option-cases (get o (or_default p.overlays []))) [
    | inl n ↦ rw (t, n) (ap is_some e, refl, t, ap is_some n)
    | inr (x, n) ↦ rw (t, n) (c, e, refl, refl, label_shown, inr (t, (x, n, refl, refl)))
  ]
]
  where
    label_shown :
        IsShown
          (shown_length p.target)
          (or_default custom c.label)
          (fitted (max_len p) (or_default custom c.label))
    label_shown =
        rw (max_len_lem p) (fitted-IsShown (shown_length p.target) (or_default custom c.label))

-- `render` fails exactly for a state, or a named overlay, that the pack does not have. Else it gives the
-- sprite and the animation of the state, and the sprite and the label of the overlay, if one is named. The
-- label is that of the state, or the custom one; if it has more than 12, 16 or 32 characters, by the target
-- (16 for an unknown one), it is cut to one less than that, and "…" follows.
pub render-IsRendered :
    (p : CharacterPack) (state : String) (overlay custom : Option String)
    → IsRendered p state overlay custom (render p state overlay custom)
unfolding render
render-IsRendered p state overlay custom = elim (Option-cases (get state p.states)) [
  | inl e ↦ rw e (refl, ap is_some e)
  | inr (c, e) ↦
      subst
        (λ o.
          IsRendered p state overlay custom
            (render_with p state overlay custom o (overlay_of p overlay)))
        (sym e) (render_with-IsRendered p state custom c overlay e)
]
