-- ===== src/Characters/Generated.antt =====
-- character_packs/__init__.py: what the generator makes passes the validator.
use Prim.Native.Char.{Char}
use Prim.Native.String.{count, ◌++◌ as ◌<>◌}
use mathlib.Core.Path.{subst}
use mathlib.Core.Option.{some_inj}
use oi_interface.Base.{
  String, Bool, true, false, List, [], ◌∷◌, ◌++◌, Option, none, some, if◌then◌else◌, ◌||◌, ltb,
  ◌&&◌, is_empty, take, ℕ, ◌≡◌, refl, ap, ◌∙◌, sym, All, truthy, not, Option-cases, inl, inr, ◌⊎◌,
  arith, mem, ◌==◌, Bool-cases,
}
use oi_interface.Dict.{Dict, get, put, or_default, is_some, has}
use oi_interface.Characters.Pack.{CharacterPack, config, required_states}
use oi_interface.Characters.Templates.{style_templates, label_templates, animation_templates}
use oi_interface.Characters.Generator.{generate, updated, states_of, GenerateError}
use oi_interface.Characters.Validator.{
  validate, is_animation, state_errors, states_errors, missing_states, is_pack_id, is_version,
  valid_targets, max_sprite_path_length, max_label_length, valid_formats, overlays_errors,
}

-- A text that the validator takes as a sprite, and as a label.
abbrev is_sprite : String → Bool
is_sprite s = truthy s && not (ltb max_sprite_path_length (count s))

abbrev pub is_label : String → Bool
is_label s = truthy s && not (ltb max_label_length (count s))

-- Every value of a dict passes.
abbrev pub AllPass {ℓ} : {V : Type ℓ} → (V → Bool) → Dict V → Type 0
AllPass q [] = Unit
AllPass q ((k, v) ∷ d) = (q v ≡ true) × AllPass q d

get_passes {ℓ} :
    {V : Type ℓ} (q : V → Bool) (k : String) (d : Dict V) (w : V)
    → AllPass q d
    → q w ≡ true
    → q (or_default (get k d) w) ≡ true
unfolding get
get_passes q k [] w h hw = hw
get_passes q k ((j, v) ∷ d) w h hw = elim (Bool-cases (k == j)) [
  | inl t ↦ rw t h.0
  | inr t ↦ rw t (get_passes q k d w h.1 hw)
]

put_passes :
    (q : String → Bool) (k v : String) (d : Dict String)
    → AllPass q d
    → q v ≡ true
    → AllPass q (put k v d)
unfolding put
put_passes q k v [] h hv = (hv, tt)
put_passes q k v ((j, w) ∷ d) h hv = elim (Bool-cases (k == j)) [
  | inl t ↦ rw t (hv, h.1)
  | inr t ↦ rw t (h.0, put_passes q k v d h.1 hv)
]

updated_passes :
    (q : String → Bool) (labels custom : Dict String)
    → AllPass q labels
    → AllPass q custom
    → AllPass q (updated labels custom)
unfolding updated
updated_passes q labels [] h hc = h
updated_passes q labels ((k, v) ∷ custom) h hc =
    updated_passes q (put k v labels) custom (put_passes q k v labels h hc.0) hc.1

state_passes :
    (name sprite label : String) (animation : Option String)
    → is_sprite sprite ≡ true
    → is_label label ≡ true
    → is_animation animation ≡ true
    → state_errors name (config sprite label animation) ≡ []
unfolding state_errors
state_passes name sprite label animation hs hl ha =
    let (s, l) = both (truthy sprite) (not (ltb max_sprite_path_length (count sprite))) hs in
    let (s', l') = both (truthy label) (not (ltb max_label_length (count label))) hl in
    rw (s, l, s', l', ha) refl
  where
    both : (a b : Bool) → (a && b) ≡ true → (a ≡ true) × (b ≡ true)
    both a b h = ground arith

-- Names that make good sprites and labels.
abbrev IsName : String → Type 0
IsName name = (is_sprite (name <> ".png") ≡ true) × (is_label name ≡ true)

states_pass :
    (sprites labels : Dict String) (animations : Dict (Option String)) (names : List String)
    → AllPass is_sprite sprites
    → AllPass is_label labels
    → AllPass is_animation animations
    → All IsName names
    → states_errors (states_of sprites labels animations names) ≡ []
unfolding states_errors states_of
states_pass sprites labels animations [] hs hl ha hn = refl
states_pass sprites labels animations (name ∷ names) hs hl ha hn =
    rw
      (
        state_passes name (or_default (get name sprites) (name <> ".png"))
            (or_default (get name labels) name) (or_default (get name animations) none)
            (get_passes is_sprite name sprites (name <> ".png") hs hn.0.0)
            (get_passes is_label name labels name hl hn.0.1)
            (get_passes is_animation name animations none ha refl),
        states_pass sprites labels animations names hs hl ha hn.1,
      )
      refl

-- A template of templates: what it has under a name passes.
abbrev AllIn {ℓ} : {V : Type ℓ} → (V → Bool) → Dict (Dict V) → Type 0
AllIn q [] = Unit
AllIn q ((k, d) ∷ ds) = AllPass q d × AllIn q ds

in_passes {ℓ} :
    {V : Type ℓ} (q : V → Bool) (k : String) (ds : Dict (Dict V)) (d : Dict V)
    → AllIn q ds
    → get k ds ≡ some d
    → AllPass q d
unfolding get
in_passes q k [] d h e = cc
in_passes q k ((j, x) ∷ ds) d h e = elim (Bool-cases (k == j)) [
  | inl t ↦ let same_dict : x ≡ d = some_inj.0 (rw t at e) in subst (AllPass q) same_dict h.0
  | inr t ↦ in_passes q k ds d h.1 (rw t at e)
]

styles_pass : AllIn is_sprite style_templates
unfolding oi_interface.Base.same
styles_pass = (
  (
    refl,
    (
      refl,
      (refl, (refl, (refl, (refl, (refl, (refl, (refl, (refl, (refl, (refl, (refl, tt))))))))))),
    ),
  ),
  (
    (
      refl,
      (
        refl,
        (refl, (refl, (refl, (refl, (refl, (refl, (refl, (refl, (refl, (refl, (refl, tt))))))))))),
      ),
    ),
    (
      (
        refl,
        (
          refl,
          (
            refl,
            (refl, (refl, (refl, (refl, (refl, (refl, (refl, (refl, (refl, (refl, tt)))))))))),
          ),
        ),
      ),
      tt,
    ),
  ),
)

labels_pass : AllIn is_label label_templates
unfolding oi_interface.Base.same
labels_pass = (
  (
    refl,
    (
      refl,
      (refl, (refl, (refl, (refl, (refl, (refl, (refl, (refl, (refl, (refl, (refl, tt))))))))))),
    ),
  ),
  (
    (
      refl,
      (
        refl,
        (refl, (refl, (refl, (refl, (refl, (refl, (refl, (refl, (refl, (refl, (refl, tt))))))))))),
      ),
    ),
    (
      (
        refl,
        (
          refl,
          (
            refl,
            (refl, (refl, (refl, (refl, (refl, (refl, (refl, (refl, (refl, (refl, tt)))))))))),
          ),
        ),
      ),
      tt,
    ),
  ),
)

animations_pass : AllIn is_animation animation_templates
unfolding mem oi_interface.Base.same
animations_pass = (
  (
    refl,
    (
      refl,
      (refl, (refl, (refl, (refl, (refl, (refl, (refl, (refl, (refl, (refl, (refl, tt))))))))))),
    ),
  ),
  (
    (
      refl,
      (
        refl,
        (refl, (refl, (refl, (refl, (refl, (refl, (refl, (refl, (refl, (refl, (refl, tt))))))))))),
      ),
    ),
    tt,
  ),
)

names_pass : All IsName required_states
unfolding oi_interface.Base.same
names_pass = (
  (refl, refl),
  (
    (refl, refl),
    (
      (refl, refl),
      (
        (refl, refl),
        (
          (refl, refl),
          (
            (refl, refl),
            (
              (refl, refl),
              (
                (refl, refl),
                ((refl, refl), ((refl, refl), ((refl, refl), ((refl, refl), ((refl, refl), tt))))),
              ),
            ),
          ),
        ),
      ),
    ),
  ),
)

-- The value of a key that is there.
known {ℓ} : {V : Type ℓ} (k : String) (d : Dict V) → has k d ≡ true → (v : V) × (get k d ≡ some v)
known k d h = passing_some (get k d) h
  where
    passing_some : {V : Type ℓ} (o : Option V) → is_some o ≡ true → (v : V) × (o ≡ some v)
    passing_some none h = cc
    passing_some (some v) h = (v, refl)

states_complete :
    (sprites labels : Dict String) (animations : Dict (Option String))
    → missing_states required_states (states_of sprites labels animations required_states) ≡ []
unfolding missing_states states_of get oi_interface.Base.same
states_complete sprites labels animations = refl

format_passes : mem "indexed_png" valid_formats ≡ true
unfolding mem oi_interface.Base.same
format_passes = refl

no_overlays : overlays_errors [] ≡ []
unfolding overlays_errors
no_overlays = refl

module _ (is_digit is_alnum : Char → Bool) where
  -- A pack is made, and no error is found in it.
  abbrev pub IsMade : GenerateError ⊎ CharacterPack → Type 0
  IsMade r = (p : CharacterPack) × (r ≡ inr p) × (validate is_digit is_alnum p ≡ (true, []))

  -- For templates that it knows, the generator makes a pack, and the validator finds no error in it, if
  -- the id of the pack and its target are valid, and the custom labels are neither empty nor too long. The
  -- version "1.0" is one for the digits that are given.
  pub generate-IsMade :
      (pack_id target style label_template animation_template : String) (custom : Dict String)
      → has style style_templates ≡ true
      → has label_template label_templates ≡ true
      → has animation_template animation_templates ≡ true
      → is_pack_id is_digit is_alnum pack_id ≡ true
      → mem target valid_targets ≡ true
      → AllPass is_label custom
      → is_version is_digit is_alnum "1.0" ≡ true
      → IsMade (generate pack_id target style label_template animation_template custom)
  unfolding generate validate
  generate-IsMade pack_id target style label_template animation_template custom hs hl ha hi ht hc
        hv =
      let (sprites, s) = known style style_templates hs in
      let (labels, l) = known label_template label_templates hl in
      let (animations, a) = known animation_template animation_templates ha in
      let own = updated labels custom in
      let no_errors =
        states_pass sprites own animations required_states
          (in_passes is_sprite style style_templates sprites styles_pass s)
          (updated_passes is_label labels custom
            (in_passes is_label label_template label_templates labels labels_pass l) hc)
          (in_passes is_animation animation_template animation_templates animations animations_pass
            a)
          names_pass in
      rw (s, l, a)
        (
          _,
          refl,
          rw
              (
                states_complete sprites own animations,
                ht,
                no_errors,
                hi,
                hv,
                format_passes,
                no_overlays,
              )
              refl,
        )
