-- ===== src/Characters/Pack.antt =====
-- character_packs: the states, the packs, their form as JSON, and the store, a table with a row for each
-- pack. `INSERT OR REPLACE` deletes a row with the id before it inserts the new one at the end.
use oi_interface.Base.{
  String, Bool, true, false, List, [], ◌∷◌, ◌++◌, Option, none, some, ◌==◌, keep_if, not, is_empty,
  mem, ◌&&◌, if◌then◌else◌,
}
use oi_interface.Dict.{Dict, get}
use oi_interface.Json.{Json, null, text, dict, object, to_dict, as_text}

abbrev pub required_states : List String
required_states =
    "idle" ∷ "listening" ∷ "uploading" ∷ "thinking" ∷ "response_cached" ∷ "playing" ∷ "confirm"
    ∷ "muted" ∷ "offline" ∷ "error" ∷ "safe_mode" ∷ "task_running" ∷ "blocked" ∷ []

pub record StateConfig : Type 0 where
  pub sprite : String
  pub label : String
  pub animation : Option String

pub record CharacterPack : Type 0 where
  pub pack_id : String
  pub target : String
  pub format : String
  pub states : Dict StateConfig
  pub version : String
  pub overlays : Option (Dict StateConfig)

-- `StateConfig(sprite=..., label=..., animation=...)`
abbrev pub config : String → String → Option String → StateConfig
config sprite label animation = record { sprite = sprite; label = label; animation = animation }

abbrev text_or_null : Option String → Json
text_or_null none = null
text_or_null (some s) = text s

abbrev pub config_to_dict : StateConfig → Dict Json
config_to_dict c =
    ("sprite", text c.sprite)
    ∷ ("label", text c.label)
    ∷ ("animation", text_or_null c.animation)
    ∷ []

abbrev pub configs_to_dict : Dict StateConfig → Dict Json
configs_to_dict [] = []
configs_to_dict ((name, c) ∷ configs) = (name, dict (config_to_dict c)) ∷ configs_to_dict configs

-- `{...} if self.overlays else None`
abbrev pub overlays_to_json : Option (Dict StateConfig) → Json
overlays_to_json none = null
overlays_to_json (some []) = null
overlays_to_json (some (c ∷ configs)) = dict (configs_to_dict (c ∷ configs))

unfoldable pub pack_to_dict : CharacterPack → Dict Json
pack_to_dict p =
    ("pack_id", text p.pack_id)
    ∷ ("target", text p.target)
    ∷ ("format", text p.format)
    ∷ ("version", text p.version)
    ∷ ("states", dict (configs_to_dict p.states))
    ∷ ("overlays", overlays_to_json p.overlays)
    ∷ []

-- `from_dict` is none where the code raises, for a key that is missing or a `StateConfig` with one that is
-- not known, and for a value that is not of the type that the class declares, which Python lets pass.
abbrev pub animation_of : Option Json → Option (Option String)
animation_of none = some none
animation_of (some null) = some none
animation_of (some (text s)) = some (some s)
animation_of (some v) = none

abbrev pub text_at : String → Dict Json → Option String
text_at key d = elim (get key d) [ none ↦ none | some v ↦ as_text v ]

abbrev pub config_with : Option String → Option String → Option (Option String) → Option StateConfig
config_with (some sprite) (some label) (some animation) = some (config sprite label animation)
config_with sprite label animation = none

abbrev pub has_known_keys : Dict Json → Bool
has_known_keys [] = true
has_known_keys ((k, v) ∷ d) = mem k ("sprite" ∷ "label" ∷ "animation" ∷ []) && has_known_keys d

-- `StateConfig(**cfg)`
unfoldable pub config_from : Json → Option StateConfig
config_from (object fs) =
    if has_known_keys (to_dict fs)
    then config_with (text_at "sprite" (to_dict fs)) (text_at "label" (to_dict fs))
        (animation_of (get "animation" (to_dict fs)))
    else none
config_from v = none

abbrev and_config :
    String → Option StateConfig → Option (Dict StateConfig) → Option (Dict StateConfig)
and_config name (some c) (some configs) = some ((name, c) ∷ configs)
and_config name c configs = none

unfoldable pub configs_from : Dict Json → Option (Dict StateConfig)
configs_from [] = some []
configs_from ((name, v) ∷ d) = and_config name (config_from v) (configs_from d)

unfoldable pub states_from : Option Json → Option (Dict StateConfig)
states_from none = some []
states_from (some (object fs)) = configs_from (to_dict fs)
states_from (some v) = none

abbrev pub as_some : Option (Dict StateConfig) → Option (Option (Dict StateConfig))
as_some none = none
as_some (some d) = some (some d)

-- `if data.get("overlays")`
unfoldable pub overlays_from : Option Json → Option (Option (Dict StateConfig))
overlays_from none = some none
overlays_from (some null) = some none
overlays_from (some (object fs)) =
    if is_empty (to_dict fs) then some none else as_some (configs_from (to_dict fs))
overlays_from (some v) = none

abbrev version_from : Option Json → Option String
version_from none = some "1.0"
version_from (some v) = as_text v

abbrev pack_with :
    Option String
    → Option String
    → Option String
    → Option (Dict StateConfig)
    → Option String
    → Option (Option (Dict StateConfig))
    → Option CharacterPack
pack_with (some pack_id) (some target) (some format) (some states) (some version) (some overlays) =
    some (record {
      pack_id = pack_id;
      target = target;
      format = format;
      states = states;
      version = version;
      overlays = overlays;
    })
pack_with pack_id target format states version overlays = none

unfoldable pub pack_from_dict : Dict Json → Option CharacterPack
pack_from_dict d =
    pack_with (text_at "pack_id" d) (text_at "target" d) (text_at "format" d)
      (states_from (get "states" d)) (version_from (get "version" d))
      (overlays_from (get "overlays" d))

-- `CharacterPackStore`
abbrev pub delete_pack : String → List CharacterPack → List CharacterPack
delete_pack pack_id rows = keep_if (λ p. not (p.pack_id == pack_id)) rows

-- What is read back: no overlays is stored for empty ones, and a version that is empty reads "1.0".
abbrev pub stored_overlays : Option (Dict StateConfig) → Option (Dict StateConfig)
stored_overlays none = none
stored_overlays (some []) = none
stored_overlays (some (c ∷ configs)) = some (c ∷ configs)

abbrev pub stored : CharacterPack → CharacterPack
stored p = record p {
  version = if p.version == "" then "1.0" else p.version;
  overlays = stored_overlays p.overlays;
}

unfoldable pub upsert_pack : CharacterPack → List CharacterPack → List CharacterPack
upsert_pack p rows = delete_pack p.pack_id rows ++ stored p ∷ []

unfoldable pub get_pack : String → List CharacterPack → Option CharacterPack
get_pack pack_id [] = none
get_pack pack_id (p ∷ rows) = if p.pack_id == pack_id then some p else get_pack pack_id rows

unfoldable pub get_packs_by_target : String → List CharacterPack → List CharacterPack
get_packs_by_target target rows = keep_if (λ p. p.target == target) rows

-- `CharacterPackService.register_pack`
abbrev pub register_new :
    CharacterPack → List CharacterPack → Option CharacterPack → List CharacterPack × Bool
register_new p rows (some old) = (rows, false)
register_new p rows none = (upsert_pack p rows, true)

unfoldable pub register_pack : CharacterPack → List CharacterPack → List CharacterPack × Bool
register_pack p rows = register_new p rows (get_pack p.pack_id rows)
