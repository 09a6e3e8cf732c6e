-- ===== src/Characters/Stored.antt =====
-- character_packs/__init__.py: packs as JSON and back, and packs in the store.
use oi_interface.Base.{
  String, Bool, true, false, List, [], ◌∷◌, ◌++◌, Option, none, some, ◌==◌, keep_if, not, is_empty,
  if◌then◌else◌, ◌≡◌, refl, ap, ◌∙◌, arith, Bool-cases, inl, inr, mem, Option-cases, same_self,
  ◌&&◌,
}
use oi_interface.Dict.{Dict, get, is_some}
use oi_interface.Json.{dict, to_dict, fields_of}
use oi_interface.Datp.Built.{to_dict-fields_of}
use oi_interface.Characters.Pack.{
  CharacterPack, StateConfig, config, config_to_dict, configs_to_dict, pack_to_dict, pack_from_dict,
  configs_from, config_from, stored_overlays, overlays_from, states_from, overlays_to_json, as_some,
  upsert_pack, get_pack, register_pack, delete_pack, stored,
}
use oi_interface.Registry.Health.{same_sym}

config_from-of :
    (sprite label : String) (animation : Option String)
    → config_from (dict (config_to_dict (config sprite label animation)))
      ≡ some (config sprite label animation)
unfolding config_from get mem oi_interface.Base.same
config_from-of sprite label none = refl
config_from-of sprite label (some a) = refl

configs_from-configs_to_dict :
    (configs : Dict StateConfig) → configs_from (configs_to_dict configs) ≡ some configs
unfolding configs_from
configs_from-configs_to_dict [] = refl
configs_from-configs_to_dict ((name, c) ∷ configs) =
    rw (config_from-of c.sprite c.label c.animation, configs_from-configs_to_dict configs) refl

read_back :
    (configs : Dict StateConfig)
    → configs_from (to_dict (fields_of (configs_to_dict configs))) ≡ some configs
read_back configs =
    ap configs_from (to_dict-fields_of (configs_to_dict configs))
    ∙ configs_from-configs_to_dict configs

states_back :
    (configs : Dict StateConfig)
    → states_from (some (dict (configs_to_dict configs))) ≡ some configs
unfolding states_from
states_back configs = read_back configs

overlays_back :
    (o : Option (Dict StateConfig))
    → overlays_from (some (overlays_to_json o)) ≡ some (stored_overlays o)
unfolding overlays_from
overlays_back none = refl
overlays_back (some []) = refl
overlays_back (some (c ∷ configs)) = ap as_some (read_back (c ∷ configs))

-- A pack that is made a dict and read again is the pack, but that overlays that are there and empty are
-- no overlays.
pub pack_from_dict-pack_to_dict :
    (p : CharacterPack)
    → pack_from_dict (pack_to_dict p) ≡ some (record p { overlays = stored_overlays p.overlays })
unfolding pack_from_dict pack_to_dict get oi_interface.Base.same
pack_from_dict-pack_to_dict p = rw (states_back p.states, overlays_back p.overlays) refl

get_pack-delete_pack :
    (k j : String) (rows : List CharacterPack)
    → get_pack k (delete_pack j rows) ≡ (if k == j then none else get_pack k rows)
unfolding get_pack keep_if
get_pack-delete_pack k j [] = ground arith
get_pack-delete_pack k j (p ∷ rows) = ground (arith, get_pack-delete_pack k j rows)

get_pack-append :
    (k : String) (p : CharacterPack) (rows : List CharacterPack)
    → get_pack k (rows ++ p ∷ []) ≡ (
        if is_some (get_pack k rows)
        then get_pack k rows
        else if p.pack_id == k
        then some p
        else none)
unfolding get_pack
get_pack-append k p [] = refl
get_pack-append k p (q ∷ rows) = elim (Bool-cases (q.pack_id == k)) [
  | inl t ↦ rw t refl
  | inr t ↦ rw t (get_pack-append k p rows)
]

get_pack-upsert_pack :
    (k : String) (p : CharacterPack) (rows : List CharacterPack)
    → get_pack k (upsert_pack p rows)
      ≡ (if k == p.pack_id then some (stored p) else get_pack k rows)
unfolding upsert_pack
get_pack-upsert_pack k p rows =
    get_pack-append k (stored p) (delete_pack p.pack_id rows)
    ∙ rw (get_pack-delete_pack k p.pack_id rows) (elim (Bool-cases (k == p.pack_id)) [
      | inl t ↦ rw (t, same_sym p.pack_id k ∙ t) refl
      | inr t ↦ rw (t, same_sym p.pack_id k ∙ t) (found (get_pack k rows))
    ])
  where
    found :
        (o : Option CharacterPack)
        → (if is_some o then o else (if false then some (stored p) else none)) ≡ o
    found none = refl
    found (some q) = refl

-- Registering answers whether the id is new. If it is, the pack is found as it is stored, and every
-- other id as before; if not, the store is as it was.
pub register_pack_lem :
    (p : CharacterPack) (rows : List CharacterPack) (k : String)
    → let (rows', registered) = register_pack p rows in
      (registered ≡ not (is_some (get_pack p.pack_id rows)))
      × (get_pack k rows'
          ≡ (if registered && k == p.pack_id then some (stored p) else get_pack k rows))
unfolding register_pack
register_pack_lem p rows k = elim (Option-cases (get_pack p.pack_id rows)) [
  | inl e ↦ rw e (refl, get_pack-upsert_pack k p rows)
  | inr (old, e) ↦ rw e (refl, refl)
]
