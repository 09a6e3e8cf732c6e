-- ===== src/MultiDevice/Affinity.antt =====
-- multi_device/manager.py: affinities.
use mathlib.Core.Option
use oi_interface.MultiDevice.{
  MultiDeviceManager, DeviceAffinity, first_to, get_affinity_for_target, to_others, set_affinity,
  get_affinities, remove_affinity,
}
use oi_interface.Base.{
  String, List, map, keep_if, ◌≡◌, none, Option, ◌∷◌, ℕ, ◌++◌, Bool-cases, [], some, same_self,
  ◌==◌, inl, inr, arith, refl, ltb, ◌+◌, ap, length, suc, false, Option-cases, true, ◌∙◌,
  length-keep_if-le, not,
}
use oi_interface.Dict.{get, is_some, or_default, put, get-put_same}
use mathlib.Core.Option.{IsSome}

module _ {L : Type 0} where
  -- The targets that a source has an affinity to.
  abbrev pub targets : String → MultiDeviceManager L → List String
  targets source_id m = map (λ a. a.target_id) (get_affinities source_id m)

  first_to-to_others :
      (target_id : String) (affinities : List (DeviceAffinity L))
      → first_to target_id (to_others target_id affinities) ≡ none
  unfolding first_to to_others keep_if
  first_to-to_others target_id [] = refl
  first_to-to_others target_id (a ∷ affinities) = elim (Bool-cases (a.target_id == target_id)) [
    | inl t ↦ rw t (first_to-to_others target_id affinities)
    | inr t ↦ rw t (rw t (first_to-to_others target_id affinities))
  ]

  first_to-append :
      (target_id : String) (affinities : List (DeviceAffinity L)) (a : DeviceAffinity L)
      → first_to target_id affinities ≡ none
      → a.target_id ≡ target_id
      → first_to target_id (affinities ++ a ∷ []) ≡ some a
  unfolding first_to
  first_to-append target_id [] a h e = rw e (rw (same_self target_id) refl)
  first_to-append target_id (b ∷ affinities) a h e = elim (Bool-cases (b.target_id == target_id)) [
    | inl t ↦ ground arith
    | inr t ↦ rw t (first_to-append target_id affinities a (rw t at h) e)
  ]

  -- After `set_affinity` the affinity to the target is the new one, whatever was there before.
  get_affinity_for_target-set_affinity :
      (source_id target_id : String) (strength : L) (reason : String) (expires_seconds : Option ℕ)
      (now : ℕ) (m : MultiDeviceManager L)
      → get_affinity_for_target source_id target_id
          (set_affinity source_id target_id strength reason expires_seconds now m)
        ≡ some (record {
          source_id = source_id;
          target_id = target_id;
          strength = strength;
          expires_at = Option.map (λ s. now + s) expires_seconds;
          reason = reason;
        })
  unfolding get_affinity_for_target set_affinity get_affinities
  get_affinity_for_target-set_affinity source_id target_id strength reason expires_seconds now m =
      ap (λ o. first_to target_id (or_default o [])) (get-put_same source_id _ m.affinities)
      ∙ first_to-append target_id (to_others target_id _) _ (first_to-to_others target_id _) refl

  shorter :
      (target_id : String) (affinities : List (DeviceAffinity L))
      → ltb (length (to_others target_id affinities)) (suc (length affinities)) ≡ true
  unfolding to_others
  shorter target_id affinities =
      ground (arith, length-keep_if-le (λ a. not (a.target_id == target_id)) affinities)

  to_others_shorter :
      (target_id : String) (affinities : List (DeviceAffinity L))
      → ltb (length (to_others target_id affinities)) (length affinities)
        ≡ is_some (first_to target_id affinities)
  unfolding first_to to_others keep_if
  to_others_shorter target_id [] = refl
  to_others_shorter target_id (a ∷ affinities) = elim (Bool-cases (a.target_id == target_id)) [
    | inl t ↦ rw t (shorter target_id affinities)
    | inr t ↦ rw t (ground (arith, to_others_shorter target_id affinities))
  ]

  remove_affinity_known :
      (source_id target_id : String) (m : MultiDeviceManager L) (before : List (DeviceAffinity L))
      → get source_id m.affinities ≡ some before
      → remove_affinity source_id target_id m ≡ (
        record m { affinities = put source_id (to_others target_id before) m.affinities },
        ltb (length (to_others target_id before)) (length before),
      )
  unfolding remove_affinity
  remove_affinity_known source_id target_id m before e = rw (e, remove_affinity) refl

  remove_affinity_unknown :
      (source_id target_id : String) (m : MultiDeviceManager L)
      → get source_id m.affinities ≡ none
      → remove_affinity source_id target_id m ≡ (m, false)
  unfolding remove_affinity
  remove_affinity_unknown source_id target_id m e = rw (e, remove_affinity) refl

  -- `remove_affinity` leaves no affinity from the source to the target, and answers whether there was
  -- one.
  remove_affinity_lem :
      (source_id target_id : String) (m : MultiDeviceManager L)
      → ((remove_affinity source_id target_id m).1
          ≡ is_some (get_affinity_for_target source_id target_id m))
        × (get_affinity_for_target source_id target_id (remove_affinity source_id target_id m).0
            ≡ none)
  unfolding get_affinity_for_target get_affinities first_to
  remove_affinity_lem source_id target_id m = elim (Option-cases (get source_id m.affinities)) [
    | inl e ↦ rw (remove_affinity_unknown source_id target_id m e) (rw e (refl, refl))
    | inr (before, e) ↦ rw (remove_affinity_known source_id target_id m before e) (
      rw e (to_others_shorter target_id before),
      ap (λ o. first_to target_id (or_default o [])) (get-put_same source_id _ m.affinities)
          ∙ first_to-to_others target_id before,
    )
  ]
