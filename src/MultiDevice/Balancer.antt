-- ===== src/MultiDevice/Balancer.antt =====
-- multi_device/manager.py: `get_best_device_for_task`, with `select_device` of the load balancer that
-- the manager makes, which takes the least loaded device. `max_load` is its `max_load_threshold`.

use mathlib.Core.Path.{subst}
use mathlib.Core.Option
use oi_interface.MultiDevice.{
  Loads, DeviceAffinity, DeviceLoad, MultiDeviceManager, total_load, get_least_loaded_device,
}
use oi_interface.Base.{
  List, keep_if, Option, mem, ◌∷◌, none, String, All, ◌≡◌, some, Bool, false, Bool-cases,
  if◌then◌else◌, [], true, truthy, is_empty, inl, ◌&&◌, inr, arith, ap, refl, sym, ◌⊎◌, not,
  Option-cases, ◌==◌, ◌∙◌,
}
use mathlib.Core.Option.{some_inj}
use oi_interface.Sort.{irrefl}
use oi_interface.MultiDevice.Ranking.{IsLeastLoaded, get_least_loaded_device-IsLeastLoaded}
use oi_interface.Dict.{has, get, or_default}

module _ {L : Type 0} (f : Loads L) where
  -- `max(..., key=lambda affinity: affinity.strength)`: the first of the strongest.
  unfoldable pub stronger : DeviceAffinity L → List (DeviceAffinity L) → DeviceAffinity L
  stronger best [] = best
  stronger best (a ∷ rest) = stronger (if f.order.lt best.strength a.strength then a else best) rest

  unfoldable pub strongest : List (DeviceAffinity L) → Option (DeviceAffinity L)
  unfolding stronger
  strongest [] = none
  strongest (a ∷ rest) = some (stronger a rest)

  -- The affinities of the user to available devices.
  unfoldable pub user_affinities :
      Option String → List String → MultiDeviceManager L → List (DeviceAffinity L)
  unfolding keep_if
  user_affinities none available_devices m = []
  user_affinities (some user_id) available_devices m =
      if truthy user_id && has user_id m.affinities
      then keep_if (λ a. mem a.target_id available_devices)
          (or_default (get user_id m.affinities) [])
      else []

  -- `load is None or load.total_load < self._config.max_load_threshold`
  unfoldable pub has_room : L → Option (DeviceLoad L) → Bool
  has_room max_load none = true
  has_room max_load (some load) = f.order.lt (total_load f load) max_load

  unfoldable pub is_preferred : L → List String → Option String → MultiDeviceManager L → Bool
  unfolding has_room
  is_preferred max_load device_ids none m = false
  is_preferred max_load device_ids (some d) m =
      truthy d && mem d device_ids && has_room max_load (get d m.device_loads)

  unfoldable pub select_device :
      L → List String → Option String → MultiDeviceManager L → Option String
  unfolding is_preferred
  select_device max_load device_ids preferred m =
      if is_empty device_ids
      then none
      else if is_preferred max_load device_ids preferred m
      then preferred
      else get_least_loaded_device f device_ids max_load m

  unfoldable pub get_best_device_for_task :
      L → List String → Option String → MultiDeviceManager L → Option String
  unfolding select_device strongest user_affinities
  get_best_device_for_task max_load available_devices user_id m =
      let best = strongest (user_affinities user_id available_devices m) in
      select_device max_load available_devices (Option.map (λ a. a.target_id) best) m

  abbrev pub IsIn : DeviceAffinity L → List (DeviceAffinity L) → Type 0
  IsIn a [] = ⊥
  IsIn a (b ∷ bs) = (a ≡ b) ⊎ IsIn a bs

  -- An affinity that none of those given is stronger than.
  abbrev pub IsStrongest : DeviceAffinity L → List (DeviceAffinity L) → Type 0
  IsStrongest best = All (λ a. f.order.lt best.strength a.strength ≡ false)

  stronger_none : (best : DeviceAffinity L) → stronger best [] ≡ best
  unfolding stronger
  stronger_none best = refl

  stronger_next :
      (best a : DeviceAffinity L) (rest : List (DeviceAffinity L)) (b : Bool)
      → f.order.lt best.strength a.strength ≡ b
      → stronger best (a ∷ rest) ≡ stronger (if b then a else best) rest
  unfolding stronger
  stronger_next best a rest b e = ap (λ t. stronger (if t then a else best) rest) e

  stronger-le :
      (best : DeviceAffinity L) (others : List (DeviceAffinity L))
      → f.order.lt (stronger best others).strength best.strength ≡ false
  stronger-le best [] = rw (stronger_none best) (irrefl f.order best.strength)
  stronger-le best (a ∷ rest) = elim (Bool-cases (f.order.lt best.strength a.strength)) [
    | inl t ↦ rw (stronger_next best a rest true t) (
        f.order.le_trans best.strength a.strength (stronger a rest).strength (f.order.asym _ _ t)
          (stronger-le a rest))
    | inr t ↦ rw (stronger_next best a rest false t) (stronger-le best rest)
  ]

  stronger-IsStrongest :
      (best : DeviceAffinity L) (others : List (DeviceAffinity L))
      → IsStrongest (stronger best others) others
  stronger-IsStrongest best [] = tt
  stronger-IsStrongest best (a ∷ rest) = elim (Bool-cases (f.order.lt best.strength a.strength)) [
    | inl t ↦
        subst (λ b. IsStrongest b (a ∷ rest)) (sym (stronger_next best a rest true t))
          (stronger-le a rest, stronger-IsStrongest a rest)
    | inr t ↦
        subst (λ b. IsStrongest b (a ∷ rest)) (sym (stronger_next best a rest false t))
          (
            f.order.le_trans a.strength best.strength (stronger best rest).strength t
                (stronger-le best rest),
            stronger-IsStrongest best rest,
          )
  ]

  strongest-IsStrongest :
      (affinities : List (DeviceAffinity L)) (best : DeviceAffinity L)
      → strongest affinities ≡ some best
      → IsStrongest best affinities
  unfolding strongest
  strongest-IsStrongest [] best e = cc
  strongest-IsStrongest (a ∷ rest) best e =
      subst (λ b. IsStrongest b (a ∷ rest)) (some_inj.0 e)
        (stronger-le a rest, stronger-IsStrongest a rest)

  select_device-none :
      (max_load : L) (device_ids : List String) (preferred : Option String)
      (m : MultiDeviceManager L)
      → is_preferred max_load device_ids preferred m ≡ false
      → IsLeastLoaded f max_load m.device_loads device_ids
          (select_device max_load device_ids preferred m)
  unfolding select_device
  select_device-none max_load [] preferred m h = tt
  select_device-none max_load (d ∷ ds) preferred m h =
      rw h (get_least_loaded_device-IsLeastLoaded f max_load (d ∷ ds) m)

  mem_empty : (d : String) → mem d [] ≡ false
  unfolding mem
  mem_empty d = refl

  select_device_preferred :
      (max_load : L) (device_ids : List String) (d : String) (m : MultiDeviceManager L)
      → is_preferred max_load device_ids (some d) m ≡ true
      → select_device max_load device_ids (some d) m ≡ some d
  unfolding select_device is_preferred
  select_device_preferred max_load [] d m h = ground (arith, mem_empty d)
  select_device_preferred max_load (i ∷ ids) d m h = rw h refl

  -- The affinities of the user, if one is named.
  abbrev pub affinities_of : Option String → MultiDeviceManager L → List (DeviceAffinity L)
  affinities_of none m = []
  affinities_of (some user_id) m =
      if user_id == "" then [] else or_default (get user_id m.affinities) []

  -- An affinity of the user to an available device, than which no other such one is stronger.
  abbrev pub IsBest : List String → List (DeviceAffinity L) → DeviceAffinity L → Type 0
  IsBest ds affinities a =
      IsIn a affinities
      × (mem a.target_id ds ≡ true)
      × All (λ b. (if mem b.target_id ds then f.order.lt a.strength b.strength else false) ≡ false)
          affinities

  -- The device has a name, and its load, if one is known, is below the limit.
  abbrev pub is_free : L → MultiDeviceManager L → String → Bool
  is_free max_load m d =
      not (d == "")
      && elim (get d m.device_loads) [ none ↦ true | some l ↦ f.order.lt (total_load f l) max_load ]

  -- The device of a best affinity, being free; or, where there is no affinity to an available device or
  -- the device of a best one is not free, the least loaded device.
  abbrev pub IsChosen :
      L → List String → MultiDeviceManager L → List (DeviceAffinity L) → Option String → Type 0
  IsChosen max_load ds m affinities d =
      ((a : DeviceAffinity L) × IsBest ds affinities a
        × (is_free max_load m a.target_id ≡ true)
        × (d ≡ some a.target_id))
      ⊎ (IsLeastLoaded f max_load m.device_loads ds d
          × (All (λ b. mem b.target_id ds ≡ false) affinities
              ⊎ ((a : DeviceAffinity L) × IsBest ds affinities a
                  × (is_free max_load m a.target_id ≡ false))))

  user_affinities_lem :
      (user_id : Option String) (ds : List String) (m : MultiDeviceManager L)
      → user_affinities user_id ds m ≡ keep_if (λ a. mem a.target_id ds) (affinities_of user_id m)
  unfolding user_affinities keep_if
  user_affinities_lem none ds m = refl
  user_affinities_lem (some u) ds m = elim (Bool-cases (u == "")) [
    | inl t ↦ rw t refl
    | inr t ↦ elim (Option-cases (get u m.affinities)) [
      | inl e ↦ rw (t, e) refl
      | inr (xs, e) ↦ rw (t, e) refl
    ]
  ]

  clash : (a : DeviceAffinity L) → ¬ (some a ≡ none)
  clash a e = cc

  none_there :
      (ds : List String) (xs : List (DeviceAffinity L))
      → strongest (keep_if (λ a. mem a.target_id ds) xs) ≡ none
      → All (λ b. mem b.target_id ds ≡ false) xs
  unfolding strongest keep_if
  none_there ds [] e = tt
  none_there ds (a ∷ xs) e = elim (Bool-cases (mem a.target_id ds)) [
    | inl t ↦ absurd (clash _ (rw t at e))
    | inr t ↦ (t, none_there ds xs (rw t at e))
  ]

  kept-IsIn :
      (p : DeviceAffinity L → Bool) (a : DeviceAffinity L) (xs : List (DeviceAffinity L))
      → IsIn a (keep_if p xs)
      → IsIn a xs × (p a ≡ true)
  unfolding keep_if
  kept-IsIn p a [] h = absurd h
  kept-IsIn p a (b ∷ xs) h = elim (Bool-cases (p b)) [
    | inl t ↦ elim (rw t at h) [
      | inl e ↦ (inl e, ap p e ∙ t)
      | inr r ↦ let (there, passes) = kept-IsIn p a xs r in (inr there, passes)
    ]
    | inr t ↦ let (there, passes) = kept-IsIn p a xs (rw t at h) in (inr there, passes)
  ]

  All-of_kept :
      (p q : DeviceAffinity L → Bool) (xs : List (DeviceAffinity L))
      → All (λ b. q b ≡ false) (keep_if p xs)
      → All (λ b. (if p b then q b else false) ≡ false) xs
  unfolding keep_if
  All-of_kept p q [] h = tt
  All-of_kept p q (b ∷ xs) h = elim (Bool-cases (p b)) [
    | inl t ↦ let both = rw t at h in (rw t both.0, All-of_kept p q xs both.1)
    | inr t ↦ (rw t refl, All-of_kept p q xs (rw t at h))
  ]

  stronger-IsIn :
      (best : DeviceAffinity L) (others : List (DeviceAffinity L))
      → IsIn (stronger best others) (best ∷ others)
  stronger-IsIn best [] = inl (stronger_none best)
  stronger-IsIn best (a ∷ rest) = elim (Bool-cases (f.order.lt best.strength a.strength)) [
    | inl t ↦
        subst (λ b. IsIn b (best ∷ a ∷ rest)) (sym (stronger_next best a rest true t))
          (inr (stronger-IsIn a rest))
    | inr t ↦
        subst (λ b. IsIn b (best ∷ a ∷ rest)) (sym (stronger_next best a rest false t))
          (elim (stronger-IsIn best rest) [ inl e ↦ inl e | inr r ↦ inr (inr r) ])
  ]

  strongest-IsIn :
      (affinities : List (DeviceAffinity L)) (best : DeviceAffinity L)
      → strongest affinities ≡ some best
      → IsIn best affinities
  unfolding strongest
  strongest-IsIn [] best e = cc
  strongest-IsIn (a ∷ rest) best e =
      subst (λ b. IsIn b (a ∷ rest)) (some_inj.0 e) (stronger-IsIn a rest)

  strongest-IsBest :
      (ds : List String) (xs : List (DeviceAffinity L)) (best : DeviceAffinity L)
      → strongest (keep_if (λ a. mem a.target_id ds) xs) ≡ some best
      → IsBest ds xs best
  strongest-IsBest ds xs best e =
      let kept = keep_if (λ a. mem a.target_id ds) xs in
      let (there, available) =
        kept-IsIn (λ a. mem a.target_id ds) best xs (strongest-IsIn kept best e) in
      (
        there,
        available,
        All-of_kept (λ a. mem a.target_id ds) (λ b. f.order.lt best.strength b.strength) xs
            (strongest-IsStrongest kept best e),
      )

  is_preferred-is_free :
      (max_load : L) (ds : List String) (d : String) (m : MultiDeviceManager L)
      → mem d ds ≡ true
      → is_preferred max_load ds (some d) m ≡ is_free max_load m d
  unfolding is_preferred has_room
  is_preferred-is_free max_load ds d m h = elim (Option-cases (get d m.device_loads)) [
    | inl e ↦ rw (h, e, has_room) (ground arith)
    | inr (l, e) ↦ rw (h, e, has_room) (ground arith)
  ]

  select_device-IsChosen :
      (max_load : L) (ds : List String) (m : MultiDeviceManager L) (xs : List (DeviceAffinity L))
      (best : Option (DeviceAffinity L))
      → strongest (keep_if (λ a. mem a.target_id ds) xs) ≡ best
      → IsChosen max_load ds m xs (select_device max_load ds (Option.map (λ a. a.target_id) best) m)
  unfolding is_preferred
  select_device-IsChosen max_load ds m xs none e =
      inr (select_device-none max_load ds none m refl, inl (none_there ds xs e))
  select_device-IsChosen max_load ds m xs (some best) e =
      let is_best = strongest-IsBest ds xs best e in
      let same_test = is_preferred-is_free max_load ds best.target_id m is_best.1 in
      elim (Bool-cases (is_free max_load m best.target_id)) [
        | inl t ↦
            inl (
              best,
              is_best,
              t,
              select_device_preferred max_load ds best.target_id m (same_test ∙ t),
            )
        | inr t ↦ inr (
          select_device-none max_load ds (some best.target_id) m (same_test ∙ t),
          inr (best, is_best, t),
        )
      ]

  -- The choice is the device of an affinity of the user, which is available, has a name and a load below
  -- the limit or none, while no affinity of the user to an available device is stronger. Otherwise the user
  -- has no affinity to an available device, or there is such a strongest one whose device has too high a
  -- load or no name, and the choice is a device with the least load of those available that have room, and
  -- none if none of them has.
  pub get_best_device_for_task-IsChosen :
      (max_load : L) (available_devices : List String) (user_id : Option String)
      (m : MultiDeviceManager L)
      → IsChosen max_load available_devices m
          (affinities_of user_id m)
          (get_best_device_for_task max_load available_devices user_id m)
  unfolding get_best_device_for_task
  get_best_device_for_task-IsChosen max_load available_devices user_id m =
      rw (user_affinities_lem user_id available_devices m)
        (select_device-IsChosen max_load available_devices m (affinities_of user_id m) _ refl)
