-- ===== src/Routing/Choice.antt =====
-- routing/policy.py: which devices `evaluate` chooses.
use oi_interface.Routing.{
  RouteRequest, RouteResult, Registry, Seconds, devices_with, has_explicit_devices, first_id,
  is_long_response, evaluate, capable, success, evaluate_policy, route_short_response,
  is_suitable_for_short_response, DeviceCapabilities, route_long_response, validate, not_found,
  get_all_device_ids, evaluate_explicit, checked,
}
use oi_interface.Dict.{Dict, keys, has, get}
use oi_interface.Base.{
  List, keep_if, String, Bool, ◌≡◌, ◌++◌, ◌∷◌, true, false, ◌&&◌, arith, Bool-cases, [], inl, ◌||◌,
  refl, inr, if◌then◌else◌, not, sym, ap, ◌∙◌, map, append_nil, Option-cases, append_assoc, Option,
  some, none, is_empty,
}

map-is_empty : {V : Type 0} (d : Dict V) → is_empty (keys d) ≡ is_empty d
map-is_empty [] = refl
map-is_empty (e ∷ d) = refl

first_id-is_empty : {T : Type 0} (d : Registry T) → is_empty (first_id d) ≡ is_empty d
first_id-is_empty [] = refl
first_id-is_empty (e ∷ d) = refl

append-is_empty : (xs ys : List String) → is_empty (xs ++ ys) ≡ (is_empty xs && is_empty ys)
append-is_empty [] ys = ground arith
append-is_empty (x ∷ xs) ys = refl

keep_if_skip :
    {V : Type 0} (p : V → Bool) (e : V) (d : List V) → p e ≡ false → keep_if p (e ∷ d) ≡ keep_if p d
unfolding keep_if
keep_if_skip p e d t = rw t refl

-- A filter of a filter is empty where the outer filter alone is.
keep_if_twice :
    {V : Type 0} (p r : V → Bool) (d : List V)
    → is_empty (keep_if p d) ≡ true
    → is_empty (keep_if p (keep_if r d)) ≡ true
unfolding keep_if
keep_if_twice p r [] h = refl
keep_if_twice p r (e ∷ d) h = elim (Bool-cases (p e)) [
  | inl t ↦ ground arith
  | inr t ↦
      let smaller = keep_if_twice p r d (sym (ap is_empty (keep_if_skip p e d t)) ∙ h) in
      elim (Bool-cases (r e)) [ inl u ↦ rw (u, t) smaller | inr u ↦ rw u smaller ]
]

module _ {T : Type 0} (f : Seconds T) where
  abbrev pub foreground_of : Registry T → Registry T
  foreground_of registry = devices_with f (λ c. c.is_foreground_device) registry

  abbrev pub background_of : Registry T → Registry T
  background_of registry = devices_with f (λ c. c.is_background_device) registry

  capable_none :
      (q : RouteRequest) (d : Registry T) → is_empty d ≡ true → is_empty (capable f q d) ≡ true
  unfolding capable keep_if
  capable_none q [] h = refl
  capable_none q (e ∷ d) h = ground arith

  route_short_response_lem :
      (q : RouteRequest) (foreground : Registry T) (result : RouteResult T)
      → result.device_ids ≡ []
      → result.errors ≡ []
      → let r = route_short_response f q foreground foreground result in
        let able = capable f q foreground in
        (r.device_ids ≡ first_id (if is_empty able then foreground else able))
        × (success r ≡ not (is_empty foreground))
  unfolding success route_short_response
  route_short_response_lem q foreground result ids errors =
      elim (Bool-cases (is_empty (capable f q foreground))) [
        | inl t ↦ elim (Bool-cases (is_empty foreground)) [
          | inl u ↦ rw (t, u) (ground (arith, first_id-is_empty foreground))
          | inr u ↦ rw (t, u) (ground (arith, first_id-is_empty foreground))
        ]
        | inr t ↦
            rw t (
              ground (arith, first_id-is_empty (capable f q foreground), capable_none q foreground))
      ]

  -- A short response without explicit devices goes to one device: the first foreground device that can
  -- speak it, or else the first foreground device; it succeeds exactly if there is a foreground device.
  pub short_choice :
      (registry : Registry T) (q : RouteRequest)
      → has_explicit_devices q ≡ false
      → (is_long_response q || q.force_multiple) ≡ false
      → let r = evaluate f registry q in
        let able = capable f q (foreground_of registry) in
        (r.device_ids ≡ first_id (if is_empty able then foreground_of registry else able))
        × (success r ≡ not (is_empty (foreground_of registry)))
  unfolding success
  short_choice [] q e s = unfold evaluate success capable devices_with keep_if in rw e (refl, refl)
  short_choice (d ∷ registry) q e s =
      unfold evaluate evaluate_policy is_suitable_for_short_response in
      rw (e, s) (route_short_response_lem q (foreground_of (d ∷ registry)) _ refl refl)

  -- A device that can speak the text is among those of any registry that it is filtered from.
  capable_part :
      (q : RouteRequest) (test : DeviceCapabilities T → Bool) (d : Registry T)
      → is_empty (capable f q d) ≡ true
      → is_empty (capable f q (devices_with f test d)) ≡ true
  unfolding capable devices_with
  capable_part q test d h = keep_if_twice _ _ d h

  -- The devices that a long response goes to before the last resort: the first foreground device and
  -- all background devices among those that can speak it.
  abbrev pub preferred : RouteRequest → Registry T → List String
  preferred q registry =
      first_id (capable f q (foreground_of registry)) ++ keys (capable f q (background_of registry))

  preferred-is_empty :
      (q : RouteRequest) (registry : Registry T)
      → is_empty (preferred q registry) ≡ (
          is_empty (capable f q (foreground_of registry))
          && is_empty (capable f q (background_of registry)))
  preferred-is_empty q registry =
      append-is_empty (first_id (capable f q (foreground_of registry))) _
      ∙ ground (
        arith,
        first_id-is_empty (capable f q (foreground_of registry)),
        map-is_empty (capable f q (background_of registry)),
      )

  route_long_response_lem :
      (q : RouteRequest) (registry : Registry T) (result : RouteResult T)
      → result.device_ids ≡ []
      → result.errors ≡ []
      → let r =
          route_long_response f q registry
            (foreground_of registry)
            (background_of registry)
            result in
        (r.device_ids ≡ (
          if is_empty (preferred q registry)
          then first_id (capable f q registry)
          else preferred q registry))
        × (success r ≡ not (is_empty (capable f q registry)))
  unfolding success route_long_response
  route_long_response_lem q registry result ids errors = ground (
    arith,
    preferred-is_empty q registry,
    first_id-is_empty (capable f q registry),
    capable_part q (λ c. c.is_foreground_device) registry,
    capable_part q (λ c. c.is_background_device) registry,
  )

  -- A long response, or a forced one, without explicit devices goes to the first foreground device and
  -- all background devices among those that can speak it, or, if there are none, to the first device
  -- that can; it succeeds exactly if some device can speak it.
  pub long_choice :
      (registry : Registry T) (q : RouteRequest)
      → has_explicit_devices q ≡ false
      → (is_long_response q || q.force_multiple) ≡ true
      → let r = evaluate f registry q in
        (r.device_ids ≡ (
          if is_empty (preferred q registry)
          then first_id (capable f q registry)
          else preferred q registry))
        × (success r ≡ not (is_empty (capable f q registry)))
  unfolding success
  long_choice [] q e s = unfold evaluate success capable devices_with keep_if in rw e (refl, refl)
  long_choice (d ∷ registry) q e s =
      unfold evaluate evaluate_policy in
      rw (e, s) (route_long_response_lem q (d ∷ registry) _ refl refl)

  checked-device_ids :
      (d : String) (o : Option (DeviceCapabilities T)) (result : RouteResult T)
      → (checked f d o result).device_ids ≡ result.device_ids
  unfolding checked
  checked-device_ids d none result = refl
  checked-device_ids d (some c) result = refl

  checked-errors :
      (registry : Registry T) (d : String) (ids : List String) (result : RouteResult T)
      → (checked f d (get d registry) result).errors
          ++ map not_found (keep_if (λ d. not (has d registry)) ids)
        ≡ result.errors ++ map not_found (keep_if (λ d. not (has d registry)) (d ∷ ids))
  unfolding checked keep_if
  checked-errors registry d ids result = elim (Option-cases (get d registry)) [
    | inl e ↦ rw e (append_assoc result.errors (not_found d ∷ []) _)
    | inr (c, e) ↦ rw e refl
  ]

  validate_lem :
      (registry : Registry T) (ids : List String) (result : RouteResult T)
      → let r = validate f registry ids result in
        (r.device_ids ≡ result.device_ids)
        × (r.errors ≡ result.errors ++ map not_found (keep_if (λ d. not (has d registry)) ids))
  unfolding validate keep_if
  validate_lem registry [] result = (refl, sym (append_nil result.errors))
  validate_lem registry (d ∷ ids) result =
      let ih = validate_lem registry ids (checked f d (get d registry) result) in
      (
        ih.0 ∙ checked-device_ids d (get d registry) result,
        ih.1 ∙ checked-errors registry d ids result,
      )

  -- Explicit devices are taken as they are given, and each of them that is not connected is an error.
  pub explicit_choice :
      (registry : Registry T) (q : RouteRequest)
      → has_explicit_devices q ≡ true
      → ((evaluate f registry q).device_ids ≡ get_all_device_ids q)
        × ((evaluate f registry q).errors
            ≡ map not_found (keep_if (λ d. not (has d registry)) (get_all_device_ids q)))
  explicit_choice registry q e =
      unfold evaluate evaluate_explicit in rw e (validate_lem registry (get_all_device_ids q) _)
