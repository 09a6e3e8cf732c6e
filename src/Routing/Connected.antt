-- ===== src/Routing/Connected.antt =====
-- routing/policy.py: a success goes to connected devices alone.
use oi_interface.Base.{
  String, keep_if, mem, List, Bool, All, ◌≡◌, true, map, ◌++◌, if◌then◌else◌, ◌∷◌, false,
  Bool-cases, arith, not, [], inl, inr, ◌||◌, ◌∙◌, ◌≢◌, sym, refl, ap, same_self, is_empty,
}
use oi_interface.Routing.{
  Seconds, Registry, devices_with, capable, RouteRequest, first_id, DeviceCapabilities,
  has_explicit_devices, not_found, evaluate, is_long_response, success, RouteResult,
  get_all_device_ids,
}
use oi_interface.Dict.{Dict, keys, has, mem-keys}
use oi_interface.Routing.Choice.{long_choice, preferred, short_choice, explicit_choice}

All-append : (P : String → Type 0) (xs ys : List String) → All P xs → All P ys → All P (xs ++ ys)
All-append P [] ys h k = k
All-append P (x ∷ xs) ys (a, h) k = (a, All-append P xs ys h k)

All-keep_if-keys :
    {V : Type 0} (P : String → Type 0) (p : String × V → Bool) (d : Dict V)
    → All P (keys d)
    → All P (keys (keep_if p d))
unfolding keep_if
All-keep_if-keys P p [] h = tt
All-keep_if-keys P p ((k, v) ∷ d) (a, h) = elim (Bool-cases (p (k, v))) [
  | inl t ↦ rw t (a, All-keep_if-keys P p d h)
  | inr t ↦ rw t (All-keep_if-keys P p d h)
]

All-first_id :
    {T : Type 0} (P : String → Type 0) (d : Registry T) → All P (keys d) → All P (first_id d)
All-first_id P [] h = tt
All-first_id P (e ∷ d) (a, h) = (a, tt)

All-if :
    (P : String → Type 0) (b : Bool) (xs ys : List String)
    → All P xs
    → All P ys
    → All P (if b then xs else ys)
All-if P true xs ys h k = h
All-if P false xs ys h k = k

All-if_dict :
    {T : Type 0} (P : String → Type 0) (b : Bool) (xs ys : Registry T)
    → All P (keys xs)
    → All P (keys ys)
    → All P (keys (if b then xs else ys))
All-if_dict P true xs ys h k = h
All-if_dict P false xs ys h k = k

-- Every member of the list is a member of it.
mem-All :
    (xs ys : List String)
    → ((x : String) → mem x xs ≡ true → mem x ys ≡ true)
    → All (λ x. mem x ys ≡ true) xs
unfolding mem
mem-All [] ys h = tt
mem-All (x ∷ xs) ys h = (h x (rw (same_self x) refl), mem-All xs ys (λ y m. h y (ground arith)))

success-errors : {T : Type 0} (r : RouteResult T) → success r ≡ true → is_empty r.errors ≡ true
unfolding success
success-errors r s = ground arith

module _ {T : Type 0} (f : Seconds T) (registry : Registry T) where
  -- All of the devices are connected.
  abbrev pub AreConnected : List String → Type 0
  AreConnected = All (λ d. mem d (keys registry) ≡ true)

  registry-AreConnected : AreConnected (keys registry)
  registry-AreConnected = mem-All (keys registry) (keys registry) (λ x m. m)

  devices_with-AreConnected :
      (test : DeviceCapabilities T → Bool) → AreConnected (keys (devices_with f test registry))
  unfolding devices_with
  devices_with-AreConnected test = All-keep_if-keys _ _ registry registry-AreConnected

  capable-AreConnected :
      (q : RouteRequest) (d : Registry T)
      → AreConnected (keys d)
      → AreConnected (keys (capable f q d))
  unfolding capable devices_with
  capable-AreConnected q d h = All-keep_if-keys _ _ d h

  abbrev missing : String → Bool
  missing d = not (has d registry)

  skipped :
      (d : String) (ids : List String)
      → has d registry ≡ true
      → keep_if missing (d ∷ ids) ≡ keep_if missing ids
  unfolding keep_if
  skipped d ids t = rw t refl

  some_missing :
      (d : String) (ids : List String)
      → has d registry ≡ false
      → is_empty (map not_found (keep_if missing (d ∷ ids))) ≢ true
  unfolding keep_if
  some_missing d ids t = rw t (λ h. cc)

  explicit-AreConnected :
      (ids : List String)
      → is_empty (map not_found (keep_if (λ d. not (has d registry)) ids)) ≡ true
      → AreConnected ids
  unfolding keep_if
  explicit-AreConnected [] h = tt
  explicit-AreConnected (d ∷ ids) h = elim (Bool-cases (has d registry)) [
    | inl t ↦ (
      mem-keys d registry ∙ t,
      explicit-AreConnected ids
          (sym (ap (λ xs. is_empty (map not_found xs)) (skipped d ids t)) ∙ h),
    )
    | inr t ↦ elim (some_missing d ids t h) [ ]
  ]

  chosen-AreConnected :
      (q : RouteRequest)
      → has_explicit_devices q ≡ false
      → AreConnected (evaluate f registry q).device_ids
  chosen-AreConnected q e = elim (Bool-cases (is_long_response q || q.force_multiple)) [
    | inl t ↦
        let foreground =
          capable-AreConnected q _ (devices_with-AreConnected (λ c. c.is_foreground_device)) in
        let background =
          capable-AreConnected q _ (devices_with-AreConnected (λ c. c.is_background_device)) in
        rw ((long_choice f registry q e t).0) (
          All-if _ (is_empty (preferred f q registry)) _ _
            (All-first_id _ _ (capable-AreConnected q _ registry-AreConnected))
            (All-append _ _ _ (All-first_id _ _ foreground) background))
    | inr t ↦
        let foreground = devices_with-AreConnected (λ c. c.is_foreground_device) in
        rw ((short_choice f registry q e t).0)
          (All-first_id _ _ (All-if_dict _ _ _ _ foreground (capable-AreConnected q _ foreground)))
  ]

  -- Whatever the request, the devices of a result that is a success are all connected.
  pub success-AreConnected :
      (q : RouteRequest)
      → success (evaluate f registry q) ≡ true
      → AreConnected (evaluate f registry q).device_ids
  success-AreConnected q s = elim (Bool-cases (has_explicit_devices q)) [
    | inl e ↦
        let (ids, errors) = explicit_choice f registry q e in
        let none_missing = sym (ap is_empty errors) ∙ success-errors (evaluate f registry q) s in
        rw ids (explicit-AreConnected (get_all_device_ids q) none_missing)
    | inr e ↦ chosen-AreConnected q e
  ]
