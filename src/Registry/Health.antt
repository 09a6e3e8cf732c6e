-- ===== src/Registry/Health.antt =====
-- registry/heartbeat.py and registry/service.py: who is unhealthy, after any calls.
use mathlib.Core.Option
use oi_interface.Base.{
  ℕ, Bool, Option, List, String, mem, ◌∷◌, true, ◌≡◌, arith, keep_if, some, ◌∙◌, [], not, false,
  ◌==◌, ap, none, ◌&&◌, Bool-cases, eq_of_test, ◌||◌, refl, inl, same_self, sym, inr, ◌++◌, ltb,
  mem-append, ◌-◌,
}
use oi_interface.Registry.Heartbeat.{
  discard, mark_healthy, check_health, note_heartbeat, mark_unhealthy, remove_device, check_each,
  timeout_of,
}
use oi_interface.Registry.State.{
  Registry, DeviceInfo, update_device, update_last_interaction, set_character_pack, emit,
  get_device,
}
use oi_interface.Registry.Service.{
  Hello, device_registered, device_disconnected, device_state_update, record_heartbeat,
  set_foreground_device, mark_online,
}
use oi_interface.Dict.{Dict, has, get, get-update, update, get-pop, get-put, pop}

-- What the gateway calls, with the time.
pub data Call (S : Type 0) : Type 0 where
  registers : ℕ → String → Hello S → Call S
  disconnects : ℕ → String → Call S
  reports : ℕ → String → Dict S → Call S
  beats : ℕ → String → Call S
  checks : ℕ → Call S
  interacts : ℕ → String → Call S
  foregrounds : String → Call S
  packs : String → Option String → Call S
  marks_online : String → Call S

pub mem-discard :
    (x d : String) (xs : List String) → mem x (discard d xs) ≡ (not (d == x) && mem x xs)
unfolding discard mem keep_if
mem-discard x d [] = ground arith
mem-discard x d (y ∷ ys) = ground (arith, mem-discard x d ys)

-- `==` reads the same both ways.
pub same_sym : (a b : String) → (a == b) ≡ (b == a)
same_sym a b = ground (arith, eq_of_test a b, eq_of_test b a, same_self a, same_self b)

mem-last : (x y : String) (xs : List String) → mem x (xs ++ y ∷ []) ≡ (mem x xs || x == y)
unfolding mem
mem-last x y xs = ground (arith, mem-append x xs (y ∷ []))

module _ {S : Type 0} where
  unfoldable pub step : (S → S → Bool) → Call S → Registry S → Registry S
  step same_value (registers now d hello) r = device_registered same_value now d hello r
  step same_value (disconnects now d) r = device_disconnected now d r
  step same_value (reports now d state) r = device_state_update now d state r
  step same_value (beats now d) r = record_heartbeat now d r
  step same_value (checks now) r = check_health now r
  step same_value (interacts now d) r = update_last_interaction now d r
  step same_value (foregrounds d) r = (set_foreground_device d r).0
  step same_value (packs d pack) r = (set_character_pack d pack r).0
  step same_value (marks_online d) r = mark_online d r

  unfoldable pub run : (S → S → Bool) → List (Call S) → Registry S → Registry S
  run same_value [] r = r
  run same_value (c ∷ calls) r = run same_value calls (step same_value c r)

  -- The record says that the device is not healthy, if there is a record.
  abbrev pub is_marked : Option (DeviceInfo S) → Bool
  is_marked none = true
  is_marked (some info) = not info.is_healthy

  -- An unhealthy device is tracked no longer, and its record says so.
  abbrev pub AreMarked : List String → Dict ℕ → Dict (DeviceInfo S) → Type 0
  AreMarked unhealthy heartbeats store =
      (d : String)
      → mem d unhealthy ≡ true
      → (has d heartbeats ≡ false) × (is_marked (get d store) ≡ true)

  abbrev pub IsConsistent : Registry S → Type 0
  IsConsistent r = AreMarked r.unhealthy_devices r.heartbeats r.store

  is_marked-map :
      (f : DeviceInfo S → DeviceInfo S) (o : Option (DeviceInfo S))
      → ((info : DeviceInfo S) → (f info).is_healthy ≡ info.is_healthy)
      → is_marked (Option.map f o) ≡ is_marked o
  is_marked-map f none h = refl
  is_marked-map f (some info) h = ap not (h info)

  is_marked-update :
      (j k : String) (f : DeviceInfo S → DeviceInfo S) (store : Dict (DeviceInfo S))
      → ((info : DeviceInfo S) → (f info).is_healthy ≡ info.is_healthy)
      → is_marked (get j (update k f store)) ≡ is_marked (get j store)
  is_marked-update j k f store h =
      ap is_marked (get-update j k f store) ∙ elim (Bool-cases (j == k)) [
        | inl t ↦ rw t (
            is_marked-map f (get k store) h
            ∙ ap (λ x. is_marked (get x store)) (sym (eq_of_test j k t)))
        | inr t ↦ rw t refl
      ]

  pub update_device-IsConsistent :
      (d : String) (f : DeviceInfo S → DeviceInfo S) (r : Registry S)
      → ((info : DeviceInfo S) → (f info).is_healthy ≡ info.is_healthy)
      → IsConsistent r
      → IsConsistent (update_device d f r)
  unfolding update_device
  update_device-IsConsistent d f r h c j m =
      ((c j m).0, is_marked-update j d f r.store h ∙ (c j m).1)

  -- The same for the devices but one.
  abbrev pub IsConsistentBut : String → Registry S → Type 0
  IsConsistentBut k r =
      (d : String)
      → (k == d) ≡ false
      → mem d r.unhealthy_devices ≡ true
      → (has d r.heartbeats ≡ false) × (is_marked (get d r.store) ≡ true)

  pub note_heartbeat-IsConsistent :
      (now : ℕ) (d : String) (r : Registry S)
      → IsConsistentBut d r
      → IsConsistent (note_heartbeat now d r)
  unfolding note_heartbeat mark_healthy update_device
  note_heartbeat-IsConsistent now d r c = elim (Bool-cases (mem d r.unhealthy_devices)) [
    | inl t ↦ rw t (λ j m. ground (
      arith,
      c j,
      mem-discard j d r.unhealthy_devices,
      get-put j d now r.heartbeats,
      get-update j d (λ info. record info { is_healthy = true }) r.store,
      same_sym j d,
    ))
    | inr t ↦
        rw t
          (λ j m. ground (arith, c j, get-put j d now r.heartbeats, same_sym j d, eq_of_test j d))
  ]

  is_marked_all :
      (f : DeviceInfo S → DeviceInfo S) (o : Option (DeviceInfo S))
      → ((info : DeviceInfo S) → (f info).is_healthy ≡ false)
      → is_marked (Option.map f o) ≡ true
  is_marked_all f none h = refl
  is_marked_all f (some info) h = ap not (h info)

  is_marked-unmarked :
      (j d : String) (last : Option ℕ) (store : Dict (DeviceInfo S))
      → is_marked (
          get j
            (update d (λ info. record info { is_healthy = false; last_heartbeat = last }) store))
        ≡ (j == d || is_marked (get j store))
  is_marked-unmarked j d last store =
      ap is_marked
        (get-update j d (λ info. record info { is_healthy = false; last_heartbeat = last }) store)
      ∙ elim (Bool-cases (j == d)) [
        | inl t ↦ rw t (
            is_marked_all (λ info. record info { is_healthy = false; last_heartbeat = last })
              (get d store) (λ info. refl))
        | inr t ↦ rw t refl
      ]

  mark_unhealthy-IsConsistent :
      (d : String) (r : Registry S) → IsConsistent r → IsConsistent (mark_unhealthy d r)
  unfolding mark_unhealthy update_device emit
  mark_unhealthy-IsConsistent d r c = elim (Bool-cases (mem d r.unhealthy_devices)) [
    | inl t ↦ rw t c
    | inr t ↦ rw t (λ j m. ground (
      arith,
      c j,
      mem-last j d r.unhealthy_devices,
      get-pop j d r.heartbeats,
      is_marked-unmarked j d (get d (pop d r.heartbeats)) r.store,
    ))
  ]

  pub remove_device-IsConsistent :
      (d : String) (r : Registry S) → IsConsistent r → IsConsistent (remove_device d r)
  unfolding remove_device
  remove_device-IsConsistent d r c j m =
      ground (arith, c j, mem-discard j d r.unhealthy_devices, get-pop j d r.heartbeats)

  pub check_each-IsConsistent :
      (now : ℕ) (beats : Dict ℕ) (r : Registry S)
      → IsConsistent r
      → IsConsistent (check_each now beats r)
  unfolding check_each
  check_each-IsConsistent now [] r c = c
  check_each-IsConsistent now ((d, last) ∷ rest) r c =
      check_each-IsConsistent now rest _
        (elim (Bool-cases
          (ltb (timeout_of (get_device d r)) (now - last) && not (mem d r.unhealthy_devices))) [
            | inl t ↦ rw t (mark_unhealthy-IsConsistent d r c)
            | inr t ↦ rw t c
          ])
