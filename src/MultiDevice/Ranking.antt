-- ===== src/MultiDevice/Ranking.antt =====
-- multi_device/manager.py: the device with the least load.
use mathlib.Core.Option
use oi_interface.MultiDevice.{
  MultiDeviceManager, DeviceLoad, Loads, candidate, candidates, with_candidate, rank_device_loads,
  get_least_loaded_device, by_load,
}
use oi_interface.Dict.{Dict, get, is_some}
use oi_interface.Base.{
  String, Option, List, Bool, All, ◌≡◌, mem, true, some, false, not, ◌∷◌, none, arith, same_self,
  ap, [], refl, head?, ◌∙◌,
}
use oi_interface.Attention.State.{is_none}
use oi_interface.Sort.{Order, sort, All-of_sort, All-sort, sort-head_least}

with_candidate-All :
    {L : Type 0} (P : String × L → Type 0) (o : Option (String × L)) (rest : List (String × L))
    → ((c : String × L) → o ≡ some c → P c)
    → All P rest
    → All P (with_candidate o rest)
with_candidate-All P none rest h r = r
with_candidate-All P (some c) rest h r = (h c refl, r)

none_of : {A : Type 0} (cs : List A) → All (λ c. true ≡ false) cs → is_none (head? cs) ≡ true
none_of [] h = refl
none_of (c ∷ cs) h = cc

module _ {L : Type 0} (f : Loads L) (max_load : L) (loads : Dict (DeviceLoad L)) where
  -- The entry of a device, if it is eligible: with no load if none is known, else with its load if
  -- that is below the limit.
  abbrev pub entry : String → Option (String × L)
  entry d = candidate f max_load d (get d loads)

  abbrev pub not_lower : L → Option (String × L) → Bool
  not_lower l none = true
  not_lower l (some c) = not (f.order.lt c.1 l)

  -- No device is eligible; or the device is one of those given, is eligible, and none of those has a
  -- lower load.
  abbrev pub IsLeastLoaded : List String → Option String → Type 0
  IsLeastLoaded ds none = All (λ d. is_some (entry d) ≡ false) ds
  IsLeastLoaded ds (some d) =
      (mem d ds ≡ true)
      × ((l : L) × (entry d ≡ some (d, l)) × All (λ e. not_lower l (entry e) ≡ true) ds)

  first_not_lower :
      (l : L) (o : Option (String × L)) (rest : List (String × L))
      → All (λ c. f.order.lt c.1 l ≡ false) (with_candidate o rest)
      → (not_lower l o ≡ true) × All (λ c. f.order.lt c.1 l ≡ false) rest
  first_not_lower l none rest h = (refl, h)
  first_not_lower l (some c) rest h = (ap not h.0, h.1)

  first_none :
      (o : Option (String × L)) (rest : List (String × L))
      → is_none (head? (with_candidate o rest)) ≡ true
      → (is_some o ≡ false) × (is_none (head? rest) ≡ true)
  first_none none rest h = (refl, h)
  first_none (some c) rest h = ground arith

  candidate_named :
      (d : String) (o : Option (DeviceLoad L)) (c : String × L)
      → candidate f max_load d o ≡ some c
      → c.0 ≡ d
  unfolding candidate
  candidate_named d none c h = ground arith
  candidate_named d (some load) c h = ground arith

  candidates-All :
      (P : String × L → Type 0) (ds : List String)
      → ((d : String) (c : String × L) → mem d ds ≡ true → entry d ≡ some c → P c)
      → All P (candidates f ds loads max_load)
  unfolding candidates mem
  candidates-All P [] h = tt
  candidates-All P (d ∷ ds) h =
      with_candidate-All P (entry d) _ (λ c e. h d c (rw (same_self d) refl) e)
        (candidates-All P ds (λ i c m. h i c (ground arith)))

  candidates-not_lower :
      (l : L) (ds : List String)
      → All (λ c. f.order.lt c.1 l ≡ false) (candidates f ds loads max_load)
      → All (λ e. not_lower l (entry e) ≡ true) ds
  unfolding candidates
  candidates-not_lower l [] h = tt
  candidates-not_lower l (d ∷ ds) h =
      let (first, rest) = first_not_lower l (entry d) (candidates f ds loads max_load) h in
      (first, candidates-not_lower l ds rest)

  candidates_none :
      (ds : List String)
      → is_none (head? (candidates f ds loads max_load)) ≡ true
      → All (λ d. is_some (entry d) ≡ false) ds
  unfolding candidates
  candidates_none [] h = tt
  candidates_none (d ∷ ds) h =
      let (first, rest) = first_none (entry d) (candidates f ds loads max_load) h in
      (first, candidates_none ds rest)

  abbrev order_of : Order (String × L)
  order_of = by_load f

  IsEntry : List String → String × L → Type 0
  IsEntry ds c = (mem c.0 ds ≡ true) × (entry c.0 ≡ some c)

  candidates-IsEntry : (ds : List String) → All (IsEntry ds) (candidates f ds loads max_load)
  unfolding IsEntry
  candidates-IsEntry ds = candidates-All (IsEntry ds) ds (λ d c m e.
      let named = candidate_named d (get d loads) c e in
      (ap (λ i. mem i ds) named ∙ m, ap entry named ∙ e))

  chosen-IsLeastLoaded :
      (ds : List String) (ranked : List (String × L))
      → sort order_of (candidates f ds loads max_load) ≡ ranked
      → IsLeastLoaded ds (Option.map (λ c. c.0) (head? ranked))
  unfolding IsEntry
  chosen-IsLeastLoaded ds [] e = candidates_none ds (
      none_of (candidates f ds loads max_load)
        (All-of_sort order_of (λ c. true ≡ false) (candidates f ds loads max_load) (rw e tt)))
  chosen-IsLeastLoaded ds (c ∷ rest) e =
      let cs = candidates f ds loads max_load in
      let (here, known) = (rw e at (All-sort order_of (IsEntry ds) cs (candidates-IsEntry ds))).0 in
      (here, (c.1, known, candidates-not_lower c.1 ds (sort-head_least order_of cs c rest e)))

-- The device that is chosen is one of those given, is eligible, and none of those has a lower load; if
-- none is chosen, none of those is eligible.
pub get_least_loaded_device-IsLeastLoaded :
    {L : Type 0} (f : Loads L) (max_load : L) (ds : List String) (m : MultiDeviceManager L)
    → IsLeastLoaded f max_load m.device_loads ds (get_least_loaded_device f ds max_load m)
unfolding get_least_loaded_device rank_device_loads
get_least_loaded_device-IsLeastLoaded f max_load ds m =
    chosen-IsLeastLoaded f max_load m.device_loads ds _ refl
