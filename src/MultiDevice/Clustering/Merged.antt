-- ===== src/MultiDevice/Clustering/Merged.antt =====
-- multi_device/clustering.py: what is in groups and in merged clusters.
use oi_interface.Base.{
  String, Bool, true, false, List, [], ◌∷◌, ◌++◌, Option, none, some, ◌==◌, ◌&&◌, ◌||◌, not, mem,
  mem-append, ◌≡◌, refl, ap, ◌∙◌, sym, arith, Bool-cases, inl, inr, IsDistinct, is_empty,
  eq_of_test, same_self, is_empty_lem,
}
use oi_interface.Dict.{Dict, get, put, pop, or_default, get-put, get-pop}
use oi_interface.MultiDevice.Clustering.{
  DeviceCluster, ClusterStrategy, append_to, group_from, without_unknown, keyed, group_by_type,
  collect, unique_from, merge_clusters, custom,
}

abbrev group_of : String → Dict (List String) → List String
group_of k groups = or_default (get k groups) []

-- A device of that name has that key.
abbrev is_keyed : String → String → Dict String → Bool
is_keyed d k [] = false
is_keyed d k ((x, key) ∷ devices) = (d == x && k == key) || is_keyed d k devices

mem-append_to :
    (d x k key : String) (groups : Dict (List String))
    → mem d (group_of k (append_to key x groups))
      ≡ (mem d (group_of k groups) || (d == x && k == key))
unfolding append_to mem
mem-append_to d x k key groups = elim (Bool-cases (k == key)) [
  | inl t ↦
      let own : group_of k (put key (group_of key groups ++ x ∷ []) groups)
          ≡ group_of key groups ++ x ∷ [] =
        (let at : get k (put key (group_of key groups ++ x ∷ []) groups)
              ≡ some (group_of key groups ++ x ∷ []) =
            get-put k key (group_of key groups ++ x ∷ []) groups ∙ rw t refl in
          ap (λ o. or_default o []) at) in
      rw (own, eq_of_test k key t, mem-append d (group_of key groups) (x ∷ []), same_self key)
        (ground arith)
  | inr t ↦
      let others : group_of k (put key (group_of key groups ++ x ∷ []) groups) ≡ group_of k groups =
        (let at : get k (put key (group_of key groups ++ x ∷ []) groups) ≡ get k groups =
            get-put k key (group_of key groups ++ x ∷ []) groups ∙ rw t refl in
          ap (λ o. or_default o []) at) in
      rw (others, t) (ground arith)
]

mem-group_from :
    (d k : String) (groups : Dict (List String)) (devices : Dict String)
    → mem d (group_of k (group_from groups devices))
      ≡ (mem d (group_of k groups) || is_keyed d k devices)
unfolding group_from
mem-group_from d k groups [] = ground arith
mem-group_from d k groups ((x, key) ∷ devices) =
    mem-group_from d k (append_to key x groups) devices
    ∙ rw (mem-append_to d x k key groups) (ground arith)

mem-without_unknown :
    (d k : String) (groups : Dict (List String))
    → mem d (group_of k (without_unknown groups)) ≡ mem d (group_of k groups)
unfolding mem
mem-without_unknown d k groups = elim (Bool-cases (is_empty (group_of "unknown" groups))) [
  | inl t ↦ elim (Bool-cases (k == "unknown")) [
    | inl u ↦
        let gone : group_of k (pop "unknown" groups) ≡ [] =
          (let at : get k (pop "unknown" groups) ≡ none = get-pop k "unknown" groups ∙ rw u refl in
            ap (λ o. or_default o []) at) in
        let none_there : group_of k groups ≡ [] =
          ap (λ j. group_of j groups) (eq_of_test k "unknown" u)
          ∙ is_empty_lem (group_of "unknown" groups) t in
        rw (t, gone, none_there) refl
    | inr u ↦
        let at : get k (pop "unknown" groups) ≡ get k groups =
          get-pop k "unknown" groups ∙ rw u refl in
        rw t (ap (λ o. mem d (or_default o [])) at)
  ]
  | inr t ↦ rw t refl
]

-- The groups by type are a partition: a device is in the group of a type exactly if that is its type,
-- which is "unknown" where none is given.
mem-group_by_type :
    (d k : String) (devices : Dict (Dict String))
    → mem d (group_of k (group_by_type devices)) ≡ is_keyed d k (keyed "device_type" devices)
unfolding group_by_type mem get
mem-group_by_type d k devices =
    mem-without_unknown d k (group_from (("unknown", []) ∷ []) (keyed "device_type" devices))
    ∙ mem-group_from d k (("unknown", []) ∷ []) (keyed "device_type" devices)
    ∙ elim (Bool-cases (k == "unknown")) [ inl t ↦ rw t refl | inr t ↦ rw t refl ]

-- A device of one of the clusters that are named.
abbrev pub is_listed : String → List DeviceCluster → List String → Bool
is_listed d [] ids = false
is_listed d (c ∷ clusters) ids =
    (mem c.cluster_id ids && mem d c.device_ids) || is_listed d clusters ids

mem-collect :
    (d : String) (clusters : List DeviceCluster) (ids devices : List String) (s : ClusterStrategy)
    → mem d (collect clusters ids (devices, s)).0 ≡ (mem d devices || is_listed d clusters ids)
unfolding collect
mem-collect d [] ids devices s = ground arith
mem-collect d (c ∷ clusters) ids devices s = elim (Bool-cases (mem c.cluster_id ids)) [
  | inl t ↦
      rw (collect, t)
        (mem-collect d clusters ids (devices ++ c.device_ids) c.strategy
          ∙ rw (mem-append d devices c.device_ids) (ground arith))
  | inr t ↦ rw (collect, t) (mem-collect d clusters ids devices s ∙ ground arith)
]

mem-unique_from :
    (d : String) (seen devices : List String)
    → mem d (unique_from seen devices) ≡ (mem d devices && not (mem d seen))
unfolding unique_from mem
mem-unique_from d seen [] = ground arith
mem-unique_from d seen (x ∷ devices) = elim (Bool-cases (mem x seen)) [
  | inl t ↦
      rw (t, unique_from)
        (mem-unique_from d seen devices ∙ elim (Bool-cases (d == x)) [
          | inl b ↦
              let at : mem d seen ≡ true = ap (λ y. mem y seen) (eq_of_test d x b) ∙ t in
              rw (b, at) (ground arith)
          | inr b ↦ rw b refl
        ])
  | inr t ↦
      rw (t, unique_from)
        (rw (mem-unique_from d (x ∷ seen) devices) (elim (Bool-cases (d == x)) [
          | inl b ↦
              let at : mem d seen ≡ false = ap (λ y. mem y seen) (eq_of_test d x b) ∙ t in
              rw (b, at) refl
          | inr b ↦ rw b refl
        ]))
]

unique_from-IsDistinct : (seen devices : List String) → IsDistinct (unique_from seen devices)
unfolding unique_from mem
unique_from-IsDistinct seen [] = tt
unique_from-IsDistinct seen (x ∷ devices) = elim (Bool-cases (mem x seen)) [
  | inl t ↦ rw (t, unique_from) (unique_from-IsDistinct seen devices)
  | inr t ↦
      rw (t, unique_from)
        (
          mem-unique_from x (x ∷ seen) devices ∙ rw (same_self x) (ground arith),
          unique_from-IsDistinct (x ∷ seen) devices,
        )
]

-- What merging gives: nothing if no cluster that is named has a device, and otherwise one cluster of that
-- name, with each of their devices once and no other.
abbrev pub IsMerged : List DeviceCluster → List String → String → Option DeviceCluster → Type 0
IsMerged clusters ids new_name none = (d : String) → is_listed d clusters ids ≡ false
IsMerged clusters ids new_name (some c) =
    (c.name ≡ new_name)
    × IsDistinct c.device_ids
    × ((d : String) → mem d c.device_ids ≡ is_listed d clusters ids)

-- Merging clusters gives none if no cluster that is named has a device. Otherwise it gives a cluster of the
-- new name, with the devices of the clusters that are named, each once, and no other.
pub merge_clusters-IsMerged :
    (digest : List String → String) (clusters : List DeviceCluster) (ids : List String)
    (new_name : String)
    → IsMerged clusters ids new_name (merge_clusters digest clusters ids new_name)
unfolding merge_clusters mem
merge_clusters-IsMerged digest clusters ids new_name =
    elim (Bool-cases (is_empty (collect clusters ids ([], custom)).0)) [
      | inl t ↦ rw t (λ d.
          sym (mem-collect d clusters ids [] custom)
          ∙ ap (mem d) (is_empty_lem (collect clusters ids ([], custom)).0 t))
      | inr t ↦ rw t (
        refl,
        unique_from-IsDistinct [] (collect clusters ids ([], custom)).0,
        λ d.
            mem-unique_from d [] (collect clusters ids ([], custom)).0
            ∙ rw (mem-collect d clusters ids [] custom) (ground arith),
      )
    ]
