-- ===== src/MultiDevice/Clustering/Found.antt =====
-- multi_device/clustering.py: which devices the clusters by type have.
use oi_interface.Base.{
  String, Bool, true, false, List, [], ◌∷◌, ◌++◌, ◌==◌, ◌&&◌, ◌||◌, mem, mem-append, ◌≡◌, refl, ap,
  ◌∙◌, sym, arith, Bool-cases, inl, inr, is_empty, keep_if, is_empty_lem, IsDistinct, eq_of_test,
  fails_other_way,
}
use oi_interface.Dict.{Dict, get, put, pop, has, is_some, or_default, keys, mem-keys, get-put}
use oi_interface.MultiDevice.Clustering.{
  ClusterStrategy, append_to, group_from, without_unknown, keyed, group_by_type, clusters_of,
  cluster_by_type, find_cluster_for_device, by_type,
}

-- Some group has the device.
abbrev is_grouped : String → Dict (List String) → Bool
is_grouped d [] = false
is_grouped d ((k, ids) ∷ groups) = mem d ids || is_grouped d groups

is_grouped-append_to :
    (d x k : String) (groups : Dict (List String))
    → is_grouped d (append_to k x groups) ≡ (is_grouped d groups || d == x)
unfolding append_to put get mem
is_grouped-append_to d x k [] = ground arith
is_grouped-append_to d x k ((j, ids) ∷ groups) = elim (Bool-cases (k == j)) [
  | inl t ↦ rw (t, append_to, get, put) (rw (mem-append d ids (x ∷ [])) (ground arith))
  | inr t ↦
      let rest : is_grouped d (put k (or_default (get k groups) [] ++ x ∷ []) groups)
          ≡ (is_grouped d groups || d == x) =
        is_grouped-append_to d x k groups in
      let below : get k ((j, ids) ∷ groups) ≡ get k groups = rw (t, get) refl in
      ap (λ o. is_grouped d (put k (or_default o [] ++ x ∷ []) ((j, ids) ∷ groups))) below
      ∙ rw (t, put) (rw rest (ground arith))
]

is_grouped-group_from :
    (d : String) (groups : Dict (List String)) (devices : Dict String)
    → is_grouped d (group_from groups devices) ≡ (is_grouped d groups || has d devices)
unfolding group_from get
is_grouped-group_from d groups [] = ground arith
is_grouped-group_from d groups ((x, k) ∷ devices) =
    is_grouped-group_from d (append_to k x groups) devices
    ∙ rw (is_grouped-append_to d x k groups)
        elim (Bool-cases (d == x)) [ inl t ↦ rw t (ground arith) | inr t ↦ rw t (ground arith) ]

is_grouped-pop_absent :
    (d k : String) (groups : Dict (List String))
    → mem k (keys groups) ≡ false
    → is_grouped d (pop k groups) ≡ is_grouped d groups
unfolding pop mem
is_grouped-pop_absent d k [] h = refl
is_grouped-pop_absent d k ((j, ids) ∷ groups) h = elim (Bool-cases (k == j)) [
  | inl t ↦ elim (clash (rw t at h)) [ ]
  | inr t ↦ rw (t, pop) (ap (λ b. mem d ids || b) (is_grouped-pop_absent d k groups (rw t at h)))
]
  where
    clash : true ≡ false → ⊥
    clash h = cc

is_grouped-pop :
    (d k : String) (groups : Dict (List String))
    → IsDistinct (keys groups)
    → is_empty (or_default (get k groups) []) ≡ true
    → is_grouped d (pop k groups) ≡ is_grouped d groups
unfolding pop get mem
is_grouped-pop d k [] u h = refl
is_grouped-pop d k ((j, ids) ∷ groups) u h = elim (Bool-cases (k == j)) [
  | inl t ↦
      let absent : mem k (keys groups) ≡ false =
        ap (λ y. mem y (keys groups)) (eq_of_test k j t) ∙ u.0 in
      let no_ids : ids ≡ [] = is_empty_lem ids (rw t at h) in
      rw (t, pop)
        (is_grouped-pop_absent d k groups absent
          ∙ ap (λ i. mem d i || is_grouped d groups) (sym no_ids))
  | inr t ↦ rw (t, pop) (ap (λ b. mem d ids || b) (is_grouped-pop d k groups u.1 (rw t at h)))
]

put-IsDistinct :
    (k : String) (v : List String) (groups : Dict (List String))
    → IsDistinct (keys groups)
    → IsDistinct (keys (put k v groups))
unfolding put mem
put-IsDistinct k v [] u = (refl, u)
put-IsDistinct k v ((j, w) ∷ groups) u = elim (Bool-cases (k == j)) [
  | inl t ↦ rw (t, put) u
  | inr t ↦
      rw (t, put)
        (
          mem-keys j (put k v groups)
              ∙ ap is_some (get-put j k v groups)
              ∙ rw (fails_other_way k j t) (sym (mem-keys j groups) ∙ u.0),
          put-IsDistinct k v groups u.1,
        )
]

group_from-IsDistinct :
    (groups : Dict (List String)) (devices : Dict String)
    → IsDistinct (keys groups)
    → IsDistinct (keys (group_from groups devices))
unfolding group_from append_to
group_from-IsDistinct groups [] u = u
group_from-IsDistinct groups ((x, k) ∷ devices) u =
    group_from-IsDistinct (append_to k x groups) devices
      (put-IsDistinct k (or_default (get k groups) [] ++ x ∷ []) groups u)

is_grouped-without_unknown :
    (d : String) (groups : Dict (List String))
    → IsDistinct (keys groups)
    → is_grouped d (without_unknown groups) ≡ is_grouped d groups
is_grouped-without_unknown d groups u =
    elim (Bool-cases (is_empty (or_default (get "unknown" groups) []))) [
      | inl t ↦ rw t (is_grouped-pop d "unknown" groups u t)
      | inr t ↦ rw t refl
    ]

has-keyed :
    (d key : String) (devices : Dict (Dict String)) → has d (keyed key devices) ≡ has d devices
unfolding keyed get
has-keyed d key [] = refl
has-keyed d key ((x, info) ∷ devices) = elim (Bool-cases (d == x)) [
  | inl t ↦ rw (t, get) refl
  | inr t ↦ rw (t, get) (has-keyed d key devices)
]

mem-keep_if :
    (d : String) (devices ids : List String)
    → mem d (keep_if (λ x. mem x devices) ids) ≡ (mem d devices && mem d ids)
unfolding keep_if mem
mem-keep_if d devices [] = ground arith
mem-keep_if d devices (x ∷ ids) = elim (Bool-cases (mem x devices)) [
  | inl t ↦
      rw (t, keep_if)
        (rw (mem-keep_if d devices ids) (elim (Bool-cases (d == x)) [
          | inl b ↦
              let at : mem d devices ≡ true = ap (λ y. mem y devices) (eq_of_test d x b) ∙ t in
              rw (b, at) refl
          | inr b ↦ rw b refl
        ]))
  | inr t ↦
      rw (t, keep_if)
        (rw (mem-keep_if d devices ids) (elim (Bool-cases (d == x)) [
          | inl b ↦
              let at : mem d devices ≡ false = ap (λ y. mem y devices) (eq_of_test d x b) ∙ t in
              rw (b, at) refl
          | inr b ↦ rw b refl
        ]))
]

or_absent : (a b c : Bool) → (a && b) ≡ false → (a && c) ≡ (a && (b || c))
or_absent false b c h = refl
or_absent true false c h = refl
or_absent true true c h = cc

or_present : (a b c : Bool) → (a && b) ≡ true → true ≡ (a && (b || c))
or_present false b c h = cc
or_present true false c h = cc
or_present true true c h = refl

find-clusters_of :
    (id_prefix name_prefix : String) (s : ClusterStrategy) (devices : List String)
    (groups : Dict (List String)) (d : String)
    → is_some (find_cluster_for_device (clusters_of id_prefix name_prefix s devices groups) d)
      ≡ (mem d devices && is_grouped d groups)
unfolding find_cluster_for_device clusters_of mem
find-clusters_of i n s devices [] d = ground arith
find-clusters_of i n s devices ((k, ids) ∷ groups) d =
    elim (Bool-cases (is_empty (keep_if (λ x. mem x devices) ids))) [
      | inl t ↦
          rw (t, clusters_of)
            (find-clusters_of i n s devices groups d
              ∙ or_absent (mem d devices) (mem d ids) (is_grouped d groups) (
                  sym (mem-keep_if d devices ids)
                  ∙ ap (mem d) (is_empty_lem (keep_if (λ x. mem x devices) ids) t)))
      | inr t ↦ elim (Bool-cases (mem d (keep_if (λ x. mem x devices) ids))) [
        | inl b ↦
            rw (t, clusters_of)
              (rw (b, find_cluster_for_device)
                (or_present (mem d devices) (mem d ids) (is_grouped d groups)
                  (sym (mem-keep_if d devices ids) ∙ b)))
        | inr b ↦
            rw (t, clusters_of)
              (rw (b, find_cluster_for_device)
                (find-clusters_of i n s devices groups d
                  ∙ or_absent (mem d devices) (mem d ids) (is_grouped d groups)
                      (sym (mem-keep_if d devices ids) ∙ b)))
      ]
    ]

-- Clustering by type puts a device in a cluster exactly if it is one that is asked for and something is
-- known of it.
pub find-cluster_by_type :
    (devices : List String) (info : Dict (Dict String)) (d : String)
    → is_some (find_cluster_for_device (cluster_by_type devices info) d)
      ≡ (mem d devices && has d info)
unfolding cluster_by_type group_by_type get mem
find-cluster_by_type devices info d =
    find-clusters_of "type-" "Type: " by_type devices (group_by_type info) d
    ∙ ap (λ b. mem d devices && b)
        (is_grouped-without_unknown d (group_from start named)
            (group_from-IsDistinct start named (refl, tt))
          ∙ is_grouped-group_from d start named
          ∙ has-keyed d "device_type" info)
  where
    -- What `group_by_type` starts with, and the devices with their types.
    start : Dict (List String)
    start = ("unknown", []) ∷ []

    named : Dict String
    named = keyed "device_type" info
