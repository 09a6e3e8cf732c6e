-- ===== src/MultiDevice/Groups.antt =====
-- multi_device/manager.py: the groups of devices.
use oi_interface.MultiDevice.{
  MultiDeviceManager, DeviceGroup, add_device, add_to_group, device_added, changed_group,
  remove_from_group, remove_device, device_removed,
}
use oi_interface.Base.{
  Option, String, List, [], ◌≡◌, some, ◌&&◌, none, not, mem, if◌then◌else◌, ◌++◌, ◌∷◌, ◌||◌, ◌==◌,
  Option-cases, inl, arith, inr, Bool-cases, ◌∙◌, Bool, ap, true, false, refl, eq_of_test,
  mem-append, IsDistinct, remove, mem-remove, sym,
}
use oi_interface.Dict.{get, has, Dict, put, get-put}

abbrev pub listed : Option DeviceGroup → List String
listed none = []
listed (some g) = g.device_ids

changed_members :
    (group_id k x : String) (groups : Dict DeviceGroup) (g : DeviceGroup)
    → mem x (listed (get k (put group_id g groups)))
      ≡ (if k == group_id then mem x g.device_ids else mem x (listed (get k groups)))
changed_members group_id k x groups g =
    ap (λ o. mem x (listed o)) (get-put k group_id g groups) ∙ split (k == group_id) (get k groups)
  where
    split :
        (b : Bool) (o : Option DeviceGroup)
        → mem x (listed (if b then some g else o))
          ≡ (if b then mem x g.device_ids else mem x (listed o))
    split true o = refl
    split false o = refl

-- The devices of a known group under a name that is its own.
devices_of :
    (group_id k : String) (groups : Dict DeviceGroup) (g : DeviceGroup)
    → get group_id groups ≡ some g
    → (k == group_id) ≡ true
    → listed (get k groups) ≡ g.device_ids
devices_of group_id k groups g e b =
    ap (λ i. listed (get i groups)) (eq_of_test k group_id b) ∙ ap listed e

grown :
    (group_id d k x : String) (groups : Dict DeviceGroup) (g : DeviceGroup)
    → get group_id groups ≡ some g
    → (if k == group_id then mem x (g.device_ids ++ d ∷ []) else mem x (listed (get k groups)))
      ≡ (mem x (listed (get k groups)) || (k == group_id && x == d && true))
unfolding mem
grown group_id d k x groups g e = elim (Bool-cases (k == group_id)) [
  | inl b ↦
      rw (b, devices_of group_id k groups g e b) (mem-append x g.device_ids (d ∷ []) ∙ ground arith)
  | inr b ↦ rw b (ground arith)
]

shrunk :
    (group_id d k x : String) (groups : Dict DeviceGroup) (g : DeviceGroup)
    → IsDistinct g.device_ids
    → get group_id groups ≡ some g
    → (if k == group_id then mem x (remove d g.device_ids) else mem x (listed (get k groups)))
      ≡ (mem x (listed (get k groups)) && not (k == group_id && x == d))
shrunk group_id d k x groups g u e = elim (Bool-cases (k == group_id)) [
  | inl b ↦
      rw (b, devices_of group_id k groups g e b) (mem-remove x d g.device_ids u ∙ ground arith)
  | inr b ↦ rw b (ground arith)
]

-- Where the device is not in the group, nothing is to be dropped.
absent :
    (group_id d k x : String) (groups : Dict DeviceGroup)
    → mem d (listed (get group_id groups)) ≡ false
    → mem x (listed (get k groups))
      ≡ (mem x (listed (get k groups)) && not (k == group_id && x == d))
absent group_id d k x groups t = ground (arith, eq_of_test k group_id, eq_of_test x d)

module _ {L : Type 0} where
  -- The devices of a group; none if the group is not known.
  abbrev pub members : String → MultiDeviceManager L → List String
  members group_id m = listed (get group_id m.groups)

  add_to_group_unknown :
      (group_id d : String) (m : MultiDeviceManager L)
      → get group_id m.groups ≡ none
      → add_to_group group_id d m ≡ (m, false)
  unfolding add_to_group
  add_to_group_unknown group_id d m e = rw (e, add_to_group) refl

  add_to_group_known :
      (group_id d : String) (m : MultiDeviceManager L) (g : DeviceGroup)
      → get group_id m.groups ≡ some g
      → add_to_group group_id d m
        ≡ changed_group group_id (device_added group_id d) (add_device d g) m
  unfolding add_to_group
  add_to_group_known group_id d m g e = rw (e, add_to_group) refl

  -- Adding to a group answers whether the group is known and the device is new there, emits an event
  -- exactly if so, and leaves all groups with the devices they had and with the new one.
  add_to_group_lem :
      (group_id d : String) (m : MultiDeviceManager L) (k x : String)
      → let (m', added) = add_to_group group_id d m in
        (added ≡ (has group_id m.groups && not (mem d (members group_id m))))
        × (m'.bus ≡ (if added then m.bus ++ device_added group_id d ∷ [] else m.bus))
        × (mem x (members k m')
            ≡ (mem x (members k m) || (k == group_id && x == d && has group_id m.groups)))
  unfolding add_device changed_group
  add_to_group_lem group_id d m k x = elim (Option-cases (get group_id m.groups)) [
    | inl e ↦ rw (add_to_group_unknown group_id d m e) (rw e (ground arith))
    | inr (g, e) ↦
        rw (add_to_group_known group_id d m g e) (elim (Bool-cases (mem d g.device_ids)) [
          | inl t ↦ rw e (rw t (ground arith))
          | inr t ↦ rw e (
              rw t (
                refl,
                refl,
                changed_members group_id k x m.groups
                      (record g { device_ids = g.device_ids ++ d ∷ [] })
                    ∙ grown group_id d k x m.groups g e,
              ))
        ])
  ]

  remove_from_group_unknown :
      (group_id d : String) (m : MultiDeviceManager L)
      → get group_id m.groups ≡ none
      → remove_from_group group_id d m ≡ (m, false)
  unfolding remove_from_group
  remove_from_group_unknown group_id d m e = rw (e, remove_from_group) refl

  remove_from_group_known :
      (group_id d : String) (m : MultiDeviceManager L) (g : DeviceGroup)
      → get group_id m.groups ≡ some g
      → remove_from_group group_id d m
        ≡ changed_group group_id (device_removed group_id d) (remove_device d g) m
  unfolding remove_from_group
  remove_from_group_known group_id d m g e = rw (e, remove_from_group) refl

  -- Removing from a group without repetitions answers whether the device was in it, emits an event
  -- exactly if so, and leaves all groups with the devices they had but this one.
  remove_from_group_lem :
      (group_id d : String) (m : MultiDeviceManager L) (k x : String)
      → IsDistinct (members group_id m)
      → let (m', gone) = remove_from_group group_id d m in
        (gone ≡ mem d (members group_id m))
        × (m'.bus ≡ (if gone then m.bus ++ device_removed group_id d ∷ [] else m.bus))
        × (mem x (members k m') ≡ (mem x (members k m) && not (k == group_id && x == d)))
  unfolding remove_device changed_group mem
  remove_from_group_lem group_id d m k x u = elim (Option-cases (get group_id m.groups)) [
    | inl e ↦
        rw (remove_from_group_unknown group_id d m e)
          (rw e refl, refl, absent group_id d k x m.groups (rw e refl))
    | inr (g, e) ↦
        rw (remove_from_group_known group_id d m g e) (elim (Bool-cases (mem d g.device_ids)) [
          | inl t ↦ rw t (
            rw e (sym t),
            refl,
            changed_members group_id k x m.groups (record g { device_ids = remove d g.device_ids })
                ∙ shrunk group_id d k x m.groups g (rw e at u) e,
          )
          | inr t ↦ rw t (rw e (sym t), refl, absent group_id d k x m.groups (rw e t))
        ])
  ]
