-- ===== src/MultiDevice.antt =====
-- src/oi-gateway/src/multi_device/manager.py: affinities, groups and the least loaded device. Floats
-- are the type `L` with the operations of `Loads`; the time is an argument; the event bus is the list
-- of the events emitted. Not modelled: weighted, affinity and random selection, the metadata of a
-- group, and the operations that only report.
pub mod Groups
pub mod Clustering
pub mod Affinity
pub mod Ranking
pub mod RoundRobin
pub mod Balancer
mod Tests
use oi_interface.Sort.{Order, sort}
use mathlib.Core.Option
use oi_interface.Base.{
  String, [], ◌++◌, List, Option, ℕ, Bool, ◌∷◌, keep_if, if◌then◌else◌, mem, not, none, some, true,
  remove, false, ◌==◌, ltb, length, ◌+◌, head?,
}
use oi_interface.Dict.{Dict, put, or_default, get, has, values, pop}

-- Floats: their order, which leaves NaN out, 0.0, and `(cpu + memory + network) / 3.0`.
pub record Loads (L : Type 0) : Type 0 where
  pub order : Order L
  pub no_load : L
  pub combined : L → L → L → L

pub record DeviceAffinity (L : Type 0) : Type 0 where
  pub source_id : String
  pub target_id : String
  pub strength : L
  pub expires_at : Option ℕ
  pub reason : String

pub record DeviceGroup : Type 0 where
  pub group_id : String
  pub name : String
  pub description : String
  pub device_ids : List String

pub record DeviceLoad (L : Type 0) : Type 0 where
  pub device_id : String
  pub active_operations : ℕ
  pub queued_operations : ℕ
  pub cpu_load : L
  pub memory_load : L
  pub network_load : L
  pub last_updated : ℕ

-- The events of the bus, by the `action` of those about a group.
pub data ManagerEvent (L : Type 0) : Type 0 where
  affinity_changed : String → String → L → String → ManagerEvent L
  group_created : String → String → Option (List String) → ManagerEvent L
  device_added : String → String → ManagerEvent L
  device_removed : String → String → ManagerEvent L
  group_deleted : String → ManagerEvent L

pub record MultiDeviceManager (L : Type 0) : Type 0 where
  pub affinities : Dict (List (DeviceAffinity L))
  pub groups : Dict DeviceGroup
  pub device_loads : Dict (DeviceLoad L)
  pub bus : List (ManagerEvent L)

unfoldable pub add_device : String → DeviceGroup → DeviceGroup × Bool
add_device d g =
    if not (mem d g.device_ids)
    then (record g { device_ids = g.device_ids ++ d ∷ [] }, true)
    else (g, false)

unfoldable pub remove_device : String → DeviceGroup → DeviceGroup × Bool
remove_device d g =
    if mem d g.device_ids
    then (record g { device_ids = remove d g.device_ids }, true)
    else (g, false)

module _ {L : Type 0} where
  unfoldable pub init : MultiDeviceManager L
  init = record { affinities = []; groups = []; device_loads = []; bus = [] }

  abbrev emit : ManagerEvent L → MultiDeviceManager L → MultiDeviceManager L
  emit e m = record m { bus = m.bus ++ e ∷ [] }

  unfoldable pub create_group :
      String → String → String → Option (List String) → MultiDeviceManager L → MultiDeviceManager L
  create_group group_id name description device_ids m =
      let group : DeviceGroup = record {
        group_id = group_id;
        name = name;
        description = description;
        device_ids = or_default device_ids [];
      } in
      emit (group_created group_id name device_ids)
        (record m { groups = put group_id group m.groups })

  -- A group changed through the reference that `_groups.get` returns, and the event if it changed.
  unfoldable pub changed_group :
      String
      → ManagerEvent L
      → DeviceGroup × Bool
      → MultiDeviceManager L
      → MultiDeviceManager L × Bool
  changed_group group_id e (group, changed) m =
      if changed
      then (emit e (record m { groups = put group_id group m.groups }), true)
      else (m, false)

  unfoldable pub add_to_group : String → String → MultiDeviceManager L → MultiDeviceManager L × Bool
  unfolding changed_group
  add_to_group group_id d m = elim (get group_id m.groups) [
    | none ↦ (m, false)
    | some g ↦ changed_group group_id (device_added group_id d) (add_device d g) m
  ]

  unfoldable pub remove_from_group :
      String → String → MultiDeviceManager L → MultiDeviceManager L × Bool
  unfolding changed_group
  remove_from_group group_id d m = elim (get group_id m.groups) [
    | none ↦ (m, false)
    | some g ↦ changed_group group_id (device_removed group_id d) (remove_device d g) m
  ]

  unfoldable pub delete_group : String → MultiDeviceManager L → MultiDeviceManager L × Bool
  delete_group group_id m =
      if has group_id m.groups
      then (emit (group_deleted group_id) (record m { groups = pop group_id m.groups }), true)
      else (m, false)

  unfoldable pub get_groups_for_device : String → MultiDeviceManager L → List DeviceGroup
  get_groups_for_device d m = keep_if (λ g. mem d g.device_ids) (values m.groups)

  -- `[a for a in affinities if a.target_id != target_id]`
  unfoldable pub to_others : String → List (DeviceAffinity L) → List (DeviceAffinity L)
  to_others target_id affinities = keep_if (λ a. not (a.target_id == target_id)) affinities

  unfoldable pub get_affinities : String → MultiDeviceManager L → List (DeviceAffinity L)
  get_affinities source_id m = or_default (get source_id m.affinities) []

  unfoldable pub set_affinity :
      String → String → L → String → Option ℕ → ℕ → MultiDeviceManager L → MultiDeviceManager L
  set_affinity source_id target_id strength reason expires_seconds now m =
      let affinity : DeviceAffinity L = record {
        source_id = source_id;
        target_id = target_id;
        strength = strength;
        expires_at = Option.map (λ s. now + s) expires_seconds;
        reason = reason;
      } in
      let others = to_others target_id (get_affinities source_id m) in
      emit (affinity_changed source_id target_id strength reason)
        (record m { affinities = put source_id (others ++ affinity ∷ []) m.affinities })

  -- The first affinity to the target.
  unfoldable pub first_to : String → List (DeviceAffinity L) → Option (DeviceAffinity L)
  first_to target_id [] = none
  first_to target_id (a ∷ affinities) =
      if a.target_id == target_id then some a else first_to target_id affinities

  unfoldable pub get_affinity_for_target :
      String → String → MultiDeviceManager L → Option (DeviceAffinity L)
  get_affinity_for_target source_id target_id m = first_to target_id (get_affinities source_id m)

  unfoldable pub remove_affinity :
      String → String → MultiDeviceManager L → MultiDeviceManager L × Bool
  remove_affinity source_id target_id m = elim (get source_id m.affinities) [
    | none ↦ (m, false)
    | some before ↦
        let after = to_others target_id before in
        (
          record m { affinities = put source_id after m.affinities },
          ltb (length after) (length before),
        )
  ]

  unfoldable pub update_device_load : DeviceLoad L → MultiDeviceManager L → MultiDeviceManager L
  update_device_load load m = record m { device_loads = put load.device_id load m.device_loads }

abbrev pub with_candidate :
    {L : Type 0} → Option (String × L) → List (String × L) → List (String × L)
with_candidate none rest = rest
with_candidate (some c) rest = c ∷ rest

module _ {L : Type 0} (f : Loads L) where
  unfoldable pub total_load : DeviceLoad L → L
  total_load load = f.combined load.cpu_load load.memory_load load.network_load

  -- The entry of a device in the list that `_rank_device_loads` sorts, if it is eligible.
  unfoldable pub candidate : L → String → Option (DeviceLoad L) → Option (String × L)
  candidate max_load d none = some (d, f.no_load)
  candidate max_load d (some load) =
      if f.order.lt (total_load load) max_load then some (d, total_load load) else none

  unfoldable pub candidates : List String → Dict (DeviceLoad L) → L → List (String × L)
  candidates [] loads max_load = []
  candidates (d ∷ ds) loads max_load =
      with_candidate (candidate max_load d (get d loads)) (candidates ds loads max_load)

  -- `key=lambda candidate: candidate[1]`
  abbrev pub by_load : Order (String × L)
  by_load = record {
    lt = λ a b. f.order.lt a.1 b.1;
    asym = λ a b. f.order.asym a.1 b.1;
    le_trans = λ a b c. f.order.le_trans a.1 b.1 c.1;
  }

  unfoldable pub rank_device_loads : List String → Dict (DeviceLoad L) → L → List (String × L)
  rank_device_loads ds loads max_load = sort by_load (candidates ds loads max_load)

  unfoldable pub get_least_loaded_device : List String → L → MultiDeviceManager L → Option String
  get_least_loaded_device ds max_load m =
      Option.map (λ c. c.0) (head? (rank_device_loads ds m.device_loads max_load))
