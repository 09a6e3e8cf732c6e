-- ===== src/MultiDevice/Clustering.antt =====
-- multi_device/clustering.py: groups and clusters of devices. The hash of Python, the text of a value, and
-- floats are parameters; types, locations and capabilities are those of the values that are there.
pub mod Found
pub mod Merged
mod Tests
use Prim.Native.String.{◌++◌ as ◌<>◌}
use oi_interface.Base.{
  String, Bool, true, false, List, [], ◌∷◌, ◌++◌, Option, none, some, if◌then◌else◌, mem, remove,
  not, is_empty, keep_if,
}
use oi_interface.Dict.{Dict, get, put, pop, or_default}
use oi_interface.Json.{Json, null}

pub data ClusterStrategy : Type 0 where
  by_capability by_location by_type custom weighted : ClusterStrategy

pub record DeviceCluster : Type 0 where
  pub cluster_id : String
  pub name : String
  pub strategy : ClusterStrategy
  pub device_ids : List String

unfoldable pub add_member : String → DeviceCluster → DeviceCluster
add_member d c =
    if not (mem d c.device_ids) then record c { device_ids = c.device_ids ++ d ∷ [] } else c

unfoldable pub remove_member : String → DeviceCluster → DeviceCluster × Bool
remove_member d c =
    if mem d c.device_ids
    then (record c { device_ids = remove d c.device_ids }, true)
    else (c, false)

abbrev pub has_device : String → DeviceCluster → Bool
has_device d c = mem d c.device_ids

-- `if key not in groups: groups[key] = []`, then `groups[key].append(device_id)`
unfoldable pub append_to : String → String → Dict (List String) → Dict (List String)
append_to key d groups = put key (or_default (get key groups) [] ++ d ∷ []) groups

-- The loop over the devices with the key of each.
unfoldable pub group_from : Dict (List String) → Dict String → Dict (List String)
group_from groups [] = groups
group_from groups ((d, key) ∷ devices) = group_from (append_to key d groups) devices

-- `if not groups["unknown"]: del groups["unknown"]`
abbrev pub without_unknown : Dict (List String) → Dict (List String)
without_unknown groups =
    if is_empty (or_default (get "unknown" groups) []) then pop "unknown" groups else groups

-- `info.get(key, "unknown")` for the devices, whose value there is a text.
unfoldable pub keyed : String → Dict (Dict String) → Dict String
keyed key [] = []
keyed key ((d, info) ∷ devices) = (d, or_default (get key info) "unknown") ∷ keyed key devices

unfoldable pub group_by_location : Dict (Dict String) → String → Dict (List String)
group_by_location devices location_key =
    without_unknown (group_from (("unknown", []) ∷ []) (keyed location_key devices))

unfoldable pub group_by_type : Dict (Dict String) → Dict (List String)
group_by_type devices =
    without_unknown (group_from (("unknown", []) ∷ []) (keyed "device_type" devices))

module _ (str : Json → String) where
  abbrev capability_key : Option Json → String
  capability_key none = "none"
  capability_key (some null) = "none"
  capability_key (some v) = str v

  unfoldable pub capability_keys : String → Dict (Dict Json) → Dict String
  capability_keys required [] = []
  capability_keys required ((d, caps) ∷ devices) =
      (d, capability_key (get required caps)) ∷ capability_keys required devices

  unfoldable pub group_by_capability : Dict (Dict Json) → String → Dict (List String)
  group_by_capability devices required = group_from [] (capability_keys required devices)

-- `[d for d in device_ids if d in devices]`, and the cluster unless it is empty.
unfoldable pub clusters_of :
    (id_prefix name_prefix : String)
    → ClusterStrategy
    → List String
    → Dict (List String)
    → List DeviceCluster
clusters_of id_prefix name_prefix strategy devices [] = []
clusters_of id_prefix name_prefix strategy devices ((key, ids) ∷ groups) =
    let rest = clusters_of id_prefix name_prefix strategy devices groups in
    let kept = keep_if (λ d. mem d devices) ids in
    if is_empty kept
    then rest
    else record {
      cluster_id = id_prefix <> key;
      name = name_prefix <> key;
      strategy = strategy;
      device_ids = kept;
    }
      ∷ rest

-- `cluster_devices` by type and by location, and its default.
unfoldable pub cluster_by_type : List String → Dict (Dict String) → List DeviceCluster
cluster_by_type devices info = clusters_of "type-" "Type: " by_type devices (group_by_type info)

unfoldable pub cluster_by_location : List String → Dict (Dict String) → List DeviceCluster
cluster_by_location devices info =
    clusters_of "loc-" "Location: " by_location devices (group_by_location info "location")

unfoldable pub cluster_all : ClusterStrategy → List String → List DeviceCluster
cluster_all strategy devices =
    record { cluster_id = "all"; name = "All Devices"; strategy = strategy; device_ids = devices }
    ∷ []

unfoldable pub find_cluster_for_device : List DeviceCluster → String → Option DeviceCluster
find_cluster_for_device [] d = none
find_cluster_for_device (c ∷ clusters) d =
    if has_device d c then some c else find_cluster_for_device clusters d

-- The devices of the clusters that are named, and the strategy of the last of them.
unfoldable pub collect :
    List DeviceCluster → List String → List String × ClusterStrategy → List String × ClusterStrategy
collect [] ids (devices, strategy) = (devices, strategy)
collect (c ∷ clusters) ids (devices, strategy) =
    collect clusters ids
      (if mem c.cluster_id ids then (devices ++ c.device_ids, c.strategy) else (devices, strategy))

-- The loop with `seen`, which has the devices that are in the result.
unfoldable pub unique_from : List String → List String → List String
unique_from seen [] = []
unique_from seen (d ∷ devices) = elim (mem d seen) [
  | true ↦ unique_from seen devices
  | false ↦ d ∷ unique_from (d ∷ seen) devices
]

module _ (digest : List String → String) where
  -- `digest` is `hash(str(cluster_ids)) % 10000` as a text.
  unfoldable pub merge_clusters : List DeviceCluster → List String → String → Option DeviceCluster
  merge_clusters clusters ids new_name =
      let (devices, strategy) = collect clusters ids ([], custom) in
      if is_empty devices
      then none
      else some (record {
        cluster_id = "merged-" <> digest ids;
        name = new_name;
        strategy = strategy;
        device_ids = unique_from [] devices;
      })
