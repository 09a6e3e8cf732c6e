-- ===== src/MultiDevice/Clustering/Tests.antt =====
-- Grouping and merging on a few devices, and the theorems there.
use oi_interface.Base.{
  String, Bool, true, false, List, [], ◌∷◌, Option, none, some, ◌≡◌, refl, mem, ◌&&◌,
}
use oi_interface.Dict.{Dict, get, is_some, has}
use oi_interface.MultiDevice.Clustering.{
  DeviceCluster, group_by_type, keyed, merge_clusters, cluster_by_type, find_cluster_for_device,
  by_type,
}
use oi_interface.MultiDevice.Clustering.Merged.{IsMerged, merge_clusters-IsMerged}
use oi_interface.MultiDevice.Clustering.Found.{find-cluster_by_type}

abbrev house : Dict (Dict String)
house =
    ("desk", ("device_type", "speaker") ∷ [])
    ∷ ("hall", [])
    ∷ ("bed", ("device_type", "speaker") ∷ ("location", "upstairs") ∷ [])
    ∷ []

groups_of_house :
    group_by_type house ≡ ("unknown", "hall" ∷ []) ∷ ("speaker", "desk" ∷ "bed" ∷ []) ∷ []
unfolding group_by_type get oi_interface.MultiDevice.Clustering.group_from keyed
    oi_interface.MultiDevice.Clustering.append_to oi_interface.Dict.put oi_interface.Base.same
groups_of_house = refl

bed_is_found :
    find_cluster_for_device (cluster_by_type ("desk" ∷ "bed" ∷ []) house) "bed"
    ≡ some (record {
      cluster_id = "type-speaker";
      name = "Type: speaker";
      strategy = by_type;
      device_ids = "desk" ∷ "bed" ∷ [];
    })
unfolding find_cluster_for_device cluster_by_type oi_interface.MultiDevice.Clustering.clusters_of
    group_by_type get oi_interface.MultiDevice.Clustering.group_from keyed
    oi_interface.MultiDevice.Clustering.append_to oi_interface.Dict.put oi_interface.Base.same
    oi_interface.Base.keep_if mem
bed_is_found = refl

find-cluster_by_type_example :
    is_some (find_cluster_for_device (cluster_by_type ("desk" ∷ "bed" ∷ []) house) "bed")
    ≡ (mem "bed" ("desk" ∷ "bed" ∷ []) && has "bed" house)
find-cluster_by_type_example = find-cluster_by_type ("desk" ∷ "bed" ∷ []) house "bed"

abbrev cluster : String → List String → DeviceCluster
cluster id devices = record { cluster_id = id; name = id; strategy = by_type; device_ids = devices }

abbrev two_clusters : List DeviceCluster
two_clusters =
    cluster "a" ("desk" ∷ "bed" ∷ [])
    ∷ cluster "b" ("hall" ∷ "desk" ∷ [])
    ∷ cluster "c" ("car" ∷ [])
    ∷ []

abbrev digest : List String → String
digest ids = "7"

merged :
    merge_clusters digest two_clusters ("b" ∷ "a" ∷ []) "all"
    ≡ some (record {
      cluster_id = "merged-7";
      name = "all";
      strategy = by_type;
      device_ids = "desk" ∷ "bed" ∷ "hall" ∷ [];
    })
unfolding merge_clusters oi_interface.MultiDevice.Clustering.collect mem oi_interface.Base.same
    oi_interface.MultiDevice.Clustering.unique_from
merged = refl

merge_clusters-IsMerged_example :
    IsMerged two_clusters
      ("b" ∷ "a" ∷ [])
      "all"
      (merge_clusters digest two_clusters ("b" ∷ "a" ∷ []) "all")
merge_clusters-IsMerged_example = merge_clusters-IsMerged digest two_clusters ("b" ∷ "a" ∷ []) "all"
