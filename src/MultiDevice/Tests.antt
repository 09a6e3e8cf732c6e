-- ===== src/MultiDevice/Tests.antt =====
-- The multi-device manager on small states, and its theorems at them.
use oi_interface.Sort.{Order}
use oi_interface.MultiDevice.{
  Loads, MultiDeviceManager, get_least_loaded_device, add_to_group, remove_from_group,
  get_affinity_for_target, remove_affinity, create_group, update_device_load, set_affinity,
  DeviceLoad, init, device_added, device_removed,
}
use oi_interface.Base.{
  ℕ, ltb, String, ◌≡◌, ◌+◌, ◌∷◌, arith, ◌/◌, some, [], mem, ◌&&◌, none, refl, not, if◌then◌else◌,
  ◌++◌, ◌||◌, ◌==◌, false, List, same, map, drop, ◌%◌, take,
}
use oi_interface.Dict.{has, is_some, mem-keys, get, or_default}
use oi_interface.MultiDevice.RoundRobin.{select_each, select_each-fair}
use oi_interface.MultiDevice.Balancer.{
  get_best_device_for_task, IsChosen, affinities_of, get_best_device_for_task-IsChosen,
}

abbrev lt_order : Order ℕ
lt_order = record { lt = ltb; asym = λ a b h. ground arith; le_trans = λ a b c h k. ground arith }

abbrev percents : Loads ℕ
percents = record { order = lt_order; no_load = 0; combined = λ a b c. (a + b + c) / 3 }

abbrev busy : ℕ → String → DeviceLoad ℕ
busy n d = record {
  device_id = d;
  active_operations = 1;
  queued_operations = 0;
  cpu_load = n;
  memory_load = n;
  network_load = n;
  last_updated = 0;
}

abbrev grouped : MultiDeviceManager ℕ
grouped = create_group "home" "Home" "" (some ("desk" ∷ "hall" ∷ [])) init

abbrev loaded : MultiDeviceManager ℕ
loaded = update_device_load (busy 40 "hall") (update_device_load (busy 70 "desk") grouped)

least_of_two : get_least_loaded_device percents ("desk" ∷ "hall" ∷ []) 90 loaded ≡ some "hall"
unfolding get_least_loaded_device oi_interface.MultiDevice.rank_device_loads oi_interface.Sort.sort
    oi_interface.MultiDevice.candidates oi_interface.MultiDevice.candidate oi_interface.Dict.get
    update_device_load oi_interface.Dict.put create_group init oi_interface.Base.same
    oi_interface.MultiDevice.total_load
least_of_two = refl

-- An order in which all texts are equal, and a key that all lists share.
abbrev no_order : Order String
no_order = record { lt = λ a b. false; asym = λ a b h. refl; le_trans = λ a b c h k. refl }

abbrev one_key : List String → String
one_key device_ids = "all"

abbrev three : List String
three = "desk" ∷ "hall" ∷ "bed" ∷ []

-- It is the turn of the second device.
hall_first :
    (select_each one_key no_order three ("a" ∷ "b" ∷ "c" ∷ []) (("all", 4) ∷ [])).0
    ≡ some "hall" ∷ some "bed" ∷ some "desk" ∷ []
unfolding select_each oi_interface.MultiDevice.RoundRobin.round_robin_select get same
    oi_interface.Dict.put
hall_first = refl

hall_turn : or_default (get "all" (("all", 4) ∷ [])) 0 % 3 ≡ 1
unfolding get same
hall_turn = refl

select_each-fair_example :
    (select_each one_key no_order three ("a" ∷ "b" ∷ "c" ∷ []) (("all", 4) ∷ [])).0
    ≡ map some (drop 1 three) ++ map some (take 1 three)
select_each-fair_example =
    select_each-fair one_key no_order three ("a" ∷ "b" ∷ "c" ∷ []) (("all", 4) ∷ []) 1 (omega arith)
      refl hall_turn

-- The user prefers the desk, which has room.
abbrev fond : MultiDeviceManager ℕ
fond = set_affinity "ann" "desk" 7 "near" none 5 (set_affinity "ann" "hall" 2 "" none 5 loaded)

abbrev two : List String
two = "desk" ∷ "hall" ∷ []

desk_for_ann : get_best_device_for_task percents 90 two (some "ann") fond ≡ some "desk"
unfolding get_best_device_for_task same get set_affinity oi_interface.Dict.put update_device_load
    create_group init oi_interface.MultiDevice.to_others oi_interface.MultiDevice.get_affinities mem
    oi_interface.MultiDevice.total_load
desk_for_ann = refl

get_best_device_for_task-IsChosen_example :
    IsChosen percents 90 two fond
      (affinities_of percents (some "ann") fond)
      (get_best_device_for_task percents 90 two (some "ann") fond)
get_best_device_for_task-IsChosen_example =
    get_best_device_for_task-IsChosen percents 90 two (some "ann") fond
