-- ===== src/MultiDevice/RoundRobin.antt =====
-- multi_device/manager.py: `LoadBalancer._round_robin_select`. `join` is the method of
-- `","`, and `names` the order of texts.
use native.Mathlib.Nat.{mod-add-mod, mod-mod, mod-eq_of_lt, mod-lt, mod_self, zero-mod}
use oi_interface.Base.{
  String, List, ℕ, Option, ◌<◌, ◌∷◌, length, head?, ◌%◌, map, [], drop, ◌≡◌, some, ◌+◌, take, ◌≤◌,
  ap, sym, take_none, ◌∙◌, arith, suc, drop_item, ltb, true, ◌-◌, refl, ◌++◌, length-take,
  length-drop, take-drop, take_all, drop_none,
}
use oi_interface.Dict.{Dict, or_default, get, put, get-put_same}
use oi_interface.Sort.{Order, sort}

module _ (join : List String → String) (names : Order String) where
  -- `",".join(sorted(device_ids))`
  abbrev pub group_key : List String → String
  group_key device_ids = join (sort names device_ids)

  -- `_round_robin_select`, for devices that are not none, as `select_device` tests.
  unfoldable pub round_robin_select : List String → Dict ℕ → Option String × Dict ℕ
  round_robin_select device_ids indexes =
      let index = or_default (get (group_key device_ids) indexes) 0 in
      (
        head? (drop (index % length device_ids) device_ids),
        put (group_key device_ids) ((index + 1) % length device_ids) indexes,
      )

  module _ (device_ids : List String) where
    -- The devices for operations that come one after another.
    unfoldable pub select_each : List String → Dict ℕ → List (Option String) × Dict ℕ
    select_each [] indexes = ([], indexes)
    select_each (operation ∷ operations) indexes =
        let selected = round_robin_select device_ids indexes in
        let rest = select_each operations selected.1 in (selected.0 ∷ rest.0, rest.1)

    next_index :
        (j : ℕ) (indexes : Dict ℕ)
        → or_default (get (group_key device_ids) indexes) 0 % length device_ids
          ≡ j % length device_ids
        → or_default (get (group_key device_ids) (round_robin_select device_ids indexes).1) 0
            % length device_ids
          ≡ (j + 1) % length device_ids
    unfolding round_robin_select
    next_index j indexes e =
        let index = or_default (get (group_key device_ids) indexes) 0 in
        ap (λ o. or_default o 0 % length device_ids)
          (get-put_same (group_key device_ids) ((index + 1) % length device_ids) indexes)
        ∙ mod-mod (index + 1) (length device_ids)
        ∙ sym (mod-add-mod index (length device_ids) 1)
        ∙ ap (λ a. (a + 1) % length device_ids) e
        ∙ mod-add-mod j (length device_ids) 1

    selected_at :
        (j : ℕ) (indexes : Dict ℕ)
        → or_default (get (group_key device_ids) indexes) 0 % length device_ids ≡ j
        → (round_robin_select device_ids indexes).0 ≡ head? (drop j device_ids)
    unfolding round_robin_select
    selected_at j indexes e = ap (λ i. head? (drop i device_ids)) e

    take_first :
        (m j : ℕ)
        → j < length device_ids
        → map some (take (suc m) (drop j device_ids))
          ≡ head? (drop j device_ids) ∷ map some (take m (drop (j + 1) device_ids))
    take_first m j h =
        let (x, e) = drop_item j device_ids (omega arith) in
        let more : ltb 0 (suc m) ≡ true = ground arith in
        let less : suc m - 1 ≡ m = omega arith in rw e (rw (more, less) refl)

    -- From the index `j`, the devices from there on.
    select_from :
        (operations : List String) (j : ℕ) (indexes : Dict ℕ)
        → or_default (get (group_key device_ids) indexes) 0 % length device_ids
          ≡ j % length device_ids
        → j + length operations ≤ length device_ids
        → ((select_each operations indexes).0
            ≡ map some (take (length operations) (drop j device_ids)))
          × (or_default (get (group_key device_ids) (select_each operations indexes).1) 0
                % length device_ids
              ≡ (j + length operations) % length device_ids)
    unfolding select_each
    select_from [] j indexes e h = (
      ap (map some) (sym (take_none (drop j device_ids))),
      e ∙ ap (λ n. n % length device_ids) (omega arith),
    )
    select_from (o ∷ operations) j indexes e h =
        let here = e ∙ mod-eq_of_lt (omega arith) in
        let later =
          select_from operations (j + 1) (round_robin_select device_ids indexes).1
            (next_index j indexes e) (omega arith) in
        (
          ap (λ r. (round_robin_select device_ids indexes).0 ∷ r) later.0
              ∙ ap (λ r. r ∷ map some (take (length operations) (drop (j + 1) device_ids)))
                  (selected_at j indexes here)
              ∙ sym (take_first (length operations) j (omega arith)),
          later.1 ∙ ap (λ n. n % length device_ids) (omega arith),
        )

    select_each-append :
        (xs ys : List String) (indexes : Dict ℕ)
        → (select_each (xs ++ ys) indexes).0
          ≡ (select_each xs indexes).0 ++ (select_each ys (select_each xs indexes).1).0
    unfolding select_each
    select_each-append [] ys indexes = refl
    select_each-append (x ∷ xs) ys indexes =
        ap (λ r. (round_robin_select device_ids indexes).0 ∷ r)
          (select_each-append xs ys (round_robin_select device_ids indexes).1)

    -- As many operations as there are devices: each device gets one of them, in the order of the list
    -- from the device whose turn it is, round to the one before it.
    pub select_each-fair :
        (operations : List String) (indexes : Dict ℕ) (turn : ℕ)
        → 0 < length device_ids
        → length operations ≡ length device_ids
        → or_default (get (group_key device_ids) indexes) 0 % length device_ids ≡ turn
        → (select_each operations indexes).0
          ≡ map some (drop turn device_ids) ++ map some (take turn device_ids)
    select_each-fair operations indexes turn some_device size e =
        let n = length device_ids in
        let below : turn < n = rw⁻¹ e (mod-lt _ some_device) in
        let first = take (n - turn) operations in
        let second = drop (n - turn) operations in
        let first_size : length first ≡ n - turn =
          omega (arith, length-take (n - turn) operations) in
        let second_size : length second ≡ turn = omega (arith, length-drop (n - turn) operations) in
        let a = select_from first turn indexes (e ∙ sym (mod-eq_of_lt below)) (omega arith) in
        let round : (turn + length first) % n ≡ 0 % n =
          ap (λ m. m % n) (omega arith) ∙ mod_self n ∙ sym (zero-mod n) in
        let b = select_from second 0 (select_each first indexes).1 (a.1 ∙ round) (omega arith) in
        ap (λ r. (select_each r indexes).0) (sym (take-drop (n - turn) operations))
        ∙ select_each-append first second indexes
        ∙ ap (λ r. r ++ (select_each second (select_each first indexes).1).0)
            (a.0
              ∙ ap (map some) (
                  take_all (length first) (drop turn device_ids)
                    (omega (arith, length-drop turn device_ids))))
        ∙ ap (λ r. map some (drop turn device_ids) ++ r)
            (b.0
              ∙ ap (λ r. map some (take (length second) r)) (drop_none device_ids)
              ∙ ap (λ m. map some (take m device_ids)) second_size)
