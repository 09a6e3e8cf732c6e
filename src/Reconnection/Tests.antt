-- ===== src/Reconnection/Tests.antt =====
-- The reconnection manager on small histories, and its theorems at them.
use oi_interface.Reconnection.{
  ReconnectionManager, get_reconnect_count, restore_state, save_state, init, record_disconnect,
  get_disconnect_time, get_backoff_delay,
}
use oi_interface.Base.{
  List, ℕ, All, true, ◌≡◌, ◌∷◌, [], min, refl, some, ◌*◌, none, ◌+◌, ◌/◌, arith,
}
use oi_interface.Reconnection.Counting.{
  Call, run, disconnects, reconnects, count_all, time_all, run_lem, restore-save,
}
use oi_interface.Dict.{get}

abbrev start : ReconnectionManager ℕ
start = init 1000 60000 10 true

abbrev calls : List (Call ℕ)
calls = disconnects "desk" 5 ∷ disconnects "hall" 6 ∷ reconnects "desk" ∷ disconnects "desk" 9 ∷ []

desk_count : get_reconnect_count "desk" (run calls start) ≡ 2
unfolding get_reconnect_count get run oi_interface.Reconnection.Counting.step record_disconnect
    oi_interface.Dict.put oi_interface.Reconnection.record_reconnect init oi_interface.Base.same
desk_count = refl

run_lem_example :
    (get_reconnect_count "desk" (run calls start)
      ≡ count_all "desk" calls (get_reconnect_count "desk" start))
    × (get_disconnect_time "desk" (run calls start)
        ≡ time_all "desk" calls (get_disconnect_time "desk" start))
run_lem_example = run_lem "desk" calls start
