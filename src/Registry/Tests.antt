-- ===== src/Registry/Tests.antt =====
-- The registry on a few calls, and its theorems there.
use oi_interface.Reconnection
use oi_interface.Registry.State.{Registry, DeviceInfo}
use oi_interface.Registry.Service.{Hello, device_registered, is_online, device_disconnected}
use oi_interface.Base.{List, mem, String, ◌==◌, IsDistinct, [], some, ◌≡◌, true, none, ◌∷◌, refl}
use oi_interface.Registry.Health.{
  run, IsConsistent, Call, step, registers, checks, disconnects, beats,
}
use oi_interface.Dict.{get, keys, or_default}
use oi_interface.Registry.Consistent.{run-IsConsistent}
use oi_interface.Registry.Resume.{or_else, device_registered-resumes}

abbrev empty : Registry String
empty = record {
  store = [];
  online = [];
  reconnection = Reconnection.init 1000 60000 10 true;
  heartbeats = [];
  unhealthy_devices = [];
  events = [];
}

abbrev hello : Hello String
hello = record {
  hello_type = "desk";
  hello_session = "first";
  hello_capabilities = [];
  hello_token = none;
  hello_nonce = none;
  hello_state = some (("mode", "READY") ∷ ("volume", "7") ∷ []);
}

abbrev hello_again : Hello String
hello_again = record hello { hello_session = "second"; hello_state = some (("mode", "MUTED") ∷ []) }

abbrev known : Registry String
known = device_registered ◌==◌ 0 "desk" hello empty

abbrev calls : List (Call String)
calls = registers 0 "desk" hello ∷ checks 40000 ∷ disconnects 50000 "desk" ∷ beats 60000 "desk" ∷ []

unhealthy_after :
    (run ◌==◌ (registers 0 "desk" hello ∷ checks 40000 ∷ []) empty).unhealthy_devices ≡ "desk" ∷ []
unfolding run step device_registered oi_interface.Registry.Heartbeat.check_health get mem
    oi_interface.Base.same
unhealthy_after = refl

empty-IsConsistent : IsConsistent empty
unfolding mem
empty-IsConsistent d m = cc

run-IsConsistent_example : IsConsistent (run ◌==◌ calls empty)
run-IsConsistent_example = run-IsConsistent ◌==◌ calls empty empty-IsConsistent

abbrev known_info : DeviceInfo String
known_info = record {
  device_id = "desk";
  device_type = "desk";
  session_id = "first";
  connected_at = 0;
  last_seen = 0;
  capabilities = [];
  resume_token = none;
  nonce = none;
  state = ("mode", "READY") ∷ ("volume", "7") ∷ [];
  audio_cache_bytes = 0;
  muted_until = none;
  character_pack_id = none;
  last_interaction = none;
  reconnect_count = 0;
  foreground_priority = 0;
  heartbeat_timeout = 30000;
  last_heartbeat = none;
  is_healthy = true;
}

known-is_online : is_online "desk" known ≡ true
unfolding device_registered get mem oi_interface.Base.same
known-is_online = refl

known_record : get "desk" known.store ≡ some known_info
unfolding device_registered get mem oi_interface.Base.same Reconnection.restore_state
    Reconnection.init
known_record = refl

one_key : IsDistinct (keys (or_default hello_again.hello_state []))
unfolding mem
one_key = (refl, tt)

device_registered-resumes_example :
    (back : DeviceInfo String) × (get "desk"
        (device_registered ◌==◌ 9 "desk" hello_again (device_disconnected 5 "desk" known)).store
      ≡ some back)
    × ((k : String)
        → get k back.state
          ≡ or_else (get k (or_default hello_again.hello_state [])) (get k known_info.state))
    × (back.character_pack_id ≡ none)
device_registered-resumes_example =
    device_registered-resumes ◌==◌ 5 9 "desk" hello_again known known_info known-is_online
      known_record refl one_key
