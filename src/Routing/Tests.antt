-- ===== src/Routing/Tests.antt =====
-- The routing policy at small registries, and its theorems at them.
-- Seconds as tenths: 0.4 s for a word.
use oi_interface.Routing.{
  Seconds, DeviceCapabilities, Registry, evaluate, RouteRequest, capable, get_all_device_ids,
  first_id, not_found, success,
}
use oi_interface.Base.{
  ℕ, leb, true, false, Option, none, some, ◌≡◌, ◌∷◌, ◌*◌, [], List, String, refl, keep_if,
}
use oi_interface.Routing.Connected.{AreConnected, success-AreConnected}

abbrev tenths : Seconds ℕ
tenths = record { le = leb; zero_seconds = 0; spoken = λ words. words * 4 }

abbrev watch : DeviceCapabilities ℕ
watch = record {
  max_spoken_seconds = 300;
  is_foreground_device = true;
  is_background_device = false;
}

abbrev dashboard : DeviceCapabilities ℕ
dashboard = record {
  max_spoken_seconds = 3000;
  is_foreground_device = false;
  is_background_device = true;
}

abbrev home : Registry ℕ
home = ("watch", watch) ∷ ("wall", dashboard) ∷ []

abbrev asks : ℕ → Option (List String) → RouteRequest
asks words device_ids = record {
  words = words;
  device_ids = device_ids;
  single_device_id = none;
  force_multiple = false;
}

short_routed : (evaluate tenths home (asks 5 none)).device_ids ≡ "watch" ∷ []
unfolding evaluate oi_interface.Routing.has_explicit_devices oi_interface.Routing.evaluate_policy
    oi_interface.Routing.is_long_response oi_interface.Routing.route_short_response capable keep_if
    oi_interface.Routing.can_speak_duration oi_interface.Routing.estimate_duration
short_routed = refl

long_routed : (evaluate tenths home (asks 150 none)).device_ids ≡ "wall" ∷ []
unfolding evaluate oi_interface.Routing.has_explicit_devices oi_interface.Routing.evaluate_policy
    oi_interface.Routing.is_long_response oi_interface.Routing.route_long_response capable keep_if
    oi_interface.Routing.can_speak_duration oi_interface.Routing.estimate_duration
long_routed = refl

abbrev to_two : RouteRequest
to_two = asks 5 (some ("wall" ∷ "desk" ∷ []))

success-AreConnected_example :
    AreConnected tenths home (evaluate tenths home (asks 5 none)).device_ids
unfolding success evaluate oi_interface.Routing.has_explicit_devices
    oi_interface.Routing.evaluate_policy oi_interface.Routing.is_long_response
    oi_interface.Routing.route_short_response capable keep_if
    oi_interface.Routing.can_speak_duration oi_interface.Routing.estimate_duration
success-AreConnected_example = success-AreConnected tenths home (asks 5 none) refl
