-- ===== src/Routing.antt =====
-- src/oi-gateway/src/routing/policy.py with the parts of routing/capabilities.py that it reads: which
-- devices a text goes to. Floats are a parameter. Not modelled: the text of `policy_reason`, the
-- lookup of a device type, and the profile taken for a capability record that cannot be parsed.
pub mod Choice
pub mod Connected
mod Tests
use oi_interface.Base.{
  Bool, ℕ, String, List, Option, if◌then◌else◌, ◌++◌, [], true, not, some, ltb, keep_if, ◌∷◌, false,
  ◌&&◌, truthy, ◌||◌, none, is_empty,
}
use oi_interface.Dict.{Dict, keys, get}

-- The floats of the policy: their order `<=`, 0.0, and `(word_count / 150) * 60` of a number of words.
pub record Seconds (T : Type 0) : Type 0 where
  pub le : T → T → Bool
  pub zero_seconds : T
  pub spoken : ℕ → T

-- The fields of `DeviceCapabilities` that routing reads.
pub record DeviceCapabilities (T : Type 0) : Type 0 where
  pub max_spoken_seconds : T
  pub is_foreground_device : Bool
  pub is_background_device : Bool

-- A request; `words` is the number of words of its text.
pub record RouteRequest : Type 0 where
  pub words : ℕ
  pub device_ids : Option (List String)
  pub single_device_id : Option String
  pub force_multiple : Bool

pub data RouteError : Type 0 where
  no_devices : RouteError
  not_found : String → RouteError
  no_suitable : RouteError
  none_can_handle : RouteError

pub record RouteResult (T : Type 0) : Type 0 where
  pub device_ids : List String
  pub estimated_duration : T
  pub is_long_response : Bool
  pub suitable_foreground : List String
  pub suitable_background : List String
  pub errors : List RouteError

unfoldable pub success : {T : Type 0} → RouteResult T → Bool
success r = not (is_empty r.device_ids) && is_empty r.errors

abbrev given : Option (List String) → List String
given none = []
given (some ids) = ids

abbrev single : Option String → List String
single none = []
single (some d) = if truthy d then d ∷ [] else []

unfoldable pub has_explicit_devices : RouteRequest → Bool
has_explicit_devices q = not (is_empty (given q.device_ids))

unfoldable pub get_all_device_ids : RouteRequest → List String
get_all_device_ids q =
    if not (is_empty (given q.device_ids)) then given q.device_ids else single q.single_device_id

-- The devices that are connected: `device_registry`, in its order, with the parsed capabilities.
abbrev pub Registry : Type 0 → Type 0
Registry T = Dict (DeviceCapabilities T)

abbrev long_response_word_threshold : ℕ
long_response_word_threshold = 100

unfoldable pub is_long_response : RouteRequest → Bool
is_long_response q = ltb long_response_word_threshold q.words

abbrev pub first_id : {T : Type 0} → Registry T → List String
first_id [] = []
first_id (d ∷ rest) = d.0 ∷ []

module _ {T : Type 0} (f : Seconds T) where
  -- `duration_seconds <= self.max_spoken_seconds`
  unfoldable pub can_speak_duration : DeviceCapabilities T → T → Bool
  can_speak_duration c duration_seconds = f.le duration_seconds c.max_spoken_seconds

  unfoldable pub estimate_duration : RouteRequest → T
  estimate_duration q = f.spoken q.words

  unfoldable pub is_suitable_for_short_response : DeviceCapabilities T → Bool
  is_suitable_for_short_response c = c.is_foreground_device

  -- `[d for d in devices if test(d.capabilities)]`
  unfoldable pub devices_with : (DeviceCapabilities T → Bool) → Registry T → Registry T
  devices_with test devices = keep_if (λ d. test d.1) devices

  -- The devices among `devices` that `can_speak_duration` of the text.
  unfoldable pub capable : RouteRequest → Registry T → Registry T
  unfolding devices_with
  capable q devices = devices_with (λ c. can_speak_duration c (estimate_duration q)) devices

  unfoldable pub route_short_response :
      RouteRequest → Registry T → Registry T → RouteResult T → RouteResult T
  route_short_response q foreground all_suitable result =
      let capable_foreground = capable q foreground in
      if not (is_empty capable_foreground)
      then record result { device_ids = first_id capable_foreground }
      else if not (is_empty all_suitable)
      then record result { device_ids = first_id all_suitable }
      else record result { errors = result.errors ++ no_suitable ∷ [] }

  unfoldable pub route_long_response :
      RouteRequest → Registry T → Registry T → Registry T → RouteResult T → RouteResult T
  route_long_response q all_devices foreground background result =
      let capable_foreground = capable q foreground in
      let capable_background = capable q background in
      let selected_ids = first_id capable_foreground ++ keys capable_background in
      let selected_ids =
        if is_empty selected_ids && not (is_empty capable_foreground)
        then keys capable_foreground
        else selected_ids in
      if not (is_empty selected_ids)
      then record result { device_ids = selected_ids }
      else let capable_any = capable q all_devices in
        if not (is_empty capable_any)
        then record result { device_ids = first_id capable_any }
        else record result { errors = result.errors ++ none_can_handle ∷ [] }

  -- The work for one id of `_evaluate_explicit`, given its entry in the registry.
  unfoldable pub checked : String → Option (DeviceCapabilities T) → RouteResult T → RouteResult T
  checked d none result = record result { errors = result.errors ++ not_found d ∷ [] }
  checked d (some c) result = record result {
    suitable_foreground =
        if c.is_foreground_device
        then result.suitable_foreground ++ d ∷ []
        else result.suitable_foreground;
    suitable_background =
        if c.is_background_device
        then result.suitable_background ++ d ∷ []
        else result.suitable_background;
  }

  -- The loop of `_evaluate_explicit` over the ids.
  unfoldable pub validate : Registry T → List String → RouteResult T → RouteResult T
  validate registry [] result = result
  validate registry (d ∷ ids) result = validate registry ids (checked d (get d registry) result)

  unfoldable pub evaluate_explicit : Registry T → RouteRequest → RouteResult T
  evaluate_explicit registry q =
      let result : RouteResult T = record {
        estimated_duration = estimate_duration q;
        device_ids = get_all_device_ids q;
        is_long_response = is_long_response q;
        suitable_foreground = [];
        suitable_background = [];
        errors = [];
      } in
      validate registry (get_all_device_ids q) result

  unfoldable pub evaluate_policy : Registry T → RouteRequest → RouteResult T
  evaluate_policy registry q =
      let foreground = devices_with (λ c. c.is_foreground_device) registry in
      let background = devices_with (λ c. c.is_background_device) registry in
      let all_suitable = devices_with is_suitable_for_short_response registry in
      let result : RouteResult T = record {
        device_ids = [];
        estimated_duration = estimate_duration q;
        is_long_response = is_long_response q;
        suitable_foreground = keys foreground;
        suitable_background = keys background;
        errors = [];
      } in
      if is_long_response q || q.force_multiple
      then route_long_response q registry foreground background result
      else route_short_response q foreground all_suitable result

  unfoldable pub evaluate : Registry T → RouteRequest → RouteResult T
  evaluate registry q =
      if has_explicit_devices q
      then evaluate_explicit registry q
      else if is_empty registry
      then record {
        device_ids = [];
        estimated_duration = f.zero_seconds;
        is_long_response = false;
        suitable_foreground = [];
        suitable_background = [];
        errors = no_devices ∷ [];
      }
      else evaluate_policy registry q
