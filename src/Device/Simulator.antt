-- ===== src/Device/Simulator.antt =====
-- src/oi-clients/oi-sim/src/sim/state.py: the state machine of the virtual device.
pub mod Legal
use oi_interface.Device.State.{
  State, Op, Args, among, response_cached, pairing, error, show_status, ready, safe_mode, show_card,
  ◌is◌, offline, booting, playing, recording, show_delta, muted, thinking, put_begin, uploading,
  put_chunk, put_end, audio_play, audio_stop, mute_until, set_brightness, set_volume, set_led,
  reboot, shutdown, stateless, unknown,
}
use oi_interface.Base.{
  List, Option, none, if◌then◌else◌, same, String, ◌++◌, Bool, false, not, ◌==◌, true, ◌∷◌, ℕ, ◌+◌,
  [], ◌||◌,
}
use oi_interface.Dict.{or_default}

-- `_TRANSITIONS`
unfoldable pub transitions : State → List State
transitions booting = pairing ∷ ready ∷ offline ∷ []
transitions pairing = ready ∷ error ∷ []
transitions ready = recording ∷ thinking ∷ muted ∷ offline ∷ booting ∷ []
transitions recording = uploading ∷ ready ∷ []
transitions uploading = thinking ∷ []
transitions thinking = response_cached ∷ ready ∷ error ∷ []
transitions response_cached = playing ∷ ready ∷ thinking ∷ []
transitions playing = response_cached ∷ ready ∷ []
transitions muted = ready ∷ offline ∷ []
transitions offline = ready ∷ error ∷ []
transitions error = safe_mode ∷ ready ∷ []
transitions safe_mode = booting ∷ []

-- `_ANY_STATE`
abbrev pub any_state : List State
any_state = error ∷ safe_mode ∷ booting ∷ []

unfoldable pub valid_destinations : State → List State
unfolding transitions
valid_destinations s = transitions s ++ any_state

-- `StateMachine`
pub record StateMachine : Type 0 where
  pub state : State
  pub display_state : Option String
  pub display_label : Option String
  pub muted_until : Option String
  pub caching : Bool
  pub cache_chunk_count : ℕ
  pub volume : ℕ
  pub led_enabled : Bool
  pub brightness : ℕ

unfoldable pub init : State → StateMachine
init s = record {
  state = s;
  display_state = none;
  display_label = none;
  muted_until = none;
  caching = false;
  cache_chunk_count = 0;
  volume = 80;
  led_enabled = true;
  brightness = 100;
}

-- What a method leaves: the state that it returns, or the `InvalidTransition` that it raises.
pub data Outcome : Type 0 where
  ok : State → Outcome
  invalid : State → State → Outcome

unfoldable pub transition : State → StateMachine → StateMachine × Outcome
unfolding valid_destinations among
transition new m =
    if not (among new (valid_destinations m.state))
    then (m, invalid m.state new)
    else (record m { state = new }, ok new)

unfoldable pub transition_if_allowed : State → StateMachine → StateMachine × Outcome
transition_if_allowed new m =
    if among new (valid_destinations m.state) then transition new m else (m, ok m.state)

-- The operator that an op's name stands for, in the order of the tests of `receive_command`.
unfoldable pub decode : String → Op
decode op =
    if op == "display.show_status"
    then show_status
    else if op == "display.show_card"
    then show_card
    else if op == "display.show_response_delta" || op == "display.show_text_delta"
    then show_delta
    else if op == "audio.cache.put_begin"
    then put_begin
    else if op == "audio.cache.put_chunk"
    then put_chunk
    else if op == "audio.cache.put_end"
    then put_end
    else if op == "audio.play"
    then audio_play
    else if op == "audio.stop"
    then audio_stop
    else if op == "device.mute_until"
    then mute_until
    else if op == "device.set_brightness"
    then set_brightness
    else if op == "device.set_volume"
    then set_volume
    else if op == "device.set_led"
    then set_led
    else if op == "device.reboot"
    then reboot
    else if op == "device.shutdown"
    then shutdown
    else if op == "storage.format" || op == "wifi.configure"
    then stateless
    else unknown

stay : StateMachine → StateMachine × Outcome
stay m = (m, ok m.state)

-- The branch of `receive_command` for an operator.
unfoldable pub handle : Op → Args → StateMachine → StateMachine × Outcome
unfolding stay
handle show_status args m =
    stay (record m { display_state = args.state; display_label = args.label })
handle show_card args m = transition_if_allowed response_cached m
handle show_delta args m = if args.is_final then transition_if_allowed response_cached m else stay m
handle put_begin args m = stay (record m { caching = true; cache_chunk_count = 0 })
handle put_chunk args m =
    stay (if m.caching then record m { cache_chunk_count = m.cache_chunk_count + 1 } else m)
handle put_end args m = transition_if_allowed response_cached (record m { caching = false })
handle audio_play args m = if m.state is playing then stay m else transition playing m
handle audio_stop args m = if m.state is ready then stay m else transition ready m
handle mute_until args m = transition muted (record m { muted_until = args.until })
handle set_brightness args m = stay (record m { brightness = or_default args.value m.brightness })
handle set_volume args m = stay (record m { volume = or_default args.level m.volume })
handle set_led args m = stay (record m { led_enabled = or_default args.enabled m.led_enabled })
handle reboot args m = transition booting m
handle shutdown args m = transition offline m
handle stateless args m = stay m
handle unknown args m = stay m

unfoldable pub receive_command : String → Args → StateMachine → StateMachine × Outcome
receive_command op args m = handle (decode op) args m

-- A sequence of commands; one that raises ends by itself only.
unfoldable pub run : List (String × Args) → StateMachine → StateMachine
run [] m = m
run ((op, args) ∷ rest) m = run rest (receive_command op args m).0
