-- ===== src/Device/Handheld.antt =====
-- src/oi-clients/generic_sbc_handheld/oi_client/state.py: the state machine of the handheld, a
-- copy of the simulator's with tests of its own, and no streamed deltas.
use oi_interface.Device.State.{
  State, Op, Args, pairing, among, booting, error, show_status, response_cached, ready, safe_mode,
  show_card, ◌is◌, offline, put_begin, playing, recording, put_chunk, muted, thinking, put_end,
  uploading, audio_play, audio_stop, mute_until, set_brightness, set_volume, set_led, reboot,
  shutdown, stateless, unknown, show_delta,
}
use oi_interface.Device.Simulator
use oi_interface.Device.Simulator.{StateMachine, Outcome, ok, invalid}
use oi_interface.Base.{
  List, if◌then◌else◌, same, String, ◌≡◌, ◌++◌, not, ◌==◌, true, Bool, false, ◌∷◌, ◌+◌, ◌||◌, refl,
  [], ap, ◌≢◌, Bool-cases, arith, inl, inr,
}
use oi_interface.Dict.{or_default}

-- `_TRANSITIONS`
transitions : State → List State
transitions booting = pairing ∷ ready ∷ offline ∷ []
transitions pairing = ready ∷ error ∷ []
transitions ready = recording ∷ thinking ∷ muted ∷ offline ∷ booting ∷ []
transitions recording = uploading ∷ ready ∷ []
transitions uploading = thinking ∷ []
transitions thinking = response_cached ∷ ready ∷ error ∷ []
transitions response_cached = playing ∷ ready ∷ thinking ∷ []
transitions playing = response_cached ∷ ready ∷ []
transitions muted = ready ∷ offline ∷ []
transitions offline = ready ∷ error ∷ []
transitions error = safe_mode ∷ ready ∷ []
transitions safe_mode = booting ∷ []

-- `_valid_destinations`
valid_destinations : State → List State
unfolding transitions
valid_destinations s = transitions s ++ error ∷ safe_mode ∷ booting ∷ []

transition : State → StateMachine → StateMachine × Outcome
transition new m =
    if not (among new (valid_destinations m.state))
    then (m, invalid m.state new)
    else (record m { state = new }, ok new)

-- The operator that an op's name stands for, in the order of the tests of `receive_command`.
decode : String → Op
decode op =
    if op == "display.show_status"
    then show_status
    else if op == "display.show_card"
    then show_card
    else if op == "audio.cache.put_begin"
    then put_begin
    else if op == "audio.cache.put_chunk"
    then put_chunk
    else if op == "audio.cache.put_end"
    then put_end
    else if op == "audio.play"
    then audio_play
    else if op == "audio.stop"
    then audio_stop
    else if op == "device.mute_until"
    then mute_until
    else if op == "device.set_brightness"
    then set_brightness
    else if op == "device.set_volume"
    then set_volume
    else if op == "device.set_led"
    then set_led
    else if op == "device.reboot"
    then reboot
    else if op == "device.shutdown"
    then shutdown
    else if op == "storage.format"
    then stateless
    else if op == "wifi.configure"
    then stateless
    else unknown

to_cached : StateMachine → StateMachine × Outcome
to_cached m =
    if among response_cached (valid_destinations m.state)
    then transition response_cached m
    else (m, ok m.state)

-- The branch of `receive_command` for an operator.
handle : Op → Args → StateMachine → StateMachine × Outcome
unfolding to_cached
handle show_status args m =
    (record m { display_state = args.state; display_label = args.label }, ok m.state)
handle show_card args m = to_cached m
handle put_begin args m = (record m { caching = true; cache_chunk_count = 0 }, ok m.state)
handle put_chunk args m =
    if m.caching
    then (record m { cache_chunk_count = m.cache_chunk_count + 1 }, ok m.state)
    else (m, ok m.state)
handle put_end args m = to_cached (record m { caching = false })
handle audio_play args m = if m.state is playing then (m, ok m.state) else transition playing m
handle audio_stop args m = if m.state is ready then (m, ok m.state) else transition ready m
handle mute_until args m = transition muted (record m { muted_until = args.until })
handle set_brightness args m =
    (record m { brightness = or_default args.value m.brightness }, ok m.state)
handle set_volume args m = (record m { volume = or_default args.level m.volume }, ok m.state)
handle set_led args m =
    (record m { led_enabled = or_default args.enabled m.led_enabled }, ok m.state)
handle reboot args m = transition booting m
handle shutdown args m = transition offline m
handle stateless args m = (m, ok m.state)
handle _ args m = (m, ok m.state)

pub receive_command : String → Args → StateMachine → StateMachine × Outcome
receive_command op args m = handle (decode op) args m

valid_destinations-same : (s : State) → valid_destinations s ≡ Simulator.valid_destinations s
unfolding valid_destinations Simulator.valid_destinations
valid_destinations-same booting = refl
valid_destinations-same _ = refl

transition-same : (new : State) (m : StateMachine) → transition new m ≡ Simulator.transition new m
unfolding transition Simulator.transition
transition-same new m =
    ap
      (λ (ds : List State).
        if not (among new ds) then (m, invalid m.state new) else (record m { state = new }, ok new))
      (valid_destinations-same m.state)

-- The names that stream a delta to the simulator; the handheld takes them for unknown.
abbrev pub streams : String → Bool
streams op = op == "display.show_response_delta" || op == "display.show_text_delta"

to_cached-same :
    (m : StateMachine) → to_cached m ≡ Simulator.transition_if_allowed response_cached m
unfolding to_cached Simulator.transition_if_allowed
to_cached-same m = rw (valid_destinations-same m.state) (rw transition-same)

handle-same :
    (op : Op) (args : Args) (m : StateMachine)
    → op ≢ show_delta
    → handle op args m ≡ Simulator.handle op args m
unfolding handle Simulator.handle
handle-same show_card args m n = to_cached-same m
handle-same show_delta args m n = absurd (n refl)
handle-same put_chunk args m n = ground arith
handle-same put_end args m n = to_cached-same _
handle-same audio_play args m n = rw transition-same
handle-same audio_stop args m n = rw transition-same
handle-same mute_until args m n = transition-same muted _
handle-same reboot args m n = transition-same booting m
handle-same shutdown args m n = transition-same offline m
handle-same _ args m n = refl

decode-same : (op : String) → streams op ≡ false → decode op ≡ Simulator.decode op
unfolding decode Simulator.decode
decode-same op other =
    rw other (elim (Bool-cases (op == "storage.format")) [ inl t ↦ rw t | inr t ↦ rw t ])

decode_no_delta : (op : String) → streams op ≡ false → Simulator.decode op ≢ show_delta
unfolding Simulator.decode
decode_no_delta op other = ground arith

-- On every command but the two that stream a delta, in every state and with any arguments, the
-- handheld and the simulator do the same.
pub receive_command-same :
    (op : String) (args : Args) (m : StateMachine)
    → streams op ≡ false
    → receive_command op args m ≡ Simulator.receive_command op args m
unfolding receive_command Simulator.receive_command
receive_command-same op args m other =
    rw (decode-same op other) (handle-same (Simulator.decode op) args m (decode_no_delta op other))

-- A streamed delta leaves the handheld as it is, also the final one.
pub receive_command-streams :
    (args : Args) (m : StateMachine)
    → (receive_command "display.show_response_delta" args m ≡ (m, ok m.state))
      × (receive_command "display.show_text_delta" args m ≡ (m, ok m.state))
unfolding receive_command decode handle same
receive_command-streams args m = (refl, refl)
