-- ===== src/Device/Simulator/Legal.antt =====
-- oi-sim/src/sim/state.py: where commands may take the device, and which of them raise.
use oi_interface.Device.State.{
  State, Op, Args, ◌is◌, among, playing, response_cached, ready, uploading, thinking, safe_mode,
  booting, muted, audio_play, audio_stop, mute_until, shutdown, State-discrete, offline,
  show_status, show_card, show_delta, put_chunk, put_end, reboot,
}
use oi_interface.Device.Simulator.{
  StateMachine, Outcome, transition, handle, receive_command, run, ok, decode, valid_destinations,
  invalid, transition_if_allowed,
}
use oi_interface.Base.{
  Bool, List, arith, String, not, ◌||◌, ◌∷◌, ◌≡◌, false, [], map, length, if◌then◌else◌, true,
  Bool-cases, refl, inl, inr, ◌∙◌, ◌+◌, ap, same,
}

-- `s` stays, or goes along the transition table.
abbrev pub Moves : State → State → Type 0
Moves s t = (s is t || among t (valid_destinations s)) ≡ true

-- The outcome tells the state that is left; an error names a transition that the table lacks, and
-- leaves the state.
abbrev pub Reports : State → State → Outcome → Type 0
Reports before after (ok s) = s ≡ after
Reports before after (invalid s t) =
    (s ≡ before) × (after ≡ before) × (among t (valid_destinations before) ≡ false)

transition-Moves :
    (new : State) (m : StateMachine)
    → Moves m.state (transition new m).0.state
      × Reports m.state (transition new m).0.state (transition new m).1
unfolding transition
transition-Moves new m = (ground arith, ground arith)

stay-Moves : (m : StateMachine) → Moves m.state m.state × Reports m.state m.state (ok m.state)
stay-Moves m = (ground arith, refl)

transition_if_allowed-Moves :
    (new : State) (m : StateMachine)
    → Moves m.state (transition_if_allowed new m).0.state
      × Reports m.state (transition_if_allowed new m).0.state (transition_if_allowed new m).1
unfolding transition_if_allowed
transition_if_allowed-Moves new m = elim (Bool-cases (among new (valid_destinations m.state))) [
  | inl t ↦ rw t (transition-Moves new m)
  | inr t ↦ rw t (stay-Moves m)
]

handle-Moves :
    (op : Op) (args : Args) (m : StateMachine)
    → Moves m.state (handle op args m).0.state
      × Reports m.state (handle op args m).0.state (handle op args m).1
unfolding handle
handle-Moves show_status args m = stay-Moves m
handle-Moves show_card args m = transition_if_allowed-Moves response_cached m
handle-Moves show_delta args m = elim (Bool-cases args.is_final) [
  | inl t ↦ rw t (transition_if_allowed-Moves response_cached m)
  | inr t ↦ rw t (stay-Moves m)
]
handle-Moves put_chunk args m = elim (Bool-cases m.caching) [
  | inl t ↦ rw t (stay-Moves m)
  | inr t ↦ rw t (stay-Moves m)
]
handle-Moves put_end args m =
    transition_if_allowed-Moves response_cached (record m { caching = false })
handle-Moves audio_play args m = elim (Bool-cases (m.state is playing)) [
  | inl t ↦ rw t (stay-Moves m)
  | inr t ↦ rw t (transition-Moves playing m)
]
handle-Moves audio_stop args m = elim (Bool-cases (m.state is ready)) [
  | inl t ↦ rw t (stay-Moves m)
  | inr t ↦ rw t (transition-Moves ready m)
]
handle-Moves mute_until args m = transition-Moves muted (record m { muted_until = args.until })
handle-Moves reboot args m = transition-Moves booting m
handle-Moves shutdown args m = transition-Moves offline m
handle-Moves _ args m = stay-Moves m

-- Every command, with any arguments and in any state, leaves the device in its state or takes it
-- along the transition table; what it returns is the state that it leaves, and what it raises is a
-- transition that the table lacks, with the state unchanged.
pub receive_command-Moves :
    (op : String) (args : Args) (m : StateMachine)
    → let (m', outcome) = receive_command op args m in
      Moves m.state m'.state × Reports m.state m'.state outcome
unfolding receive_command
receive_command-Moves op args m = handle-Moves (decode op) args m

-- The states in which an operator raises.
abbrev pub raises_in : Op → State → Bool
raises_in audio_play s = not (s is playing || s is response_cached)
raises_in audio_stop s = s is uploading || s is safe_mode
raises_in mute_until s = not (s is ready)
raises_in shutdown s = not (s is booting || s is ready || s is muted)
raises_in _ s = false

abbrev pub is_invalid : Outcome → Bool
is_invalid (ok s) = false
is_invalid (invalid s t) = true

handle_raises :
    (op : Op) (args : Args) (m : StateMachine)
    → is_invalid (handle op args m).1 ≡ raises_in op m.state
unfolding handle transition transition_if_allowed State-discrete
handle_raises show_status args m = refl
handle_raises audio_play args m = ground arith
handle_raises audio_stop args m = ground arith
handle_raises _ args m = ground arith

-- The commands that raise are audio.play outside PLAYING and RESPONSE_CACHED, audio.stop in UPLOADING
-- and SAFE_MODE, device.mute_until outside READY, and device.shutdown outside BOOTING, READY and
-- MUTED; no other command raises in any state.
pub receive_command_raises :
    (op : String) (args : Args) (m : StateMachine)
    → is_invalid (receive_command op args m).1 ≡ raises_in (decode op) m.state
unfolding receive_command
receive_command_raises op args m = handle_raises (decode op) args m

-- Whatever state the device is in, a reboot followed by audio.stop makes it READY.
reboot_stop-ready :
    (a b : Args) (m : StateMachine)
    → (run (("device.reboot", a) ∷ ("audio.stop", b) ∷ []) m).state ≡ ready
unfolding same run receive_command handle decode transition State-discrete
reboot_stop-ready a b m = ground arith

-- audio.cache.put_end ends the caching, and moves the device to RESPONSE_CACHED from THINKING and
-- PLAYING; in every other state, UPLOADING included, the state stays.
put_end_lem :
    (args : Args) (m : StateMachine)
    → let m' = (receive_command "audio.cache.put_end" args m).0 in
      (m'.caching ≡ false)
      × (m'.state
          ≡ (if m.state is thinking || m.state is playing then response_cached else m.state))
unfolding same receive_command handle decode transition transition_if_allowed State-discrete
put_end_lem args m = (ground arith, ground arith)

-- The commands of a cache transfer: audio.cache.put_chunk for each of the chunks.
abbrev pub put_chunks : List Args → List (String × Args)
put_chunks = map (λ a. ("audio.cache.put_chunk", a))

put_chunk_lem :
    (args : Args) (m : StateMachine)
    → m.caching ≡ true
    → (receive_command "audio.cache.put_chunk" args m).0
      ≡ record m { cache_chunk_count = m.cache_chunk_count + 1 }
unfolding same receive_command handle decode
put_chunk_lem args m c = simp c

run-put_chunks :
    (chunks : List Args) (m : StateMachine)
    → m.caching ≡ true
    → run (put_chunks chunks) m
      ≡ record m { cache_chunk_count = m.cache_chunk_count + length chunks }
unfolding run
run-put_chunks [] m c = ground arith
run-put_chunks (a ∷ chunks) m c =
    ap (run (put_chunks chunks)) (put_chunk_lem a m c)
    ∙ run-put_chunks chunks (record m { cache_chunk_count = m.cache_chunk_count + 1 }) c
    ∙ ground arith

-- audio.cache.put_begin and then n chunks leave the counter at n, whatever it was before, with the
-- caching on and the state as it was.
cache_chunk_count_lem :
    (begin : Args) (chunks : List Args) (m : StateMachine)
    → run (("audio.cache.put_begin", begin) ∷ put_chunks chunks) m
      ≡ record m { caching = true; cache_chunk_count = length chunks }
cache_chunk_count_lem begin chunks m =
    unfold same run receive_command handle decode in
    run-put_chunks chunks (record m { caching = true; cache_chunk_count = 0 }) refl ∙ ground arith
