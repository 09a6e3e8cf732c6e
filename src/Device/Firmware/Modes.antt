-- ===== src/Device/Firmware/Modes.antt =====
-- m5stack_stickS3/datp/state.py: what every history of `set_mode`, of the command queue and of the
-- setters keeps, and the firmware's table against the simulator's.
use oi_interface.Device.Simulator.Legal.{Moves}
use oi_interface.Device.State.{
  State, ◌is◌, among, booting, ready, offline, error, State-discrete, recording, pairing, thinking,
  muted,
}
use oi_interface.Device.Firmware.{
  DeviceState, set_mode, queue_command, get_queued_commands, Command, set_battery,
  set_audio_cache_size, set_wifi_rssi, set_muted_until, enter, start_recording, stop_recording,
  valid_transitions, handle_offline, handle_error, stop_if_recording, max_queue_size, init,
}
use oi_interface.Base.{
  List, String, ◌∷◌, ℕ, Bool, Option, [], Bool-cases, inl, arith, ◌≡◌, inr, true, refl, some, not,
  truthy, none, ◌||◌, length, ◌≤◌, false, All, Option-cases, leb, length-append, ap, sym, ◌∙◌,
  if◌then◌else◌,
}
use oi_interface.Base.Int.{ℤ}
use oi_interface.Device.Simulator.{valid_destinations, transitions}
use oi_interface.Dict.{is_some}
use oi_interface.Attention.State.{is_none}

pub data Call : Type 0 where
  sets_mode : State → String → ℕ → ℕ → Call
  queues : Command → Call
  takes_queue : Call
  sets_battery : ℤ → Bool → Call
  sets_audio_cache_size : ℕ → Call
  sets_wifi_rssi : ℤ → Call
  sets_muted_until : Option String → Call

pub step : Call → DeviceState → DeviceState
step (sets_mode mode stream_id now ticks) s = set_mode mode stream_id now ticks s
step (queues c) s = (queue_command c s).0
step takes_queue s = (get_queued_commands s).0
step (sets_battery percent charging) s = set_battery percent charging s
step (sets_audio_cache_size n) s = set_audio_cache_size n s
step (sets_wifi_rssi rssi) s = set_wifi_rssi rssi s
step (sets_muted_until t) s = set_muted_until t s

pub run : List Call → DeviceState → DeviceState
unfolding step
run [] s = s
run (c ∷ calls) s = run calls (step c s)

valid_transitions-valid_destinations :
    (s t : State) → among t (valid_transitions s) ≡ true → among t (valid_destinations s) ≡ true
unfolding valid_destinations transitions among valid_transitions State-discrete
valid_transitions-valid_destinations booting t e = ground arith
valid_transitions-valid_destinations _ t e = ground arith

enter-mode :
    (mode old : State) (stream_id : String) (ticks : ℕ) (s : DeviceState)
    → (enter mode old stream_id ticks s).mode ≡ s.mode
unfolding enter start_recording stop_recording handle_offline handle_error stop_if_recording
enter-mode ready old stream_id ticks s = ground arith
enter-mode offline old stream_id ticks s = ground arith
enter-mode error old stream_id ticks s = ground arith
enter-mode _ old stream_id ticks s = refl

-- `set_mode` leaves the mode or makes a move that the table of the simulator has.
pub set_mode-Moves :
    (mode : State) (stream_id : String) (now ticks : ℕ) (s : DeviceState)
    → Moves s.mode (set_mode mode stream_id now ticks s).mode
unfolding set_mode
set_mode-Moves mode stream_id now ticks s = elim (Bool-cases (mode is s.mode)) [
  | inl t ↦ rw t (ground arith)
  | inr t ↦ elim (Bool-cases (among mode (valid_transitions s.mode))) [
    | inr f ↦ rw (t, f) (ground arith)
    | inl f ↦
        rw (t, f)
          (rw
            (enter-mode mode s.mode stream_id ticks
              (record s { mode = mode; state_start_time = now }))
            (ground (arith, valid_transitions-valid_destinations s.mode mode f)))
  ]
]

-- A stream id that Python's `if` takes for true, or none.
abbrev pub named : Option String → Bool
named none = true
named (some i) = truthy i

-- A device records under a stream id with a start time, and is not recording in OFFLINE and ERROR; at
-- most five commands wait.
pub record IsWf (s : DeviceState) : Type 0 where
  pub recording_id : (not (s.mode is recording) || is_some s.current_stream_id) ≡ true
  pub down_id : (not (s.mode is offline || s.mode is error) || is_none s.current_stream_id) ≡ true
  pub start : is_some s.recording_start_time ≡ is_some s.current_stream_id
  pub id_named : named s.current_stream_id ≡ true
  pub bounded : length s.command_queue ≤ max_queue_size

-- A device that is no longer in RECORDING, after `if self._current_stream_id: self._stop_recording()`.
stop_if_recording-IsWf :
    (s : DeviceState)
    → (s.mode is recording) ≡ false
    → is_some s.recording_start_time ≡ is_some s.current_stream_id
    → named s.current_stream_id ≡ true
    → length s.command_queue ≤ max_queue_size
    → IsWf (stop_if_recording s)
unfolding stop_if_recording stop_recording State-discrete
stop_if_recording-IsWf s m e n b = elim (Option-cases s.current_stream_id) [
  | inl o ↦ rw o (record {
    recording_id = ground arith;
    down_id = ground arith;
    start = ground arith;
    id_named = ground arith;
    bounded = b;
  })
  | inr (i, o) ↦
      let i_named : truthy i ≡ true = ap named (sym o) ∙ n in
      rw (o, i_named)
        (record {
          recording_id = rw m refl;
          down_id = ground arith;
          start = refl;
          id_named = refl;
          bounded = b;
        })
]

enter-IsWf :
    (mode old : State) (stream_id : String) (now ticks : ℕ) (s : DeviceState)
    → truthy stream_id ≡ true
    → IsWf s
    → IsWf (enter mode s.mode stream_id ticks (record s { mode = mode; state_start_time = now }))
unfolding enter start_recording stop_recording handle_offline handle_error stop_if_recording
    State-discrete
enter-IsWf recording old stream_id now ticks s n w = record {
  recording_id = refl;
  down_id = refl;
  start = refl;
  id_named = n;
  bounded = w.bounded;
}
enter-IsWf ready old stream_id now ticks s n w = elim (Bool-cases (s.mode is recording)) [
  | inl t ↦ rw t (record {
    recording_id = refl;
    down_id = refl;
    start = refl;
    id_named = refl;
    bounded = w.bounded;
  })
  | inr t ↦ rw t (record {
    recording_id = refl;
    down_id = refl;
    start = w.start;
    id_named = w.id_named;
    bounded = w.bounded;
  })
]
enter-IsWf offline old stream_id now ticks s n w =
    stop_if_recording-IsWf (record s { mode = offline; state_start_time = now }) refl w.start
      w.id_named w.bounded
enter-IsWf error old stream_id now ticks s n w =
    let t = record s { mode = error; state_start_time = now } in
    let u = stop_if_recording-IsWf t refl w.start w.id_named w.bounded in
    record {
      recording_id = u.recording_id;
      down_id = u.down_id;
      start = u.start;
      id_named = u.id_named;
      bounded = ground arith;
    }
enter-IsWf _ old stream_id now ticks s n w = record {
  recording_id = refl;
  down_id = refl;
  start = w.start;
  id_named = w.id_named;
  bounded = w.bounded;
}

pub set_mode-IsWf :
    (mode : State) (stream_id : String) (now ticks : ℕ) (s : DeviceState)
    → truthy stream_id ≡ true
    → IsWf s
    → IsWf (set_mode mode stream_id now ticks s)
unfolding set_mode
set_mode-IsWf mode stream_id now ticks s n w = elim (Bool-cases (mode is s.mode)) [
  | inl t ↦ rw t w
  | inr t ↦ elim (Bool-cases (among mode (valid_transitions s.mode))) [
    | inr f ↦ rw (t, f) w
    | inl f ↦ rw (t, f) (enter-IsWf mode s.mode stream_id now ticks s n w)
  ]
]

-- A call that names a stream, names it by a true text.
abbrev pub names_stream : Call → Bool
names_stream (sets_mode mode stream_id now ticks) = truthy stream_id
names_stream _ = true

queue_command-IsWf : (c : Command) (s : DeviceState) → IsWf s → IsWf (queue_command c s).0
unfolding queue_command
queue_command-IsWf c s w = elim (Bool-cases (leb max_queue_size (length s.command_queue))) [
  | inl t ↦ rw t w
  | inr t ↦ rw t (record {
    recording_id = w.recording_id;
    down_id = w.down_id;
    start = w.start;
    id_named = w.id_named;
    bounded = ground (arith, length-append s.command_queue (c ∷ []));
  })
]

step-IsWf : (c : Call) (s : DeviceState) → names_stream c ≡ true → IsWf s → IsWf (step c s)
unfolding step get_queued_commands set_battery set_audio_cache_size set_wifi_rssi set_muted_until
step-IsWf (sets_mode mode stream_id now ticks) s n w = set_mode-IsWf mode stream_id now ticks s n w
step-IsWf (queues c) s n w = queue_command-IsWf c s w
step-IsWf takes_queue s n w = record {
  recording_id = w.recording_id;
  down_id = w.down_id;
  start = w.start;
  id_named = w.id_named;
  bounded = ground arith;
}
step-IsWf _ s n w = record {
  recording_id = w.recording_id;
  down_id = w.down_id;
  start = w.start;
  id_named = w.id_named;
  bounded = w.bounded;
}

init-IsWf : (now : ℕ) → IsWf (init now)
unfolding State-discrete init
init-IsWf now = record {
  recording_id = refl;
  down_id = refl;
  start = refl;
  id_named = refl;
  bounded = ground arith;
}

run-IsWf :
    (calls : List Call) (s : DeviceState)
    → All (λ c. names_stream c ≡ true) calls
    → IsWf s
    → IsWf (run calls s)
unfolding run
run-IsWf [] s n w = w
run-IsWf (c ∷ calls) s (n, ns) w = run-IsWf calls (step c s) ns (step-IsWf c s n w)

-- Every history of calls from a start in which no stream id is empty: in RECORDING there is a
-- stream id, in OFFLINE and ERROR there is none, there is a start time exactly if there is a
-- stream id, the stream id is not empty, and at most five commands wait.
pub run-init-IsWf :
    (now : ℕ) (calls : List Call)
    → All (λ c. names_stream c ≡ true) calls
    → IsWf (run calls (init now))
run-init-IsWf now calls n = run-IsWf calls (init now) n (init-IsWf now)

-- `set_mode` to ERROR takes effect from BOOTING, PAIRING, THINKING and OFFLINE, and to OFFLINE from
-- BOOTING, READY and MUTED; in every other mode the call is ignored.
set_mode_down :
    (stream_id : String) (now ticks : ℕ) (s : DeviceState)
    → ((set_mode error stream_id now ticks s).mode
        ≡ (if among s.mode (booting ∷ pairing ∷ thinking ∷ offline ∷ []) then error else s.mode))
      × ((set_mode offline stream_id now ticks s).mode
          ≡ (if among s.mode (booting ∷ ready ∷ muted ∷ []) then offline else s.mode))
unfolding set_mode enter handle_offline handle_error stop_if_recording stop_recording among
    valid_transitions State-discrete
set_mode_down stream_id now ticks s = (ground arith, ground arith)
