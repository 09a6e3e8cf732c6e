-- ===== src/Device/Firmware.antt =====
-- src/oi-clients/m5stack_stickS3/datp/state.py: `DeviceState` of the firmware, and the guard of
-- `_handle_command` in datp/client.py. The clocks
-- (seconds of `time`, milliseconds of `ticks_ms`) and the stream id that `_start_recording` hashes are
-- arguments.
pub mod Commands
pub mod Modes
pub mod Waiting
use oi_interface.Device.State.{
  State, pairing, booting, ◌is◌, ready, recording, offline, among, error, muted, uploading,
  thinking, response_cached, playing, safe_mode,
}
use oi_interface.Base.{
  List, String, ℕ, none, [], Option, Bool, some, if◌then◌else◌, ◌∷◌, truthy, leb, false, not,
  length, ◌++◌, true,
}
use oi_interface.Base.Int.{ℤ, pos, ltb_ℤ, negsuc}

-- `VALID_TRANSITIONS`
unfoldable pub valid_transitions : State → List State
valid_transitions booting = pairing ∷ ready ∷ offline ∷ error ∷ []
valid_transitions pairing = ready ∷ error ∷ []
valid_transitions ready = recording ∷ muted ∷ offline ∷ booting ∷ []
valid_transitions recording = uploading ∷ ready ∷ []
valid_transitions uploading = thinking ∷ []
valid_transitions thinking = response_cached ∷ ready ∷ error ∷ []
valid_transitions response_cached = playing ∷ ready ∷ []
valid_transitions playing = response_cached ∷ ready ∷ []
valid_transitions muted = ready ∷ offline ∷ []
valid_transitions offline = ready ∷ error ∷ []
valid_transitions error = safe_mode ∷ ready ∷ []
valid_transitions safe_mode = booting ∷ []

-- A command that waits: its operator and its command id.
pub record Command : Type 0 where
  pub op : String
  pub id : String

pub record DeviceState : Type 0 where
  pub mode : State
  pub boot_time : ℕ
  pub state_start_time : ℕ
  pub battery_percent : ℤ
  pub charging : Bool
  pub wifi_rssi : ℤ
  pub audio_cache_used_bytes : ℕ
  pub muted_until : Option String
  pub command_queue : List Command
  pub current_stream_id : Option String
  pub recording_start_time : Option ℕ

abbrev pub max_queue_size : ℕ
max_queue_size = 5

unfoldable pub init : ℕ → DeviceState
init now = record {
  mode = booting;
  boot_time = now;
  state_start_time = now;
  battery_percent = pos 100;
  charging = false;
  wifi_rssi = negsuc 99;
  audio_cache_used_bytes = 0;
  muted_until = none;
  command_queue = [];
  current_stream_id = none;
  recording_start_time = none;
}

start_recording : String → ℕ → DeviceState → DeviceState
start_recording stream_id ticks s = record s {
  current_stream_id = some stream_id;
  recording_start_time = some ticks;
}

stop_recording : DeviceState → DeviceState
stop_recording s = record s { current_stream_id = none; recording_start_time = none }

-- `if self._current_stream_id: self._stop_recording()`
stop_if_recording : DeviceState → DeviceState
unfolding stop_recording
stop_if_recording s = elim s.current_stream_id [
  | none ↦ s
  | some i ↦ if truthy i then stop_recording s else s
]

handle_offline : DeviceState → DeviceState
unfolding stop_if_recording
handle_offline s = stop_if_recording s

handle_error : DeviceState → DeviceState
unfolding stop_if_recording
handle_error s = let t = stop_if_recording s in record t { command_queue = [] }

-- The work of `set_mode` on entering `mode` from `old`.
enter : State → State → String → ℕ → DeviceState → DeviceState
unfolding start_recording stop_recording handle_offline handle_error
enter recording old stream_id ticks s = start_recording stream_id ticks s
enter ready old stream_id ticks s = if old is recording then stop_recording s else s
enter offline old stream_id ticks s = handle_offline s
enter error old stream_id ticks s = handle_error s
enter _ old stream_id ticks s = s

unfoldable pub set_mode : State → String → ℕ → ℕ → DeviceState → DeviceState
unfolding enter
set_mode mode stream_id now ticks s =
    if mode is s.mode
    then s
    else if not (among mode (valid_transitions s.mode))
    then s
    else enter mode s.mode stream_id ticks (record s { mode = mode; state_start_time = now })

unfoldable pub set_audio_cache_size : ℕ → DeviceState → DeviceState
set_audio_cache_size bytes_used s = record s { audio_cache_used_bytes = bytes_used }

unfoldable pub set_wifi_rssi : ℤ → DeviceState → DeviceState
set_wifi_rssi rssi s = record s { wifi_rssi = rssi }

unfoldable pub set_muted_until : Option String → DeviceState → DeviceState
set_muted_until timestamp s = record s { muted_until = timestamp }

unfoldable pub queue_command : Command → DeviceState → DeviceState × Bool
queue_command c s =
    if leb max_queue_size (length s.command_queue)
    then (s, false)
    else (record s { command_queue = s.command_queue ++ c ∷ [] }, true)

unfoldable pub get_queued_commands : DeviceState → DeviceState × List Command
get_queued_commands s = (record s { command_queue = [] }, s.command_queue)

-- `max(0, min(100, percent))`
clamp_percent : ℤ → ℤ
clamp_percent percent =
    let low = if ltb_ℤ percent (pos 100) then percent else pos 100 in
    if ltb_ℤ (pos 0) low then low else pos 0

unfoldable pub set_battery : ℤ → Bool → DeviceState → DeviceState
unfolding clamp_percent
set_battery percent charging s = record s {
  battery_percent = clamp_percent percent;
  charging = charging;
}
