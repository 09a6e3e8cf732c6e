-- ===== src/Device/Firmware/Commands.antt =====
-- m5stack_stickS3: `COMMAND_HANDLING` and its readers in datp/state.py, and `_handle_command` of
-- datp/client.py. The handlers of the client are a parameter.
use oi_interface.Device.State.{
  State, booting, pairing, ◌is◌, error, ready, thinking, recording, offline, uploading,
  response_cached, playing, muted, safe_mode, State-discrete,
}
use oi_interface.Device.Firmware.{DeviceState}
use oi_interface.Base.{
  String, Option, some, Bool, same, if◌then◌else◌, ◌==◌, true, not, ◌≡◌, none, false, ◌||◌, refl,
  arith,
}
use oi_interface.Dict.{or_default}

pub data Handling : Type 0 where
  execute queue reject ignore clear_and_execute : Handling

-- A row of the table, in the order of the states.
abbrev row :
    Handling
    → Handling
    → Handling
    → Handling
    → Handling
    → Handling
    → Handling
    → Handling
    → Handling
    → Handling
    → Handling
    → Handling
    → State
    → Handling
row b p r rec u t c pl m o e s booting = b
row b p r rec u t c pl m o e s pairing = p
row b p r rec u t c pl m o e s ready = r
row b p r rec u t c pl m o e s recording = rec
row b p r rec u t c pl m o e s uploading = u
row b p r rec u t c pl m o e s thinking = t
row b p r rec u t c pl m o e s response_cached = c
row b p r rec u t c pl m o e s playing = pl
row b p r rec u t c pl m o e s muted = m
row b p r rec u t c pl m o e s offline = o
row b p r rec u t c pl m o e s error = e
row b p r rec u t c pl m o e s safe_mode = s

-- `COMMAND_HANDLING.get(op, {}).get(mode)`
command_handling : String → State → Option Handling
command_handling op mode =
    if op == "display.show_status"
    then some
        (row queue queue execute queue queue queue execute queue execute ignore ignore execute mode)
    else if op == "display.show_card"
    then some
        (row queue queue execute queue queue queue execute queue execute ignore ignore execute mode)
    else if op == "audio.play"
    then some (
        row reject reject execute reject reject queue execute queue reject reject ignore reject
          mode)
    else if op == "audio.stop"
    then some (
        row reject reject reject execute queue queue execute execute reject reject ignore reject
          mode)
    else if op == "audio.cache.put_begin"
    then some (
        row queue queue queue queue queue queue clear_and_execute queue queue ignore ignore ignore
          mode)
    else if op == "audio.cache.put_chunk"
    then some
        (row reject reject reject queue execute queue execute queue queue ignore ignore reject mode)
    else if op == "device.set_volume"
    then some (
        row ignore ignore execute ignore ignore ignore execute ignore execute ignore ignore ignore
          mode)
    else if op == "device.set_brightness"
    then some (
        row ignore ignore execute ignore ignore ignore execute ignore execute ignore ignore ignore
          mode)
    else if op == "device.mute_until"
    then some (
        row ignore ignore execute ignore ignore ignore execute ignore execute ignore ignore ignore
          mode)
    else if op == "device.reboot"
    then some (
        row ignore execute execute execute execute execute execute execute execute execute execute
          execute mode)
    else if op == "device.shutdown"
    then some (
        row ignore execute execute execute execute execute execute execute execute ignore ignore
          ignore mode)
    else if op == "wifi.configure"
    then some (
        row ignore execute execute ignore ignore ignore execute ignore execute ignore ignore ignore
          mode)
    else if op == "storage.format"
    then some (
        row ignore ignore execute ignore ignore ignore execute ignore execute ignore ignore ignore
          mode)
    else none

executes : Option Handling → Bool
executes (some execute) = true
executes (some clear_and_execute) = true
executes _ = false

unfoldable pub can_handle_command : String → DeviceState → Bool
unfolding command_handling executes
can_handle_command op s = executes (command_handling op s.mode)

pub get_command_handling : String → DeviceState → Handling
unfolding command_handling
get_command_handling op s = or_default (command_handling op s.mode) ignore

-- What is sent back: `ok=True`, or `ok=False` for the reason given.
pub data Ack : Type 0 where
  done wrong_state failed unknown_command : Ack

-- A handler leaves the device changed, and returns or raises.
pub data Ran : Type 0 where
  returned raised : DeviceState → Ran

after_handler : Ran → DeviceState × Ack
after_handler (returned s) = (s, done)
after_handler (raised s) = (s, failed)

module _ (handlers : String → Option (DeviceState → Ran)) where
  pub handle_command : String → DeviceState → DeviceState × Ack
  unfolding can_handle_command after_handler
  handle_command op s =
      if not (can_handle_command op s)
      then (s, wrong_state)
      else elim (handlers op) [ none ↦ (s, unknown_command) | some h ↦ after_handler (h s) ]

  -- The firmware never completes a cache transfer in THINKING: whatever handlers are installed, all of
  -- audio.cache.put_begin, put_chunk and put_end are refused there with the device unchanged; and
  -- put_end, which the table lacks, is refused in every state.
  cache_refused :
      (s : DeviceState)
      → (handle_command "audio.cache.put_end" s ≡ (s, wrong_state))
        × (handle_command "audio.cache.put_begin" (record s { mode = thinking })
            ≡ (record s { mode = thinking }, wrong_state))
        × (handle_command "audio.cache.put_chunk" (record s { mode = thinking })
            ≡ (record s { mode = thinking }, wrong_state))
  unfolding handle_command same
  cache_refused s = (refl, refl, refl)

-- What BOOTING, ERROR and OFFLINE execute.
down :
    (op : String) (mode : State)
    → (mode is error || mode is offline || mode is booting) ≡ true
    → executes (command_handling op mode) ≡ true
    → ((op == "device.reboot") ≡ true) × ((mode is booting) ≡ false)
unfolding command_handling executes State-discrete
down op booting on e = ground arith
down op error on e = ground arith
down op offline on e = ground arith
down op _ on e = ground arith

-- A command that the firmware executes in ERROR or OFFLINE is device.reboot, and in BOOTING it executes
-- none.
can_handle_command_down :
    (op : String) (s : DeviceState)
    → (s.mode is error || s.mode is offline || s.mode is booting) ≡ true
    → can_handle_command op s ≡ true
    → ((op == "device.reboot") ≡ true) × ((s.mode is booting) ≡ false)
unfolding can_handle_command
can_handle_command_down op s on e = down op s.mode on e
