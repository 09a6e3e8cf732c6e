-- ===== src/Device/Tests.antt =====
-- The clients' state machines on small histories, and their theorems at them.
use oi_interface.Device.Simulator
use oi_interface.Device.Handheld
use oi_interface.Device.Firmware
use oi_interface.Device.Firmware.Modes
use oi_interface.Device.Firmware.{DeviceState, Command, get_queued_commands, set_mode, set_battery}
use oi_interface.Device.Simulator.{invalid, StateMachine}
use oi_interface.Device.Handheld.{receive_command-streams, receive_command-same}
use oi_interface.Device.State.{Args, State, uploading, ready, thinking, response_cached, recording}
use oi_interface.Device.Simulator.Legal.{
  Moves, is_invalid, Reports, raises_in, receive_command-Moves, receive_command_raises,
}
use oi_interface.Base.{◌∷◌, same, String, none, ◌≡◌, [], Option, false, refl}
use oi_interface.Device.Firmware.Commands.{Ran}
use oi_interface.Device.Firmware.Modes.{IsWf, set_mode-Moves, sets_mode, takes_queue, run-init-IsWf}

abbrev no_args : Args
no_args = record {
  state = none;
  label = none;
  is_final = false;
  until = none;
  value = none;
  level = none;
  enabled = none;
}

abbrev at_state : State → StateMachine
at_state s = Simulator.init s

abbrev awake : DeviceState
awake = record (Firmware.init 0) { mode = ready }

receive_command-Moves_example :
    Moves thinking (Simulator.receive_command "audio.play" no_args (at_state thinking)).0.state
    × Reports thinking
        (Simulator.receive_command "audio.play" no_args (at_state thinking)).0.state
        (Simulator.receive_command "audio.play" no_args (at_state thinking)).1
unfolding Simulator.init
receive_command-Moves_example = receive_command-Moves "audio.play" no_args (at_state thinking)

receive_command_raises_example :
    is_invalid (Simulator.receive_command "audio.stop" no_args (at_state uploading)).1
    ≡ raises_in (Simulator.decode "audio.stop") uploading
unfolding Simulator.init
receive_command_raises_example = receive_command_raises "audio.stop" no_args (at_state uploading)

receive_command-same_example :
    Handheld.receive_command "audio.play" no_args (at_state response_cached)
    ≡ Simulator.receive_command "audio.play" no_args (at_state response_cached)
unfolding same
receive_command-same_example =
    receive_command-same "audio.play" no_args (at_state response_cached) refl

abbrev no_handlers : String → Option (DeviceState → Ran)
no_handlers op = none

set_mode-Moves_example : Moves ready (set_mode recording "rec_1" 3 3000 awake).mode
set_mode-Moves_example = set_mode-Moves recording "rec_1" 3 3000 awake

run-init-IsWf_example : IsWf (
    Modes.run
      (sets_mode ready "rec_0" 1 1000 ∷ sets_mode recording "rec_1" 2 2000 ∷ takes_queue ∷ [])
      (Firmware.init 0))
unfolding same
run-init-IsWf_example =
    run-init-IsWf 0
      (sets_mode ready "rec_0" 1 1000 ∷ sets_mode recording "rec_1" 2 2000 ∷ takes_queue ∷ [])
      (refl, (refl, (refl, tt)))

abbrev show : Command
show = record { op = "display.show_status"; id = "cmd_1" }
