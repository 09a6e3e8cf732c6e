-- ===== src/Datp/Commands/Acks.antt =====
-- datp/commands.py: the steps of the dispatcher, in any order, and one command by itself.
use oi_interface.Base.{
  String, Bool, true, false, List, [], ◌∷◌, Option, none, some, ◌==◌, ◌&&◌, if◌then◌else◌, ◌≡◌,
}
use oi_interface.Dict.{Dict, get, or_default}
use oi_interface.Json.{Json, bool, text}
use oi_interface.Datp.Commands.{
  Dispatcher, on_event, start, send_returned, wake, Place, sending, waiting, ended, Ending, gives,
  key_error,
}

pub data Step : Type 0 where
  started : String → Step
  event : (event_type : String) → (payload : Dict Json) → Step
  device_answered : String → (sent : Bool) → Step
  woken : String → Step

unfoldable pub step : Step → Dispatcher → Dispatcher
step (started i) s = start i s
step (event event_type payload) s = on_event event_type payload s
step (device_answered i sent) s = send_returned i sent s
step (woken i) s = wake i s

unfoldable pub run : List Step → Dispatcher → Dispatcher
run [] s = s
run (e ∷ steps) s = run steps (step e s)

-- One command by itself: whether its message is going out, has gone out, or it is over, and the first ack
-- that came.
pub data CommandPhase : Type 0 where
  going_out gone_out : (ack : Option Json) → CommandPhase
  over : Ending → CommandPhase

-- The ack that a step is for a command.
abbrev pub same_text : String → Option Json → Bool
same_text i (some (text j)) = i == j
same_text i v = false

abbrev pub ack_in : String → Step → Option Json
ack_in i (event event_type payload) =
    if event_type == "ack" && same_text i (get "command_id" payload)
    then some (or_default (get "ok" payload) (bool false))
    else none
ack_in i (started j) = none
ack_in i (device_answered j sent) = none
ack_in i (woken j) = none

-- The first of two acks counts.
abbrev pub earlier : Option Json → Option Json → Option Json
earlier none later = later
earlier (some v) later = some v

abbrev pub told : Option Json → CommandPhase → CommandPhase
told o (going_out ack) = going_out (earlier ack o)
told o (gone_out ack) = gone_out (earlier ack o)
told o (over r) = over r

abbrev pub passed_on : Bool → CommandPhase → CommandPhase
passed_on true (going_out ack) = gone_out ack
passed_on false (going_out none) = over (gives (bool false))
passed_on false (going_out (some ok)) = over key_error
passed_on sent (gone_out ack) = gone_out ack
passed_on sent (over r) = over r

abbrev pub waited : CommandPhase → CommandPhase
waited (going_out ack) = going_out ack
waited (gone_out none) = over (gives (bool false))
waited (gone_out (some ok)) = over (gives ok)
waited (over r) = over r

unfoldable pub advance : String → Step → CommandPhase → CommandPhase
advance i (started j) p = p
advance i (event event_type payload) p = told (ack_in i (event event_type payload)) p
advance i (device_answered j sent) p = if i == j then passed_on sent p else p
advance i (woken j) p = if i == j then waited p else p

unfoldable pub phase_after : String → List Step → CommandPhase → CommandPhase
phase_after i [] p = p
phase_after i (e ∷ steps) p = phase_after i steps (advance i e p)

-- No step starts the command.
abbrev pub IsNotStarted : String → List Step → Type 0
IsNotStarted i [] = Unit
IsNotStarted i (started j ∷ steps) = ((i == j) ≡ false) × IsNotStarted i steps
IsNotStarted i (e ∷ steps) = IsNotStarted i steps

-- Where a command in a phase is.
abbrev pub place_of : CommandPhase → Place
place_of (going_out ack) = sending
place_of (gone_out ack) = waiting
place_of (over r) = ended r
