-- ===== src/Device/State.antt =====
-- The states of a device: `State` of the three state.py files, which list the same twelve, and the
-- commands that the gateway sends, by the name of their operator.
use oi_interface.Base.{Bool, List, Option, true, false, String, ◌∷◌, ℕ, ◌||◌, []}

pub data State : Type 0 where
  booting pairing ready recording uploading thinking response_cached playing : State
  muted offline error safe_mode : State

unfoldable pub State-discrete : Discrete State
State-discrete = hlevel

infix 50 ◌is◌
abbrev pub ◌is◌ : State → State → Bool
s is t = elim (State-discrete s t) [ yes _ ↦ true | no _ ↦ false ]

-- `s in states`
unfoldable pub among : State → List State → Bool
among s [] = false
among s (t ∷ ts) = (s is t) || among s ts

-- The operators that `receive_command` tells apart.
pub data Op : Type 0 where
  show_status show_card show_delta : Op
  put_begin put_chunk put_end audio_play audio_stop : Op
  mute_until set_brightness set_volume set_led reboot shutdown : Op
  stateless unknown : Op

-- The arguments that some operator reads; a missing key is `none`, `is_final` is false if missing.
pub record Args : Type 0 where
  pub state : Option String
  pub label : Option String
  pub is_final : Bool
  pub until : Option String
  pub value : Option ℕ
  pub level : Option ℕ
  pub enabled : Option Bool
