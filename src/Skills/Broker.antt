-- ===== src/Skills/Broker.antt =====
-- skill_sandbox.py: `ToolBroker`. The lower case of a text and the order of texts are parameters.
use oi_interface.Base.{
  String, Bool, true, false, List, [], ◌∷◌, Option, none, some, if◌then◌else◌, mem, not, leb, ℕ,
  ◌&&◌,
}
use oi_interface.Dict.{Dict, get}
use oi_interface.Sort.{Order, sort}

pub data RiskLevel : Type 0 where
  safe limited elevated restricted : RiskLevel

-- The value of the enumeration.
abbrev pub level : RiskLevel → ℕ
level safe = 1
level limited = 2
level elevated = 3
level restricted = 4

abbrev pub is_restricted : RiskLevel → Bool
is_restricted restricted = true
is_restricted r = false

abbrev pub forbidden_operations : List String
forbidden_operations =
    "rebind_buttons" ∷ "flash_firmware" ∷ "bypass_mute" ∷ "execute_system" ∷ "write_flash"
    ∷ "update_firmware" ∷ "button_map" ∷ "button_override" ∷ "unmute" ∷ "force_audio" ∷ []

-- `ToolPermissions`, in the order in which the broker registers them.
abbrev pub permissions : Dict RiskLevel
permissions =
    ("read_state", safe)
    ∷ ("list_devices", safe)
    ∷ ("show_status", limited)
    ∷ ("play_audio", limited)
    ∷ ("set_brightness", limited)
    ∷ ("mute_device", elevated)
    ∷ ("cache_audio", elevated)
    ∷ ("invoke_command", elevated)
    ∷ ("rebind_buttons", restricted)
    ∷ ("flash_firmware", restricted)
    ∷ ("bypass_mute", restricted)
    ∷ ("execute_system", restricted)
    ∷ []

-- A tool of this risk, for a skill of that level.
abbrev pub is_within : RiskLevel → RiskLevel → Bool
is_within tool skill = not (is_restricted tool) && leb (level tool) (level skill)

abbrev pub check_known : Option RiskLevel → RiskLevel → Bool
check_known none skill = false
check_known (some tool) skill = is_within tool skill

unfoldable pub check_permission : (String → String) → String → RiskLevel → Bool
check_permission lower tool skill =
    if mem (lower tool) forbidden_operations
    then false
    else check_known (get tool permissions) skill

unfoldable pub is_operation_allowed : (String → String) → String → Bool
is_operation_allowed lower operation = not (mem (lower operation) forbidden_operations)

unfoldable pub allowed_in : Dict RiskLevel → RiskLevel → List String
allowed_in [] skill = []
allowed_in ((name, tool) ∷ tools) skill =
    let rest = allowed_in tools skill in if is_within tool skill then name ∷ rest else rest

unfoldable pub get_allowed_tools : Order String → RiskLevel → List String
get_allowed_tools order skill = sort order (allowed_in permissions skill)
