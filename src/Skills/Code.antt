-- ===== src/Skills/Code.antt =====
-- skill_sandbox.py: the search for forbidden code. The program is the list of the nodes of its tree in the
-- order of `ast.walk`, with what the search looks at.
use package.text.Mathlib.Text.{find?}
use oi_interface.Base.{
  String, List, [], ◌∷◌, Option, none, some, ◌==◌, if◌then◌else◌, mem, ◌&&◌, truthy, head?,
}
use oi_interface.Dict.{is_some, or_default}
use oi_interface.Characters.Text.{split_at}

-- The function of a call: a name, an attribute of a name, or another expression.
pub data Function : Type 0 where
  named : String → Function
  attribute_of : String → String → Function
  computed : Function

-- An argument, or the value of a keyword: a text, or another expression.
pub data Argument : Type 0 where
  literal : String → Argument
  expression : Argument

pub data Node : Type 0 where
  import_of : (names : List String) → Node
  import_from : (module_name : Option String) → Node
  call : Function → List Argument → Node
  name_of : String → Node
  attribute : String → Node
  other : Node

abbrev pub forbidden_imports : List String
forbidden_imports = "os" ∷ "sys" ∷ "subprocess" ∷ "socket" ∷ "requests" ∷ "http" ∷ []

abbrev pub forbidden_calls : List String
forbidden_calls = "eval" ∷ "exec" ∷ "open" ∷ "__import__" ∷ []

abbrev pub forbidden_patterns : List String
forbidden_patterns =
    "rebind" ∷ "button_map" ∷ "button_override" ∷ "flash_firmware" ∷ "write_flash"
    ∷ "update_firmware" ∷ "ota_update" ∷ "bypass_mute" ∷ "force_unmute" ∷ "unmute" ∷ []

-- `name.split(".", 1)[0]`
abbrev pub top_of : String → String
top_of name = or_default (head? (split_at 46 name)) ""

-- The first answer of two searches.
abbrev pub first_of {ℓ} : {A : Type ℓ} → Option A → Option A → Option A
first_of none later = later
first_of (some a) later = some a

abbrev pub forbidden_name : String → Option String
forbidden_name name = if mem (top_of name) forbidden_imports then some (top_of name) else none

unfoldable pub first_forbidden : List String → Option String
first_forbidden [] = none
first_forbidden (name ∷ names) = first_of (forbidden_name name) (first_forbidden names)

-- One step of `_find_forbidden_import`.
abbrev pub import_in : Node → Option String
import_in (import_of names) = first_forbidden names
import_in (import_from (some name)) = if truthy name then forbidden_name name else none
import_in (import_from none) = none
import_in (call f args) = none
import_in (name_of name) = none
import_in (attribute name) = none
import_in other = none

abbrev call_of : Function → Option (String × String)
call_of (named name) = if mem name forbidden_calls then some (name, "") else none
call_of (attribute_of value name) =
    if value == "importlib" && name == "import_module" then some (value, name) else none
call_of computed = none

-- One step of `_find_forbidden_call`: the function, as the name or as the value and its attribute.
abbrev pub call_in : Node → Option (String × String)
call_in (call f args) = call_of f
call_in (import_of names) = none
call_in (import_from name) = none
call_in (name_of name) = none
call_in (attribute name) = none
call_in other = none

abbrev texts_in : List Argument → List String
texts_in [] = []
texts_in (literal s ∷ args) = s ∷ texts_in args
texts_in (expression ∷ args) = texts_in args

unfoldable pub operation_candidates : Node → List String
operation_candidates (name_of name) = name ∷ []
operation_candidates (attribute name) = name ∷ []
operation_candidates (call f args) = texts_in args
operation_candidates (import_of names) = []
operation_candidates (import_from name) = []
operation_candidates other = []

unfoldable pub pattern_in : List String → String → Option String
pattern_in [] lowered = none
pattern_in (p ∷ patterns) lowered =
    if is_some (find? lowered p) then some p else pattern_in patterns lowered

module _ (lower : String → String) where
  unfoldable pub operation_in : List String → Option String
  operation_in [] = none
  operation_in (c ∷ candidates) =
      first_of (pattern_in forbidden_patterns (lower c)) (operation_in candidates)

  unfoldable pub find_forbidden_import : List Node → Option String
  find_forbidden_import [] = none
  find_forbidden_import (n ∷ nodes) = first_of (import_in n) (find_forbidden_import nodes)

  unfoldable pub find_forbidden_call : List Node → Option (String × String)
  find_forbidden_call [] = none
  find_forbidden_call (n ∷ nodes) = first_of (call_in n) (find_forbidden_call nodes)

  unfoldable pub find_forbidden_operation : List Node → Option String
  find_forbidden_operation [] = none
  find_forbidden_operation (n ∷ nodes) =
      first_of (operation_in (operation_candidates n)) (find_forbidden_operation nodes)
