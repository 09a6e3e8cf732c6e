-- ===== src/Skills/Tests.antt =====
-- Skills on a few programs, and the theorems there.
use oi_interface.Base.{
  String, Bool, true, false, List, [], ◌∷◌, Option, none, some, ◌≡◌, refl, ◌&&◌, mem, ◌==◌,
  if◌then◌else◌, Bool-cases, inl, eq_of_test, inr, All,
}
use oi_interface.Dict.{Dict, get}
use oi_interface.Sort.{Order}
use oi_interface.Json.{Json, null}
use oi_interface.Skills.Broker.{check_permission, is_operation_allowed, get_allowed_tools, limited}
use oi_interface.Skills.Permitted.{check_permission-allowed}
use oi_interface.Skills.Code.{Node, import_of, call, named, name_of, literal, other}
use oi_interface.Skills.Sandbox.{
  Skill, Process, exited, execute_skill, result_of, validate_skill_code, forbidden_import,
  forbidden_operation,
}
use oi_interface.Skills.Validated.{
  run, run-AllClean, registers, deletes, Call, execute_skill-runs, AllClean, IsClean, run-IsClean,
  MayRun,
}
use oi_interface.Skills.Harmless.{IsAllowed, IsHarmless}

abbrev lower : String → String
lower s = s

-- An order in which no text is before another.
abbrev flat : Order String
flat = record { lt = λ a b. false; asym = λ a b h. refl; le_trans = λ a b c h k. refl }

check_permission-allowed_example :
    check_permission lower "play_audio" limited
    ≡ (is_operation_allowed lower "play_audio" && mem "play_audio" (get_allowed_tools flat limited))
check_permission-allowed_example = check_permission-allowed lower flat "play_audio" limited

abbrev parse : String → Option (List Node)
parse code =
    if code == "import os"
    then some (import_of ("os.path" ∷ []) ∷ [])
    else if code == "flash()"
    then some (call (named "send") (literal "flash_firmware now" ∷ []) ∷ [])
    else some (name_of "result" ∷ other ∷ [])

import_found : validate_skill_code lower parse "import os" ≡ some (forbidden_import "os")
unfolding validate_skill_code oi_interface.Base.same oi_interface.Skills.Code.find_forbidden_import
    oi_interface.Skills.Code.first_forbidden mem oi_interface.Characters.Text.split_at
import_found = refl

operation_found :
    validate_skill_code lower parse "flash()" ≡ some (forbidden_operation "flash_firmware")
unfolding validate_skill_code oi_interface.Base.same oi_interface.Skills.Code.find_forbidden_import
    oi_interface.Skills.Code.find_forbidden_call mem
    oi_interface.Skills.Code.find_forbidden_operation oi_interface.Skills.Code.operation_in
    oi_interface.Skills.Code.operation_candidates oi_interface.Skills.Code.pattern_in
operation_found = refl

abbrev skill : String → String → Skill
skill name code = record {
  name = name;
  description = "";
  code = code;
  version = "1.0.0";
  parameters = [];
  created_at = "";
  skill_id = "";
  risk_level = limited;
}

abbrev digest : String → String
digest s = s

abbrev calls : List Call
calls =
    registers "now" (skill "a" "import os")
    ∷ registers "now" (skill "b" "result = 1")
    ∷ registers "now" (skill "c" "result = 2")
    ∷ deletes "c"
    ∷ []

nothing_clean : AllClean lower parse digest []
unfolding get
nothing_clean name s g = cc

calls_clean : AllClean lower parse digest (run lower parse digest calls [])
calls_clean = run-AllClean lower parse digest calls [] nothing_clean

abbrev kept : Skill
kept = record (skill "b" "result = 1") { created_at = "now"; skill_id = "b1.0.0" }

b_is_kept : get "b" (run lower parse digest calls []) ≡ some kept
unfolding get run oi_interface.Skills.Validated.step oi_interface.Skills.Sandbox.delete_skill
    oi_interface.Skills.Sandbox.register_skill validate_skill_code oi_interface.Base.same
    oi_interface.Skills.Code.find_forbidden_import oi_interface.Skills.Code.find_forbidden_call
    oi_interface.Skills.Code.find_forbidden_operation oi_interface.Skills.Code.operation_in
    oi_interface.Skills.Code.operation_candidates oi_interface.Skills.Code.pattern_in
    oi_interface.Dict.put oi_interface.Skills.Code.first_forbidden mem
    oi_interface.Characters.Text.split_at oi_interface.Dict.pop
b_is_kept = refl

run-IsClean_example :
    IsClean lower parse "result = 1"
    × ((nodes : List Node) × (parse "result = 1" ≡ some nodes)
        × All IsAllowed nodes
        × IsHarmless lower nodes)
run-IsClean_example = run-IsClean lower parse digest calls "b" kept b_is_kept

abbrev process : String → Dict Json → Process
process code args = exited true "{}" ""

-- Another process, which differs on a program that flashes.
abbrev flashing : String → Dict Json → Process
flashing code args = if code == "flash()" then exited false "" "bricked" else process code args

abbrev flasher : Dict Skill
flasher = ("b", skill "b" "flash()") ∷ []

harmless_same : (code : String) → MayRun lower (parse code) → process code [] ≡ flashing code []
unfolding oi_interface.Base.same oi_interface.Skills.Code.operation_candidates
harmless_same code h = elim (Bool-cases (code == "flash()")) [
  | inl t ↦ absurd (not_harmless (rw (eq_of_test code "flash()" t) at h))
  | inr t ↦ rw t refl
]
  where
    not_harmless : ¬ MayRun lower (parse "flash()")
    not_harmless h = let found = h.0.0.1.1.1.0 in cc

execute_skill-runs_example :
    (execute_skill lower parse process (λ s. some null) lower "b" [] flasher
      ≡ execute_skill lower parse flashing (λ s. some null) lower "b" [] flasher)
    × (execute_skill lower parse process
          (λ s. some null)
          lower
          "b"
          []
          (run lower parse digest calls [])
        ≡ some (result_of lower parse process (λ s. some null) lower (process "result = 1" [])))
execute_skill-runs_example =
    execute_skill-runs lower parse (λ s. some null) lower digest calls process flashing "b" []
      flasher kept harmless_same b_is_kept
