-- ===== src/Skills/Sandbox.antt =====
-- skill_sandbox.py: `SkillSandbox`. The parser of Python, the lower case of a text, the hash that makes an id,
-- and the subprocess are parameters.
use Prim.Native.String.{◌++◌ as ◌<>◌}
use oi_interface.Base.{
  String, Bool, true, false, List, Option, none, some, if◌then◌else◌, truthy, ◌⊎◌, inl, inr, map,
  not, ◌&&◌,
}
use oi_interface.Dict.{Dict, get, put, pop, has, values, is_some, or_default}
use oi_interface.Json.{Json, bool, null, int, float, text, array, object, to_dict}
use oi_interface.Skills.Broker.{RiskLevel}
use oi_interface.Skills.Code.{
  Node, find_forbidden_import, find_forbidden_call, find_forbidden_operation,
}

pub record Skill : Type 0 where
  pub name : String
  pub description : String
  pub code : String
  pub version : String
  pub parameters : List (Dict Json)
  pub created_at : String
  pub skill_id : String
  pub risk_level : RiskLevel

-- Without the time that the execution took.
pub record SkillResult : Type 0 where
  pub success : Json
  pub result : Json
  pub error : Option Json

pub record SkillManifest : Type 0 where
  pub manifest_name : String
  pub manifest_version : String
  pub manifest_description : String
  pub manifest_parameters : List (Dict Json)

-- `SkillValidationError` by what was found, and the `SyntaxError` of the parser.
pub data CodeError : Type 0 where
  syntax_error : CodeError
  forbidden_import : String → CodeError
  forbidden_call : String × String → CodeError
  forbidden_operation : String → CodeError

-- How the subprocess ends: with a return code that is 0 or not, or not in time.
pub data Process : Type 0 where
  exited : (is_zero : Bool) → (stdout stderr : String) → Process
  timed_out : (limit : String) → Process
  failed : String → Process

module _ (lower : String → String) (parse : String → Option (List Node)) where
  abbrev pub check_nodes :
      Option String → Option (String × String) → Option String → Option CodeError
  check_nodes (some i) c o = some (forbidden_import i)
  check_nodes none (some c) o = some (forbidden_call c)
  check_nodes none none (some o) = some (forbidden_operation o)
  check_nodes none none none = none

  abbrev pub check_tree : Option (List Node) → Option CodeError
  check_tree none = some syntax_error
  check_tree (some nodes) =
      check_nodes (find_forbidden_import lower nodes) (find_forbidden_call lower nodes)
        (find_forbidden_operation lower nodes)

  unfoldable pub validate_skill_code : String → Option CodeError
  validate_skill_code code = check_tree (parse code)

  abbrev tree_allowed : Option (List Node) → Bool
  tree_allowed none = true
  tree_allowed (some nodes) = not (is_some (find_forbidden_operation lower nodes))

  -- The check at execution; code that does not parse passes.
  unfoldable pub check_operation_allowed : String → Bool
  check_operation_allowed code = tree_allowed (parse code)

  module _ (digest : String → String) where
    -- The skill as it is stored: with an id and a time, where it has none.
    abbrev pub filled : String → Skill → Skill
    filled now s = record s {
      skill_id = if truthy s.skill_id then s.skill_id else digest (s.name <> s.version);
      created_at = if truthy s.created_at then s.created_at else now;
    }

    abbrev pub register_checked :
        String → Skill → Dict Skill → Option CodeError → Dict Skill × (CodeError ⊎ String)
    register_checked now s skills (some e) = (skills, inl e)
    register_checked now s skills none =
        (put s.name (filled now s) skills, inr (filled now s).skill_id)

    unfoldable pub register_skill : String → Skill → Dict Skill → Dict Skill × (CodeError ⊎ String)
    register_skill now s skills = register_checked now s skills (validate_skill_code s.code)

  module _ (run : String → Dict Json → Process) (loads : String → Option Json)
      (strip : String → String) where
    abbrev error_in : Json → Option Json
    error_in null = none
    error_in v = some v

    abbrev type_of : Json → String
    type_of null = "NoneType"
    type_of (bool b) = "bool"
    type_of (int n) = "int"
    type_of (float digits) = "float"
    type_of (text s) = "str"
    type_of (array vs) = "list"
    type_of (object fs) = "dict"

    -- The output of a wrapped skill is an object; other JSON is an `AttributeError`, which is caught.
    abbrev from_output : String → Option Json → SkillResult
    from_output stdout none = record {
      success = bool true;
      result = text (strip stdout);
      error = none;
    }
    from_output stdout (some (object fs)) = record {
      success = or_default (get "success" (to_dict fs)) (bool false);
      result = or_default (get "result" (to_dict fs)) null;
      error = error_in (or_default (get "error" (to_dict fs)) null);
    }
    from_output stdout (some v) = record {
      success = bool false;
      result = null;
      error = some (text ("'" <> type_of v <> "' object has no attribute 'get'"));
    }

    abbrev pub result_of : Process → SkillResult
    result_of (exited is_zero stdout stderr) =
        if is_zero && truthy (strip stdout) then from_output stdout (loads stdout) else record {
          success = bool false;
          result = null;
          error = some (text (if truthy stderr then stderr else "Execution failed"));
        }
    result_of (timed_out limit) = record {
      success = bool false;
      result = null;
      error = some (text ("Execution timed out after " <> limit <> "s"));
    }
    result_of (failed e) = record { success = bool false; result = null; error = some (text e) }

    abbrev pub refusal : SkillResult
    refusal = record {
      success = bool false;
      result = null;
      error = some (text "Skill contains forbidden operations that could affect firmware");
    }

    abbrev pub execute_known : Dict Json → Option Skill → Option SkillResult
    execute_known args none = none
    execute_known args (some s) =
        if not (check_operation_allowed s.code)
        then some refusal
        else some (result_of (run s.code args))

    -- None is `SkillNotFoundError`.
    unfoldable pub execute_skill : String → Dict Json → Dict Skill → Option SkillResult
    execute_skill name args skills = execute_known args (get name skills)

unfoldable pub delete_skill : String → Dict Skill → Dict Skill × Bool
delete_skill name skills = if has name skills then (pop name skills, true) else (skills, false)

abbrev manifest : Skill → SkillManifest
manifest s = record {
  manifest_name = s.name;
  manifest_version = s.version;
  manifest_description = s.description;
  manifest_parameters = s.parameters;
}

unfoldable pub list_skills : Dict Skill → List SkillManifest
list_skills skills = map manifest (values skills)
