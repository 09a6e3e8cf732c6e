-- ===== src/Skills/Validated.antt =====
-- skill_sandbox.py: what the skills of a sandbox contain, and which of them run.
use mathlib.Core.Path.{subst}
use oi_interface.Base.{
  String, List, [], ◌∷◌, Option, none, some, ◌==◌, inl, inr, ◌≡◌, refl, Option-cases, Bool-cases,
  ◌∙◌, sym, All, true, ap, not, false,
}
use oi_interface.Dict.{Dict, get, pop, has, get-put, get-pop, is_some}
use oi_interface.Json.{Json}
use oi_interface.Skills.Code.{
  Node, find_forbidden_import, find_forbidden_call, find_forbidden_operation,
}
use oi_interface.Skills.Sandbox.{
  Skill, CodeError, Process, validate_skill_code, check_tree, register_skill, register_checked,
  filled, delete_skill, execute_skill, check_operation_allowed, result_of,
}
use oi_interface.Skills.Harmless.{
  IsAllowed, IsHarmless, find_forbidden_operation-none, nodes-IsAllowed,
}

-- Code whose tree has no forbidden import, call or operation.
pub record IsClean (lower : String → String) (parse : String → Option (List Node)) (code : String)
    : Type 0 where
  pub nodes : List Node
  pub parses : parse code ≡ some nodes
  pub imports : find_forbidden_import lower nodes ≡ none
  pub calls : find_forbidden_call lower nodes ≡ none
  pub operations : find_forbidden_operation lower nodes ≡ none

pub data Call : Type 0 where
  registers : (now : String) → Skill → Call
  deletes : String → Call

module _ (lower : String → String) (parse : String → Option (List Node))
    (digest : String → String) where
  unfoldable pub step : Call → Dict Skill → Dict Skill
  step (registers now s) skills = (register_skill lower parse digest now s skills).0
  step (deletes name) skills = (delete_skill name skills).0

  unfoldable pub run : List Call → Dict Skill → Dict Skill
  run [] skills = skills
  run (c ∷ calls) skills = run calls (step c skills)

  abbrev pub AllClean : Dict Skill → Type 0
  AllClean skills =
      (name : String) (s : Skill) → get name skills ≡ some s → IsClean lower parse s.code

  check_tree-IsClean :
      (code : String) (o : Option (List Node))
      → parse code ≡ o
      → check_tree lower parse o ≡ none
      → IsClean lower parse code
  check_tree-IsClean code none p h = cc
  check_tree-IsClean code (some nodes) p h =
      elim (Option-cases (find_forbidden_import lower nodes)) [
        | inl i ↦ elim (Option-cases (find_forbidden_call lower nodes)) [
          | inl c ↦ elim (Option-cases (find_forbidden_operation lower nodes)) [
            | inl o ↦ record { nodes = nodes; parses = p; imports = i; calls = c; operations = o }
            | inr (o, e) ↦ elim (clash (rw (i, c, e) at h)) [ ]
          ]
          | inr (c, e) ↦ elim (clash (rw (i, e) at h)) [ ]
        ]
        | inr (i, e) ↦ elim (clash (rw e at h)) [ ]
      ]
    where
      clash : {e : CodeError} → some e ≡ none → ⊥
      clash h = cc

  register_checked-AllClean :
      (now : String) (s : Skill) (skills : Dict Skill) (o : Option CodeError)
      → validate_skill_code lower parse s.code ≡ o
      → AllClean skills
      → AllClean (register_checked lower parse digest now s skills o).0
  unfolding validate_skill_code
  register_checked-AllClean now s skills (some e) v h name t g = h name t g
  register_checked-AllClean now s skills none v h name t g = elim (Bool-cases (name == s.name)) [
    | inl b ↦
        let same : some (filled lower parse digest now s) ≡ some t =
          sym (get-put name s.name (filled lower parse digest now s) skills ∙ rw b refl) ∙ g in
        let same_code : s.code ≡ t.code = cc in
        subst (IsClean lower parse) same_code (check_tree-IsClean s.code (parse s.code) refl v)
    | inr b ↦
        h name t
          (sym (get-put name s.name (filled lower parse digest now s) skills ∙ rw b refl) ∙ g)
  ]

  delete_skill-AllClean :
      (name : String) (skills : Dict Skill)
      → AllClean skills
      → AllClean (delete_skill name skills).0
  unfolding delete_skill
  delete_skill-AllClean name skills h = elim (Bool-cases (has name skills)) [
    | inl t ↦ rw t (λ k s g. kept k s g)
    | inr t ↦ rw t h
  ]
    where
      kept :
          (k : String) (s : Skill) → get k (pop name skills) ≡ some s → IsClean lower parse s.code
      kept k s g = elim (Bool-cases (k == name)) [
        | inl t ↦ let gone : none ≡ some s = sym (get-pop k name skills ∙ rw t refl) ∙ g in cc
        | inr t ↦ h k s (sym (get-pop k name skills ∙ rw t refl) ∙ g)
      ]

  step-AllClean : (c : Call) (skills : Dict Skill) → AllClean skills → AllClean (step c skills)
  unfolding step register_skill
  step-AllClean (registers now s) skills h =
      register_checked-AllClean now s skills (validate_skill_code lower parse s.code) refl h
  step-AllClean (deletes name) skills h = delete_skill-AllClean name skills h

  pub run-AllClean :
      (calls : List Call) (skills : Dict Skill) → AllClean skills → AllClean (run calls skills)
  unfolding run
  run-AllClean [] skills h = h
  run-AllClean (c ∷ calls) skills h = run-AllClean calls (step c skills) (step-AllClean c skills h)

  -- Whatever is registered and deleted in a new sandbox, the code of each skill that is found there parses,
  -- and the searches for forbidden imports, calls and operations find nothing in its tree: no node of it
  -- imports a forbidden module or calls a forbidden function, and no name, attribute or text argument has
  -- a forbidden pattern.
  pub run-IsClean :
      (calls : List Call) (name : String) (s : Skill)
      → get name (run calls []) ≡ some s
      → IsClean lower parse s.code
        × ((nodes : List Node) × (parse s.code ≡ some nodes)
            × All IsAllowed nodes
            × IsHarmless lower nodes)
  unfolding get
  run-IsClean calls name s g =
      let clean = run-AllClean calls [] (λ k t h. cc) name s g in
      (
        clean,
        (
          clean.nodes,
          clean.parses,
          nodes-IsAllowed lower clean.nodes clean.imports clean.calls,
          find_forbidden_operation-none lower clean.nodes clean.operations,
        ),
      )

-- What may be run: a program that does not parse, or one without such a pattern.
abbrev pub MayRun : (String → String) → Option (List Node) → Type 0
MayRun lower none = Unit
MayRun lower (some nodes) = IsHarmless lower nodes

module _ (lower : String → String) (parse : String → Option (List Node))
    (loads : String → Option Json) (strip : String → String) where
  allowed-MayRun :
      (code : String) → check_operation_allowed lower parse code ≡ true → MayRun lower (parse code)
  unfolding check_operation_allowed
  allowed-MayRun code h = elim (Option-cases (parse code)) [
    | inl e ↦ rw e tt
    | inr (nodes, e) ↦
        rw e (find_forbidden_operation-none lower nodes (no_operation nodes (rw e at h)))
  ]
    where
      refused : ¬ (false ≡ true)
      refused e = cc

      no_operation :
          (nodes : List Node)
          → not (is_some (find_forbidden_operation lower nodes)) ≡ true
          → find_forbidden_operation lower nodes ≡ none
      no_operation nodes h = elim (Option-cases (find_forbidden_operation lower nodes)) [
        | inl e ↦ e
        | inr (p, e) ↦ absurd (refused (rw e at h))
      ]

  execute_skill-same :
      (process process' : String → Dict Json → Process) (name : String) (args : Dict Json)
      (skills : Dict Skill)
      → ((code : String) → MayRun lower (parse code) → process code args ≡ process' code args)
      → execute_skill lower parse process loads strip name args skills
        ≡ execute_skill lower parse process' loads strip name args skills
  unfolding execute_skill
  execute_skill-same process process' name args skills agree =
      elim (Option-cases (get name skills)) [
        | inl e ↦ rw e refl
        | inr (s, e) ↦ elim (Bool-cases (check_operation_allowed lower parse s.code)) [
          | inl t ↦
              rw (e, t)
                (ap (λ r. some (result_of lower parse process loads strip r))
                  (agree s.code (allowed-MayRun s.code t)))
          | inr t ↦ rw (e, t) refl
        ]
      ]

  execute_skill-clean :
      (process : String → Dict Json → Process) (name : String) (args : Dict Json)
      (skills : Dict Skill) (s : Skill)
      → get name skills ≡ some s
      → IsClean lower parse s.code
      → execute_skill lower parse process loads strip name args skills
        ≡ some (result_of lower parse process loads strip (process s.code args))
  unfolding execute_skill check_operation_allowed
  execute_skill-clean process name args skills s e clean =
      rw (e, clean.parses, clean.operations) refl

  -- Executing a skill, whatever skills there are, does not depend on what the subprocess does with programs
  -- that parse and have a forbidden pattern in a name, an attribute or a text argument of a call: they are
  -- not run. And a skill that has been registered in a new sandbox and is still there is run: the result is
  -- what the subprocess makes of its code and the arguments.
  pub execute_skill-runs :
      (digest : String → String) (calls : List Call)
      (process process' : String → Dict Json → Process) (name : String) (args : Dict Json)
      (skills : Dict Skill) (s : Skill)
      → ((code : String) → MayRun lower (parse code) → process code args ≡ process' code args)
      → get name (run lower parse digest calls []) ≡ some s
      → (execute_skill lower parse process loads strip name args skills
          ≡ execute_skill lower parse process' loads strip name args skills)
        × (execute_skill lower parse process loads strip name args (run lower parse digest calls [])
            ≡ some (result_of lower parse process loads strip (process s.code args)))
  execute_skill-runs digest calls process process' name args skills s agree g = (
    execute_skill-same process process' name args skills agree,
    execute_skill-clean process name args (run lower parse digest calls []) s g
        (run-IsClean lower parse digest calls name s g).0,
  )
