-- ===== src/Skills/Permitted.antt =====
-- skill_sandbox.py: the two answers of the broker agree.
use oi_interface.Base.{
  String, Bool, true, false, List, [], ◌∷◌, Option, none, some, ◌==◌, if◌then◌else◌, mem, not, ◌&&◌,
  ◌≡◌, refl, ◌∙◌, arith, IsDistinct, Bool-cases, eq_of_test, inl, inr, ◌||◌, keep_if,
}
use oi_interface.Dict.{Dict, get, keys}
use oi_interface.Sort.{Order, mem-sort}
use oi_interface.Skills.Broker.{
  RiskLevel, is_within, permissions, check_permission, get_allowed_tools, allowed_in, check_known,
  forbidden_operations, is_operation_allowed,
}

-- Only names of the table are allowed.
mem-allowed_in_absent :
    (x : String) (tools : Dict RiskLevel) (skill : RiskLevel)
    → mem x (keys tools) ≡ false
    → mem x (allowed_in tools skill) ≡ false
unfolding mem allowed_in
mem-allowed_in_absent x [] skill h = refl
mem-allowed_in_absent x ((name, tool) ∷ tools) skill h = elim (Bool-cases (is_within tool skill)) [
  | inl t ↦ rw t (ground (arith, mem-allowed_in_absent x tools skill))
  | inr t ↦ rw t (mem-allowed_in_absent x tools skill (ground arith))
]

mem-allowed_in :
    (x : String) (tools : Dict RiskLevel) (skill : RiskLevel)
    → IsDistinct (keys tools)
    → mem x (allowed_in tools skill) ≡ check_known (get x tools) skill
unfolding mem allowed_in get
mem-allowed_in x [] skill h = refl
mem-allowed_in x ((name, tool) ∷ tools) skill h = elim (Bool-cases (x == name)) [
  | inl e ↦
      let absent : mem x (keys tools) ≡ false = rw (eq_of_test x name e) h.0 in
      elim (Bool-cases (is_within tool skill)) [
        | inl t ↦ rw (e, t) (ground arith)
        | inr t ↦ rw (e, t) (mem-allowed_in_absent x tools skill absent)
      ]
  | inr e ↦ elim (Bool-cases (is_within tool skill)) [
    | inl t ↦ rw (e, t) (ground (arith, mem-allowed_in x tools skill h.1))
    | inr t ↦ rw (e, t) (mem-allowed_in x tools skill h.1)
  ]
]

distinct_permissions : IsDistinct (keys permissions)
unfolding mem oi_interface.Base.same
distinct_permissions = (
  refl,
  (refl, (refl, (refl, (refl, (refl, (refl, (refl, (refl, (refl, (refl, (refl, tt))))))))))),
)

-- A skill may use a tool exactly if it is among those that are listed for its level, and is no operation
-- that is forbidden to all.
pub check_permission-allowed :
    (lower : String → String) (order : Order String) (tool : String) (skill : RiskLevel)
    → check_permission lower tool skill
      ≡ (is_operation_allowed lower tool && mem tool (get_allowed_tools order skill))
unfolding check_permission get_allowed_tools is_operation_allowed
check_permission-allowed lower order tool skill =
    elim (Bool-cases (mem (lower tool) forbidden_operations)) [
      | inl t ↦ rw t refl
      | inr t ↦
          rw
            (
              t,
              mem-sort order tool (allowed_in permissions skill),
              mem-allowed_in tool permissions skill distinct_permissions,
            )
            refl
    ]
