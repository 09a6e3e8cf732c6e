-- ===== src/Skills/Harmless.antt =====
-- skill_sandbox.py: what a program is like in which nothing forbidden is found.
use package.text.Mathlib.Text.{find?}
use oi_interface.Base.{
  String, List, Option, [], ◌∷◌, All, ◌≡◌, none, some, mem, Option-cases, not, refl, inl, ◌==◌, inr,
  false, ◌&&◌, Bool-cases,
}
use oi_interface.Skills.Code.{
  first_of, Node, pattern_in, operation_in, find_forbidden_operation, forbidden_name,
  first_forbidden, import_in, Argument, find_forbidden_import, forbidden_patterns, import_of,
  import_from, call_in, find_forbidden_call, operation_candidates, call, top_of, named,
  attribute_of, forbidden_imports, forbidden_calls, name_of, attribute, computed, other,
}

something : {A : Type 0} (a : A) → ¬ (some a ≡ none)
something a e = cc

-- A program without a forbidden pattern in a name, an attribute or a text that is an argument of a call.
abbrev HasNone : (String → String) → String → List String → Type 0
HasNone lower c patterns = All (λ p. find? (lower c) p ≡ none) patterns

abbrev pub IsHarmless : (String → String) → List Node → Type 0
IsHarmless lower nodes =
    All (λ n. All (λ c. HasNone lower c forbidden_patterns) (operation_candidates n)) nodes

pattern_in-none :
    (lowered : String) (patterns : List String)
    → pattern_in patterns lowered ≡ none
    → All (λ p. find? lowered p ≡ none) patterns
unfolding pattern_in
pattern_in-none lowered [] h = tt
pattern_in-none lowered (p ∷ patterns) h = elim (Option-cases (find? lowered p)) [
  | inl e ↦ (e, pattern_in-none lowered patterns (rw e at h))
  | inr (x, e) ↦ absurd (something _ (rw e at h))
]

first_of-none : {A : Type 0} (a b : Option A) → first_of a b ≡ none → (a ≡ none) × (b ≡ none)
first_of-none none b h = (refl, h)
first_of-none (some x) b h = cc

operation_in-none :
    (lower : String → String) (candidates : List String)
    → operation_in lower candidates ≡ none
    → All (λ c. HasNone lower c forbidden_patterns) candidates
unfolding operation_in
operation_in-none lower [] h = tt
operation_in-none lower (c ∷ candidates) h =
    let (here, later) =
      first_of-none (pattern_in forbidden_patterns (lower c)) (operation_in lower candidates) h in
    (pattern_in-none (lower c) forbidden_patterns here, operation_in-none lower candidates later)

pub find_forbidden_operation-none :
    (lower : String → String) (nodes : List Node)
    → find_forbidden_operation lower nodes ≡ none
    → IsHarmless lower nodes
unfolding find_forbidden_operation
find_forbidden_operation-none lower [] h = tt
find_forbidden_operation-none lower (n ∷ nodes) h =
    let (here, later) =
      first_of-none (operation_in lower (operation_candidates n))
        (find_forbidden_operation lower nodes) h in
    (
      operation_in-none lower (operation_candidates n) here,
      find_forbidden_operation-none lower nodes later,
    )

-- A node with no import of a forbidden module and no call of a forbidden function.
abbrev pub IsAllowed : Node → Type 0
IsAllowed (import_of names) = All (λ name. mem (top_of name) forbidden_imports ≡ false) names
IsAllowed (import_from none) = Unit
IsAllowed (import_from (some name)) =
    (not (name == "") && mem (top_of name) forbidden_imports) ≡ false
IsAllowed (call (named name) args) = mem name forbidden_calls ≡ false
IsAllowed (call (attribute_of value name) args) =
    (value == "importlib" && name == "import_module") ≡ false
IsAllowed (call computed args) = Unit
IsAllowed (name_of name) = Unit
IsAllowed (attribute name) = Unit
IsAllowed other = Unit

forbidden_name-none :
    (name : String) → forbidden_name name ≡ none → mem (top_of name) forbidden_imports ≡ false
forbidden_name-none name h = elim (Bool-cases (mem (top_of name) forbidden_imports)) [
  | inl t ↦ absurd (something _ (rw t at h))
  | inr t ↦ t
]

first_forbidden-none :
    (names : List String)
    → first_forbidden names ≡ none
    → All (λ name. mem (top_of name) forbidden_imports ≡ false) names
unfolding first_forbidden
first_forbidden-none [] h = tt
first_forbidden-none (name ∷ names) h =
    let (here, later) = first_of-none (forbidden_name name) (first_forbidden names) h in
    (forbidden_name-none name here, first_forbidden-none names later)

import_from-none :
    (name : String)
    → import_in (import_from (some name)) ≡ none
    → (not (name == "") && mem (top_of name) forbidden_imports) ≡ false
import_from-none name h = elim (Bool-cases (name == "")) [
  | inl t ↦ rw t refl
  | inr t ↦ rw t (forbidden_name-none name (rw t at h))
]

call_name-none :
    (name : String) (args : List Argument)
    → call_in (call (named name) args) ≡ none
    → mem name forbidden_calls ≡ false
call_name-none name args h = elim (Bool-cases (mem name forbidden_calls)) [
  | inl t ↦ absurd (something _ (rw t at h))
  | inr t ↦ t
]

call_attribute-none :
    (value name : String) (args : List Argument)
    → call_in (call (attribute_of value name) args) ≡ none
    → (value == "importlib" && name == "import_module") ≡ false
call_attribute-none value name args h =
    elim (Bool-cases (value == "importlib" && name == "import_module")) [
      | inl t ↦ absurd (something _ (rw t at h))
      | inr t ↦ t
    ]

node-IsAllowed : (n : Node) → import_in n ≡ none → call_in n ≡ none → IsAllowed n
node-IsAllowed (import_of names) i c = first_forbidden-none names i
node-IsAllowed (import_from none) i c = tt
node-IsAllowed (import_from (some name)) i c = import_from-none name i
node-IsAllowed (call (named name) args) i c = call_name-none name args c
node-IsAllowed (call (attribute_of value name) args) i c = call_attribute-none value name args c
node-IsAllowed (call computed args) i c = tt
node-IsAllowed (name_of name) i c = tt
node-IsAllowed (attribute name) i c = tt
node-IsAllowed other i c = tt

pub nodes-IsAllowed :
    (lower : String → String) (nodes : List Node)
    → find_forbidden_import lower nodes ≡ none
    → find_forbidden_call lower nodes ≡ none
    → All IsAllowed nodes
unfolding find_forbidden_import find_forbidden_call
nodes-IsAllowed lower [] i c = tt
nodes-IsAllowed lower (n ∷ nodes) i c =
    let (i', is) = first_of-none (import_in n) (find_forbidden_import lower nodes) i in
    let (c', cs) = first_of-none (call_in n) (find_forbidden_call lower nodes) c in
    (node-IsAllowed n i' c', nodes-IsAllowed lower nodes is cs)
