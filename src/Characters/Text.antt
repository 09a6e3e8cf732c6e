-- ===== src/Characters/Text.antt =====
-- character_packs/__init__.py: texts as sequences of characters: lengths, parts and tests.
use Prim.Native.Nat.{ℕ}
use Prim.Native.Char.{Char, code}
use Prim.Native.String.{String, [], ◌∷◌, ◌++◌ as ◌<>◌}
use mathlib.Core.List.{List, [], ◌∷◌}
use oi_interface.Base.{Bool, true, false, ◌&&◌, if◌then◌else◌, eqb}

-- `s.replace(c, "")` for a character, by its code.
unfoldable pub without : ℕ → String → String
without n [] = []
without n (c ∷ s) = let rest = without n s in if eqb (code c) n then rest else c ∷ rest

-- `s.replace(c, d)` for two characters.
unfoldable pub replaced : ℕ → Char → String → String
replaced n d [] = []
replaced n d (c ∷ s) = let rest = replaced n d s in if eqb (code c) n then d ∷ rest else c ∷ rest

-- A character in front of the first part.
abbrev in_front : Char → List String → List String
in_front c [] = (c ∷ []) ∷ []
in_front c (part ∷ parts) = (c ∷ part) ∷ parts

-- `s.split(c)`
unfoldable pub split_at : ℕ → String → List String
split_at n [] = [] ∷ []
split_at n (c ∷ s) =
    let parts = split_at n s in if eqb (code c) n then [] ∷ parts else in_front c parts

module _ (p : Char → Bool) where
  abbrev every : String → Bool
  every [] = true
  every (c ∷ s) = p c && every s

  -- `s.isdigit()`, `s.isalnum()`: every character passes, and there is one.
  unfoldable pub is_all : String → Bool
  is_all [] = false
  is_all (c ∷ s) = p c && every s

  -- The parts between the characters that pass, the empty ones too.
  unfoldable pub parts_between : String → List String
  parts_between [] = [] ∷ []
  parts_between (c ∷ s) =
      let parts = parts_between s in if p c then [] ∷ parts else in_front c parts

unfoldable pub nonempty : List String → List String
nonempty [] = []
nonempty ([] ∷ parts) = nonempty parts
nonempty ((c ∷ s) ∷ parts) = (c ∷ s) ∷ nonempty parts

-- `sep.join(parts)` for a character.
unfoldable pub joined : Char → List String → String
joined sep [] = []
joined sep (part ∷ []) = part
joined sep (part ∷ next ∷ parts) = part <> (sep ∷ joined sep (next ∷ parts))
