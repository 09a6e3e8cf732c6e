-- ===== src/Datp/Text.antt =====
-- datp/messages.py: texts as sequences of characters, for prefixes of ids and for `_TS_RE`.
use Prim.Native.Nat.{ℕ, ◌-◌, ◌≤◌}
use Prim.Native.Char.{Char, code}
use Prim.Native.String.append
use text.Mathlib.TextLemmas.{length-cons}
use Prim.Native.String.{String, [], ◌∷◌, ◌++◌ as ◌<>◌, count}
use mathlib.Core.Bool.{Bool, true, false, ◌&&◌}
use mathlib.Core.List.{List, [], ◌∷◌}
use oi_interface.Base.{
  if◌then◌else◌, ltb, eqb, ◌≡◌, refl, ap, Bool-cases, arith, inl, inr, eq_of_test, ◌==◌, truthy,
  ◌∙◌, sym,
}

-- `s[:n]`
unfoldable pub first_chars : ℕ → String → String
first_chars n [] = []
first_chars n (c ∷ s) = let rest = first_chars (n - 1) s in if ltb 0 n then c ∷ rest else []

-- The parts of the pattern: `\d`, or a character by its code.
pub data Part : Type 0 where
  digit : Part
  char : ℕ → Part

-- `$` is the end, also before a line break that ends the text.
abbrev at_end : String → Bool
at_end [] = true
at_end (c ∷ []) = eqb (code c) 10
at_end (c ∷ d ∷ s) = false

module _ (is_digit : Char → Bool) where
  abbrev fits : Part → Char → Bool
  fits digit c = is_digit c
  fits (char n) c = eqb (code c) n

  unfoldable pub matches : List Part → String → Bool
  matches [] s = at_end s
  matches (p ∷ ps) [] = false
  matches (p ∷ ps) (c ∷ s) = fits p c && matches ps s

starts : String → Bool
starts [] = false
starts (c ∷ s) = true

starts-append : (c : Char) (s t : String) → starts ((c ∷ s) <> t) ≡ true
unfolding starts
starts-append c s t = ap starts (λ i. append.cons c s t i)

starts_nil : starts "" ≡ false
unfolding starts
starts_nil = refl

-- A text with a character in front is not the empty one.
pub truthy-append : (c : Char) (s t : String) → truthy ((c ∷ s) <> t) ≡ true
truthy-append c s t = elim (Bool-cases (((c ∷ s) <> t) == "")) [
  | inl e ↦
      let same_start = ap starts (eq_of_test ((c ∷ s) <> t) "" e) in
      cc (starts-append c s t, starts_nil, same_start)
  | inr e ↦ rw e refl
]

-- A prefix has at most the length that is asked for.
pub count-first_chars : (n : ℕ) (s : String) → count (first_chars n s) ≤ n
unfolding first_chars
count-first_chars n [] = omega arith
count-first_chars n (c ∷ s) = elim (Bool-cases (ltb 0 n)) [
  | inl t ↦
      rw (t, length-cons c (first_chars (n - 1) s)) (ground (arith, count-first_chars (n - 1) s))
  | inr t ↦ rw t (ground arith)
]

-- A prefix has that length, where there is so much.
pub count-first_chars_within : (n : ℕ) (s : String) → n ≤ count s → count (first_chars n s) ≡ n
unfolding first_chars
count-first_chars_within n [] h = ground arith
count-first_chars_within n (c ∷ s) h = elim (Bool-cases (ltb 0 n)) [
  | inl t ↦
      rw (t, length-cons c (first_chars (n - 1) s))
        (ground (
          arith,
          count-first_chars_within (n - 1) s (ground (arith, rw (length-cons c s) at h, t)),
          t,
        ))
  | inr t ↦ rw t (ground (arith, t))
]

-- What is behind a prefix.
pub later_chars : (n : ℕ) (s : String) → (rest : String) × (s ≡ first_chars n s <> rest)
unfolding first_chars
later_chars n [] = ("", refl)
later_chars n (c ∷ s) = elim (Bool-cases (ltb 0 n)) [
  | inl t ↦
      let (rest, e) = later_chars (n - 1) s in
      (rest, rw t (ap (λ r. c ∷ r) e ∙ sym (append.cons c (first_chars (n - 1) s) rest)))
  | inr t ↦ (c ∷ s, rw t (sym (append.nil (c ∷ s))))
]
