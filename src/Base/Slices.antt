-- ===== src/Base/Slices.antt =====
-- Slices of lists, as Python cuts them: out of range there is nothing to take or to drop.
use Prim.Native.Nat.{ℕ, suc, ◌+◌, ◌-◌, ◌≤◌, min}
use mathlib.Core.Path.{◌≡◌, ap, refl, sym, ◌∙◌}
use mathlib.Core.Bool.{true}
use mathlib.Core.Logic.{inl, inr}
use mathlib.Core.List.{List, [], ◌∷◌, ◌++◌}
use native.Mathlib.Omega.{arith}
use oi_interface.Base.Tests.{if◌then◌else◌, Bool-cases, ltb}
use oi_interface.Base.Lists.{length}

-- `xs[:n]`
abbrev pub take {ℓ} : {A : Type ℓ} → ℕ → List A → List A
take n [] = []
take n (x ∷ xs) = let rest = take (n - 1) xs in if ltb 0 n then x ∷ rest else []

pub take-append {ℓ} :
    {A : Type ℓ} (n : ℕ) (xs ys : List A) → n ≤ length xs → take n (xs ++ ys) ≡ take n xs
take-append n [] [] h = refl
take-append n [] (y ∷ ys) h = ground arith
take-append n (x ∷ xs) ys h = elim (Bool-cases (ltb 0 n)) [
  | inl t ↦ rw t (ap (λ r. x ∷ r) (take-append (n - 1) xs ys (ground arith)))
  | inr t ↦ rw t refl
]

pub take_all {ℓ} : {A : Type ℓ} (n : ℕ) (xs : List A) → length xs ≤ n → take n xs ≡ xs
take_all n [] h = refl
take_all n (x ∷ xs) h = elim (Bool-cases (ltb 0 n)) [
  | inl t ↦ rw t (ap (λ r. x ∷ r) (take_all (n - 1) xs (ground arith)))
  | inr t ↦ ground arith
]

-- `xs[n:]`
abbrev pub drop {ℓ} : {A : Type ℓ} → ℕ → List A → List A
drop n [] = []
drop n (x ∷ xs) = let rest = drop (n - 1) xs in if ltb 0 n then rest else x ∷ xs

pub take-drop {ℓ} : {A : Type ℓ} (n : ℕ) (xs : List A) → take n xs ++ drop n xs ≡ xs
take-drop n [] = refl
take-drop n (x ∷ xs) = elim (Bool-cases (ltb 0 n)) [
  | inl t ↦ rw t (ap (λ r. x ∷ r) (take-drop (n - 1) xs))
  | inr t ↦ rw t refl
]

pub length-drop {ℓ} : {A : Type ℓ} (n : ℕ) (xs : List A) → length (drop n xs) ≡ length xs - n
length-drop n [] = omega arith
length-drop n (x ∷ xs) = elim (Bool-cases (ltb 0 n)) [
  | inl t ↦ rw t (length-drop (n - 1) xs ∙ ground arith)
  | inr t ↦ rw t (ground arith)
]

pub length-take {ℓ} : {A : Type ℓ} (n : ℕ) (xs : List A) → length (take n xs) ≡ min n (length xs)
length-take n [] = omega arith
length-take n (x ∷ xs) = elim (Bool-cases (ltb 0 n)) [
  | inl t ↦ rw t (ap suc (length-take (n - 1) xs) ∙ ground arith)
  | inr t ↦ rw t (ground arith)
]

pub drop_all {ℓ} : {A : Type ℓ} (n : ℕ) (xs : List A) → length xs ≤ n → drop n xs ≡ []
drop_all n [] h = refl
drop_all n (x ∷ xs) h = elim (Bool-cases (ltb 0 n)) [
  | inl t ↦ rw t (drop_all (n - 1) xs (ground arith))
  | inr t ↦ ground arith
]

pub drop-drop {ℓ} : {A : Type ℓ} (n i : ℕ) (xs : List A) → drop n (drop i xs) ≡ drop (i + n) xs
drop-drop n i [] = refl
drop-drop n i (x ∷ xs) = elim (Bool-cases (ltb 0 i)) [
  | inl t ↦
      let later : ltb 0 (i + n) ≡ true = ground arith in
      rw (t, later) (drop-drop n (i - 1) xs ∙ ap (λ m. drop m xs) (ground arith))
  | inr t ↦ rw t (ap (λ m. drop m (x ∷ xs)) (ground arith))
]

-- `xs[i:j]`
abbrev pub slice {ℓ} : {A : Type ℓ} → ℕ → ℕ → List A → List A
slice i j xs = take (j - i) (drop i xs)

pub drop_none {ℓ} : {A : Type ℓ} (xs : List A) → drop 0 xs ≡ xs
drop_none [] = refl
drop_none (x ∷ xs) = refl

pub take_left {ℓ} : {A : Type ℓ} (n : ℕ) (xs ys : List A) → n ≡ length xs → take n (xs ++ ys) ≡ xs
take_left n xs ys e = take-append n xs ys (omega arith) ∙ take_all n xs (omega arith)

pub drop_left {ℓ} : {A : Type ℓ} (n : ℕ) (xs ys : List A) → n ≡ length xs → drop n (xs ++ ys) ≡ ys
drop_left n [] ys e = rw e (drop_none ys)
drop_left n (x ∷ xs) ys e =
    let more : ltb 0 n ≡ true = ground arith in rw more (drop_left (n - 1) xs ys (omega arith))

pub take_none {ℓ} : {A : Type ℓ} (xs : List A) → take 0 xs ≡ []
take_none [] = refl
take_none (x ∷ xs) = refl

-- The item at a place that is in range, and what comes behind it.
pub drop_item {ℓ} :
    {A : Type ℓ} (n : ℕ) (xs : List A)
    → suc n ≤ length xs
    → (x : A) × (drop n xs ≡ x ∷ drop (n + 1) xs)
drop_item n [] h = ground arith
drop_item n (x ∷ xs) h =
    let later : ltb 0 (n + 1) ≡ true = ground arith in
    elim (Bool-cases (ltb 0 n)) [
      | inl t ↦
          let (y, e) = drop_item (n - 1) xs (ground arith) in
          (y, rw (t, later) (e ∙ ap (λ m. y ∷ drop m xs) (ground arith)))
      | inr t ↦
          let zero_left : n + 1 - 1 ≡ 0 = ground arith in
          (x, rw (t, later, zero_left) (ap (λ r. x ∷ r) (sym (drop_none xs))))
    ]
