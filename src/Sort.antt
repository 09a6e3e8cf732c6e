-- ===== src/Sort.antt =====
-- `list.sort` and `sorted`: a stable sort by a strict order, with what its callers rely on.
use mathlib.Core.List.{Perm}
use mathlib.Core.List.Perm
use oi_interface.Base.{
  ◌≡◌, Bool, true, false, List, [], ◌∷◌, arith, if◌then◌else◌, All, Bool-cases, inl, inr, String,
  mem, ◌==◌, refl, ◌||◌,
}

-- A strict weak order, as `sort` takes it: `lt a b` is `key(a) < key(b)`.
pub record Order {ℓ} (A : Type ℓ) : Type ℓ where
  pub lt : A → A → Bool
  pub asym : (a b : A) → lt a b ≡ true → lt b a ≡ false
  pub le_trans : (a b c : A) → lt b a ≡ false → lt c b ≡ false → lt c a ≡ false

module _ {ℓ} {A : Type ℓ} where
  -- `reverse=True`: the order turned round; items with equal keys still keep their places.
  abbrev pub reversed : Order A → Order A
  reversed o = record {
    lt = λ a b. o.lt b a;
    asym = λ a b. o.asym b a;
    le_trans = λ a b c h k. o.le_trans c b a k h;
  }

module _ {ℓ} {A : Type ℓ} (o : Order A) where
  -- `x` goes before the first item that is not below it.
  unfoldable pub insert : A → List A → List A
  insert x [] = x ∷ []
  insert x (y ∷ ys) = if o.lt y x then y ∷ insert x ys else x ∷ y ∷ ys

  unfoldable pub sort : List A → List A
  unfolding insert
  sort [] = []
  sort (x ∷ xs) = insert x (sort xs)

  -- No item is above one that stands behind it.
  abbrev pub IsSorted : List A → Type ℓ
  IsSorted [] = Unit
  IsSorted (x ∷ xs) = All (λ y. o.lt y x ≡ false) xs × IsSorted xs

  insert-All {κ} : (P : A → Type κ) (x : A) (ys : List A) → P x → All P ys → All P (insert x ys)
  unfolding insert
  insert-All P x [] px h = (px, tt)
  insert-All P x (y ∷ ys) px h = ground (arith, insert-All P x ys px h.1)

  All-below :
      (x y : A) (ys : List A)
      → o.lt y x ≡ false
      → All (λ z. o.lt z y ≡ false) ys
      → All (λ z. o.lt z x ≡ false) ys
  All-below x y [] h k = tt
  All-below x y (z ∷ zs) h k = (o.le_trans x y z h k.0, All-below x y zs h k.1)

  insert-perm : (x : A) (ys : List A) → Perm (insert x ys) (x ∷ ys)
  unfolding insert
  insert-perm x [] = Perm.refl _
  insert-perm x (y ∷ ys) = elim (Bool-cases (o.lt y x)) [
    | inl e ↦ rw e (Perm.trans (Perm.cons y (insert-perm x ys)) (Perm.swap x y ys))
    | inr e ↦ rw e (Perm.refl _)
  ]

  insert-IsSorted : (x : A) (ys : List A) → IsSorted ys → IsSorted (insert x ys)
  unfolding insert
  insert-IsSorted x [] h = (tt, tt)
  insert-IsSorted x (y ∷ ys) h = elim (Bool-cases (o.lt y x)) [
    | inl e ↦
        rw e (insert-All (λ z. o.lt z y ≡ false) x ys (o.asym y x e) h.0, insert-IsSorted x ys h.1)
    | inr e ↦ rw e ((e, All-below x y ys e h.0), h)
  ]

  -- The sort permutes its input.
  pub sort-perm : (xs : List A) → Perm (sort xs) xs
  unfolding sort
  sort-perm [] = Perm.refl _
  sort-perm (x ∷ xs) = Perm.trans (insert-perm x (sort xs)) (Perm.cons x (sort-perm xs))

  -- Its output is in order.
  pub sort-IsSorted : (xs : List A) → IsSorted (sort xs)
  unfolding sort
  sort-IsSorted [] = tt
  sort-IsSorted (x ∷ xs) = insert-IsSorted x (sort xs) (sort-IsSorted xs)

  -- What holds of every item holds of every item of the sorted list.
  pub All-sort {κ} : (P : A → Type κ) (xs : List A) → All P xs → All P (sort xs)
  unfolding sort
  All-sort P [] h = tt
  All-sort P (x ∷ xs) h = insert-All P x (sort xs) h.0 (All-sort P xs h.1)

  un_insert {κ} : (P : A → Type κ) (x : A) (ys : List A) → All P (insert x ys) → P x × All P ys
  unfolding insert
  un_insert P x [] h = (h.0, tt)
  un_insert P x (y ∷ ys) h = elim (Bool-cases (o.lt y x)) [
    | inl e ↦
        let h' = rw (e, if◌then◌else◌) at h in
        let (px, rest) = un_insert P x ys h'.1 in (px, (h'.0, rest))
    | inr e ↦ rw (e, if◌then◌else◌) at h
  ]

  -- And the other way round.
  pub All-of_sort {κ} : (P : A → Type κ) (xs : List A) → All P (sort xs) → All P xs
  unfolding sort
  All-of_sort P [] h = tt
  All-of_sort P (x ∷ xs) h =
      let (px, rest) = un_insert P x (sort xs) h in (px, All-of_sort P xs rest)

  pub irrefl : (a : A) → o.lt a a ≡ false
  irrefl a = elim (Bool-cases (o.lt a a)) [ inl e ↦ o.asym a a e | inr e ↦ e ]

  -- The first item of a sorted list has no other below it.
  pub sort-head_least :
      (xs : List A) (x : A) (rest : List A) → sort xs ≡ x ∷ rest → All (λ y. o.lt y x ≡ false) xs
  sort-head_least xs x rest e =
      let sorted = rw e at (sort-IsSorted xs) in
      All-of_sort (λ y. o.lt y x ≡ false) xs (rw e (irrefl x, sorted.0))

module _ (o : Order String) (x : String) where
  mem-insert : (y : String) (ys : List String) → mem x (insert o y ys) ≡ (x == y || mem x ys)
  unfolding insert mem
  mem-insert y [] = refl
  mem-insert y (z ∷ zs) = ground (arith, mem-insert y zs)

  -- Sorting keeps what is in the list.
  pub mem-sort : (xs : List String) → mem x (sort o xs) ≡ mem x xs
  unfolding sort mem
  mem-sort [] = refl
  mem-sort (y ∷ ys) = ground (arith, mem-insert y (sort o ys), mem-sort ys)
