-- ===== src/Recording/Numbers.antt =====
-- Numbers in order: what `range` and `sorted` give.
use oi_interface.Sort.{Order, insert, sort, IsSorted}
use oi_interface.Base.{
  ℕ, List, ltb, [], Bool, ◌∷◌, ◌≡◌, All, arith, suc, false, ◌∙◌, leb, eqb, true, ◌&&◌, zero, refl,
  ◌||◌, ◌≤◌, ◌+◌, ap, ◌<◌, map,
}

abbrev pub by_number : Order ℕ
by_number = record { lt = ltb; asym = λ a b h. ground arith; le_trans = λ a b c h k. ground arith }

-- `list(range(a, a + n))`
unfoldable pub range : ℕ → ℕ → List ℕ
range a zero = []
range a (suc n) = a ∷ range (suc a) n

-- `k in xs`
unfoldable pub is_in : ℕ → List ℕ → Bool
is_in k [] = false
is_in k (x ∷ xs) = eqb k x || is_in k xs

-- No number occurs twice.
abbrev pub AreDistinct : List ℕ → Type 0
AreDistinct [] = Unit
AreDistinct (x ∷ xs) = (is_in x xs ≡ false) × AreDistinct xs

is_in-insert : (k x : ℕ) (xs : List ℕ) → is_in k (insert by_number x xs) ≡ (eqb k x || is_in k xs)
unfolding insert is_in
is_in-insert k x [] = refl
is_in-insert k x (y ∷ ys) = ground (arith, is_in-insert k x ys)

pub is_in-sort : (k : ℕ) (xs : List ℕ) → is_in k (sort by_number xs) ≡ is_in k xs
unfolding sort is_in
is_in-sort k [] = refl
is_in-sort k (x ∷ xs) = ground (arith, is_in-insert k x (sort by_number xs), is_in-sort k xs)

insert-AreDistinct :
    (x : ℕ) (xs : List ℕ)
    → is_in x xs ≡ false
    → AreDistinct xs
    → AreDistinct (insert by_number x xs)
unfolding insert is_in
insert-AreDistinct x [] n d = (refl, tt)
insert-AreDistinct x (y ∷ ys) n d = ground (arith, insert-AreDistinct x ys, is_in-insert y x ys)

pub sort-AreDistinct : (xs : List ℕ) → AreDistinct xs → AreDistinct (sort by_number xs)
unfolding sort
sort-AreDistinct [] d = tt
sort-AreDistinct (x ∷ xs) d =
    insert-AreDistinct x (sort by_number xs) (is_in-sort x xs ∙ d.0) (sort-AreDistinct xs d.1)

is_in_above : (k x : ℕ) (xs : List ℕ) → All (λ y. ltb y x ≡ false) xs → is_in k xs ≡ true → x ≤ k
unfolding is_in
is_in_above k x [] h m = cc
is_in_above k x (y ∷ ys) h m = ground (arith, is_in_above k x ys)

-- The tests that a list in order passes.
abbrev pub Holds : ℕ → ℕ → List ℕ → Type 0
Holds a n xs = (k : ℕ) → is_in k xs ≡ (leb a k && ltb k (a + n))

head_lem :
    (a n x : ℕ) (xs : List ℕ) → IsSorted by_number (x ∷ xs) → Holds a (suc n) (x ∷ xs) → x ≡ a
unfolding is_in
head_lem a n x xs s h = ground (arith, h x, h a, is_in_above a x xs s.0)

tail-Holds :
    (a n : ℕ) (xs : List ℕ) → is_in a xs ≡ false → Holds a (suc n) (a ∷ xs) → Holds (suc a) n xs
unfolding is_in
tail-Holds a n xs d h k = ground (arith, h k)

-- The only list in order without repetitions that has just the numbers of a range is the range.
pub sorted_range :
    (a n : ℕ) (xs : List ℕ) → IsSorted by_number xs → AreDistinct xs → Holds a n xs → xs ≡ range a n
unfolding range is_in
sorted_range a zero [] s d h = refl
sorted_range a zero (x ∷ xs) s d h = ground (arith, h x)
sorted_range a (suc n) [] s d h = ground (arith, h a)
sorted_range a (suc n) (x ∷ xs) s d h =
    let e = head_lem a n x xs s h in
    let later = tail-Holds a n xs (rw e at d.0) (λ k. rw e at (h k)) in
    rw e (ap (λ r. a ∷ r) (sorted_range (suc a) n xs s.1 d.1 later))

pub is_in-range : (k a n : ℕ) → is_in k (range a n) ≡ (leb a k && ltb k (a + n))
unfolding range is_in
is_in-range k a zero = ground arith
is_in-range k a (suc n) = ground (arith, is_in-range k (suc a) n)

pub map-range {ℓ} :
    {A : Type ℓ} (f g : ℕ → A) (a n : ℕ)
    → ((k : ℕ) → a ≤ k → k < a + n → f k ≡ g k)
    → map f (range a n) ≡ map g (range a n)
unfolding range
map-range f g a zero h = refl
map-range f g a (suc n) h =
    ap (λ x. x ∷ map f (range (suc a) n)) (h a (omega arith) (omega arith))
    ∙ ap (λ r. g a ∷ r) (map-range f g (suc a) n (λ k l u. h k (omega arith) (omega arith)))
