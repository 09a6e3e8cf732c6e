-- ===== src/Dict.antt =====
-- Python's `dict` with text keys: an association list in the order of insertion.
use mathlib.Core.Option
use oi_interface.Base.{
  String, ◌≡◌, refl, Bool, true, false, Option, none, some, List, [], ◌∷◌, map, arith,
  if◌then◌else◌, ◌==◌, mem, Option-cases, inl, inr, keep_if, IsDistinct, ◌∙◌, ap, same_self,
}

abbrev pub Dict {ℓ} : Type ℓ → Type ℓ
Dict V = List (String × V)

abbrev pub is_some {ℓ} : {A : Type ℓ} → Option A → Bool
is_some none = false
is_some (some a) = true

abbrev pub or_default {ℓ} : {A : Type ℓ} → Option A → A → A
or_default none a = a
or_default (some b) a = b

-- A value that passes a test.
pub passing {ℓ} :
    {A : Type ℓ} (q : A → Bool) (o : Option A)
    → elim o [ none ↦ false | some a ↦ q a ] ≡ true
    → (a : A) × (o ≡ some a) × (q a ≡ true)
passing q none h = cc
passing q (some a) h = (a, refl, h)

module _ {ℓ} {V : Type ℓ} where
  -- `d.get(k)`
  unfoldable pub get : String → Dict V → Option V
  get k [] = none
  get k ((j, v) ∷ d) = if k == j then some v else get k d

  -- `d[k] = v`: a known key keeps its place, a new one goes to the end.
  unfoldable pub put : String → V → Dict V → Dict V
  put k v [] = (k, v) ∷ []
  put k v ((j, w) ∷ d) = if k == j then (j, v) ∷ d else (j, w) ∷ put k v d

  -- `d.pop(k, None)`, `del d[k]`
  unfoldable pub pop : String → Dict V → Dict V
  pop k [] = []
  pop k ((j, w) ∷ d) = let rest = pop k d in if k == j then rest else (j, w) ∷ rest

  -- `list(d.keys())`
  abbrev pub keys : Dict V → List String
  keys = map (λ e. e.0)

  -- `list(d.values())`
  abbrev pub values : Dict V → List V
  values = map (λ e. e.1)

  -- `k in d`
  abbrev pub has : String → Dict V → Bool
  has k d = is_some (get k d)

  -- A write through the reference that `d.get(k)` returns; nothing happens where it returns `None`.
  unfoldable pub update : String → (V → V) → Dict V → Dict V
  update k f d = elim (get k d) [ none ↦ d | some v ↦ put k (f v) d ]

  pub get-put :
      (j k : String) (v : V) (d : Dict V) → get j (put k v d) ≡ (if j == k then some v else get j d)
  unfolding get put
  get-put j k v [] = refl
  get-put j k v ((i, w) ∷ d) = ground (arith, get-put j k v d)

  pub get-put_same : (k : String) (v : V) (d : Dict V) → get k (put k v d) ≡ some v
  get-put_same k v d = get-put k k v d ∙ ap (λ b. if b then some v else get k d) (same_self k)

  pub get-pop : (j k : String) (d : Dict V) → get j (pop k d) ≡ (if j == k then none else get j d)
  unfolding get pop
  get-pop j k [] = ground arith
  get-pop j k ((i, w) ∷ d) = ground (arith, get-pop j k d)

  pub mem-keys : (k : String) (d : Dict V) → mem k (keys d) ≡ has k d
  unfolding mem get
  mem-keys k [] = refl
  mem-keys k ((j, v) ∷ d) = ground (arith, mem-keys k d)

  -- Writing to a key that is there adds no key.
  pub keys-put_known :
      (k : String) (v : V) (d : Dict V) → has k d ≡ true → keys (put k v d) ≡ keys d
  unfolding get put
  keys-put_known k v [] h = cc
  keys-put_known k v ((j, w) ∷ d) h = ground (arith, keys-put_known k v d)

  pub get-update :
      (j k : String) (f : V → V) (d : Dict V)
      → get j (update k f d) ≡ (if j == k then Option.map f (get k d) else get j d)
  unfolding update
  get-update j k f d = elim (Option-cases (get k d)) [
    | inl e ↦ rw (e, update) (ground arith)
    | inr (v, e) ↦ rw (e, update) (ground (arith, get-put j k (f v) d))
  ]

  -- A filter of the items keeps the keys whose value passes.
  pub mem-keys-keep_if :
      (p : String × V → Bool) (k : String) (d : Dict V)
      → IsDistinct (keys d)
      → mem k (keys (keep_if p d)) ≡ elim (get k d) [ none ↦ false | some v ↦ p (k, v) ]
  unfolding mem get keep_if
  mem-keys-keep_if p k [] h = refl
  mem-keys-keep_if p k ((j, v) ∷ d) h = ground (arith, mem-keys-keep_if p k d h.1, mem-keys k d)
