-- ===== src/Speech/Chunks.antt =====
-- audio/tts.py: how a WAV file is cut into the chunks that are sent. Bytes are numbers.
use oi_interface.Base.{
  List, ◌∷◌, Bool, Option, none, ℕ, [], true, if◌then◌else◌, ◌<◌, slice, false, some, suc, is_empty,
  length, ◌+◌, eqb, ltb, ◌≤◌, ◌&&◌, drop, map, ◌≡◌, zero, sym, drop_all, arith, Bool-cases, inl, ap,
  ◌++◌, ◌∙◌, drop-drop, take, take-drop, inr, min, refl, ◌-◌, length-take, length-drop,
  is_empty_lem, drop_none,
}
use mathlib.Core.Option
use oi_interface.Speech.Segments.{joined}

abbrev pub Bytes : Type 0
Bytes = List ℕ

-- `b"data"`
abbrev data_marker : Bytes
data_marker = b'd' ∷ b'a' ∷ b't' ∷ b'a' ∷ []

unfoldable pub starts_with : Bytes → Bytes → Bool
starts_with [] xs = true
starts_with (c ∷ cs) [] = false
starts_with (c ∷ cs) (x ∷ xs) = eqb c x && starts_with cs xs

-- `xs.find(marker)`, `none` where that is -1.
unfoldable pub find : Bytes → Bytes → Option ℕ
unfolding starts_with
find marker [] = if starts_with marker [] then some 0 else none
find marker (x ∷ xs) =
    let later = find marker xs in
    if starts_with marker (x ∷ xs) then some 0 else Option.map suc later

-- `_extract_pcm_from_wav`
unfoldable pub extract_pcm_from_wav : Bytes → Bytes
unfolding find
extract_pcm_from_wav wav_data = elim (find data_marker wav_data) [
  | none ↦ []
  | some data_index ↦
      if ltb (length wav_data) (data_index + 8) then [] else drop (data_index + 8) wav_data
]

-- `range(i, n, step)` for a step that is not 0, as far as the fuel goes.
unfoldable pub range_by : ℕ → ℕ → ℕ → ℕ → List ℕ
range_by zero step i n = []
range_by (suc fuel) step i n =
    let rest = range_by fuel step (i + step) n in if ltb i n then i ∷ rest else []

-- `_wav_to_pcm_chunks`; `none` is the `ValueError` of `range` for a step of 0.
unfoldable pub wav_to_pcm_chunks : Bytes → ℕ → Option (List Bytes)
unfolding range_by
wav_to_pcm_chunks wav_data chunk_size =
    let pcm_data = extract_pcm_from_wav wav_data in
    if is_empty pcm_data
    then some []
    else if eqb chunk_size 0
    then none
    else some (
        map (λ i. slice i (i + chunk_size) pcm_data)
          (range_by (length pcm_data) chunk_size 0 (length pcm_data)))

-- Every chunk but the last has `chunk_size` bytes; the last has no more, and one at least.
abbrev pub AreChunks : ℕ → List Bytes → Type 0
AreChunks chunk_size [] = Unit
AreChunks chunk_size (c ∷ []) = (0 < length c) × (length c ≤ chunk_size)
AreChunks chunk_size (c ∷ d ∷ cs) = (length c ≡ chunk_size) × AreChunks chunk_size (d ∷ cs)

module _ (chunk_size : ℕ) (pcm_data : Bytes) where
  abbrev chunk_at : ℕ → Bytes
  chunk_at i = slice i (i + chunk_size) pcm_data

  joined-chunks :
      (fuel i : ℕ)
      → 0 < chunk_size
      → length pcm_data ≤ i + fuel
      → joined (map chunk_at (range_by fuel chunk_size i (length pcm_data))) ≡ drop i pcm_data
  unfolding range_by
  joined-chunks zero i k h = sym (drop_all i pcm_data (omega arith))
  joined-chunks (suc fuel) i k h = elim (Bool-cases (ltb i (length pcm_data))) [
    | inl t ↦ rw t (
        ap (λ r. chunk_at i ++ r) (joined-chunks fuel (i + chunk_size) k (omega arith))
        ∙ ap (λ r. chunk_at i ++ r) (sym (drop-drop chunk_size i pcm_data))
        ∙ ap (λ n. take n (drop i pcm_data) ++ drop chunk_size (drop i pcm_data)) (omega arith)
        ∙ take-drop chunk_size (drop i pcm_data))
    | inr t ↦ rw t (sym (drop_all i pcm_data (ground arith)))
  ]

  with_chunk :
      (c : Bytes) (cs : List Bytes)
      → 0 < length c
      → length c ≤ chunk_size
      → (is_empty cs ≡ false → length c ≡ chunk_size)
      → AreChunks chunk_size cs
      → AreChunks chunk_size (c ∷ cs)
  with_chunk c [] p l f h = (p, l)
  with_chunk c (d ∷ cs) p l f h = (f refl, h)

  range_by_more :
      (fuel i : ℕ)
      → is_empty (map chunk_at (range_by fuel chunk_size i (length pcm_data))) ≡ false
      → i < length pcm_data
  unfolding range_by
  range_by_more zero i h = cc
  range_by_more (suc fuel) i h = elim (Bool-cases (ltb i (length pcm_data))) [
    | inl t ↦ ground arith
    | inr t ↦ ground arith
  ]

  length-chunk_at : (i : ℕ) → length (chunk_at i) ≡ min chunk_size (length pcm_data - i)
  length-chunk_at i =
      omega (arith, length-take (i + chunk_size - i) (drop i pcm_data), length-drop i pcm_data)

  chunks-AreChunks :
      (fuel i : ℕ)
      → 0 < chunk_size
      → AreChunks chunk_size (map chunk_at (range_by fuel chunk_size i (length pcm_data)))
  unfolding range_by
  chunks-AreChunks zero i k = tt
  chunks-AreChunks (suc fuel) i k = elim (Bool-cases (ltb i (length pcm_data))) [
    | inl t ↦ rw t (
        with_chunk (chunk_at i) _ (ground (arith, length-chunk_at i))
          (omega (arith, length-chunk_at i))
          (λ e. omega (arith, length-chunk_at i, range_by_more fuel (i + chunk_size) e))
          (chunks-AreChunks fuel (i + chunk_size) k))
    | inr t ↦ rw t tt
  ]

-- `_wav_to_pcm_chunks` cuts the audio of a WAV file into chunks that make it up again, one after
-- another; all have the size that is asked for but the last, which may be shorter and has a byte at
-- least. It raises no error, since the size is not 0.
pub wav_to_pcm_chunks-AreChunks :
    (wav_data : Bytes) (chunk_size : ℕ)
    → 0 < chunk_size
    → (chunks : List Bytes) × (wav_to_pcm_chunks wav_data chunk_size ≡ some chunks)
      × (joined chunks ≡ extract_pcm_from_wav wav_data)
      × AreChunks chunk_size chunks
unfolding wav_to_pcm_chunks
wav_to_pcm_chunks-AreChunks wav_data chunk_size k =
    let pcm = extract_pcm_from_wav wav_data in
    elim (Bool-cases (is_empty pcm)) [
      | inl t ↦ ([], rw t refl, sym (is_empty_lem pcm t), tt)
      | inr t ↦
          let sized : eqb chunk_size 0 ≡ false = ground arith in
          (
            map (chunk_at chunk_size pcm) (range_by (length pcm) chunk_size 0 (length pcm)),
            rw (t, sized) refl,
            joined-chunks chunk_size pcm (length pcm) 0 k (omega arith) ∙ drop_none pcm,
            chunks-AreChunks chunk_size pcm (length pcm) 0 k,
          )
    ]
