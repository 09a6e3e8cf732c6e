-- ===== src/Recording/Mono.antt =====
-- audio/pipeline.py: `pcm16_to_mono` keeps the first sample of every frame.
use native.Mathlib.Nat.{
  zero-mul, suc-mul, mul-add-mod_self_right, mod-eq_of_lt, div-eq_of_eq-mul_left, mul_assoc,
  div-le_self,
}
use oi_interface.Recording.Stream.{zeros, copy_samples, write_at, pcm16_to_mono}
use oi_interface.Base.{
  ℕ, length, List, ◌≡◌, suc, All, ◌≤◌, ap, ◌*◌, drop, ◌∷◌, ◌+◌, zero, take, [], refl, ◌++◌, map,
  arith, length-append, slice, sym, length-take, append_assoc, ◌∙◌, append_nil, length-drop,
  take_left, take-append, take_all, ltb, false, true, drop-drop, drop_left, ◌<◌, ◌%◌, ◌-◌, ◌/◌, leb,
  drop_none, take_none,
}
use oi_interface.Speech.Chunks.{Bytes, range_by}
use oi_interface.Speech.Segments.{joined}

length-zeros : (n : ℕ) → length (zeros n) ≡ n
unfolding zeros
length-zeros zero = refl
length-zeros (suc n) = ap suc (length-zeros n)

module _ (width : ℕ) where
  -- Frames of the same width, which have room for a sample.
  abbrev pub AreFrames : List Bytes → Type 0
  AreFrames = All (λ frame. length frame ≡ width)

  length-joined :
      (frames : List Bytes) → AreFrames frames → length (joined frames) ≡ length frames * width
  length-joined [] h = omega (arith, zero-mul width)
  length-joined (f ∷ fs) (e, h) =
      omega (arith, length-append f (joined fs), length-joined fs h, suc-mul (length fs) width)

  length-write_at :
      (out : ℕ) (sample mono : Bytes)
      → out + 2 ≤ length mono
      → length sample ≡ 2
      → length (write_at out sample mono) ≡ length mono
  length-write_at out sample mono h e = omega (
    arith,
    length-append (take out mono ++ sample) (drop (out + 2) mono),
    length-append (take out mono) sample,
    length-take out mono,
    length-drop (out + 2) mono,
  )

  take-write_at :
      (out : ℕ) (sample mono : Bytes)
      → out + 2 ≤ length mono
      → length sample ≡ 2
      → take (out + 2) (write_at out sample mono) ≡ take out mono ++ sample
  take-write_at out sample mono h e =
      take_left (out + 2) (take out mono ++ sample) (drop (out + 2) mono)
        (omega (arith, length-append (take out mono) sample, length-take out mono))

  -- The sample that the loop reads is the first of the frame.
  slice_first :
      (pcm x : Bytes) (xs : List Bytes) (idx : ℕ)
      → 2 ≤ length x
      → drop idx pcm ≡ joined (x ∷ xs)
      → slice idx (idx + 2) pcm ≡ take 2 x
  slice_first pcm x xs idx w d =
      ap (λ n. take n (drop idx pcm)) (omega arith) ∙ ap (take 2) d ∙ take-append 2 x (joined xs) w

  -- The loop writes the first two bytes of each frame, one pair behind the other.
  copy_samples-AreFrames :
      (pcm : Bytes) (frames : List Bytes) (fuel idx out : ℕ) (mono : Bytes)
      → 2 ≤ width
      → AreFrames frames
      → drop idx pcm ≡ joined frames
      → length frames ≤ fuel
      → length mono ≡ out + 2 * length frames
      → copy_samples pcm (range_by fuel width idx (idx + length frames * width)) out mono
        ≡ take out mono ++ joined (map (take 2) frames)
  unfolding copy_samples range_by
  copy_samples-AreFrames pcm [] zero idx out mono w a d f l =
      sym (append_nil (take out mono) ∙ take_all out mono (omega arith))
  copy_samples-AreFrames pcm [] (suc fuel) idx out mono w a d f l =
      let none_left : ltb idx (idx + 0 * width) ≡ false = ground (arith, zero-mul width) in
      rw none_left (sym (append_nil (take out mono) ∙ take_all out mono (omega arith)))
  copy_samples-AreFrames pcm (x ∷ xs) zero idx out mono w a d f l = absurd (omega arith)
  copy_samples-AreFrames pcm (x ∷ xs) (suc fuel) idx out mono w (e, a) d f l =
      let more : ltb idx (idx + suc (length xs) * width) ≡ true =
        ground (arith, suc-mul (length xs) width) in
      let stop : idx + suc (length xs) * width ≡ idx + width + length xs * width =
        omega (arith, suc-mul (length xs) width) in
      let two : length (take 2 x) ≡ 2 = omega (arith, length-take 2 x) in
      let mono' = write_at out (take 2 x) mono in
      rw more (
        ap
          (λ m.
            copy_samples pcm (range_by fuel width (idx + width) m) (out + 2)
              (write_at out (slice idx (idx + 2) pcm) mono))
          stop
        ∙ ap
            (λ m.
              copy_samples pcm (range_by fuel width (idx + width) (idx + width + length xs * width))
                (out + 2) (write_at out m mono))
            (slice_first pcm x xs idx (omega arith) d)
        ∙ copy_samples-AreFrames pcm xs fuel (idx + width) (out + 2) mono' w a
            (sym (drop-drop width idx pcm)
              ∙ ap (drop width) d
              ∙ drop_left width x (joined xs) (sym e))
            (omega arith) (omega (arith, length-write_at out (take 2 x) mono (omega arith) two))
        ∙ ap (λ r. r ++ joined (map (take 2) xs))
            (take-write_at out (take 2 x) mono (omega arith) two)
        ∙ append_assoc (take out mono) (take 2 x) (joined (map (take 2) xs)))

-- The loop, where there is more than one channel and a whole frame.
pcm16_to_mono_loop :
    (pcm_bytes : Bytes) (channels usable_len : ℕ)
    → leb channels 1 ≡ false
    → ltb (length pcm_bytes) (channels * 2) ≡ false
    → length pcm_bytes - length pcm_bytes % (channels * 2) ≡ usable_len
    → pcm16_to_mono pcm_bytes channels
      ≡ copy_samples
          (take usable_len pcm_bytes)
          (range_by (length pcm_bytes) (channels * 2) 0 (0 + usable_len))
          0
          (zeros (usable_len / channels))
unfolding pcm16_to_mono
pcm16_to_mono_loop pcm_bytes channels usable_len c l u =
    let start : usable_len ≡ 0 + usable_len = omega arith in
    rw (c, l, u)
      (ap
        (λ m.
          copy_samples (take usable_len pcm_bytes) (range_by (length pcm_bytes) (channels * 2) 0 m)
            0 (zeros (usable_len / channels)))
        start)

-- Audio with more than one channel, whose frames have a sample of two bytes for each channel, comes out
-- as the first sample of every frame, in the order of the frames; the bytes of a last frame that is
-- not whole are left out.
pcm16_to_mono-AreFrames :
    (channels : ℕ) (frames : List Bytes) (rest : Bytes)
    → 1 < channels
    → AreFrames (channels * 2) frames
    → length rest < channels * 2
    → pcm16_to_mono (joined frames ++ rest) channels ≡ joined (map (take 2) frames)
unfolding pcm16_to_mono
pcm16_to_mono-AreFrames channels [] rest c a r =
    let many : leb channels 1 ≡ false = ground arith in
    let short : ltb (length rest) (channels * 2) ≡ true = ground arith in rw (many, short) refl
pcm16_to_mono-AreFrames channels (x ∷ xs) rest c a r =
    let width = channels * 2 in
    let n = suc (length xs) in
    let whole = joined (x ∷ xs) in
    let size : length (whole ++ rest) ≡ n * width + length rest =
      length-append whole rest ∙ ap (λ m. m + length rest) (length-joined width (x ∷ xs) a) in
    let over : length (whole ++ rest) % width ≡ length rest =
      ap (λ m. m % width) size ∙ mul-add-mod_self_right n width (length rest) ∙ mod-eq_of_lt r in
    let room : n * width / channels ≡ 2 * n =
      div-eq_of_eq-mul_left (omega arith)
        (omega (arith, mul_assoc n channels 2, mul_assoc 2 n channels)) in
    let frames : n * width ≤ length (whole ++ rest) = omega (arith, size) in
    let some_frame : width ≤ n * width = omega (arith, suc-mul (length xs) width) in
    let enough : 2 * n ≤ n * width = omega (arith, room, div-le_self (n * width) channels) in
    pcm16_to_mono_loop (whole ++ rest) channels (n * width) (ground arith) (ground arith)
      (omega (arith, size, over))
    ∙ ap
        (λ p.
          copy_samples p (range_by (length (whole ++ rest)) width 0 (0 + n * width)) 0
            (zeros (n * width / channels)))
        (take_left (n * width) whole rest (sym (length-joined width (x ∷ xs) a)))
    ∙ ap
        (λ m.
          copy_samples whole (range_by (length (whole ++ rest)) width 0 (0 + n * width)) 0
            (zeros m))
        room
    ∙ copy_samples-AreFrames width whole (x ∷ xs) (length (whole ++ rest)) 0 0 (zeros (2 * n))
        (omega arith) a (drop_none whole) (omega arith) (length-zeros (2 * n) ∙ omega arith)
    ∙ ap (λ m. m ++ joined (map (take 2) (x ∷ xs))) (take_none (zeros (2 * n)))
