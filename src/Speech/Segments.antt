-- ===== src/Speech/Segments.antt =====
-- audio/delivery.py: no character of a streamed answer is lost, repeated or moved by the segmenter,
-- blanks aside.
use mathlib.Core.Option
use oi_interface.Base.{
  List, ℕ, Bool, ◌∷◌, keep_if, ◌++◌, not, ◌≡◌, length, Bool-cases, ◌∙◌, ◌≤◌, some, [], inl, arith,
  ◌+◌, ◌<◌, inr, ◌||◌, ltb, refl, true, ◌&&◌, suc, is_empty, false, sym, ap, All, Option, take,
  append_assoc, drop, Option-cases, none, keep_if-append, length-drop, zero, take-drop, append_nil,
}
use oi_interface.Speech.Segmenter.{
  Text, lstrip, rstrip, strip, first_end, next_boundary, find_boundary, Segmenter, is_mark,
  fallback_boundary, cut_at, with_segment, pop_ready_segments, push,
}

-- The pieces, one after another.
abbrev pub joined : List Text → Text
joined [] = []
joined (text ∷ texts) = text ++ joined texts

module _ (is_space : ℕ → Bool) where
  -- The characters that are no blanks.
  abbrev pub heard : Text → Text
  heard = keep_if (λ c. not (is_space c))

  heard-lstrip : (text : Text) → heard (lstrip is_space text) ≡ heard text
  unfolding lstrip keep_if
  heard-lstrip [] = refl
  heard-lstrip (c ∷ cs) = elim (Bool-cases (is_space c)) [
    | inl t ↦ rw t (heard-lstrip cs)
    | inr t ↦ rw t (rw t refl)
  ]

  heard_empty : (text : Text) → is_empty text ≡ true → heard text ≡ []
  unfolding keep_if
  heard_empty [] h = refl
  heard_empty (c ∷ cs) h = cc

  heard-rstrip : (text : Text) → heard (rstrip is_space text) ≡ heard text
  unfolding rstrip keep_if
  heard-rstrip [] = refl
  heard-rstrip (c ∷ cs) = elim (Bool-cases (is_space c)) [
    | inl t ↦ elim (Bool-cases (is_empty (rstrip is_space cs))) [
      | inl u ↦ rw t (rw u (sym (heard_empty (rstrip is_space cs) u) ∙ heard-rstrip cs))
      | inr u ↦ rw t (rw u (rw t (heard-rstrip cs)))
    ]
    | inr t ↦ rw t (rw t (ap (λ r. c ∷ r) (heard-rstrip cs)))
  ]

  pub heard-strip : (text : Text) → heard (strip is_space text) ≡ heard text
  unfolding strip
  heard-strip text = heard-rstrip (lstrip is_space text) ∙ heard-lstrip text

  length-lstrip-le : (text : Text) → length (lstrip is_space text) ≤ length text
  unfolding lstrip
  length-lstrip-le [] = omega arith
  length-lstrip-le (c ∷ cs) = ground (arith, length-lstrip-le cs)

  first_end_bounds :
      (min_chars : ℕ) (after open_match : Bool) (pos : ℕ) (text : Text) (e : ℕ)
      → first_end is_space min_chars after open_match pos text ≡ some e
      → (pos ≤ e) × (e ≤ pos + length text) × ((open_match || ltb pos e) ≡ true)
  unfolding first_end
  first_end_bounds min_chars after open_match pos [] e h = ground arith
  first_end_bounds min_chars after open_match pos (c ∷ cs) e h = ground (
    arith,
    first_end_bounds min_chars (not (is_space c) && is_mark c) (is_space c && (open_match || after))
        (suc pos) cs e,
  )

  fallback_pos :
      (s : Segmenter)
      → 0 < s.max_buffer_chars
      → s.max_buffer_chars < length s.buffer
      → 0 < fallback_boundary s
  unfolding fallback_boundary
  fallback_pos s m l = ground arith

  next_boundary_bounds :
      (s : Segmenter) (b : ℕ)
      → 0 < s.max_buffer_chars
      → next_boundary is_space s ≡ some b
      → (0 < b) × (0 < length s.buffer)
  unfolding next_boundary find_boundary
  next_boundary_bounds s b m h =
      ground (arith, first_end_bounds s.min_chars false false 0 s.buffer b, fallback_pos s)

  heard-cut_at :
      (boundary : ℕ) (s : Segmenter) (later : Text)
      → heard later ≡ heard (cut_at is_space boundary s).buffer
      → heard (strip is_space (take boundary s.buffer) ++ later) ≡ heard s.buffer
  heard-cut_at boundary s later h =
      keep_if-append (λ c. not (is_space c)) (strip is_space (take boundary s.buffer)) later
      ∙ ap (λ r. r ++ heard later) (heard-strip (take boundary s.buffer))
      ∙ ap (λ r. heard (take boundary s.buffer) ++ r) (h ∙ heard-lstrip (drop boundary s.buffer))
      ∙ sym
          (keep_if-append (λ c. not (is_space c)) (take boundary s.buffer) (drop boundary s.buffer))
      ∙ ap heard (take-drop boundary s.buffer)

  pub joined-with_segment :
      (segment rest : Text) (later : List Text)
      → joined (with_segment is_space segment later) ++ rest ≡ segment ++ (joined later ++ rest)
  joined-with_segment [] rest later = refl
  joined-with_segment (c ∷ cs) rest later = append_assoc (c ∷ cs) (joined later) rest

  -- No piece is empty.
  abbrev pub AreHeard : List Text → Type 0
  AreHeard = All (λ text. is_empty text ≡ false)

  pub AreHeard-with_segment :
      (segment : Text) (later : List Text)
      → AreHeard later
      → AreHeard (with_segment is_space segment later)
  AreHeard-with_segment [] later h = h
  AreHeard-with_segment (c ∷ cs) later h = (refl, h)

  -- What a round of cutting makes of a segmenter: pieces that are not empty, and a buffer that is
  -- within its bound; together they have the characters that the buffer had, in their order.
  abbrev pub Cuts : Text → Segmenter → Option (List Text × Segmenter) → Type 0
  Cuts text s none = ⊥
  Cuts text s (some (segments, s')) =
      (heard (joined segments ++ s'.buffer) ≡ heard text)
      × AreHeard segments
      × (length s'.buffer ≤ s.max_buffer_chars)
      × (s'.min_chars ≡ s.min_chars)
      × (s'.max_buffer_chars ≡ s.max_buffer_chars)

  with_segment-Cuts :
      (boundary : ℕ) (s : Segmenter) (o : Option (List Text × Segmenter))
      → Cuts (cut_at is_space boundary s).buffer s o
      → Cuts s.buffer s (
          Option.map
            (λ later.
              (with_segment is_space (strip is_space (take boundary s.buffer)) later.0, later.1))
            o)
  with_segment-Cuts boundary s none h = h
  with_segment-Cuts boundary s (some (later, s')) h = (
    ap heard (joined-with_segment (strip is_space (take boundary s.buffer)) s'.buffer later)
        ∙ heard-cut_at boundary s (joined later ++ s'.buffer) h.0,
    AreHeard-with_segment (strip is_space (take boundary s.buffer)) later h.1,
    h.2,
    h.3,
    h.4,
  )

  length-cut_at-lt :
      (boundary : ℕ) (s : Segmenter)
      → 0 < boundary
      → 0 < length s.buffer
      → length (cut_at is_space boundary s).buffer < length s.buffer
  length-cut_at-lt boundary s b n =
      omega (arith, length-lstrip-le (drop boundary s.buffer), length-drop boundary s.buffer)

  next_boundary-none :
      (s : Segmenter) → next_boundary is_space s ≡ none → length s.buffer ≤ s.max_buffer_chars
  unfolding next_boundary
  next_boundary-none s h = ground arith

  pop_stops :
      (fuel : ℕ) (s : Segmenter)
      → next_boundary is_space s ≡ none
      → pop_ready_segments is_space (suc fuel) s ≡ some ([], s)
  unfolding pop_ready_segments
  pop_stops fuel s e = rw (e, pop_ready_segments) refl

  pop_cuts :
      (fuel : ℕ) (s : Segmenter) (boundary : ℕ)
      → next_boundary is_space s ≡ some boundary
      → pop_ready_segments is_space (suc fuel) s
        ≡ Option.map
            (λ later.
              (with_segment is_space (strip is_space (take boundary s.buffer)) later.0, later.1))
            (pop_ready_segments is_space fuel (cut_at is_space boundary s))
  unfolding pop_ready_segments
  pop_cuts fuel s boundary e = rw (e, pop_ready_segments) refl

  pop_ready_segments-Cuts :
      (fuel : ℕ) (s : Segmenter)
      → 0 < s.max_buffer_chars
      → length s.buffer < fuel
      → Cuts s.buffer s (pop_ready_segments is_space fuel s)
  pop_ready_segments-Cuts zero s m f = absurd (omega arith)
  pop_ready_segments-Cuts (suc fuel) s m f = elim (Option-cases (next_boundary is_space s)) [
    | inl e ↦ rw (pop_stops fuel s e) (refl, tt, next_boundary-none s e, refl, refl)
    | inr (b, e) ↦
        let (pos, some_text) = next_boundary_bounds s b m e in
        let shorter = length-cut_at-lt b s pos some_text in
        rw (pop_cuts fuel s b e) (
          with_segment-Cuts b s _
            (pop_ready_segments-Cuts fuel (cut_at is_space b s) m (omega arith)))
  ]

  -- `push` returns, whatever text comes and whatever is buffered, if the bound on the buffer is not 0
  -- and the buffer keeps it. The pieces it returns are not empty; they and the buffer it leaves have
  -- the characters of the old buffer and of the text that came, in their order, blanks aside; and the
  -- buffer is within its bound again.
  pub push-Cuts :
      (text_delta : Text) (s : Segmenter)
      → 0 < s.max_buffer_chars
      → length s.buffer ≤ s.max_buffer_chars
      → Cuts (s.buffer ++ text_delta) s (push is_space text_delta s)
  unfolding push
  push-Cuts [] s m b = (ap heard (sym (append_nil s.buffer)), tt, b, refl, refl)
  push-Cuts (c ∷ text_delta) s m b =
      pop_ready_segments-Cuts (suc (length (s.buffer ++ c ∷ text_delta)))
        (record s { buffer = s.buffer ++ c ∷ text_delta }) m (omega arith)
