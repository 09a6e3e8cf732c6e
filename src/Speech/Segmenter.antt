-- ===== src/Speech/Segmenter.antt =====
-- audio/delivery.py: `ResponseTextSegmenter` and `_handle_stream_delta`. A text is the list of its code
-- points. `is_space` is `str.isspace` of a character, which is also what `\s` stands for; the pieces
-- that are cut off are given to the speech engine one after another.
use mathlib.Core.Option
use oi_interface.Base.{
  List, ℕ, Option, Bool, none, take, eqb, ◌∷◌, min, if◌then◌else◌, false, some, drop, suc, [], ◌||◌,
  length, ◌&&◌, leb, ◌++◌, ltb, not, ◌+◌, is_empty, zero, true,
}
use oi_interface.Dict.{or_default}

abbrev pub Text : Type 0
Text = List ℕ

-- `[.!?]` and `,`
unfoldable pub is_mark : ℕ → Bool
is_mark c = eqb c b'.' || eqb c b'!' || eqb c b'?' || eqb c b','

pub record Segmenter : Type 0 where
  pub min_chars : ℕ
  pub max_buffer_chars : ℕ
  pub buffer : Text

-- The places of a text at which `window.rfind` looks.
unfoldable pub is_break : ℕ → Bool
is_break c = eqb c b' ' || eqb c b'\n'

-- `max(window.rfind(" "), window.rfind("\n"))`, `none` where that is -1.
unfoldable pub last_break : Text → Option ℕ
unfolding is_break
last_break [] = none
last_break (c ∷ cs) = elim (last_break cs) [
  | some i ↦ some (suc i)
  | none ↦ if is_break c then some 0 else none
]

-- `_fallback_boundary`
unfoldable pub fallback_boundary : Segmenter → ℕ
unfolding last_break
fallback_boundary s = elim (last_break (take s.max_buffer_chars s.buffer)) [
  | none ↦ min (length s.buffer) s.max_buffer_chars
  | some i ↦ if ltb i s.min_chars then min (length s.buffer) s.max_buffer_chars else i + 1
]

module _ (is_space : ℕ → Bool) where
  -- The first end of a match of `(?<=[.!?,])\s+` that is at least `min_chars`. `after` tells that the
  -- last character is a mark, `open_match` that it belongs to a match, and `pos` where it ends.
  unfoldable pub first_end : ℕ → Bool → Bool → ℕ → Text → Option ℕ
  unfolding is_mark
  first_end min_chars after open_match pos [] =
      if open_match && leb min_chars pos then some pos else none
  first_end min_chars after open_match pos (c ∷ cs) =
      let later =
        first_end min_chars (not (is_space c) && is_mark c) (is_space c && (open_match || after))
          (suc pos) cs in
      if not (is_space c) && open_match && leb min_chars pos then some pos else later

  -- `_find_boundary`
  unfoldable pub find_boundary : Segmenter → Option ℕ
  unfolding first_end
  find_boundary s = first_end s.min_chars false false 0 s.buffer

  -- `lstrip`, `rstrip` and `strip`
  unfoldable pub lstrip : Text → Text
  lstrip [] = []
  lstrip (c ∷ cs) = let rest = lstrip cs in if is_space c then rest else c ∷ cs

  unfoldable pub rstrip : Text → Text
  rstrip [] = []
  rstrip (c ∷ cs) = let rest = rstrip cs in if is_space c && is_empty rest then [] else c ∷ rest

  unfoldable pub strip : Text → Text
  strip text = rstrip (lstrip text)

  -- `if segment: segments.append(segment)`, in front of the segments that come later.
  abbrev pub with_segment : Text → List Text → List Text
  with_segment segment later = if is_empty segment then later else segment ∷ later

  -- Where the loop of `_pop_ready_segments` cuts the buffer; `none` where it stops.
  unfoldable pub next_boundary : Segmenter → Option ℕ
  unfolding find_boundary fallback_boundary
  next_boundary s = elim (find_boundary s) [
    | some boundary ↦ some boundary
    | none ↦ if leb (length s.buffer) s.max_buffer_chars then none else some (fallback_boundary s)
  ]

  abbrev pub cut_at : ℕ → Segmenter → Segmenter
  cut_at boundary s = record s { buffer = lstrip (drop boundary s.buffer) }

  -- `_pop_ready_segments`, on fuel: `none` where the rounds do not suffice.
  unfoldable pub pop_ready_segments : ℕ → Segmenter → Option (List Text × Segmenter)
  pop_ready_segments zero s = none
  pop_ready_segments (suc fuel) s = elim (next_boundary s) [
    | none ↦ some ([], s)
    | some boundary ↦
        Option.map (λ later. (with_segment (strip (take boundary s.buffer)) later.0, later.1))
          (pop_ready_segments fuel (cut_at boundary s))
  ]

  -- As many rounds as the buffer has characters, and one.
  unfoldable pub push : Text → Segmenter → Option (List Text × Segmenter)
  push [] s = some ([], s)
  push (c ∷ text_delta) s =
      let t = record s { buffer = s.buffer ++ c ∷ text_delta } in
      pop_ready_segments (suc (length t.buffer)) t

  unfoldable pub flush : Segmenter → Text × Segmenter
  flush s = (strip s.buffer, record s { buffer = [] })

  -- The end of `_handle_stream_delta`: the final delta flushes the segmenter and drops it.
  unfoldable pub delivered :
      Bool → Option (List Text × Segmenter) → Option (List Text × Option Segmenter)
  delivered is_final none = none
  delivered true (some (segments, s)) = some (segments ++ with_segment (flush s).0 [], none)
  delivered false (some (segments, s)) = some (segments, some s)

  abbrev pub fresh : ℕ → ℕ → Segmenter
  fresh min_chars max_chars = record {
    min_chars = min_chars;
    max_buffer_chars = max_chars;
    buffer = [];
  }

  -- `_handle_stream_delta`, for the segmenter of its key in `_stream_states`, or `none` where there is
  -- none: the pieces of speech in their order, and the segmenter that is left there.
  unfoldable pub handle_stream_delta :
      ℕ → ℕ → Text → Bool → Option Segmenter → Option (List Text × Option Segmenter)
  handle_stream_delta min_chars max_chars text_delta is_final state =
      delivered is_final (push text_delta (or_default state (fresh min_chars max_chars)))

  -- The pieces of one result before those of the next call.
  unfoldable pub then_on :
      (Option Segmenter → Option (List Text × Option Segmenter))
      → Option (List Text × Option Segmenter)
      → Option (List Text × Option Segmenter)
  then_on next none = none
  then_on next (some (segments, state)) = Option.map (λ r. (segments ++ r.0, r.1)) (next state)

  -- An answer that comes in deltas, of which the last is final.
  unfoldable pub stream :
      ℕ → ℕ → List Text → Text → Option Segmenter → Option (List Text × Option Segmenter)
  stream min_chars max_chars [] last state = handle_stream_delta min_chars max_chars last true state
  stream min_chars max_chars (delta ∷ deltas) last state =
      then_on (stream min_chars max_chars deltas last)
        (handle_stream_delta min_chars max_chars delta false state)
