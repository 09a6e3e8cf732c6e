-- ===== src/Speech/Streams.antt =====
-- audio/delivery.py: a whole streamed answer is spoken.
use mathlib.Core.Option
use oi_interface.Base.{
  List, ℕ, Bool, Option, ◌++◌, some, [], ◌≡◌, ◌∷◌, none, ap, length, true, ◌∙◌, ◌≤◌, sym,
  append_assoc, refl, keep_if-append, ◌<◌, false, append_nil, arith,
}
use oi_interface.Speech.Segmenter.{
  Text, delivered, Segmenter, flush, with_segment, then_on, stream, strip, fresh,
  handle_stream_delta, push,
}
use mathlib.Core.Option.{join}
use oi_interface.Speech.Segments.{
  joined, AreHeard, heard, Cuts, AreHeard-with_segment, joined-with_segment, push-Cuts, heard-strip,
}
use oi_interface.Dict.{or_default}

joined-append : (xs ys : List Text) → joined (xs ++ ys) ≡ joined xs ++ joined ys
joined-append [] ys = refl
joined-append (x ∷ xs) ys =
    ap (λ r. x ++ r) (joined-append xs ys) ∙ sym (append_assoc x (joined xs) (joined ys))

module _ (is_space : ℕ → Bool) (min_chars max_chars : ℕ) where
  -- The pieces are not empty, have the characters of the text in their order, and no segmenter is left.
  abbrev pub Speaks : Text → Option (List Text × Option Segmenter) → Type 0
  Speaks text none = ⊥
  Speaks text (some (pieces, state)) =
      (heard is_space (joined pieces) ≡ heard is_space text)
      × AreHeard is_space pieces
      × (state ≡ none)

  abbrev pub buffered : Option Segmenter → Text
  buffered none = []
  buffered (some s) = s.buffer

  -- A segmenter that was made for this stream and has its buffer within the bound.
  abbrev pub IsBounded : Option Segmenter → Type 0
  IsBounded none = Unit
  IsBounded (some s) = (s.max_buffer_chars ≡ max_chars) × (length s.buffer ≤ max_chars)

  All-append :
      (xs ys : List Text)
      → AreHeard is_space xs
      → AreHeard is_space ys
      → AreHeard is_space (xs ++ ys)
  All-append [] ys h k = k
  All-append (x ∷ xs) ys (a, h) k = (a, All-append xs ys h k)

  heard-rest :
      (text : Text)
      → heard is_space (joined (with_segment is_space (strip is_space text) []))
        ≡ heard is_space text
  heard-rest text =
      ap (heard is_space)
        (sym (append_nil _) ∙ joined-with_segment is_space (strip is_space text) [] [])
      ∙ ap (heard is_space) (append_nil (strip is_space text))
      ∙ heard-strip is_space text

  delivered-Speaks :
      (text : Text) (s : Segmenter) (o : Option (List Text × Segmenter))
      → Cuts is_space text s o
      → Speaks text (delivered is_space true o)
  unfolding delivered flush
  delivered-Speaks text s none h = h
  delivered-Speaks text s (some (segments, s')) h = (
    ap (heard is_space) (joined-append segments _)
        ∙ keep_if-append _ (joined segments) _
        ∙ ap (λ r. heard is_space (joined segments) ++ r) (heard-rest s'.buffer)
        ∙ sym (keep_if-append _ (joined segments) s'.buffer)
        ∙ h.0,
    All-append segments _ h.1 (AreHeard-with_segment is_space (strip is_space s'.buffer) [] tt),
    refl,
  )

  -- What comes after the pieces that are cut off already.
  also-Speaks :
      (text rest : Text) (segments : List Text) (s' : Segmenter)
      (next : Option (List Text × Option Segmenter))
      → heard is_space (joined segments ++ s'.buffer) ≡ heard is_space text
      → AreHeard is_space segments
      → Speaks (s'.buffer ++ rest) next
      → Speaks (text ++ rest) (Option.map (λ r. (segments ++ r.0, r.1)) next)
  also-Speaks text rest segments s' none e a h = h
  also-Speaks text rest segments s' (some (pieces, state)) e a h = (
    ap (heard is_space) (joined-append segments pieces)
        ∙ keep_if-append _ (joined segments) (joined pieces)
        ∙ ap (λ r. heard is_space (joined segments) ++ r) h.0
        ∙ sym (keep_if-append _ (joined segments) (s'.buffer ++ rest))
        ∙ ap (heard is_space) (sym (append_assoc (joined segments) s'.buffer rest))
        ∙ keep_if-append _ (joined segments ++ s'.buffer) rest
        ∙ ap (λ r. r ++ heard is_space rest) e
        ∙ sym (keep_if-append _ text rest),
    All-append segments pieces a h.1,
    h.2,
  )

  then_on-Speaks :
      (text rest : Text) (s : Segmenter) (o : Option (List Text × Segmenter))
      (next : Option Segmenter → Option (List Text × Option Segmenter))
      → s.max_buffer_chars ≡ max_chars
      → Cuts is_space text s o
      → ((s' : Segmenter) → IsBounded (some s') → Speaks (s'.buffer ++ rest) (next (some s')))
      → Speaks (text ++ rest) (then_on is_space next (delivered is_space false o))
  unfolding then_on delivered
  then_on-Speaks text rest s none next m h n = h
  then_on-Speaks text rest s (some (segments, s')) next m h n =
      also-Speaks text rest segments s' (next (some s')) h.0 h.1
        (n s' (h.4 ∙ m, ground (arith, m, h.2)))

  -- The segmenter that the call uses.
  abbrev used : Option Segmenter → Segmenter
  used state = or_default state (fresh is_space min_chars max_chars)

  handle_push-Cuts :
      (text_delta : Text) (state : Option Segmenter)
      → 0 < max_chars
      → IsBounded state
      → Cuts is_space
          (buffered state ++ text_delta)
          (used state)
          (push is_space text_delta (used state))
  handle_push-Cuts text_delta none m b =
      push-Cuts is_space text_delta (fresh is_space min_chars max_chars) m (omega arith)
  handle_push-Cuts text_delta (some s) m (e, b) =
      push-Cuts is_space text_delta s (ground arith) (ground arith)

  used_bound :
      (state : Option Segmenter) → IsBounded state → (used state).max_buffer_chars ≡ max_chars
  used_bound none b = refl
  used_bound (some s) b = b.0

  stream_from-Speaks :
      (deltas : List Text) (last : Text) (state : Option Segmenter)
      → 0 < max_chars
      → IsBounded state
      → Speaks
          (buffered state ++ joined (deltas ++ last ∷ []))
          (stream is_space min_chars max_chars deltas last state)
  unfolding stream handle_stream_delta
  stream_from-Speaks [] last state m b =
      rw (append_nil last) (delivered-Speaks _ (used state) _ (handle_push-Cuts last state m b))
  stream_from-Speaks (delta ∷ deltas) last state m b =
      rw (sym (append_assoc (buffered state) delta (joined (deltas ++ last ∷ [])))) (
        then_on-Speaks (buffered state ++ delta) (joined (deltas ++ last ∷ [])) (used state) _
          (stream is_space min_chars max_chars deltas last) (used_bound state b)
          (handle_push-Cuts delta state m b) (λ s' k. stream_from-Speaks deltas last (some s') m k))

  -- Whatever the deltas are and however they are cut, the calls for a streamed answer return if the
  -- bound on the buffer is not 0; no piece of speech they make is empty; the pieces have the characters
  -- of the answer in their order, blanks aside, so that none is lost, repeated or moved; and the final
  -- call leaves no segmenter behind.
  pub stream-Speaks :
      (deltas : List Text) (last : Text)
      → 0 < max_chars
      → Speaks (joined (deltas ++ last ∷ [])) (stream is_space min_chars max_chars deltas last none)
  stream-Speaks deltas last m = stream_from-Speaks deltas last none m tt
