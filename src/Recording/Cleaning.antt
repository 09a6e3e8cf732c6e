-- ===== src/Recording/Cleaning.antt =====
-- audio/stt.py: the form of a transcript that is cleaned.
use oi_interface.Base.{
  ℕ, Bool, true, is_empty, ◌≡◌, ◌++◌, Option, List, ◌∷◌, ◌||◌, false, if◌then◌else◌, not, arith, [],
  some, ◌&&◌, Bool-cases, refl, eqb, inl, inr, none,
}
use oi_interface.Speech.Segmenter.{Text, lstrip, rstrip, strip}
use oi_interface.Recording.Transcript.{
  collapse, is_ended, after_blanks, without_filler, clean_transcript, fillers,
}
use oi_interface.Dict.{or_default}

module _ (is_space : ℕ → Bool) where
  -- Every blank is one space, and stands behind a character that is none. `after` tells that the
  -- character before the text is a blank.
  unfoldable pub is_spaced : Bool → Text → Bool
  is_spaced after [] = true
  is_spaced after (c ∷ cs) =
      let rest = is_spaced (is_space c) cs in
      if is_space c then not after && eqb c b' ' && rest else rest

  -- Not empty text ends with a full stop, an exclamation mark or a question mark.
  abbrev pub is_closed : Text → Bool
  is_closed text = is_empty text || is_ended text

  -- The text does not start with a blank.
  unfoldable pub is_flush : Text → Bool
  is_flush [] = true
  is_flush (c ∷ cs) = not (is_space c)

  lstrip-is_flush : (text : Text) → is_flush (lstrip is_space text) ≡ true
  unfolding is_flush lstrip
  lstrip-is_flush [] = refl
  lstrip-is_flush (c ∷ cs) = ground (arith, lstrip-is_flush cs)

  rstrip-is_flush : (text : Text) → is_flush text ≡ true → is_flush (rstrip is_space text) ≡ true
  unfolding is_flush rstrip
  rstrip-is_flush [] h = refl
  rstrip-is_flush (c ∷ cs) h = ground arith

  strip-is_flush : (text : Text) → is_flush (strip is_space text) ≡ true
  unfolding strip
  strip-is_flush text = rstrip-is_flush (lstrip is_space text) (lstrip-is_flush text)

  -- Blanks are collapsed to one space each.
  collapse-is_spaced :
      (after : Bool) (text : Text)
      → is_space b' ' ≡ true
      → is_spaced after (collapse is_space after text) ≡ true
  unfolding is_spaced collapse
  collapse-is_spaced after [] s = refl
  collapse-is_spaced after (c ∷ cs) s = ground (arith, collapse-is_spaced (is_space c) cs s)

  collapse_flush :
      (text : Text)
      → is_flush text ≡ true
      → collapse is_space false text ≡ collapse is_space true text
  unfolding is_flush collapse
  collapse_flush [] h = refl
  collapse_flush (c ∷ cs) h = ground arith

  is_spaced-append :
      (after : Bool) (text : Text)
      → is_space b'.' ≡ false
      → is_spaced after text ≡ true
      → is_spaced after (text ++ b'.' ∷ []) ≡ true
  unfolding is_spaced
  is_spaced-append after [] s h = ground arith
  is_spaced-append after (c ∷ cs) s h = ground (arith, is_spaced-append (is_space c) cs s)

  is_ended-append : (text : Text) → is_ended (text ++ b'.' ∷ []) ≡ true
  unfolding is_ended
  is_ended-append [] = ground arith
  is_ended-append (c ∷ []) = ground arith
  is_ended-append (c ∷ d ∷ cs) = is_ended-append (d ∷ cs)

  module _ (same_letter : ℕ → ℕ → Bool) where
    after_blanks-is_flush :
        (o : Option Text) (text : Text)
        → is_flush text ≡ true
        → is_flush (or_default (after_blanks is_space o) text) ≡ true
    unfolding after_blanks
    after_blanks-is_flush none text h = h
    after_blanks-is_flush (some []) text h = h
    after_blanks-is_flush (some (c ∷ cs)) text h = elim (Bool-cases (is_space c)) [
      | inl t ↦ rw t (lstrip-is_flush cs)
      | inr t ↦ rw t h
    ]

    without_filler-is_flush :
        (words : List Text) (text : Text)
        → is_flush text ≡ true
        → is_flush (without_filler is_space same_letter words text) ≡ true
    unfolding without_filler
    without_filler-is_flush [] text h = h
    without_filler-is_flush (w ∷ ws) text h =
        after_blanks-is_flush _ _ (without_filler-is_flush ws text h)

    -- A transcript that is cleaned starts with no blank, has single spaces for its other blanks, and
    -- ends with a full stop, an exclamation mark or a question mark if it is not empty. A space is
    -- taken to be a blank, and a full stop not.
    pub clean_transcript-is_spaced :
        (raw : Text)
        → is_space b' ' ≡ true
        → is_space b'.' ≡ false
        → (is_spaced true (clean_transcript is_space same_letter raw) ≡ true)
          × (is_closed (clean_transcript is_space same_letter raw) ≡ true)
    unfolding clean_transcript
    clean_transcript-is_spaced raw s p =
        let text =
          collapse is_space false
            (without_filler is_space same_letter fillers (strip is_space raw)) in
        let spaced : is_spaced true text ≡ true =
          rw
            (collapse_flush _
              (without_filler-is_flush fillers (strip is_space raw) (strip-is_flush raw)))
            (collapse-is_spaced true _ s) in
        elim (Bool-cases (not (is_empty text) && not (is_ended text))) [
          | inl t ↦ rw t (is_spaced-append true text p spaced, ground (arith, is_ended-append text))
          | inr t ↦ rw t (spaced, ground arith)
        ]
