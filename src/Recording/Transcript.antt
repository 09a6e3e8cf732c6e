-- ===== src/Recording/Transcript.antt =====
-- audio/stt.py: `clean_transcript`. `is_space` is `str.isspace` of a character; `same_letter` compares two
-- characters as `re.IGNORECASE` does.
use oi_interface.Base.{
  List, ℕ, ◌∷◌, Bool, [], false, Option, if◌then◌else◌, eqb, some, ◌||◌, none, not, is_empty, ◌&&◌,
  ◌++◌,
}
use oi_interface.Speech.Segmenter.{Text, lstrip, strip}
use oi_interface.Dict.{or_default}

-- The fillers of `filler_pattern`, in its order.
abbrev pub fillers : List Text
fillers =
    (b'u' ∷ b'm' ∷ [])
    ∷ (b'u' ∷ b'h' ∷ [])
    ∷ (b'h' ∷ b'm' ∷ b'm' ∷ [])
    ∷ (b'a' ∷ b'h' ∷ [])
    ∷ (b'e' ∷ b'r' ∷ [])
    ∷ (b'e' ∷ b'r' ∷ b'm' ∷ [])
    ∷ (b'l' ∷ b'i' ∷ b'k' ∷ b'e' ∷ [])
    ∷ (b'y' ∷ b'o' ∷ b'u' ∷ b' ' ∷ b'k' ∷ b'n' ∷ b'o' ∷ b'w' ∷ [])
    ∷ (b'i' ∷ b' ' ∷ b'm' ∷ b'e' ∷ b'a' ∷ b'n' ∷ [])
    ∷ []

-- `text.endswith((".", "!", "?"))`
unfoldable pub is_ended : Text → Bool
is_ended [] = false
is_ended (c ∷ []) = eqb c b'.' || eqb c b'!' || eqb c b'?'
is_ended (c ∷ d ∷ cs) = is_ended (d ∷ cs)

module _ (same_letter : ℕ → ℕ → Bool) where
  -- What comes after a word that the text starts with.
  unfoldable pub after_word : Text → Text → Option Text
  after_word [] text = some text
  after_word (w ∷ ws) [] = none
  after_word (w ∷ ws) (c ∷ cs) = if same_letter w c then after_word ws cs else none

module _ (is_space : ℕ → Bool) where
  -- `\s+`: one blank at least, and all that follow it.
  unfoldable pub after_blanks : Option Text → Option Text
  after_blanks none = none
  after_blanks (some []) = none
  after_blanks (some (c ∷ cs)) = if is_space c then some (lstrip is_space cs) else none

  -- `re.sub(r"\s+", " ", text)`; `after` tells that the character before is a blank.
  unfoldable pub collapse : Bool → Text → Text
  collapse after [] = []
  collapse after (c ∷ cs) =
      let rest = collapse (is_space c) cs in
      if is_space c then (if after then rest else b' ' ∷ rest) else c ∷ rest

module _ (is_space : ℕ → Bool) (same_letter : ℕ → ℕ → Bool) where
  -- `re.sub(filler_pattern, "", text)`
  unfoldable pub without_filler : List Text → Text → Text
  unfolding after_word after_blanks
  without_filler [] text = text
  without_filler (word ∷ words) text =
      or_default (after_blanks is_space (after_word same_letter word (lstrip is_space text)))
        (without_filler words text)

  unfoldable pub clean_transcript : Text → Text
  unfolding without_filler collapse is_ended
  clean_transcript raw =
      let text = collapse is_space false (without_filler fillers (strip is_space raw)) in
      if not (is_empty text) && not (is_ended text) then text ++ b'.' ∷ [] else text
