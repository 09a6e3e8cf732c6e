-- ===== src/Speech/Tests.antt =====
-- Speech on small texts and a small WAV file, and its theorems there.
use oi_interface.Base.{ℕ, List, Bool, ◌∷◌, ◌≡◌, eqb, [], some, ltb, true, arith, refl, none, map}
use oi_interface.Device.Simulator.{run, init}
use oi_interface.Speech.Segmenter.{
  Text, Segmenter, push, stream, pop_ready_segments, next_boundary, lstrip, strip, rstrip,
}
use oi_interface.Speech.Segments.{Cuts, joined, push-Cuts}
use oi_interface.Speech.Streams.{Speaks, stream-Speaks}
use oi_interface.Speech.Chunks.{
  Bytes, wav_to_pcm_chunks, extract_pcm_from_wav, AreChunks, wav_to_pcm_chunks-AreChunks,
}
use oi_interface.Speech.Delivery.{do_deliver_audio, whole, begin_cache, chunk_cache}
use oi_interface.Speech.Delivered.{in_order, spoken, is_spoken, do_deliver_audio-in_order}
use oi_interface.Speech.Cached.{received, cached, do_deliver_audio-cached}
use oi_interface.Device.State.{thinking}

abbrev blank : ℕ → Bool
blank c = eqb c b' '

-- "Yes, I", of which "Yes," is long enough to be cut off
abbrev greeting : Text
greeting = b'Y' ∷ b'e' ∷ b's' ∷ b',' ∷ b' ' ∷ b'I' ∷ []

abbrev segmenter : Segmenter
segmenter = record { min_chars = 3; max_buffer_chars = 8; buffer = b'O' ∷ [] }

push-greeting :
    push blank greeting segmenter
    ≡ some (
      (b'O' ∷ b'Y' ∷ b'e' ∷ b's' ∷ b',' ∷ []) ∷ [],
      record { min_chars = 3; max_buffer_chars = 8; buffer = b'I' ∷ [] },
    )
unfolding push pop_ready_segments next_boundary lstrip strip rstrip
push-greeting = refl

push-Cuts_example : Cuts blank (b'O' ∷ greeting) segmenter (push blank greeting segmenter)
push-Cuts_example = push-Cuts blank greeting segmenter (omega arith) (omega arith)

-- A text without a mark is cut at its last blank.
push_long :
    push blank
      (b' ' ∷ b'Y' ∷ b'e' ∷ b's' ∷ b' ' ∷ b'I' ∷ [])
      (record segmenter { min_chars = 1; max_buffer_chars = 4 })
    ≡ some (
      (b'O' ∷ []) ∷ (b'Y' ∷ b'e' ∷ b's' ∷ []) ∷ [],
      record { min_chars = 1; max_buffer_chars = 4; buffer = b'I' ∷ [] },
    )
unfolding push pop_ready_segments next_boundary lstrip strip rstrip
push_long = refl

stream-Speaks_example :
    Speaks blank 3 8
      (joined (greeting ∷ greeting ∷ []))
      (stream blank 3 8 (greeting ∷ []) greeting none)
stream-Speaks_example = stream-Speaks blank 3 8 (greeting ∷ []) greeting (omega arith)

-- "RIFFdata", a size, and five bytes of audio
abbrev wav : Bytes
wav = b'R' ∷ b'I' ∷ b'F' ∷ b'F' ∷ b'd' ∷ b'a' ∷ b't' ∷ b'a' ∷ 5 ∷ 0 ∷ 0 ∷ 0 ∷ 1 ∷ 2 ∷ 3 ∷ 4 ∷ 5 ∷ []

wav_chunks : wav_to_pcm_chunks wav 2 ≡ some ((1 ∷ 2 ∷ []) ∷ (3 ∷ 4 ∷ []) ∷ (5 ∷ []) ∷ [])
unfolding wav_to_pcm_chunks extract_pcm_from_wav
wav_chunks = refl

wav_to_pcm_chunks-AreChunks_example :
    (chunks : List Bytes) × (wav_to_pcm_chunks wav 2 ≡ some chunks)
    × (joined chunks ≡ extract_pcm_from_wav wav)
    × AreChunks 2 chunks
wav_to_pcm_chunks-AreChunks_example = wav_to_pcm_chunks-AreChunks wav 2 (omega arith)

-- The encoding of the tests changes nothing.
abbrev plain : Bytes → Text
plain bytes = bytes

-- The device refuses the third command and all that come later.
abbrev refusing : ℕ → Bool
refusing n = ltb n 2

abbrev willing : ℕ → Bool
willing n = true

do_deliver_audio-in_order_example :
    do_deliver_audio plain refusing 2 (whole (some wav))
    ≡ in_order plain refusing
        (spoken plain 2 (whole (some wav)))
        (is_spoken plain 2 (whole (some wav)))
do_deliver_audio-in_order_example = do_deliver_audio-in_order plain refusing 2 (whole (some wav))

refused_delivery :
    do_deliver_audio plain refusing 2 (whole (some wav))
    ≡ (begin_cache ∷ chunk_cache 0 (1 ∷ 2 ∷ []) ∷ chunk_cache 1 (3 ∷ 4 ∷ []) ∷ [], none)
unfolding do_deliver_audio wav_to_pcm_chunks extract_pcm_from_wav
refused_delivery = refl

whole_delivery : (do_deliver_audio plain willing 2 (whole (some wav))).1 ≡ some 3
unfolding do_deliver_audio wav_to_pcm_chunks extract_pcm_from_wav
whole_delivery = refl

do_deliver_audio-cached_example :
    run (map received (do_deliver_audio plain willing 2 (whole (some wav))).0) (init thinking)
    ≡ cached 3 (init thinking)
do_deliver_audio-cached_example =
    do_deliver_audio-cached plain willing 2 3 (whole (some wav)) (init thinking) whole_delivery
