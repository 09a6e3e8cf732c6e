-- ===== src/Recording/Tests.antt =====
-- Recording on small chunks and transcripts, and its theorems there.
use oi_interface.Base.{
  ℕ, List, same, Bool, ◌∷◌, eqb, true, none, [], Option, ◌≡◌, ◌++◌, some, refl, arith,
}
use oi_interface.Speech.Segmenter.{Text}
use oi_interface.Recording.Transcript.{clean_transcript}
use oi_interface.Recording.Cleaning.{is_spaced, is_closed, clean_transcript-is_spaced}
use oi_interface.Recording.Stream.{pcm16_to_mono, Metrics}
use oi_interface.Recording.Accumulator.{
  SttBackend, StreamAccumulator, AudioChunk, transcribe, recording_finished, transcript,
}
use oi_interface.Recording.Numbers.{is_in}
use oi_interface.Speech.Chunks.{Bytes}
use oi_interface.Speech.Segments.{joined}
use oi_interface.Recording.Whole.{piece, IsRecording}
use oi_interface.Dict.{get}
use oi_interface.Base.Int.{pos}
use oi_interface.Recording.Buffered.{all_received, is_sound, buffer_all, AreSound}
use oi_interface.Recording.Transcribed.{transcribe-IsRecording}

abbrev blank : ℕ → Bool
blank c = eqb c b' '

-- "um  so  it is"
abbrev said : Text
said = b'u' ∷ b'm' ∷ b' ' ∷ b' ' ∷ b's' ∷ b'o' ∷ b' ' ∷ b' ' ∷ b'i' ∷ b't' ∷ b' ' ∷ b'i' ∷ b's' ∷ []

-- "so it is."
cleaned :
    clean_transcript blank eqb said
    ≡ b's' ∷ b'o' ∷ b' ' ∷ b'i' ∷ b't' ∷ b' ' ∷ b'i' ∷ b's' ∷ b'.' ∷ []
unfolding clean_transcript oi_interface.Speech.Segmenter.lstrip oi_interface.Speech.Segmenter.strip
    oi_interface.Speech.Segmenter.rstrip
cleaned = refl

clean_transcript-is_spaced_example :
    (is_spaced blank true (clean_transcript blank eqb said) ≡ true)
    × (is_closed blank (clean_transcript blank eqb said) ≡ true)
clean_transcript-is_spaced_example = clean_transcript-is_spaced blank eqb said refl refl

-- Two frames of two channels, and a byte more.
abbrev stereo : List Bytes
stereo = (1 ∷ 2 ∷ 3 ∷ 4 ∷ []) ∷ (5 ∷ 6 ∷ 7 ∷ 8 ∷ []) ∷ []

mono_of_stereo : pcm16_to_mono (joined stereo ++ 9 ∷ []) 2 ≡ 1 ∷ 2 ∷ 5 ∷ 6 ∷ []
unfolding pcm16_to_mono
mono_of_stereo = refl

abbrev sent : ℕ → Bytes → AudioChunk
sent n bytes = record {
  chunk_stream_id = "s";
  seq = pos n;
  data_b64 = bytes;
  chunk_sample_rate = 16000;
  chunk_channels = pos 1;
}

-- The second chunk comes first, and once more at the end.
abbrev later_messages : List (ℕ × AudioChunk)
later_messages = (2, sent 0 (1 ∷ 2 ∷ [])) ∷ (3, sent 1 (3 ∷ 4 ∷ [])) ∷ []

-- An engine that hears the bytes as text.
abbrev engine : SttBackend
engine = record {
  accept_audio_chunk = λ stream_id pcm rate seq. none;
  finish_stream = λ stream_id pcm rate. some pcm;
}

abbrev silent : StreamAccumulator
silent = record { streams = []; events = [] }

abbrev decode : Text → Option Bytes
decode text = some text

two_pieces :
    IsRecording ((1 ∷ 2 ∷ []) ∷ (3 ∷ 4 ∷ []) ∷ []) (
      all_received decode engine blank eqb "d" "s" 16000
        ((1, sent 1 (3 ∷ 4 ∷ [])) ∷ later_messages))
unfolding is_in pcm16_to_mono piece
two_pieces = ((refl, (refl, (refl, tt))), λ k l. ground arith)

all_sound :
    AreSound decode engine blank eqb "d" "s" 16000 ((1, sent 1 (3 ∷ 4 ∷ [])) ∷ later_messages)
unfolding is_sound same
all_sound = (refl, (refl, (refl, tt)))

transcribe-IsRecording_example :
    (m : Metrics) × ((transcribe decode engine blank eqb "d" "s" (
        recording_finished 4 "s" (some (pos 80)) (
          buffer_all decode engine blank eqb "d" "s" 16000
            ((1, sent 1 (3 ∷ 4 ∷ [])) ∷ later_messages)
            silent))).events
      ≡ (buffer_all decode engine blank eqb "d" "s" 16000
          ((1, sent 1 (3 ∷ 4 ∷ [])) ∷ later_messages)
          silent).events
        ++ transcript "d" "s"
            (1 ∷ 2 ∷ 3 ∷ 4 ∷ [])
            (clean_transcript blank eqb (1 ∷ 2 ∷ 3 ∷ 4 ∷ []))
            m
          ∷ [])
unfolding same get
transcribe-IsRecording_example =
    transcribe-IsRecording decode engine blank eqb "d" "s" 16000 (1, sent 1 (3 ∷ 4 ∷ []))
      later_messages silent 4 (some (pos 80)) (1 ∷ 2 ∷ []) ((3 ∷ 4 ∷ []) ∷ []) (1 ∷ 2 ∷ 3 ∷ 4 ∷ [])
      refl all_sound refl two_pieces refl refl
