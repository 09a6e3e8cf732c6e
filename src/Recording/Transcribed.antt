-- ===== src/Recording/Transcribed.antt =====
-- audio/pipeline.py: from the chunk messages of a recording to its transcript.
use oi_interface.Speech.Segmenter.{Text}
use oi_interface.Base.{
  Option, ℕ, Bool, String, List, ◌≡◌, truthy, true, Bool-cases, ◌∷◌, inl, inr, [], none, refl,
  is_empty, false, some, ◌++◌, ap, ◌∙◌,
}
use oi_interface.Speech.Chunks.{Bytes}
use oi_interface.Recording.Accumulator.{
  SttBackend, recording_finished, transcribe, AudioChunk, transcribe_stream, StreamAccumulator,
  finished, transcript,
}
use oi_interface.Base.Int.{ℤ}
use oi_interface.Recording.Stream.{Chunks, Metrics, metrics}
use oi_interface.Recording.Whole.{IsRecording, put_all_chunks}
use oi_interface.Recording.Buffered.{
  HasChunks, AreSound, update-same, all_received, buffer_all, buffer_all-HasChunks,
}
use oi_interface.Dict.{get}
use oi_interface.Speech.Segments.{joined}
use oi_interface.Recording.Transcript.{clean_transcript}
use oi_interface.Recording.Complete.{reassemble_pcm-IsRecording}

module _ (b64decode : Text → Option Bytes) (stt : SttBackend) (is_space : ℕ → Bool)
    (same_letter : ℕ → ℕ → Bool) (device_id stream_id : String) (sample_rate : ℕ) where
  recording_finished-HasChunks :
      (now : ℕ) (duration_ms : Option ℤ) (acc : StreamAccumulator) (chunks : Chunks)
      → truthy stream_id ≡ true
      → HasChunks b64decode stt is_space same_letter device_id stream_id sample_rate chunks acc
      → HasChunks b64decode stt is_space same_letter device_id stream_id sample_rate chunks
          (recording_finished now stream_id duration_ms acc)
  unfolding recording_finished
  recording_finished-HasChunks now duration_ms acc chunks t (stream, g, c, r) = rw t (
    finished now duration_ms stream,
    update-same b64decode stt is_space same_letter device_id stream_id sample_rate
        (finished now duration_ms) stream acc.streams g,
    c,
    r,
  )

  recording_finished_events :
      (now : ℕ) (duration_ms : Option ℤ) (acc : StreamAccumulator)
      → (recording_finished now stream_id duration_ms acc).events ≡ acc.events
  unfolding recording_finished
  recording_finished_events now duration_ms acc = elim (Bool-cases (truthy stream_id)) [
    | inl t ↦ rw t refl
    | inr t ↦ rw t refl
  ]

  -- What `_transcribe` adds where the engine gives a text.
  transcribe-HasChunks :
      (acc : StreamAccumulator) (p : Bytes) (ps : List Bytes) (received : List (ℕ × Bytes))
      (text : Text)
      → IsRecording (p ∷ ps) received
      → HasChunks b64decode stt is_space same_letter device_id stream_id sample_rate
          (put_all_chunks received [])
          acc
      → is_empty (joined (p ∷ ps)) ≡ false
      → stt.finish_stream stream_id (joined (p ∷ ps)) sample_rate ≡ some text
      → (m : Metrics) × ((transcribe b64decode stt is_space same_letter device_id stream_id
            acc).events
          ≡ acc.events
            ++ transcript device_id stream_id text (clean_transcript is_space same_letter text) m
              ∷ [])
  unfolding transcribe transcribe_stream
  transcribe-HasChunks acc p ps received text whole (stream, g, c, r) n t =
      let (complete, e) = reassemble_pcm-IsRecording stream p ps received whole c in
      let heard = ap (stt.finish_stream stream_id (joined (p ∷ ps))) r ∙ t in
      (metrics stream, rw g (rw (e, n, heard) refl))

  -- The messages of a recording, in any order and some of them more than once, then its end, and then
  -- `_transcribe`: the engine gets the audio of the pieces in the order of their numbers, and the
  -- transcript that it gives is emitted, with the cleaned one, after all that was emitted before. The
  -- messages are of this stream and can be used, at one rate; the stream is new; and there is some
  -- audio.
  pub transcribe-IsRecording :
      (message : ℕ × AudioChunk) (messages : List (ℕ × AudioChunk)) (acc : StreamAccumulator)
      (now : ℕ) (duration_ms : Option ℤ) (p : Bytes) (ps : List Bytes) (text : Text)
      → truthy stream_id ≡ true
      → AreSound b64decode stt is_space same_letter device_id stream_id sample_rate
          (message ∷ messages)
      → get stream_id acc.streams ≡ none
      → IsRecording (p ∷ ps) (
          all_received b64decode stt is_space same_letter device_id stream_id sample_rate
            (message ∷ messages))
      → is_empty (joined (p ∷ ps)) ≡ false
      → stt.finish_stream stream_id (joined (p ∷ ps)) sample_rate ≡ some text
      → (m : Metrics) × ((transcribe b64decode stt is_space same_letter device_id stream_id (
            recording_finished now stream_id duration_ms (
              buffer_all b64decode stt is_space same_letter device_id stream_id sample_rate
                (message ∷ messages)
                acc))).events
          ≡ (buffer_all b64decode stt is_space same_letter device_id stream_id sample_rate
              (message ∷ messages)
              acc).events
            ++ transcript device_id stream_id text (clean_transcript is_space same_letter text) m
              ∷ [])
  transcribe-IsRecording message messages acc now duration_ms p ps text t sound new whole some_audio
        heard =
      let buffered =
        buffer_all-HasChunks b64decode stt is_space same_letter device_id stream_id sample_rate
          message messages acc sound new in
      let ended = recording_finished-HasChunks now duration_ms _ _ t buffered in
      let (m, e) = transcribe-HasChunks _ p ps _ text whole ended some_audio heard in
      (
        m,
        e
            ∙ ap
                (λ es.
                  es
                  ++ transcript device_id stream_id text
                      (clean_transcript is_space same_letter text) m
                    ∷ [])
                (recording_finished_events now duration_ms (
                  buffer_all b64decode stt is_space same_letter device_id stream_id sample_rate
                    (message ∷ messages) acc)),
      )
