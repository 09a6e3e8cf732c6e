-- ===== src/Recording/Accumulator.antt =====
-- audio/pipeline.py: `StreamAccumulator`. `base64` and the recognition of speech are parameters.
use oi_interface.Base.{
  String, ℕ, Option, List, [], max, if◌then◌else◌, some, Bool, none, truthy, not, is_empty, ◌||◌,
  ◌++◌, length, ◌∷◌,
}
use oi_interface.Dict.{Dict, has, or_default, pop, put, update, get}
use oi_interface.Base.Int.{ℤ, pos, negsuc, ltb_ℤ, pos_part}
use oi_interface.Recording.Stream.{
  put_chunk, Metrics, AudioStream, pcm16_to_mono, reassemble_pcm, metrics,
}
use oi_interface.Speech.Segmenter.{Text}
use oi_interface.Speech.Chunks.{Bytes}
use oi_interface.Recording.Transcript.{clean_transcript}

-- `_on_event` of an `audio_chunk`: its payload, with what `get` gives for a missing key, and `channels`
-- as `int` gives it, 1 where it raises an error.
pub record AudioChunk : Type 0 where
  pub chunk_stream_id : String
  pub seq : ℤ
  pub data_b64 : Text
  pub chunk_sample_rate : ℕ
  pub chunk_channels : ℤ

pub data AudioEvent : Type 0 where
  audio_stream_chunk_received : String → String → ℕ → ℕ → ℕ → ℕ → ℕ → AudioEvent
  transcript_partial : String → String → Text → Text → ℕ → AudioEvent
  transcript : String → String → Text → Text → Metrics → AudioEvent

pub record StreamAccumulator : Type 0 where
  pub streams : Dict AudioStream
  pub events : List AudioEvent

-- The engine. `accept_audio_chunk` gives `none` where there is no such hook, where it raises an error and
-- where there is nothing partial; `finish_stream` stands for `transcribe` too, with `none` for an error.
pub record SttBackend : Type 0 where
  pub accept_audio_chunk : String → Bytes → ℕ → ℕ → Option Text
  pub finish_stream : String → Bytes → ℕ → Option Text

abbrev pub new_stream : String → AudioChunk → ℕ → AudioStream
new_stream device_id payload channels = record {
  device_id = device_id;
  stream_id = payload.chunk_stream_id;
  sample_rate = payload.chunk_sample_rate;
  channels = channels;
  chunks = [];
  first_chunk_at = none;
  last_chunk_at = none;
  finished_at = none;
  reported_duration_ms = none;
}

-- `max(1, int(channels))`
abbrev pub at_least_one : ℤ → ℕ
at_least_one (pos n) = max 1 n
at_least_one (negsuc n) = 1

-- `if stream_id not in self._streams`
unfoldable pub with_stream : String → AudioChunk → ℕ → Dict AudioStream → Dict AudioStream
with_stream device_id payload channels streams =
    if has payload.chunk_stream_id streams
    then streams
    else put payload.chunk_stream_id (new_stream device_id payload channels) streams

-- What `_buffer_chunk` writes to the stream.
unfoldable pub store_chunk : ℕ → ℕ → Bytes → AudioStream → AudioStream
unfolding put_chunk
store_chunk now seq pcm_bytes stream = record stream {
  chunks = put_chunk seq pcm_bytes stream.chunks;
  first_chunk_at = some (or_default stream.first_chunk_at now);
  last_chunk_at = some now;
}

-- What the handler of `audio.recording_finished` writes to the stream.
abbrev pub finished : ℕ → Option ℤ → AudioStream → AudioStream
finished now duration_ms stream = record stream {
  finished_at = some now;
  reported_duration_ms = elim duration_ms [
    | none ↦ stream.reported_duration_ms
    | some ms ↦ some ms
  ];
}

unfoldable pub recording_finished : ℕ → String → Option ℤ → StreamAccumulator → StreamAccumulator
recording_finished now stream_id duration_ms acc =
    if truthy stream_id
    then record acc { streams = update stream_id (finished now duration_ms) acc.streams }
    else acc

-- `len(stream.chunks)`
abbrev count_of : Option AudioStream → ℕ
count_of none = 0
count_of (some stream) = length stream.chunks

module _ (b64decode : Text → Option Bytes) (stt : SttBackend) (is_space : ℕ → Bool)
    (same_letter : ℕ → ℕ → Bool) where
  -- `_maybe_emit_partial_transcript`, for what the hook gives.
  unfoldable pub emit_partial_transcript :
      String → String → ℕ → Option Text → List AudioEvent → List AudioEvent
  emit_partial_transcript device_id stream_id seq none events = events
  emit_partial_transcript device_id stream_id seq (some text) events =
      let cleaned = clean_transcript is_space same_letter text in
      if is_empty text || is_empty cleaned
      then events
      else events ++ transcript_partial device_id stream_id text cleaned seq ∷ []

  -- `_buffer_chunk` from the decoding on.
  unfoldable pub buffer_decoded :
      ℕ → String → AudioChunk → ℕ → ℕ → Option Bytes → StreamAccumulator → StreamAccumulator
  unfolding store_chunk pcm16_to_mono emit_partial_transcript
  buffer_decoded now device_id payload seq channels none acc = acc
  buffer_decoded now device_id payload seq channels (some raw) acc =
      let pcm_bytes = pcm16_to_mono raw channels in
      let stream_id = payload.chunk_stream_id in
      let rate = payload.chunk_sample_rate in
      let streams = update stream_id (store_chunk now seq pcm_bytes) acc.streams in
      let chunk_count = count_of (get stream_id streams) in
      let received =
        audio_stream_chunk_received device_id stream_id seq rate channels (length pcm_bytes)
          chunk_count in
      record {
        streams = streams;
        events =
            emit_partial_transcript device_id stream_id seq
              (stt.accept_audio_chunk stream_id pcm_bytes rate seq) (acc.events ++ received ∷ []);
      }

  -- `_buffer_chunk`
  unfoldable pub buffer_chunk : ℕ → String → AudioChunk → StreamAccumulator → StreamAccumulator
  unfolding with_stream buffer_decoded
  buffer_chunk now device_id payload acc =
      let channels = at_least_one payload.chunk_channels in
      if not (truthy payload.chunk_stream_id)
        || ltb_ℤ payload.seq (pos 0)
        || is_empty payload.data_b64
      then acc
      else buffer_decoded now device_id payload (pos_part payload.seq) channels
          (b64decode payload.data_b64)
          (record acc { streams = with_stream device_id payload channels acc.streams })

  -- `_transcribe`, for the stream that was taken out of `_streams`.
  unfoldable pub transcribe_stream :
      String → String → Option AudioStream → List AudioEvent → List AudioEvent
  unfolding reassemble_pcm clean_transcript metrics
  transcribe_stream device_id stream_id none events = events
  transcribe_stream device_id stream_id (some stream) events =
      let pcm_bytes = reassemble_pcm stream in
      if is_empty pcm_bytes
      then events
      else elim (stt.finish_stream stream_id pcm_bytes stream.sample_rate) [
        | none ↦ events
        | some text ↦
            events
            ++ transcript device_id stream_id text (clean_transcript is_space same_letter text)
                (metrics stream)
              ∷ []
      ]

  -- `_transcribe`
  unfoldable pub transcribe : String → String → StreamAccumulator → StreamAccumulator
  unfolding transcribe_stream
  transcribe device_id stream_id acc = record {
    streams = pop stream_id acc.streams;
    events = transcribe_stream device_id stream_id (get stream_id acc.streams) acc.events;
  }
