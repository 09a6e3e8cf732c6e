-- ===== src/Recording/Stream.antt =====
-- audio/pipeline.py: `AudioStream` and `pcm16_to_mono`. Times are whole milliseconds.
use oi_interface.Base.{
  Option, List, ℕ, String, length, none, ◌∷◌, map, Bool, some, take, [], ◌*◌, if◌then◌else◌, max,
  true, ◌+◌, ◌-◌, ◌++◌, suc, eqb, is_empty, drop, slice, ◌%◌, zero, ◌&&◌, false, leb, ltb, ◌/◌,
}
use oi_interface.Recording.Numbers.{range, is_in, by_number}
use oi_interface.Speech.Chunks.{Bytes, range_by}
use oi_interface.Base.Int.{ℤ}
use oi_interface.Speech.Segments.{joined}
use oi_interface.Dict.{or_default}
use oi_interface.Sort.{sort}

-- `dict[int, bytes]`, in the order of insertion.
abbrev pub Chunks : Type 0
Chunks = List (ℕ × Bytes)

unfoldable pub get_chunk : ℕ → Chunks → Option Bytes
get_chunk seq [] = none
get_chunk seq ((j, pcm) ∷ chunks) = if eqb seq j then some pcm else get_chunk seq chunks

-- `stream.chunks[seq] = pcm_bytes`
unfoldable pub put_chunk : ℕ → Bytes → Chunks → Chunks
put_chunk seq pcm_bytes [] = (seq, pcm_bytes) ∷ []
put_chunk seq pcm_bytes ((j, pcm) ∷ chunks) =
    if eqb seq j then (j, pcm_bytes) ∷ chunks else (j, pcm) ∷ put_chunk seq pcm_bytes chunks

-- `chunks.keys()`
abbrev pub seqs : Chunks → List ℕ
seqs = map (λ e. e.0)

pub record AudioStream : Type 0 where
  pub device_id : String
  pub stream_id : String
  pub sample_rate : ℕ
  pub channels : ℕ
  pub chunks : Chunks
  pub first_chunk_at : Option ℕ
  pub last_chunk_at : Option ℕ
  pub finished_at : Option ℕ
  pub reported_duration_ms : Option ℤ

-- `max` of a list that is not empty
unfoldable pub highest : List ℕ → ℕ
highest [] = 0
highest (x ∷ xs) = max x (highest xs)

-- `set(xs) <= set(ys)`
unfoldable pub all_in : List ℕ → List ℕ → Bool
all_in [] ys = true
all_in (x ∷ xs) ys = is_in x ys && all_in xs ys

unfoldable pub is_complete : AudioStream → Bool
unfolding all_in highest range
is_complete stream =
    if is_empty stream.chunks
    then false
    else let expected_seqs = range 0 (highest (seqs stream.chunks) + 1) in
      all_in (seqs stream.chunks) expected_seqs && all_in expected_seqs (seqs stream.chunks)

-- `b"".join(...)`; every seq that is looked up is there.
unfoldable pub reassemble_pcm : AudioStream → Bytes
unfolding get_chunk
reassemble_pcm stream =
    joined (
      map (λ seq. or_default (get_chunk seq stream.chunks) [])
        (sort by_number (seqs stream.chunks)))

pub record Metrics : Type 0 where
  pub chunk_count : ℕ
  pub byte_count : ℕ
  pub upload_span_ms : Option ℕ
  pub finish_after_first_chunk_ms : Option ℕ
  pub duration_ms : Option ℤ
  pub metrics_sample_rate : ℕ
  pub metrics_channels : ℕ

unfoldable pub byte_sum : Chunks → ℕ
byte_sum [] = 0
byte_sum ((j, pcm) ∷ chunks) = length pcm + byte_sum chunks

-- `max(0.0, (b - a) * 1000)` where both times are there.
unfoldable pub span_ms : Option ℕ → Option ℕ → Option ℕ
span_ms none b = none
span_ms (some a) none = none
span_ms (some a) (some b) = some (b - a)

unfoldable pub metrics : AudioStream → Metrics
unfolding byte_sum span_ms
metrics stream = record {
  chunk_count = length stream.chunks;
  byte_count = byte_sum stream.chunks;
  upload_span_ms = span_ms stream.first_chunk_at stream.last_chunk_at;
  finish_after_first_chunk_ms = span_ms stream.first_chunk_at stream.finished_at;
  duration_ms = stream.reported_duration_ms;
  metrics_sample_rate = stream.sample_rate;
  metrics_channels = stream.channels;
}

-- `mono[out:out + 2] = sample`
abbrev pub write_at : ℕ → Bytes → Bytes → Bytes
write_at out sample mono = take out mono ++ sample ++ drop (out + 2) mono

-- `bytearray(n)`
unfoldable pub zeros : ℕ → Bytes
zeros zero = []
zeros (suc n) = 0 ∷ zeros n

-- The loop of `pcm16_to_mono`.
unfoldable pub copy_samples : Bytes → List ℕ → ℕ → Bytes → Bytes
copy_samples pcm_bytes [] out mono = mono
copy_samples pcm_bytes (idx ∷ rest) out mono =
    copy_samples pcm_bytes rest (out + 2) (write_at out (slice idx (idx + 2) pcm_bytes) mono)

unfoldable pub pcm16_to_mono : Bytes → ℕ → Bytes
unfolding copy_samples zeros range_by
pcm16_to_mono pcm_bytes channels =
    let frame_width = channels * 2 in
    let usable_len = length pcm_bytes - length pcm_bytes % frame_width in
    if leb channels 1
    then pcm_bytes
    else if ltb (length pcm_bytes) frame_width
    then []
    else copy_samples (take usable_len pcm_bytes)
        (range_by (length pcm_bytes) frame_width 0 usable_len) 0 (zeros (usable_len / channels))
