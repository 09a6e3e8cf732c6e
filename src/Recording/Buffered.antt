-- ===== src/Recording/Buffered.antt =====
-- audio/pipeline.py: the chunks that messages leave in a stream.
use oi_interface.Speech.Segmenter.{Text}
use oi_interface.Base.{
  ◌∷◌, [], Option, ℕ, Bool, String, List, ◌==◌, ◌&&◌, ◌≡◌, truthy, not, [], some, ap, is_empty, ◌∙◌,
  eqb, same_self, true, Option-cases, refl, inl, inr, ◌||◌, false, arith, none, map, All,
}
use oi_interface.Speech.Chunks.{Bytes}
use oi_interface.Recording.Accumulator.{
  SttBackend, AudioChunk, buffer_decoded, with_stream, StreamAccumulator, at_least_one, store_chunk,
  buffer_chunk, new_stream,
}
use oi_interface.Recording.Stream.{Chunks, pcm16_to_mono, AudioStream, put_chunk}
use oi_interface.Base.Int.{pos_part, ltb_ℤ, pos}
use oi_interface.Dict.{or_default, get, update, is_some, get-update, Dict, get-put_same}
use oi_interface.Recording.Whole.{put_all_chunks}

module _ (b64decode : Text → Option Bytes) (stt : SttBackend) (is_space : ℕ → Bool)
    (same_letter : ℕ → ℕ → Bool) (device_id stream_id : String) (sample_rate : ℕ) where
  -- A message of this stream that the gateway can use.
  unfoldable pub is_sound : AudioChunk → Bool
  is_sound payload =
      payload.chunk_stream_id == stream_id
      && truthy payload.chunk_stream_id
      && not (ltb_ℤ payload.seq (pos 0))
      && not (is_empty payload.data_b64)
      && is_some (b64decode payload.data_b64)
      && eqb payload.chunk_sample_rate sample_rate

  -- The number of a message and the audio of its data, one channel of it.
  abbrev pub received_of : AudioChunk → ℕ × Bytes
  received_of payload = (
    pos_part payload.seq,
    pcm16_to_mono (or_default (b64decode payload.data_b64) [])
        (at_least_one payload.chunk_channels),
  )

  -- The messages, each with the time at which it comes.
  unfoldable pub buffer_all : List (ℕ × AudioChunk) → StreamAccumulator → StreamAccumulator
  buffer_all [] acc = acc
  buffer_all ((now, payload) ∷ rest) acc =
      buffer_all rest (buffer_chunk b64decode stt is_space same_letter now device_id payload acc)

  -- The stream is there, at this rate and with these chunks.
  abbrev pub HasChunks : Chunks → StreamAccumulator → Type 0
  HasChunks chunks acc =
      (stream : AudioStream) × (get stream_id acc.streams ≡ some stream)
      × (stream.chunks ≡ chunks)
      × (stream.sample_rate ≡ sample_rate)

  pub update-same :
      (f : AudioStream → AudioStream) (stream : AudioStream) (streams : Dict AudioStream)
      → get stream_id streams ≡ some stream
      → get stream_id (update stream_id f streams) ≡ some (f stream)
  update-same f stream streams g =
      get-update stream_id stream_id f streams ∙ rw (same_self stream_id, g) refl

  buffer_decoded-get :
      (now seq channels : ℕ) (payload : AudioChunk) (raw : Bytes) (acc : StreamAccumulator)
      (stream : AudioStream)
      → payload.chunk_stream_id ≡ stream_id
      → get stream_id acc.streams ≡ some stream
      → get stream_id
          (buffer_decoded b64decode stt is_space same_letter now device_id payload seq channels
            (some raw)
            acc).streams
        ≡ some (store_chunk now seq (pcm16_to_mono raw channels) stream)
  unfolding buffer_decoded
  buffer_decoded-get now seq channels payload raw acc stream e g =
      rw e (update-same (store_chunk now seq (pcm16_to_mono raw channels)) stream acc.streams g)

  -- The stream of the first message, or the one that is there.
  with_stream-get :
      (payload : AudioChunk) (channels : ℕ) (streams : Dict AudioStream)
      → payload.chunk_stream_id ≡ stream_id
      → get stream_id (with_stream device_id payload channels streams)
        ≡ some (or_default (get stream_id streams) (new_stream device_id payload channels))
  unfolding with_stream
  with_stream-get payload channels streams e = elim (Option-cases (get stream_id streams)) [
    | inl n ↦ rw e (rw n (get-put_same stream_id _ streams))
    | inr (s, n) ↦ rw e (rw n n)
  ]

  -- The guard of `_buffer_chunk` passes a message that is sound.
  is_sound-guard :
      (payload : AudioChunk)
      → is_sound payload ≡ true
      → (payload.chunk_stream_id ≡ stream_id)
        × ((not (truthy payload.chunk_stream_id)
              || ltb_ℤ payload.seq (pos 0)
              || is_empty payload.data_b64)
            ≡ false)
        × (payload.chunk_sample_rate ≡ sample_rate)
        × (is_some (b64decode payload.data_b64) ≡ true)
  unfolding is_sound
  is_sound-guard payload h = ground arith

  buffer_chunk-get :
      (now : ℕ) (payload : AudioChunk) (acc : StreamAccumulator)
      → is_sound payload ≡ true
      → get stream_id
          (buffer_chunk b64decode stt is_space same_letter now device_id payload acc).streams
        ≡ some (
            store_chunk now (received_of payload).0 (received_of payload).1 (
              or_default
                (get stream_id acc.streams)
                (new_stream device_id payload (at_least_one payload.chunk_channels))))
  unfolding buffer_chunk
  buffer_chunk-get now payload acc h =
      let (e, g, r, d) = is_sound-guard payload h in
      elim (Option-cases (b64decode payload.data_b64)) [
        | inl n ↦ cc
        | inr (raw, n) ↦
            rw (g, n)
              (buffer_decoded-get now (pos_part payload.seq) (at_least_one payload.chunk_channels)
                payload raw
                (record acc {
                  streams =
                      with_stream device_id payload (at_least_one payload.chunk_channels)
                        acc.streams;
                })
                _ e (with_stream-get payload (at_least_one payload.chunk_channels) acc.streams e))
      ]

  buffer_chunk-HasChunks :
      (now : ℕ) (payload : AudioChunk) (acc : StreamAccumulator) (chunks : Chunks)
      → is_sound payload ≡ true
      → HasChunks chunks acc
      → HasChunks
          (put_chunk (received_of payload).0 (received_of payload).1 chunks)
          (buffer_chunk b64decode stt is_space same_letter now device_id payload acc)
  unfolding store_chunk
  buffer_chunk-HasChunks now payload acc chunks h (stream, g, c, r) = (
    store_chunk now (received_of payload).0 (received_of payload).1 stream,
    buffer_chunk-get now payload acc h
        ∙ ap
            (λ o. some (
              store_chunk now (received_of payload).0 (received_of payload).1 (
                or_default o (new_stream device_id payload (at_least_one payload.chunk_channels)))))
            g,
    ap (put_chunk (received_of payload).0 (received_of payload).1) c,
    r,
  )

  buffer_first-HasChunks :
      (now : ℕ) (payload : AudioChunk) (acc : StreamAccumulator)
      → is_sound payload ≡ true
      → get stream_id acc.streams ≡ none
      → HasChunks
          (put_chunk (received_of payload).0 (received_of payload).1 [])
          (buffer_chunk b64decode stt is_space same_letter now device_id payload acc)
  unfolding store_chunk
  buffer_first-HasChunks now payload acc h n = (
    store_chunk now (received_of payload).0 (received_of payload).1
        (new_stream device_id payload (at_least_one payload.chunk_channels)),
    buffer_chunk-get now payload acc h
        ∙ ap
            (λ o. some (
              store_chunk now (received_of payload).0 (received_of payload).1 (
                or_default o (new_stream device_id payload (at_least_one payload.chunk_channels)))))
            n,
    refl,
    (is_sound-guard payload h).2,
  )

  -- The numbers and the audio of messages.
  abbrev pub all_received : List (ℕ × AudioChunk) → List (ℕ × Bytes)
  all_received = map (λ m. received_of m.1)

  abbrev pub AreSound : List (ℕ × AudioChunk) → Type 0
  AreSound = All (λ m. is_sound m.1 ≡ true)

  buffer_more-HasChunks :
      (messages : List (ℕ × AudioChunk)) (acc : StreamAccumulator) (chunks : Chunks)
      → AreSound messages
      → HasChunks chunks acc
      → HasChunks (put_all_chunks (all_received messages) chunks) (buffer_all messages acc)
  unfolding put_all_chunks buffer_all
  buffer_more-HasChunks [] acc chunks h k = k
  buffer_more-HasChunks ((now, payload) ∷ rest) acc chunks (s, h) k =
      buffer_more-HasChunks rest _ _ h (buffer_chunk-HasChunks now payload acc chunks s k)

  -- The first message makes the stream.
  pub buffer_all-HasChunks :
      (message : ℕ × AudioChunk) (messages : List (ℕ × AudioChunk)) (acc : StreamAccumulator)
      → AreSound (message ∷ messages)
      → get stream_id acc.streams ≡ none
      → HasChunks
          (put_all_chunks (all_received (message ∷ messages)) [])
          (buffer_all (message ∷ messages) acc)
  unfolding put_all_chunks buffer_all
  buffer_all-HasChunks message messages acc (s, h) n =
      buffer_more-HasChunks messages _ _ h (buffer_first-HasChunks message.0 message.1 acc s n)
