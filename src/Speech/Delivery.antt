-- ===== src/Speech/Delivery.antt =====
-- audio/delivery.py: `AudioDeliveryPipeline._do_deliver_audio`, with the command messages of
-- datp/messages.py. The speech engine, `base64` and the answers of the device are parameters.
use oi_interface.Base.{
  List, ℕ, String, Bool, Option, true, if◌then◌else◌, ◌∷◌, suc, eqb, not, [], false, none, some,
  ◌++◌, length, is_empty,
}
use oi_interface.Speech.Chunks.{Bytes, wav_to_pcm_chunks}
use oi_interface.Speech.Segmenter.{Text}

-- What the speech engine gives: chunks one by one, at whose end it may raise an error, or a WAV
-- file, `none` where it raises an error.
pub data Synthesis : Type 0 where
  streamed : List Bytes → Bool → Synthesis
  whole : Option Bytes → Synthesis

-- The commands of a cache sequence. The chunks bear their number and their `data_b64`.
pub data CacheCommand : Type 0 where
  begin_cache : CacheCommand
  chunk_cache : ℕ → Text → CacheCommand
  end_cache : CacheCommand

-- The op that `build_audio_cache_put_begin`, `build_audio_cache_chunk` and `build_audio_cache_put_end`
-- write.
unfoldable pub op : CacheCommand → String
op begin_cache = "audio.cache.put_begin"
op (chunk_cache seq data_b64) = "audio.cache.put_chunk"
op end_cache = "audio.cache.put_end"

-- What the dispatcher was given to send, and the number of chunks of the `audio_delivered` event, if
-- there is one.
abbrev pub Delivery : Type 0
Delivery = List CacheCommand × Option ℕ

module _ (encode_pcm_to_base64 : Bytes → Text) (acked : ℕ → Bool) where
  -- The loops over the chunks. `acked n` tells whether the command that comes after `n` others is
  -- acknowledged. `true` where all the chunks are.
  unfoldable pub put_chunks : ℕ → List Bytes → List CacheCommand × Bool
  put_chunks seq [] = ([], true)
  put_chunks seq (pcm_chunk ∷ chunks) =
      let rest = put_chunks (suc seq) chunks in
      let data_b64 = encode_pcm_to_base64 pcm_chunk in
      if acked (suc seq)
      then (chunk_cache seq data_b64 ∷ rest.0, rest.1)
      else (chunk_cache seq data_b64 ∷ [], false)

  -- The end of `_do_deliver_audio`, once the chunks are sent.
  unfoldable pub put_end_cache : ℕ → List CacheCommand → Delivery
  put_end_cache chunk_count sent =
      if eqb chunk_count 0
      then (sent, none)
      else (sent ++ end_cache ∷ [], if acked (suc chunk_count) then some chunk_count else none)

  -- `raised` tells that the engine raises an error at the end of its stream.
  unfoldable pub put_all : List Bytes → Bool → Delivery
  unfolding put_chunks put_end_cache
  put_all chunks raised =
      let sent = put_chunks 0 chunks in
      if not sent.1
      then (begin_cache ∷ sent.0, none)
      else if raised
      then (begin_cache ∷ sent.0, none)
      else put_end_cache (length chunks) (begin_cache ∷ sent.0)

  -- `whole none`: the engine raises an error; the last `none`: the chunks cannot be cut.
  unfoldable pub deliver_synthesis : ℕ → Synthesis → Delivery
  unfolding put_all
  deliver_synthesis chunk_size (streamed chunks raised) = put_all chunks raised
  deliver_synthesis chunk_size (whole none) = (begin_cache ∷ [], none)
  deliver_synthesis chunk_size (whole (some wav_bytes)) =
      if is_empty wav_bytes
      then (begin_cache ∷ [], none)
      else elim (wav_to_pcm_chunks wav_bytes chunk_size) [
        | none ↦ (begin_cache ∷ [], none)
        | some pcm_chunks ↦
            if is_empty pcm_chunks then (begin_cache ∷ [], none) else put_all pcm_chunks false
      ]

  -- `_do_deliver_audio`
  unfoldable pub do_deliver_audio : ℕ → Synthesis → Delivery
  unfolding deliver_synthesis
  do_deliver_audio chunk_size synthesis =
      if not (acked 0) then (begin_cache ∷ [], none) else deliver_synthesis chunk_size synthesis
