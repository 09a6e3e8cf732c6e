-- ===== src/Speech/Delivered.antt =====
-- audio/delivery.py: the commands that a delivery sends, on every branch.
use oi_interface.Speech.Chunks.{Bytes, wav_to_pcm_chunks, extract_pcm_from_wav}
use oi_interface.Speech.Segmenter.{Text}
use oi_interface.Base.{
  ℕ, List, Bool, ◌∷◌, ◌++◌, ◌≡◌, suc, true, [], arith, refl, if◌then◌else◌, length, false, ◌+◌, ap,
  ◌&&◌, not, some, is_empty, none, Bool-cases, inl, inr, append_nil, Option-cases, sym,
}
use oi_interface.Speech.Delivery.{
  CacheCommand, begin_cache, put_chunks, chunk_cache, end_cache, Synthesis, Delivery, put_all,
  streamed, put_end_cache, whole, deliver_synthesis, do_deliver_audio,
}
use oi_interface.Dict.{or_default}

wav_to_pcm_chunks_none : (chunk_size : ℕ) → wav_to_pcm_chunks [] chunk_size ≡ some []
unfolding wav_to_pcm_chunks extract_pcm_from_wav
wav_to_pcm_chunks_none chunk_size = refl

module _ (encode_pcm_to_base64 : Bytes → Text) where
  -- The chunks as commands, numbered from `seq`.
  abbrev pub numbered : ℕ → List Bytes → List CacheCommand
  numbered seq [] = []
  numbered seq (c ∷ cs) = chunk_cache seq (encode_pcm_to_base64 c) ∷ numbered (suc seq) cs

  -- The chunks that the engine yields, as far as it does.
  abbrev pub spoken : ℕ → Synthesis → List Bytes
  spoken chunk_size (streamed chunks raised) = chunks
  spoken chunk_size (whole none) = []
  spoken chunk_size (whole (some wav_bytes)) =
      or_default (wav_to_pcm_chunks wav_bytes chunk_size) []

  -- The engine raised no error, and there are chunks.
  abbrev pub is_spoken : ℕ → Synthesis → Bool
  is_spoken chunk_size (streamed chunks raised) = not raised && not (is_empty chunks)
  is_spoken chunk_size (whole wav) = not (is_empty (spoken chunk_size (whole wav)))

  -- The commands of a cache sequence, without the last where the speech is not complete.
  abbrev pub cache_sequence : List Bytes → Bool → List CacheCommand
  cache_sequence chunks complete =
      begin_cache ∷ numbered 0 chunks ++ (if complete then end_cache ∷ [] else [])

  module _ (acked : ℕ → Bool) where
    -- The commands in their order, up to the first that is not acknowledged; `true` where all are.
    unfoldable pub send_in_order : ℕ → List CacheCommand → List CacheCommand × Bool
    send_in_order n [] = ([], true)
    send_in_order n (c ∷ cs) =
        let rest = send_in_order (suc n) cs in
        if acked n then (c ∷ rest.0, rest.1) else (c ∷ [], false)

    put_chunks-send_in_order :
        (seq : ℕ) (chunks : List Bytes)
        → put_chunks encode_pcm_to_base64 acked seq chunks
          ≡ send_in_order (suc seq) (numbered seq chunks)
    unfolding put_chunks send_in_order
    put_chunks-send_in_order seq [] = refl
    put_chunks-send_in_order seq (c ∷ cs) = rw (put_chunks-send_in_order (suc seq) cs) refl

    send_in_order-append :
        (n : ℕ) (xs ys : List CacheCommand)
        → send_in_order n (xs ++ ys) ≡ (
            if (send_in_order n xs).1
            then (
              (send_in_order n xs).0 ++ (send_in_order (n + length xs) ys).0,
              (send_in_order (n + length xs) ys).1,
            )
            else send_in_order n xs)
    unfolding send_in_order
    send_in_order-append n [] ys = ap (λ m. send_in_order m ys) (omega arith)
    send_in_order-append n (x ∷ xs) ys = elim (Bool-cases (acked n)) [
      | inl t ↦
          let e : n + suc (length xs) ≡ suc n + length xs = omega arith in
          elim (Bool-cases (send_in_order (suc n) xs).1) [
            | inl u ↦ rw (t, u, e) (rw (send_in_order-append (suc n) xs ys) (rw u refl))
            | inr u ↦
                rw (t, u)
                  (rw (send_in_order-append (suc n) xs ys)
                    (rw u (ap (λ b. (x ∷ (send_in_order (suc n) xs).0, b)) u)))
          ]
      | inr t ↦ rw t refl
    ]

    length-numbered : (seq : ℕ) (chunks : List Bytes) → length (numbered seq chunks) ≡ length chunks
    length-numbered seq [] = refl
    length-numbered seq (c ∷ cs) = ap suc (length-numbered (suc seq) cs)

    -- What is sent, and the event: the first component of a run, and `some` of the number of chunks
    -- where all is sent and acknowledged.
    abbrev pub reported : List CacheCommand × Bool → List Bytes → Bool → Delivery
    reported r chunks complete = (r.0, if r.1 && complete then some (length chunks) else none)

    send_in_order_first :
        (c : CacheCommand) (cs : List CacheCommand)
        → acked 0 ≡ true
        → send_in_order 0 (c ∷ cs) ≡ (c ∷ (send_in_order 1 cs).0, (send_in_order 1 cs).1)
    unfolding send_in_order
    send_in_order_first c cs h = rw h refl

    send_in_order_none : (n : ℕ) → send_in_order n [] ≡ ([], true)
    unfolding send_in_order
    send_in_order_none n = refl

    send_in_order_last : (n : ℕ) → send_in_order n (end_cache ∷ []) ≡ (end_cache ∷ [], acked n)
    unfolding send_in_order
    send_in_order_last n = ground arith

    put_all-send_in_order :
        (chunks : List Bytes) (raised : Bool)
        → acked 0 ≡ true
        → put_all encode_pcm_to_base64 acked chunks raised
          ≡ reported
              (send_in_order 0 (cache_sequence chunks (not raised && not (is_empty chunks))))
              chunks
              (not raised && not (is_empty chunks))
    unfolding put_all put_end_cache
    put_all-send_in_order chunks true h =
        rw
          (
            put_chunks-send_in_order 0 chunks,
            append_nil (numbered 0 chunks),
            send_in_order_first begin_cache (numbered 0 chunks) h,
          )
          (ground arith)
    put_all-send_in_order [] false h =
        rw (send_in_order_first begin_cache [] h, send_in_order_none 1) refl
    put_all-send_in_order (c ∷ cs) false h =
        let sent = send_in_order 1 (numbered 0 (c ∷ cs)) in
        let count : 1 + length (numbered 0 (c ∷ cs)) ≡ suc (suc (length cs)) =
          omega (arith, length-numbered 0 (c ∷ cs)) in
        rw
          (
            put_chunks-send_in_order 0 (c ∷ cs),
            send_in_order_first begin_cache (numbered 0 (c ∷ cs) ++ end_cache ∷ []) h,
            send_in_order-append 1 (numbered 0 (c ∷ cs)) (end_cache ∷ []),
            count,
            send_in_order_last (suc (suc (length cs))),
          )
          (elim (Bool-cases sent.1) [
            | inl t ↦ rw (t, put_end_cache) (ground arith)
            | inr t ↦ rw (t, put_end_cache) refl
          ])

    -- The run of a cache sequence, as a delivery.
    abbrev pub in_order : List Bytes → Bool → Delivery
    in_order chunks complete =
        reported (send_in_order 0 (cache_sequence chunks complete)) chunks complete

    in_order_refused :
        (chunks : List Bytes) (complete : Bool)
        → acked 0 ≡ false
        → in_order chunks complete ≡ (begin_cache ∷ [], none)
    unfolding send_in_order
    in_order_refused chunks complete h = rw h refl

    cut-in_order :
        (pcm_chunks : List Bytes)
        → acked 0 ≡ true
        → (if is_empty pcm_chunks
            then (begin_cache ∷ [], none)
            else put_all encode_pcm_to_base64 acked pcm_chunks false)
          ≡ in_order pcm_chunks (not (is_empty pcm_chunks))
    unfolding put_all
    cut-in_order [] h = put_all-send_in_order [] false h
    cut-in_order (c ∷ cs) h = put_all-send_in_order (c ∷ cs) false h

    deliver_synthesis-in_order :
        (chunk_size : ℕ) (synthesis : Synthesis)
        → acked 0 ≡ true
        → deliver_synthesis encode_pcm_to_base64 acked chunk_size synthesis
          ≡ in_order (spoken chunk_size synthesis) (is_spoken chunk_size synthesis)
    unfolding deliver_synthesis
    deliver_synthesis-in_order k (streamed chunks raised) h = put_all-send_in_order chunks raised h
    deliver_synthesis-in_order k (whole none) h = cut-in_order [] h
    deliver_synthesis-in_order k (whole (some [])) h =
        rw (wav_to_pcm_chunks_none k) (cut-in_order [] h)
    deliver_synthesis-in_order k (whole (some (b ∷ wav))) h =
        elim (Option-cases (wav_to_pcm_chunks (b ∷ wav) k)) [
          | inl e ↦ rw e (cut-in_order [] h)
          | inr (cs, e) ↦ rw e (cut-in_order cs h)
        ]

    -- A delivery sends the commands of the cache sequence in their order, up to the first that the
    -- device does not acknowledge, and no other: first that which opens the sequence, then the chunks
    -- of the speech, which are numbered from 0, and at the end that which closes it, unless there are
    -- no chunks or the engine raises an error. `audio_delivered` is emitted, with the number of the
    -- chunks, exactly where the sequence is closed and every command is acknowledged.
    pub do_deliver_audio-in_order :
        (chunk_size : ℕ) (synthesis : Synthesis)
        → do_deliver_audio encode_pcm_to_base64 acked chunk_size synthesis
          ≡ in_order (spoken chunk_size synthesis) (is_spoken chunk_size synthesis)
    unfolding do_deliver_audio
    do_deliver_audio-in_order k synthesis = elim (Bool-cases (acked 0)) [
      | inl t ↦ rw t (deliver_synthesis-in_order k synthesis t)
      | inr t ↦ rw t (sym (in_order_refused (spoken k synthesis) (is_spoken k synthesis) t))
    ]
