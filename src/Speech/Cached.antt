-- ===== src/Speech/Cached.antt =====
-- audio/delivery.py with oi-sim/src/sim/state.py: what a delivery makes of the device.
use oi_interface.Device.State.{Args, among, response_cached}
use oi_interface.Speech.Delivery.{
  CacheCommand, op, chunk_cache, begin_cache, end_cache, Synthesis, do_deliver_audio,
}
use oi_interface.Base.{
  ℕ, none, String, false, if◌then◌else◌, List, ◌≡◌, true, map, ◌+◌, ◌++◌, refl, length, ◌∷◌, [],
  same, ap, Bool, arith, suc, ◌∙◌, some, Bool-cases, inl, inr, sym,
}
use oi_interface.Speech.Chunks.{Bytes}
use oi_interface.Device.Simulator.{
  StateMachine, receive_command, run, decode, handle, valid_destinations, transition_if_allowed,
  transition,
}
use oi_interface.Speech.Segmenter.{Text}
use oi_interface.Speech.Delivered.{
  numbered, cache_sequence, send_in_order, in_order, do_deliver_audio-in_order, spoken, is_spoken,
}

-- The arguments that the device reads: a cache command has none of them.
abbrev no_args : Args
no_args = record {
  state = none;
  label = none;
  is_final = false;
  until = none;
  value = none;
  level = none;
  enabled = none;
}

-- A command as the device gets it.
abbrev pub received : CacheCommand → String × Args
received c = (op c, no_args)

receive_begin :
    (m : StateMachine)
    → (receive_command (op begin_cache) no_args m).0
      ≡ record m { caching = true; cache_chunk_count = 0 }
unfolding receive_command op decode handle same
receive_begin m = refl

receive_end :
    (m : StateMachine)
    → (receive_command (op end_cache) no_args m).0 ≡ record m {
      state =
          if among response_cached (valid_destinations m.state) then response_cached else m.state;
      caching = false;
    }
unfolding receive_command op decode handle same transition_if_allowed transition
receive_end m = elim (Bool-cases (among response_cached (valid_destinations m.state))) [
  | inl t ↦ rw t refl
  | inr t ↦ rw t refl
]

receive_chunk :
    (seq : ℕ) (data_b64 : Text) (m : StateMachine)
    → m.caching ≡ true
    → (receive_command (op (chunk_cache seq data_b64)) no_args m).0
      ≡ record m { cache_chunk_count = m.cache_chunk_count + 1 }
unfolding receive_command op decode handle same
receive_chunk seq data_b64 m h = rw h refl

-- The device after a whole cache sequence of `n` chunks.
abbrev pub cached : ℕ → StateMachine → StateMachine
cached n m = record m {
  state = if among response_cached (valid_destinations m.state) then response_cached else m.state;
  caching = false;
  cache_chunk_count = n;
}

module _ (encode_pcm_to_base64 : Bytes → Text) where
  run-numbered :
      (seq : ℕ) (chunks : List Bytes) (rest : List CacheCommand) (m : StateMachine)
      → m.caching ≡ true
      → run (map received (numbered encode_pcm_to_base64 seq chunks ++ rest)) m
        ≡ run
            (map received rest)
            (record m { cache_chunk_count = m.cache_chunk_count + length chunks })
  unfolding run
  run-numbered seq [] rest m h =
      ap (λ n. run (map received rest) (record m { cache_chunk_count = n })) (omega arith)
  run-numbered seq (c ∷ cs) rest m h =
      ap (λ r. run (map received (numbered encode_pcm_to_base64 (suc seq) cs ++ rest)) r)
        (receive_chunk seq (encode_pcm_to_base64 c) m h)
      ∙ run-numbered (suc seq) cs rest (record m { cache_chunk_count = m.cache_chunk_count + 1 }) h
      ∙ ap (λ n. run (map received rest) (record m { cache_chunk_count = n })) (omega arith)

  run-cache_sequence :
      (chunks : List Bytes) (m : StateMachine)
      → run (map received (cache_sequence encode_pcm_to_base64 chunks true)) m
        ≡ cached (length chunks) m
  unfolding run
  run-cache_sequence chunks m =
      ap (run (map received (numbered encode_pcm_to_base64 0 chunks ++ end_cache ∷ [])))
        (receive_begin m)
      ∙ run-numbered 0 chunks (end_cache ∷ []) (record m { caching = true; cache_chunk_count = 0 })
          refl
      ∙ receive_end (record m { caching = true; cache_chunk_count = 0 + length chunks })
      ∙ ap (λ n. cached n m) (omega arith)

  module _ (acked : ℕ → Bool) where
    send_in_order_all :
        (n : ℕ) (cs : List CacheCommand)
        → (send_in_order encode_pcm_to_base64 acked n cs).1 ≡ true
        → (send_in_order encode_pcm_to_base64 acked n cs).0 ≡ cs
    unfolding send_in_order
    send_in_order_all n [] h = refl
    send_in_order_all n (c ∷ cs) h = ground (arith, send_in_order_all (suc n) cs)

    in_order_complete :
        (chunks : List Bytes) (complete : Bool) (count : ℕ)
        → (in_order encode_pcm_to_base64 acked chunks complete).1 ≡ some count
        → ((in_order encode_pcm_to_base64 acked chunks complete).0
            ≡ cache_sequence encode_pcm_to_base64 chunks true)
          × (length chunks ≡ count)
    in_order_complete chunks true count h =
        let sequence = cache_sequence encode_pcm_to_base64 chunks true in
        elim (Bool-cases (send_in_order encode_pcm_to_base64 acked 0 sequence).1) [
          | inl t ↦ (send_in_order_all 0 sequence t, ground arith)
          | inr t ↦ ground arith
        ]
    in_order_complete chunks false count h = ground arith

    -- Where `audio_delivered` is emitted, the device that got the commands has cached the response: it
    -- is in the state for that if its state allows the move, and where it was otherwise; it no longer
    -- takes chunks; and the count it has is that of the event.
    pub do_deliver_audio-cached :
        (chunk_size count : ℕ) (synthesis : Synthesis) (m : StateMachine)
        → (do_deliver_audio encode_pcm_to_base64 acked chunk_size synthesis).1 ≡ some count
        → run (map received (do_deliver_audio encode_pcm_to_base64 acked chunk_size synthesis).0) m
          ≡ cached count m
    do_deliver_audio-cached k count synthesis m h =
        let e = do_deliver_audio-in_order encode_pcm_to_base64 acked k synthesis in
        let (sent, n) =
          in_order_complete (spoken encode_pcm_to_base64 k synthesis)
            (is_spoken encode_pcm_to_base64 k synthesis) count (sym (ap (λ d. d.1) e) ∙ h) in
        ap (λ d. run (map received d.0) m) e
        ∙ ap (λ cs. run (map received cs) m) sent
        ∙ run-cache_sequence (spoken encode_pcm_to_base64 k synthesis) m
        ∙ ap (λ i. cached i m) n
