-- ===== src/Recording/Complete.antt =====
-- audio/pipeline.py: a stream that all the chunks came for is complete.
use oi_interface.Recording.Stream.{
  all_in, is_complete, highest, Chunks, reassemble_pcm, seqs, AudioStream,
}
use oi_interface.Recording.Numbers.{is_in, Holds, range, is_in-range}
use oi_interface.Base.{
  ℕ, List, ◌≡◌, ◌∷◌, true, suc, arith, ◌≤◌, is_empty, ◌+◌, false, [], ◌&&◌, refl, ◌∙◌, length,
}
use oi_interface.Speech.Chunks.{Bytes}
use oi_interface.Recording.Whole.{IsRecording, put_all_chunks, all_chunks-Holds, reassembled}
use oi_interface.Speech.Segments.{joined}

all_in_lem :
    (xs ys : List ℕ) → ((k : ℕ) → is_in k xs ≡ true → is_in k ys ≡ true) → all_in xs ys ≡ true
unfolding all_in is_in
all_in_lem [] ys h = refl
all_in_lem (x ∷ xs) ys h = ground (arith, h x, all_in_lem xs ys (λ k m. h k (ground arith)))

is_in-highest : (x : ℕ) (xs : List ℕ) → is_in (highest (x ∷ xs)) (x ∷ xs) ≡ true
unfolding is_in highest
is_in-highest x [] = ground arith
is_in-highest x (y ∷ ys) = ground (arith, is_in-highest y ys)

le-highest : (k : ℕ) (xs : List ℕ) → is_in k xs ≡ true → k ≤ highest xs
unfolding is_in highest
le-highest k [] h = cc
le-highest k (x ∷ xs) h = ground (arith, le-highest k xs)

-- The numbers of a list that has just those of a range, which is not empty, up to their highest.
highest-Holds : (n : ℕ) (xs : List ℕ) → Holds 0 (suc n) xs → highest xs ≡ n
unfolding is_in
highest-Holds n [] h = ground (arith, h 0)
highest-Holds n (x ∷ xs) h =
    ground (arith, is_in-highest x xs, h (highest (x ∷ xs)), le-highest n (x ∷ xs), h n)

range-all_in :
    (n : ℕ) (xs : List ℕ)
    → Holds 0 (suc n) xs
    → (all_in xs (range 0 (highest xs + 1)) && all_in (range 0 (highest xs + 1)) xs) ≡ true
range-all_in n xs h =
    let e = highest-Holds n xs h in
    rw e (
      ground (
        arith,
        all_in_lem xs (range 0 (n + 1)) (λ k m. is_in-range k 0 (n + 1) ∙ ground (arith, h k)),
        all_in_lem (range 0 (n + 1)) xs (λ k m. h k ∙ ground (arith, is_in-range k 0 (n + 1))),
      ))

some_chunk : (k : ℕ) (chunks : Chunks) → is_in k (seqs chunks) ≡ true → is_empty chunks ≡ false
unfolding is_in
some_chunk k [] h = cc
some_chunk k (c ∷ chunks) h = refl

-- A stream whose chunks came in any order, and some of them more than once, is complete, and its audio
-- is that of the pieces in the order of their numbers.
pub reassemble_pcm-IsRecording :
    (stream : AudioStream) (p : Bytes) (ps : List Bytes) (received : List (ℕ × Bytes))
    → IsRecording (p ∷ ps) received
    → stream.chunks ≡ put_all_chunks received []
    → (is_complete stream ≡ true) × (reassemble_pcm stream ≡ joined (p ∷ ps))
unfolding is_complete reassemble_pcm
reassemble_pcm-IsRecording stream p ps received whole e = rw e (
  rw
      (some_chunk 0 (put_all_chunks received [])
        (all_chunks-Holds (p ∷ ps) received whole 0 ∙ ground arith))
      (range-all_in (length ps) _ (all_chunks-Holds (p ∷ ps) received whole)),
  reassembled (p ∷ ps) received whole,
)
