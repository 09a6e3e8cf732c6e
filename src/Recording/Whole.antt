-- ===== src/Recording/Whole.antt =====
-- audio/pipeline.py: chunks that come in any order, and more than once, make up the whole recording.
use oi_interface.Recording.Stream.{put_chunk, get_chunk, Chunks, seqs}
use oi_interface.Base.{
  ℕ, List, Option, ◌≡◌, none, if◌then◌else◌, some, eqb, true, ◌∷◌, ◌||◌, arith, suc, [], refl, All,
  map, leb, ◌&&◌, ◌<◌, length, ltb, ap, ◌+◌, ◌∙◌, ◌++◌,
}
use oi_interface.Recording.Numbers.{
  is_in, AreDistinct, range, Holds, by_number, sorted_range, sort-AreDistinct, map-range,
  is_in-sort,
}
use oi_interface.Speech.Chunks.{Bytes}
use oi_interface.Dict.{is_some, or_default}
use oi_interface.Sort.{sort, sort-IsSorted}
use oi_interface.Speech.Segments.{joined}

-- The chunks after those that came, one after another.
unfoldable pub put_all_chunks : List (ℕ × Bytes) → Chunks → Chunks
unfolding put_chunk
put_all_chunks [] chunks = chunks
put_all_chunks ((seq, pcm) ∷ rest) chunks = put_all_chunks rest (put_chunk seq pcm chunks)

-- `pieces[seq]`, from the piece with number `a` on
unfoldable pub piece : ℕ → List Bytes → ℕ → Option Bytes
piece a [] seq = none
piece a (p ∷ ps) seq = if eqb seq a then some p else piece (suc a) ps seq

get-put_chunk :
    (j k : ℕ) (pcm : Bytes) (chunks : Chunks)
    → get_chunk j (put_chunk k pcm chunks) ≡ (if eqb j k then some pcm else get_chunk j chunks)
unfolding get_chunk put_chunk
get-put_chunk j k pcm [] = refl
get-put_chunk j k pcm ((i, old) ∷ chunks) = ground (arith, get-put_chunk j k pcm chunks)

is_in-seqs : (k : ℕ) (chunks : Chunks) → is_in k (seqs chunks) ≡ is_some (get_chunk k chunks)
unfolding is_in get_chunk
is_in-seqs k [] = refl
is_in-seqs k ((j, pcm) ∷ chunks) = ground (arith, is_in-seqs k chunks)

seqs-put_chunk :
    (j k : ℕ) (pcm : Bytes) (chunks : Chunks)
    → is_in j (seqs (put_chunk k pcm chunks)) ≡ (eqb j k || is_in j (seqs chunks))
unfolding is_in put_chunk
seqs-put_chunk j k pcm [] = refl
seqs-put_chunk j k pcm ((i, old) ∷ chunks) = ground (arith, seqs-put_chunk j k pcm chunks)

put_chunk-AreDistinct :
    (k : ℕ) (pcm : Bytes) (chunks : Chunks)
    → AreDistinct (seqs chunks)
    → AreDistinct (seqs (put_chunk k pcm chunks))
unfolding put_chunk is_in
put_chunk-AreDistinct k pcm [] d = (refl, tt)
put_chunk-AreDistinct k pcm ((i, old) ∷ chunks) d =
    ground (arith, put_chunk-AreDistinct k pcm chunks, seqs-put_chunk i k pcm chunks)

-- Every chunk is the piece with its number, and no number occurs twice.
abbrev pub ArePieces : List Bytes → Chunks → Type 0
ArePieces pieces chunks =
    AreDistinct (seqs chunks)
    × ((k : ℕ) → is_in k (seqs chunks) ≡ true → get_chunk k chunks ≡ piece 0 pieces k)

put_chunk-ArePieces :
    (pieces : List Bytes) (k : ℕ) (pcm : Bytes) (chunks : Chunks)
    → piece 0 pieces k ≡ some pcm
    → ArePieces pieces chunks
    → ArePieces pieces (put_chunk k pcm chunks)
put_chunk-ArePieces pieces k pcm chunks e (d, h) = (
  put_chunk-AreDistinct k pcm chunks d,
  λ j m. ground (arith, get-put_chunk j k pcm chunks, seqs-put_chunk j k pcm chunks, h j),
)

put_all_chunks-ArePieces :
    (pieces : List Bytes) (received : List (ℕ × Bytes)) (chunks : Chunks)
    → All (λ r. piece 0 pieces r.0 ≡ some r.1) received
    → ArePieces pieces chunks
    → ArePieces pieces (put_all_chunks received chunks)
unfolding put_all_chunks
put_all_chunks-ArePieces pieces [] chunks r h = h
put_all_chunks-ArePieces pieces ((k, pcm) ∷ rest) chunks (e, r) h =
    put_all_chunks-ArePieces pieces rest (put_chunk k pcm chunks) r
      (put_chunk-ArePieces pieces k pcm chunks e h)

seqs-put_all_chunks :
    (j : ℕ) (received : List (ℕ × Bytes)) (chunks : Chunks)
    → is_in j (seqs (put_all_chunks received chunks))
      ≡ (is_in j (map (λ r. r.0) received) || is_in j (seqs chunks))
unfolding put_all_chunks is_in
seqs-put_all_chunks j [] chunks = refl
seqs-put_all_chunks j ((k, pcm) ∷ rest) chunks =
    ground
      (arith, seqs-put_all_chunks j rest (put_chunk k pcm chunks), seqs-put_chunk j k pcm chunks)

piece_bound :
    (a : ℕ) (pieces : List Bytes) (k : ℕ)
    → is_some (piece a pieces k) ≡ true
    → (leb a k && ltb k (a + length pieces)) ≡ true
unfolding piece
piece_bound a [] k h = cc
piece_bound a (p ∷ ps) k h = ground (arith, piece_bound (suc a) ps k)

joined_pieces :
    (a : ℕ) (pieces : List Bytes)
    → joined (map (λ k. or_default (piece a pieces k) []) (range a (length pieces))) ≡ joined pieces
unfolding piece range
joined_pieces a [] = refl
joined_pieces a (p ∷ ps) =
    let here : piece a (p ∷ ps) a ≡ some p = ground arith in
    ap
      (λ o.
        or_default o []
        ++ joined (map (λ k. or_default (piece a (p ∷ ps) k) []) (range (suc a) (length ps))))
      here
    ∙ ap (λ r. p ++ joined r)
        (map-range _ (λ k. or_default (piece (suc a) ps k) []) (suc a) (length ps)
          (λ k l u. ground arith))
    ∙ ap (λ r. p ++ r) (joined_pieces (suc a) ps)

-- What came is a recording: every chunk is the piece with its number, and each piece came.
abbrev pub IsRecording : List Bytes → List (ℕ × Bytes) → Type 0
IsRecording pieces received =
    All (λ r. piece 0 pieces r.0 ≡ some r.1) received
    × ((k : ℕ) → k < length pieces → is_in k (map (λ r. r.0) received) ≡ true)

module _ (pieces : List Bytes) (received : List (ℕ × Bytes))
    (whole : IsRecording pieces received) where
  abbrev pub all_chunks : Chunks
  all_chunks = put_all_chunks received []

  all_chunks-ArePieces : ArePieces pieces all_chunks
  unfolding is_in
  all_chunks-ArePieces = put_all_chunks-ArePieces pieces received [] whole.0 (tt, λ k m. cc)

  pub all_chunks-Holds : Holds 0 (length pieces) (seqs all_chunks)
  unfolding is_in
  all_chunks-Holds k = ground (
    arith,
    seqs-put_all_chunks k received [],
    whole.1 k,
    is_in-seqs k all_chunks,
    all_chunks-ArePieces.1 k,
    piece_bound 0 pieces k,
  )

  sorted_seqs : sort by_number (seqs all_chunks) ≡ range 0 (length pieces)
  sorted_seqs =
      sorted_range 0 (length pieces) _ (sort-IsSorted by_number (seqs all_chunks))
        (sort-AreDistinct (seqs all_chunks) all_chunks-ArePieces.0)
        (λ k. is_in-sort k (seqs all_chunks) ∙ all_chunks-Holds k)

  pub reassembled :
      joined
        (map (λ seq. or_default (get_chunk seq all_chunks) []) (sort by_number (seqs all_chunks)))
      ≡ joined pieces
  reassembled =
      ap (λ r. joined (map (λ seq. or_default (get_chunk seq all_chunks) []) r)) sorted_seqs
      ∙ ap joined (
          map-range _ (λ k. or_default (piece 0 pieces k) []) 0 (length pieces)
            (λ k l u.
              ap (λ o. or_default o [])
                (all_chunks-ArePieces.1 k (all_chunks-Holds k ∙ ground arith))))
      ∙ joined_pieces 0 pieces
