-- ===== src/StreamBatcher/Groups.antt =====
-- What the batches of a stream hold, and which of them is the last.
use talksy.Common.{
  ℕ, suc, ◌≤◌, ◌<◌, ◌≡◌, refl, ap, ◌∙◌, max, Bool, true, false, not, ltb, ◌&&◌, if◌then◌else◌, List,
  [], ◌∷◌, ◌++◌, map, flatten, arith, String, length, join, length-append, append_assoc, Bool-cases,
  inl, inr,
}
use talksy.StreamBatcher.{
  BatcherConfig, BatchedChunk, Arrival, is_done, batch_of, should_flush, batch_from,
  batch_stream_chunks,
}

abbrev pub contents : List Arrival → List String
contents = map (λ a. a.chunk.content)

-- Groups of one chunk at least and of `n` at most.
abbrev pub Sized : ℕ → List (List String) → Type 0
Sized n [] = Unit
Sized n (g ∷ gs) = (1 ≤ length g) × (length g ≤ n) × Sized n gs

-- The batches hold the chunks in groups.
pub record Grouped (cfg : BatcherConfig) (chunks : List String) (batches : List BatchedChunk)
    : Type 0 where
  pub groups : List (List String)
  pub flat : flatten groups ≡ chunks
  pub joined : map (λ b. b.content) batches ≡ map join groups
  pub counted : map (λ b. b.chunk_count) batches ≡ map length groups
  pub sized : Sized (max 1 cfg.max_chunks) groups

batch_from_end :
    (cfg : BatcherConfig) (buffer : List String) (last : ℕ)
    → batch_from cfg buffer last []
      ≡ (if ltb 0 (length buffer) then batch_of buffer true ∷ [] else [])
unfolding batch_from
batch_from_end cfg buffer last = refl

-- The buffer is never empty where the loop looks whether to flush it.
batch_from_step :
    (cfg : BatcherConfig) (buffer : List String) (last : ℕ) (a : Arrival) (rest : List Arrival)
    → let grown = buffer ++ a.chunk.content ∷ [] in
      batch_from cfg buffer last (a ∷ rest) ≡ (
        if should_flush cfg grown last a
        then batch_of grown (is_done a.chunk) ∷ batch_from cfg [] a.resumed_at rest
        else batch_from cfg grown last rest)
unfolding batch_from
batch_from_step cfg buffer last a rest =
    let grown = buffer ++ a.chunk.content ∷ [] in
    let some_left : ltb 0 (length grown) ≡ true =
      ground (arith, length-append buffer (a.chunk.content ∷ [])) in
    elim (Bool-cases (should_flush cfg grown last a)) [
      | inl flushed ↦ rw (flushed, some_left, batch_from)
      | inr kept ↦ rw (kept, batch_from)
    ]

batch_from-Grouped :
    (cfg : BatcherConfig) (buffer : List String) (last : ℕ) (stream : List Arrival)
    → length buffer < max 1 cfg.max_chunks
    → Grouped cfg (buffer ++ contents stream) (batch_from cfg buffer last stream)
batch_from-Grouped cfg [] last [] h =
    rw batch_from_end
      (record { groups = []; flat = refl; joined = refl; counted = refl; sized = tt })
batch_from-Grouped cfg (c ∷ buffer) last [] h =
    let some_left : ltb 0 (suc (length buffer)) ≡ true = ground arith in
    rw (batch_from_end, some_left)
      (record {
        groups = (c ∷ buffer) ∷ [];
        flat = refl;
        joined = refl;
        counted = refl;
        sized = (omega arith, omega arith, tt);
      })
batch_from-Grouped cfg buffer last (a ∷ rest) h =
    let grown = buffer ++ a.chunk.content ∷ [] in
    let size = length-append buffer (a.chunk.content ∷ []) in
    let all = append_assoc buffer (a.chunk.content ∷ []) (contents rest) in
    elim (Bool-cases (should_flush cfg grown last a)) [
      | inl flushed ↦
          let g = batch_from-Grouped cfg [] a.resumed_at rest (omega arith) in
          rw (batch_from_step cfg buffer last a rest, flushed)
            (record {
              groups = grown ∷ g.groups;
              flat = ap (λ l. grown ++ l) g.flat ∙ all;
              joined = ap (λ l. join grown ∷ l) g.joined;
              counted = ap (λ l. length grown ∷ l) g.counted;
              sized = (omega (arith, size), omega (arith, size), g.sized);
            })
      | inr kept ↦
          let few : length grown < max 1 cfg.max_chunks = ground arith in
          let g = batch_from-Grouped cfg grown last rest few in
          rw (batch_from_step cfg buffer last a rest, kept)
            (record {
              groups = g.groups;
              flat = g.flat ∙ all;
              joined = g.joined;
              counted = g.counted;
              sized = g.sized;
            })
    ]

-- The batches of a stream hold all its chunks in order: each is the text of a group of consecutive
-- chunks and counts them, at least one and at most `maxChunks`, or one if that is zero.
pub batch_stream_chunks-Grouped :
    (cfg : BatcherConfig) (started : ℕ) (stream : List Arrival)
    → Grouped cfg (contents stream) (batch_stream_chunks cfg started stream)
unfolding batch_stream_chunks
batch_stream_chunks-Grouped cfg started stream =
    batch_from-Grouped cfg [] started stream (omega arith)

-- The last is true, and no other.
abbrev pub only_last : List Bool → Bool
only_last [] = false
only_last (b ∷ []) = b
only_last (b ∷ c ∷ bs) = not b && only_last (c ∷ bs)

pub only_last-cons : (bs : List Bool) → only_last bs ≡ true → only_last (false ∷ bs) ≡ true
only_last-cons [] h = h
only_last-cons (b ∷ bs) h = h

batch_from-only_last :
    (cfg : BatcherConfig) (buffer : List String) (last : ℕ) (stream : List Arrival)
    → only_last (map (λ a. is_done a.chunk) stream) ≡ true
    → only_last (map (λ b. b.done) (batch_from cfg buffer last stream)) ≡ true
batch_from-only_last cfg buffer last [] h = cc
batch_from-only_last cfg buffer last (a ∷ []) h =
    let flushed : should_flush cfg (buffer ++ a.chunk.content ∷ []) last a ≡ true = ground arith in
    rw (batch_from_step cfg buffer last a [], flushed, batch_from_end) h
batch_from-only_last cfg buffer last (a ∷ b ∷ rest) h =
    let grown = buffer ++ a.chunk.content ∷ [] in
    let going : is_done a.chunk ≡ false = ground arith in
    let later : only_last (map (λ x. is_done x.chunk) (b ∷ rest)) ≡ true = ground arith in
    elim (Bool-cases (should_flush cfg grown last a)) [
      | inl flushed ↦
          rw (batch_from_step cfg buffer last a (b ∷ rest), flushed, going)
            (only_last-cons (map (λ c. c.done) (batch_from cfg [] a.resumed_at (b ∷ rest)))
              (batch_from-only_last cfg [] a.resumed_at (b ∷ rest) later))
      | inr kept ↦
          rw (batch_from_step cfg buffer last a (b ∷ rest), kept)
            (batch_from-only_last cfg grown last (b ∷ rest) later)
    ]

-- When just the last chunk of a stream is marked as done, just the last batch is.
pub batch_stream_chunks-only_last :
    (cfg : BatcherConfig) (started : ℕ) (stream : List Arrival)
    → only_last (map (λ a. is_done a.chunk) stream) ≡ true
    → only_last (map (λ b. b.done) (batch_stream_chunks cfg started stream)) ≡ true
unfolding batch_stream_chunks
batch_stream_chunks-only_last cfg started stream h = batch_from-only_last cfg [] started stream h
