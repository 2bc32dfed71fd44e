-- ===== src/StreamBatcher/Texts.antt =====
-- The text of a stream and that of its batches, where the stream ends and where it throws.
use talksy.Common.{
  ℕ, ◌<◌, ◌≡◌, refl, sym, ap, ◌∙◌, max, true, ltb, if◌then◌else◌, List, [], ◌∷◌, ◌++◌, map, flatten,
  arith, String, length, join, join-append, length-append, append_assoc, append-nil, Bool-cases,
  inl, inr,
}
use Prim.Native.String
use talksy.StreamBatcher.{
  BatcherConfig, BatchedChunk, Arrival, is_done, batch_of, should_flush, batch_failed,
  batch_stream_chunks,
}
use talksy.StreamBatcher.Groups.{contents, Grouped, batch_stream_chunks-Grouped}

abbrev pub batch_texts : List BatchedChunk → List String
batch_texts = map (λ b. b.content)

join-flatten : (groups : List (List String)) → join (map join groups) ≡ join (flatten groups)
join-flatten [] = refl
join-flatten (g ∷ gs) =
    ap (λ t. String.◌++◌ (join g) t) (join-flatten gs) ∙ sym (join-append g (flatten gs))

pub Grouped-text :
    {cfg : BatcherConfig} {chunks : List String} {batches : List BatchedChunk}
    → Grouped cfg chunks batches
    → join (batch_texts batches) ≡ join chunks
Grouped-text g = ap join g.joined ∙ join-flatten g.groups ∙ ap join g.flat

pub batch_stream_chunks-text :
    (cfg : BatcherConfig) (started : ℕ) (stream : List Arrival)
    → join (batch_texts (batch_stream_chunks cfg started stream)) ≡ join (contents stream)
batch_stream_chunks-text cfg started stream =
    Grouped-text (batch_stream_chunks-Grouped cfg started stream)

batch_failed_step :
    (cfg : BatcherConfig) (buffer : List String) (last : ℕ) (a : Arrival) (rest : List Arrival)
    → let grown = buffer ++ a.chunk.content ∷ [] in
      batch_failed cfg buffer last (a ∷ rest) ≡ (
        if should_flush cfg grown last a
        then batch_of grown (is_done a.chunk) ∷ batch_failed cfg [] a.resumed_at rest
        else batch_failed cfg grown last rest)
unfolding batch_failed
batch_failed_step cfg buffer last a rest =
    let grown = buffer ++ a.chunk.content ∷ [] in
    let some_left : ltb 0 (length grown) ≡ true =
      ground (arith, length-append buffer (a.chunk.content ∷ [])) in
    elim (Bool-cases (should_flush cfg grown last a)) [
      | inl flushed ↦ rw (flushed, some_left, batch_failed)
      | inr kept ↦ rw (kept, batch_failed)
    ]

-- What is yielded of a stream that throws: batches of the chunks taken, and the rest is lost.
pub record Cut (cfg : BatcherConfig) (chunks : List String) (batches : List BatchedChunk)
    : Type 0 where
  pub taken : List String
  pub lost : List String
  pub all : taken ++ lost ≡ chunks
  pub few : length lost < max 1 cfg.max_chunks
  pub grouped : Grouped cfg taken batches

pub batch_failed-Cut :
    (cfg : BatcherConfig) (buffer : List String) (last : ℕ) (stream : List Arrival)
    → length buffer < max 1 cfg.max_chunks
    → Cut cfg (buffer ++ contents stream) (batch_failed cfg buffer last stream)
unfolding batch_failed
batch_failed-Cut cfg buffer last [] h = record {
  taken = [];
  lost = buffer;
  all = sym (append-nil buffer);
  few = h;
  grouped = record { groups = []; flat = refl; joined = refl; counted = refl; sized = tt };
}
batch_failed-Cut cfg buffer last (a ∷ rest) h =
    let grown = buffer ++ a.chunk.content ∷ [] in
    let size = length-append buffer (a.chunk.content ∷ []) in
    let whole = append_assoc buffer (a.chunk.content ∷ []) (contents rest) in
    elim (Bool-cases (should_flush cfg grown last a)) [
      | inl flushed ↦
          let cut = batch_failed-Cut cfg [] a.resumed_at rest (omega arith) in
          let g = cut.grouped in
          rw (batch_failed_step cfg buffer last a rest, flushed)
            (record {
              taken = grown ++ cut.taken;
              lost = cut.lost;
              all = append_assoc grown cut.taken cut.lost ∙ ap (λ l. grown ++ l) cut.all ∙ whole;
              few = cut.few;
              grouped = record {
                groups = grown ∷ g.groups;
                flat = ap (λ l. grown ++ l) g.flat;
                joined = ap (λ l. join grown ∷ l) g.joined;
                counted = ap (λ l. length grown ∷ l) g.counted;
                sized = (omega (arith, size), omega (arith, size), g.sized);
              };
            })
      | inr kept ↦
          let small : length grown < max 1 cfg.max_chunks = ground arith in
          let cut = batch_failed-Cut cfg grown last rest small in
          rw (batch_failed_step cfg buffer last a rest, kept)
            (record {
              taken = cut.taken;
              lost = cut.lost;
              all = cut.all ∙ whole;
              few = cut.few;
              grouped = cut.grouped;
            })
    ]
