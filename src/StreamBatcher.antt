-- ===== src/StreamBatcher.antt =====
-- src/gateway/utils/stream-batcher.ts: `batchStreamChunks`, an asynchronous generator, as the list of the
-- batches that it yields, and the class `TimeBatcher`. A chunk comes with the time at which it is looked
-- at and the time at which the consumer asks for the next batch, if it is flushed.
pub mod Groups
pub mod Texts
pub mod Pending
mod Tests
use talksy.Common.{
  ℕ, ◌+◌, Bool, true, false, leb, ltb, ◌||◌, ◌&&◌, if◌then◌else◌, List, [], ◌∷◌, ◌++◌, Option, none,
  some, String, length, join, is_some,
}

pub record BatcherConfig : Type 0 where
  pub interval_ms : ℕ
  pub max_chunks : ℕ

pub record BatchedChunk : Type 0 where
  pub content : String
  pub chunk_count : ℕ
  pub done : Bool

pub record Chunk : Type 0 where
  pub content : String
  pub done : Option Bool

-- `chunk.done ?? false`
abbrev pub is_done : Chunk → Bool
is_done c = elim c.done [ none ↦ false | some b ↦ b ]

pub record Arrival : Type 0 where
  pub chunk : Chunk
  pub looked_at : ℕ
  pub resumed_at : ℕ

abbrev pub batch_of : List String → Bool → BatchedChunk
batch_of buffer done = record { content = join buffer; chunk_count = length buffer; done = done }

abbrev pub should_flush : BatcherConfig → List String → ℕ → Arrival → Bool
should_flush cfg buffer last_flush a =
    leb cfg.max_chunks (length buffer)
    || leb (last_flush + cfg.interval_ms) a.looked_at
    || is_done a.chunk

-- The loop and, after it, the flush of what is left.
unfoldable pub batch_from : BatcherConfig → List String → ℕ → List Arrival → List BatchedChunk
batch_from cfg buffer last_flush [] =
    if ltb 0 (length buffer) then batch_of buffer true ∷ [] else []
batch_from cfg buffer last_flush (a ∷ rest) =
    let grown = buffer ++ a.chunk.content ∷ [] in
    elim (should_flush cfg grown last_flush a && ltb 0 (length grown)) [
      | true ↦ batch_of grown (is_done a.chunk) ∷ batch_from cfg [] a.resumed_at rest
      | false ↦ batch_from cfg grown last_flush rest
    ]

unfoldable pub batch_stream_chunks : BatcherConfig → ℕ → List Arrival → List BatchedChunk
unfolding batch_from
batch_stream_chunks cfg started stream = batch_from cfg [] started stream

-- The same where the stream throws after these chunks: what is in the buffer then is not yielded.
unfoldable pub batch_failed : BatcherConfig → List String → ℕ → List Arrival → List BatchedChunk
batch_failed cfg buffer last_flush [] = []
batch_failed cfg buffer last_flush (a ∷ rest) =
    let grown = buffer ++ a.chunk.content ∷ [] in
    elim (should_flush cfg grown last_flush a && ltb 0 (length grown)) [
      | true ↦ batch_of grown (is_done a.chunk) ∷ batch_failed cfg [] a.resumed_at rest
      | false ↦ batch_failed cfg grown last_flush rest
    ]

-- `TimeBatcher`: the timer is the time at which it is due. What `onFlush` is called with is returned.
pub record TimeBatcher : Type 0 where
  pub buffer : List String
  pub timer : Option ℕ
  pub interval_ms : ℕ

unfoldable pub create : ℕ → TimeBatcher
create interval_ms = record { buffer = []; timer = none; interval_ms = interval_ms }

unfoldable pub push : ℕ → String → TimeBatcher → TimeBatcher
push now content b = record b {
  buffer = b.buffer ++ content ∷ [];
  timer = if is_some b.timer then b.timer else some (now + b.interval_ms);
}

unfoldable pub flush : TimeBatcher → TimeBatcher × Option (String × ℕ)
flush b =
    if ltb 0 (length b.buffer)
    then (record b { buffer = []; timer = none }, some (join b.buffer, length b.buffer))
    else (record b { timer = none }, none)

unfoldable pub cancel : TimeBatcher → TimeBatcher
cancel b = record b { buffer = []; timer = none }
