-- ===== src/StreamBatcher/Tests.antt =====
-- The batchers at concrete inputs.
use talksy.Common.{ℕ, ◌≡◌, refl, Bool, true, false, List, [], ◌∷◌, map, Option, none, some, String}
use talksy.StreamBatcher.{
  BatcherConfig, BatchedChunk, Arrival, batch_stream_chunks, create, push, flush, cancel,
}
use talksy.StreamBatcher.Groups.{Grouped, contents, batch_stream_chunks-Grouped}
use talksy.StreamBatcher.Pending.{Event, chunk, flushed, run}

abbrev config : BatcherConfig
config = record { interval_ms = 50; max_chunks = 2 }

abbrev arrival : String → Option Bool → ℕ → Arrival
arrival content done at = record {
  chunk = record { content = content; done = done };
  looked_at = at;
  resumed_at = at;
}

abbrev stream : List Arrival
stream =
    arrival "a" none 1
    ∷ arrival "b" none 2
    ∷ arrival "c" none 90
    ∷ arrival "d" none 91
    ∷ arrival "" (some true) 92
    ∷ []

-- The second batch is flushed by the time, the third by the end.
batch-stream :
    map {A = BatchedChunk} {B = String × ℕ × Bool}
      (λ b. (b.content, b.chunk_count, b.done))
      (batch_stream_chunks config 0 stream)
    ≡ ("ab", 2, false) ∷ ("c", 1, false) ∷ ("d", 2, true) ∷ []
unfolding batch_stream_chunks
batch-stream = refl

-- A stream that ends without a chunk that is done, right after a flush, has no last batch.
batch-unfinished :
    map (λ b. b.done) (batch_stream_chunks config 0 (arrival "a" none 1 ∷ arrival "b" none 2 ∷ []))
    ≡ false ∷ []
unfolding batch_stream_chunks
batch-unfinished = refl

batch_stream_chunks-Grouped_example :
    Grouped config (contents stream) (batch_stream_chunks config 0 stream)
batch_stream_chunks-Grouped_example = batch_stream_chunks-Grouped config 0 stream

abbrev events : List Event
events = chunk 1 "a" ∷ chunk 2 "b" ∷ flushed ∷ flushed ∷ chunk 3 "c" ∷ []

run-events : (run events (create 50)).1 ≡ ("ab", 2) ∷ []
unfolding run create push flush cancel
run-events = refl
