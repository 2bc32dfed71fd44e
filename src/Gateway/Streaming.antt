-- ===== src/Gateway/Streaming.antt =====
-- What a client gets of a stream: the text of the chunks in batches, and how the stream has ended.
use Prim.Native.String
use text.Mathlib.TextLemmas as Text
use talksy.Common.{
  ℕ, ◌≡◌, ◌≢◌, ◌<◌, ◌+◌, refl, ap, ◌∙◌, leb, if◌then◌else◌, List, [], ◌∷◌, ◌++◌, map, Option, none,
  some, arith, String, str_dec, ite, if_neg, join, length, take_last,
}
use talksy.Response
use talksy.Response.{ws_success}
use talksy.StreamBatcher.{BatchedChunk, Arrival, batch_stream_chunks, batch_failed}
use talksy.StreamBatcher.Groups.{contents, Grouped}
use talksy.StreamBatcher.Texts.{
  batch_texts, batch_stream_chunks-text, Grouped-text, batch_failed-Cut,
}
use talksy.Session.{SessionMessage, InternalSession, SessionService, assistant}
use talksy.Session.Methods.{get_conversation_history, add_message}
use talksy.Session.History.{Live, said, add_message-history}
use talksy.Gateway.{Payload, chunk_data, end_data, Event, emit, later}
use talksy.Gateway.Messages.{batching, chunk_events, stream_end, internal}

module _ {N R : Type 0} where
  -- The text that a client adds to what it shows.
  abbrev payload_text : Option (Payload N R) → String
  payload_text (some (chunk_data batch)) = batch.content
  payload_text other = ""

  abbrev pub shown : List (Event N R) → String
  shown events = join (map (λ e. payload_text e.response.content) events)

  abbrev pub end_event : String → ℕ → ℕ → Event N R
  end_event full_response at now = emit "stream_end" (
      ws_success (end_data at full_response) Response.ai_stream_end "AI response stream completed"
        now)

  shown-chunk_events :
      (clock : ℕ → ℕ) (batches : List BatchedChunk) (last : Event N R)
      → payload_text last.response.content ≡ ""
      → shown (chunk_events clock batches ++ last ∷ []) ≡ join (batch_texts batches)
  unfolding chunk_events
  shown-chunk_events clock [] last e = rw e (Text.nil-append "")
  shown-chunk_events clock (batch ∷ batches) last e =
      ap (λ t. String.◌++◌ batch.content t) (shown-chunk_events (later 1 clock) batches last e)

-- When a stream has come to its end, the client gets its text in batches, and then as a whole with
-- the event of the end, whatever the text, an empty one too, and whether or not the session is still
-- there: the events are those of the batches and then that one, and the texts that they show are the
-- text of the stream's chunks.
pub stream_end-text :
    {N R : Type 0} (chunk_clock clock : ℕ → ℕ) (started : ℕ) (c : String) (stream : List Arrival)
    (s : SessionService)
    → let batches = batch_stream_chunks batching started stream in
      let (s', events) = stream_end {N = N} {R = R} chunk_clock clock c batches none s in
      (events
        ≡ chunk_events chunk_clock batches
          ++ end_event (join (contents stream)) (clock 4) (clock 5) ∷ [])
      × (shown events ≡ join (contents stream))
unfolding stream_end
stream_end-text {N} {R} chunk_clock clock started c stream s =
    let batches = batch_stream_chunks batching started stream in
    let whole = batch_stream_chunks-text batching started stream in
    (
      ap
          (λ text.
            chunk_events {N = N} {R = R} chunk_clock batches
            ++ end_event text (clock 4) (clock 5) ∷ [])
          whole,
      shown-chunk_events chunk_clock batches _ refl ∙ whole,
    )

-- When a stream has come to its end, its text, if it is not empty, is the last message of the
-- conversation of a session that lives, as an answer of the assistant: the history is the last
-- messages up to the capacity, until the session has been idle for its time to live.
pub stream_end-history :
    (N R : Type 0) (chunk_clock clock : ℕ → ℕ) (t started : ℕ) (c : String) (stream : List Arrival)
    (s : SessionService) (session : InternalSession) (items : List SessionMessage)
    → Live s (clock 0) c session items
    → join (contents stream) ≢ ""
    → let batches = batch_stream_chunks batching started stream in
      let (s', events) = stream_end {N = N} {R = R} chunk_clock clock c batches none s in
      let answer = said assistant (join (contents stream)) (clock 1) in
      (get_conversation_history t c s').1 ≡ (
        if leb t (clock 2 + s.config.ttl_ms)
        then map some (take_last session.conversation_buffer.capacity (items ++ answer ∷ []))
        else [])
unfolding stream_end
stream_end-history N R chunk_clock clock t started c stream s session items live not_empty =
    let whole = batch_stream_chunks-text batching started stream in
    let told =
      (add_message-history s (clock 0) (clock 1) (clock 2) (clock 3) t c assistant
        (join (contents stream)) session items live).1 in
    ap
      (λ text.
        (get_conversation_history t c (
          ite (str_dec text "") s
            (add_message (clock 0) (clock 1) (clock 2) (clock 3) c assistant text s).0)).1)
      whole
    ∙ ap (λ x. (get_conversation_history t c x).1)
        (if_neg (str_dec (join (contents stream)) "") not_empty _ _)
    ∙ told

-- When a stream throws, the client gets an error after the batches, and nothing is added to the
-- conversation. Fewer than five chunks at the end of the stream are lost; the batches hold all those
-- before them in order, each the text of a group of consecutive chunks with their number, one at least
-- and five at most, and the client is shown the text of exactly these.
pub stream_end_failed :
    {N R : Type 0} (chunk_clock clock : ℕ → ℕ) (started : ℕ) (c message : String)
    (stream : List Arrival) (s : SessionService)
    → let batches = batch_failed batching [] started stream in
      let (s', events) = stream_end {N = N} {R = R} chunk_clock clock c batches (some message) s in
      (s' ≡ s)
      × (events ≡ chunk_events chunk_clock batches ++ internal (clock 0) ∷ [])
      × ((taken : List String) × (lost : List String) × (taken ++ lost ≡ contents stream)
          × (length lost < 5)
          × Grouped batching taken batches
          × (shown events ≡ join taken))
unfolding stream_end
stream_end_failed chunk_clock clock started c message stream s =
    let batches = batch_failed batching [] started stream in
    let cut = batch_failed-Cut batching [] started stream (omega arith) in
    (
      refl,
      refl,
      (
        cut.taken,
        cut.lost,
        cut.all,
        cut.few,
        cut.grouped,
        shown-chunk_events chunk_clock batches (internal (clock 0)) refl ∙ Grouped-text cut.grouped,
      ),
    )
