-- ===== src/Gateway/Messages.antt =====
-- src/gateway/assistant.gateway.ts: `handleUserMessage` and `handleUserMessageStream`, each up to the answer of
-- the AI and from it on; `handle_user_message` is the whole handler, where nothing else runs meanwhile.
use talksy.Common.{
  ℕ, Bool, true, false, if◌then◌else◌, List, [], ◌∷◌, ◌++◌, map, Option, none, some, String,
  str_dec, ite, Result, ok, throw, join, ◌>>=◌,
}
use talksy.Response
use talksy.Response.{ws_success}
use talksy.StreamBatcher.{BatchedChunk, BatcherConfig}
use talksy.Session.{SessionMessage, SessionService, user, assistant}
use talksy.Session.Methods.{has_session, add_message, get_conversation_history}
use talksy.Ai.{AiService, AiEnv, AiCompletionResult, generate_completion}
use talksy.Gateway.{Event, emit, emit_error, answer_data, start_data, chunk_data, end_data, later}

-- Whoever reads the messages throws at a slot that is empty.
unfoldable pub messages_of : List (Option SessionMessage) → Result (List SessionMessage)
messages_of [] = ok []
messages_of (none ∷ slots) = throw "Cannot read properties of undefined"
messages_of (some m ∷ slots) = messages_of slots >>= λ ms. ok (m ∷ ms)

-- How a handler has gone on when it first awaits the AI: it has returned, or asks with a conversation.
pub data Turn (N R : Type 0) : Type 0 where
  done : List (Event N R) → Turn N R
  asking : List SessionMessage → List (Event N R) → Turn N R

-- How taking a message ends: with an error for the client, or with the history, the message in it.
pub data Taken (N R : Type 0) : Type 0 where
  refused : Event N R → Taken N R
  taken : List (Option SessionMessage) → Taken N R

-- The batches of a message's stream.
abbrev pub batching : BatcherConfig
batching = record { interval_ms = 50; max_chunks = 5 }

-- `trim` is the language's.
abbrev pub is_blank : (String → String) → String → Bool
is_blank trim text = ite (str_dec (trim text) "") true false

module _ {N R : Type 0} where
  abbrev pub internal : ℕ → Event N R
  internal now =
      emit_error Response.internal_error "An error occurred while processing your message" now

  unfoldable pub chunk_events : (ℕ → ℕ) → List BatchedChunk → List (Event N R)
  chunk_events clock [] = []
  chunk_events clock (batch ∷ batches) =
      emit "stream_chunk"
        (ws_success (chunk_data batch) Response.ai_stream_chunk "Stream chunk received" (clock 0))
      ∷ chunk_events (later 1 clock) batches

  -- From the answer on; it is added to the conversation if there still is a session.
  unfoldable pub user_message_end :
      (ℕ → ℕ)
      → String
      → Result AiCompletionResult
      → SessionService
      → SessionService × List (Event N R)
  user_message_end clock client_id answer s = elim answer [
    | throw message ↦ (s, internal (clock 0) ∷ [])
    | ok result ↦ (
      (add_message (clock 1) (clock 2) (clock 3) (clock 4) client_id assistant result.content s).0,
      emit "assistant_response" (
            ws_success (answer_data result.content (clock 0)) Response.ai_response
              "AI response generated successfully" (clock 5))
          ∷ [],
    )
  ]

  -- The loop over the batches, and what follows it: the batches, and what ended the stream, if not its end.
  unfoldable pub stream_end :
      (ℕ → ℕ)
      → (ℕ → ℕ)
      → String
      → List BatchedChunk
      → Option String
      → SessionService
      → SessionService × List (Event N R)
  stream_end chunk_clock clock client_id batches failure s =
      let full_response = join (map (λ (b : BatchedChunk). b.content) batches) in
      let sent = chunk_events chunk_clock batches in
      let added =
        (add_message (clock 0) (clock 1) (clock 2) (clock 3) client_id assistant full_response
          s).0 in
      elim failure [
        | some message ↦ (s, sent ++ internal (clock 0) ∷ [])
        | none ↦ (
          ite (str_dec full_response "") s added,
          sent
              ++ emit "stream_end" (
                  ws_success (end_data (clock 4) full_response) Response.ai_stream_end
                    "AI response stream completed" (clock 5))
                ∷ [],
        )
      ]

  abbrev invalid_message : ℕ → Event N R
  invalid_message now =
      emit_error Response.validation_error "Invalid message format. Expected { text: string }" now

  module _ (trim : String → String) where
    -- What both handlers do first. A text that is not there, or is no text, is none.
    unfoldable pub take_message :
        (ℕ → ℕ) → String → Option String → SessionService → SessionService × Taken N R
    take_message clock client_id none s = (s, refused (invalid_message (clock 0)))
    take_message clock client_id (some text) s =
        let s' = (add_message (clock 1) (clock 2) (clock 3) (clock 4) client_id user text s).0 in
        let (s'', history) = get_conversation_history (clock 5) client_id s' in
        if is_blank trim text
        then (s, refused (invalid_message (clock 0)))
        else if has_session (clock 0) client_id s
        then (s'', taken history)
        else (
          s,
          refused (emit_error Response.session_expired "Session not found or expired" (clock 1)),
        )

    unfoldable pub user_message_begin :
        (ℕ → ℕ) → String → Option String → SessionService → SessionService × Turn N R
    user_message_begin clock client_id text s =
        let (s', start) = take_message clock client_id text s in
        (
          s',
          elim start [
            | refused event ↦ done (event ∷ [])
            | taken slots ↦ elim (messages_of slots) [
              | throw message ↦ done (internal (clock 6) ∷ [])
              | ok history ↦ asking history []
            ]
          ],
        )

    -- The start of the stream is told before the history is read by the AI service.
    unfoldable pub stream_begin :
        (ℕ → ℕ) → String → Option String → SessionService → SessionService × Turn N R
    stream_begin clock client_id text s =
        let (s', start) = take_message clock client_id text s in
        let started = emit "stream_start" (
          ws_success (start_data (clock 6)) Response.ai_stream_start "AI response stream started"
            (clock 7)) in
        (
          s',
          elim start [
            | refused event ↦ done (event ∷ [])
            | taken slots ↦ elim (messages_of slots) [
              | throw message ↦ done (started ∷ internal (clock 8) ∷ [])
              | ok history ↦ asking history (started ∷ [])
            ]
          ],
        )

    -- The whole handler; `reply` is what the provider answers, if it is asked.
    unfoldable pub handle_user_message :
        AiEnv
        → (ℕ → ℕ)
        → (ℕ → ℕ)
        → (ℕ → ℕ)
        → String
        → Option String
        → Result AiCompletionResult
        → SessionService
        → AiService
        → SessionService × AiService × List (Event N R)
    handle_user_message env clock clock' clock'' client_id text reply s ai =
        let (s', turn) = user_message_begin clock client_id text s in
        elim turn [
          | done events ↦ (s', ai, events)
          | asking history events ↦
              let (ai', answer) = generate_completion env clock' history none reply ai in
              let (s'', answered) = user_message_end clock'' client_id answer s' in
              (s'', ai', events ++ answered)
        ]
