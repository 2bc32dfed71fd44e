-- ===== src/Gateway.antt =====
-- src/gateway/assistant.gateway.ts: the class `AssistantGateway`. A handler takes the services that it calls
-- and returns them, with what it emits to its client, in order. A handler that awaits another service is
-- several steps, between which other handlers run: the steps up to an answer of the AI and after it are in
-- Gateway/Messages.antt, those around a tool in Gateway/ToolCalls.antt. `clock` gives the readings of the
-- clock, in order; dates are left as numbers.
pub mod Messages
pub mod ToolCalls
pub mod Slots
pub mod Reachable
pub mod Conversation
pub mod Streaming
mod Tests
use talksy.Common.{
  ℕ, ◌+◌, Bool, true, false, if◌then◌else◌, List, [], ◌∷◌, Option, none, some, String, Result, ok,
  throw, length, ◌⊎◌,
}
use talksy.Response
use talksy.Response.{WsResponse, ResponseCode, ws_success, ws_error}
use talksy.StreamBatcher.{BatchedChunk}
use talksy.Session.{SessionMessage, Session, SessionService, create_session}
use talksy.Session.Methods.{
  SessionInfo, has_disconnected_session, reconnect_session, mark_disconnected,
  get_conversation_history, get_session_info,
}
use talksy.Tools.{ToolDefinition}
use talksy.Tools.Executor.Execute.{Failure}

-- What the events carry.
pub data Payload (N R : Type 0) : Type 0 where
  connected_data : (client_id session_id : String) → Payload N R
  restored_data : (session_id : String) (expires_at message_count : ℕ) → Payload N R
  created_data : (session_id : String) (expires_at : ℕ) → Payload N R
  answer_data : (text : String) (timestamp : ℕ) → Payload N R
  start_data : (timestamp : ℕ) → Payload N R
  chunk_data : BatchedChunk → Payload N R
  end_data : (timestamp : ℕ) (full_response : String) → Payload N R
  history_data : List (Option SessionMessage) → Payload N R
  info_data : SessionInfo → Payload N R
  tools_data : (tools : List (ToolDefinition N)) (count : ℕ) → Payload N R
  result_data : (call_id tool_name : String) (result : R ⊎ Failure N) → Payload N R
  definition_data : ToolDefinition N → Payload N R

-- A call of `client.emit`.
pub record Event (N R : Type 0) : Type 0 where
  pub name : String
  pub response : WsResponse (Payload N R)

abbrev pub later : ℕ → (ℕ → ℕ) → ℕ → ℕ
later n clock i = clock (n + i)

module _ {N R : Type 0} where
  abbrev pub emit : String → WsResponse (Payload N R) → Event N R
  emit name response = record { name = name; response = response }

  abbrev pub emit_error : ResponseCode → String → ℕ → Event N R
  emit_error code description now = emit "error" (ws_error code description now)

  abbrev pub restored_events : ℕ → ℕ → String → Session → List (Event N R)
  restored_events now now' client_id session =
      emit "connected" (
        ws_success (connected_data client_id session.id) Response.session_restored
          "Connection established, session restored" now)
      ∷ emit "session_restored" (
          ws_success
            (restored_data session.id session.expires_at (length session.conversation_history))
            Response.session_restored "Previous session restored successfully" now')
      ∷ []

  abbrev pub created_events : ℕ → ℕ → String → Session → List (Event N R)
  created_events now now' client_id session =
      emit "connected" (
        ws_success (connected_data client_id session.id) Response.session_created
          "Connection established, new session created" now)
      ∷ emit "session_created" (
          ws_success (created_data session.id session.expires_at) Response.session_created
            "New session created successfully" now')
      ∷ []

  -- A new session; what `createSession` throws leaves the handler.
  unfoldable pub connect_new :
      (ℕ → ℕ) → String → SessionService → SessionService × Result (List (Event N R))
  connect_new clock client_id s =
      let (s', made) = create_session (clock 0) (clock 1) client_id s in
      (
        s',
        elim made [
          | throw message ↦ throw message
          | ok session ↦ ok (created_events (clock 2) (clock 3) client_id session)
        ],
      )

  unfoldable pub handle_connection :
      (ℕ → ℕ) → String → SessionService → SessionService × Result (List (Event N R))
  handle_connection clock client_id s =
      if has_disconnected_session client_id s
      then (let (s', restored) = reconnect_session (clock 0) (clock 1) client_id s in
          elim restored [
            | some session ↦ (s', ok (restored_events (clock 2) (clock 3) client_id session))
            | none ↦ connect_new (later 2 clock) client_id s'
          ])
      else connect_new clock client_id s

  unfoldable pub handle_get_history :
      (ℕ → ℕ) → String → SessionService → SessionService × List (Event N R)
  handle_get_history clock client_id s =
      let (s', history) = get_conversation_history (clock 0) client_id s in
      (
        s',
        emit "conversation_history" (
              ws_success (history_data history) Response.success "Conversation history retrieved"
                (clock 1))
            ∷ [],
      )

  unfoldable pub handle_get_session_info :
      (ℕ → ℕ) → String → SessionService → SessionService × List (Event N R)
  handle_get_session_info clock client_id s =
      let (s', info) = get_session_info (clock 0) client_id s in
      (
        s',
        elim info [
          | some found ↦
              emit "session_info"
                (ws_success (info_data found) Response.success "Session info retrieved" (clock 1))
              ∷ []
          | none ↦ emit_error Response.session_expired "Session not found" (clock 1) ∷ []
        ],
      )

unfoldable pub handle_disconnect : (ℕ → ℕ) → String → SessionService → SessionService
handle_disconnect clock client_id s = (mark_disconnected (clock 0) (clock 1) client_id s).0
