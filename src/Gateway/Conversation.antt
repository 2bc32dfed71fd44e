-- ===== src/Gateway/Conversation.antt =====
-- What a message to the gateway does to the conversation of its session, and what the client is told.
use talksy.Common.{
  ℕ, ◌≡◌, ◌≢◌, ◌≤◌, ◌+◌, refl, ap, ap₂, ◌∙◌, true, false, leb, le→leb, if◌then◌else◌, List, [], ◌∷◌,
  ◌++◌, map, some, arith, String, ok, throw, str_dec, if_neg, take_last, take_last-append,
  append_assoc, Bool-cases, Option-cases, inl, inr,
}
use talksy.Common.Map
use talksy.Buffer.Contents.{capacity-push}
use talksy.Response
use talksy.Response.{ws_success}
use talksy.Session.{
  SessionMessage, InternalSession, SessionService, user, assistant, get_internal_session,
  is_session_expired, is_active,
}
use talksy.Session.Methods.{add_message, get_conversation_history, has_session}
use talksy.Session.History.{
  Live, said, grown, add_message-Live, add_message-config, add_message-history, history-Live,
  has_session-get,
}
use talksy.Ai.{AiCompletionResult}
use talksy.Gateway.{Event, emit, answer_data}
use talksy.Gateway.Messages.{
  asking, taken, messages_of, take_message, user_message_begin, user_message_end, is_blank,
  internal,
}

messages_of-map : (ms : List SessionMessage) → messages_of (map some ms) ≡ ok ms
unfolding messages_of
messages_of-map [] = refl
messages_of-map (m ∷ ms) = rw (messages_of-map ms) refl

module _ (trim : String → String) (clock : ℕ → ℕ) (c text : String) (s : SessionService)
    (session : InternalSession) (items : List SessionMessage)
    (live : Live s (clock 1) c session items) (spoken : trim text ≢ "") (first : clock 0 ≤ clock 1)
    (quick : clock 5 ≤ clock 3 + s.config.ttl_ms) where
  abbrev with_message : SessionService
  with_message = (add_message (clock 1) (clock 2) (clock 3) (clock 4) c user text s).0

  abbrev conversation : List SessionMessage
  conversation = grown session items (said user text (clock 2))

  module _ {N R : Type 0} where
    take_message-taken :
        take_message {N = N} {R = R} trim clock c (some text) s
        ≡ (with_message, taken (map some conversation))
    unfolding take_message
    take_message-taken =
        let open_session : has_session (clock 0) c s ≡ true =
          has_session-get s (clock 0) c session live.found live.is_on
          ∙ le→leb (clock 0) session.expires_at (omega (arith, live.alive)) in
        let said_something : is_blank trim text ≡ false =
          if_neg (str_dec (trim text) "") spoken _ _ in
        let read = history-Live with_message (clock 5) c _ conversation (
          add_message-Live s (clock 1) (clock 2) (clock 3) (clock 4) (clock 5) c user text session
            items live quick) in
        rw (take_message, said_something, open_session, read) refl

    user_message_begin-asking :
        user_message_begin {N = N} {R = R} trim clock c (some text) s
        ≡ (with_message, asking conversation [])
    unfolding user_message_begin
    user_message_begin-asking =
        rw (user_message_begin, take_message-taken, messages_of-map conversation) refl

abbrev pub answer_event : {N R : Type 0} → String → ℕ → ℕ → Event N R
answer_event text at now =
    emit "assistant_response" (
      ws_success (answer_data text at) Response.ai_response "AI response generated successfully"
        now)

-- A message that is no blank text, to a session that lives. The AI is asked with the last `capacity`
-- messages of the conversation, the new one at the end. When it has answered, and the session has not
-- been idle for too long, the client gets one event, with the answer; and from then on the history is
-- the last `capacity` of the earlier messages, the message and the answer, until the session has been
-- idle for its time to live.
pub user_message_end-user_message_begin :
    {N R : Type 0} (trim : String → String) (clock clock' : ℕ → ℕ) (t : ℕ) (c text : String)
    (s : SessionService) (session : InternalSession) (items : List SessionMessage)
    (result : AiCompletionResult)
    → Live s (clock 1) c session items
    → trim text ≢ ""
    → clock 0 ≤ clock 1
    → clock 5 ≤ clock 3 + s.config.ttl_ms
    → clock' 1 ≤ clock 3 + s.config.ttl_ms
    → let (s', turn) = user_message_begin {N = N} {R = R} trim clock c (some text) s in
      let (s'', events) = user_message_end {N = N} {R = R} clock' c (ok result) s' in
      let question = said user text (clock 2) in
      let answer = said assistant result.content (clock' 2) in
      (turn ≡ asking (take_last session.conversation_buffer.capacity (items ++ question ∷ [])) [])
      × (events ≡ answer_event result.content (clock' 0) (clock' 5) ∷ [])
      × ((get_conversation_history t c s'').1 ≡ (
          if leb t (clock' 3 + s.config.ttl_ms)
          then map some
              (take_last session.conversation_buffer.capacity (items ++ question ∷ answer ∷ []))
          else []))
unfolding user_message_end
user_message_end-user_message_begin trim clock clock' t c text s session items result live spoken
      first quick prompt =
    let question = said user text (clock 2) in
    let answer = said assistant result.content (clock' 2) in
    let s' = (add_message (clock 1) (clock 2) (clock 3) (clock 4) c user text s).0 in
    let cap = session.conversation_buffer.capacity in
    let begun =
      user_message_begin-asking trim clock c text s session items live spoken first quick in
    let config = add_message-config s (clock 1) (clock 2) (clock 3) (clock 4) c user text in
    let lives =
      add_message-Live s (clock 1) (clock 2) (clock 3) (clock 4) (clock' 1) c user text session
        items live prompt in
    let told =
      (add_message-history s' (clock' 1) (clock' 2) (clock' 3) (clock' 4) t c assistant
        result.content _ (grown session items question) lives).1 in
    let both_said =
      ap (λ n. take_last n (grown session items question ++ answer ∷ []))
        (capacity-push question session.conversation_buffer)
      ∙ take_last-append cap (items ++ question ∷ []) (answer ∷ [])
      ∙ ap (take_last cap) (append_assoc items (question ∷ []) (answer ∷ [])) in
    (
      ap (λ r. r.1) begun,
      refl,
      ap
            (λ r.
              (get_conversation_history t c
                (add_message (clock' 1) (clock' 2) (clock' 3) (clock' 4) c assistant result.content
                  r.0).0).1)
            begun
          ∙ told
          ∙ ap₂
              (λ (ttl : ℕ) (ms : List SessionMessage).
                if leb t (clock' 3 + ttl) then map some ms else [])
              (ap (λ g. g.ttl_ms) config) both_said,
    )

-- Where the AI fails, the client gets one event, an error; the message stays in the conversation, with
-- no answer.
pub user_message_end_failed :
    {N R : Type 0} (trim : String → String) (clock clock' : ℕ → ℕ) (t : ℕ) (c text message : String)
    (s : SessionService) (session : InternalSession) (items : List SessionMessage)
    → Live s (clock 1) c session items
    → trim text ≢ ""
    → clock 0 ≤ clock 1
    → clock 5 ≤ clock 3 + s.config.ttl_ms
    → let s' = (user_message_begin {N = N} {R = R} trim clock c (some text) s).0 in
      let (s'', events) = user_message_end {N = N} {R = R} clock' c (throw message) s' in
      (events ≡ internal (clock' 0) ∷ [])
      × ((get_conversation_history t c s'').1 ≡ (
          if leb t (clock 3 + s.config.ttl_ms)
          then map some (
              take_last session.conversation_buffer.capacity
                (items ++ said user text (clock 2) ∷ []))
          else []))
unfolding user_message_end
user_message_end_failed trim clock clock' t c text message s session items live spoken first quick =
    (
      refl,
      ap (λ r. (get_conversation_history t c r.0).1)
            (user_message_begin-asking trim clock c text s session items live spoken first quick)
          ∙ (add_message-history s (clock 1) (clock 2) (clock 3) (clock 4) t c user text session
              items live).1,
    )

-- Where the session has gone, expired or been disconnected while the AI answered, the answer is sent as
-- a success all the same, and is added to no conversation: the sessions stay as they are, but for the
-- session of the client, which is destroyed if it has expired.
pub user_message_end_lost :
    {N R : Type 0} (clock : ℕ → ℕ) (c : String) (s : SessionService) (result : AiCompletionResult)
    → has_session (clock 1) c s ≡ false
    → user_message_end {N = N} {R = R} clock c (ok result) s ≡ (
      (get_internal_session (clock 1) c s).0,
      answer_event result.content (clock 0) (clock 5) ∷ [],
    )
unfolding user_message_end add_message get_internal_session has_session
user_message_end_lost clock c s result closed = elim (Option-cases (Map.get c s.sessions)) [
  | inl gone ↦ rw (user_message_end, add_message, gone) refl
  | inr (session, found) ↦ elim (Bool-cases (is_session_expired (clock 1) session)) [
    | inl old ↦ rw (user_message_end, add_message, found, old) refl
    | inr young ↦
        let off : is_active session.status ≡ false = ground arith in
        rw (user_message_end, add_message, found, young, off) refl
  ]
]
