-- ===== src/Session/History.antt =====
-- The conversation of a session: what `addMessage` adds, what `getConversationHistory` returns, and how
-- long the session lives.
use talksy.Common.{
  ℕ, ◌≡◌, ◌≤◌, ◌+◌, refl, ap, ◌∙◌, leb, if◌then◌else◌, List, [], ◌∷◌, ◌++◌, map, some, arith,
  String, if_pos, str_dec, take_last,
}
use talksy.Common.Map
use talksy.Buffer
use talksy.Buffer.Contents.{Holds, push-Holds, to_array-Holds}
use talksy.Session.{
  active, MessageRole, SessionMessage, InternalSession, SessionConfig, SessionService,
  get_internal_session, set_expiration_timer, destroy_session,
}
use talksy.Session.Methods.{
  put_session, touch_session, add_message, get_conversation_history, has_session,
}

-- An active session at `c` that has not expired and holds `items`.
pub record Live (s : SessionService) (now : ℕ) (c : String) (session : InternalSession)
    (items : List SessionMessage) : Type 0 where
  pub found : Map.get c s.sessions ≡ some session
  pub alive : now ≤ session.expires_at
  pub is_on : session.status ≡ active
  pub holds : Holds session.conversation_buffer items

abbrev pub touched : ℕ → SessionConfig → InternalSession → InternalSession
touched now config session = record session {
  last_activity_at = now;
  expires_at = now + config.ttl_ms;
}

get_internal-live :
    (s : SessionService) (now : ℕ) (c : String) (session : InternalSession)
    → Map.get c s.sessions ≡ some session
    → now ≤ session.expires_at
    → get_internal_session now c s ≡ (s, some session)
unfolding get_internal_session
get_internal-live s now c session e h = ground arith

touch-get :
    (s : SessionService) (now now' : ℕ) (c : String) (session : InternalSession)
    → Map.get c s.sessions ≡ some session
    → session.status ≡ active
    → Map.get c (touch_session now now' c s).0.sessions ≡ some (touched now s.config session)
unfolding touch_session set_expiration_timer
touch-get s now now' c session e on =
    ground (arith, Map.get-set c c (touched now s.config session) (Map.delete c s.sessions))

abbrev pub said : MessageRole → String → ℕ → SessionMessage
said role content at = record { role = role; content = content; timestamp = at }

abbrev pub pushed : SessionMessage → InternalSession → InternalSession
pushed message session = record session {
  conversation_buffer = Buffer.push message session.conversation_buffer;
}

add_message-get :
    (s : SessionService) (now at now' now'' : ℕ) (c : String) (role : MessageRole)
    (content : String) (session : InternalSession)
    → Map.get c s.sessions ≡ some session
    → now ≤ session.expires_at
    → session.status ≡ active
    → ((add_message now at now' now'' c role content s).1 ≡ some (said role content at))
      × (Map.get c (add_message now at now' now'' c role content s).0.sessions
          ≡ some (touched now' s.config (pushed (said role content at) session)))
unfolding add_message
add_message-get s now at now' now'' c role content session e h on =
    let message = said role content at in
    let grown = pushed message session in
    let inside = put_session c grown s in
    let there : Map.get c inside.sessions ≡ some grown =
      Map.get-set c c grown s.sessions ∙ if_pos (str_dec c c) refl _ _ in
    ground
      (arith, get_internal-live s now c session e h, touch-get inside now' now'' c grown there on)

history-get :
    (s : SessionService) (t : ℕ) (c : String) (session : InternalSession)
    → Map.get c s.sessions ≡ some session
    → (get_conversation_history t c s).1
      ≡ (if leb t session.expires_at then Buffer.to_array session.conversation_buffer else [])
unfolding get_conversation_history get_internal_session
history-get s t c session e = ground arith

pub has_session-get :
    (s : SessionService) (t : ℕ) (c : String) (session : InternalSession)
    → Map.get c s.sessions ≡ some session
    → session.status ≡ active
    → has_session t c s ≡ leb t session.expires_at
unfolding has_session
has_session-get s t c session e on = ground arith

-- The session as it is after a message.
abbrev pub after_message :
    ℕ → MessageRole → String → ℕ → SessionService → InternalSession → InternalSession
after_message at role content now s session =
    touched now s.config (pushed (said role content at) session)

-- The conversation with one more message.
abbrev pub grown : InternalSession → List SessionMessage → SessionMessage → List SessionMessage
grown session items m = take_last session.conversation_buffer.capacity (items ++ m ∷ [])

pub add_message-Live :
    (s : SessionService) (now at now' now'' t : ℕ) (c : String) (role : MessageRole)
    (content : String) (session : InternalSession) (items : List SessionMessage)
    → Live s now c session items
    → t ≤ now' + s.config.ttl_ms
    → Live
        (add_message now at now' now'' c role content s).0
        t
        c
        (after_message at role content now' s session)
        (grown session items (said role content at))
add_message-Live s now at now' now'' t c role content session items l h = record {
  found = (add_message-get s now at now' now'' c role content session l.found l.alive l.is_on).1;
  alive = h;
  is_on = l.is_on;
  holds = push-Holds (said role content at) session.conversation_buffer items l.holds;
}

pub add_message-config :
    (s : SessionService) (now at now' now'' : ℕ) (c : String) (role : MessageRole)
    (content : String)
    → (add_message now at now' now'' c role content s).0.config ≡ s.config
unfolding add_message touch_session set_expiration_timer get_internal_session destroy_session
add_message-config s now at now' now'' c role content = ground arith

-- What is read of a session that lives, and that reading leaves the service as it is.
pub history-Live :
    (s : SessionService) (t : ℕ) (c : String) (session : InternalSession)
    (items : List SessionMessage)
    → Live s t c session items
    → get_conversation_history t c s ≡ (s, map some items)
unfolding get_conversation_history
history-Live s t c session items l =
    rw (get_conversation_history, get_internal-live s t c session l.found l.alive)
      (ap (λ h. (s, h)) (to_array-Holds session.conversation_buffer items l.holds))

-- A message added to an active session that has not expired is returned; afterwards the history is the
-- last `capacity` of the messages, oldest first, with the new one at the end, until the session has been
-- idle for its time to live, and `hasSession` holds exactly so long.
pub add_message-history :
    (s : SessionService) (now at now' now'' t : ℕ) (c : String) (role : MessageRole)
    (content : String) (session : InternalSession) (items : List SessionMessage)
    → Live s now c session items
    → let (s', result) = add_message now at now' now'' c role content s in
      (result ≡ some (said role content at))
      × ((get_conversation_history t c s').1 ≡ (
          if leb t (now' + s.config.ttl_ms)
          then map some
              (take_last session.conversation_buffer.capacity (items ++ said role content at ∷ []))
          else []))
      × (has_session t c s' ≡ leb t (now' + s.config.ttl_ms))
add_message-history s now at now' now'' t c role content session items l =
    let message = said role content at in
    let (returned, e) =
      add_message-get s now at now' now'' c role content session l.found l.alive l.is_on in
    let grown = touched now' s.config (pushed message session) in
    let held = push-Holds message session.conversation_buffer items l.holds in
    (
      returned,
      history-get (add_message now at now' now'' c role content s).0 t c grown e
          ∙ ap (λ history. if leb t (now' + s.config.ttl_ms) then history else [])
              (to_array-Holds _ _ held),
      has_session-get (add_message now at now' now'' c role content s).0 t c grown e l.is_on,
    )
