-- ===== src/Session/Methods.antt =====
-- src/session/session.service.ts: the methods after `destroySession`, and the handlers of the timers.
use talksy.Common.{
  ℕ, ◌+◌, ◌-◌, Bool, true, false, not, ◌&&◌, if◌then◌else◌, List, [], ◌∷◌, Option, none, some,
  String,
}
use talksy.Common.Map
use talksy.Common.Map.{Map}
use talksy.Buffer
use talksy.Session.{
  SessionStatus, active, disconnected, MessageRole, SessionMessage, InternalSession, Session,
  SessionService, is_active, is_disconnected, to_external, is_session_expired,
  clear_expiration_timer, clear_disconnect_timer, set_expiration_timer, set_disconnect_timer,
  destroy_session, get_internal_session,
}

-- `SessionInfoDto`; the dates are left as numbers, without `toISOString`.
pub record SessionInfo : Type 0 where
  pub session_id : String
  pub status : SessionStatus
  pub created_at : ℕ
  pub last_activity_at : ℕ
  pub expires_at : ℕ
  pub message_count : ℕ
  pub disconnected_at : Option ℕ

-- The object in the map is the one that the methods change.
abbrev pub put_session : String → InternalSession → SessionService → SessionService
put_session client_id session s = record s { sessions = Map.set client_id session s.sessions }

unfoldable pub mark_disconnected : ℕ → ℕ → String → SessionService → SessionService × Bool
unfolding clear_expiration_timer set_disconnect_timer
mark_disconnected now now' client_id s = elim (Map.get client_id s.sessions) [
  | none ↦ (s, false)
  | some session ↦ if is_disconnected session.status then (s, false) else (
    set_disconnect_timer now' client_id (
        clear_expiration_timer client_id (
          put_session client_id
            (record session { status = disconnected; disconnected_at = some now }) s)),
    true,
  )
]

unfoldable pub reconnect_session : ℕ → ℕ → String → SessionService → SessionService × Option Session
unfolding clear_disconnect_timer set_expiration_timer to_external
reconnect_session now now' client_id s = elim (Map.get client_id s.sessions) [
  | none ↦ (s, none)
  | some session ↦
      let restored = record session {
        status = active;
        last_activity_at = now;
        expires_at = now + s.config.ttl_ms;
        disconnected_at = none;
      } in
      if is_disconnected session.status
      then (
        set_expiration_timer now' client_id
            (put_session client_id restored (clear_disconnect_timer client_id s)),
        some (to_external restored),
      )
      else (s, none)
]

unfoldable pub has_session : ℕ → String → SessionService → Bool
has_session now client_id s = elim (Map.get client_id s.sessions) [
  | none ↦ false
  | some session ↦ if is_session_expired now session then false else is_active session.status
]

unfoldable pub has_disconnected_session : String → SessionService → Bool
has_disconnected_session client_id s = elim (Map.get client_id s.sessions) [
  | none ↦ false
  | some session ↦ is_disconnected session.status
]

unfoldable pub touch_session : ℕ → ℕ → String → SessionService → SessionService × Bool
unfolding set_expiration_timer
touch_session now now' client_id s = elim (Map.get client_id s.sessions) [
  | none ↦ (s, false)
  | some session ↦
      let touched = record session { last_activity_at = now; expires_at = now + s.config.ttl_ms } in
      if is_active session.status
      then (
        set_expiration_timer now' client_id
            (record s { sessions = Map.set client_id touched (Map.delete client_id s.sessions) }),
        true,
      )
      else (s, false)
]

-- The clock is read for the expiry, for the message and twice by `touchSession`.
unfoldable pub add_message :
    ℕ
    → ℕ
    → ℕ
    → ℕ
    → String
    → MessageRole
    → String
    → SessionService
    → SessionService × Option SessionMessage
add_message now at now' now'' client_id role content s =
    let (s', found) = get_internal_session now client_id s in
    elim found [
      | none ↦ (s', none)
      | some session ↦
          let message : SessionMessage = record {
            role = role;
            content = content;
            timestamp = at;
          } in
          if is_active session.status
          then (
            (touch_session now' now'' client_id (
                put_session client_id
                  (record session {
                    conversation_buffer = Buffer.push message session.conversation_buffer;
                  })
                  s')).0,
            some message,
          )
          else (s', none)
    ]

unfoldable pub get_conversation_history :
    ℕ → String → SessionService → SessionService × List (Option SessionMessage)
get_conversation_history now client_id s =
    let (s', found) = get_internal_session now client_id s in
    (s', elim found [ none ↦ [] | some session ↦ Buffer.to_array session.conversation_buffer ])

unfoldable pub get_session_info : ℕ → String → SessionService → SessionService × Option SessionInfo
get_session_info now client_id s =
    let (s', found) = get_internal_session now client_id s in
    elim found [
      | none ↦ (s', none)
      | some session ↦ (
        s',
        some (record {
          session_id = session.id;
          status = session.status;
          created_at = session.created_at;
          last_activity_at = session.last_activity_at;
          expires_at = session.expires_at;
          message_count = Buffer.length session.conversation_buffer;
          disconnected_at = session.disconnected_at;
        }),
      )
    ]

-- The loops of `getActiveSessionCount` and `getDisconnectedSessionCount`.
unfoldable pub count_sessions : (InternalSession → Bool) → Map InternalSession → ℕ
count_sessions test [] = 0
count_sessions test ((client_id, session) ∷ m) =
    (if test session then 1 else 0) + count_sessions test m

abbrev pub get_active_session_count : ℕ → SessionService → ℕ
get_active_session_count now s =
    count_sessions (λ session. is_active session.status && not (is_session_expired now session))
      s.sessions

abbrev pub get_disconnected_session_count : SessionService → ℕ
get_disconnected_session_count s =
    count_sessions (λ session. is_disconnected session.status) s.sessions

unfoldable pub clear_all_sessions : SessionService → SessionService
clear_all_sessions s = record s { sessions = []; expiration_timers = []; disconnect_timers = [] }

unfoldable pub force_expire_session : ℕ → String → SessionService → SessionService × Bool
force_expire_session now client_id s = elim (Map.get client_id s.sessions) [
  | none ↦ (s, false)
  | some session ↦ (put_session client_id (record session { expires_at = now - 1000 }) s, true)
]

-- `handleSessionExpiration` and `handleDisconnectTimeout` do the same: a timer has fired.
unfoldable pub handle_timer : String → SessionService → SessionService
unfolding destroy_session
handle_timer client_id s = (destroy_session client_id s).0

-- The loop of `cleanupExpiredSessions` over the entries that it meets.
unfoldable pub cleanup_loop : ℕ → Map InternalSession → SessionService → SessionService
unfolding destroy_session
cleanup_loop now [] s = s
cleanup_loop now ((client_id, session) ∷ rest) s = cleanup_loop now rest (
    if is_session_expired now session && is_active session.status
    then (destroy_session client_id s).0
    else s)

unfoldable pub cleanup_expired_sessions : ℕ → SessionService → SessionService
unfolding cleanup_loop
cleanup_expired_sessions now s = cleanup_loop now s.sessions s
