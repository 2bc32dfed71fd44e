-- ===== src/Session.antt =====
-- src/session/session.service.ts, its interfaces and its data transfer objects: the class
-- `SessionService`. The three maps of the store are one record; a pending timer is the time at which it
-- is due. A method that changes the store returns the service, first; each reading of the clock is an
-- argument. Logging is left out, and so is `metadata`, which no method sets.
pub mod Methods
pub mod Coherent
pub mod Steps
pub mod History
pub mod Capacity
mod Tests
use talksy.Common.{
  ℕ, ◌+◌, ◌-◌, Bool, true, false, ltb, leb, ◌&&◌, if◌then◌else◌, List, [], ◌∷◌, map, Option, none,
  some, String, Result, ok, throw,
}
use talksy.Common.Map
use talksy.Common.Map.{Map}
use talksy.Buffer
use talksy.Buffer.{CircularBuffer}

pub data SessionStatus : Type 0 where
  active disconnected : SessionStatus

pub data MessageRole : Type 0 where
  user assistant system : MessageRole

pub record SessionMessage : Type 0 where
  pub role : MessageRole
  pub content : String
  pub timestamp : ℕ

pub record InternalSession : Type 0 where
  pub id : String
  pub created_at : ℕ
  pub last_activity_at : ℕ
  pub expires_at : ℕ
  pub status : SessionStatus
  pub disconnected_at : Option ℕ
  pub conversation_buffer : CircularBuffer SessionMessage

pub record Session : Type 0 where
  pub id : String
  pub created_at : ℕ
  pub last_activity_at : ℕ
  pub expires_at : ℕ
  pub status : SessionStatus
  pub disconnected_at : Option ℕ
  pub conversation_history : List (Option SessionMessage)

pub record SessionConfig : Type 0 where
  pub ttl_ms : ℕ
  pub max_history_length : ℕ
  pub cleanup_interval_ms : ℕ
  pub disconnect_grace_ms : ℕ
  pub max_sessions : ℕ

pub record SessionService : Type 0 where
  pub sessions : Map InternalSession
  pub expiration_timers : Map ℕ
  pub disconnect_timers : Map ℕ
  pub config : SessionConfig

abbrev pub is_active : SessionStatus → Bool
is_active active = true
is_active disconnected = false

abbrev pub is_disconnected : SessionStatus → Bool
is_disconnected active = false
is_disconnected disconnected = true

-- `toExternalSession`
unfoldable pub to_external : InternalSession → Session
to_external s = record {
  id = s.id;
  created_at = s.created_at;
  last_activity_at = s.last_activity_at;
  expires_at = s.expires_at;
  status = s.status;
  disconnected_at = s.disconnected_at;
  conversation_history = Buffer.to_array s.conversation_buffer;
}

abbrev pub is_session_expired : ℕ → InternalSession → Bool
is_session_expired now s = ltb s.expires_at now

-- To clear a timer that is not there changes nothing, so the test for it is the map's.
unfoldable pub clear_expiration_timer : String → SessionService → SessionService
clear_expiration_timer client_id s = record s {
  expiration_timers = Map.delete client_id s.expiration_timers;
}

unfoldable pub clear_disconnect_timer : String → SessionService → SessionService
clear_disconnect_timer client_id s = record s {
  disconnect_timers = Map.delete client_id s.disconnect_timers;
}

-- `Math.max(0, expiresAt - now)` milliseconds from now.
unfoldable pub set_expiration_timer : ℕ → String → SessionService → SessionService
unfolding clear_expiration_timer
set_expiration_timer now client_id s =
    let s' = clear_expiration_timer client_id s in
    elim (Map.get client_id s'.sessions) [
      | none ↦ s'
      | some session ↦ record s' {
        expiration_timers =
            Map.set client_id (now + (session.expires_at - now)) s'.expiration_timers;
      }
    ]

unfoldable pub set_disconnect_timer : ℕ → String → SessionService → SessionService
unfolding clear_disconnect_timer
set_disconnect_timer now client_id s =
    let s' = clear_disconnect_timer client_id s in
    record s' {
      disconnect_timers =
          Map.set client_id (now + s'.config.disconnect_grace_ms) s'.disconnect_timers;
    }

unfoldable pub destroy_session : String → SessionService → SessionService × Bool
unfolding clear_expiration_timer clear_disconnect_timer
destroy_session client_id s = elim (Map.get client_id s.sessions) [
  | none ↦ (s, false)
  | some session ↦
      let s' = clear_disconnect_timer client_id (clear_expiration_timer client_id s) in
      (record s' { sessions = Map.delete client_id s'.sessions }, true)
]

-- The first key of the map, if there is one, is that of the session least recently used.
unfoldable pub evict_first : Map InternalSession → SessionService → SessionService
unfolding destroy_session
evict_first [] s = s
evict_first ((first_key, session) ∷ rest) s = (destroy_session first_key s).0

unfoldable pub evict_lru_session : SessionService → SessionService
unfolding evict_first
evict_lru_session s = evict_first s.sessions s

abbrev pub new_session :
    ℕ → String → SessionConfig → CircularBuffer SessionMessage → InternalSession
new_session now client_id config buffer = record {
  id = client_id;
  created_at = now;
  last_activity_at = now;
  expires_at = now + config.ttl_ms;
  status = active;
  disconnected_at = none;
  conversation_buffer = buffer;
}

-- The end of `createSession`: it throws if the constructor of the buffer does.
unfoldable pub add_session : ℕ → ℕ → String → SessionService → SessionService × Result Session
unfolding set_expiration_timer to_external
add_session now now' client_id s =
    elim (Buffer.create {T = SessionMessage} s.config.max_history_length) [
      | throw message ↦ (s, throw message)
      | ok buffer ↦
          let session = new_session now client_id s.config buffer in
          (
            set_expiration_timer now' client_id
                (record s { sessions = Map.set client_id session s.sessions }),
            ok (to_external session),
          )
    ]

-- What `createSession` does where there is no active session: at capacity it first evicts one.
unfoldable pub create_new : ℕ → ℕ → String → SessionService → SessionService × Result Session
unfolding evict_lru_session add_session
create_new now now' client_id s =
    add_session now now' client_id
      (if leb s.config.max_sessions (Map.size s.sessions) then evict_lru_session s else s)

-- An active session is returned as it is, and moves to the end of the map.
unfoldable pub create_session : ℕ → ℕ → String → SessionService → SessionService × Result Session
unfolding create_new to_external
create_session now now' client_id s = elim (Map.get client_id s.sessions) [
  | none ↦ create_new now now' client_id s
  | some session ↦
      if is_active session.status
      then (
        record s { sessions = Map.set client_id session (Map.delete client_id s.sessions) },
        ok (to_external session),
      )
      else create_new now now' client_id s
]

-- `getInternalSession`: a session that has expired is destroyed by being asked for.
unfoldable pub get_internal_session :
    ℕ → String → SessionService → SessionService × Option InternalSession
unfolding destroy_session
get_internal_session now client_id s = elim (Map.get client_id s.sessions) [
  | none ↦ (s, none)
  | some session ↦
      if is_session_expired now session
      then ((destroy_session client_id s).0, none)
      else (s, some session)
]

unfoldable pub get_session : ℕ → String → SessionService → SessionService × Option Session
unfolding destroy_session to_external
get_session now client_id s = elim (Map.get client_id s.sessions) [
  | none ↦ (s, none)
  | some session ↦
      if is_session_expired now session
      then ((destroy_session client_id s).0, none)
      else (s, some (to_external session))
]
