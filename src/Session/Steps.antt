-- ===== src/Session/Steps.antt =====
-- The calls of the service and the timers that fire, in any order: the states that can be reached.
use talksy.Common.{
  ℕ, ◌≡◌, ◌≤◌, ◌<◌, refl, ap, ◌∙◌, true, false, [], none, some, arith, String, ok, lt→leb,
  if◌then◌else◌, if_pos, str_dec,
}
use talksy.Common.Map
use talksy.Buffer
use talksy.Buffer.{CircularBuffer}
use talksy.Buffer.Contents.{create-Holds}
use talksy.Session.{
  disconnected, MessageRole, SessionMessage, InternalSession, SessionConfig, SessionService,
  destroy_session, create_session, create_new, add_session, new_session, evict_lru_session,
  get_internal_session, set_expiration_timer,
}
use talksy.Session.Methods.{
  put_session, mark_disconnected, reconnect_session, has_disconnected_session, touch_session,
  add_message, clear_all_sessions, force_expire_session, cleanup_expired_sessions, handle_timer,
}
use talksy.Session.Coherent.{
  IsCoherent, active_at, destroy_session-IsCoherent, mark_disconnected-IsCoherent,
  reconnect_session-IsCoherent, touch_session-IsCoherent, get_internal_session-IsCoherent,
  clear_all_sessions-IsCoherent, force_expire_session-IsCoherent, cleanup_loop-IsCoherent,
  create_session-IsCoherent, add_message-IsCoherent,
}

-- The service after its constructor.
unfoldable pub start : SessionConfig → SessionService
start config = record {
  sessions = [];
  expiration_timers = [];
  disconnect_timers = [];
  config = config;
}

-- `create` is what the gateway does for a client without a disconnected session; it restores one that
-- there is by `reconnect`. A timer may fire only while the store has it.
pub data Step (s : SessionService) : SessionService → Type 0 where
  create :
      (now now' : ℕ) (c : String)
      → has_disconnected_session c s ≡ false
      → Step s (create_session now now' c s).0
  destroy : (c : String) → Step s (destroy_session c s).0
  disconnect : (now now' : ℕ) (c : String) → Step s (mark_disconnected now now' c s).0
  reconnect : (now now' : ℕ) (c : String) → Step s (reconnect_session now now' c s).0
  touch : (now now' : ℕ) (c : String) → Step s (touch_session now now' c s).0
  look_up : (now : ℕ) (c : String) → Step s (get_internal_session now c s).0
  message :
      (now at now' now'' : ℕ) (c : String) (role : MessageRole) (content : String)
      → Step s (add_message now at now' now'' c role content s).0
  force_expire : (now : ℕ) (c : String) → Step s (force_expire_session now c s).0
  clear_all : Step s (clear_all_sessions s)
  cleanup : (now : ℕ) → Step s (cleanup_expired_sessions now s)
  expiration : (c : String) → Map.has c s.expiration_timers ≡ true → Step s (handle_timer c s)
  grace_over : (c : String) → Map.has c s.disconnect_timers ≡ true → Step s (handle_timer c s)

pub data Reach (s : SessionService) : SessionService → Type 0 where
  here : Reach s s
  next : {t u : SessionService} → Reach s t → Step t u → Reach s u

Step-IsCoherent : {s t : SessionService} → Step s t → IsCoherent s → IsCoherent t
unfolding cleanup_expired_sessions handle_timer
Step-IsCoherent {s} (create now now' c free) h = create_session-IsCoherent s now now' c h free
Step-IsCoherent {s} (destroy c) h = destroy_session-IsCoherent s h c
Step-IsCoherent {s} (disconnect now now' c) h = mark_disconnected-IsCoherent s h now now' c
Step-IsCoherent {s} (reconnect now now' c) h = reconnect_session-IsCoherent s h now now' c
Step-IsCoherent {s} (touch now now' c) h = touch_session-IsCoherent s h now now' c
Step-IsCoherent {s} (look_up now c) h = get_internal_session-IsCoherent s h now c
Step-IsCoherent {s} (message now at now' now'' c role content) h =
    add_message-IsCoherent s now at now' now'' c role content h
Step-IsCoherent {s} (force_expire now c) h = force_expire_session-IsCoherent s h now c
Step-IsCoherent {s} clear_all h = clear_all_sessions-IsCoherent s h
Step-IsCoherent {s} (cleanup now) h = cleanup_loop-IsCoherent now s.sessions s h
Step-IsCoherent {s} (expiration c armed) h = destroy_session-IsCoherent s h c
Step-IsCoherent {s} (grace_over c armed) h = destroy_session-IsCoherent s h c

start-IsCoherent : (config : SessionConfig) → IsCoherent (start config)
unfolding start Map.get
start-IsCoherent config c = record { expiring = refl; waiting = refl }

-- In every state that is reached from a new service, where sessions are created only for clients that
-- have no disconnected one, each active session has an expiration timer and no disconnect timer, each
-- disconnected session the other way round, and a client without a session has neither.
pub Reach-IsCoherent :
    (config : SessionConfig) {s : SessionService} → Reach (start config) s → IsCoherent s
Reach-IsCoherent config here = start-IsCoherent config
Reach-IsCoherent config (next r step) = Step-IsCoherent step (Reach-IsCoherent config r)

sessions-set_expiration_timer :
    (now : ℕ) (c : String) (s : SessionService)
    → ((set_expiration_timer now c s).sessions ≡ s.sessions)
      × ((set_expiration_timer now c s).disconnect_timers ≡ s.disconnect_timers)
unfolding set_expiration_timer
sessions-set_expiration_timer now c s = ground arith

get-destroy_session :
    (c : String) (s : SessionService) → Map.get c (destroy_session c s).0.sessions ≡ none
unfolding destroy_session
get-destroy_session c s = ground (arith, Map.get-delete c c s.sessions)

create_session-over :
    (s : SessionService) (now now' : ℕ) (c : String) (old : InternalSession)
    (buffer : CircularBuffer SessionMessage)
    → Map.get c s.sessions ≡ some old
    → old.status ≡ disconnected
    → Map.size s.sessions < s.config.max_sessions
    → Buffer.create s.config.max_history_length ≡ ok buffer
    → (create_session now now' c s).0
      ≡ set_expiration_timer now' c (put_session c (new_session now c s.config buffer) s)
unfolding create_session create_new add_session
create_session-over s now now' c old buffer found dis room made =
    let to_new : create_session now now' c s ≡ create_new now now' c s = ground arith in
    ap (λ r. r.0) to_new
    ∙ ap (λ b. (add_session now now' c (if b then evict_lru_session s else s)).0)
        (lt→leb s.config.max_sessions (Map.size s.sessions) room)
    ∙ added made
  where
    added :
        Buffer.create s.config.max_history_length ≡ ok buffer
        → (add_session now now' c s).0
          ≡ set_expiration_timer now' c (put_session c (new_session now c s.config buffer) s)
    added e = rw (e, add_session)

-- `createSession` for a client that has a disconnected session, below capacity: it makes an active
-- session over it and leaves its disconnect timer, which then destroys the active session.
pub create_session-stale_timer :
    (s : SessionService) (now now' : ℕ) (c : String) (old : InternalSession)
    → IsCoherent s
    → Map.get c s.sessions ≡ some old
    → old.status ≡ disconnected
    → Map.size s.sessions < s.config.max_sessions
    → 1 ≤ s.config.max_history_length
    → let s' = (create_session now now' c s).0 in
      (active_at (Map.get c s'.sessions) ≡ true)
      × (Map.has c s'.disconnect_timers ≡ true)
      × (Map.get c (handle_timer c s').sessions ≡ none)
unfolding handle_timer
create_session-stale_timer s now now' c old h found dis room history =
    let (buffer, made, _, _) =
      create-Holds {T = SessionMessage} s.config.max_history_length history in
    let session = new_session now c s.config buffer in
    let e = create_session-over s now now' c old buffer found dis room made in
    let (kept, timers) = sessions-set_expiration_timer now' c (put_session c session s) in
    (
      ap (λ r. active_at (Map.get c r.sessions)) e
          ∙ ap (λ m. active_at (Map.get c m)) kept
          ∙ ap active_at (Map.get-set c c session s.sessions ∙ if_pos (str_dec c c) refl _ _),
      ap (λ r. Map.has c r.disconnect_timers) e
          ∙ ap (λ m. Map.has c m) timers
          ∙ ground (arith, h c),
      get-destroy_session c _,
    )
