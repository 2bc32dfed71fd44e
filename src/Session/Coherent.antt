-- ===== src/Session/Coherent.antt =====
-- Code: src/session/session.service.ts. The timers of the store against its sessions, method by method.
use talksy.Common.{
  ℕ, ◌+◌, ◌-◌, ◌≡◌, refl, ap, Bool, false, leb, ◌&&◌, [], ◌∷◌, Option, none, some, arith, String,
  Bool-cases, Option-cases, inl, inr, ◌⊎◌, Result, ok, throw,
}
use talksy.Common.Map
use talksy.Common.Map.{Map, Distinct}
use talksy.Buffer
use talksy.Session.{
  SessionStatus, active, disconnected, MessageRole, InternalSession, SessionService, is_active,
  is_disconnected, is_session_expired, set_expiration_timer, destroy_session, evict_first,
  evict_lru_session, new_session, SessionMessage, add_session, create_new, create_session,
  get_internal_session,
}
use talksy.Session.Methods.{
  put_session, mark_disconnected, reconnect_session, has_disconnected_session, touch_session,
  add_message, clear_all_sessions, force_expire_session, cleanup_loop,
}

abbrev pub active_at : Option InternalSession → Bool
active_at none = false
active_at (some session) = is_active session.status

abbrev pub disconnected_at : Option InternalSession → Bool
disconnected_at none = false
disconnected_at (some session) = is_disconnected session.status

pub record CoherentAt (s : SessionService) (c : String) : Type 0 where
  pub expiring : Map.has c s.expiration_timers ≡ active_at (Map.get c s.sessions)
  pub waiting : Map.has c s.disconnect_timers ≡ disconnected_at (Map.get c s.sessions)

abbrev pub IsCoherent : SessionService → Type 0
IsCoherent s = (c : String) → CoherentAt s c

module _ (s : SessionService) (h : IsCoherent s) where
  pub destroy_session-IsCoherent : (c : String) → IsCoherent (destroy_session c s).0
  unfolding destroy_session
  destroy_session-IsCoherent c d = ground (
    arith,
    h d,
    Map.get-delete d c s.sessions,
    Map.get-delete d c s.expiration_timers,
    Map.get-delete d c s.disconnect_timers,
  )

  pub mark_disconnected-IsCoherent :
      (now now' : ℕ) (c : String) → IsCoherent (mark_disconnected now now' c s).0
  unfolding mark_disconnected
  mark_disconnected-IsCoherent now now' c d = elim (Option-cases (Map.get c s.sessions)) [
    | inl gone ↦ ground (arith, h d)
    | inr (session, e) ↦ ground (
      arith,
      h d,
      Map.get-delete d c s.expiration_timers,
      Map.get-delete d c s.disconnect_timers,
      Map.get-set d c (now' + s.config.disconnect_grace_ms) (Map.delete c s.disconnect_timers),
      Map.get-set d c (record session { status = disconnected; disconnected_at = some now })
          s.sessions,
    )
  ]

  pub reconnect_session-IsCoherent :
      (now now' : ℕ) (c : String) → IsCoherent (reconnect_session now now' c s).0
  unfolding reconnect_session
  reconnect_session-IsCoherent now now' c d = elim (Option-cases (Map.get c s.sessions)) [
    | inl gone ↦ ground (arith, h d)
    | inr (session, e) ↦
        let restored = record session {
          status = active;
          last_activity_at = now;
          expires_at = now + s.config.ttl_ms;
          disconnected_at = none;
        } in
        ground (
          arith,
          h d,
          Map.get-delete d c s.expiration_timers,
          Map.get-delete d c s.disconnect_timers,
          Map.get-set d c (now' + (now + s.config.ttl_ms - now'))
              (Map.delete c s.expiration_timers),
          Map.get-set d c restored s.sessions,
          Map.get-set c c restored s.sessions,
        )
  ]

  pub touch_session-IsCoherent :
      (now now' : ℕ) (c : String) → IsCoherent (touch_session now now' c s).0
  unfolding touch_session
  touch_session-IsCoherent now now' c d = elim (Option-cases (Map.get c s.sessions)) [
    | inl gone ↦ ground (arith, h d)
    | inr (session, e) ↦
        let touched = record session {
          last_activity_at = now;
          expires_at = now + s.config.ttl_ms;
        } in
        ground (
          arith,
          h d,
          Map.get-delete d c s.expiration_timers,
          Map.get-delete d c s.sessions,
          Map.get-set d c (now' + (now + s.config.ttl_ms - now'))
              (Map.delete c s.expiration_timers),
          Map.get-set d c touched (Map.delete c s.sessions),
          Map.get-set c c touched (Map.delete c s.sessions),
        )
  ]

  pub get_internal_session-IsCoherent :
      (now : ℕ) (c : String) → IsCoherent (get_internal_session now c s).0
  unfolding get_internal_session
  get_internal_session-IsCoherent now c d = ground (arith, h d, destroy_session-IsCoherent c d)

  pub clear_all_sessions-IsCoherent : IsCoherent (clear_all_sessions s)
  unfolding clear_all_sessions Map.get
  clear_all_sessions-IsCoherent d = record { expiring = refl; waiting = refl }

  pub force_expire_session-IsCoherent :
      (now : ℕ) (c : String) → IsCoherent (force_expire_session now c s).0
  unfolding force_expire_session
  force_expire_session-IsCoherent now c d = elim (Option-cases (Map.get c s.sessions)) [
    | inl gone ↦ ground (arith, h d)
    | inr (session, e) ↦
        ground (arith, h d, Map.get-set d c (record session { expires_at = now - 1000 }) s.sessions)
  ]

evict_first-IsCoherent :
    (m : Map InternalSession) (s : SessionService) → IsCoherent s → IsCoherent (evict_first m s)
unfolding evict_first
evict_first-IsCoherent [] s h = h
evict_first-IsCoherent ((c, session) ∷ m) s h = destroy_session-IsCoherent s h c

-- To evict a session makes no other one disconnected.
evict_first-connected :
    (m : Map InternalSession) (s : SessionService) (c : String)
    → disconnected_at (Map.get c s.sessions) ≡ false
    → disconnected_at (Map.get c (evict_first m s).sessions) ≡ false
unfolding evict_first destroy_session
evict_first-connected [] s c h = h
evict_first-connected ((k, session) ∷ m) s c h = ground (arith, Map.get-delete c k s.sessions)

pub cleanup_loop-IsCoherent :
    (now : ℕ) (m : Map InternalSession) (s : SessionService)
    → IsCoherent s
    → IsCoherent (cleanup_loop now m s)
unfolding cleanup_loop
cleanup_loop-IsCoherent now [] s h = h
cleanup_loop-IsCoherent now ((c, session) ∷ m) s h =
    cleanup_loop-IsCoherent now m _
      (elim (Bool-cases (is_session_expired now session && is_active session.status)) [
        | inl b ↦ rw b (destroy_session-IsCoherent s h c)
        | inr b ↦ rw b h
      ])

-- A message pushed into a session's buffer leaves its status.
put_buffer-IsCoherent :
    (s : SessionService) (c : String) (session session' : InternalSession)
    → IsCoherent s
    → Map.get c s.sessions ≡ some session
    → session'.status ≡ session.status
    → IsCoherent (put_session c session' s)
put_buffer-IsCoherent s c session session' h e same d =
    ground (arith, h d, Map.get-set d c session' s.sessions)

status-cases : (x : SessionStatus) → (x ≡ active) ⊎ (x ≡ disconnected)
status-cases active = inl refl
status-cases disconnected = inr refl

-- A session that is put in with its timer, where none is disconnected.
added-IsCoherent :
    (s : SessionService) (now' : ℕ) (c : String) (session : InternalSession)
    → IsCoherent s
    → disconnected_at (Map.get c s.sessions) ≡ false
    → session.status ≡ active
    → IsCoherent (set_expiration_timer now' c (put_session c session s))
unfolding set_expiration_timer
added-IsCoherent s now' c session h free act d = ground (
  arith,
  h d,
  Map.get-set d c session s.sessions,
  Map.get-set c c session s.sessions,
  Map.get-delete d c s.expiration_timers,
  Map.get-set d c (now' + (session.expires_at - now')) (Map.delete c s.expiration_timers),
)

pub Result-cases {ℓ} :
    {A : Type ℓ} (r : Result A)
    → ((a : A) × (r ≡ ok a)) ⊎ ((message : String) × (r ≡ throw message))
Result-cases (ok a) = inl (a, refl)
Result-cases (throw message) = inr (message, refl)

add_session-IsCoherent :
    (s : SessionService) (now now' : ℕ) (c : String)
    → IsCoherent s
    → disconnected_at (Map.get c s.sessions) ≡ false
    → IsCoherent (add_session now now' c s).0
unfolding add_session
add_session-IsCoherent s now now' c h free =
    elim (Result-cases (Buffer.create {T = SessionMessage} s.config.max_history_length)) [
      | inl (buffer, e) ↦
          rw (e, add_session)
            (added-IsCoherent s now' c (new_session now c s.config buffer) h free refl)
      | inr (message, e) ↦ rw (e, add_session) h
    ]

create_new-IsCoherent :
    (s : SessionService) (now now' : ℕ) (c : String)
    → IsCoherent s
    → disconnected_at (Map.get c s.sessions) ≡ false
    → IsCoherent (create_new now now' c s).0
unfolding create_new evict_lru_session
create_new-IsCoherent s now now' c h free =
    elim (Bool-cases (leb s.config.max_sessions (Map.size s.sessions))) [
      | inl full ↦ rw full (
          add_session-IsCoherent (evict_first s.sessions s) now now' c
            (evict_first-IsCoherent s.sessions s h) (evict_first-connected s.sessions s c free))
      | inr room ↦ rw room (add_session-IsCoherent s now now' c h free)
    ]

pub create_session-IsCoherent :
    (s : SessionService) (now now' : ℕ) (c : String)
    → IsCoherent s
    → has_disconnected_session c s ≡ false
    → IsCoherent (create_session now now' c s).0
unfolding create_session has_disconnected_session
create_session-IsCoherent s now now' c h free = elim (Option-cases (Map.get c s.sessions)) [
  | inl gone ↦
      rw (gone, create_session) (create_new-IsCoherent s now now' c h (ap disconnected_at gone))
  | inr (session, e) ↦ elim (status-cases session.status) [
    | inl act ↦
        rw (e, act, create_session)
          (λ d. ground (
            arith,
            h d,
            Map.get-delete d c s.sessions,
            Map.get-set d c session (Map.delete c s.sessions),
          ))
    | inr dis ↦ absurd (ground arith)
  ]
]

pub get_internal_session-found :
    (s : SessionService) (now : ℕ) (c : String) (session : InternalSession)
    → (get_internal_session now c s).1 ≡ some session
    → Map.get c (get_internal_session now c s).0.sessions ≡ some session
unfolding get_internal_session
get_internal_session-found s now c session e = ground arith

-- A session is active or disconnected, and a message needs an active one.
pub add_message-IsCoherent :
    (s : SessionService) (now at now' now'' : ℕ) (c : String) (role : MessageRole)
    (content : String)
    → IsCoherent s
    → IsCoherent (add_message now at now' now'' c role content s).0
unfolding add_message
add_message-IsCoherent s now at now' now'' c role content h =
    let s' = (get_internal_session now c s).0 in
    let h' = get_internal_session-IsCoherent s h now c in
    elim (Option-cases (get_internal_session now c s).1) [
      | inl gone ↦ rw (gone, add_message) h'
      | inr (session, e) ↦ elim (Bool-cases (is_active session.status)) [
        | inl act ↦
            let message : SessionMessage = record {
              role = role;
              content = content;
              timestamp = at;
            } in
            let session' = record session {
              conversation_buffer = Buffer.push message session.conversation_buffer;
            } in
            rw (e, act, add_message)
              (touch_session-IsCoherent (put_session c session' s')
                (put_buffer-IsCoherent s' c session session' h'
                  (get_internal_session-found s now c session e) refl)
                now' now'' c)
        | inr dis ↦ rw (e, dis, add_message) h'
      ]
    ]
