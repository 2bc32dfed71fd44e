-- ===== src/Session/Capacity.antt =====
-- How many sessions the store holds: what each method keeps.
pub mod Reachable
use talksy.Common.{
  ℕ, suc, ◌+◌, ◌-◌, ◌≤◌, ◌<◌, ◌≡◌, refl, sym, ap, ◌∙◌, subst, Bool, true, false, leb, ltb, ◌&&◌,
  if◌then◌else◌, List, [], ◌∷◌, Option, none, some, arith, String, Result, ok, throw, Bool-cases,
  Option-cases, inl, inr, str_dec, if_pos,
}
use talksy.Common.Map
use talksy.Common.Map.{Map, Distinct}
use talksy.Buffer
use talksy.Session.{
  active, disconnected, InternalSession, SessionConfig, SessionService, MessageRole, SessionMessage,
  destroy_session, create_session, create_new, add_session, evict_first, evict_lru_session,
  get_internal_session, set_expiration_timer, set_disconnect_timer, clear_expiration_timer,
  clear_disconnect_timer, is_active, is_disconnected, new_session, is_session_expired,
}
use talksy.Session.Methods.{
  put_session, mark_disconnected, reconnect_session, has_disconnected_session, touch_session,
  add_message, clear_all_sessions, force_expire_session, cleanup_loop, cleanup_expired_sessions,
  handle_timer,
}
use talksy.Session.Coherent.{Result-cases, get_internal_session-found}
use talksy.Session.Steps.{
  start, Step, create, destroy, disconnect, reconnect, touch, look_up, message, force_expire,
  clear_all, cleanup, expiration, grace_over, Reach, here, next,
}

-- No client has two sessions, and there are no more than the configuration allows.
pub record IsBounded (config : SessionConfig) (s : SessionService) : Type 0 where
  pub same : s.config ≡ config
  pub distinct : Distinct s.sessions
  pub few : Map.size s.sessions ≤ config.max_sessions

module _ (config : SessionConfig) (s : SessionService) (h : IsBounded config s) where
  destroy_session-IsBounded : (c : String) → IsBounded config (destroy_session c s).0
  unfolding destroy_session
  destroy_session-IsBounded c = record {
    same = ground (arith, h.same);
    distinct = ground (arith, h.distinct, Map.delete-Distinct c s.sessions h.distinct);
    few = ground (arith, h.few, Map.size-delete-le c s.sessions);
  }

  get_internal_session-IsBounded :
      (now : ℕ) (c : String) → IsBounded config (get_internal_session now c s).0
  unfolding get_internal_session
  get_internal_session-IsBounded now c = elim (Option-cases (Map.get c s.sessions)) [
    | inl gone ↦ rw (gone, get_internal_session) h
    | inr (session, found) ↦ elim (Bool-cases (is_session_expired now session)) [
      | inl old ↦ rw (found, old, get_internal_session) (destroy_session-IsBounded c)
      | inr live ↦ rw (found, live, get_internal_session) h
    ]
  ]

  put_session-IsBounded :
      (c : String) (old new : InternalSession)
      → Map.get c s.sessions ≡ some old
      → IsBounded config (put_session c new s)
  put_session-IsBounded c old new found = record {
    same = h.same;
    distinct = Map.set-Distinct c new s.sessions h.distinct;
    few = ground (arith, h.few, Map.size-set c new s.sessions);
  }

  move_session-IsBounded :
      (c : String) (old new : InternalSession)
      → Map.get c s.sessions ≡ some old
      → IsBounded config (record s { sessions = Map.set c new (Map.delete c s.sessions) })
  move_session-IsBounded c old new found = record {
    same = h.same;
    distinct = Map.set-Distinct c new _ (Map.delete-Distinct c s.sessions h.distinct);
    few = omega (arith, h.few, Map.size-set-delete c old new s.sessions h.distinct found);
  }

  set_expiration_timer-IsBounded :
      (now : ℕ) (c : String) → IsBounded config (set_expiration_timer now c s)
  unfolding set_expiration_timer
  set_expiration_timer-IsBounded now c = record {
    same = ground (arith, h.same);
    distinct = ground (arith, h.distinct);
    few = ground (arith, h.few);
  }

  sessions-destroy_session :
      (c : String) (session : InternalSession)
      → Map.get c s.sessions ≡ some session
      → (destroy_session c s).0.sessions ≡ Map.delete c s.sessions
  unfolding destroy_session
  sessions-destroy_session c session found = ground arith

  evict_first-room :
      (m : Map InternalSession)
      → s.sessions ≡ m
      → 1 ≤ config.max_sessions
      → let s' = evict_first m s in
        IsBounded config s' × (Map.size s'.sessions < config.max_sessions)
  unfolding evict_first Map.get
  evict_first-room [] e pos = (h, omega (arith, ap Map.size e))
  evict_first-room ((k, session) ∷ rest) e pos =
      let found : Map.get k s.sessions ≡ some session =
        ap (Map.get k) e ∙ if_pos (str_dec k k) refl _ _ in
      (
        destroy_session-IsBounded k,
        ground (
          arith,
          h.few,
          sessions-destroy_session k session found,
          Map.size-delete k s.sessions h.distinct,
        ),
      )

module _ (config : SessionConfig) (s : SessionService) (h : IsBounded config s) where
  touch_session-IsBounded :
      (now now' : ℕ) (c : String) → IsBounded config (touch_session now now' c s).0
  unfolding touch_session
  touch_session-IsBounded now now' c = elim (Option-cases (Map.get c s.sessions)) [
    | inl gone ↦ rw (gone, touch_session) h
    | inr (session, found) ↦ elim (Bool-cases (is_active session.status)) [
      | inl on ↦
          rw (found, on, touch_session)
            (set_expiration_timer-IsBounded config _
              (move_session-IsBounded config s h c session _ found) now' c)
      | inr off ↦ rw (found, off, touch_session) h
    ]
  ]

  mark_disconnected-IsBounded :
      (now now' : ℕ) (c : String) → IsBounded config (mark_disconnected now now' c s).0
  unfolding mark_disconnected set_disconnect_timer clear_expiration_timer
  mark_disconnected-IsBounded now now' c = elim (Option-cases (Map.get c s.sessions)) [
    | inl gone ↦ rw (gone, mark_disconnected) h
    | inr (session, found) ↦ elim (Bool-cases (is_disconnected session.status)) [
      | inl off ↦ rw (found, off, mark_disconnected) h
      | inr on ↦
          let b =
            put_session-IsBounded config s h c session
              (record session { status = disconnected; disconnected_at = some now }) found in
          rw (found, on, mark_disconnected)
            (record { same = b.same; distinct = b.distinct; few = b.few })
    ]
  ]

  reconnect_session-IsBounded :
      (now now' : ℕ) (c : String) → IsBounded config (reconnect_session now now' c s).0
  unfolding reconnect_session clear_disconnect_timer
  reconnect_session-IsBounded now now' c = elim (Option-cases (Map.get c s.sessions)) [
    | inl gone ↦ rw (gone, reconnect_session) h
    | inr (session, found) ↦ elim (Bool-cases (is_disconnected session.status)) [
      | inl off ↦
          let b =
            put_session-IsBounded config s h c session
              (record session {
                status = active;
                last_activity_at = now;
                expires_at = now + s.config.ttl_ms;
                disconnected_at = none;
              })
              found in
          rw (found, off, reconnect_session)
            (set_expiration_timer-IsBounded config _
              (record { same = b.same; distinct = b.distinct; few = b.few }) now' c)
      | inr on ↦ rw (found, on, reconnect_session) h
    ]
  ]

  force_expire_session-IsBounded :
      (now : ℕ) (c : String) → IsBounded config (force_expire_session now c s).0
  unfolding force_expire_session
  force_expire_session-IsBounded now c = elim (Option-cases (Map.get c s.sessions)) [
    | inl gone ↦ rw (gone, force_expire_session) h
    | inr (session, found) ↦
        rw (found, force_expire_session) (put_session-IsBounded config s h c session _ found)
  ]

  clear_all_sessions-IsBounded : IsBounded config (clear_all_sessions s)
  unfolding clear_all_sessions
  clear_all_sessions-IsBounded = record { same = h.same; distinct = tt; few = omega arith }

cleanup_loop-IsBounded :
    (config : SessionConfig) (now : ℕ) (m : Map InternalSession) (s : SessionService)
    → IsBounded config s
    → IsBounded config (cleanup_loop now m s)
unfolding cleanup_loop
cleanup_loop-IsBounded config now [] s h = h
cleanup_loop-IsBounded config now ((c, session) ∷ rest) s h =
    elim (Bool-cases (is_session_expired now session && is_active session.status)) [
      | inl old ↦ rw old (
          cleanup_loop-IsBounded config now rest (destroy_session c s).0
            (destroy_session-IsBounded config s h c))
      | inr live ↦ rw live (cleanup_loop-IsBounded config now rest s h)
    ]
