-- ===== src/Session/Capacity/Reachable.antt =====
-- How many sessions the store holds: creating one, and all states that can be reached.
use talksy.Common.{
  ℕ, ◌≤◌, ◌<◌, ◌≡◌, refl, ap, leb, arith, String, Bool-cases, Option-cases, inl, inr,
}
use talksy.Common.Map
use talksy.Common.Map.{Map, Distinct}
use talksy.Buffer
use talksy.Session.{
  SessionConfig, SessionService, MessageRole, SessionMessage, create_session, create_new,
  add_session, evict_first, evict_lru_session, get_internal_session, is_active, new_session,
}
use talksy.Session.Methods.{put_session, add_message, cleanup_expired_sessions, handle_timer}
use talksy.Session.Coherent.{Result-cases, get_internal_session-found}
use talksy.Session.Steps.{
  start, Step, create, destroy, disconnect, reconnect, touch, look_up, message, force_expire,
  clear_all, cleanup, expiration, grace_over, Reach, here, next,
}
use talksy.Session.Capacity.{
  IsBounded, destroy_session-IsBounded, get_internal_session-IsBounded, put_session-IsBounded,
  move_session-IsBounded, set_expiration_timer-IsBounded, evict_first-room, touch_session-IsBounded,
  mark_disconnected-IsBounded, reconnect_session-IsBounded, force_expire_session-IsBounded,
  clear_all_sessions-IsBounded, cleanup_loop-IsBounded,
}

add_session-IsBounded :
    (config : SessionConfig) (s : SessionService) (now now' : ℕ) (c : String)
    → IsBounded config s
    → Map.size s.sessions < config.max_sessions
    → IsBounded config (add_session now now' c s).0
unfolding add_session
add_session-IsBounded config s now now' c h room =
    elim (Result-cases (Buffer.create {T = SessionMessage} s.config.max_history_length)) [
      | inl (buffer, e) ↦
          let session = new_session now c s.config buffer in
          rw (e, add_session)
            (set_expiration_timer-IsBounded config (put_session c session s)
              (record {
                same = h.same;
                distinct = Map.set-Distinct c session s.sessions h.distinct;
                few = ground (arith, Map.size-set c session s.sessions);
              })
              now' c)
      | inr (error, e) ↦ rw (e, add_session) h
    ]

create_new-IsBounded :
    (config : SessionConfig) (s : SessionService) (now now' : ℕ) (c : String)
    → IsBounded config s
    → 1 ≤ config.max_sessions
    → IsBounded config (create_new now now' c s).0
unfolding create_new evict_lru_session
create_new-IsBounded config s now now' c h pos =
    elim (Bool-cases (leb s.config.max_sessions (Map.size s.sessions))) [
      | inl full ↦
          let (h', room) = evict_first-room config s h s.sessions refl pos in
          rw full (add_session-IsBounded config (evict_first s.sessions s) now now' c h' room)
      | inr free ↦
          let limit : s.config.max_sessions ≡ config.max_sessions =
            ap (λ k. k.max_sessions) h.same in
          let room : Map.size s.sessions < config.max_sessions = ground arith in
          rw free (add_session-IsBounded config s now now' c h room)
    ]

create_session-IsBounded :
    (config : SessionConfig) (s : SessionService) (now now' : ℕ) (c : String)
    → IsBounded config s
    → 1 ≤ config.max_sessions
    → IsBounded config (create_session now now' c s).0
unfolding create_session
create_session-IsBounded config s now now' c h pos =
    let new = create_new-IsBounded config s now now' c h pos in
    elim (Option-cases (Map.get c s.sessions)) [
      | inl gone ↦ rw (gone, create_session) new
      | inr (session, found) ↦ elim (Bool-cases (is_active session.status)) [
        | inl on ↦
            rw (found, on, create_session)
              (move_session-IsBounded config s h c session session found)
        | inr off ↦ rw (found, off, create_session) new
      ]
    ]

add_message-IsBounded :
    (config : SessionConfig) (s : SessionService) (now at now' now'' : ℕ) (c : String)
    (role : MessageRole) (content : String)
    → IsBounded config s
    → IsBounded config (add_message now at now' now'' c role content s).0
unfolding add_message
add_message-IsBounded config s now at now' now'' c role content h =
    let s' = (get_internal_session now c s).0 in
    let h' = get_internal_session-IsBounded config s h now c in
    elim (Option-cases (get_internal_session now c s).1) [
      | inl gone ↦ rw (gone, add_message) h'
      | inr (session, e) ↦ elim (Bool-cases (is_active session.status)) [
        | inl on ↦
            let said : SessionMessage = record { role = role; content = content; timestamp = at } in
            let grown = record session {
              conversation_buffer = Buffer.push said session.conversation_buffer;
            } in
            rw (e, on, add_message)
              (touch_session-IsBounded config (put_session c grown s')
                (put_session-IsBounded config s' h' c session grown
                  (get_internal_session-found s now c session e))
                now' now'' c)
        | inr off ↦ rw (e, off, add_message) h'
      ]
    ]

Step-IsBounded :
    (config : SessionConfig) {s t : SessionService}
    → 1 ≤ config.max_sessions
    → Step s t
    → IsBounded config s
    → IsBounded config t
unfolding cleanup_expired_sessions handle_timer
Step-IsBounded config {s} pos (create now now' c free) h =
    create_session-IsBounded config s now now' c h pos
Step-IsBounded config {s} pos (destroy c) h = destroy_session-IsBounded config s h c
Step-IsBounded config {s} pos (disconnect now now' c) h =
    mark_disconnected-IsBounded config s h now now' c
Step-IsBounded config {s} pos (reconnect now now' c) h =
    reconnect_session-IsBounded config s h now now' c
Step-IsBounded config {s} pos (touch now now' c) h = touch_session-IsBounded config s h now now' c
Step-IsBounded config {s} pos (look_up now c) h = get_internal_session-IsBounded config s h now c
Step-IsBounded config {s} pos (message now at now' now'' c role content) h =
    add_message-IsBounded config s now at now' now'' c role content h
Step-IsBounded config {s} pos (force_expire now c) h =
    force_expire_session-IsBounded config s h now c
Step-IsBounded config {s} pos clear_all h = clear_all_sessions-IsBounded config s h
Step-IsBounded config {s} pos (cleanup now) h = cleanup_loop-IsBounded config now s.sessions s h
Step-IsBounded config {s} pos (expiration c armed) h = destroy_session-IsBounded config s h c
Step-IsBounded config {s} pos (grace_over c armed) h = destroy_session-IsBounded config s h c

-- In every state that is reached from a new service by its methods and its timers, no client has two
-- sessions, and there are no more than `maxSessions`, where that is at least one.
pub Reach-IsBounded :
    (config : SessionConfig) {s : SessionService}
    → 1 ≤ config.max_sessions
    → Reach (start config) s
    → IsBounded config s
unfolding start
Reach-IsBounded config pos here = record { same = refl; distinct = tt; few = omega arith }
Reach-IsBounded config pos (next r step) =
    Step-IsBounded config pos step (Reach-IsBounded config pos r)
