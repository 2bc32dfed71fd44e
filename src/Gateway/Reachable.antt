-- ===== src/Gateway/Reachable.antt =====
-- The handlers of the gateway and the timers of the sessions, interleaved in any way: the states that the
-- sessions can be in.
use talksy.Common.{
  ℕ, ◌≡◌, ◌≢◌, ◌≤◌, true, false, List, Option, none, some, arith, String, Result, ok, throw,
  Bool-cases, Option-cases, inl, inr, str_dec, both, both_ite,
}
use talksy.Common.Map
use talksy.StreamBatcher.{BatchedChunk}
use talksy.Session.{SessionConfig, SessionService, get_internal_session}
use talksy.Session.Methods.{
  has_disconnected_session, reconnect_session, cleanup_expired_sessions, handle_timer, has_session,
  get_conversation_history, get_session_info,
}
use talksy.Session.Coherent.{IsCoherent}
use talksy.Session.Steps
use talksy.Session.Steps.{Reach-IsCoherent}
use talksy.Session.Capacity.{IsBounded}
use talksy.Session.Capacity.Reachable.{Reach-IsBounded}
use talksy.Ai.{AiCompletionResult}
use talksy.Gateway.{
  handle_connection, connect_new, handle_disconnect, handle_get_history, handle_get_session_info,
}
use talksy.Gateway.Messages.{
  Taken, take_message, user_message_begin, user_message_end, stream_begin, stream_end, is_blank,
}

module _ (N R : Type 0) (trim : String → String) where
  -- A handler that waits may go on at any time, with any answer.
  pub data Step (s : SessionService) : SessionService → Type 0 where
    connects : (clock : ℕ → ℕ) (c : String) → Step s (handle_connection {N = N} {R = R} clock c s).0
    disconnects : (clock : ℕ → ℕ) (c : String) → Step s (handle_disconnect clock c s)
    message_begins :
        (clock : ℕ → ℕ) (c : String) (text : Option String)
        → Step s (user_message_begin {N = N} {R = R} trim clock c text s).0
    message_ends :
        (clock : ℕ → ℕ) (c : String) (answer : Result AiCompletionResult)
        → Step s (user_message_end {N = N} {R = R} clock c answer s).0
    stream_begins :
        (clock : ℕ → ℕ) (c : String) (text : Option String)
        → Step s (stream_begin {N = N} {R = R} trim clock c text s).0
    stream_ends :
        (chunk_clock clock : ℕ → ℕ) (c : String) (batches : List BatchedChunk)
        (failure : Option String)
        → Step s (stream_end {N = N} {R = R} chunk_clock clock c batches failure s).0
    asks_history :
        (clock : ℕ → ℕ) (c : String) → Step s (handle_get_history {N = N} {R = R} clock c s).0
    asks_info :
        (clock : ℕ → ℕ) (c : String) → Step s (handle_get_session_info {N = N} {R = R} clock c s).0
    cleanup : (now : ℕ) → Step s (cleanup_expired_sessions now s)
    expiration : (c : String) → Map.has c s.expiration_timers ≡ true → Step s (handle_timer c s)
    grace_over : (c : String) → Map.has c s.disconnect_timers ≡ true → Step s (handle_timer c s)

  pub data Reach (s : SessionService) : SessionService → Type 0 where
    here : Reach s s
    next : {t u : SessionService} → Reach s t → Step t u → Reach s u

  module _ (s0 : SessionService) where
    abbrev Known : SessionService → Type 0
    Known s = Steps.Reach s0 s

    -- A client with a disconnected session gets it back.
    reconnect_session-found :
        (now now' : ℕ) (c : String) (s : SessionService)
        → has_disconnected_session c s ≡ true
        → (reconnect_session now now' c s).1 ≢ none
    unfolding has_disconnected_session reconnect_session
    reconnect_session-found now now' c s h = ground arith

    connect_new-Reach :
        (clock : ℕ → ℕ) (c : String) (s : SessionService)
        → has_disconnected_session c s ≡ false
        → Known s
        → Known (connect_new {N = N} {R = R} clock c s).0
    unfolding connect_new
    connect_new-Reach clock c s free r = Steps.next r (Steps.create (clock 0) (clock 1) c free)

    handle_connection-Reach :
        (clock : ℕ → ℕ) (c : String) (s : SessionService)
        → Known s
        → Known (handle_connection {N = N} {R = R} clock c s).0
    unfolding handle_connection
    handle_connection-Reach clock c s r = elim (Bool-cases (has_disconnected_session c s)) [
      | inr free ↦ rw free (connect_new-Reach clock c s free r)
      | inl waits ↦ elim (Option-cases (reconnect_session (clock 0) (clock 1) c s).1) [
        | inl gone ↦ absurd (reconnect_session-found (clock 0) (clock 1) c s waits gone)
        | inr (session, found) ↦
            rw (waits, found) (Steps.next r (Steps.reconnect (clock 0) (clock 1) c))
      ]
    ]

    look_up-Reach :
        (now : ℕ) (c : String) (s : SessionService)
        → Known s
        → Known (get_conversation_history now c s).0
    unfolding get_conversation_history
    look_up-Reach now c s r = Steps.next r (Steps.look_up now c)

    info-Reach :
        (now : ℕ) (c : String) (s : SessionService) → Known s → Known (get_session_info now c s).0
    unfolding get_session_info
    info-Reach now c s r = elim (Option-cases (get_internal_session now c s).1) [
      | inl gone ↦ rw (gone, get_session_info) (Steps.next r (Steps.look_up now c))
      | inr (session, found) ↦ rw (found, get_session_info) (Steps.next r (Steps.look_up now c))
    ]

    take_message-Reach :
        (clock : ℕ → ℕ) (c : String) (text : Option String) (s : SessionService)
        → Known s
        → Known (take_message {N = N} {R = R} trim clock c text s).0
    unfolding take_message
    take_message-Reach clock c none s r = r
    take_message-Reach clock c (some text) s r =
        both (λ (x : SessionService × Taken N R). Known x.0) (is_blank trim text) r
          (both (λ (x : SessionService × Taken N R). Known x.0) (has_session (clock 0) c s)
            (look_up-Reach (clock 5) c _
              (Steps.next r (Steps.message (clock 1) (clock 2) (clock 3) (clock 4) c _ text)))
            r)

    user_message_end-Reach :
        (clock : ℕ → ℕ) (c : String) (answer : Result AiCompletionResult) (s : SessionService)
        → Known s
        → Known (user_message_end {N = N} {R = R} clock c answer s).0
    unfolding user_message_end
    user_message_end-Reach clock c (throw message) s r = r
    user_message_end-Reach clock c (ok result) s r =
        Steps.next r (Steps.message (clock 1) (clock 2) (clock 3) (clock 4) c _ result.content)

    stream_end-Reach :
        (chunk_clock clock : ℕ → ℕ) (c : String) (batches : List BatchedChunk)
        (failure : Option String) (s : SessionService)
        → Known s
        → Known (stream_end {N = N} {R = R} chunk_clock clock c batches failure s).0
    unfolding stream_end
    stream_end-Reach chunk_clock clock c batches (some message) s r = r
    stream_end-Reach chunk_clock clock c batches none s r =
        both_ite Known (str_dec _ "") r
          (Steps.next r (Steps.message (clock 0) (clock 1) (clock 2) (clock 3) c _ _))

    Step-Reach : {s t : SessionService} → Step s t → Known s → Known t
    unfolding user_message_begin stream_begin handle_disconnect handle_get_history
        handle_get_session_info
    Step-Reach {s} (connects clock c) r = handle_connection-Reach clock c s r
    Step-Reach {s} (disconnects clock c) r = Steps.next r (Steps.disconnect (clock 0) (clock 1) c)
    Step-Reach {s} (message_begins clock c text) r = take_message-Reach clock c text s r
    Step-Reach {s} (message_ends clock c answer) r = user_message_end-Reach clock c answer s r
    Step-Reach {s} (stream_begins clock c text) r = take_message-Reach clock c text s r
    Step-Reach {s} (stream_ends chunk_clock clock c batches failure) r =
        stream_end-Reach chunk_clock clock c batches failure s r
    Step-Reach {s} (asks_history clock c) r = look_up-Reach (clock 0) c s r
    Step-Reach {s} (asks_info clock c) r = info-Reach (clock 0) c s r
    Step-Reach (cleanup now) r = Steps.next r (Steps.cleanup now)
    Step-Reach (expiration c armed) r = Steps.next r (Steps.expiration c armed)
    Step-Reach (grace_over c armed) r = Steps.next r (Steps.grace_over c armed)

    Reach-Reach : {s : SessionService} → Reach s0 s → Known s
    Reach-Reach here = Steps.here
    Reach-Reach (next r step) = Step-Reach step (Reach-Reach r)

  -- However the handlers of the gateway and the timers interleave, and whatever the AI answers: each active
  -- session has an expiration timer and no disconnect timer, each disconnected session the other way
  -- round, and a client without a session has neither; no client has two sessions, and there are no
  -- more than `maxSessions`, where that is at least one.
  pub Reach-IsCoherent-IsBounded :
      (config : SessionConfig) {s : SessionService}
      → 1 ≤ config.max_sessions
      → Reach (Steps.start config) s
      → IsCoherent s × IsBounded config s
  Reach-IsCoherent-IsBounded config pos r =
      let known = Reach-Reach (Steps.start config) r in
      (Reach-IsCoherent config known, Reach-IsBounded config pos known)
