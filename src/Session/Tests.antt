-- ===== src/Session/Tests.antt =====
-- The sessions at concrete inputs.
use talksy.Common.{◌≡◌, refl, true, [], ◌∷◌, none, some, arith}
use talksy.Common.Map
use talksy.Common.Slots
use talksy.Buffer.{CircularBuffer}
use talksy.Buffer.Contents.{Holds}
use talksy.Session.{
  disconnected, SessionConfig, SessionService, SessionMessage, InternalSession, create_session,
  new_session,
}
use talksy.Session.Methods.{has_disconnected_session, mark_disconnected, handle_timer}
use talksy.Session.Coherent.{IsCoherent, active_at}
use talksy.Session.Steps.{
  start, Reach, create, disconnect, here, next, Reach-IsCoherent, create_session-stale_timer,
}
use talksy.Session.History.{Live}

abbrev config : SessionConfig
config = record {
  ttl_ms = 1000;
  max_history_length = 2;
  cleanup_interval_ms = 60;
  disconnect_grace_ms = 100;
  max_sessions = 3;
}

abbrev opened : SessionService
opened = (create_session 10 10 "a" (start config)).0

abbrev waiting : SessionService
waiting = (mark_disconnected 20 20 "a" opened).0

opening : Reach (start config) opened
unfolding start Map.get has_disconnected_session
opening = next here (create 10 10 "a" refl)

waiting-Reach : Reach (start config) waiting
waiting-Reach = next opening (disconnect 20 20 "a")

Reach-IsCoherent_example : IsCoherent waiting
Reach-IsCoherent_example = Reach-IsCoherent config waiting-Reach

abbrev buffer : CircularBuffer SessionMessage
buffer = record { buffer = none ∷ none ∷ []; head = 0; size = 0; capacity = 2 }

abbrev session : InternalSession
session = new_session 10 "a" config buffer

-- The session of "a" has been disconnected; its timer is due at 120.
abbrev left_session : InternalSession
left_session = record session { status = disconnected; disconnected_at = some 20 }

abbrev left_service : SessionService
left_service = record {
  sessions = ("a", left_session) ∷ [];
  expiration_timers = [];
  disconnect_timers = ("a", 120) ∷ [];
  config = config;
}

left_service-IsCoherent : IsCoherent left_service
unfolding Map.get
left_service-IsCoherent c = record { expiring = ground arith; waiting = ground arith }

left_service-get : Map.get "a" left_service.sessions ≡ some left_session
unfolding Map.get
left_service-get = refl

create_session-stale_timer_example :
    let s = (create_session 30 30 "a" left_service).0 in
    (active_at (Map.get "a" s.sessions) ≡ true)
    × (Map.has "a" s.disconnect_timers ≡ true)
    × (Map.get "a" (handle_timer "a" s).sessions ≡ none)
create_session-stale_timer_example =
    create_session-stale_timer left_service 30 30 "a" left_session left_service-IsCoherent
      left_service-get refl (omega arith) (omega arith)

abbrev live_service : SessionService
live_service = record {
  sessions = ("a", session) ∷ [];
  expiration_timers = ("a", 1010) ∷ [];
  disconnect_timers = [];
  config = config;
}

buffer-Holds : Holds buffer []
unfolding Slots.view
buffer-Holds = record {
  positive = omega arith;
  storage = refl;
  inside = omega arith;
  filled = omega arith;
  linear = λ h. refl;
  counted = refl;
  shown = refl;
}

session-Live : Live live_service 50 "a" session []
unfolding Map.get
session-Live = record { found = refl; alive = omega arith; is_on = refl; holds = buffer-Holds }
