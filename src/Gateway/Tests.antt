-- ===== src/Gateway/Tests.antt =====
-- The handlers at concrete inputs.
use text.Mathlib.TextEquality.{eq_iff}
use talksy.Common.{
  ◌==◌, ℕ, ◌≡◌, ◌≢◌, ◌+◌, ◌<◌, refl, false, true, leb, if◌then◌else◌, List, [], ◌∷◌, ◌++◌, map,
  none, some, arith, String, ok, throw, take_last, join, length,
}
use talksy.Common.Map
use talksy.Common.Slots
use talksy.Buffer.{CircularBuffer}
use talksy.Buffer.Contents.{Holds}
use talksy.StreamBatcher.{Arrival, batch_stream_chunks, batch_failed}
use talksy.StreamBatcher.Groups.{contents, Grouped}
use talksy.Session.{
  user, assistant, SessionConfig, SessionService, SessionMessage, InternalSession, new_session,
  get_internal_session,
}
use talksy.Session.Methods.{get_conversation_history, has_session}
use talksy.Session.Steps
use talksy.Session.History.{Live, said}
use talksy.Session.Coherent.{IsCoherent}
use talksy.Session.Capacity.{IsBounded}
use talksy.Ai.{AiCompletionResult}
use talksy.Gateway.{handle_connection, handle_disconnect}
use talksy.Gateway.Messages.{
  asking, user_message_begin, user_message_end, stream_end, batching, chunk_events, internal,
}
use talksy.Gateway.Reachable.{Reach, here, next, connects, disconnects, Reach-IsCoherent-IsBounded}
use talksy.Gateway.Conversation.{
  answer_event, user_message_end-user_message_begin, user_message_end_failed, user_message_end_lost,
}
use talksy.Tools.{Tool}
use talksy.Tools.Executor.Execute.{ToolExecutor, tracked}
use talksy.Gateway.ToolCalls.{ToolCallData, tool_call_begin, called, request_of}
use talksy.Gateway.Slots.{KeepsSlots, tool_call_begin-KeepsSlots}
use talksy.Gateway.Streaming.{
  shown, end_event, stream_end-text, stream_end-history, stream_end_failed,
}

abbrev Unit0 : Type 0
Unit0 = Unit {0}

abbrev config : SessionConfig
config = record {
  ttl_ms = 1000;
  max_history_length = 3;
  cleanup_interval_ms = 60;
  disconnect_grace_ms = 100;
  max_sessions = 3;
}

abbrev buffer : CircularBuffer SessionMessage
buffer = record { buffer = none ∷ none ∷ none ∷ []; head = 0; size = 0; capacity = 3 }

abbrev session : InternalSession
session = new_session 10 "a" config buffer

abbrev service : SessionService
service = record {
  sessions = ("a", session) ∷ [];
  expiration_timers = ("a", 1010) ∷ [];
  disconnect_timers = [];
  config = config;
}

buffer-Holds : Holds buffer []
unfolding Slots.view
buffer-Holds = record {
  positive = omega arith;
  storage = refl;
  inside = omega arith;
  filled = omega arith;
  linear = λ h. refl;
  counted = refl;
  shown = refl;
}

session-Live : Live service 50 "a" session []
unfolding Map.get
session-Live = record { found = refl; alive = omega arith; is_on = refl; holds = buffer-Holds }

abbrev hi : AiCompletionResult
hi = record { content = "hi"; rest = "stop" }

abbrev trim : String → String
trim text = text

hello_spoken : trim "hello" ≢ ""
hello_spoken p = let h : false ≡ true = (eq_iff "hello" "").1 p in cc

-- The client goes away and comes back.
abbrev gone : SessionService
gone =
    handle_disconnect (λ i. 20) "a"
      (handle_connection {N = Unit0} {R = Unit0} (λ i. 10) "a" (Steps.start config)).0

abbrev back : SessionService
back = (handle_connection {N = Unit0} {R = Unit0} (λ i. 30) "a" gone).0

back-Reach : Reach Unit0 Unit0 trim (Steps.start config) back
back-Reach =
    next (next (next here (connects (λ i. 10) "a")) (disconnects (λ i. 20) "a"))
      (connects (λ i. 30) "a")

Reach-IsCoherent-IsBounded_example : IsCoherent back × IsBounded config back
Reach-IsCoherent-IsBounded_example =
    Reach-IsCoherent-IsBounded Unit0 Unit0 trim config (omega arith) back-Reach

user_message_end-user_message_begin_example :
    let (s, turn) =
      user_message_begin {N = Unit0} {R = Unit0} trim (λ i. 50) "a" (some "hello") service in
    let (s', events) = user_message_end {N = Unit0} {R = Unit0} (λ i. 60) "a" (ok hi) s in
    let question = said user "hello" 50 in
    let answer = said assistant "hi" 60 in
    (turn ≡ asking (take_last 3 ([] ++ question ∷ [])) [])
    × (events ≡ answer_event "hi" 60 60 ∷ [])
    × ((get_conversation_history 70 "a" s').1 ≡ (
        if leb 70 (60 + 1000) then map some (take_last 3 ([] ++ question ∷ answer ∷ [])) else []))
user_message_end-user_message_begin_example =
    user_message_end-user_message_begin trim (λ i. 50) (λ i. 60) 70 "a" "hello" service session []
      hi session-Live hello_spoken (omega arith) (omega arith) (omega arith)

user_message_end_failed_example :
    let s =
      (user_message_begin {N = Unit0} {R = Unit0} trim (λ i. 50) "a" (some "hello") service).0 in
    let (s', events) = user_message_end {N = Unit0} {R = Unit0} (λ i. 60) "a" (throw "down") s in
    (events ≡ internal 60 ∷ [])
    × ((get_conversation_history 70 "a" s').1 ≡ (
        if leb 70 (50 + 1000)
        then map some (take_last 3 ([] ++ said user "hello" 50 ∷ []))
        else []))
user_message_end_failed_example =
    user_message_end_failed trim (λ i. 50) (λ i. 60) 70 "a" "hello" "down" service session []
      session-Live hello_spoken (omega arith) (omega arith)

no_session : has_session 60 "b" service ≡ false
unfolding has_session Map.get
no_session = refl

user_message_end_lost_example :
    user_message_end {N = Unit0} {R = Unit0} (λ i. 60) "b" (ok hi) service
    ≡ ((get_internal_session 60 "b" service).0, answer_event "hi" 60 60 ∷ [])
user_message_end_lost_example = user_message_end_lost (λ i. 60) "b" service hi no_session

abbrev arrival : String → Arrival
arrival text = record {
  chunk = record { content = text; done = none };
  looked_at = 50;
  resumed_at = 50;
}

abbrev stream : List Arrival
stream = arrival "Hel" ∷ arrival "lo" ∷ []

stream_not_empty : join (contents stream) ≢ ""
stream_not_empty p = let h : false ≡ true = (eq_iff (join (contents stream)) "").1 p in cc

stream_end-text_example :
    let batches = batch_stream_chunks batching 50 stream in
    let (s, events) =
      stream_end {N = Unit0} {R = Unit0} (λ i. 50) (λ i. 50) "a" batches none service in
    (events ≡ chunk_events (λ i. 50) batches ++ end_event (join (contents stream)) 50 50 ∷ [])
    × (shown events ≡ join (contents stream))
stream_end-text_example = stream_end-text (λ i. 50) (λ i. 50) 50 "a" stream service

stream_end-history_example :
    let batches = batch_stream_chunks batching 50 stream in
    let (s, events) =
      stream_end {N = Unit0} {R = Unit0} (λ i. 50) (λ i. 50) "a" batches none service in
    let answer = said assistant (join (contents stream)) 50 in
    (get_conversation_history 70 "a" s).1
    ≡ (if leb 70 (50 + 1000) then map some (take_last 3 ([] ++ answer ∷ [])) else [])
stream_end-history_example =
    stream_end-history Unit0 Unit0 (λ i. 50) (λ i. 50) 70 50 "a" stream service session []
      session-Live stream_not_empty

stream_end_failed_example :
    let batches = batch_failed batching [] 50 stream in
    let (s, events) =
      stream_end {N = Unit0} {R = Unit0} (λ i. 50) (λ i. 50) "a" batches (some "down") service in
    (s ≡ service)
    × (events ≡ chunk_events (λ i. 50) batches ++ internal 50 ∷ [])
    × ((taken : List String) × (lost : List String) × (taken ++ lost ≡ contents stream)
        × (length lost < 5)
        × Grouped batching taken batches
        × (shown events ≡ join taken))
stream_end_failed_example = stream_end_failed (λ i. 50) (λ i. 50) 50 "a" "down" stream service

-- A tool that has no parameters.
abbrev dice : Tool ℕ ℕ
dice = record {
  definition = record {
    name = "dice";
    description = "rolls";
    parameters = record { properties = []; required = none };
    category = none;
    version = none;
    deprecated = none;
    timeout = none;
  };
  handler = 0;
}

abbrev executor : ToolExecutor ℕ ℕ
executor = record {
  registry = record { tools = ("dice", dice) ∷ []; categories = λ c. [] };
  config = record {
    default_timeout_ms = 30000;
    max_concurrent_executions = 2;
    max_parameter_size = 1000;
  };
  active_executions = [];
}

abbrev call : ToolCallData ℕ
call = record { tool_name = some "dice"; parameters = none; call_id = none }

nothing_tracked : (id : String) → Map.get id (tracked "a" executor) ≡ none
unfolding Map.get
nothing_tracked id = refl

tool_call_begin-KeepsSlots_example :
    KeepsSlots "a" executor
      (tool_call_begin {R = ℕ} (λ m n. m == n) (λ i. 50) (some 2) "id" "a" call service executor)
tool_call_begin-KeepsSlots_example =
    tool_call_begin-KeepsSlots ℕ (λ m n. m == n) (λ i. 50) (some 2) "id" "a" call service executor
      (λ name e. nothing_tracked "id")

call_runs :
    (tool_call_begin {R = ℕ} (λ m n. m == n) (λ i. 50) (some 2) "id" "a" call service executor).1
    ≡ called (request_of "dice" call) "id" dice 30000
unfolding tool_call_begin talksy.Tools.Executor.Execute.begin Map.get has_session
    talksy.Tools.Executor.validate_parameters talksy.Tools.Executor.find_bad
call_runs = refl
