-- ===== src/RateLimit.antt =====
-- src/rate-limit/rate-limit.service.ts and rate-limit.guard.ts: the class `RateLimitService`, and the
-- guard that consumes one request of the client. Each reading of the clock is an argument; a method
-- that reads it twice takes both readings. What is logged is left out.
pub mod Limiter
pub mod Refine
pub mod Cleanup
pub mod Calls
mod Tests
use talksy.Common.{
  ℕ, ◌+◌, ◌-◌, ◌/◌, Bool, true, false, ltb, leb, ◌==◌, if◌then◌else◌, List, [], ◌∷◌, Option, none,
  some, String, max, Result, ok, throw,
}
use talksy.Common.Map
use talksy.Common.Map.{Map}
use talksy.Window.{SlidingWindow, get_count, get_oldest, is_empty, record_at}
use talksy.Window

pub record RateLimitConfig : Type 0 where
  pub window_ms : ℕ
  pub max_requests : ℕ
  pub enabled : Bool

pub record RateLimitResult : Type 0 where
  pub allowed : Bool
  pub remaining : ℕ
  pub reset_at : ℕ
  pub retry_after : Option ℕ

pub record RateLimitService : Type 0 where
  pub windows : Map SlidingWindow
  pub config : RateLimitConfig

abbrev pub or_else : Option ℕ → ℕ → ℕ
or_else none d = d
or_else (some n) d = n

-- The client's window, or a new one where there is none.
unfoldable pub client_window : RateLimitService → String → SlidingWindow
client_window s client_id = elim (Map.get client_id s.windows) [
  | none ↦ Window.create s.config.max_requests s.config.window_ms
  | some w ↦ w
]

-- The object in the map is the one that the methods of the window change.
abbrev pub put_window : RateLimitService → String → SlidingWindow → RateLimitService
put_window s client_id w = record s { windows = Map.set client_id w s.windows }

-- `Math.ceil(ms / 1000)`
abbrev pub ceil_seconds : ℕ → ℕ
ceil_seconds ms = (ms + 999) / 1000

unfoldable pub check_limit : ℕ → String → RateLimitService → RateLimitService × RateLimitResult
unfolding client_window
check_limit now client_id s =
    let (w, current_count) = get_count now (client_window s client_id) in
    let (w', oldest) = get_oldest now w in
    let reset_at = or_else oldest now + s.config.window_ms in
    if s.config.enabled
    then (
      put_window s client_id w',
      if leb s.config.max_requests current_count
          then record {
            allowed = false;
            remaining = 0;
            reset_at = reset_at;
            retry_after = some (ceil_seconds (reset_at - now));
          }
          else record {
            allowed = true;
            remaining = s.config.max_requests - current_count;
            reset_at = reset_at;
            retry_after = none;
          },
    )
    else (
      s,
      record {
        allowed = true;
        remaining = s.config.max_requests;
        reset_at = now + s.config.window_ms;
        retry_after = none;
      },
    )

-- The debug message calls `getCount` once more, which changes the window.
unfoldable pub record_request : ℕ → String → RateLimitService → RateLimitService
unfolding client_window
record_request now client_id s =
    if s.config.enabled
    then put_window s client_id (get_count now (record_at now (client_window s client_id))).0
    else s

-- `consume` reads the clock in `checkLimit` and again in `recordRequest`.
unfoldable pub consume : ℕ → ℕ → String → RateLimitService → RateLimitService × RateLimitResult
consume now now' client_id s =
    let (s', result) = check_limit now client_id s in
    if result.allowed
    then (record_request now' client_id s', record result { remaining = result.remaining - 1 })
    else (s', result)

unfoldable pub get_request_count : ℕ → String → RateLimitService → RateLimitService × ℕ
get_request_count now client_id s = elim (Map.get client_id s.windows) [
  | none ↦ (s, 0)
  | some w ↦ let (w', n) = get_count now w in (put_window s client_id w', n)
]

unfoldable pub reset_client : String → RateLimitService → RateLimitService
reset_client client_id s = record s { windows = Map.delete client_id s.windows }

unfoldable pub clear_all : RateLimitService → RateLimitService
clear_all s = record s { windows = [] }

-- The loop of `cleanupOldEntries`: a window that is empty goes, and the others have been cleaned.
unfoldable pub cleanup_windows : ℕ → Map SlidingWindow → Map SlidingWindow
cleanup_windows now [] = []
cleanup_windows now ((client_id, w) ∷ ws) =
    let rest = cleanup_windows now ws in
    let (w', empty) = is_empty now w in if empty then rest else (client_id, w') ∷ rest

unfoldable pub cleanup_old_entries : ℕ → RateLimitService → RateLimitService
unfolding cleanup_windows
cleanup_old_entries now s = record s { windows = cleanup_windows now s.windows }

-- The event that the guard emits to the client, and the exception that it throws.
pub data GuardOutcome : Type 0 where
  pass : GuardOutcome
  reject : (retry_after : Option ℕ) → (emitted : RateLimitResult) → GuardOutcome

-- `RateLimitGuard.canActivate`
unfoldable pub can_activate : ℕ → ℕ → String → RateLimitService → RateLimitService × GuardOutcome
can_activate now now' client_id s =
    let (s', result) = consume now now' client_id s in
    if s.config.enabled
    then (if result.allowed then (s', pass) else (s', reject result.retry_after result))
    else (s, pass)
