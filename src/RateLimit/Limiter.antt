-- ===== src/RateLimit/Limiter.antt =====
-- What the rate limiter promises: per client, a log of every request that was let through, and a request
-- is let through if the log has fewer than `max_requests` entries in the window that ends now.
use talksy.Common.{
  ℕ, ◌-◌, ◌≤◌, Bool, true, ltb, if◌then◌else◌, List, [], ◌∷◌, ◌++◌, String, str_dec, ite,
}
use talksy.Window.Live.{count_live}
use talksy.RateLimit.{
  RateLimitConfig, RateLimitService, consume, get_request_count, reset_client, clear_all,
  cleanup_old_entries,
}

-- The calls of the service, each with the times that it reads.
pub data Call : Type 0 where
  consume_call : (now now' : ℕ) (client : String) → Call
  count_call : (now : ℕ) (client : String) → Call
  reset_call : (client : String) → Call
  clear_call : Call
  cleanup_call : (now : ℕ) → Call

pub data Reply : Type 0 where
  decided : (allowed : Bool) (remaining : ℕ) → Reply
  counted : ℕ → Reply
  done : Reply

-- The calls in turn, as the service answers them.
unfoldable pub run : List Call → RateLimitService → List Reply
run [] s = []
run (consume_call now now' c ∷ calls) s =
    let (s', r) = consume now now' c s in decided r.allowed r.remaining ∷ run calls s'
run (count_call now c ∷ calls) s =
    let (s', n) = get_request_count now c s in counted n ∷ run calls s'
run (reset_call c ∷ calls) s = done ∷ run calls (reset_client c s)
run (clear_call ∷ calls) s = done ∷ run calls (clear_all s)
run (cleanup_call now ∷ calls) s = done ∷ run calls (cleanup_old_entries now s)

abbrev pub Logs : Type 0
Logs = String → List ℕ

abbrev pub update : Logs → String → List ℕ → Logs
update logs c log d = ite (str_dec c d) log (logs d)

module _ (config : RateLimitConfig) where
  abbrev pub live : ℕ → Logs → String → ℕ
  live now logs c = count_live config.window_ms now (logs c)

  -- A disabled limiter lets everything through and logs nothing.
  unfoldable pub admits : ℕ → Logs → String → Bool
  admits now logs c = if config.enabled then ltb (live now logs c) config.max_requests else true

  unfoldable pub remaining_after : ℕ → Logs → String → ℕ
  remaining_after now logs c =
      if config.enabled then config.max_requests - live now logs c - 1 else config.max_requests - 1

  unfoldable pub note : ℕ → ℕ → String → Logs → Logs
  unfolding admits
  note now now' c logs =
      if config.enabled
      then (if ltb (live now logs c) config.max_requests
          then update logs c (logs c ++ now' ∷ [])
          else logs)
      else logs

  unfoldable pub limit : List Call → Logs → List Reply
  unfolding admits remaining_after note
  limit [] logs = []
  limit (consume_call now now' c ∷ calls) logs =
      decided (admits now logs c) (remaining_after now logs c) ∷ limit calls (note now now' c logs)
  limit (count_call now c ∷ calls) logs = counted (live now logs c) ∷ limit calls logs
  limit (reset_call c ∷ calls) logs = done ∷ limit calls (update logs c [])
  limit (clear_call ∷ calls) logs = done ∷ limit calls (λ c. [])
  limit (cleanup_call now ∷ calls) logs = done ∷ limit calls logs

-- The clock does not go back, from call to call and within a call.
abbrev pub InTime : ℕ → List Call → Type 0
InTime last [] = Unit
InTime last (consume_call now now' c ∷ calls) = (last ≤ now) × (now ≤ now') × InTime now' calls
InTime last (count_call now c ∷ calls) = (last ≤ now) × InTime now calls
InTime last (reset_call c ∷ calls) = InTime last calls
InTime last (clear_call ∷ calls) = InTime last calls
InTime last (cleanup_call now ∷ calls) = (last ≤ now) × InTime now calls
