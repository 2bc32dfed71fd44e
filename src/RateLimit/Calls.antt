-- ===== src/RateLimit/Calls.antt =====
-- Any sequence of calls, answered by the service and by the limiter.
use talksy.Common.{
  ℕ, ◌≤◌, ◌≡◌, refl, ap, ap₂, ◌∙◌, List, [], ◌∷◌, arith, String, true, if◌then◌else◌, str_dec, ite,
  append-nil, append_assoc, ◌++◌, subst,
}
use talksy.Window.Live.{count_live}
use talksy.RateLimit.{
  RateLimitConfig, RateLimitService, consume, get_request_count, reset_client, clear_all,
  cleanup_old_entries,
}
use talksy.RateLimit.Limiter.{
  Call, consume_call, count_call, reset_call, clear_call, cleanup_call, decided, counted, done, run,
  Logs, update, note, limit, admits, InTime,
}
use talksy.RateLimit.Refine.{Tracked, consume-Tracked, consume-decision, config-consume}
use talksy.RateLimit.Cleanup.{
  no_windows-Tracked, clear_all-Tracked, reset_client-Tracked, get_request_count-Tracked,
  cleanup-Tracked,
}

-- A new service.
unfoldable pub create : RateLimitConfig → RateLimitService
create config = record { windows = []; config = config }

config-get_request_count :
    (s : RateLimitService) (now : ℕ) (c : String) → (get_request_count now c s).0.config ≡ s.config
unfolding get_request_count
config-get_request_count s now c = ground arith

config-reset_client : (s : RateLimitService) (c : String) → (reset_client c s).config ≡ s.config
unfolding reset_client
config-reset_client s c = refl

config-clear_all : (s : RateLimitService) → (clear_all s).config ≡ s.config
unfolding clear_all
config-clear_all s = refl

config-cleanup : (s : RateLimitService) (now : ℕ) → (cleanup_old_entries now s).config ≡ s.config
unfolding cleanup_old_entries
config-cleanup s now = refl

pub run-Tracked :
    (calls : List Call) (s : RateLimitService) (logs : Logs) (last : ℕ)
    → Tracked s logs last
    → InTime last calls
    → run calls s ≡ limit s.config calls logs
unfolding run limit
run-Tracked [] s logs last t i = refl
run-Tracked (consume_call now now' c ∷ calls) s logs last t (p, q, i) =
    let (a, r) = consume-decision s logs last now now' c p q t in
    let t' = consume-Tracked s logs last now now' c p q t in
    ap₂ ◌∷◌ (ap₂ decided a r) (
      run-Tracked calls (consume now now' c s).0 (note s.config now now' c logs) now' t' i
      ∙ ap (λ k. limit k calls (note s.config now now' c logs)) (config-consume s now now' c))
run-Tracked (count_call now c ∷ calls) s logs last t (p, i) =
    let (t', n) = get_request_count-Tracked s logs last now c p t in
    ap₂ ◌∷◌ (ap counted n) (
      run-Tracked calls (get_request_count now c s).0 logs now t' i
      ∙ ap (λ k. limit k calls logs) (config-get_request_count s now c))
run-Tracked (reset_call c ∷ calls) s logs last t i = ap (◌∷◌ done) (
    run-Tracked calls (reset_client c s) (update logs c []) last
      (reset_client-Tracked s logs last c t) i
    ∙ ap (λ k. limit k calls (update logs c [])) (config-reset_client s c))
run-Tracked (clear_call ∷ calls) s logs last t i = ap (◌∷◌ done) (
    run-Tracked calls (clear_all s) (λ c. []) last (clear_all-Tracked s logs last t) i
    ∙ ap (λ k. limit k calls (λ c. [])) (config-clear_all s))
run-Tracked (cleanup_call now ∷ calls) s logs last t (p, i) = ap (◌∷◌ done) (
    run-Tracked calls (cleanup_old_entries now s) logs now (cleanup-Tracked s logs last now p t) i
    ∙ ap (λ k. limit k calls logs) (config-cleanup s now))

create-Tracked : (config : RateLimitConfig) (last : ℕ) → Tracked (create config) (λ c. []) last
unfolding create
create-Tracked config last = no_windows-Tracked config last

-- A new service answers every sequence of calls, made by a clock that does not go back, as the limiter
-- that keeps a log of the admitted requests of each client and counts in it.
pub run-limit :
    (config : RateLimitConfig) (calls : List Call)
    → InTime 0 calls
    → run calls (create config) ≡ limit config calls (λ c. [])
unfolding create
run-limit config calls i = run-Tracked calls (create config) (λ c. []) 0 (create-Tracked config 0) i

-- The times at which requests of `c` are let through, when the requests come in turn.
abbrev pub Request : Type 0
Request = ℕ × ℕ × String

unfoldable pub passed : String → List Request → RateLimitService → List ℕ
passed c [] s = []
passed c ((now, now', d) ∷ rs) s =
    let rest = passed c rs (consume now now' d s).0 in
    ite (str_dec d c) (if (consume now now' d s).1.allowed then now' ∷ rest else rest) rest

abbrev pub InOrder : ℕ → List Request → Type 0
InOrder last [] = Unit
InOrder last ((now, now', d) ∷ rs) = (last ≤ now) × (now ≤ now') × InOrder now' rs

abbrev pub last_time : ℕ → List Request → ℕ
last_time last [] = last
last_time last ((now, now', d) ∷ rs) = last_time now' rs

-- What a request adds to the client's log is what it adds to the times let through.
note-passed :
    (c d : String) (s : RateLimitService) (logs : Logs) (last now now' : ℕ) (rest : List ℕ)
    → s.config.enabled ≡ true
    → Tracked s logs last
    → last ≤ now
    → now ≤ now'
    → note s.config now now' d logs c ++ rest
      ≡ logs c
        ++ ite (str_dec d c) (if (consume now now' d s).1.allowed then now' ∷ rest else rest) rest
unfolding note admits
note-passed c d s logs last now now' rest on t p q = ground (
  arith,
  consume-decision s logs last now now' d p q t,
  append_assoc (logs c) (now' ∷ []) rest,
  append_assoc (logs d) (now' ∷ []) rest,
)

passed-bound :
    (c : String) (rs : List Request) (s : RateLimitService) (logs : Logs) (last : ℕ)
    → s.config.enabled ≡ true
    → Tracked s logs last
    → InOrder last rs
    → count_live s.config.window_ms (last_time last rs) (logs c ++ passed c rs s)
      ≤ s.config.max_requests
unfolding passed
passed-bound c [] s logs last on t i = rw append-nil (t.bounded c)
passed-bound c ((now, now', d) ∷ rs) s logs last on t (p, q, i) =
    let s' = (consume now now' d s).0 in
    let logs' = note s.config now now' d logs in
    let same = config-consume s now now' d in
    let later =
      passed-bound c rs s' logs' now' (ap (λ k. k.enabled) same ∙ on)
        (consume-Tracked s logs last now now' d p q t) i in
    rw (← note-passed c d s logs last now now' (passed c rs s') on t p q) (
      subst
        (λ k.
          count_live k.window_ms (last_time now' rs) (logs' c ++ passed c rs s') ≤ k.max_requests)
        same later)

-- When the requests of any clients reach an enabled new service in the order of time, then at the time
-- of the last no client has had more than `max_requests` requests let through within the window.
pub passed-le-max_requests :
    (config : RateLimitConfig) (c : String) (rs : List Request)
    → config.enabled ≡ true
    → InOrder 0 rs
    → count_live config.window_ms (last_time 0 rs) (passed c rs (create config))
      ≤ config.max_requests
unfolding create
passed-le-max_requests config c rs on i =
    passed-bound c rs (create config) (λ c. []) 0 on (create-Tracked config 0) i
