-- ===== src/RateLimit/Tests.antt =====
-- The rate limiter at concrete inputs.
use talksy.Common.{ℕ, ◌≡◌, ◌≤◌, refl, true, false, List, [], ◌∷◌, arith}
use talksy.Window
use talksy.Window.{record_at, get_count, get_oldest}
use talksy.Window.Live.{count_live}
use talksy.RateLimit.{RateLimitConfig, check_limit, record_request, consume}
use talksy.RateLimit.Limiter.{
  Call, consume_call, count_call, reset_call, cleanup_call, decided, counted, done, run, limit,
}
use talksy.RateLimit.Calls.{create, Request, run-limit, passed, last_time, passed-le-max_requests}

-- Two requests in a hundred milliseconds.
abbrev two : RateLimitConfig
two = record { window_ms = 100; max_requests = 2; enabled = true }

abbrev calls : List Call
calls =
    consume_call 10 11 "a"
    ∷ consume_call 12 12 "a"
    ∷ consume_call 20 20 "a"
    ∷ cleanup_call 50
    ∷ count_call 60 "a"
    ∷ reset_call "a"
    ∷ consume_call 70 70 "a"
    ∷ []

run-calls :
    run calls (create two)
    ≡ decided true 1
      ∷ decided true 0
      ∷ decided false 0
      ∷ done
      ∷ counted 2
      ∷ done
      ∷ decided true 1
      ∷ []
unfolding run create consume check_limit record_request Window.create record_at get_count get_oldest
    talksy.Common.Map.get talksy.RateLimit.get_request_count talksy.Common.Map.set
    talksy.RateLimit.cleanup_old_entries Window.is_empty talksy.RateLimit.reset_client
    talksy.Common.Map.delete
run-calls = refl

run-limit_example : run calls (create two) ≡ limit two calls (λ c. [])
run-limit_example = run-limit two calls (
  omega arith,
  omega arith,
  (
    omega arith,
    omega arith,
    (omega arith, omega arith, (omega arith, (omega arith, (omega arith, omega arith, tt)))),
  ),
)

abbrev requests : List Request
requests = (10, 11, "a") ∷ (12, 12, "b") ∷ (20, 20, "a") ∷ (30, 31, "a") ∷ (115, 116, "a") ∷ []

passed-requests : passed "a" requests (create two) ≡ 11 ∷ 20 ∷ 116 ∷ []
unfolding passed create consume check_limit record_request Window.create record_at get_count
    get_oldest talksy.Common.str_dec talksy.Common.Map.get talksy.Common.Map.set
passed-requests = refl

passed-le-max_requests_example :
    count_live 100 (last_time 0 requests) (passed "a" requests (create two)) ≤ 2
passed-le-max_requests_example = passed-le-max_requests two "a" requests refl (
  omega arith,
  omega arith,
  (
    omega arith,
    omega arith,
    (omega arith, omega arith, (omega arith, omega arith, (omega arith, omega arith, tt))),
  ),
)
