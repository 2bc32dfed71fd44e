-- ===== src/RateLimit/Refine.antt =====
-- Code: src/rate-limit/rate-limit.service.ts. The service with its circular windows against the limiter
-- with its logs, for the requests.
use talksy.Common.{
  ℕ, ◌-◌, ◌≤◌, ◌<◌, ◌≡◌, fun_ext, sym, ap, ◌∙◌, true, false, ltb, List, [], ◌∷◌, ◌++◌, arith,
  String, str_dec, ite, subst, Bool-cases, inl, inr, ltb→lt, ite_both,
}
use talksy.Common.Map
use talksy.Common.Map.{Map, Distinct}
use talksy.Window.{SlidingWindow, get_count, get_oldest, record_at}
use talksy.Window.Live.{count_live, count_live-append, count_live-le-length, count_live-le}
use talksy.Window.Log.{Tracks, later-Tracks, record_at-Tracks, get_count-Tracks}
use talksy.RateLimit.{
  RateLimitService, client_window, put_window, check_limit, record_request, consume,
}
use talksy.RateLimit.Limiter.{Logs, update, live, admits, remaining_after, note}

-- Every client's window stands for its log, in which at most `max_requests` entries are live.
pub record Tracked (s : RateLimitService) (logs : Logs) (last : ℕ) : Type 0 where
  pub distinct : Distinct s.windows
  pub windows :
      (c : String)
      → Tracks s.config.max_requests s.config.window_ms (client_window s c) (logs c) last
  pub bounded : (c : String) → live s.config last logs c ≤ s.config.max_requests

pub client_window-put :
    (s : RateLimitService) (c d : String) (w : SlidingWindow)
    → client_window (put_window s c w) d ≡ ite (str_dec c d) w (client_window s d)
unfolding client_window
client_window-put s c d w = ground (arith, Map.get-set d c w s.windows)

pub update_self : (logs : Logs) (c : String) → update logs c (logs c) ≡ logs
update_self logs c = fun_ext (λ d. ground arith)

pub later-Tracked :
    (s : RateLimitService) (logs : Logs) (last now : ℕ)
    → last ≤ now
    → Tracked s logs last
    → Tracked s logs now
later-Tracked s logs last now h t = record {
  distinct = t.distinct;
  windows = λ c. later-Tracks _ _ (client_window s c) (logs c) now h (t.windows c);
  bounded = λ c. omega (arith, t.bounded c, count_live-le s.config.window_ms last now (logs c) h);
}

-- One client's window and log change together.
pub put-Tracked :
    (s : RateLimitService) (logs : Logs) (last : ℕ) (c : String) (w : SlidingWindow) (log : List ℕ)
    → Tracked s logs last
    → Tracks s.config.max_requests s.config.window_ms w log last
    → count_live s.config.window_ms last log ≤ s.config.max_requests
    → Tracked (put_window s c w) (update logs c log) last
put-Tracked s logs last c w log t tw b = record {
  distinct = Map.set-Distinct c w s.windows t.distinct;
  windows = λ d. rw (client_window-put s c d w) (
      ite_both (str_dec c d) (λ v l. Tracks s.config.max_requests s.config.window_ms v l last) tw
        (t.windows d));
  bounded = λ d.
      ite_both (str_dec c d)
        (λ (u : Unit {0}) l. count_live s.config.window_ms last l ≤ s.config.max_requests) {a = tt}
        {a' = tt} b (t.bounded d);
}

module _ (s : RateLimitService) (logs : Logs) (last now : ℕ) (c : String) (t : Tracked s logs last)
    (later : last ≤ now) where
  pub counting : (get_count now (client_window s c)).1 ≡ live s.config now logs c
  counting = omega (
    arith,
    (get_count-Tracks _ _ (client_window s c) (logs c) now later (t.windows c)).1,
    t.bounded c,
    count_live-le s.config.window_ms last now (logs c) later,
  )

  checked : SlidingWindow
  checked = (get_oldest now (get_count now (client_window s c)).0).0

  check_limit-window : s.config.enabled ≡ true → (check_limit now c s).0 ≡ put_window s c checked
  unfolding check_limit checked
  check_limit-window on = ground arith

  check_limit-result :
      s.config.enabled ≡ true
      → ((check_limit now c s).1.allowed ≡ ltb (live s.config now logs c) s.config.max_requests)
        × ((check_limit now c s).1.remaining ≡ s.config.max_requests - live s.config now logs c)
  unfolding check_limit
  check_limit-result on = ground (arith, counting)

  config-check_limit : (check_limit now c s).0.config ≡ s.config
  unfolding check_limit
  config-check_limit = ground arith

  checked-Tracks : Tracks s.config.max_requests s.config.window_ms checked (logs c) now
  unfolding checked get_oldest
  checked-Tracks =
      (get_count-Tracks _ _ _ (logs c) now (omega arith)
        (get_count-Tracks _ _ (client_window s c) (logs c) now later (t.windows c)).0).0

  check-Tracked : s.config.enabled ≡ true → Tracked (check_limit now c s).0 logs now
  check-Tracked on =
      let t' = later-Tracked s logs last now later t in
      subst (λ r. Tracked r logs now) (sym (check_limit-window on))
        (subst (λ ls. Tracked (put_window s c checked) ls now) (update_self logs c)
          (put-Tracked s logs now c checked (logs c) t' checked-Tracks (t'.bounded c)))

recorded :
    (s : RateLimitService) (now : ℕ) (c : String)
    → s.config.enabled ≡ true
    → record_request now c s ≡ put_window s c (get_count now (record_at now (client_window s c))).0
unfolding record_request
recorded s now c on = ground arith

record_request-Tracked :
    (s : RateLimitService) (logs : Logs) (last now : ℕ) (c : String)
    → s.config.enabled ≡ true
    → last ≤ now
    → live s.config last logs c < s.config.max_requests
    → Tracked s logs last
    → Tracked (record_request now c s) (update logs c (logs c ++ now ∷ [])) now
record_request-Tracked s logs last now c on later room t =
    subst (λ r. Tracked r (update logs c (logs c ++ now ∷ [])) now) (sym (recorded s now c on))
      (put-Tracked s logs now c _ (logs c ++ now ∷ []) (later-Tracked s logs last now later t)
        (get_count-Tracks _ _ _ _ now (omega arith)
          (record_at-Tracks _ _ (client_window s c) (logs c) now later (t.windows c))).0
        (omega (
          arith,
          count_live-append s.config.window_ms now (logs c) (now ∷ []),
          count_live-le-length s.config.window_ms now (now ∷ []),
          count_live-le s.config.window_ms last now (logs c) later,
        )))

pub config-consume :
    (s : RateLimitService) (now now' : ℕ) (c : String) → (consume now now' c s).0.config ≡ s.config
unfolding consume check_limit record_request
config-consume s now now' c = ground arith

module _ (s : RateLimitService) (logs : Logs) (last now now' : ℕ) (c : String) (p : last ≤ now)
    (q : now ≤ now') (t : Tracked s logs last) where
  consume_off :
      s.config.enabled ≡ false
      → ((consume now now' c s).0 ≡ s)
        × (note s.config now now' c logs ≡ logs)
        × ((consume now now' c s).1.allowed ≡ true)
        × ((consume now now' c s).1.remaining ≡ s.config.max_requests - 1)
  unfolding consume check_limit record_request note
  consume_off off = ground arith

  consume-Tracked_admitted :
      s.config.enabled ≡ true
      → ltb (live s.config now logs c) s.config.max_requests ≡ true
      → Tracked (consume now now' c s).0 (update logs c (logs c ++ now' ∷ [])) now'
  unfolding consume
  consume-Tracked_admitted on room =
      let s' = (check_limit now c s).0 in
      let same = config-check_limit s logs last now c t p in
      rw ((check_limit-result s logs last now c t p on).0 ∙ room) (
        record_request-Tracked s' logs now now' c (ap (λ k. k.enabled) same ∙ on) q
          (rw same (ltb→lt _ _ room)) (check-Tracked s logs last now c t p on))

  consume-Tracked_refused :
      s.config.enabled ≡ true
      → ltb (live s.config now logs c) s.config.max_requests ≡ false
      → Tracked (consume now now' c s).0 logs now'
  unfolding consume
  consume-Tracked_refused on full =
      rw ((check_limit-result s logs last now c t p on).0 ∙ full)
        (later-Tracked _ logs now now' q (check-Tracked s logs last now c t p on))

  -- One `consume`: the windows stand for the new logs.
  pub consume-Tracked : Tracked (consume now now' c s).0 (note s.config now now' c logs) now'
  unfolding note
  consume-Tracked = elim (Bool-cases s.config.enabled) [
    | inl on ↦ elim (Bool-cases (ltb (live s.config now logs c) s.config.max_requests)) [
      | inl room ↦
          subst (λ ls. Tracked (consume now now' c s).0 ls now') (ground arith)
            (consume-Tracked_admitted on room)
      | inr full ↦
          subst (λ ls. Tracked (consume now now' c s).0 ls now') (ground arith)
            (consume-Tracked_refused on full)
    ]
    | inr off ↦
        let (same, kept, _, _) = consume_off off in
        subst (λ r. Tracked r (note s.config now now' c logs) now') (sym same)
          (subst (λ ls. Tracked s ls now') (sym kept)
            (later-Tracked s logs last now' (omega arith) t))
  ]

  -- One `consume`: the answer is the limiter's.
  pub consume-decision :
      ((consume now now' c s).1.allowed ≡ admits s.config now logs c)
      × ((consume now now' c s).1.remaining ≡ remaining_after s.config now logs c)
  unfolding consume admits remaining_after
  consume-decision = elim (Bool-cases s.config.enabled) [
    | inl on ↦ ground (arith, check_limit-result s logs last now c t p on)
    | inr off ↦ ground (arith, consume_off off)
  ]
