-- ===== src/RateLimit/Cleanup.antt =====
-- Code: src/rate-limit/rate-limit.service.ts. The calls that let no request through: counting,
-- resetting, clearing and the periodic cleanup.
use talksy.Common.{
  ℕ, ◌≤◌, ◌≡◌, refl, sym, ap, ◌∙◌, true, false, if◌then◌else◌, [], ◌∷◌, Option, none, some, arith,
  String, str_dec, ite, subst, Bool-cases, Option-cases, inl, inr, ite_both,
}
use talksy.Common.Map
use talksy.Common.Map.{Map, Distinct}
use talksy.Window
use talksy.Window.{SlidingWindow, get_count, is_empty}
use talksy.Window.Live.{count_live}
use talksy.Window.Log.{Tracks, create-Tracks, get_count-Tracks}
use talksy.RateLimit.{
  RateLimitConfig, RateLimitService, client_window, put_window, get_request_count, reset_client,
  clear_all, cleanup_windows, cleanup_old_entries,
}
use talksy.RateLimit.Limiter.{Logs, update, live}
use talksy.RateLimit.Refine.{Tracked, later-Tracked, put-Tracked, update_self, counting}

fresh-Tracks :
    (max_requests window last : ℕ)
    → Tracks max_requests window (Window.create max_requests window) [] last
unfolding count_live
fresh-Tracks max_requests window last = create-Tracks max_requests window last [] refl tt tt

pub no_windows-Tracked :
    (config : RateLimitConfig) (last : ℕ)
    → Tracked (record { windows = []; config = config }) (λ c. []) last
unfolding client_window Map.get count_live
no_windows-Tracked config last = record {
  distinct = tt;
  windows = λ c. fresh-Tracks config.max_requests config.window_ms last;
  bounded = λ c. omega arith;
}

pub clear_all-Tracked :
    (s : RateLimitService) (logs : Logs) (last : ℕ)
    → Tracked s logs last
    → Tracked (clear_all s) (λ c. []) last
unfolding clear_all
clear_all-Tracked s logs last t = no_windows-Tracked s.config last

client_window-reset :
    (s : RateLimitService) (c d : String)
    → client_window (reset_client c s) d
      ≡ ite
          (str_dec c d)
          (Window.create s.config.max_requests s.config.window_ms)
          (client_window s d)
unfolding client_window reset_client
client_window-reset s c d = ground (arith, Map.get-delete d c s.windows)

pub reset_client-Tracked :
    (s : RateLimitService) (logs : Logs) (last : ℕ) (c : String)
    → Tracked s logs last
    → Tracked (reset_client c s) (update logs c []) last
unfolding count_live reset_client
reset_client-Tracked s logs last c t = record {
  distinct = reset-Distinct;
  windows = λ d. rw (client_window-reset s c d) (
      ite_both (str_dec c d) (λ v l. Tracks s.config.max_requests s.config.window_ms v l last)
        (fresh-Tracks _ _ last) (t.windows d));
  bounded = λ d.
      ite_both (str_dec c d)
        (λ (u : Unit {0}) l. count_live s.config.window_ms last l ≤ s.config.max_requests) {a = tt}
        {a' = tt} (omega arith) (t.bounded d);
}
  where
    reset-Distinct : Distinct (Map.delete c s.windows)
    reset-Distinct = Map.delete-Distinct c s.windows t.distinct

-- A client without a window counts nothing.
none_counts :
    (s : RateLimitService) (c : String) (now : ℕ)
    → Map.get c s.windows ≡ none
    → 0 ≡ (get_count now (client_window s c)).1
unfolding client_window get_count Window.create
none_counts s c now e = rw (e, client_window)

pub get_request_count-Tracked :
    (s : RateLimitService) (logs : Logs) (last now : ℕ) (c : String)
    → last ≤ now
    → Tracked s logs last
    → Tracked (get_request_count now c s).0 logs now
      × ((get_request_count now c s).1 ≡ live s.config now logs c)
unfolding get_request_count client_window
get_request_count-Tracked s logs last now c h t =
    let later = later-Tracked s logs last now h t in
    elim (Option-cases (Map.get c s.windows)) [
      | inl gone ↦ rw (gone, get_request_count) (later, rest gone)
      | inr (w, found) ↦
          rw (found, get_request_count)
            (
              subst (λ ls. Tracked (put_window s c (get_count now w).0) ls now) (update_self logs c)
                  (put-Tracked s logs now c _ (logs c) later
                    (get_count-Tracks _ _ w (logs c) now h (
                      subst (λ v. Tracks s.config.max_requests s.config.window_ms v (logs c) last)
                        (window_of w found) (t.windows c))).0
                    (later.bounded c)),
              ap (λ v. (get_count now v).1) (sym (window_of w found))
                  ∙ counting s logs last now c t h,
            )
    ]
  where
    window_of : (w : SlidingWindow) → Map.get c s.windows ≡ some w → client_window s c ≡ w
    window_of w e = rw (e, client_window)

    rest : Map.get c s.windows ≡ none → 0 ≡ live s.config now logs c
    rest e = none_counts s c now e ∙ counting s logs last now c t h

-- What the cleanup leaves of one window.
kept : ℕ → SlidingWindow → Option SlidingWindow
unfolding is_empty
kept now w = if (is_empty now w).1 then none else some (is_empty now w).0

abbrev bind : {A B : Type 0} → Option A → (A → Option B) → Option B
bind none f = none
bind (some a) f = f a

get-cleanup :
    (now : ℕ) (c : String) (ws : Map SlidingWindow)
    → Distinct ws
    → Map.get c (cleanup_windows now ws) ≡ bind (Map.get c ws) (kept now)
unfolding cleanup_windows kept Map.get
get-cleanup now c [] d = refl
get-cleanup now c ((b, w) ∷ ws) d =
    let n = kept now w in
    elim (Bool-cases (is_empty now w).1) [
      | inl e ↦ ground (arith, get-cleanup now c ws d.1)
      | inr e ↦ ground (arith, get-cleanup now c ws d.1)
    ]

cleanup-Distinct :
    (now : ℕ) (ws : Map SlidingWindow) → Distinct ws → Distinct (cleanup_windows now ws)
unfolding cleanup_windows
cleanup-Distinct now [] d = tt
cleanup-Distinct now ((b, w) ∷ ws) d =
    ground (arith, get-cleanup now b ws d.1, cleanup-Distinct now ws d.1)

module _ (s : RateLimitService) (logs : Logs) (last now : ℕ) (h : last ≤ now)
    (t : Tracked s logs last) where
  found_window :
      (c : String) (w : SlidingWindow) → Map.get c s.windows ≡ some w → client_window s c ≡ w
  unfolding client_window
  found_window c w e = ground arith

  cleanup-missing :
      (c : String)
      → Map.get c s.windows ≡ none
      → client_window s c ≡ client_window (cleanup_old_entries now s) c
  unfolding client_window cleanup_old_entries
  cleanup-missing c e = ground (arith, get-cleanup now c s.windows t.distinct)

  cleanup-dropped :
      (c : String) (w : SlidingWindow)
      → Map.get c s.windows ≡ some w
      → (is_empty now w).1 ≡ true
      → Window.create s.config.max_requests s.config.window_ms
        ≡ client_window (cleanup_old_entries now s) c
  unfolding client_window cleanup_old_entries kept
  cleanup-dropped c w e z = ground (arith, get-cleanup now c s.windows t.distinct)

  cleanup-kept :
      (c : String) (w : SlidingWindow)
      → Map.get c s.windows ≡ some w
      → (is_empty now w).1 ≡ false
      → (get_count now w).0 ≡ client_window (cleanup_old_entries now s) c
  unfolding client_window cleanup_old_entries kept is_empty
  cleanup-kept c w e z = ground (arith, get-cleanup now c s.windows t.distinct)

  empty_live :
      (c : String) (w : SlidingWindow)
      → client_window s c ≡ w
      → (is_empty now w).1 ≡ true
      → live s.config now logs c ≡ 0
  unfolding is_empty
  empty_live c w e z =
      ground (arith, counting s logs last now c t h, ap (λ v. (get_count now v).1) e)

  cleanup-Tracks :
      (c : String)
      → Tracks s.config.max_requests s.config.window_ms
          (client_window (cleanup_old_entries now s) c)
          (logs c)
          now
  cleanup-Tracks c =
      let later = (later-Tracked s logs last now h t).windows c in
      let is_tracked =
        λ (v : SlidingWindow). Tracks s.config.max_requests s.config.window_ms v (logs c) now in
      elim (Option-cases (Map.get c s.windows)) [
        | inl gone ↦ subst is_tracked (cleanup-missing c gone) later
        | inr (w, e) ↦ elim (Bool-cases (is_empty now w).1) [
          | inl z ↦ subst is_tracked (cleanup-dropped c w e z) (
              create-Tracks _ _ now (logs c) (empty_live c w (found_window c w e) z) later.ordered
                later.past)
          | inr z ↦
              subst is_tracked (cleanup-kept c w e z)
                (get_count-Tracks _ _ w (logs c) now (omega arith)
                  (subst is_tracked (found_window c w e) later)).0
        ]
      ]

pub cleanup-Tracked :
    (s : RateLimitService) (logs : Logs) (last now : ℕ)
    → last ≤ now
    → Tracked s logs last
    → Tracked (cleanup_old_entries now s) logs now
unfolding cleanup_old_entries
cleanup-Tracked s logs last now h t = record {
  distinct = cleanup-Distinct now s.windows t.distinct;
  windows = cleanup-Tracks s logs last now h t;
  bounded = (later-Tracked s logs last now h t).bounded;
}
