-- ===== src/Window/Log.antt =====
-- Code: src/rate-limit/sliding-window.ts. A sliding window against the whole log of the timestamps ever
-- recorded.
use talksy.Common.{
  ℕ, ◌+◌, ◌-◌, ◌≤◌, ◌≡◌, refl, sym, ap, ◌∙◌, min, List, [], ◌∷◌, ◌++◌, arith, length, drop,
  take_last, length-append, length-drop, subst, drop-drop, drop-length, drop-append_le, suc,
  append-nil, append_assoc,
}
use talksy.Window.{SlidingWindow, create, record_at, get_count}
use talksy.Window.Live.{
  count_live, Ordered, AllTo, count_live-le-length, count_live-take_last, count_live-append,
  count_live-le, Ordered-append, AllTo-append, AllTo-le, Ordered-drop,
}
use talksy.Window.Contents.{
  capacity-record_at, window_ms-record_at, capacity-get_count, window_ms-get_count, Holds,
  create-Holds, record_at-Holds, get_count-Holds, from_live, length-from_live, from_live-suffix,
}

-- `log` holds every recording, oldest first, the last at `last` or before.
pub record Tracks (max_requests window : ℕ) (w : SlidingWindow) (log : List ℕ) (last : ℕ)
    : Type 0 where
  pub held : List ℕ
  pub holds : Holds w held
  pub capacity : w.capacity ≡ max_requests + 1
  pub length_ms : w.window_ms ≡ window
  pub suffix : held ≡ take_last (length held) log
  pub enough : min (max_requests + 1) (count_live window last log) ≤ length held
  pub ordered : Ordered log
  pub past : AllTo last log

length-take_last : (k : ℕ) (xs : List ℕ) → length (take_last k xs) ≡ min k (length xs)
length-take_last k xs = omega (arith, length-drop (length xs - k) xs)

take_last-take_last :
    (m n : ℕ) (xs : List ℕ) → take_last m (take_last n xs) ≡ take_last (min m n) xs
take_last-take_last m n xs =
    drop-drop _ (length xs - n) xs
    ∙ ap (λ j. drop j xs) (omega (arith, length-drop (length xs - n) xs))

take_last-snoc :
    (k x : ℕ) (xs : List ℕ)
    → k ≤ length xs
    → take_last k xs ++ x ∷ [] ≡ take_last (suc k) (xs ++ x ∷ [])
take_last-snoc k x xs h =
    sym (drop-append_le (length xs - k) xs (x ∷ []) (omega arith))
    ∙ ap (λ j. drop j (xs ++ x ∷ [])) (omega (arith, length-append xs (x ∷ [])))

-- A suffix is the one of its own length.
suffix_of :
    (k : ℕ) (held log : List ℕ) → held ≡ take_last k log → held ≡ take_last (length held) log
suffix_of k held log e = e ∙ ap (λ j. drop j log) (rw (e, length-take_last k log) (omega arith))

length-suffix : (held log : List ℕ) → held ≡ take_last (length held) log → length held ≤ length log
length-suffix held log e = omega (arith, ap length e, length-take_last (length held) log)

module _ (max_requests window : ℕ) where
  pub create-Tracks :
      (last : ℕ) (log : List ℕ)
      → count_live window last log ≡ 0
      → Ordered log
      → AllTo last log
      → Tracks max_requests window (create max_requests window) log last
  unfolding create
  create-Tracks last log h o a = record {
    held = [];
    holds = create-Holds max_requests window;
    capacity = refl;
    length_ms = refl;
    suffix = sym (ap (λ j. drop j log) (omega arith) ∙ drop-length log);
    enough = omega arith;
    ordered = o;
    past = a;
  }

  module _ (w : SlidingWindow) (log : List ℕ) {last : ℕ} (now : ℕ) (later : last ≤ now) where
    pub later-Tracks : Tracks max_requests window w log last → Tracks max_requests window w log now
    later-Tracks t = record {
      held = t.held;
      holds = t.holds;
      capacity = t.capacity;
      length_ms = t.length_ms;
      suffix = t.suffix;
      enough = omega (arith, t.enough, count_live-le window last now log later);
      ordered = t.ordered;
      past = AllTo-le last now log later t.past;
    }

    pub record_at-Tracks :
        Tracks max_requests window w log last
        → Tracks max_requests window (record_at now w) (log ++ now ∷ []) now
    record_at-Tracks t =
        let k = length t.held in
        let held' = take_last w.capacity (t.held ++ now ∷ []) in
        let short : k ≤ length log = length-suffix t.held log t.suffix in
        let size : length held' ≡ min (max_requests + 1) (k + 1) = omega (
          arith,
          t.capacity,
          length-take_last w.capacity (t.held ++ now ∷ []),
          length-append t.held (now ∷ []),
        ) in
        record {
          held = held';
          holds = record_at-Holds now w t.held t.holds;
          capacity = capacity-record_at now w ∙ t.capacity;
          length_ms = window_ms-record_at now w ∙ t.length_ms;
          suffix = suffix_of (min w.capacity (suc k)) held' _ (
              ap (take_last w.capacity)
                (ap (λ v. v ++ now ∷ []) t.suffix ∙ take_last-snoc k now log short)
              ∙ take_last-take_last w.capacity (suc k) (log ++ now ∷ []));
          enough = omega (
            arith,
            size,
            t.enough,
            count_live-le window last now log later,
            count_live-append window now log (now ∷ []),
            count_live-le-length window now (now ∷ []),
          );
          ordered = Ordered-append now log t.ordered (AllTo-le last now log later t.past);
          past = AllTo-append now log (AllTo-le last now log later t.past);
        }

    -- The count is that of the live timestamps in the whole log, cut off at the capacity.
    pub get_count-Tracks :
        Tracks max_requests window w log last
        → Tracks max_requests window (get_count now w).0 log now
          × ((get_count now w).1 ≡ min (max_requests + 1) (count_live window now log))
    get_count-Tracks t =
        let k = length t.held in
        let held' = from_live w.window_ms now t.held in
        let (holds', count') = get_count-Holds now w t.held t.holds in
        let in_order : Ordered t.held =
          subst Ordered (sym t.suffix) (Ordered-drop (length log - k) log t.ordered) in
        let live : count_live window now t.held ≡ min k (count_live window now log) =
          ap (count_live window now) t.suffix ∙ count_live-take_last window now k log t.ordered in
        let size : length held' ≡ min k (count_live window now log) =
          length-from_live w.window_ms now t.held in_order
          ∙ ap (λ m. count_live m now t.held) t.length_ms
          ∙ live in
        let fewer : count_live window now log ≤ count_live window last log =
          count_live-le window last now log later in
        (
          record {
            held = held';
            holds = holds';
            capacity = capacity-get_count now w ∙ t.capacity;
            length_ms = window_ms-get_count now w ∙ t.length_ms;
            suffix = suffix_of (min (length held') k) held' log (
                from_live-suffix w.window_ms now t.held
                ∙ ap (take_last (length held')) t.suffix
                ∙ take_last-take_last (length held') k log);
            enough = omega (arith, size, t.enough, fewer);
            ordered = t.ordered;
            past = AllTo-le last now log later t.past;
          },
          omega (arith, count', size, t.enough, fewer, t.holds.filled, t.holds.counted, t.capacity),
        )

-- The times do not go back.
abbrev pub InOrder : ℕ → List ℕ → Type 0
InOrder last [] = Unit
InOrder last (t ∷ ts) = (last ≤ t) × InOrder t ts

abbrev pub last_of : ℕ → List ℕ → ℕ
last_of last [] = last
last_of last (t ∷ ts) = last_of t ts

unfoldable pub record_all : List ℕ → SlidingWindow → SlidingWindow
record_all [] w = w
record_all (t ∷ ts) w = record_all ts (record_at t w)

record_all-Tracks :
    (max_requests window : ℕ) (ts : List ℕ) (w : SlidingWindow) (log : List ℕ) (last : ℕ)
    → InOrder last ts
    → Tracks max_requests window w log last
    → Tracks max_requests window (record_all ts w) (log ++ ts) (last_of last ts)
unfolding record_all
record_all-Tracks max_requests window [] w log last i t = rw append-nil t
record_all-Tracks max_requests window (now ∷ ts) w log last (p, i) t =
    subst (λ l. Tracks max_requests window (record_all ts (record_at now w)) l (last_of now ts))
      (append_assoc log (now ∷ []) ts)
      (record_all-Tracks max_requests window ts (record_at now w) (log ++ now ∷ []) now i
        (record_at-Tracks max_requests window w log now p t))

-- A new window in which times are recorded in order counts, at any later time, how many of all of them
-- lie in the window that ends then, up to one more than `max_requests`.
pub get_count-record_all :
    (max_requests window now : ℕ) (ts : List ℕ)
    → InOrder 0 ts
    → last_of 0 ts ≤ now
    → (get_count now (record_all ts (create max_requests window))).1
      ≡ min (max_requests + 1) (count_live window now ts)
unfolding count_live
get_count-record_all max_requests window now ts i later =
    let w = create max_requests window in
    (get_count-Tracks max_requests window (record_all ts w) ts now later (
      record_all-Tracks max_requests window ts w [] 0 i
        (create-Tracks max_requests window 0 [] refl tt tt))).1
