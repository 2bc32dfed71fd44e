-- ===== src/StreamBatcher/Pending.antt =====
-- What a `TimeBatcher` still has to deliver, after any calls and firings of its timer.
use talksy.Common.{
  ℕ, ◌⊎◌, subst, ◌≤◌, ◌≡◌, refl, sym, ap, ◌∙◌, Bool, true, false, ltb, List, [], ◌∷◌, ◌++◌, map,
  flatten, Option, none, some, arith, String, length, join, append_assoc, append-nil, is_some,
  length-append, inl, inr,
}
use talksy.StreamBatcher.{TimeBatcher, create, push, flush, cancel}

-- A chunk that is pushed, a flush by the caller or by the timer, and a cancellation.
pub data Event : Type 0 where
  chunk : (now : ℕ) (content : String) → Event
  flushed : Event
  cancelled : Event

abbrev pub or_else : Option (String × ℕ) → List (String × ℕ) → List (String × ℕ)
or_else none outs = outs
or_else (some out) outs = out ∷ outs

-- The events in turn, with what `onFlush` gets.
unfoldable pub run : List Event → TimeBatcher → TimeBatcher × List (String × ℕ)
run [] b = (b, [])
run (chunk now content ∷ es) b = run es (push now content b)
run (flushed ∷ es) b =
    let (b', out) = flush b in let (b'', outs) = run es b' in (b'', or_else out outs)
run (cancelled ∷ es) b = run es (cancel b)

-- A timer is set just where a chunk waits.
abbrev pub IsArmed : TimeBatcher → Type 0
IsArmed b = is_some b.timer ≡ ltb 0 (length b.buffer)

push-IsArmed : (now : ℕ) (content : String) (b : TimeBatcher) → IsArmed (push now content b)
unfolding push
push-IsArmed now content b = ground (arith, length-append b.buffer (content ∷ []))

flush-IsArmed : (b : TimeBatcher) → IsArmed (flush b).0
unfolding flush
flush-IsArmed b = ground arith

cancel-IsArmed : (b : TimeBatcher) → IsArmed (cancel b)
unfolding cancel
cancel-IsArmed b = refl

run_from-IsArmed : (es : List Event) (b : TimeBatcher) → IsArmed b → IsArmed (run es b).0
unfolding run
run_from-IsArmed [] b h = h
run_from-IsArmed (chunk now content ∷ es) b h =
    run_from-IsArmed es (push now content b) (push-IsArmed now content b)
run_from-IsArmed (flushed ∷ es) b h = run_from-IsArmed es (flush b).0 (flush-IsArmed b)
run_from-IsArmed (cancelled ∷ es) b h = run_from-IsArmed es (cancel b) (cancel-IsArmed b)

-- After any pushes, flushes, firings of the timer and cancellations, a new batcher has a timer set if
-- and only if it holds a chunk.
pub run-IsArmed : (interval_ms : ℕ) (es : List Event) → IsArmed (run es (create interval_ms)).0
unfolding create
run-IsArmed interval_ms es = run_from-IsArmed es (create interval_ms) refl

abbrev pub pushed : List Event → List String
pushed [] = []
pushed (chunk now content ∷ es) = content ∷ pushed es
pushed (flushed ∷ es) = pushed es
pushed (cancelled ∷ es) = pushed es

abbrev pub never_cancels : List Event → Bool
never_cancels [] = true
never_cancels (chunk now content ∷ es) = never_cancels es
never_cancels (flushed ∷ es) = never_cancels es
never_cancels (cancelled ∷ es) = false

abbrev pub NonEmpty : List (List String) → Type 0
NonEmpty [] = Unit
NonEmpty (g ∷ gs) = (1 ≤ length g) × NonEmpty gs

pub record Delivered (chunks held : List String) (outs : List (String × ℕ)) : Type 0 where
  pub groups : List (List String)
  pub flat : flatten groups ++ held ≡ chunks
  pub shown : outs ≡ map (λ g. (join g, length g)) groups
  pub filled : NonEmpty groups

flush-cases :
    (b : TimeBatcher)
    → ((flush b).0.buffer ≡ [])
      × (((b.buffer ≡ []) × ((flush b).1 ≡ none))
          ⊎ ((1 ≤ length b.buffer) × ((flush b).1 ≡ some (join b.buffer, length b.buffer))))
unfolding flush
flush-cases b = ground arith

run_from-Delivered :
    (es : List Event) (b : TimeBatcher)
    → never_cancels es ≡ true
    → Delivered (b.buffer ++ pushed es) (run es b).0.buffer (run es b).1
unfolding run push
run_from-Delivered [] b h = record {
  groups = [];
  flat = sym (append-nil b.buffer);
  shown = refl;
  filled = tt;
}
run_from-Delivered (chunk now content ∷ es) b h =
    subst (λ l. Delivered l (run es (push now content b)).0.buffer (run es (push now content b)).1)
      (append_assoc b.buffer (content ∷ []) (pushed es))
      (run_from-Delivered es (push now content b) h)
run_from-Delivered (flushed ∷ es) b h =
    let d = run_from-Delivered es (flush b).0 h in
    let (gone, out) = flush-cases b in
    elim out [
      | inl (empty, nothing) ↦ record {
        groups = d.groups;
        flat = d.flat ∙ ap (λ l. l ++ pushed es) (gone ∙ sym empty);
        shown = ap (λ o. or_else o (run es (flush b).0).1) nothing ∙ d.shown;
        filled = d.filled;
      }
      | inr (filled, e) ↦ record {
        groups = b.buffer ∷ d.groups;
        flat =
            append_assoc b.buffer (flatten d.groups) _
            ∙ ap (λ l. b.buffer ++ l) (d.flat ∙ ap (λ l. l ++ pushed es) gone);
        shown =
            ap (λ o. or_else o (run es (flush b).0).1) e
            ∙ ap (λ l. (join b.buffer, length b.buffer) ∷ l) d.shown;
        filled = (filled, d.filled);
      }
    ]
run_from-Delivered (cancelled ∷ es) b h = cc

-- Where nothing is cancelled, what a new batcher delivers and what it still holds are all the chunks
-- pushed, in order: each delivery is the text of a group of consecutive chunks, one at least, with their
-- number.
pub run-Delivered :
    (interval_ms : ℕ) (es : List Event)
    → never_cancels es ≡ true
    → let (b, outs) = run es (create interval_ms) in Delivered (pushed es) b.buffer outs
unfolding create
run-Delivered interval_ms es h = run_from-Delivered es (create interval_ms) h
