-- ===== src/Window/Contents.antt =====
-- What a sliding window holds, oldest first, and what each method does with it.
use talksy.Common.{
  ℕ, ◌+◌, ◌-◌, ◌%◌, ◌≤◌, ◌<◌, ◌≡◌, refl, sym, ap, ap₂, ◌∙◌, true, false, ltb, if◌then◌else◌, List,
  [], ◌∷◌, ◌++◌, map, some, arith, inl, inr, Bool-cases, length, drop, take_last, head?,
  length-append, length-drop, drop-append_le, subst, map-append, map-drop, lt→ltb, ltb→lt, lt→leb,
  le→leb, zero, suc, le→ltb,
}
use native.Mathlib.Nat.{mod-add-mod}
use talksy.Common.Slots.{
  slot, write, view, length-replicate, length-write, round_zero, view_grow, view_turn, head?-view,
  view-shift,
}
use talksy.Window.{SlidingWindow, create, record_at, is_expired, skip_expired, get_count}
use talksy.Window.Live.{count_live, Ordered, count_live-AllFrom}

pub record Holds (w : SlidingWindow) (ts : List ℕ) : Type 0 where
  pub positive : 1 ≤ w.capacity
  pub storage : length w.timestamps ≡ w.capacity
  pub inside : w.head < w.capacity
  pub filled : w.count ≤ w.capacity
  pub behind : w.tail ≡ (w.head + w.count) % w.capacity
  pub counted : w.count ≡ length ts
  pub shown : view w.timestamps w.capacity w.head 0 w.count ≡ map some ts

pub create-Holds : (max_requests window_ms : ℕ) → Holds (create max_requests window_ms) []
unfolding create view
create-Holds max_requests window_ms = record {
  positive = omega arith;
  storage = length-replicate (max_requests + 1) (some 0);
  inside = omega arith;
  filled = omega arith;
  behind = grind arith;
  counted = refl;
  shown = refl;
}

next_tail : (cap h n t : ℕ) → t ≡ (h + n) % cap → (t + 1) % cap ≡ (h + (n + 1)) % cap
next_tail cap h n t e = rw (e, mod-add-mod) (ap (λ k. k % cap) (omega arith))

full_tail : (cap h n : ℕ) → h < cap → n ≡ cap → (h + n) % cap ≡ h
full_tail cap h n p e = rw e (grind arith)

record_at-Holds_room :
    (now : ℕ) (w : SlidingWindow) (ts : List ℕ)
    → Holds w ts
    → w.count < w.capacity
    → Holds (record_at now w) (ts ++ now ∷ [])
unfolding record_at
record_at-Holds_room now w ts h l = rw (lt→ltb _ _ l) (record {
  positive = h.positive;
  storage = length-write w.timestamps w.tail now (omega arith) ∙ h.storage;
  inside = h.inside;
  filled = omega arith;
  behind = next_tail w.capacity w.head w.count w.tail h.behind;
  counted = omega (arith, length-append ts (now ∷ []));
  shown =
      ap (view (write w.timestamps w.tail now) w.capacity w.head 0) (omega arith)
      ∙ view_grow w.timestamps w.capacity w.head w.count w.tail now h.inside l h.behind
      ∙ ap (λ v. v ++ some now ∷ []) h.shown
      ∙ sym (map-append some ts (now ∷ []));
})

record_at-Holds_full :
    (now : ℕ) (w : SlidingWindow) (ts : List ℕ)
    → Holds w ts
    → w.count ≡ w.capacity
    → Holds (record_at now w) (drop 1 ts ++ now ∷ [])
unfolding record_at
record_at-Holds_full now w ts h l =
    let e : w.capacity ≡ suc (w.capacity - 1) = omega arith in
    let at : w.tail ≡ w.head = rw h.behind (full_tail w.capacity w.head w.count h.inside l) in
    rw (le→ltb w.count w.capacity (omega arith)) (record {
      positive = h.positive;
      storage = length-write w.timestamps w.tail now (omega arith) ∙ h.storage;
      inside = omega arith;
      filled = h.filled;
      behind = rw at (sym (full_tail w.capacity _ w.count (omega arith) l));
      counted = omega (arith, length-append (drop 1 ts) (now ∷ []), length-drop 1 ts);
      shown =
          ap₂ (λ t n. view (write w.timestamps t now) w.capacity ((w.head + 1) % w.capacity) 0 n) at
            (l ∙ e)
          ∙ view_turn w.timestamps w.capacity w.head (w.capacity - 1) now h.inside e
          ∙ ap (λ n. drop 1 (view w.timestamps w.capacity w.head 0 n) ++ some now ∷ [])
              (sym e ∙ sym l)
          ∙ ap (λ v. drop 1 v ++ some now ∷ []) h.shown
          ∙ ap (λ v. v ++ some now ∷ []) (sym (map-drop some 1 ts))
          ∙ sym (map-append some (drop 1 ts) (now ∷ []));
    })

-- A recording leaves the last `capacity` of what was held and the new timestamp.
pub record_at-Holds :
    (now : ℕ) (w : SlidingWindow) (ts : List ℕ)
    → Holds w ts
    → Holds (record_at now w) (take_last w.capacity (ts ++ now ∷ []))
record_at-Holds now w ts h = elim (Bool-cases (ltb w.count w.capacity)) [
  | inl l ↦
      let e : length (ts ++ now ∷ []) - w.capacity ≡ 0 =
        ground (arith, length-append ts (now ∷ [])) in
      rw e (record_at-Holds_room now w ts h (ltb→lt _ _ l))
  | inr l ↦
      let e : length (ts ++ now ∷ []) - w.capacity ≡ 1 =
        ground (arith, length-append ts (now ∷ [])) in
      rw e (
        subst (Holds (record_at now w)) (sym (drop-append_le 1 ts (now ∷ []) (ground arith)))
          (record_at-Holds_full now w ts h (ground arith)))
]

-- The first slot of what is shown.
first_slot :
    (w : SlidingWindow) (t : ℕ) (ts : List ℕ) → Holds w (t ∷ ts) → slot w.timestamps w.head ≡ some t
first_slot w t ts h =
    let e : some (slot w.timestamps ((w.head + 0) % w.capacity)) ≡ some (some t) =
      sym (head?-view w.timestamps w.capacity w.head w.count (omega arith)) ∙ ap head? h.shown in
    ap (slot w.timestamps) (sym (round_zero _ _ h.inside)) ∙ cc

step-Holds :
    (w : SlidingWindow) (t : ℕ) (ts : List ℕ)
    → Holds w (t ∷ ts)
    → Holds (record w { head = (w.head + 1) % w.capacity; count = w.count - 1 }) ts
unfolding view
step-Holds w t ts h =
    let n = w.count - 1 in
    let e : w.count ≡ suc n = omega arith in
    record {
      positive = h.positive;
      storage = h.storage;
      inside = omega arith;
      filled = omega arith;
      behind = h.behind ∙ rw mod-add-mod (ap (λ k. k % w.capacity) (omega arith));
      counted = omega arith;
      shown =
          view-shift w.timestamps w.capacity w.head 0 n
          ∙ ap (drop 1) (ap (view w.timestamps w.capacity w.head 0) (sym e) ∙ h.shown);
    }

-- The timestamps that the loop leaves: those from the first on that lies in the window.
unfoldable pub from_live : (window now : ℕ) → List ℕ → List ℕ
from_live window now [] = []
from_live window now (t ∷ ts) = if ltb now (t + window) then t ∷ ts else from_live window now ts

skip_expired-Holds :
    (fuel now : ℕ) (w : SlidingWindow) (ts : List ℕ)
    → length ts ≤ fuel
    → Holds w ts
    → Holds (skip_expired fuel now w) (from_live w.window_ms now ts)
unfolding skip_expired from_live is_expired
skip_expired-Holds zero now w [] b h = h
skip_expired-Holds zero now w (t ∷ ts) b h = absurd (omega arith)
skip_expired-Holds (suc fuel) now w [] b h =
    let e : ltb 0 w.count ≡ false = ground arith in rw (e, skip_expired) h
skip_expired-Holds (suc fuel) now w (t ∷ ts) b h =
    let rest = skip_expired-Holds fuel now _ ts (omega arith) (step-Holds w t ts h) in
    let e : ltb 0 w.count ≡ true = ground arith in
    rw (e, first_slot w t ts h, skip_expired)
      (elim (Bool-cases (ltb now (t + w.window_ms))) [
        | inl live ↦ rw (live, lt→leb (t + w.window_ms) now (ltb→lt _ _ live)) h
        | inr old ↦ rw (old, le→leb (t + w.window_ms) now (ground arith)) rest
      ])

pub get_count-Holds :
    (now : ℕ) (w : SlidingWindow) (ts : List ℕ)
    → Holds w ts
    → Holds (get_count now w).0 (from_live w.window_ms now ts)
      × ((get_count now w).1 ≡ length (from_live w.window_ms now ts))
unfolding get_count
get_count-Holds now w ts h =
    let h' = skip_expired-Holds w.count now w ts (omega arith) h in (h', h'.counted)

-- In a list in order, the live timestamps are a suffix.
pub length-from_live :
    (window now : ℕ) (ts : List ℕ)
    → Ordered ts
    → length (from_live window now ts) ≡ count_live window now ts
unfolding from_live count_live
length-from_live window now [] o = refl
length-from_live window now (t ∷ ts) o = ground (
  arith,
  length-from_live window now ts o.1,
  λ (p : now < t + window). count_live-AllFrom window now t ts p o.0,
)

pub length-from_live-le :
    (window now : ℕ) (ts : List ℕ) → length (from_live window now ts) ≤ length ts
unfolding from_live
length-from_live-le window now [] = omega arith
length-from_live-le window now (t ∷ ts) = ground (arith, length-from_live-le window now ts)

-- What is left after the loop is the longest suffix without expired timestamps at its front.
pub from_live-suffix :
    (window now : ℕ) (ts : List ℕ)
    → from_live window now ts ≡ take_last (length (from_live window now ts)) ts
unfolding from_live
from_live-suffix window now [] = refl
from_live-suffix window now (t ∷ ts) = elim (Bool-cases (ltb now (t + window))) [
  | inl live ↦ let e : suc (length ts) - suc (length ts) ≡ 0 = omega arith in rw (live, e)
  | inr old ↦
      let k = length (from_live window now ts) in
      let e : suc (length ts) - k ≡ suc (length ts - k) =
        omega (arith, length-from_live-le window now ts) in
      rw (old, e) (from_live-suffix window now ts)
]

-- The methods leave the configuration alone.
pub capacity-record_at : (now : ℕ) (w : SlidingWindow) → (record_at now w).capacity ≡ w.capacity
unfolding record_at
capacity-record_at now w = ground arith

pub window_ms-record_at : (now : ℕ) (w : SlidingWindow) → (record_at now w).window_ms ≡ w.window_ms
unfolding record_at
window_ms-record_at now w = ground arith

skip_expired-config :
    (fuel now : ℕ) (w : SlidingWindow)
    → ((skip_expired fuel now w).capacity ≡ w.capacity)
      × ((skip_expired fuel now w).window_ms ≡ w.window_ms)
unfolding skip_expired
skip_expired-config zero now w = (refl, refl)
skip_expired-config (suc fuel) now w = ground (
  arith,
  skip_expired-config fuel now (record w { head = (w.head + 1) % w.capacity; count = w.count - 1 }),
)

pub capacity-get_count : (now : ℕ) (w : SlidingWindow) → (get_count now w).0.capacity ≡ w.capacity
unfolding get_count
capacity-get_count now w = (skip_expired-config w.count now w).0

pub window_ms-get_count :
    (now : ℕ) (w : SlidingWindow) → (get_count now w).0.window_ms ≡ w.window_ms
unfolding get_count
window_ms-get_count now w = (skip_expired-config w.count now w).1
