-- ===== src/Window.antt =====
-- src/rate-limit/sliding-window.ts: the class `SlidingWindow`. A method that changes the object returns
-- the new record, first. Times are natural numbers of milliseconds, so that `t <= now - windowMs` is
-- written `t + windowMs <= now`: the difference may be negative.
pub mod Live
pub mod Contents
pub mod Log
mod Tests
use talksy.Common.{
  ℕ, zero, suc, ◌+◌, ◌-◌, ◌%◌, Bool, true, false, ltb, leb, ◌==◌, ◌&&◌, if◌then◌else◌, Option, none,
  some,
}
use talksy.Common.Slots.{Slots, slot, write, replicate}

pub record SlidingWindow : Type 0 where
  pub timestamps : Slots ℕ
  pub head : ℕ
  pub tail : ℕ
  pub count : ℕ
  pub capacity : ℕ
  pub window_ms : ℕ

unfoldable pub create : ℕ → ℕ → SlidingWindow
create max_requests window_ms = record {
  timestamps = replicate (max_requests + 1) (some 0);
  head = 0;
  tail = 0;
  count = 0;
  capacity = max_requests + 1;
  window_ms = window_ms;
}

-- The method `record`.
unfoldable pub record_at : ℕ → SlidingWindow → SlidingWindow
unfolding write
record_at now w =
    let full = record w {
      timestamps = write w.timestamps w.tail now;
      tail = (w.tail + 1) % w.capacity;
      head = (w.head + 1) % w.capacity;
    } in
    let room = record w {
      timestamps = write w.timestamps w.tail now;
      tail = (w.tail + 1) % w.capacity;
      count = w.count + 1;
    } in
    if ltb w.count w.capacity then room else full

-- `timestamps[head] <= windowStart`, which is false for an undefined slot.
unfoldable pub is_expired : ℕ → ℕ → Option ℕ → Bool
is_expired window_ms now none = false
is_expired window_ms now (some t) = leb (t + window_ms) now

-- The `while` loop of `getCount`; each round takes one from `count`, which is the fuel.
unfoldable pub skip_expired : ℕ → ℕ → SlidingWindow → SlidingWindow
unfolding slot is_expired
skip_expired zero now w = w
skip_expired (suc fuel) now w =
    elim (ltb 0 w.count && is_expired w.window_ms now (slot w.timestamps w.head)) [
      | true ↦
          skip_expired fuel now (record w { head = (w.head + 1) % w.capacity; count = w.count - 1 })
      | false ↦ w
    ]

unfoldable pub get_count : ℕ → SlidingWindow → SlidingWindow × ℕ
unfolding skip_expired
get_count now w = let w' = skip_expired w.count now w in (w', w'.count)

unfoldable pub get_oldest : ℕ → SlidingWindow → SlidingWindow × Option ℕ
unfolding get_count slot
get_oldest now w =
    let (w', n) = get_count now w in
    (w', if w'.count == 0 then none else slot w'.timestamps w'.head)

unfoldable pub clear : SlidingWindow → SlidingWindow
clear w = record w { head = 0; tail = 0; count = 0 }

unfoldable pub is_empty : ℕ → SlidingWindow → SlidingWindow × Bool
unfolding get_count
is_empty now w = let (w', n) = get_count now w in (w', n == 0)
