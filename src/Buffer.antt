-- ===== src/Buffer.antt =====
-- src/session/utils/circular-buffer.ts: the class `CircularBuffer`. A method that changes the object
-- returns the new record. `undefined` is `none`; the cast `as T` of `toArray` leaves it what it is,
-- so an array that is read is a list of slots.

pub mod Contents
mod Tests
use talksy.Common.{
  ℕ, zero, suc, ◌+◌, ◌-◌, ◌%◌, Bool, ltb, ◌==◌, if◌then◌else◌, List, [], ◌∷◌, map, Option, none,
  Result, ok, throw,
}
use talksy.Common.Slots.{Slots, slot, write, view, replicate}

pub record CircularBuffer {ℓ} (T : Type ℓ) : Type ℓ where
  pub buffer : Slots T
  pub head : ℕ
  pub size : ℕ
  pub capacity : ℕ

module _ {ℓ} {T : Type ℓ} where
  -- `constructor`
  unfoldable pub create : ℕ → Result (CircularBuffer T)
  create capacity =
      if ltb capacity 1
      then throw "CircularBuffer capacity must be at least 1"
      else ok (record { buffer = replicate capacity none; head = 0; size = 0; capacity = capacity })

  unfoldable pub push : T → CircularBuffer T → CircularBuffer T
  unfolding write
  push item b = record b {
    buffer = write b.buffer b.head item;
    head = (b.head + 1) % b.capacity;
    size = if ltb b.size b.capacity then b.size + 1 else b.size;
  }

  -- The first loop of `toArray`: `buffer[i]` for the `n` indices from `i` on.
  unfoldable pub copy_from : Slots T → ℕ → ℕ → List (Option T)
  unfolding slot
  copy_from buffer i zero = []
  copy_from buffer i (suc n) = slot buffer i ∷ copy_from buffer (suc i) n

  -- The second loop is `view`: `buffer[(head + i) % capacity]` for each `i`.
  unfoldable pub to_array : CircularBuffer T → List (Option T)
  unfolding copy_from view
  to_array b =
      if b.size == 0
      then []
      else if ltb b.size b.capacity
      then copy_from b.buffer 0 b.size
      else view b.buffer b.capacity b.head 0 b.capacity

  abbrev pub length : CircularBuffer T → ℕ
  length b = b.size

  abbrev pub is_empty : CircularBuffer T → Bool
  is_empty b = b.size == 0

  abbrev pub is_full : CircularBuffer T → Bool
  is_full b = b.size == b.capacity

  unfoldable pub clear : CircularBuffer T → CircularBuffer T
  clear b = record b { buffer = map (λ x. none) b.buffer; head = 0; size = 0 }

  unfoldable pub get_capacity : CircularBuffer T → ℕ
  get_capacity b = b.capacity

  -- `head - 1 + capacity` is not negative, since the test has found an item.
  unfoldable pub peek_last : CircularBuffer T → Option T
  unfolding slot
  peek_last b = if b.size == 0 then none else slot b.buffer ((b.head + b.capacity - 1) % b.capacity)

  unfoldable pub peek_first : CircularBuffer T → Option T
  unfolding slot
  peek_first b =
      if b.size == 0
      then none
      else if ltb b.size b.capacity
      then slot b.buffer 0
      else slot b.buffer b.head
