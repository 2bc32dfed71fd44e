-- ===== src/Buffer/Tests.antt =====
-- The circular buffer at concrete inputs.
use talksy.Common.{ℕ, ◌≡◌, refl, List, [], ◌∷◌, map, foldl, some, ok, min, arith, length, take_last}
use talksy.Buffer
use talksy.Buffer.{CircularBuffer, create, push, to_array, copy_from, peek_first, peek_last}
use talksy.Buffer.Contents.{to_array-pushes}

abbrev three : List ℕ
three = 7 ∷ 8 ∷ 9 ∷ []

-- Capacity two, and three pushes: the first is gone.
to_array-three :
    (b : CircularBuffer ℕ) × (create 2 ≡ ok b)
    × (to_array (foldl (λ c x. push x c) b three) ≡ some 8 ∷ some 9 ∷ [])
unfolding create push to_array
to_array-three = (record { buffer = _; head = 0; size = 0; capacity = 2 }, refl, refl)

to_array-pushes_example :
    (b : CircularBuffer ℕ) × (create 2 ≡ ok b)
    × (to_array (foldl (λ c x. push x c) b three) ≡ map some (take_last 2 three))
    × (Buffer.length (foldl (λ c x. push x c) b three) ≡ min 2 (length three))
to_array-pushes_example = to_array-pushes 2 three (omega arith)
