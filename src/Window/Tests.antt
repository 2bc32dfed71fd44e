-- ===== src/Window/Tests.antt =====
-- The sliding window at concrete inputs.
use talksy.Common.{ℕ, ◌≡◌, refl, List, [], ◌∷◌}
use talksy.Window.{create, record_at, get_count}
use talksy.Window.Log.{record_all}

abbrev times : List ℕ
times = 10 ∷ 20 ∷ 30 ∷ 40 ∷ []

-- Of the three that are kept, the one at 30 is the oldest in the window.
get_count-times : (get_count 45 (record_all times (create 2 20))).1 ≡ 2
unfolding record_all create record_at get_count
get_count-times = refl
