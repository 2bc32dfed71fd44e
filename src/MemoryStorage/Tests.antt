-- ===== src/MemoryStorage/Tests.antt =====
-- The storage at concrete inputs.
use talksy.Common.{
  ℕ, ◌≡◌, refl, true, if◌then◌else◌, List, [], ◌∷◌, none, some, arith, str_dec, ite,
}
use talksy.Common.Map
use talksy.Common.Map.{Distinct}
use talksy.MemoryStorage.{Store, get, set, has, keys, fire}
use talksy.MemoryStorage.Reads.{keeps_to, get-set}
use talksy.MemoryStorage.Timers.{Op, set_op, apply_all, timer_of, get-fire}

-- The session of "a" expires at 100.
abbrev store : Store ℕ
store = ("a", record { session = 1; expires_at = some 100; timer = some 101 }) ∷ []

-- At that moment it is found, and not listed.
due-store : ((has 100 "a" store).1 ≡ true) × (keys 100 store ≡ [])
unfolding has keys Map.get
due-store = (refl, refl)

get-set_example :
    (get 50 "a" (set 10 11 "b" 2 (some 30) store)).1
    ≡ ite (str_dec "b" "a") (if keeps_to 10 50 (some 30) then some 2 else none) (get 50 "a" store).1
get-set_example = get-set 10 11 50 "a" "b" 2 (some 30) store

store-Distinct : Distinct store
unfolding Map.get
store-Distinct = (refl, tt)

abbrev ops : List (Op ℕ)
ops = set_op 1 1 "a" 7 none ∷ set_op 10 11 "a" 8 (some 30) ∷ []

ops-timer : timer_of (Map.get "a" (apply_all ops [])) ≡ some 41
unfolding apply_all set Map.get Map.set
ops-timer = refl

get-fire_example : (get 50 "a" (fire "a" (apply_all ops []))).1 ≡ (get 50 "a" (apply_all ops [])).1
get-fire_example =
    get-fire ops "a" "a" 41 50 (omega arith, (omega arith, tt)) ops-timer (omega arith)
