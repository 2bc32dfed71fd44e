-- ===== src/LruCache/Tests.antt =====
-- The cache at concrete inputs.
use mathlib.Core.Option.{some-injective}
use text.Mathlib.TextEquality.{eq_iff}
use talksy.Common.{
  String, leb, head?, ℕ, ◌≡◌, ◌≢◌, ◌≤◌, refl, true, false, List, [], ◌∷◌, none, some, arith, ok,
  inr,
}
use talksy.Common.Map
use talksy.Common.Map.{Distinct}
use talksy.LruCache.{CacheEntry, LruCache, create, set, evict_while, make_entry}
use talksy.LruCache.Valid.{IsValid, Op, set_op, get_op, prune_op, apply_all, size-apply_all}
use talksy.LruCache.Entries.{evict_while_ends}
use talksy.LruCache.Reads.{peek, peek-set_other}

abbrev entry : ℕ → ℕ → CacheEntry ℕ
entry value expires_at = record { value = value; expires_at = expires_at; accessed_at = 1 }

-- A full cache of two, in which the entry of "x" expires at 50.
abbrev full : LruCache ℕ
full = record {
  cache = ("x", entry 7 50) ∷ ("y", entry 8 0) ∷ [];
  max_size = 2;
  default_ttl_ms = 100;
  hits = 0;
  misses = 0;
  evictions = 0;
}

full-Distinct : Distinct full.cache
unfolding Map.get
full-Distinct = (refl, (refl, tt))

full-IsValid : IsValid 2 full
full-IsValid = record {
  limit = refl;
  positive = omega arith;
  distinct = full-Distinct;
  bounded = omega arith;
}

set-full : (set 5 "z" 9 none full).cache ≡ ("y", entry 8 0) ∷ ("z", make_entry 5 100 9) ∷ []
unfolding set Map.delete Map.set Map.get
set-full = refl

abbrev ops : List (Op ℕ)
ops =
    set_op 1 "x" 7 none
    ∷ set_op 2 "y" 8 (some 0)
    ∷ get_op 3 3 "x"
    ∷ set_op 4 "z" 9 none
    ∷ prune_op 500
    ∷ []

size-apply_all_example :
    (c : LruCache ℕ) × (create 2 100 ≡ ok c)
    × (Map.size (apply_all ops c).cache ≤ 2)
    × Distinct (apply_all ops c).cache
size-apply_all_example = size-apply_all 2 100 ops (omega arith)

x-ne-y : ◌≢◌ {A = String} "x" "y"
x-ne-y p = let h : false ≡ true = (eq_iff "x" "y").1 p in cc

z-ne-y : ◌≢◌ {A = String} "z" "y"
z-ne-y p = let h : false ≡ true = (eq_iff "z" "y").1 p in cc

-- "x", not "y", has gone unused for longest.
oldest-ne-y : head? (Map.keys (Map.delete "z" full.cache)) ≢ some "y"
unfolding Map.delete
oldest-ne-y p = x-ne-y (some-injective "x" "y" p)

peek-set_other_example : peek 80 "y" (set 5 "z" 9 none full) ≡ peek 80 "y" full
peek-set_other_example =
    peek-set_other 5 80 "y" "z" 9 none full full-IsValid z-ne-y (inr oldest-ne-y)

evict_while_ends_example :
    (evict_while 7 full ≡ evict_while 2 full)
    × (leb 2 (Map.size (evict_while 7 full).cache) ≡ false)
evict_while_ends_example = evict_while_ends 7 full full-Distinct (omega arith) (omega arith)
