-- ===== src/LruCache.antt =====
-- src/cache/lru-cache.ts: the class `LRUCache`. The `Map` keeps the entries in the order of use, the
-- least recently used first. A method that changes the cache returns the new one, first; each reading
-- of the clock is an argument.
pub mod Entries
pub mod Valid
pub mod Reads
pub mod Values
pub mod Store
mod Tests
use talksy.Common.{
  ℕ, zero, suc, ◌+◌, ◌*◌, ◌/◌, Bool, true, false, ltb, leb, ◌==◌, ◌&&◌, if◌then◌else◌, List, [],
  ◌∷◌, Option, none, some, String, Result, ok, throw,
}
use talksy.Common.Map
use talksy.Common.Map.{Map}

pub record CacheEntry {ℓ} (T : Type ℓ) : Type ℓ where
  pub value : T
  pub expires_at : ℕ
  pub accessed_at : ℕ

pub record CacheMetrics : Type 0 where
  pub hits : ℕ
  pub misses : ℕ
  pub evictions : ℕ
  pub size : ℕ
  pub max_size : ℕ

pub record LruCache {ℓ} (T : Type ℓ) : Type ℓ where
  pub cache : Map (CacheEntry T)
  pub max_size : ℕ
  pub default_ttl_ms : ℕ
  pub hits : ℕ
  pub misses : ℕ
  pub evictions : ℕ

-- `entry.expiresAt > 0 && Date.now() > entry.expiresAt`
abbrev pub is_expired {ℓ} : {T : Type ℓ} → ℕ → CacheEntry T → Bool
is_expired now entry = ltb 0 entry.expires_at && ltb entry.expires_at now

-- `ttlMs !== undefined ? ttlMs : this.defaultTtlMs`
abbrev pub ttl_or : Option ℕ → ℕ → ℕ
ttl_or none d = d
ttl_or (some ttl) d = ttl

module _ {ℓ} {T : Type ℓ} where
  -- The constructor. A negative `defaultTtlMs`, which it refuses too, is no natural number.
  unfoldable pub create : ℕ → ℕ → Result (LruCache T)
  create max_size default_ttl_ms =
      if ltb max_size 1
      then throw "Cache maxSize must be at least 1"
      else ok (record {
        cache = [];
        max_size = max_size;
        default_ttl_ms = default_ttl_ms;
        hits = 0;
        misses = 0;
        evictions = 0;
      })

  -- A hit reads the clock twice, for the test and for `accessedAt`.
  unfoldable pub get : ℕ → ℕ → String → LruCache T → LruCache T × Option T
  get now now' key c = elim (Map.get key c.cache) [
    | none ↦ (record c { misses = c.misses + 1 }, none)
    | some entry ↦
        if is_expired now entry
        then (record c { cache = Map.delete key c.cache; misses = c.misses + 1 }, none)
        else (
          record c {
            cache = Map.set key (record entry { accessed_at = now' }) (Map.delete key c.cache);
            hits = c.hits + 1;
          },
          some entry.value,
        )
  ]

  unfoldable pub evict_lru : LruCache T → LruCache T
  evict_lru c = elim c.cache [
    | [] ↦ c
    | (first_key, entry) ∷ rest ↦ record c {
      cache = Map.delete first_key c.cache;
      evictions = c.evictions + 1;
    }
  ]

  -- `while (this.cache.size >= this.maxSize)`, on fuel: each round takes one entry.
  unfoldable pub evict_while : ℕ → LruCache T → LruCache T
  unfolding evict_lru
  evict_while zero c = c
  evict_while (suc fuel) c = elim (leb c.max_size (Map.size c.cache)) [
    | true ↦ evict_while fuel (evict_lru c)
    | false ↦ c
  ]

  abbrev pub make_entry : ℕ → ℕ → T → CacheEntry T
  make_entry now ttl value = record {
    value = value;
    expires_at = if ltb 0 ttl then now + ttl else 0;
    accessed_at = now;
  }

  unfoldable pub set : ℕ → String → T → Option ℕ → LruCache T → LruCache T
  unfolding evict_while
  set now key value ttl_ms c =
      let ttl = ttl_or ttl_ms c.default_ttl_ms in
      let removed = if Map.has key c.cache then Map.delete key c.cache else c.cache in
      let c' = evict_while (Map.size removed) (record c { cache = removed }) in
      record c' { cache = Map.set key (make_entry now ttl value) c'.cache }

  unfoldable pub delete : String → LruCache T → LruCache T × Bool
  delete key c = (record c { cache = Map.delete key c.cache }, Map.has key c.cache)

  unfoldable pub has : ℕ → String → LruCache T → LruCache T × Bool
  has now key c = elim (Map.get key c.cache) [
    | none ↦ (c, false)
    | some entry ↦
        if is_expired now entry
        then (record c { cache = Map.delete key c.cache }, false)
        else (c, true)
  ]

  unfoldable pub clear : LruCache T → LruCache T
  clear c = record c { cache = [] }

  abbrev pub size : LruCache T → ℕ
  size c = Map.size c.cache

  unfoldable pub get_metrics : LruCache T → CacheMetrics
  get_metrics c = record {
    hits = c.hits;
    misses = c.misses;
    evictions = c.evictions;
    size = Map.size c.cache;
    max_size = c.max_size;
  }

  unfoldable pub reset_metrics : LruCache T → LruCache T
  reset_metrics c = record c { hits = 0; misses = 0; evictions = 0 }

  abbrev pub keys : LruCache T → List String
  keys c = Map.keys c.cache

  -- The loop of `prune`: an entry that has expired is deleted as it is met, and counted.
  unfoldable pub prune_entries : ℕ → Map (CacheEntry T) → Map (CacheEntry T) × ℕ
  prune_entries now [] = ([], 0)
  prune_entries now ((key, entry) ∷ m) =
      let (rest, pruned) = prune_entries now m in
      if is_expired now entry then (rest, pruned + 1) else ((key, entry) ∷ rest, pruned)

  unfoldable pub prune : ℕ → LruCache T → LruCache T × ℕ
  unfolding prune_entries
  prune now c =
      let (rest, pruned) = prune_entries now c.cache in (record c { cache = rest }, pruned)
