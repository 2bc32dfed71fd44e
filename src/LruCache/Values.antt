-- ===== src/LruCache/Values.antt =====
-- Code: src/cache/lru-cache.ts. Which values a cache holds after each method: no method but `set` brings one
-- in.
use talksy.Common.{
  ℕ, zero, suc, ◌≡◌, ◌≢◌, ◌⊎◌, [], ◌∷◌, Option, none, some, arith, String, Option-cases, List-cases,
  inl, inr, str_dec, if◌then◌else◌,
}
use talksy.Common.Map
use talksy.Common.Map.{Map, Distinct}
use talksy.LruCache.{
  CacheEntry, LruCache, ttl_or, make_entry, get, evict_lru, evict_while, set, has, prune_entries,
  prune,
}
use talksy.LruCache.Valid.{prune_entries_absent}

module _ {T : Type 0} where
  abbrev pub entry_value : Option (CacheEntry T) → Option T
  entry_value none = none
  entry_value (some e) = some e.value

  -- The value under a key, whether it has expired or not.
  abbrev pub value_at : String → LruCache T → Option T
  value_at k c = entry_value (Map.get k c.cache)

  -- Each value of the first cache stands in the second under the same key.
  abbrev pub Within : LruCache T → LruCache T → Type 0
  Within c d = (k : String) (v : T) → value_at k c ≡ some v → value_at k d ≡ some v

  pub delete-Within :
      (key : String) (c : LruCache T) → Within (record c { cache = Map.delete key c.cache }) c
  delete-Within key c k v h = ground (arith, Map.get-delete k key c.cache)

  pub get-Within : (now now' : ℕ) (key : String) (c : LruCache T) → Within (get now now' key c).0 c
  unfolding get
  get-Within now now' key c k v h = elim (Option-cases (Map.get key c.cache)) [
    | inl gone ↦ ground arith
    | inr (e, found) ↦ ground (
      arith,
      Map.get-delete k key c.cache,
      Map.get-set k key (record e { accessed_at = now' }) (Map.delete key c.cache),
    )
  ]

  pub get-value :
      (now now' : ℕ) (key : String) (c : LruCache T) (v : T)
      → (get now now' key c).1 ≡ some v
      → value_at key c ≡ some v
  unfolding get
  get-value now now' key c v h = ground arith

  pub has-Within : (now : ℕ) (key : String) (c : LruCache T) → Within (has now key c).0 c
  unfolding has
  has-Within now key c k v h = ground (arith, Map.get-delete k key c.cache)

  evict_lru-Within : (c : LruCache T) → Within (evict_lru c) c
  unfolding evict_lru
  evict_lru-Within c k v h = elim (List-cases c.cache) [
    | inl e ↦ ground arith
    | inr (x, m, e) ↦ ground (arith, Map.get-delete k x.0 c.cache)
  ]

  evict_while-Within : (fuel : ℕ) (c : LruCache T) → Within (evict_while fuel c) c
  unfolding evict_while
  evict_while-Within zero c k v h = h
  evict_while-Within (suc fuel) c k v h =
      ground (arith, evict_while-Within fuel (evict_lru c) k v, evict_lru-Within c k v)

  -- After a `set` the value stands under its key; any other stood there before.
  pub set-value_at :
      (now : ℕ) (key k : String) (value v : T) (ttl_ms : Option ℕ) (c : LruCache T)
      → value_at k (set now key value ttl_ms c) ≡ some v
      → ((key ≡ k) × (v ≡ value)) ⊎ ((key ≢ k) × (value_at k c ≡ some v))
  unfolding set
  set-value_at now key k value v ttl_ms c h =
      let removed = if Map.has key c.cache then Map.delete key c.cache else c.cache in
      let fuel = Map.size removed in
      let c' = evict_while fuel (record c { cache = removed }) in
      let stored = make_entry now (ttl_or ttl_ms c.default_ttl_ms) value in
      let put = Map.get-set k key stored c'.cache in
      elim (str_dec key k) [
        | yes e ↦ inl (e, ground (arith, put))
        | no e ↦ inr (
          e,
          ground (
            arith,
            put,
            evict_while-Within fuel (record c { cache = removed }) k v,
            Map.get-delete k key c.cache,
          ),
        )
      ]

  prune_entries-value :
      (now : ℕ) (k : String) (v : T) (m : Map (CacheEntry T))
      → Distinct m
      → entry_value (Map.get k (prune_entries now m).0) ≡ some v
      → entry_value (Map.get k m) ≡ some v
  unfolding prune_entries Map.get
  prune_entries-value now k v [] d h = h
  prune_entries-value now k v ((j, e) ∷ m) d h =
      ground (arith, prune_entries-value now k v m d.1, prune_entries_absent now k m)

  pub prune-Within : (now : ℕ) (c : LruCache T) → Distinct c.cache → Within (prune now c).0 c
  unfolding prune
  prune-Within now c d k v h = prune_entries-value now k v c.cache d h
