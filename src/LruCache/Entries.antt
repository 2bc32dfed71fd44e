-- ===== src/LruCache/Entries.antt =====
-- Code: src/cache/lru-cache.ts. The entries after an eviction and a `set`, in the order of use.
use talksy.Common.{
  ℕ, zero, suc, ◌+◌, ◌-◌, ◌≤◌, ◌≡◌, refl, sym, ap, ap₂, ◌∙◌, leb, if◌then◌else◌, [], ◌∷◌, ◌++◌,
  Option, none, arith, String, drop, take_last, length-append, length-drop, drop-append_le,
  Bool-cases, inl, inr, drop-drop, leb→le, lt→leb, false, str_dec, if_pos,
}
use native.Mathlib.Nat.{add_assoc}
use talksy.Common.Map
use talksy.Common.Map.{Map, Distinct}
use talksy.LruCache.{CacheEntry, LruCache, ttl_or, make_entry, evict_lru, evict_while, set}

module _ {ℓ} {T : Type ℓ} where
  -- The cache after `n` evictions.
  abbrev pub evicted : LruCache T → ℕ → LruCache T
  evicted c n = record c { cache = drop n c.cache; evictions = c.evictions + n }

  evicted_zero : (c : LruCache T) → evicted c 0 ≡ c
  evicted_zero c = ap (λ n. record c { evictions = n }) (omega arith)

  evicted-evicted : (c : LruCache T) (m n : ℕ) → evicted (evicted c m) n ≡ evicted c (m + n)
  evicted-evicted c m n =
      ap₂ (λ l k. record c { cache = l; evictions = k }) (drop-drop n m c.cache)
        (add_assoc c.evictions m n)

  evict_lru-evicted :
      (m : Map (CacheEntry T)) (c : LruCache T)
      → c.cache ≡ m
      → Distinct m
      → 1 ≤ Map.size m
      → evict_lru c ≡ evicted c 1
  unfolding evict_lru
  evict_lru-evicted [] c e d h = absurd (omega arith)
  evict_lru-evicted ((k, v) ∷ m) c e d h =
      rw (e, evict_lru)
        (ap (λ l. record c { cache = l; evictions = c.evictions + 1 })
          (ap (Map.delete k) e ∙ Map.delete_first k v m d))

  -- The loop ends below the maximum, and has dropped no more than that takes.
  pub evict_while-evicted :
      (fuel : ℕ) (c : LruCache T)
      → Distinct c.cache
      → Map.size c.cache ≤ fuel
      → 1 ≤ c.max_size
      → evict_while fuel c ≡ evicted c (Map.size c.cache + 1 - c.max_size)
  unfolding evict_while
  evict_while-evicted zero c d h p = sym (evicted_zero c) ∙ ap (evicted c) (omega arith)
  evict_while-evicted (suc fuel) c d h p = elim (Bool-cases (leb c.max_size (Map.size c.cache))) [
    | inl full ↦
        let over : c.max_size ≤ Map.size c.cache = leb→le _ _ full in
        let c' = evicted c 1 in
        let size : Map.size c'.cache ≡ Map.size c.cache - 1 = length-drop 1 c.cache in
        rw (full, evict_while)
          (ap (evict_while fuel) (evict_lru-evicted c.cache c refl d (omega arith))
            ∙ evict_while-evicted fuel c' (Map.drop-Distinct 1 c.cache d) (omega (arith, size)) p
            ∙ evicted-evicted c 1 _
            ∙ ap (evicted c) (omega (arith, size)))
    | inr room ↦ rw (room, evict_while) (sym (evicted_zero c) ∙ ap (evicted c) (ground arith))
  ]

  -- On a cache that has no key twice, with a maximum of at least one, the loop of evictions ends by its own
  -- test, with room for one entry more, on as much fuel as there are entries; more fuel changes nothing.
  pub evict_while_ends :
      (fuel : ℕ) (c : LruCache T)
      → Distinct c.cache
      → Map.size c.cache ≤ fuel
      → 1 ≤ c.max_size
      → (evict_while fuel c ≡ evict_while (Map.size c.cache) c)
        × (leb c.max_size (Map.size (evict_while fuel c).cache) ≡ false)
  evict_while_ends fuel c d h p =
      let n = Map.size c.cache + 1 - c.max_size in
      let e = evict_while-evicted fuel c d h p in
      let e' = evict_while-evicted (Map.size c.cache) c d (omega arith) p in
      let left : Map.size (drop n c.cache) ≡ Map.size c.cache - n = length-drop n c.cache in
      (
        e ∙ sym e',
        ap (λ (x : LruCache T). leb c.max_size (Map.size x.cache)) e
            ∙ lt→leb c.max_size (Map.size (drop n c.cache)) (omega (arith, left)),
      )

  removed : String → Map (CacheEntry T) → Map (CacheEntry T)
  removed key m = if Map.has key m then Map.delete key m else m

  removed-delete : (key : String) (m : Map (CacheEntry T)) → removed key m ≡ Map.delete key m
  unfolding removed
  removed-delete key m = ground (arith, Map.delete_absent key m)

  -- The entry that is set comes last; of the others, those that were used last are kept, as many as fit.
  pub set-cache :
      (now : ℕ) (key : String) (value : T) (ttl_ms : Option ℕ) (c : LruCache T)
      → Distinct c.cache
      → 1 ≤ c.max_size
      → (set now key value ttl_ms c).cache
        ≡ take_last c.max_size (
            Map.delete key c.cache
            ++ (key, make_entry now (ttl_or ttl_ms c.default_ttl_ms) value) ∷ [])
  unfolding set removed
  set-cache now key value ttl_ms c d p =
      let m = Map.delete key c.cache in
      let entry = make_entry now (ttl_or ttl_ms c.default_ttl_ms) value in
      let n = Map.size m + 1 - c.max_size in
      let gone : Map.get key m ≡ none =
        Map.get-delete key key c.cache ∙ if_pos (str_dec key key) refl _ _ in
      ap (λ r. Map.set key entry (evict_while (Map.size r) (record c { cache = r })).cache)
        (removed-delete key c.cache)
      ∙ ap (λ r. Map.set key entry r.cache)
          (evict_while-evicted (Map.size m) (record c { cache = m })
            (Map.delete-Distinct key c.cache d) (omega arith) p)
      ∙ Map.set_absent key entry (drop n m) (Map.get-drop_absent key n m gone)
      ∙ sym (drop-append_le n m _ (omega arith))
      ∙ ap (λ j. drop j (m ++ (key, entry) ∷ []))
          (omega (arith, length-append m ((key, entry) ∷ [])))

  pub metrics-set :
      (now : ℕ) (key : String) (value : T) (ttl_ms : Option ℕ) (c : LruCache T)
      → Distinct c.cache
      → 1 ≤ c.max_size
      → ((set now key value ttl_ms c).max_size ≡ c.max_size)
        × ((set now key value ttl_ms c).default_ttl_ms ≡ c.default_ttl_ms)
        × ((set now key value ttl_ms c).hits ≡ c.hits)
        × ((set now key value ttl_ms c).misses ≡ c.misses)
        × ((set now key value ttl_ms c).evictions
            ≡ c.evictions + (Map.size (Map.delete key c.cache) + 1 - c.max_size))
  unfolding set removed
  metrics-set now key value ttl_ms c d p =
      let m = Map.delete key c.cache in
      let e =
        ap (λ r. evict_while (Map.size r) (record c { cache = r })) (removed-delete key c.cache)
        ∙ evict_while-evicted (Map.size m) (record c { cache = m })
            (Map.delete-Distinct key c.cache d) (omega arith) p in
      (
        ap (λ r. r.max_size) e,
        ap (λ r. r.default_ttl_ms) e,
        ap (λ r. r.hits) e,
        ap (λ r. r.misses) e,
        ap (λ r. r.evictions) e,
      )
