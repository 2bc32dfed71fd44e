-- ===== src/LruCache/Reads.antt =====
-- What can be read from the cache, at any time, before and after each method.
use talksy.Common.{
  ℕ, ◌+◌, ◌-◌, ◌≤◌, ◌<◌, ◌≡◌, ◌≢◌, ◌⊎◌, refl, sym, ap, ◌∙◌, true, ltb, ◌&&◌, if◌then◌else◌, [], ◌∷◌,
  ◌++◌, Option, none, some, arith, String, drop, head?, length-append, drop-append_le, Bool-cases,
  Option-cases, inl, inr, str_dec, if_pos, if_neg, subst,
}
use talksy.Common.Map
use talksy.Common.Map.{Map, Distinct}
use talksy.LruCache.{
  CacheEntry, LruCache, is_expired, ttl_or, make_entry, get, set, has, prune_entries, prune,
}
use talksy.LruCache.Entries.{set-cache}
use talksy.LruCache.Valid.{IsValid, prune_entries_absent}

module _ {ℓ} {T : Type ℓ} where
  unfoldable pub read : ℕ → Option (CacheEntry T) → Option T
  read now none = none
  read now (some e) = if is_expired now e then none else some e.value

  -- The value that a read at the time `now` may return: the one stored, if it has not expired.
  unfoldable pub peek : ℕ → String → LruCache T → Option T
  unfolding read
  peek now key c = read now (Map.get key c.cache)

  later_expired :
      (now t : ℕ) (e : CacheEntry T) → now ≤ t → is_expired now e ≡ true → is_expired t e ≡ true
  later_expired now t e h x = ground arith

  read_expired :
      (now t : ℕ) (e : CacheEntry T) → now ≤ t → is_expired now e ≡ true → none ≡ read t (some e)
  unfolding read
  read_expired now t e h x = rw (later_expired now t e h x)

  read_nothing : (t : ℕ) → read t none ≡ none
  unfolding read
  read_nothing t = refl

  -- An expired entry that is deleted cannot be read later on anyway.
  peek-delete_expired :
      (now t : ℕ) (j key : String) (e : CacheEntry T) (c : LruCache T)
      → now ≤ t
      → Map.get key c.cache ≡ some e
      → is_expired now e ≡ true
      → read t (Map.get j (Map.delete key c.cache)) ≡ read t (Map.get j c.cache)
  unfolding read
  peek-delete_expired now t j key e c h found old =
      rw (Map.get-delete j key c.cache) (elim (str_dec key j) [
        | yes p ↦
            rw (if_pos _ p)
              (read_expired now t e h old ∙ ap (read t) (sym found ∙ ap (λ k. Map.get k c.cache) p))
        | no p ↦ rw (if_neg _ p)
      ])

  -- Nor does it matter to a read that the entry has moved, and when it was used.
  peek-move :
      (now' t : ℕ) (j key : String) (e : CacheEntry T) (c : LruCache T)
      → Map.get key c.cache ≡ some e
      → read t (Map.get j (Map.set key (record e { accessed_at = now' }) (Map.delete key c.cache)))
        ≡ read t (Map.get j c.cache)
  unfolding read
  peek-move now' t j key e c found =
      rw (Map.get-set j key (record e { accessed_at = now' }) (Map.delete key c.cache))
        (elim (str_dec key j) [
          | yes p ↦ rw (if_pos _ p) (ap (read t) (sym found ∙ ap (λ k. Map.get k c.cache) p))
          | no p ↦ rw (if_neg _ p, Map.get-delete j key c.cache, if_neg _ p)
        ])

  -- `get` returns the value stored under the key, if it has not expired, and leaves what any read at that
  -- time or later returns as it is, also where it deletes an entry that has expired.
  pub peek-get :
      (now now' t : ℕ) (j key : String) (c : LruCache T)
      → now ≤ t
      → ((get now now' key c).1 ≡ peek now key c) × (peek t j (get now now' key c).0 ≡ peek t j c)
  unfolding get peek read
  peek-get now now' t j key c h = elim (Option-cases (Map.get key c.cache)) [
    | inl gone ↦ (rw (gone, get, peek), rw (gone, get))
    | inr (e, found) ↦ elim (Bool-cases (is_expired now e)) [
      | inl old ↦ (
        rw (found, old, get, peek, read),
        rw (found, old, get) (peek-delete_expired now t j key e c h found old),
      )
      | inr live ↦ (
        rw (found, live, get, peek, read),
        rw (found, live, get) (peek-move now' t j key e c found),
      )
    ]
  ]

  pub peek-has :
      (now t : ℕ) (j key : String) (c : LruCache T)
      → now ≤ t
      → peek t j (has now key c).0 ≡ peek t j c
  unfolding has peek
  peek-has now t j key c h = elim (Option-cases (Map.get key c.cache)) [
    | inl gone ↦ rw (gone, has)
    | inr (e, found) ↦ elim (Bool-cases (is_expired now e)) [
      | inl old ↦ rw (found, old, has) (peek-delete_expired now t j key e c h found old)
      | inr live ↦ rw (found, live, has)
    ]
  ]

  read-prune_entries :
      (now t : ℕ) (j : String) (m : Map (CacheEntry T))
      → now ≤ t
      → Distinct m
      → read t (Map.get j (prune_entries now m).0) ≡ read t (Map.get j m)
  unfolding prune_entries Map.get
  read-prune_entries now t j [] h d = refl
  read-prune_entries now t j ((k, e) ∷ m) h d =
      let rest = read-prune_entries now t j m h d.1 in
      elim (Bool-cases (is_expired now e)) [
        | inl old ↦ rw old (elim (str_dec k j) [
          | yes p ↦
              let gone : Map.get j m ≡ none = subst (λ i. Map.get i m ≡ none) p (ground arith) in
              rw (if_pos _ p, prune_entries_absent now j m gone)
                (read_nothing t ∙ read_expired now t e h old)
          | no p ↦ rw (if_neg _ p) rest
        ])
        | inr live ↦ rw live (elim (str_dec k j) [
          | yes p ↦ rw (if_pos _ p, if_pos _ p)
          | no p ↦ rw (if_neg _ p, if_neg _ p) rest
        ])
      ]

  -- `prune`, on a cache that has no key twice, leaves what any read at that time or later returns as it is.
  pub peek-prune :
      (now t : ℕ) (j : String) (c : LruCache T)
      → now ≤ t
      → Distinct c.cache
      → peek t j (prune now c).0 ≡ peek t j c
  unfolding prune peek
  peek-prune now t j c h d = read-prune_entries now t j c.cache h d

  get-append_self :
      (k : String) (e : CacheEntry T) (m : Map (CacheEntry T))
      → Map.get k m ≡ none
      → Map.get k (m ++ (k, e) ∷ []) ≡ some e
  get-append_self k e m h =
      ap (Map.get k) (sym (Map.set_absent k e m h))
      ∙ Map.get-set k k e m
      ∙ if_pos (str_dec k k) refl _ _

  get-append_ne :
      (j k : String) (e : CacheEntry T) (m : Map (CacheEntry T))
      → k ≢ j
      → Map.get j (m ++ (k, e) ∷ []) ≡ Map.get j m
  unfolding Map.get
  get-append_ne j k e [] h = if_neg (str_dec k j) h _ _
  get-append_ne j k e ((i, f) ∷ m) h = rw (get-append_ne j k e m h)

  deleted : (key : String) (m : Map (CacheEntry T)) → Map.get key (Map.delete key m) ≡ none
  deleted key m = Map.get-delete key key m ∙ if_pos (str_dec key key) refl _ _

  -- The entries after a `set`, with the number that had to go.
  set-drop :
      {n : ℕ} (now : ℕ) (key : String) (value : T) (ttl_ms : Option ℕ) (c : LruCache T)
      → IsValid n c
      → let m = Map.delete key c.cache in
        (set now key value ttl_ms c).cache
        ≡ drop (Map.size m + 1 - c.max_size) m
          ++ (key, make_entry now (ttl_or ttl_ms c.default_ttl_ms) value) ∷ []
  set-drop now key value ttl_ms c v =
      let m = Map.delete key c.cache in
      let l = (key, make_entry now (ttl_or ttl_ms c.default_ttl_ms) value) ∷ [] in
      set-cache now key value ttl_ms c v.distinct v.positive
      ∙ ap (λ j. drop j (m ++ l)) (omega (arith, length-append m l))
      ∙ drop-append_le _ m l (omega (arith, v.positive))

  -- After a `set` in a valid cache the value can be read until its time to live is over; without a time
  -- to live, for ever.
  pub peek-set_self :
      {n : ℕ} (now t : ℕ) (key : String) (value : T) (ttl_ms : Option ℕ) (c : LruCache T)
      → IsValid n c
      → let ttl = ttl_or ttl_ms c.default_ttl_ms in
        peek t key (set now key value ttl_ms c)
        ≡ (if ltb 0 ttl && ltb (now + ttl) t then none else some value)
  unfolding peek read
  peek-set_self now t key value ttl_ms c v =
      let m = Map.delete key c.cache in
      let ttl = ttl_or ttl_ms c.default_ttl_ms in
      rw
        (
          set-drop now key value ttl_ms c v,
          get-append_self key (make_entry now ttl value) _
              (Map.get-drop_absent key (Map.size m + 1 - c.max_size) m (deleted key c.cache)),
        )
        (elim (Bool-cases (ltb 0 ttl)) [
          | inl some_ttl ↦ let pos : ltb 0 (now + ttl) ≡ true = ground arith in rw (some_ttl, pos)
          | inr no_ttl ↦ rw no_ttl
        ])

  get-drop_one :
      (j : String) (m : Map (CacheEntry T))
      → head? (Map.keys m) ≢ some j
      → Map.get j (drop 1 m) ≡ Map.get j m
  unfolding Map.get
  get-drop_one j [] h = refl
  get-drop_one j ((k, e) ∷ m) h = sym (if_neg (str_dec k j) (λ p. h (ap some p)) _ _)

  get-kept :
      {n : ℕ} (j : String) (max : ℕ) (m : Map (CacheEntry T))
      → max ≡ n
      → Map.size m ≤ max
      → (Map.size m < n) ⊎ (head? (Map.keys m) ≢ some j)
      → Map.get j (drop (Map.size m + 1 - max) m) ≡ Map.get j m
  get-kept j max m same b (inl room) =
      let e : Map.size m + 1 - max ≡ 0 = omega arith in ap (λ k. Map.get j (drop k m)) e
  get-kept j max m same b (inr other) = elim (Bool-cases (ltb (Map.size m) max)) [
    | inl room ↦ let e : Map.size m + 1 - max ≡ 0 = ground arith in ap (λ k. Map.get j (drop k m)) e
    | inr full ↦
        let e : Map.size m + 1 - max ≡ 1 = ground arith in
        ap (λ k. Map.get j (drop k m)) e ∙ get-drop_one j m other
  ]

  -- In a valid cache, `set` leaves what can be read under any other key as it is, but for one key: if the
  -- cache is full of other keys, the one that has gone unused for longest.
  pub peek-set_other :
      {n : ℕ} (now t : ℕ) (j key : String) (value : T) (ttl_ms : Option ℕ) (c : LruCache T)
      → IsValid n c
      → key ≢ j
      → (Map.size (Map.delete key c.cache) < n)
        ⊎ (head? (Map.keys (Map.delete key c.cache)) ≢ some j)
      → peek t j (set now key value ttl_ms c) ≡ peek t j c
  unfolding peek
  peek-set_other {n} now t j key value ttl_ms c v ne kept =
      let m = Map.delete key c.cache in
      let entry = make_entry now (ttl_or ttl_ms c.default_ttl_ms) value in
      ap (read t) (
        ap (Map.get j) (set-drop now key value ttl_ms c v)
        ∙ get-append_ne j key entry _ ne
        ∙ get-kept {n = n} j c.max_size m v.limit
            (omega (arith, v.bounded, Map.size-delete-le key c.cache)) kept
        ∙ Map.get-delete j key c.cache
        ∙ if_neg (str_dec key j) ne _ _)
