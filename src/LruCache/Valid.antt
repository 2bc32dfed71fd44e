-- ===== src/LruCache/Valid.antt =====
-- The invariant of the cache, over every sequence of calls.
use talksy.Common.{
  ℕ, ◌+◌, ◌-◌, ◌≤◌, ◌≡◌, refl, sym, ◌∙◌, subst, List, [], ◌∷◌, ◌++◌, Option, none, arith, String,
  length, length-drop, Bool-cases, Option-cases, inl, inr, ok, le→ltb, str_dec, if_pos,
}
use talksy.Common.Map
use talksy.Common.Map.{Map, Distinct}
use talksy.LruCache.{
  CacheEntry, LruCache, is_expired, ttl_or, make_entry, create, get, set, delete, has, clear,
  prune_entries, prune,
}
use talksy.LruCache.Entries.{set-cache, metrics-set}

pub record IsValid {ℓ} {T : Type ℓ} (max : ℕ) (c : LruCache T) : Type 0 where
  pub limit : c.max_size ≡ max
  pub positive : 1 ≤ c.max_size
  pub distinct : Distinct c.cache
  pub bounded : Map.size c.cache ≤ c.max_size

-- The calls that change a cache, with the times that they read.
pub data Op {ℓ} (T : Type ℓ) : Type ℓ where
  get_op : (now now' : ℕ) (key : String) → Op T
  set_op : (now : ℕ) (key : String) (value : T) (ttl_ms : Option ℕ) → Op T
  delete_op : (key : String) → Op T
  has_op : (now : ℕ) (key : String) → Op T
  clear_op : Op T
  prune_op : (now : ℕ) → Op T

module _ {ℓ} {T : Type ℓ} where
  unfoldable pub apply : Op T → LruCache T → LruCache T
  apply (get_op now now' key) c = (get now now' key c).0
  apply (set_op now key value ttl_ms) c = set now key value ttl_ms c
  apply (delete_op key) c = (delete key c).0
  apply (has_op now key) c = (has now key c).0
  apply clear_op c = clear c
  apply (prune_op now) c = (prune now c).0

  unfoldable pub apply_all : List (Op T) → LruCache T → LruCache T
  unfolding apply
  apply_all [] c = c
  apply_all (op ∷ ops) c = apply_all ops (apply op c)

  pub delete-IsValid :
      {n : ℕ} (key : String) (c : LruCache T)
      → IsValid n c
      → IsValid n (record c { cache = Map.delete key c.cache })
  delete-IsValid key c v = record {
    limit = v.limit;
    positive = v.positive;
    distinct = Map.delete-Distinct key c.cache v.distinct;
    bounded = omega (arith, Map.size-delete-le key c.cache);
  }

  pub get-IsValid :
      {n : ℕ} (now now' : ℕ) (key : String) (c : LruCache T)
      → IsValid n c
      → IsValid n (get now now' key c).0
  unfolding get
  get-IsValid now now' key c v = elim (Option-cases (Map.get key c.cache)) [
    | inl gone ↦
        rw (gone, get)
          (record {
            limit = v.limit;
            positive = v.positive;
            distinct = v.distinct;
            bounded = v.bounded;
          })
    | inr (e, found) ↦ elim (Bool-cases (is_expired now e)) [
      | inl old ↦
          let v' = delete-IsValid key c v in
          rw (found, old, get)
            (record {
              limit = v'.limit;
              positive = v'.positive;
              distinct = v'.distinct;
              bounded = v'.bounded;
            })
      | inr live ↦
          let e' = record e { accessed_at = now' } in
          rw (found, live, get)
            (record {
              limit = v.limit;
              positive = v.positive;
              distinct = Map.set-Distinct key e' _ (Map.delete-Distinct key c.cache v.distinct);
              bounded =
                  omega (arith, v.bounded, Map.size-set-delete key e e' c.cache v.distinct found);
            })
    ]
  ]

  pub has-IsValid :
      {n : ℕ} (now : ℕ) (key : String) (c : LruCache T) → IsValid n c → IsValid n (has now key c).0
  unfolding has
  has-IsValid now key c v = elim (Option-cases (Map.get key c.cache)) [
    | inl gone ↦ rw (gone, has) v
    | inr (e, found) ↦ elim (Bool-cases (is_expired now e)) [
      | inl old ↦ rw (found, old, has) (delete-IsValid key c v)
      | inr live ↦ rw (found, live, has) v
    ]
  ]

  snoc-Distinct :
      {n : ℕ} (key : String) (entry : CacheEntry T) (c : LruCache T)
      → IsValid n c
      → Distinct (Map.delete key c.cache ++ (key, entry) ∷ [])
  snoc-Distinct key entry c v =
      let gone : Map.get key (Map.delete key c.cache) ≡ none =
        Map.get-delete key key c.cache ∙ if_pos (str_dec key key) refl _ _ in
      subst Distinct (Map.set_absent key entry _ gone)
        (Map.set-Distinct key entry _ (Map.delete-Distinct key c.cache v.distinct))

  pub size-prune_entries :
      (now : ℕ) (m : Map (CacheEntry T))
      → Map.size (prune_entries now m).0 + (prune_entries now m).1 ≡ Map.size m
  unfolding prune_entries
  size-prune_entries now [] = omega arith
  size-prune_entries now ((k, e) ∷ m) = elim (Bool-cases (is_expired now e)) [
    | inl old ↦ rw old (omega (arith, size-prune_entries now m))
    | inr live ↦ rw live (omega (arith, size-prune_entries now m))
  ]

  pub prune_entries_absent :
      (now : ℕ) (k : String) (m : Map (CacheEntry T))
      → Map.get k m ≡ none
      → Map.get k (prune_entries now m).0 ≡ none
  unfolding prune_entries Map.get
  prune_entries_absent now k [] h = refl
  prune_entries_absent now k ((j, e) ∷ m) h = elim (Bool-cases (is_expired now e)) [
    | inl old ↦ rw old (prune_entries_absent now k m (ground arith))
    | inr live ↦ rw live (ground (arith, prune_entries_absent now k m))
  ]

  prune_entries-Distinct :
      (now : ℕ) (m : Map (CacheEntry T)) → Distinct m → Distinct (prune_entries now m).0
  unfolding prune_entries
  prune_entries-Distinct now [] d = tt
  prune_entries-Distinct now ((k, e) ∷ m) d = elim (Bool-cases (is_expired now e)) [
    | inl old ↦ rw old (prune_entries-Distinct now m d.1)
    | inr live ↦
        rw live (ground (arith, prune_entries_absent now k m), prune_entries-Distinct now m d.1)
  ]

  pub set-IsValid :
      {n : ℕ} (now : ℕ) (key : String) (value : T) (ttl_ms : Option ℕ) (c : LruCache T)
      → IsValid n c
      → IsValid n (set now key value ttl_ms c)
  set-IsValid now key value ttl_ms c v =
      let (size, _, _, _, _) = metrics-set now key value ttl_ms c v.distinct v.positive in
      let e = set-cache now key value ttl_ms c v.distinct v.positive in
      let entry = make_entry now (ttl_or ttl_ms c.default_ttl_ms) value in
      let l = Map.delete key c.cache ++ (key, entry) ∷ [] in
      record {
        limit = size ∙ v.limit;
        positive = rw size v.positive;
        distinct =
            subst Distinct (sym e)
              (Map.drop-Distinct (length l - c.max_size) l (snoc-Distinct key entry c v));
        bounded = rw (e, size) (omega (arith, length-drop (length l - c.max_size) l));
      }

  pub prune-IsValid : {n : ℕ} (now : ℕ) (c : LruCache T) → IsValid n c → IsValid n (prune now c).0
  unfolding prune
  prune-IsValid now c v = record {
    limit = v.limit;
    positive = v.positive;
    distinct = prune_entries-Distinct now c.cache v.distinct;
    bounded = omega (arith, v.bounded, size-prune_entries now c.cache);
  }

  pub clear-IsValid : {n : ℕ} (c : LruCache T) → IsValid n c → IsValid n (clear c)
  unfolding clear
  clear-IsValid c v = record {
    limit = v.limit;
    positive = v.positive;
    distinct = tt;
    bounded = omega arith;
  }

  pub apply-IsValid : {n : ℕ} (op : Op T) (c : LruCache T) → IsValid n c → IsValid n (apply op c)
  unfolding apply delete
  apply-IsValid (get_op now now' key) c v = get-IsValid now now' key c v
  apply-IsValid (set_op now key value ttl_ms) c v = set-IsValid now key value ttl_ms c v
  apply-IsValid (delete_op key) c v = delete-IsValid key c v
  apply-IsValid (has_op now key) c v = has-IsValid now key c v
  apply-IsValid clear_op c v = clear-IsValid c v
  apply-IsValid (prune_op now) c v = prune-IsValid now c v

  pub apply_all-IsValid :
      {n : ℕ} (ops : List (Op T)) (c : LruCache T) → IsValid n c → IsValid n (apply_all ops c)
  unfolding apply_all
  apply_all-IsValid [] c v = v
  apply_all-IsValid (op ∷ ops) c v = apply_all-IsValid ops (apply op c) (apply-IsValid op c v)

  abbrev pub new : ℕ → ℕ → LruCache T
  new max_size ttl = record {
    cache = [];
    max_size = max_size;
    default_ttl_ms = ttl;
    hits = 0;
    misses = 0;
    evictions = 0;
  }

  pub create-new : (max_size ttl : ℕ) → 1 ≤ max_size → create max_size ttl ≡ ok (new max_size ttl)
  unfolding create
  create-new max_size ttl h = rw (le→ltb max_size 1 h) refl

  pub new-IsValid : (max_size ttl : ℕ) → 1 ≤ max_size → IsValid max_size (new max_size ttl)
  new-IsValid max_size ttl h = record {
    limit = refl;
    positive = h;
    distinct = tt;
    bounded = omega arith;
  }

  -- A cache that is made with a maximum of at least one never holds more entries than that, nor a key
  -- twice, whatever calls it gets.
  pub size-apply_all :
      (max_size ttl : ℕ) (ops : List (Op T))
      → 1 ≤ max_size
      → (c : LruCache T) × (create max_size ttl ≡ ok c)
        × (Map.size (apply_all ops c).cache ≤ max_size)
        × Distinct (apply_all ops c).cache
  size-apply_all max_size ttl ops h =
      let c = new max_size ttl in
      let v' = apply_all-IsValid ops c (new-IsValid max_size ttl h) in
      (c, create-new max_size ttl h, omega (arith, v'.bounded, v'.limit), v'.distinct)
