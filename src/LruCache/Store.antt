-- ===== src/LruCache/Store.antt =====
-- Code: src/cache/lru-cache.ts. A cache in front of a map: what the cache holds stands in the map.
use talksy.Common.{ℕ, ◌≡◌, Option, none, some, arith, String, inl, inr}
use talksy.Common.Map
use talksy.Common.Map.{Map}
use talksy.LruCache.{LruCache, get, set}
use talksy.LruCache.Values.{value_at, get-Within, get-value, set-value_at}

module _ {T : Type 0} where
  abbrev pub Fronts : LruCache T → Map T → Type 0
  Fronts c m = (k : String) (v : T) → value_at k c ≡ some v → Map.get k m ≡ some v

  pub get-Fronts :
      (now now' : ℕ) (key : String) (c : LruCache T) (m : Map T)
      → Fronts c m
      → Fronts (get now now' key c).0 m
  get-Fronts now now' key c m f k v h = f k v (get-Within now now' key c k v h)

  pub get-stored :
      (now now' : ℕ) (key : String) (c : LruCache T) (m : Map T) (v : T)
      → Fronts c m
      → (get now now' key c).1 ≡ some v
      → Map.get key m ≡ some v
  get-stored now now' key c m v f h = f key v (get-value now now' key c v h)

  -- A value of the map is put into the cache.
  pub set-Fronts :
      (now : ℕ) (key : String) (value : T) (ttl_ms : Option ℕ) (c : LruCache T) (m : Map T)
      → Fronts c m
      → Map.get key m ≡ some value
      → Fronts (set now key value ttl_ms c) m
  set-Fronts now key value ttl_ms c m f stored k v h =
      elim (set-value_at now key k value v ttl_ms c h) [
        | inl (same, new) ↦ ground arith
        | inr (other, old) ↦ f k v old
      ]

  -- A value is put into both.
  pub put-Fronts :
      (now : ℕ) (key : String) (value : T) (ttl_ms : Option ℕ) (c : LruCache T) (m : Map T)
      → Fronts c m
      → Fronts (set now key value ttl_ms c) (Map.set key value m)
  put-Fronts now key value ttl_ms c m f k v h = elim (set-value_at now key k value v ttl_ms c h) [
    | inl (same, new) ↦ ground (arith, Map.get-set k key value m)
    | inr (other, old) ↦ ground (arith, Map.get-set k key value m, f k v old)
  ]

  pub delete-Fronts :
      (key : String) (c : LruCache T) (m : Map T)
      → Fronts c m
      → Fronts (record c { cache = Map.delete key c.cache }) (Map.delete key m)
  delete-Fronts key c m f k v h =
      ground (arith, Map.get-delete k key c.cache, Map.get-delete k key m, f k v)

  -- A value is put into the map alone, under a new key.
  pub grow-Fronts :
      (key : String) (value : T) (c : LruCache T) (m : Map T)
      → Map.get key m ≡ none
      → Fronts c m
      → Fronts c (Map.set key value m)
  grow-Fronts key value c m new f k v h = ground (arith, Map.get-set k key value m, f k v h)
