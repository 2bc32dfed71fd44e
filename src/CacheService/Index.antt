-- ===== src/CacheService/Index.antt =====
-- Code: src/cache/cache.service.ts. The reverse index from users to the hashes of their tokens.
use talksy.Common.{
  ℕ, ◌≡◌, ◌≢◌, refl, sym, true, false, [], ◌∷◌, Option, none, some, arith, String, str_dec,
  Option-cases, inl, inr, subst,
}
use talksy.Common.Map
use talksy.Common.Map.{Map, Distinct}
use talksy.LruCache
use talksy.LruCache.{LruCache, has}
use talksy.LruCache.Values.{value_at, Within, delete-Within, has-Within, set-value_at}
use talksy.CacheService.{
  CachedTokenValidation, Hashes, hashes_or, add_hash, remove_hash, delete_hashes, prune_hashes,
  prune_reverse_index,
}

abbrev pub hashes_of : String → Map Hashes → Hashes
hashes_of user_id index = hashes_or (Map.get user_id index)

-- Each token in the cache stands in the index, under its user.
abbrev pub IsIndexed : LruCache CachedTokenValidation → Map Hashes → Type 0
IsIndexed c index =
    (h : String) (t : CachedTokenValidation)
    → value_at h c ≡ some t
    → Map.has h (hashes_of t.user_id index) ≡ true

pub empty : (m : Hashes) → Map.size m ≡ 0 → m ≡ []
empty [] h = refl
empty (e ∷ m) h = absurd (ground arith)

pub Within-IsIndexed :
    (c d : LruCache CachedTokenValidation) (index : Map Hashes)
    → Within c d
    → IsIndexed d index
    → IsIndexed c index
Within-IsIndexed c d index w i h t e = i h t (w h t e)

add_hash-has :
    (u v hash h : String) (index : Map Hashes)
    → Map.has h (hashes_of v index) ≡ true
    → Map.has h (hashes_of v (add_hash u hash index)) ≡ true
add_hash-has u v hash h index e = ground (
  arith,
  Map.get-set v u (Map.set hash tt (hashes_of u index)) index,
  Map.get-set h hash tt (hashes_of u index),
)

add_hash-has_self :
    (u hash : String) (index : Map Hashes)
    → Map.has hash (hashes_of u (add_hash u hash index)) ≡ true
add_hash-has_self u hash index = ground (
  arith,
  Map.get-set u u (Map.set hash tt (hashes_of u index)) index,
  Map.get-set hash hash tt (hashes_of u index),
)

pub set-IsIndexed :
    (now : ℕ) (hash : String) (cached : CachedTokenValidation) (ttl_ms : Option ℕ)
    (c : LruCache CachedTokenValidation) (index : Map Hashes)
    → IsIndexed c index
    → IsIndexed (LruCache.set now hash cached ttl_ms c) (add_hash cached.user_id hash index)
set-IsIndexed now hash cached ttl_ms c index i h t e =
    elim (set-value_at now hash h cached t ttl_ms c e) [
      | inl (same, new) ↦
          subst (λ x. Map.has h (hashes_of x.user_id (add_hash cached.user_id hash index)) ≡ true)
            (sym new)
            (subst
              (λ x.
                Map.has x (hashes_of cached.user_id (add_hash cached.user_id hash index)) ≡ true)
              same (add_hash-has_self cached.user_id hash index))
      | inr (other, old) ↦ add_hash-has cached.user_id t.user_id hash h index (i h t old)
    ]

hash_kept :
    (u v hash h : String) (index : Map Hashes)
    → hash ≢ h
    → Map.has h (hashes_of v (remove_hash u hash index)) ≡ Map.has h (hashes_of v index)
hash_kept u v hash h index ne = elim (Option-cases (Map.get u index)) [
  | inl gone ↦ ground arith
  | inr (hashes, found) ↦
      let left = Map.delete hash hashes in
      ground (
        arith,
        empty left,
        Map.get-delete v u index,
        Map.get-set v u left index,
        Map.get-delete h hash hashes,
      )
]

pub delete_hashes-Within :
    (hashes : Hashes) (c : LruCache CachedTokenValidation) → Within (delete_hashes hashes c) c
unfolding delete_hashes LruCache.delete
delete_hashes-Within [] c k v h = h
delete_hashes-Within ((hash, u) ∷ hashes) c k v h =
    delete-Within hash c k v (delete_hashes-Within hashes (LruCache.delete hash c).0 k v h)

-- None of the hashes is left.
delete_hashes-gone :
    (hashes : Hashes) (c : LruCache CachedTokenValidation) (h : String) (t : CachedTokenValidation)
    → value_at h (delete_hashes hashes c) ≡ some t
    → Map.has h hashes ≡ false
unfolding delete_hashes LruCache.delete Map.get
delete_hashes-gone [] c h t e = refl
delete_hashes-gone ((hash, u) ∷ hashes) c h t e = ground (
  arith,
  delete_hashes-gone hashes (LruCache.delete hash c).0 h t e,
  delete_hashes-Within hashes (LruCache.delete hash c).0 h t e,
  Map.get-delete h hash c.cache,
)

has-gone :
    (now : ℕ) (h : String) (t : CachedTokenValidation) (c : LruCache CachedTokenValidation)
    → value_at h (has now h c).0 ≡ some t
    → (has now h c).1 ≡ true
unfolding has
has-gone now h t c e = ground (arith, Map.get-delete h h c.cache)

prune_hashes-Within :
    (clock : String → ℕ) (hashes : Hashes) (c : LruCache CachedTokenValidation)
    → Within (prune_hashes clock hashes c).0 c
unfolding prune_hashes
prune_hashes-Within clock [] c k v h = h
prune_hashes-Within clock ((hash, u) ∷ hashes) c k v h =
    let c' = (has (clock hash) hash c).0 in
    has-Within (clock hash) hash c k v (prune_hashes-Within clock hashes c' k v (ground (arith, h)))

-- A hash whose token is left stays in the set.
prune_hashes-has :
    (clock : String → ℕ) (hashes : Hashes) (c : LruCache CachedTokenValidation) (h : String)
    (t : CachedTokenValidation)
    → value_at h (prune_hashes clock hashes c).0 ≡ some t
    → Map.has h hashes ≡ true
    → Map.has h (prune_hashes clock hashes c).1 ≡ true
unfolding prune_hashes Map.get
prune_hashes-has clock [] c h t e m = m
prune_hashes-has clock ((hash, u) ∷ hashes) c h t e m =
    let c' = (has (clock hash) hash c).0 in
    ground (
      arith,
      prune_hashes-has clock hashes c' h t,
      prune_hashes-Within clock hashes c' h t,
      has-gone (clock hash) hash t c,
    )

pub prune_reverse_index-Within :
    (clock : String → String → ℕ) (index : Map Hashes) (c : LruCache CachedTokenValidation)
    → Within (prune_reverse_index clock index c).0 c
unfolding prune_reverse_index
prune_reverse_index-Within clock [] c k v h = h
prune_reverse_index-Within clock ((user_id, hashes) ∷ index) c k v h =
    let c' = (prune_hashes (clock user_id) hashes c).0 in
    prune_hashes-Within (clock user_id) hashes c k v
      (prune_reverse_index-Within clock index c' k v h)

prune_reverse_index-has :
    (clock : String → String → ℕ) (index : Map Hashes) (c : LruCache CachedTokenValidation)
    (u h : String) (t : CachedTokenValidation)
    → value_at h (prune_reverse_index clock index c).0 ≡ some t
    → Map.has h (hashes_of u index) ≡ true
    → Map.has h (hashes_of u (prune_reverse_index clock index c).1) ≡ true
unfolding prune_reverse_index Map.get
prune_reverse_index-has clock [] c u h t e m = m
prune_reverse_index-has clock ((user_id, hashes) ∷ index) c u h t e m =
    let c' = (prune_hashes (clock user_id) hashes c).0 in
    let left = (prune_hashes (clock user_id) hashes c).1 in
    ground (
      arith,
      empty left,
      prune_reverse_index-has clock index c' u h t,
      prune_reverse_index-Within clock index c' h t,
      prune_hashes-has (clock user_id) hashes c h t,
    )

pub prune_reverse_index-IsIndexed :
    (clock : String → String → ℕ) (index : Map Hashes) (c : LruCache CachedTokenValidation)
    → IsIndexed c index
    → IsIndexed (prune_reverse_index clock index c).0 (prune_reverse_index clock index c).1
prune_reverse_index-IsIndexed clock index c i h t e =
    prune_reverse_index-has clock index c t.user_id h t e
      (i h t (prune_reverse_index-Within clock index c h t e))

delete-IsIndexed :
    (u hash : String) (c : LruCache CachedTokenValidation) (index : Map Hashes)
    → IsIndexed c index
    → IsIndexed (record c { cache = Map.delete hash c.cache }) (remove_hash u hash index)
delete-IsIndexed u hash c index i h t e =
    ground (arith, Map.get-delete h hash c.cache, hash_kept u t.user_id hash h index, i h t)

-- The hashes of other users stay.
pub delete_hashes-IsIndexed :
    (u : String) (c : LruCache CachedTokenValidation) (index : Map Hashes)
    → IsIndexed c index
    → IsIndexed (delete_hashes (hashes_of u index) c) (Map.delete u index)
delete_hashes-IsIndexed u c index i h t e =
    let kept = i h t (delete_hashes-Within (hashes_of u index) c h t e) in
    let gone = delete_hashes-gone (hashes_of u index) c h t e in
    elim (str_dec t.user_id u) [
      | yes same ↦
          absurd
            (let e' = subst (λ x. Map.has h (hashes_of x index) ≡ true) same kept in ground arith)
      | no other ↦ ground (arith, Map.get-delete t.user_id u index)
    ]

pub invalidate-IsIndexed :
    (cached : Option CachedTokenValidation) (hash : String) (c : LruCache CachedTokenValidation)
    (index : Map Hashes)
    → IsIndexed c index
    → IsIndexed
        (record c { cache = Map.delete hash c.cache })
        (elim cached [ none ↦ index | some t ↦ remove_hash t.user_id hash index ])
invalidate-IsIndexed none hash c index i h t e = i h t (delete-Within hash c h t e)
invalidate-IsIndexed (some cached) hash c index i h t e =
    delete-IsIndexed cached.user_id hash c index i h t e
