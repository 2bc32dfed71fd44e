-- ===== src/MemoryStorage/Reads.antt =====
-- What can be read after a session has been stored, and which keys are listed.
use talksy.Common.{
  ℕ, ◌+◌, ◌≡◌, refl, Bool, true, false, not, ltb, ◌==◌, ◌&&◌, if◌then◌else◌, List, [], ◌∷◌, Option,
  none, some, arith, String, str_dec, ite,
}
use talksy.Common.Map
use talksy.Common.Map.{Map, Distinct}
use talksy.MemoryStorage.{StoredSession, Store, after, get, set, has, keys}

abbrev pub lists : String → List String → Bool
lists k [] = false
lists k (j ∷ js) = ite (str_dec j k) true (lists k js)

-- The session is stored and expires just now.
abbrev pub is_due : {V : Type 0} → ℕ → Option (StoredSession V) → Bool
is_due now none = false
is_due now (some stored) = elim stored.expires_at [ none ↦ false | some t ↦ t == now ]

abbrev pub keeps_to : ℕ → ℕ → Option ℕ → Bool
keeps_to now t none = true
keeps_to now t (some ttl_ms) = if ltb 0 ttl_ms then not (ltb (now + ttl_ms) t) else true

module _ {V : Type 0} where
  -- A session that has been stored can be read up to the end of its time to live, that moment included,
  -- and for ever if it has none or zero; what is read under any other key at any time stays as it was.
  pub get-set :
      (now now' t : ℕ) (j key : String) (value : V) (ttl_ms : Option ℕ) (s : Store V)
      → (get t j (set now now' key value ttl_ms s)).1
        ≡ ite (str_dec key j) (if keeps_to now t ttl_ms then some value else none) (get t j s).1
  unfolding get set
  get-set now now' t j key value ttl_ms s = ground (
    arith,
    Map.get-set j key
        (record { session = value; expires_at = after now ttl_ms; timer = after now' ttl_ms }) s,
  )

  lists-keys_absent :
      (now : ℕ) (k : String) (s : Store V) → Map.get k s ≡ none → lists k (keys now s) ≡ false
  unfolding keys Map.get
  lists-keys_absent now k [] h = refl
  lists-keys_absent now k ((j, stored) ∷ s) h = ground (arith, lists-keys_absent now k s)

  -- In a store that has no key twice, `keys` lists a key if and only if `has` finds it, but for a session
  -- that expires at that very moment: `has` finds it and `keys` leaves it out.
  pub keys-has :
      (now : ℕ) (k : String) (s : Store V)
      → Distinct s
      → lists k (keys now s) ≡ ((has now k s).1 && not (is_due now (Map.get k s)))
  unfolding keys has Map.get
  keys-has now k [] d = refl
  keys-has now k ((j, stored) ∷ s) d =
      ground (arith, keys-has now k s d.1, lists-keys_absent now k s)
