-- ===== src/MemoryStorage/Timers.antt =====
-- The timers of the stored sessions, over any sequence of calls and firings.
use talksy.Common.{
  ℕ, ◌≤◌, ◌<◌, ◌≡◌, refl, Bool, true, false, leb, List, [], ◌∷◌, Option, none, some, arith, String,
}
use talksy.Common.Map
use talksy.Common.Map.{Map, Distinct}
use talksy.MemoryStorage.{StoredSession, Store, after, get, set, has, delete, clear, fire}

-- A session that expires has a timer, which is due then or later; one that does not has none.
abbrev pub timed : {V : Type 0} → Option (StoredSession V) → Bool
timed none = true
timed (some stored) = elim stored.expires_at [
  | none ↦ elim stored.timer [ none ↦ true | some due ↦ false ]
  | some e ↦ elim stored.timer [ none ↦ false | some due ↦ leb e due ]
]

abbrev pub timer_of : {V : Type 0} → Option (StoredSession V) → Option ℕ
timer_of none = none
timer_of (some stored) = stored.timer

abbrev pub IsTimed : {V : Type 0} → Store V → Type 0
IsTimed s = (k : String) → timed (Map.get k s) ≡ true

pub data Op (V : Type 0) : Type 0 where
  get_op : (now : ℕ) (key : String) → Op V
  set_op : (now now' : ℕ) (key : String) (value : V) (ttl_ms : Option ℕ) → Op V
  has_op : (now : ℕ) (key : String) → Op V
  delete_op : (key : String) → Op V
  clear_op : Op V
  fire_op : (key : String) → Op V

-- Within a call the clock does not go back.
abbrev pub InOrder : {V : Type 0} → List (Op V) → Type 0
InOrder [] = Unit
InOrder (set_op now now' key value ttl_ms ∷ ops) = (now ≤ now') × InOrder ops
InOrder (get_op now key ∷ ops) = InOrder ops
InOrder (has_op now key ∷ ops) = InOrder ops
InOrder (delete_op key ∷ ops) = InOrder ops
InOrder (clear_op ∷ ops) = InOrder ops
InOrder (fire_op key ∷ ops) = InOrder ops

module _ {V : Type 0} where
  unfoldable pub apply : Op V → Store V → Store V
  apply (get_op now key) s = (get now key s).0
  apply (set_op now now' key value ttl_ms) s = set now now' key value ttl_ms s
  apply (has_op now key) s = (has now key s).0
  apply (delete_op key) s = (delete key s).0
  apply clear_op s = clear s
  apply (fire_op key) s = fire key s

  unfoldable pub apply_all : List (Op V) → Store V → Store V
  unfolding apply
  apply_all [] s = s
  apply_all (op ∷ ops) s = apply_all ops (apply op s)

  get-IsTimed : (now : ℕ) (key : String) (s : Store V) → IsTimed s → IsTimed (get now key s).0
  unfolding get
  get-IsTimed now key s h k = ground (arith, h k, Map.get-delete k key s)

  has-IsTimed : (now : ℕ) (key : String) (s : Store V) → IsTimed s → IsTimed (has now key s).0
  unfolding has
  has-IsTimed now key s h k = ground (arith, h k, Map.get-delete k key s)

  delete-IsTimed : (key : String) (s : Store V) → IsTimed s → IsTimed (delete key s).0
  unfolding delete
  delete-IsTimed key s h k = ground (arith, h k, Map.get-delete k key s)

  fire-IsTimed : (key : String) (s : Store V) → IsTimed s → IsTimed (fire key s)
  unfolding fire
  fire-IsTimed key s h k = ground (arith, h k, Map.get-delete k key s)

  set-IsTimed :
      (now now' : ℕ) (key : String) (value : V) (ttl_ms : Option ℕ) (s : Store V)
      → now ≤ now'
      → IsTimed s
      → IsTimed (set now now' key value ttl_ms s)
  unfolding set
  set-IsTimed now now' key value ttl_ms s o h k =
      let stored : StoredSession V = record {
        session = value;
        expires_at = after now ttl_ms;
        timer = after now' ttl_ms;
      } in
      ground (arith, h k, Map.get-set k key stored s)

  clear-IsTimed : (s : Store V) → IsTimed (clear s)
  unfolding clear Map.get
  clear-IsTimed s k = refl

  apply_all-IsTimed :
      (ops : List (Op V)) (s : Store V) → InOrder ops → IsTimed s → IsTimed (apply_all ops s)
  unfolding apply_all apply
  apply_all-IsTimed [] s i h = h
  apply_all-IsTimed (get_op now key ∷ ops) s i h =
      apply_all-IsTimed ops _ i (get-IsTimed now key s h)
  apply_all-IsTimed (set_op now now' key value ttl_ms ∷ ops) s (o, i) h =
      apply_all-IsTimed ops _ i (set-IsTimed now now' key value ttl_ms s o h)
  apply_all-IsTimed (has_op now key ∷ ops) s i h =
      apply_all-IsTimed ops _ i (has-IsTimed now key s h)
  apply_all-IsTimed (delete_op key ∷ ops) s i h = apply_all-IsTimed ops _ i (delete-IsTimed key s h)
  apply_all-IsTimed (clear_op ∷ ops) s i h = apply_all-IsTimed ops _ i (clear-IsTimed s)
  apply_all-IsTimed (fire_op key ∷ ops) s i h = apply_all-IsTimed ops _ i (fire-IsTimed key s h)

  timed-get-fire :
      (s : Store V) (key j : String) (due t : ℕ)
      → IsTimed s
      → timer_of (Map.get key s) ≡ some due
      → due < t
      → (get t j (fire key s)).1 ≡ (get t j s).1
  unfolding get fire
  timed-get-fire s key j due t h e later = ground (arith, h key, Map.get-delete j key s)

  -- After any calls and firings of timers on a new store, where the clock does not go back within a call:
  -- a timer that fires when it is due changes nothing that is read, under any key, after that.
  pub get-fire :
      (ops : List (Op V)) (key j : String) (due t : ℕ)
      → let s = apply_all ops [] in
        InOrder ops
        → timer_of (Map.get key s) ≡ some due
        → due < t
        → (get t j (fire key s)).1 ≡ (get t j s).1
  unfolding Map.get
  get-fire ops key j due t i e later =
      timed-get-fire (apply_all ops []) key j due t (apply_all-IsTimed ops [] i (λ k. refl)) e later
