-- ===== src/Common/Map.antt =====
-- The language's `Map<string, V>`: the entries in insertion order. A key that is set again keeps its
-- place; one that is deleted and set again moves to the end. A `Set<string>` is a `Map` of units.
use Prim.Native.Nat.{ℕ, zero, suc, ◌≤◌}
use Prim.Native.String.{String}
use mathlib.Core.Path.{◌≡◌, refl}
use mathlib.Core.Logic.{ite}
use mathlib.Core.Bool.{Bool, false}
use mathlib.Core.List.{List, [], ◌∷◌, ◌++◌, map}
use mathlib.Core.Option.{Option, none, some}
use native.Mathlib.Omega.{arith}
use talksy.Common.Lists.{length, drop}
use talksy.Common.Tests.{is_some, if◌then◌else◌}
use talksy.Common.Text.{str_dec}

abbrev pub Map {ℓ} : Type ℓ → Type ℓ
Map V = List (String × V)

module _ {ℓ} {V : Type ℓ} where
  unfoldable pub get : String → Map V → Option V
  unfolding str_dec
  get k [] = none
  get k ((j, v) ∷ m) = ite (str_dec j k) (some v) (get k m)

  unfoldable pub set : String → V → Map V → Map V
  unfolding str_dec
  set k v [] = (k, v) ∷ []
  set k v ((j, w) ∷ m) = ite (str_dec j k) ((k, v) ∷ m) ((j, w) ∷ set k v m)

  unfoldable pub delete : String → Map V → Map V
  unfolding str_dec
  delete k [] = []
  delete k ((j, w) ∷ m) = ite (str_dec j k) (delete k m) ((j, w) ∷ delete k m)

  abbrev pub has : String → Map V → Bool
  has k m = is_some (get k m)

  abbrev pub size : Map V → ℕ
  size = length

  abbrev pub keys : Map V → List String
  keys = map (λ e. e.0)

  -- No key twice: what a `Map` guarantees.
  abbrev pub Distinct : Map V → Type 0
  Distinct [] = Unit
  Distinct ((k, v) ∷ m) = (has k m ≡ false) × Distinct m

  pub get-set :
      (j k : String) (v : V) (m : Map V) → get j (set k v m) ≡ ite (str_dec k j) (some v) (get j m)
  unfolding get set
  get-set j k v [] = refl
  get-set j k v ((i, w) ∷ m) = ground (arith, get-set j k v m)

  pub get-delete :
      (j k : String) (m : Map V) → get j (delete k m) ≡ ite (str_dec k j) none (get j m)
  unfolding get delete
  get-delete j k [] = ground arith
  get-delete j k ((i, w) ∷ m) = ground (arith, get-delete j k m)

  -- A key that is not there changes nothing when it is deleted.
  pub delete_absent : (k : String) (m : Map V) → get k m ≡ none → delete k m ≡ m
  unfolding get delete
  delete_absent k [] h = refl
  delete_absent k ((j, w) ∷ m) h = ground (arith, delete_absent k m)

  pub size-delete :
      (k : String) (m : Map V)
      → Distinct m
      → size m ≡ (if has k m then suc (size (delete k m)) else size (delete k m))
  unfolding get delete
  size-delete k [] d = refl
  size-delete k ((j, w) ∷ m) d = ground (arith, size-delete k m d.1, delete_absent k m)

  pub size-set :
      (k : String) (v : V) (m : Map V)
      → size (set k v m) ≡ (if has k m then size m else suc (size m))
  unfolding get set
  size-set k v [] = refl
  size-set k v ((j, w) ∷ m) = ground (arith, size-set k v m)

  -- A key that is not there is put at the end.
  pub set_absent : (k : String) (v : V) (m : Map V) → get k m ≡ none → set k v m ≡ m ++ (k, v) ∷ []
  unfolding get set
  set_absent k v [] h = refl
  set_absent k v ((j, w) ∷ m) h = ground (arith, set_absent k v m)

  pub set-Distinct : (k : String) (v : V) (m : Map V) → Distinct m → Distinct (set k v m)
  unfolding get set
  set-Distinct k v [] d = (refl, tt)
  set-Distinct k v ((j, w) ∷ m) d = ground (arith, get-set j k v m, set-Distinct k v m d.1)

  pub delete-Distinct : (k : String) (m : Map V) → Distinct m → Distinct (delete k m)
  unfolding get delete
  delete-Distinct k [] d = tt
  delete-Distinct k ((j, w) ∷ m) d = ground (arith, get-delete j k m, delete-Distinct k m d.1)

  pub get-drop_absent : (k : String) (n : ℕ) (m : Map V) → get k m ≡ none → get k (drop n m) ≡ none
  unfolding get
  get-drop_absent k zero m h = h
  get-drop_absent k (suc n) [] h = refl
  get-drop_absent k (suc n) ((j, w) ∷ m) h = get-drop_absent k n m (ground arith)

  pub drop-Distinct : (n : ℕ) (m : Map V) → Distinct m → Distinct (drop n m)
  drop-Distinct zero m d = d
  drop-Distinct (suc n) [] d = tt
  drop-Distinct (suc n) (e ∷ m) d = drop-Distinct n m d.1

  -- The first key of a map, deleted, leaves the rest.
  pub delete_first :
      (k : String) (v : V) (m : Map V) → Distinct ((k, v) ∷ m) → delete k ((k, v) ∷ m) ≡ m
  unfolding delete
  delete_first k v m d = ground (arith, delete_absent k m)

  pub size-delete-le : (k : String) (m : Map V) → size (delete k m) ≤ size m
  unfolding delete
  size-delete-le k [] = omega arith
  size-delete-le k ((j, v) ∷ m) = ground (arith, size-delete-le k m)

  -- To delete a key and set it again moves it to the end.
  pub size-set-delete :
      (k : String) (v w : V) (m : Map V)
      → Distinct m
      → get k m ≡ some v
      → size (set k w (delete k m)) ≡ size m
  size-set-delete k v w m d h =
      ground (arith, get-delete k k m, size-delete k m d, size-set k w (delete k m))
