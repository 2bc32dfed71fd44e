-- ===== src/Common/Slots.antt =====
-- The language's arrays as slots that may be undefined, and a ring of such slots read from a start.
use Prim.Native.Nat.{ℕ, zero, suc, ◌+◌, ◌-◌, ◌≤◌, ◌<◌, ◌%◌}
use mathlib.Core.Path.{◌≡◌, refl, ap, ap₂, ◌∙◌, sym}
use mathlib.Core.Logic.{◌≢◌, ◌⊎◌, inl, inr}
use mathlib.Core.List.{List, [], ◌∷◌, ◌++◌}
use mathlib.Core.Option.{Option, none, some}
use native.Mathlib.Nat.{mod-add-mod}
use native.Mathlib.Omega.{arith}
use talksy.Common.Lists.{length, drop, head?, get_last?, get_last?-append}

abbrev pub Slots {ℓ} : Type ℓ → Type ℓ
Slots A = List (Option A)

module _ {ℓ} {A : Type ℓ} where
  abbrev pub replicate : ℕ → Option A → Slots A
  replicate zero a = []
  replicate (suc n) a = a ∷ replicate n a

  -- `array[i]`: undefined in a hole and past the end.
  unfoldable pub slot : Slots A → ℕ → Option A
  slot [] i = none
  slot (x ∷ xs) zero = x
  slot (x ∷ xs) (suc i) = slot xs i

  -- `array[i] = a`: a write past the end makes the array longer, with holes between.
  unfoldable pub write : Slots A → ℕ → A → Slots A
  write [] zero a = some a ∷ []
  write [] (suc i) a = none ∷ write [] i a
  write (x ∷ xs) zero a = some a ∷ xs
  write (x ∷ xs) (suc i) a = x ∷ write xs i a

  -- The `n` slots that lie `i`, `i + 1`, … places after `h`, going round at `cap`.
  unfoldable pub view : Slots A → (cap h i n : ℕ) → List (Option A)
  view buf cap h i zero = []
  view buf cap h i (suc n) = slot buf ((h + i) % cap) ∷ view buf cap h (suc i) n

  pub length-replicate : (n : ℕ) (a : Option A) → length (replicate n a) ≡ n
  length-replicate zero a = refl
  length-replicate (suc n) a = ap suc (length-replicate n a)

  pub length-write :
      (xs : Slots A) (i : ℕ) (a : A) → i < length xs → length (write xs i a) ≡ length xs
  unfolding write
  length-write [] i a h = absurd (omega arith)
  length-write (x ∷ xs) zero a h = refl
  length-write (x ∷ xs) (suc i) a h = ap suc (length-write xs i a (omega arith))

  pub slot-write_self : (xs : Slots A) (i : ℕ) (a : A) → slot (write xs i a) i ≡ some a
  unfolding slot write
  slot-write_self [] zero a = refl
  slot-write_self [] (suc i) a = slot-write_self [] i a
  slot-write_self (x ∷ xs) zero a = refl
  slot-write_self (x ∷ xs) (suc i) a = slot-write_self xs i a

  pub slot-write_ne : (xs : Slots A) (i j : ℕ) (a : A) → i ≢ j → slot (write xs i a) j ≡ slot xs j
  unfolding slot write
  slot-write_ne [] zero zero a h = absurd (h refl)
  slot-write_ne [] zero (suc j) a h = refl
  slot-write_ne [] (suc i) zero a h = refl
  slot-write_ne [] (suc i) (suc j) a h = slot-write_ne [] i j a (λ e. h (ap suc e))
  slot-write_ne (x ∷ xs) zero zero a h = absurd (h refl)
  slot-write_ne (x ∷ xs) zero (suc j) a h = refl
  slot-write_ne (x ∷ xs) (suc i) zero a h = refl
  slot-write_ne (x ∷ xs) (suc i) (suc j) a h = slot-write_ne xs i j a (λ e. h (ap suc e))

pub round_zero : (cap h : ℕ) → h < cap → (h + 0) % cap ≡ h
round_zero cap h p = grind arith

-- Fewer than `cap` places round the ring, and so never twice at one place.
round_ne : (cap h i j : ℕ) → h < cap → i < cap → j < cap → i ≢ j → (h + i) % cap ≢ (h + j) % cap
round_ne cap h i j p q r ne = grind arith

module _ {ℓ} {A : Type ℓ} where
  pub length-view : (buf : Slots A) (cap h i n : ℕ) → length (view buf cap h i n) ≡ n
  unfolding view
  length-view buf cap h i zero = refl
  length-view buf cap h i (suc n) = ap suc (length-view buf cap h (suc i) n)

  pub view-snoc :
      (buf : Slots A) (cap h i n : ℕ)
      → view buf cap h i (suc n) ≡ view buf cap h i n ++ slot buf ((h + (i + n)) % cap) ∷ []
  unfolding view
  view-snoc buf cap h i zero = ap (λ k. slot buf ((h + k) % cap) ∷ []) (omega arith)
  view-snoc buf cap h i (suc n) = ap (◌∷◌ (slot buf ((h + i) % cap))) (
      view-snoc buf cap h (suc i) n
      ∙ ap (λ k. view buf cap h (suc i) n ++ slot buf ((h + k) % cap) ∷ []) (omega arith))

  -- To move the start by one is to begin one place further.
  pub view-shift :
      (buf : Slots A) (cap h i n : ℕ) → view buf cap ((h + 1) % cap) i n ≡ view buf cap h (suc i) n
  unfolding view
  view-shift buf cap h i zero = refl
  view-shift buf cap h i (suc n) =
      ap₂ ◌∷◌ (ap (slot buf) (rw mod-add-mod (ap (λ k. k % cap) (omega arith))))
        (view-shift buf cap h (suc i) n)

  -- A write at a place outside the view is not seen.
  pub view-write :
      (buf : Slots A) (cap h i n j : ℕ) (a : A)
      → h < cap
      → j < cap
      → i + n ≤ cap
      → (j < i) ⊎ (i + n ≤ j)
      → view (write buf ((h + j) % cap) a) cap h i n ≡ view buf cap h i n
  unfolding view
  view-write buf cap h i zero j a p q r s = refl
  view-write buf cap h i (suc n) j a p q r s =
      ap₂ ◌∷◌ (slot-write_ne buf _ _ a (round_ne cap h j i p q (omega arith) (omega arith)))
        (view-write buf cap h (suc i) n j a p q (omega arith) (omega arith))

  -- A write just past the view makes it longer by one at its end.
  pub view_grow :
      (buf : Slots A) (cap h n t : ℕ) (a : A)
      → h < cap
      → n < cap
      → t ≡ (h + n) % cap
      → view (write buf t a) cap h 0 (suc n) ≡ view buf cap h 0 n ++ some a ∷ []
  view_grow buf cap h n t a p q e = rw (view-snoc (write buf t a) cap h 0 n) (
      ap₂ ◌++◌ (rw e (view-write buf cap h 0 n n a p q (omega arith) (inr (omega arith))))
        (ap (λ x. x ∷ []) (rw (sym place) (slot-write_self buf t a))))
    where
      place : t ≡ (h + (0 + n)) % cap
      place = e ∙ ap (λ k. (h + k) % cap) (omega arith)

  -- In a full ring, a write over the oldest drops it and comes last.
  pub view_turn :
      (buf : Slots A) (cap h m : ℕ) (a : A)
      → h < cap
      → cap ≡ suc m
      → view (write buf h a) cap ((h + 1) % cap) 0 (suc m)
        ≡ drop 1 (view buf cap h 0 (suc m)) ++ some a ∷ []
  unfolding view
  view_turn buf cap h m a p e =
      rw (view-shift (write buf h a) cap h 0 (suc m), view-snoc (write buf h a) cap h 1 m)
        (ap₂ ◌++◌ untouched (ap (λ x. x ∷ []) (rw round (slot-write_self buf h a))))
    where
      untouched : view (write buf h a) cap h 1 m ≡ view buf cap h 1 m
      untouched =
          ap (λ t. view (write buf t a) cap h 1 m) (sym (round_zero cap h p))
          ∙ view-write buf cap h 1 m 0 a p (omega arith) (omega arith) (inl (omega arith))

      round : (h + (1 + m)) % cap ≡ h
      round = let e' : h + (1 + m) ≡ h + cap = omega arith in rw e' (grind arith)

  pub head?-view :
      (buf : Slots A) (cap h n : ℕ)
      → n ≢ 0
      → head? (view buf cap h 0 n) ≡ some (slot buf ((h + 0) % cap))
  unfolding view
  head?-view buf cap h zero p = absurd (p refl)
  head?-view buf cap h (suc n) p = refl

  pub get_last?-view :
      (buf : Slots A) (cap h n : ℕ)
      → n ≢ 0
      → get_last? (view buf cap h 0 n) ≡ some (slot buf ((h + (n - 1)) % cap))
  get_last?-view buf cap h zero p = absurd (p refl)
  get_last?-view buf cap h (suc n) p = rw (view-snoc buf cap h 0 n) (
      get_last?-append (view buf cap h 0 n) _
      ∙ ap (λ k. some (slot buf ((h + k) % cap))) (omega arith))
