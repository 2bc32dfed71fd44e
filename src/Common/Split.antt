-- ===== src/Common/Split.antt =====
-- The language's functions on texts: `split` at one character, `includes`, `startsWith` and `length`, which
-- counts units of sixteen bits.
use Prim.Native.Nat.{ℕ, ◌+◌}
use Prim.Native.Char.{Char, code}
use Prim.Native.String
use Prim.Native.String.{String, [], ◌∷◌}
use mathlib.Core.Path.{◌≡◌, refl}
use mathlib.Core.Bool.{Bool, true, false, ◌&&◌, ◌||◌}
use mathlib.Core.List.{List, [], ◌∷◌}
use talksy.Common.Tests.{◌==◌, ltb, if◌then◌else◌, Bool-cases}
use mathlib.Core.Logic.{inl, inr}
pub mod Pieces

-- A character before the first of the pieces.
abbrev pub extend : Char → List String → List String
extend c [] = (c ∷ "") ∷ []
extend c (w ∷ ws) = (c ∷ w) ∷ ws

unfoldable pub split : ℕ → String → List String
split separator [] = "" ∷ []
split separator (c ∷ s) =
    let pieces = split separator s in if code c == separator then "" ∷ pieces else extend c pieces

unfoldable pub starts_with : String → String → Bool
starts_with s [] = true
starts_with [] (d ∷ p) = false
starts_with (c ∷ s) (d ∷ p) = code c == code d && starts_with s p

unfoldable pub includes : String → String → Bool
unfolding starts_with
includes [] p = starts_with "" p
includes (c ∷ s) p = starts_with (c ∷ s) p || includes s p

unfoldable pub utf16_length : String → ℕ
utf16_length [] = 0
utf16_length (c ∷ s) = (if ltb 65535 (code c) then 2 else 1) + utf16_length s

-- `join(separator)`
abbrev pub join_with : String → List String → String
join_with separator [] = ""
join_with separator (w ∷ []) = w
join_with separator (w ∷ v ∷ ws) =
    String.◌++◌ w (String.◌++◌ separator (join_with separator (v ∷ ws)))

-- There is always a first piece.
pub split-cons :
    (separator : ℕ) (s : String) → (w : String) × (ws : List String) × (split separator s ≡ w ∷ ws)
unfolding split
split-cons separator [] = ("", [], refl)
split-cons separator (c ∷ s) =
    let (w, ws, e) = split-cons separator s in
    elim (Bool-cases (code c == separator)) [
      | inl cut ↦ rw cut ("", split separator s, refl)
      | inr kept ↦ rw (kept, e) (c ∷ w, ws, refl)
    ]
