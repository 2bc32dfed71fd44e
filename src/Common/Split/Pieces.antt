-- ===== src/Common/Split/Pieces.antt =====
-- What the pieces of a split say of the text.
use Prim.Native.Nat.{ℕ}
use Prim.Native.Char.{Char, code}
use Prim.Native.String.{String, [], ◌∷◌, ◌++◌}
use text.Mathlib.TextLemmas.{nil-append, cons-append}
use mathlib.Core.List.{List, [], ◌∷◌}
use talksy.Common.{
  ◌≡◌, refl, sym, ap, ◌∙◌, subst, Bool, true, false, not, ◌&&◌, ◌==◌, arith, Bool-cases, inl, inr,
}
use talksy.Common.Split.{split, split-cons}

-- The text does not have the character.
abbrev pub lacks : ℕ → String → Bool
lacks separator [] = true
lacks separator (c ∷ s) = not (code c == separator) && lacks separator s

pub split-lacks :
    (separator : ℕ) (w : String) → lacks separator w ≡ true → split separator w ≡ w ∷ []
unfolding split
split-lacks separator [] h = refl
split-lacks separator (c ∷ w) h =
    let kept : code c == separator ≡ false = ground arith in
    let rest : lacks separator w ≡ true = ground arith in
    rw (kept, split-lacks separator w rest) refl

pub split-append :
    (separator : ℕ) (w : String) (c : Char) (rest : String)
    → lacks separator w ≡ true
    → code c == separator ≡ true
    → split separator (w ++ (c ∷ rest)) ≡ w ∷ split separator rest
unfolding split
split-append separator [] c rest h cut = rw (nil-append (c ∷ rest), cut) refl
split-append separator (d ∷ w) c rest h cut =
    let kept : code d == separator ≡ false = ground arith in
    let later : lacks separator w ≡ true = ground arith in
    rw (cons-append d w (c ∷ rest), kept, split-append separator w c rest later cut) refl

-- The first piece is the text up to the first separator, or the whole text.
pub data First (separator : ℕ) (text w : String) (ws : List String) : Type 0 where
  whole : text ≡ w → ws ≡ [] → First separator text w ws
  cut :
      (c : Char) (rest : String)
      → code c == separator ≡ true
      → text ≡ w ++ (c ∷ rest)
      → split separator rest ≡ ws
      → First separator text w ws

split-First-cons :
    (separator : ℕ) (c : Char) (s w : String) (ws : List String)
    → code c == separator ≡ false
    → (lacks separator w ≡ true) × First separator s w ws
    → (lacks separator (c ∷ w) ≡ true) × First separator (c ∷ s) (c ∷ w) ws
split-First-cons separator c s w ws kept (absent, whole same none_left) =
    (ground arith, whole (ap (λ t. c ∷ t) same) none_left)
split-First-cons separator c s w ws kept (absent, cut d rest here same later) =
    (ground arith, cut d rest here (ap (λ t. c ∷ t) same ∙ sym (cons-append c w (d ∷ rest))) later)

pub split-First :
    (separator : ℕ) (s w : String) (ws : List String)
    → split separator s ≡ w ∷ ws
    → (lacks separator w ≡ true) × First separator s w ws
unfolding split
split-First separator [] w ws e =
    let same : [] ≡ w = cc in (ap (lacks separator) (sym same), whole same cc)
split-First separator (c ∷ s) w ws e =
    let (v, vs, f) = split-cons separator s in
    elim (Bool-cases (code c == separator)) [
      | inl here ↦
          let e' : ◌≡◌ {A = List String} ("" ∷ split separator s) (w ∷ ws) =
            sym (rw here refl) ∙ e in
          let same : "" ≡ w = cc in
          (
            ap (lacks separator) (sym same),
            cut c s here (sym (nil-append (c ∷ s)) ∙ ap (λ t. t ++ (c ∷ s)) same) cc,
          )
      | inr kept ↦
          let e' : ◌≡◌ {A = List String} ((c ∷ v) ∷ vs) (w ∷ ws) = sym (rw (kept, f) refl) ∙ e in
          let same : (c ∷ v) ≡ w = cc in
          let left : vs ≡ ws = cc in
          subst (λ x. (lacks separator x ≡ true) × First separator (c ∷ s) x ws) same
            (subst (λ xs. (lacks separator (c ∷ v) ≡ true) × First separator (c ∷ s) (c ∷ v) xs)
              left (split-First-cons separator c s v vs kept (split-First separator s v vs f)))
    ]
