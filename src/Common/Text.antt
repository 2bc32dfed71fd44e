-- ===== src/Common/Text.antt =====
-- Equality of texts as a decision: the keys of maps and the members of sets are texts.
use Prim.Native.String.{String}
use mathlib.Core.Path.{◌≡◌, refl, sym, ap, ◌∙◌}
use text.Mathlib.TextLemmas.{nil-append, append_assoc}
use mathlib.Core.Logic.{◌↔◌}
use mathlib.Core.Bool.{Bool, true, false}
use text.Mathlib.Text.{◌==◌}
use Prim.Native.String.{◌++◌}
use mathlib.Core.List
use mathlib.Core.List.{List, [], ◌∷◌}
use text.Mathlib.TextEquality.{eq_iff}

decision : {P : Type 0} (b : Bool) → (b ≡ true) ↔ P → Dec P
decision true e = yes (e.0 refl)
decision false e = no (λ p. not_true (e.1 p))
  where
    not_true : false ≡ true → ⊥
    not_true h = cc

unfoldable pub str_dec : Discrete String
unfolding decision
str_dec s t = decision (s == t) (eq_iff s t)

-- `join('')`
abbrev pub join : List String → String
join [] = ""
join (s ∷ ss) = s ++ join ss

pub join-append : (ss ts : List String) → join (List.◌++◌ ss ts) ≡ join ss ++ join ts
join-append [] ts = sym (nil-append (join ts))
join-append (s ∷ ss) ts =
    ap (λ u. s ++ u) (join-append ss ts) ∙ sym (append_assoc s (join ss) (join ts))
