-- ===== src/ApiKey/Tests.antt =====
-- The guard at a concrete input, with the code points for the bytes.
use Prim.Native.Char.{code}
use text.Mathlib.TextEquality.{Char-path}
use talksy.Common.{
  ℕ, ◌≡◌, ◌↔◌, refl, ap, ap₂, true, false, Bool, ◌&&◌, ◌==◌, if◌then◌else◌, List, [], ◌∷◌, map,
  none, some, String, Result, ok, throw, length, arith, Bool-cases, inl, inr,
}
use talksy.Common.Split.{split}
use talksy.ApiKey.{TextEnv, Handshake, allowed, extract_api_key, create, can_activate}
use talksy.ApiKey.Accepted.{Among, IsSound, can_activate-allowed}

abbrev codes : String → List ℕ
codes String.[] = []
codes (String.◌∷◌ c s) = code c ∷ codes s

codes_injective : (s t : String) → codes s ≡ codes t → s ≡ t
codes_injective String.[] String.[] e = refl
codes_injective String.[] (String.◌∷◌ d t) e = cc
codes_injective (String.◌∷◌ c s) String.[] e = cc
codes_injective (String.◌∷◌ c s) (String.◌∷◌ d t) e =
    ap₂ String.◌∷◌ (Char-path c d (ground arith)) (codes_injective s t (ground arith))

abbrev same : List ℕ → List ℕ → Bool
same [] [] = true
same [] (y ∷ ys) = false
same (x ∷ xs) [] = false
same (x ∷ xs) (y ∷ ys) = x == y && same xs ys

same_self : (xs : List ℕ) → same xs xs ≡ true
same_self [] = refl
same_self (x ∷ xs) = ground (arith, same_self xs)

eq_of_same : (xs ys : List ℕ) → same xs ys ≡ true → xs ≡ ys
eq_of_same [] [] h = refl
eq_of_same [] (y ∷ ys) h = cc
eq_of_same (x ∷ xs) [] h = cc
eq_of_same (x ∷ xs) (y ∷ ys) h = ground (arith, eq_of_same xs ys)

abbrev env : TextEnv
env = record {
  trim = λ text. text;
  bytes = codes;
  timing_safe_equal =
      λ x y. if length x == length y then ok (same x y) else throw "must have the same length";
}

env-IsSound : IsSound env
env-IsSound = record {
  injective = codes_injective;
  reflexive = λ x. ground (arith, same_self x);
  exact = λ x y h. eq_of_same x y (ground arith);
}

abbrev handshake : Handshake
handshake = record { header_key = some ""; query_key = some "k2"; auth_token = none }

let_in : can_activate env handshake (create env true true false "k1,k2") ≡ allowed
unfolding can_activate create extract_api_key talksy.Common.str_dec talksy.ApiKey.validate_api_key
    talksy.ApiKey.parse_keys talksy.ApiKey.set_of talksy.ApiKey.not_empty split
    talksy.Common.Split.utf16_length talksy.Common.Map.set talksy.ApiKey.matches_one
    talksy.ApiKey.constant_time_compare
let_in = refl

can_activate-allowed_example :
    (can_activate env handshake (create env true true false "k1,k2") ≡ allowed) ↔ (
      (key : String) × (extract_api_key handshake ≡ some key)
      × Among key (map env.trim (split b',' "k1,k2")))
can_activate-allowed_example =
    can_activate-allowed env true false "k1,k2" handshake env-IsSound refl
