-- ===== src/Auth/Expiry.antt =====
-- Code: src/auth/auth.service.ts, `parseExpiryToMs`. A text is the list of its character codes. A number is
-- read without rounding, where the language's numbers round above 2^53.
use talksy.Common.{
  ℕ, zero, suc, ◌+◌, ◌-◌, ◌*◌, ◌/◌, ◌%◌, ◌≤◌, ◌<◌, ◌≡◌, ◌==◌, refl, sym, ap, ◌∙◌, Bool, false, ltb,
  leb, ◌&&◌, ◌||◌, if◌then◌else◌, List, [], ◌∷◌, ◌++◌, Option, none, some, arith, Bool-cases, inl,
  inr, List-cases, subst,
}

abbrev or_zero : Option ℕ → ℕ
or_zero none = 0
or_zero (some n) = n

-- The digits that a text begins with; none stands for `NaN`.
unfoldable pub parse_digits : Option ℕ → List ℕ → Option ℕ
parse_digits acc [] = acc
parse_digits acc (c ∷ cs) =
    let rest = parse_digits (some (or_zero acc * 10 + (c - 48))) cs in
    if leb 48 c && leb c 57 then rest else acc

-- The characters that the language takes for white space or for the end of a line.
abbrev is_space : ℕ → Bool
is_space c =
    leb 9 c && leb c 13
    || c == 32
    || c == 160
    || c == 5760
    || leb 8192 c && leb c 8202
    || c == 8232
    || c == 8233
    || c == 8239
    || c == 8287
    || c == 12288
    || c == 65279

unfoldable pub skip_spaces : List ℕ → List ℕ
skip_spaces [] = []
skip_spaces (c ∷ cs) = let rest = skip_spaces cs in if is_space c then rest else c ∷ cs

-- After a minus comes no number that is above zero: it is `NaN` for the caller.
unfoldable pub parse_signed : List ℕ → Option ℕ
parse_signed [] = none
parse_signed (c ∷ cs) =
    if c == 45 then none else if c == 43 then parse_digits none cs else parse_digits none (c ∷ cs)

abbrev pub parse_int : List ℕ → Option ℕ
parse_int cs = parse_signed (skip_spaces cs)

-- The last character, `slice(-1)`, and the ones before it, `slice(0, -1)`.
unfoldable pub split_last : List ℕ → List ℕ × Option ℕ
split_last [] = ([], none)
split_last (c ∷ []) = ([], some c)
split_last (c ∷ d ∷ cs) = let (front, last) = split_last (d ∷ cs) in (c ∷ front, last)

-- The `switch` on the unit: 115, 109, 104 and 100 are the codes of s, m, h and d.
abbrev pub unit_ms : Option ℕ → ℕ → ℕ
unit_ms none value = 60 * 1000
unit_ms (some unit) value =
    if unit == 115
    then value * 1000
    else if unit == 109
    then value * 60 * 1000
    else if unit == 104
    then value * 60 * 60 * 1000
    else if unit == 100
    then value * 24 * 60 * 60 * 1000
    else 60 * 1000

unfoldable pub parse_expiry_to_ms : List ℕ → ℕ
parse_expiry_to_ms expiry =
    let (front, unit) = split_last expiry in
    elim (parse_int front) [
      | none ↦ 60 * 1000
      | some value ↦ if leb value 0 then 60 * 1000 else unit_ms unit value
    ]

-- The digits of a number, on fuel that the number itself is.
digits : ℕ → ℕ → List ℕ
digits zero n = []
digits (suc fuel) n =
    let front = digits fuel (n / 10) in (if ltb n 10 then [] else front) ++ (48 + n % 10) ∷ []

unfoldable pub decimal : ℕ → List ℕ
unfolding digits
decimal n = digits (n + 1) n

split_last-snoc : (cs : List ℕ) (c : ℕ) → split_last (cs ++ c ∷ []) ≡ (cs, some c)
unfolding split_last
split_last-snoc [] c = refl
split_last-snoc (d ∷ []) c = refl
split_last-snoc (d ∷ e ∷ cs) c = rw (split_last-snoc (e ∷ cs) c) refl

IsDigits : List ℕ → Type 0
IsDigits [] = Unit
IsDigits (c ∷ cs) = (48 ≤ c) × (c ≤ 57) × IsDigits cs

-- What the digits come to after those that have been read.
value : ℕ → List ℕ → ℕ
value acc [] = acc
value acc (c ∷ cs) = value (acc * 10 + (c - 48)) cs

parse_digits-value :
    (acc : ℕ) (cs : List ℕ) → IsDigits cs → parse_digits (some acc) cs ≡ some (value acc cs)
unfolding parse_digits value IsDigits
parse_digits-value acc [] d = refl
parse_digits-value acc (c ∷ cs) d =
    ground (arith, parse_digits-value (acc * 10 + (c - 48)) cs d.2, d.0, d.1)

value-snoc :
    (acc : ℕ) (cs : List ℕ) (c : ℕ) → value acc (cs ++ c ∷ []) ≡ value acc cs * 10 + (c - 48)
unfolding value
value-snoc acc [] c = refl
value-snoc acc (d ∷ cs) c = value-snoc (acc * 10 + (d - 48)) cs c

IsDigits-snoc : (cs : List ℕ) (c : ℕ) → IsDigits cs → 48 ≤ c → c ≤ 57 → IsDigits (cs ++ c ∷ [])
unfolding IsDigits
IsDigits-snoc [] c d l h = (l, h, tt)
IsDigits-snoc (e ∷ cs) c d l h = (d.0, d.1, IsDigits-snoc cs c d.2 l h)

digits-IsDigits : (fuel n : ℕ) → IsDigits (digits fuel n)
unfolding digits IsDigits
digits-IsDigits zero n = tt
digits-IsDigits (suc fuel) n = elim (Bool-cases (ltb n 10)) [
  | inl small ↦ rw small (omega arith, omega arith, tt)
  | inr big ↦ rw big (
      IsDigits-snoc (digits fuel (n / 10)) (48 + n % 10) (digits-IsDigits fuel (n / 10))
        (omega arith) (omega arith))
]

-- With enough fuel.
value-digits : (fuel n : ℕ) → n < fuel → value 0 (digits fuel n) ≡ n
unfolding digits value
value-digits zero n h = absurd (omega arith)
value-digits (suc fuel) n h = elim (Bool-cases (ltb n 10)) [
  | inl small ↦ rw small (ground arith)
  | inr big ↦
      let rest = value-digits fuel (n / 10) (ground arith) in
      rw (big, value-snoc 0 (digits fuel (n / 10)) (48 + n % 10), rest) (omega arith)
]

parse_int-value :
    (c : ℕ) (cs : List ℕ) → IsDigits (c ∷ cs) → parse_int (c ∷ cs) ≡ some (value 0 (c ∷ cs))
unfolding skip_spaces parse_signed parse_digits value IsDigits
parse_int-value c cs d = ground (arith, parse_digits-value (c - 48) cs d.2, d.0, d.1)

parse_int-decimal : (n : ℕ) → 1 ≤ n → parse_int (decimal n) ≡ some n
unfolding decimal value
parse_int-decimal n h =
    let same = value-digits (n + 1) n (omega arith) in
    let d = digits-IsDigits (n + 1) n in
    elim (List-cases (decimal n)) [
      | inl e ↦ absurd (let zero_value = sym (ap (value 0) e) ∙ same in omega (arith, zero_value))
      | inr (c, cs, e) ↦
          ap parse_int e
          ∙ parse_int-value c cs (subst IsDigits e d)
          ∙ ap some (sym (ap (value 0) e) ∙ same)
    ]

parse_expiry_to_ms-unit :
    (n unit : ℕ) → 1 ≤ n → parse_expiry_to_ms (decimal n ++ unit ∷ []) ≡ unit_ms (some unit) n
unfolding parse_expiry_to_ms
parse_expiry_to_ms-unit n unit h =
    let positive : leb n 0 ≡ false = ground arith in
    rw
      (
        parse_expiry_to_ms,
        split_last-snoc (decimal n) unit,
        parse_int-decimal n h,
        positive,
        split_last-snoc (decimal n) unit,
      )
      refl

-- A positive number of seconds, minutes, hours or days, in decimal digits before the unit, is read as
-- that many milliseconds; with another unit it is read as a minute.
pub parse_expiry_to_ms-decimal :
    (n other : ℕ)
    → 1 ≤ n
    → (other == 115 || other == 109 || other == 104 || other == 100) ≡ false
    → (parse_expiry_to_ms (decimal n ++ 115 ∷ []) ≡ n * 1000)
      × (parse_expiry_to_ms (decimal n ++ 109 ∷ []) ≡ n * 60000)
      × (parse_expiry_to_ms (decimal n ++ 104 ∷ []) ≡ n * 3600000)
      × (parse_expiry_to_ms (decimal n ++ 100 ∷ []) ≡ n * 86400000)
      × (parse_expiry_to_ms (decimal n ++ other ∷ []) ≡ 60000)
parse_expiry_to_ms-decimal n other h o = (
  parse_expiry_to_ms-unit n 115 h,
  parse_expiry_to_ms-unit n 109 h ∙ omega arith,
  parse_expiry_to_ms-unit n 104 h ∙ omega arith,
  parse_expiry_to_ms-unit n 100 h ∙ omega arith,
  parse_expiry_to_ms-unit n other h ∙ ground arith,
)
