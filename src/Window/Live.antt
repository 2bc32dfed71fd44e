-- ===== src/Window/Live.antt =====
-- Which of a list of timestamps lie in the window that ends now: what the filter over the whole list,
-- which the circular buffer replaces, would keep.
use talksy.Common.{
  ℕ, zero, suc, ◌+◌, ◌-◌, ◌≤◌, ◌<◌, ◌≡◌, refl, min, List, [], ◌∷◌, ◌++◌, arith, ltb, if◌then◌else◌,
  length, drop, take_last,
}

-- The number of timestamps `t` with `now - window < t`.
unfoldable pub count_live : (window now : ℕ) → List ℕ → ℕ
count_live window now [] = 0
count_live window now (t ∷ ts) =
    if ltb now (t + window) then suc (count_live window now ts) else count_live window now ts

abbrev pub AllFrom : ℕ → List ℕ → Type 0
AllFrom t [] = Unit
AllFrom t (u ∷ us) = (t ≤ u) × AllFrom t us

-- In the order in which they were recorded, by a clock that does not go back.
abbrev pub Ordered : List ℕ → Type 0
Ordered [] = Unit
Ordered (t ∷ ts) = AllFrom t ts × Ordered ts

abbrev pub AllTo : ℕ → List ℕ → Type 0
AllTo last [] = Unit
AllTo last (t ∷ ts) = (t ≤ last) × AllTo last ts

module _ (window now : ℕ) where
  pub count_live-le-length : (ts : List ℕ) → count_live window now ts ≤ length ts
  unfolding count_live
  count_live-le-length [] = omega arith
  count_live-le-length (t ∷ ts) = ground (arith, count_live-le-length ts)

  -- After a timestamp that lies in the window all do.
  pub count_live-AllFrom :
      (t : ℕ) (ts : List ℕ) → now < t + window → AllFrom t ts → count_live window now ts ≡ length ts
  unfolding count_live
  count_live-AllFrom t [] h a = refl
  count_live-AllFrom t (u ∷ us) h a = ground (arith, count_live-AllFrom t us h a.1)

  count_live-drop :
      (j : ℕ) (ts : List ℕ)
      → Ordered ts
      → count_live window now (drop j ts) ≡ min (length ts - j) (count_live window now ts)
  unfolding count_live
  count_live-drop zero ts o = omega (arith, count_live-le-length ts)
  count_live-drop (suc j) [] o = omega arith
  count_live-drop (suc j) (t ∷ ts) o = ground (
    arith,
    count_live-drop j ts o.1,
    count_live-le-length ts,
    λ (h : now < t + window). count_live-AllFrom t ts h o.0,
  )

  pub count_live-take_last :
      (k : ℕ) (ts : List ℕ)
      → Ordered ts
      → count_live window now (take_last k ts) ≡ min k (count_live window now ts)
  count_live-take_last k ts o =
      omega (arith, count_live-drop (length ts - k) ts o, count_live-le-length ts)

  pub count_live-append :
      (ts us : List ℕ)
      → count_live window now (ts ++ us) ≡ count_live window now ts + count_live window now us
  unfolding count_live
  count_live-append [] us = omega arith
  count_live-append (t ∷ ts) us = ground (arith, count_live-append ts us)

-- Time only takes timestamps out of the window.
pub count_live-le :
    (window now later : ℕ) (ts : List ℕ)
    → now ≤ later
    → count_live window later ts ≤ count_live window now ts
unfolding count_live
count_live-le window now later [] h = omega arith
count_live-le window now later (t ∷ ts) h = ground (arith, count_live-le window now later ts h)

AllFrom-append : (t u : ℕ) (ts : List ℕ) → AllFrom t ts → t ≤ u → AllFrom t (ts ++ u ∷ [])
AllFrom-append t u [] a h = (h, tt)
AllFrom-append t u (v ∷ ts) a h = (a.0, AllFrom-append t u ts a.1 h)

pub Ordered-append : (u : ℕ) (ts : List ℕ) → Ordered ts → AllTo u ts → Ordered (ts ++ u ∷ [])
Ordered-append u [] o a = (tt, tt)
Ordered-append u (t ∷ ts) o a = (AllFrom-append t u ts o.0 a.0, Ordered-append u ts o.1 a.1)

pub AllTo-append : (u : ℕ) (ts : List ℕ) → AllTo u ts → AllTo u (ts ++ u ∷ [])
AllTo-append u [] a = (omega arith, tt)
AllTo-append u (t ∷ ts) a = (a.0, AllTo-append u ts a.1)

pub AllTo-le : (u v : ℕ) (ts : List ℕ) → u ≤ v → AllTo u ts → AllTo v ts
AllTo-le u v [] h a = tt
AllTo-le u v (t ∷ ts) h a = (omega arith, AllTo-le u v ts h a.1)

pub Ordered-drop : (n : ℕ) (ts : List ℕ) → Ordered ts → Ordered (drop n ts)
Ordered-drop zero ts o = o
Ordered-drop (suc n) [] o = tt
Ordered-drop (suc n) (t ∷ ts) o = Ordered-drop n ts o.1
