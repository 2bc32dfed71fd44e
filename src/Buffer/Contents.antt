-- ===== src/Buffer/Contents.antt =====
-- What a circular buffer holds, oldest first, and what each method does with it.
use talksy.Common.{
  ℕ, zero, suc, min, ◌+◌, ◌-◌, ◌%◌, ◌≤◌, ◌<◌, ◌≡◌, refl, sym, ap, ap₂, ◌∙◌, ltb, ◌==◌,
  if◌then◌else◌, List, [], ◌∷◌, ◌++◌, map, foldl, Option, none, some, ok, arith, inl, inr, length,
  drop, take_last, head?, get_last?, length-append, length-drop, Bool-cases, take_last-append,
  map-append, map-drop, append-nil, append_assoc, ltb→lt, drop-append_le, subst, length-map,
}
use talksy.Common.Slots.{
  Slots, slot, view, replicate, length-replicate, length-write, round_zero, view_grow, view_turn,
  head?-view, get_last?-view,
}
use talksy.Buffer
use talksy.Buffer.{CircularBuffer, create, push, copy_from, to_array, clear, peek_last, peek_first}

-- The index of the oldest item.
abbrev start {ℓ} : {T : Type ℓ} → CircularBuffer T → ℕ
start b = if ltb b.size b.capacity then 0 else b.head

pub record Holds {ℓ} {T : Type ℓ} (b : CircularBuffer T) (items : List T) : Type ℓ where
  pub positive : 1 ≤ b.capacity
  pub storage : length b.buffer ≡ b.capacity
  pub inside : b.head < b.capacity
  pub filled : b.size ≤ b.capacity
  pub linear : b.size < b.capacity → b.head ≡ b.size
  pub counted : b.size ≡ length items
  pub shown : view b.buffer b.capacity (start b) 0 b.size ≡ map some items

module _ {ℓ} {T : Type ℓ} where
  copy_from-view :
      (buf : Slots T) (cap i n : ℕ) → i + n ≤ cap → copy_from buf i n ≡ view buf cap 0 i n
  unfolding copy_from view
  copy_from-view buf cap i zero h = refl
  copy_from-view buf cap i (suc n) h =
      ap₂ ◌∷◌ (ap (slot buf) (grind arith)) (copy_from-view buf cap (suc i) n (omega arith))

  nil_of_length : (xs : List T) → length xs ≡ 0 → map some xs ≡ []
  nil_of_length [] h = refl
  nil_of_length (x ∷ xs) h = absurd (omega arith)

  -- A fresh buffer is empty, and a capacity below one is refused.
  pub create-Holds :
      (capacity : ℕ)
      → 1 ≤ capacity
      → (b : CircularBuffer T) × (create capacity ≡ ok b) × Holds b [] × (b.capacity ≡ capacity)
  unfolding create view
  create-Holds capacity h = (
    record { buffer = replicate capacity none; head = 0; size = 0; capacity = capacity },
    ground arith,
    record {
      positive = h;
      storage = length-replicate capacity none;
      inside = h;
      filled = omega arith;
      linear = λ l. refl;
      counted = refl;
      shown = refl;
    },
    refl,
  )

  pub to_array-Holds :
      (b : CircularBuffer T) (items : List T) → Holds b items → to_array b ≡ map some items
  unfolding to_array
  to_array-Holds b items h = elim (Bool-cases (b.size == 0)) [
    | inl z ↦ rw z (sym (nil_of_length items (ground arith)))
    | inr z ↦ rw z (elim (Bool-cases (ltb b.size b.capacity)) [
      | inl l ↦ rw l (
          copy_from-view b.buffer b.capacity 0 b.size (omega arith)
          ∙ ap (λ s. view b.buffer b.capacity s 0 b.size) (ground arith)
          ∙ h.shown)
      | inr l ↦
          rw l (ap₂ (λ s n. view b.buffer b.capacity s 0 n) (ground arith) (ground arith) ∙ h.shown)
    ])
  ]

  push-Holds_grow :
      (x : T) (b : CircularBuffer T) (items : List T)
      → Holds b items
      → b.size < b.capacity
      → Holds (push x b) (items ++ x ∷ [])
  unfolding push
  push-Holds_grow x b items h l =
      let e : b.head ≡ (0 + b.size) % b.capacity = grind arith in
      record {
        positive = h.positive;
        storage = ground (arith, length-write b.buffer b.head x);
        inside = grind arith;
        filled = ground arith;
        linear = grind arith;
        counted = ground (arith, length-append items (x ∷ []));
        shown =
            ap₂ (λ s n. view (push x b).buffer b.capacity s 0 n) begin (ground arith)
            ∙ view_grow b.buffer b.capacity 0 b.size b.head x (omega arith) l e
            ∙ ap (λ v. v ++ some x ∷ [])
                (ap (λ s. view b.buffer b.capacity s 0 b.size) (ground arith) ∙ h.shown)
            ∙ sym (map-append some items (x ∷ []));
      }
    where
      begin : start (push x b) ≡ 0
      begin = grind arith

  push-Holds_full :
      (x : T) (b : CircularBuffer T) (items : List T)
      → Holds b items
      → b.size ≡ b.capacity
      → Holds (push x b) (drop 1 items ++ x ∷ [])
  unfolding push
  push-Holds_full x b items h l =
      let m = b.capacity - 1 in
      let e : b.capacity ≡ suc m = omega arith in
      record {
        positive = h.positive;
        storage = ground (arith, length-write b.buffer b.head x);
        inside = grind arith;
        filled = ground arith;
        linear = grind arith;
        counted = ground (arith, length-append (drop 1 items) (x ∷ []), length-drop 1 items);
        shown =
            ap₂ (λ s n. view (push x b).buffer b.capacity s 0 n) (ground arith) (ground arith)
            ∙ view_turn b.buffer b.capacity b.head m x h.inside e
            ∙ ap (λ v. drop 1 v ++ some x ∷ [])
                (ap₂ (λ s n. view b.buffer b.capacity s 0 n) (ground arith) (ground arith)
                  ∙ h.shown)
            ∙ ap (λ v. v ++ some x ∷ []) (sym (map-drop some 1 items))
            ∙ sym (map-append some (drop 1 items) (x ∷ []));
      }

  -- A push onto a buffer that holds `items` leaves the last `capacity` of `items` and the new item.
  pub push-Holds :
      (x : T) (b : CircularBuffer T) (items : List T)
      → Holds b items
      → Holds (push x b) (take_last b.capacity (items ++ x ∷ []))
  push-Holds x b items h = elim (Bool-cases (ltb b.size b.capacity)) [
    | inl l ↦
        let e : length (items ++ x ∷ []) - b.capacity ≡ 0 =
          ground (arith, length-append items (x ∷ [])) in
        rw e (push-Holds_grow x b items h (ltb→lt _ _ l))
    | inr l ↦
        let e : length (items ++ x ∷ []) - b.capacity ≡ 1 =
          ground (arith, length-append items (x ∷ [])) in
        rw e (
          subst (Holds (push x b)) (sym (drop-append_le 1 items (x ∷ []) (ground arith)))
            (push-Holds_full x b items h (ground arith)))
  ]

  pub capacity-push : (x : T) (b : CircularBuffer T) → (push x b).capacity ≡ b.capacity
  unfolding push
  capacity-push x b = refl

  pub clear-Holds : (b : CircularBuffer T) (items : List T) → Holds b items → Holds (clear b) []
  unfolding clear view
  clear-Holds b items h = record {
    positive = h.positive;
    storage = length-map b.buffer (λ x. none) ∙ h.storage;
    inside = h.positive;
    filled = omega arith;
    linear = λ l. refl;
    counted = refl;
    shown = refl;
  }

  head?-map : (xs : List T) {v : Option T} → head? (map some xs) ≡ some v → v ≡ head? xs
  head?-map [] h = cc
  head?-map (x ∷ xs) h = cc

  get_last?-map : (xs : List T) {v : Option T} → get_last? (map some xs) ≡ some v → v ≡ get_last? xs
  get_last?-map [] h = cc
  get_last?-map (x ∷ []) h = cc
  get_last?-map (x ∷ y ∷ xs) h = get_last?-map (y ∷ xs) h

  empty_ends : (items : List T) → length items ≡ 0 → (none ≡ head? items) × (none ≡ get_last? items)
  empty_ends [] h = (refl, refl)
  empty_ends (x ∷ xs) h = absurd (omega arith)

  start_linear : (b : CircularBuffer T) → b.size < b.capacity → start b ≡ 0
  start_linear b h = ground arith

  start_full : (b : CircularBuffer T) → b.capacity ≤ b.size → start b ≡ b.head
  start_full b h = ground arith

  -- The slot before the head is the newest item's.
  newest :
      (b : CircularBuffer T) (items : List T)
      → Holds b items
      → 1 ≤ b.size
      → (b.head + b.capacity - 1) % b.capacity ≡ (start b + (b.size - 1)) % b.capacity
  newest b items h p = elim (Bool-cases (ltb b.size b.capacity)) [
    | inl l ↦
        let e : b.head + b.capacity - 1 ≡ (b.size - 1) + b.capacity = ground arith in
        rw (e, start_linear b (ground arith)) (grind arith)
    | inr l ↦ rw (start_full b (ground arith)) (ap (λ k. k % b.capacity) (ground arith))
  ]

  pub peek_first-Holds :
      (b : CircularBuffer T) (items : List T) → Holds b items → peek_first b ≡ head? items
  unfolding peek_first
  peek_first-Holds b items h = elim (Bool-cases (b.size == 0)) [
    | inl z ↦ rw z (empty_ends items (ground arith)).0
    | inr z ↦
        let first : head? (map some items) ≡ some (slot b.buffer ((start b + 0) % b.capacity)) =
          ap head? (sym h.shown) ∙ head?-view b.buffer b.capacity (start b) b.size (ground arith) in
        rw z (elim (Bool-cases (ltb b.size b.capacity)) [
          | inl l ↦
              rw l (ap (slot b.buffer) (grind (arith, start_linear b)) ∙ head?-map items first)
          | inr l ↦ rw l (
              ap (slot b.buffer) (rw (start_full b (ground arith)) (sym (round_zero _ _ h.inside)))
              ∙ head?-map items first)
        ])
  ]

  pub peek_last-Holds :
      (b : CircularBuffer T) (items : List T) → Holds b items → peek_last b ≡ get_last? items
  unfolding peek_last
  peek_last-Holds b items h = elim (Bool-cases (b.size == 0)) [
    | inl z ↦ rw z (empty_ends items (ground arith)).1
    | inr z ↦
        let last : get_last? (map some items)
            ≡ some (slot b.buffer ((start b + (b.size - 1)) % b.capacity)) =
          ap get_last? (sym h.shown)
          ∙ get_last?-view b.buffer b.capacity (start b) b.size (ground arith) in
        rw z (ap (slot b.buffer) (newest b items h (ground arith)) ∙ get_last?-map items last)
  ]

  -- Pushing `items` onto a fresh buffer: the loop of its user.
  pub pushes-Holds :
      (items : List T) (b : CircularBuffer T) (held : List T)
      → Holds b held
      → Holds (foldl (λ c x. push x c) b items) (take_last b.capacity (held ++ items))
  unfolding push
  pushes-Holds [] b held h =
      let e : length held - b.capacity ≡ 0 = ground arith in rw (append-nil, e) h
  pushes-Holds (x ∷ xs) b held h =
      subst (Holds (foldl (λ c y. push y c) (push x b) xs))
        (take_last-append b.capacity (held ++ x ∷ []) xs
          ∙ ap (take_last b.capacity) (append_assoc held (x ∷ []) xs))
        (pushes-Holds xs (push x b) (take_last b.capacity (held ++ x ∷ [])) (push-Holds x b held h))

  -- Whatever is pushed onto a new buffer of a capacity of at least one, in whatever number, `toArray`
  -- then returns the last `capacity` of the items, oldest first, and `length` their number.
  pub to_array-pushes :
      (capacity : ℕ) (items : List T)
      → 1 ≤ capacity
      → (b : CircularBuffer T) × (create capacity ≡ ok b)
        × (to_array (foldl (λ c x. push x c) b items) ≡ map some (take_last capacity items))
        × (Buffer.length (foldl (λ c x. push x c) b items) ≡ min capacity (length items))
  to_array-pushes capacity items h =
      let (b, made, fresh, e) = create-Holds capacity h in
      let held =
        subst (λ n. Holds (foldl (λ c x. push x c) b items) (take_last n items)) e
          (pushes-Holds items b [] fresh) in
      (
        b,
        made,
        to_array-Holds _ _ held,
        omega (arith, held.counted, length-drop (length items - capacity) items),
      )
