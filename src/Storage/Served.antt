-- ===== src/Storage/Served.antt =====
-- Code: src/storage/storage.service.ts. Which adapter answers, over a sequence of calls.
use talksy.Common.{
  ℕ, ◌≡◌, ◌⊎◌, refl, ◌∙◌, ap, Bool, true, false, List, [], ◌∷◌, ◌++◌, Option, String, Result, ok,
  throw, Result-cases, Bool-cases, inl, inr,
}
use talksy.MemoryStorage
use talksy.MemoryStorage.{Store}
use talksy.RedisStorage
use talksy.RedisStorage.{Env}
use talksy.Storage.{
  StorageService, with_fallback, switch_to_fallback, get, set, delete, has, keys, clear, count,
}

-- The calls, with the times that the adapter in memory reads.
pub data Op (V : Type 0) : Type 0 where
  get_op : (now : ℕ) (key : String) → Op V
  set_op : (now now' : ℕ) (key : String) (value : V) (ttl_ms : Option ℕ) → Op V
  delete_op : (key : String) → Op V
  has_op : (now : ℕ) (key : String) → Op V
  keys_op : (now : ℕ) → Op V
  clear_op : Op V
  count_op : (now : ℕ) → Op V

pub data Reply (V : Type 0) : Type 0 where
  session : Option V → Reply V
  done : Unit {0} → Reply V
  known : Bool → Reply V
  listed : List String → Reply V
  counted : ℕ → Reply V

module _ {V : Type 0} where
  abbrev map_result : {A : Type 0} → (A → Reply V) → Result A → Result (Reply V)
  map_result f (ok a) = ok (f a)
  map_result f (throw message) = throw message

  abbrev with_reply : {S A : Type 0} → (A → Reply V) → S × A → S × Reply V
  with_reply f (s, a) = (s, f a)

  unfoldable pub memory_apply : Op V → Store V → Store V × Reply V
  memory_apply (get_op now key) m = with_reply session (MemoryStorage.get now key m)
  memory_apply (set_op now now' key value ttl_ms) m =
      (MemoryStorage.set now now' key value ttl_ms m, done tt)
  memory_apply (delete_op key) m = with_reply known (MemoryStorage.delete key m)
  memory_apply (has_op now key) m = with_reply known (MemoryStorage.has now key m)
  memory_apply (keys_op now) m = (m, listed (MemoryStorage.keys now m))
  memory_apply clear_op m = (MemoryStorage.clear m, done tt)
  memory_apply (count_op now) m = (m, counted (MemoryStorage.count now m))

  unfoldable pub memory_all : List (Op V) → Store V → Store V × List (Reply V)
  memory_all [] m = (m, [])
  memory_all (op ∷ ops) m =
      let (m', reply) = memory_apply op m in
      let (m'', replies) = memory_all ops m' in (m'', reply ∷ replies)

module _ {R V : Type 0} where
  abbrev with_result : {A : Type 0} → (A → Reply V) → R × Result A → R × Result (Reply V)
  with_result f (r, reply) = (r, map_result f reply)

  -- What the service does with a call that Redis answers, or throws at.
  with_fallback-map :
      {A : Type 0} (f : A → Reply V) (ask : R → R × Result A) (g : Store V → Store V × A)
      (s : StorageService R V)
      → with_reply f (with_fallback ask g s)
        ≡ with_fallback (λ r. with_result f (ask r)) (λ m. with_reply f (g m)) s
  with_fallback-map f ask g s = elim (Bool-cases s.active_redis) [
    | inr off ↦ rw off refl
    | inl on ↦ elim (Result-cases (ask s.redis).1) [
      | inl (a, answered) ↦ rw (on, answered) refl
      | inr (message, thrown) ↦ rw (on, thrown) refl
    ]
  ]

module _ {R V : Type 0} (env : Env R V) where
  unfoldable pub redis_apply : Op V → R → R × Result (Reply V)
  redis_apply (get_op now key) r = with_result session (RedisStorage.get env key r)
  redis_apply (set_op now now' key value ttl_ms) r =
      with_result done (RedisStorage.set env key value ttl_ms r)
  redis_apply (delete_op key) r = with_result known (RedisStorage.delete env key r)
  redis_apply (has_op now key) r = with_result known (RedisStorage.has env key r)
  redis_apply (keys_op now) r = with_result listed (RedisStorage.keys env r)
  redis_apply clear_op r = with_result done (RedisStorage.clear env r)
  redis_apply (count_op now) r = with_result counted (RedisStorage.count env r)

  -- The calls on Redis, up to the first one that throws.
  unfoldable pub redis_all : List (Op V) → R → R × Result (List (Reply V))
  redis_all [] r = (r, ok [])
  redis_all (op ∷ ops) r =
      let (r', reply) = redis_apply op r in
      let (r'', replies) = redis_all ops r' in
      elim reply as (λ x. R × Result (List (Reply V))) [
        | throw message ↦ (r', throw message)
        | ok a ↦ elim replies as (λ x. R × Result (List (Reply V))) [
          | throw message ↦ (r'', throw message)
          | ok rest ↦ (r'', ok (a ∷ rest))
        ]
      ]

  unfoldable pub apply : Op V → StorageService R V → StorageService R V × Reply V
  apply (get_op now key) s = with_reply session (get env now key s)
  apply (set_op now now' key value ttl_ms) s = with_reply done (set env now now' key value ttl_ms s)
  apply (delete_op key) s = with_reply known (delete env key s)
  apply (has_op now key) s = with_reply known (has env now key s)
  apply (keys_op now) s = with_reply listed (keys env now s)
  apply clear_op s = with_reply done (clear env s)
  apply (count_op now) s = with_reply counted (count env now s)

  unfoldable pub apply_all : List (Op V) → StorageService R V → StorageService R V × List (Reply V)
  apply_all [] s = (s, [])
  apply_all (op ∷ ops) s =
      let (s', reply) = apply op s in
      let (s'', replies) = apply_all ops s' in (s'', reply ∷ replies)

  apply-with_fallback :
      (op : Op V) (s : StorageService R V)
      → apply op s ≡ with_fallback (redis_apply op) (memory_apply op) s
  unfolding apply redis_apply memory_apply get set delete has keys clear count
  apply-with_fallback (get_op now key) s =
      with_fallback-map session (RedisStorage.get env key) (MemoryStorage.get now key) s
  apply-with_fallback (set_op now now' key value ttl_ms) s =
      with_fallback-map done (RedisStorage.set env key value ttl_ms)
        (λ m. (MemoryStorage.set now now' key value ttl_ms m, tt)) s
  apply-with_fallback (delete_op key) s =
      with_fallback-map known (RedisStorage.delete env key) (MemoryStorage.delete key) s
  apply-with_fallback (has_op now key) s =
      with_fallback-map known (RedisStorage.has env key) (MemoryStorage.has now key) s
  apply-with_fallback (keys_op now) s =
      with_fallback-map listed (RedisStorage.keys env) (λ m. (m, MemoryStorage.keys now m)) s
  apply-with_fallback clear_op s =
      with_fallback-map done (RedisStorage.clear env) (λ m. (MemoryStorage.clear m, tt)) s
  apply-with_fallback (count_op now) s =
      with_fallback-map counted (RedisStorage.count env) (λ m. (m, MemoryStorage.count now m)) s

  -- In memory, the service does what the adapter does.
  apply_all-memory :
      (ops : List (Op V)) (s : StorageService R V)
      → s.active_redis ≡ false
      → ((apply_all ops s).1 ≡ (memory_all ops s.memory).1)
        × ((apply_all ops s).0 ≡ record s { memory = (memory_all ops s.memory).0 })
  unfolding apply_all memory_all
  apply_all-memory [] s off = (refl, refl)
  apply_all-memory (op ∷ ops) s off =
      let (m, reply) = memory_apply op s.memory in
      let s' : StorageService R V = record s { memory = m } in
      let step : apply op s ≡ (s', reply) = apply-with_fallback op s ∙ rw off refl in
      let (replies, state) = apply_all-memory ops s' off in
      (
        ap (λ (x : StorageService R V × Reply V). x.1 ∷ (apply_all ops x.0).1) step
            ∙ ap (λ l. reply ∷ l) replies,
        ap (λ (x : StorageService R V × Reply V). (apply_all ops x.0).0) step ∙ state,
      )

  -- The calls that Redis answered, and those from the first at which it threw.
  pub record IsServed (ops : List (Op V)) (s : StorageService R V) : Type 0 where
    pub before : List (Op V)
    pub after : List (Op V)
    pub answers : List (Reply V)
    pub split : ops ≡ before ++ after
    pub answered : (redis_all before s.redis).1 ≡ ok answers
    pub replies : (apply_all ops s).1 ≡ answers ++ (memory_all after s.memory).1
    pub stored : (apply_all ops s).0.memory ≡ (memory_all after s.memory).0
    pub fallback :
        (after ≡ []) × ((apply_all ops s).0.active_redis ≡ true)
        ⊎ ((op : Op V) × (rest : List (Op V)) × (message : String) × (after ≡ op ∷ rest)
            × ((redis_apply op (redis_all before s.redis).0).1 ≡ throw message)
            × ((apply_all ops s).0.using_fallback ≡ true)
            × ((apply_all ops s).0.active_redis ≡ false))

  answered-IsServed :
      (op : Op V) (ops : List (Op V)) (s : StorageService R V) (a : Reply V)
      → s.active_redis ≡ true
      → (redis_apply op s.redis).1 ≡ ok a
      → IsServed ops (record s { redis = (redis_apply op s.redis).0 })
      → IsServed (op ∷ ops) s
  unfolding apply_all memory_all redis_all
  answered-IsServed op ops s a on answered v =
      let r = (redis_apply op s.redis).0 in
      let s' : StorageService R V = record s { redis = r } in
      let step : apply op s ≡ (s', a) = apply-with_fallback op s ∙ rw (on, answered) (rw on refl) in
      let final : (apply_all (op ∷ ops) s).0 ≡ (apply_all ops s').0 =
        ap (λ (x : StorageService R V × Reply V). (apply_all ops x.0).0) step in
      let asked : (redis_all (op ∷ v.before) s.redis).0 ≡ (redis_all v.before r).0 =
        rw (redis_all, answered, v.answered) refl in
      record {
        before = op ∷ v.before;
        after = v.after;
        answers = a ∷ v.answers;
        split = ap (λ l. op ∷ l) v.split;
        answered = rw (redis_all, answered, v.answered) refl;
        replies =
            ap (λ (x : StorageService R V × Reply V). x.1 ∷ (apply_all ops x.0).1) step
            ∙ ap (λ l. a ∷ l) v.replies;
        stored = ap (λ (x : StorageService R V). x.memory) final ∙ v.stored;
        fallback = elim v.fallback [
          | inl (none_left, active) ↦
              inl (none_left, ap (λ (x : StorageService R V). x.active_redis) final ∙ active)
          | inr (first, rest, message, left, thrown, fallen, inactive) ↦ inr (
            first,
            rest,
            message,
            left,
            ap (λ x. (redis_apply first x).1) asked ∙ thrown,
            ap (λ (x : StorageService R V). x.using_fallback) final ∙ fallen,
            ap (λ (x : StorageService R V). x.active_redis) final ∙ inactive,
          )
        ];
      }

  thrown-IsServed :
      (op : Op V) (ops : List (Op V)) (s : StorageService R V) (message : String)
      → s.active_redis ≡ true
      → (redis_apply op s.redis).1 ≡ throw message
      → IsServed (op ∷ ops) s
  unfolding apply_all memory_all redis_all switch_to_fallback
  thrown-IsServed op ops s message on thrown =
      let r = (redis_apply op s.redis).0 in
      let (m, answer) = memory_apply op s.memory in
      let s' : StorageService R V = record s {
        active_redis = false;
        using_fallback = true;
        memory = m;
        redis = r;
      } in
      let step : apply op s ≡ (s', answer) =
        apply-with_fallback op s ∙ rw (on, thrown, switch_to_fallback) refl in
      let (replies, state) = apply_all-memory ops s' refl in
      let final : (apply_all (op ∷ ops) s).0 ≡ record s' { memory = (memory_all ops m).0 } =
        ap (λ (x : StorageService R V × Reply V). (apply_all ops x.0).0) step ∙ state in
      record {
        before = [];
        after = op ∷ ops;
        answers = [];
        split = refl;
        answered = refl;
        replies =
            ap (λ (x : StorageService R V × Reply V). x.1 ∷ (apply_all ops x.0).1) step
            ∙ ap (λ l. answer ∷ l) replies;
        stored = ap (λ (x : StorageService R V). x.memory) final;
        fallback = inr (
          op,
          ops,
          message,
          refl,
          thrown,
          ap (λ (x : StorageService R V). x.using_fallback) final,
          ap (λ (x : StorageService R V). x.active_redis) final,
        );
      }

  -- A service that has Redis active answers every call: as Redis does up to the first call at which
  -- Redis throws, and that call and all later ones as the adapter in memory does, which has not seen the earlier
  -- ones. Nobody calls for a reconnection in between.
  pub apply_all-IsServed :
      (ops : List (Op V)) (s : StorageService R V) → s.active_redis ≡ true → IsServed ops s
  unfolding apply_all memory_all redis_all
  apply_all-IsServed [] s on = record {
    before = [];
    after = [];
    answers = [];
    split = refl;
    answered = refl;
    replies = refl;
    stored = refl;
    fallback = inl (refl, on);
  }
  apply_all-IsServed (op ∷ ops) s on =
      let (r, reply) = redis_apply op s.redis in
      elim (Result-cases reply) [
        | inl (a, answered) ↦
            answered-IsServed op ops s a on answered
              (apply_all-IsServed ops (record s { redis = r }) on)
        | inr (message, thrown) ↦ thrown-IsServed op ops s message on thrown
      ]
