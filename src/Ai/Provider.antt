-- ===== src/Ai/Provider.antt =====
-- Code: src/ai/ai.service.ts. Which provider is active.
use talksy.Common.{
  ℕ, ◌≡◌, ◌≢◌, refl, sym, ◌∙◌, ap, ap₂, Bool, true, false, not, if◌then◌else◌, List, [], ◌∷◌,
  Option, some, arith, String, str_dec, if_pos, if_neg, Result, ok, Result-cases, Option-cases,
  Bool-cases, inl, inr, both, each,
}
use talksy.Common.Map
use talksy.Common.Map.{Map}
use talksy.LruCache
use talksy.Session.{SessionMessage}
use talksy.Ai.{
  AiService, AiProvider, AiCacheConfig, AiCompletionOptions, AiCompletionResult, AiEnv,
  register_providers, select_active_provider, init, switch_provider, clear_cache, cached_completion,
  generate_cache_key, generate_completion,
}

-- The calls, with the times and the provider's answers.
pub data Op : Type 0 where
  switch_op : (name : String) → Op
  complete_op :
      (clock : ℕ → ℕ) (messages : List SessionMessage) (options : Option AiCompletionOptions)
      (reply : Result AiCompletionResult)
      → Op
  clear_op : Op

module _ (env : AiEnv) where
  unfoldable pub apply : Op → AiService → AiService
  apply (switch_op name) s = (switch_provider name s).0
  apply (complete_op clock messages options reply) s =
      (generate_completion env clock messages options reply s).0
  apply clear_op s = clear_cache s

  unfoldable pub apply_all : List Op → AiService → AiService
  apply_all [] s = s
  apply_all (op ∷ ops) s = apply_all ops (apply op s)

-- The active provider is available, and it is the one that is registered under its name.
pub record IsSelected (s : AiService) : Type 0 where
  pub available : s.active_provider.is_available ≡ true
  pub registered : Map.get s.active_provider.name s.providers ≡ some s.active_provider
  pub named : (k : String) (p : AiProvider) → Map.get k s.providers ≡ some p → p.name ≡ k

register_providers-named :
    (mock openai groq : AiProvider) (k : String) (p : AiProvider)
    → Map.get k (register_providers mock openai groq) ≡ some p
    → p.name ≡ k
unfolding Map.get
register_providers-named mock openai groq k p e =
    let a = Map.get-set k mock.name mock [] in
    let b = Map.get-set k openai.name openai (Map.set mock.name mock []) in
    let c = Map.get-set k groq.name groq (Map.set openai.name openai (Map.set mock.name mock [])) in
    ground (arith, a, b, c)

register_providers-mock :
    (mock openai groq : AiProvider)
    → openai.name ≢ mock.name
    → groq.name ≢ mock.name
    → Map.get mock.name (register_providers mock openai groq) ≡ some mock
register_providers-mock mock openai groq not_openai not_groq =
    Map.get-set mock.name groq.name groq _
    ∙ if_neg (str_dec groq.name mock.name) not_groq _ _
    ∙ Map.get-set mock.name openai.name openai _
    ∙ if_neg (str_dec openai.name mock.name) not_openai _ _
    ∙ Map.get-set mock.name mock.name mock []
    ∙ if_pos (str_dec mock.name mock.name) refl _ _

if_true : {A : Type 0} (b : Bool) (x y : A) → b ≡ true → (if b then x else y) ≡ x
if_true b x y h = rw h refl

if_false : {A : Type 0} (b : Bool) (x y : A) → b ≡ false → (if b then x else y) ≡ y
if_false b x y h = rw h refl

init-IsSelected :
    (configured : String) (mock openai groq : AiProvider) (config : AiCacheConfig) (s : AiService)
    → mock.is_available ≡ true
    → openai.name ≢ mock.name
    → groq.name ≢ mock.name
    → init configured mock openai groq config ≡ ok s
    → IsSelected s
unfolding init select_active_provider
init-IsSelected configured mock openai groq config s up not_openai not_groq made =
    let providers = register_providers mock openai groq in
    let named = register_providers-named mock openai groq in
    let has_mock = register_providers-mock mock openai groq not_openai not_groq in
    let listed : s.providers ≡ providers = ground arith in
    let active : s.active_provider ≡ select_active_provider configured mock providers =
      ground arith in
    let selected : (p : AiProvider)
        → Map.get p.name providers ≡ some p
        → p.is_available ≡ true
        → s.active_provider ≡ p
        → IsSelected s =
      λ p found available same. record {
        available = ap (λ (x : AiProvider). x.is_available) same ∙ available;
        registered =
            ap₂ (λ (x : AiProvider) (m : Map AiProvider). Map.get x.name m) same listed
            ∙ found
            ∙ ap some (sym same);
        named = λ k q e. named k q (ap (Map.get k) (sym listed) ∙ e);
      } in
    elim (Option-cases (Map.get configured providers)) [
      | inl gone ↦ selected mock has_mock up (active ∙ rw (select_active_provider, gone) refl)
      | inr (p, found) ↦ elim (Bool-cases p.is_available) [
        | inr down ↦
            selected mock has_mock up
              (active ∙ rw (select_active_provider, found) (if_false p.is_available p mock down))
        | inl alive ↦
            selected p (ap (λ k. Map.get k providers) (named configured p found) ∙ found) alive
              (active ∙ rw (select_active_provider, found) (if_true p.is_available p mock alive))
      ]
    ]

switch_provider-IsSelected :
    (name : String) (s : AiService) → IsSelected s → IsSelected (switch_provider name s).0
unfolding switch_provider
switch_provider-IsSelected name s v = elim (Option-cases (Map.get name s.providers)) [
  | inl gone ↦ rw (switch_provider, gone) v
  | inr (p, found) ↦
      rw (switch_provider, found)
        (each (λ (x : AiService × Bool). IsSelected x.0) (not p.is_available) (λ down. v)
          (λ up. record {
            available = ground arith;
            registered = ap (λ k. Map.get k s.providers) (v.named name p found) ∙ found;
            named = v.named;
          }))
]

module _ (env : AiEnv) where
  cached_completion-IsSelected :
      (clock : ℕ → ℕ) (key : String) (reply : Result AiCompletionResult) (s : AiService)
      → IsSelected s
      → IsSelected (cached_completion env clock key reply s).0
  unfolding cached_completion
  cached_completion-IsSelected clock key reply s v =
      elim (Option-cases (LruCache.get (clock 0) (clock 1) key s.response_cache).1) [
        | inr (response, hit) ↦
            rw (cached_completion, hit)
              (record { available = v.available; registered = v.registered; named = v.named })
        | inl miss ↦ elim (Result-cases reply) [
          | inl (result, done) ↦
              rw (cached_completion, miss, done)
                (record { available = v.available; registered = v.registered; named = v.named })
          | inr (message, thrown) ↦
              rw (cached_completion, miss, thrown)
                (record { available = v.available; registered = v.registered; named = v.named })
        ]
      ]

  apply-IsSelected : (op : Op) (s : AiService) → IsSelected s → IsSelected (apply env op s)
  unfolding apply clear_cache generate_completion cached_completion
  apply-IsSelected (switch_op name) s v = switch_provider-IsSelected name s v
  apply-IsSelected (complete_op clock messages options reply) s v =
      both (λ (x : AiService × Result AiCompletionResult). IsSelected x.0) s.cache_config.enabled
        (cached_completion-IsSelected clock
          (generate_cache_key env s.active_provider.name messages options) reply s v)
        v
  apply-IsSelected clear_op s v = record {
    available = v.available;
    registered = v.registered;
    named = v.named;
  }

  IsSelected-apply_all :
      (ops : List Op) (s : AiService) → IsSelected s → IsSelected (apply_all env ops s)
  unfolding apply_all
  IsSelected-apply_all [] s v = v
  IsSelected-apply_all (op ∷ ops) s v =
      IsSelected-apply_all ops (apply env op s) (apply-IsSelected op s v)

  -- Where the mock provider is available and has a name of its own, the active provider is at any time an
  -- available one, and the one that is registered under its name: whichever one is configured, known
  -- or not, and whichever ones are asked for later on.
  pub apply_all-IsSelected :
      (configured : String) (mock openai groq : AiProvider) (config : AiCacheConfig) (s : AiService)
      (ops : List Op)
      → mock.is_available ≡ true
      → openai.name ≢ mock.name
      → groq.name ≢ mock.name
      → init configured mock openai groq config ≡ ok s
      → IsSelected (apply_all env ops s)
  apply_all-IsSelected configured mock openai groq config s ops up not_openai not_groq made =
      IsSelected-apply_all ops s
        (init-IsSelected configured mock openai groq config s up not_openai not_groq made)
