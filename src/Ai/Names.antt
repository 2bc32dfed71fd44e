-- ===== src/Ai/Names.antt =====
-- Code: src/ai/ai.service.ts. The names of the providers that a service has, and what they say in a key.
use Prim.Native.String.{◌++◌, [], ◌∷◌}
use text.Mathlib.TextLemmas.{nil-append, cons-append, append_cancel_left}
use talksy.Common.{
  ℕ, ◌≡◌, refl, sym, ◌∙◌, ap, Bool, true, not, List, [], ◌∷◌, some, arith, String, Result, ok,
  Result-cases, Option-cases, inl, inr, both,
}
use talksy.Common.Map
use talksy.Common.Split.{split}
use talksy.Common.Split.Pieces.{lacks, split-append}
use talksy.LruCache
use talksy.Ai.{
  AiService, AiProvider, AiCacheConfig, AiCompletionResult, AiEnv, init, register_providers,
  select_active_provider, switch_provider, clear_cache, cached_completion, generate_cache_key,
  generate_completion,
}
use talksy.Ai.Provider.{Op, switch_op, complete_op, clear_op, apply}

-- A name without a colon.
abbrev pub IsPlain : String → Type 0
IsPlain name = lacks b':' name ≡ true

split_colon :
    (name rest : String) → IsPlain name → split b':' (name ++ ":" ++ rest) ≡ name ∷ split b':' rest
split_colon name rest h =
    ap (λ t. split b':' (name ++ t)) (cons-append ":" "" rest ∙ ap (λ t. ":" ∷ t) (nil-append rest))
    ∙ split-append b':' name ":" rest h refl

-- A name without a colon and what comes after the colon can be told from the text.
pub colon_cancel :
    (name name' rest rest' : String)
    → IsPlain name
    → IsPlain name'
    → name ++ ":" ++ rest ≡ name' ++ ":" ++ rest'
    → (name ≡ name') × (rest ≡ rest')
colon_cancel name name' rest rest' h h' e =
    let pieces : ◌≡◌ {A = List String} (name ∷ split b':' rest) (name' ∷ split b':' rest') =
      sym (split_colon name rest h) ∙ ap (split b':') e ∙ split_colon name' rest' h' in
    let same : name ≡ name' = cc in
    (
      same,
      append_cancel_left ":" rest rest' (
          append_cancel_left name' (":" ++ rest) (":" ++ rest')
            (ap (λ n. n ++ ":" ++ rest) (sym same) ∙ e)),
    )

-- No provider has a colon in its name.
pub record ArePlain (s : AiService) : Type 0 where
  pub listed : (k : String) (p : AiProvider) → Map.get k s.providers ≡ some p → IsPlain p.name
  pub active : IsPlain s.active_provider.name

module _ (mock openai groq : AiProvider) where
  register_providers-IsPlain :
      (k : String) (p : AiProvider)
      → IsPlain mock.name
      → IsPlain openai.name
      → IsPlain groq.name
      → Map.get k (register_providers mock openai groq) ≡ some p
      → IsPlain p.name
  unfolding Map.get
  register_providers-IsPlain k p m o g e =
      let a = Map.get-set k mock.name mock [] in
      let b = Map.get-set k openai.name openai (Map.set mock.name mock []) in
      let c =
        Map.get-set k groq.name groq (Map.set openai.name openai (Map.set mock.name mock [])) in
      ground (arith, a, b, c)

  pub init-ArePlain :
      (configured : String) (config : AiCacheConfig) (s : AiService)
      → IsPlain mock.name
      → IsPlain openai.name
      → IsPlain groq.name
      → init configured mock openai groq config ≡ ok s
      → ArePlain s
  unfolding init select_active_provider
  init-ArePlain configured config s m o g made =
      let providers = register_providers mock openai groq in
      let listed : s.providers ≡ providers = ground arith in
      let active : s.active_provider ≡ select_active_provider configured mock providers =
        ground arith in
      record {
        listed = λ k p e. register_providers-IsPlain k p m o g (ap (Map.get k) (sym listed) ∙ e);
        active =
            ap (λ (x : AiProvider). lacks b':' x.name) active
            ∙ elim (Option-cases (Map.get configured providers)) [
              | inl gone ↦ rw (select_active_provider, gone) m
              | inr (p, found) ↦
                  rw (select_active_provider, found)
                    (both (λ (x : AiProvider). IsPlain x.name) p.is_available
                      (register_providers-IsPlain configured p m o g found) m)
            ];
      }

switch_provider-ArePlain :
    (name : String) (s : AiService) → ArePlain s → ArePlain (switch_provider name s).0
unfolding switch_provider
switch_provider-ArePlain name s v = elim (Option-cases (Map.get name s.providers)) [
  | inl gone ↦ rw (switch_provider, gone) v
  | inr (p, found) ↦
      rw (switch_provider, found)
        (both (λ (x : AiService × Bool). ArePlain x.0) (not p.is_available) v
          (record { listed = v.listed; active = v.listed name p found }))
]

module _ (env : AiEnv) where
  cached_completion-ArePlain :
      (clock : ℕ → ℕ) (key : String) (reply : Result AiCompletionResult) (s : AiService)
      → ArePlain s
      → ArePlain (cached_completion env clock key reply s).0
  unfolding cached_completion
  cached_completion-ArePlain clock key reply s v =
      elim (Option-cases (LruCache.get (clock 0) (clock 1) key s.response_cache).1) [
        | inr (response, hit) ↦
            rw (cached_completion, hit) (record { listed = v.listed; active = v.active })
        | inl miss ↦ elim (Result-cases reply) [
          | inl (result, done) ↦
              rw (cached_completion, miss, done) (record { listed = v.listed; active = v.active })
          | inr (message, thrown) ↦
              rw (cached_completion, miss, thrown) (record { listed = v.listed; active = v.active })
        ]
      ]

  pub apply-ArePlain : (op : Op) (s : AiService) → ArePlain s → ArePlain (apply env op s)
  unfolding apply clear_cache generate_completion cached_completion
  apply-ArePlain (switch_op name) s v = switch_provider-ArePlain name s v
  apply-ArePlain (complete_op clock messages options reply) s v =
      both (λ (x : AiService × Result AiCompletionResult). ArePlain x.0) s.cache_config.enabled
        (cached_completion-ArePlain clock
          (generate_cache_key env s.active_provider.name messages options) reply s v)
        v
  apply-ArePlain clear_op s v = record { listed = v.listed; active = v.active }
