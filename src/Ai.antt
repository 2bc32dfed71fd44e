-- ===== src/Ai.antt =====
-- src/ai/ai.service.ts: the class `AIService`, which keeps the providers and a cache of their responses. What a
-- provider answers comes over the network: it is an argument of the calls. The hash of a text, JSON, `trim` and
-- `toLowerCase` are parameters.
pub mod Provider
pub mod Names
pub mod Responses
pub mod Mock
mod Tests
use talksy.Common.{
  ℕ, ◌+◌, Bool, true, false, not, ◌&&◌, if◌then◌else◌, List, [], ◌∷◌, map, Option, none, some,
  String, str_dec, ite, Result, ok, throw, join,
}
use talksy.Common.Map
use talksy.Common.Map.{Map}
use talksy.LruCache
use talksy.LruCache.{LruCache}
use talksy.Session.{SessionMessage, MessageRole, user, assistant, system}
use talksy.StreamBatcher.{Chunk}

-- The temperature is a decimal, as it is written. `stream` is not read by the service.
pub record AiCompletionOptions : Type 0 where
  pub max_tokens : Option ℕ
  pub temperature : Option String

-- The usage and the reason to finish are passed on, as a text.
pub record AiCompletionResult : Type 0 where
  pub content : String
  pub rest : String

pub record AiProvider : Type 0 where
  pub name : String
  pub is_available : Bool
  -- Whether it has `generateStream`.
  pub streams : Bool

pub record CachedAiResponse : Type 0 where
  pub result : AiCompletionResult
  pub cached_at : ℕ

pub record AiCacheConfig : Type 0 where
  pub enabled : Bool
  pub ttl_ms : ℕ
  pub max_size : ℕ

pub record AiService : Type 0 where
  pub providers : Map AiProvider
  pub active_provider : AiProvider
  pub configured : String
  pub mock : AiProvider
  pub cache_config : AiCacheConfig
  pub response_cache : LruCache CachedAiResponse
  pub cache_hits : ℕ
  pub cache_misses : ℕ

-- The functions of libraries.
pub record AiEnv : Type 0 where
  pub normalize : String → String
  pub options_json : AiCompletionOptions → String
  pub sha256 : String → String

abbrev pub role_text : MessageRole → String
role_text user = "user"
role_text assistant = "assistant"
role_text system = "system"

-- `join('|')`
abbrev pub join_bar : List String → String
join_bar [] = ""
join_bar (s ∷ []) = s
join_bar (s ∷ t ∷ ss) = join (s ∷ "|" ∷ join_bar (t ∷ ss) ∷ [])

abbrev pub register_providers : AiProvider → AiProvider → AiProvider → Map AiProvider
register_providers mock openai groq =
    Map.set groq.name groq (Map.set openai.name openai (Map.set mock.name mock []))

unfoldable pub select_active_provider : String → AiProvider → Map AiProvider → AiProvider
select_active_provider configured mock providers = elim (Map.get configured providers) [
  | none ↦ mock
  | some requested ↦ if requested.is_available then requested else mock
]

-- `onModuleInit`; a cache with no room throws.
unfoldable pub init :
    String → AiProvider → AiProvider → AiProvider → AiCacheConfig → Result AiService
init configured mock openai groq config =
    let providers = register_providers mock openai groq in
    elim (LruCache.create {T = CachedAiResponse} (if config.enabled then config.max_size else 1)
        (if config.enabled then config.ttl_ms else 0))
      as (λ x. Result AiService) [
        | throw message ↦ throw message
        | ok cache ↦ ok (record {
          providers = providers;
          active_provider = select_active_provider configured mock providers;
          configured = configured;
          mock = mock;
          cache_config = config;
          response_cache = cache;
          cache_hits = 0;
          cache_misses = 0;
        })
      ]

unfoldable pub switch_provider : String → AiService → AiService × Bool
switch_provider name s = elim (Map.get name s.providers) [
  | none ↦ (s, false)
  | some provider ↦
      if not provider.is_available
      then (s, false)
      else (record s { active_provider = provider }, true)
]

abbrev pub current_provider : AiService → String
current_provider s = s.active_provider.name

abbrev pub is_using_fallback : AiService → Bool
is_using_fallback s =
    ite (str_dec s.configured "mock") false (ite (str_dec s.active_provider.name "mock") true false)

unfoldable pub available_of : Map AiProvider → List String
available_of [] = []
available_of ((name, provider) ∷ providers) =
    let rest = available_of providers in if provider.is_available then name ∷ rest else rest

abbrev pub get_available_providers : AiService → List String
get_available_providers s = available_of s.providers

unfoldable pub clear_cache : AiService → AiService
clear_cache s = record s {
  response_cache = LruCache.clear s.response_cache;
  cache_hits = 0;
  cache_misses = 0;
}

module _ (env : AiEnv) where
  abbrev pub message_text : SessionMessage → String
  message_text m = join (role_text m.role ∷ ":" ∷ env.normalize m.content ∷ [])

  abbrev pub options_text : Option AiCompletionOptions → String
  options_text none = ""
  options_text (some options) = env.options_json options

  abbrev pub generate_cache_key : String → List SessionMessage → Option AiCompletionOptions → String
  generate_cache_key provider messages options = env.sha256 (
      join
        (provider ∷ ":" ∷ join_bar (map message_text messages) ∷ ":" ∷ options_text options ∷ []))

  -- With a cache that is enabled; `reply` is what the provider answers, if it is asked. The clock is read
  -- twice by `get`, for `cachedAt`, and by `set`.
  unfoldable pub cached_completion :
      (ℕ → ℕ)
      → String
      → Result AiCompletionResult
      → AiService
      → AiService × Result AiCompletionResult
  cached_completion clock key reply s =
      let (c, cached) = LruCache.get (clock 0) (clock 1) key s.response_cache in
      let missed : AiService = record s { response_cache = c; cache_misses = s.cache_misses + 1 } in
      elim cached [
        | some response ↦
            (record s { response_cache = c; cache_hits = s.cache_hits + 1 }, ok response.result)
        | none ↦ elim reply [
          | throw message ↦ (missed, throw message)
          | ok result ↦ (
            record missed {
              response_cache =
                  LruCache.set (clock 3) key (record { result = result; cached_at = clock 2 }) none
                    c;
            },
            ok result,
          )
        ]
      ]

  unfoldable pub generate_completion :
      (ℕ → ℕ)
      → List SessionMessage
      → Option AiCompletionOptions
      → Result AiCompletionResult
      → AiService
      → AiService × Result AiCompletionResult
  generate_completion clock messages options reply s =
      let key = generate_cache_key s.active_provider.name messages options in
      if s.cache_config.enabled then cached_completion clock key reply s else (s, reply)

-- `generateStream`: the chunks that are yielded, and the error that ends them, if one does. A provider without
-- streams is asked for a completion.
unfoldable pub generate_stream :
    Result AiCompletionResult → List Chunk × Option String → AiService → List Chunk × Option String
generate_stream reply stream s =
    let whole = elim reply as (λ x. List Chunk × Option String) [
      | ok result ↦ (record { content = result.content; done = some true } ∷ [], none)
      | throw message ↦ ([], some message)
    ] in
    if not s.active_provider.streams then whole else stream
