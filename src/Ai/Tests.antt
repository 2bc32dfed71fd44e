-- ===== src/Ai/Tests.antt =====
-- The AI service at concrete inputs.
use text.Mathlib.TextEquality.{eq_iff}
use talksy.Common.{join, map, ◌≡◌, refl, true, false, List, [], ◌∷◌, none, ok}
use talksy.Common.Map
use talksy.LruCache
use talksy.Session.{SessionMessage, user}
use talksy.Ai.{
  AiService, AiProvider, AiCacheConfig, AiCompletionOptions, AiCompletionResult, AiEnv,
  register_providers, init, select_active_provider, generate_cache_key, generate_completion,
}
use talksy.Ai.Provider.{Op, switch_op, complete_op, apply_all, IsSelected, apply_all-IsSelected}
use talksy.StreamBatcher.{is_done}
use talksy.StreamBatcher.Groups.{only_last}
use talksy.Ai.Mock.{MockEnv, generate_mock_response, random_choice, greetings, generate_stream}
use talksy.Ai.Mock
use talksy.Ai.Mock.Words.{texts, generate_stream-text}

abbrev env : AiEnv
env = record { normalize = λ text. text; options_json = λ options. "{}"; sha256 = λ text. text }

abbrev mock : AiProvider
mock = record { name = "mock"; is_available = true; streams = true }

abbrev openai : AiProvider
openai = record { name = "openai"; is_available = true; streams = true }

-- No key is configured for this one.
abbrev groq : AiProvider
groq = record { name = "groq"; is_available = false; streams = false }

abbrev config : AiCacheConfig
config = record { enabled = true; ttl_ms = 100; max_size = 2 }

abbrev made : AiService
made = record {
  providers = register_providers mock openai groq;
  active_provider = mock;
  configured = "groq";
  mock = mock;
  cache_config = config;
  response_cache = LruCache.Valid.new 2 100;
  cache_hits = 0;
  cache_misses = 0;
}

init-config : init "groq" mock openai groq config ≡ ok made
unfolding init select_active_provider LruCache.create Map.get Map.set
init-config = refl

abbrev hello : List SessionMessage
hello = record { role = user; content = "hello"; timestamp = 1 } ∷ []

abbrev hi : AiCompletionResult
hi = record { content = "hi"; rest = "stop" }

abbrev other : AiCompletionResult
other = record { content = "good day"; rest = "stop" }

abbrev ops : List Op
ops = switch_op "openai" ∷ complete_op (λ n. 10) hello none (ok hi) ∷ switch_op "groq" ∷ []

apply_all-IsSelected_example : IsSelected (apply_all env ops made)
apply_all-IsSelected_example =
    apply_all-IsSelected env "groq" mock openai groq config made ops refl
      (λ p. let h : false ≡ true = (eq_iff "openai" "mock").1 p in cc)
      (λ p. let h : false ≡ true = (eq_iff "groq" "mock").1 p in cc) init-config

abbrev mock_env : MockEnv
mock_env = record { lower = λ text. text; random = λ n. 1 }

generate_stream-text_example :
    (join (texts (generate_stream mock_env hello))
      ≡ (Mock.generate_completion mock_env hello).content)
    × (only_last (map is_done (generate_stream mock_env hello)) ≡ true)
generate_stream-text_example = generate_stream-text mock_env hello
