-- ===== src/Ai/Responses.antt =====
-- Code: src/ai/ai.service.ts. Where the responses of the cache come from.
use Prim.Native.String.{◌++◌}
use text.Mathlib.TextLemmas.{append_assoc, append-nil}
use talksy.Common.{
  ℕ, ◌≡◌, ◌⊎◌, sym, ◌∙◌, ap, List, [], ◌∷◌, map, Option, some, String, ok, join, if◌then◌else◌, not,
  is_some, Bool, true,
}
use talksy.Common.Map
use talksy.LruCache
use talksy.LruCache.{LruCache}
use talksy.LruCache.Values.{value_at}
use talksy.Session.{SessionMessage, user}
use talksy.Ai.{
  AiService, AiCompletionOptions, AiCompletionResult, AiEnv, CachedAiResponse, generate_cache_key,
  options_text, message_text, join_bar,
}
use talksy.Ai.Names.{IsPlain}
use talksy.Ai.Provider.{Op, complete_op, apply}

-- A call that a provider has answered with a completion.
pub record Answered : Type 0 where
  pub provider : String
  pub messages : List SessionMessage
  pub options : Option AiCompletionOptions
  pub result : AiCompletionResult

abbrev pub Made : Type 0
Made = List Answered

module _ (env : AiEnv) where
  -- Of what is asked: who says each message, its text without blanks around it and in lower case, and
  -- the options.
  abbrev pub asked : List SessionMessage → Option AiCompletionOptions → String
  asked messages options =
      join (join_bar (map (message_text env) messages) ∷ ":" ∷ options_text env options ∷ [])

  -- The completion is a provider's answer to what was asked.
  pub IsAnswered :
      String → List SessionMessage → Option AiCompletionOptions → AiCompletionResult → Made → Type 0
  IsAnswered provider messages options result [] = ⊥
  IsAnswered provider messages options result (a ∷ made) =
      ((a.provider ≡ provider)
        × (asked a.messages a.options ≡ asked messages options)
        × (a.result ≡ result))
      ⊎ IsAnswered provider messages options result made

  IsMade : String → AiCompletionResult → Made → Type 0
  IsMade key result [] = ⊥
  IsMade key result (a ∷ made) =
      ((generate_cache_key env a.provider a.messages a.options ≡ key) × (a.result ≡ result))
      ⊎ IsMade key result made

  -- The providers of the calls have no colon in their names.
  AllPlain : Made → Type 0
  AllPlain [] = Unit
  AllPlain (a ∷ made) = IsPlain a.provider × AllPlain made

  -- The provider is asked where the cache is off or has no response.
  abbrev pub is_asked :
      (ℕ → ℕ) → List SessionMessage → Option AiCompletionOptions → AiService → Bool
  is_asked clock messages options s =
      let key = generate_cache_key env s.active_provider.name messages options in
      if s.cache_config.enabled
      then not (is_some (LruCache.get (clock 0) (clock 1) key s.response_cache).1)
      else true

  -- The completions that providers make in the course of the calls, the latest first.
  unfoldable pub note : Op → AiService → Made → Made
  note (complete_op clock messages options (ok result)) s made =
      let a : Answered = record {
        provider = s.active_provider.name;
        messages = messages;
        options = options;
        result = result;
      } in
      if is_asked clock messages options s then a ∷ made else made
  note op s made = made

  unfoldable pub made_by : List Op → AiService → Made → Made
  made_by [] s made = made
  made_by (op ∷ ops) s made = made_by ops (apply env op s) (note op s made)

  IsHonest : AiService → Made → Type 0
  IsHonest s made =
      (k : String) (v : CachedAiResponse)
      → value_at k s.response_cache ≡ some v
      → IsMade k v.result made

  -- Keys do not tell two messages of the user from one message with the text of both and a bar between
  -- them: such conversations share their responses. The texts are as `trim` and `toLowerCase` leave them.
  pub generate_cache_key-bar :
      (provider a b : String) (t t' t'' : ℕ) (options : Option AiCompletionOptions)
      → env.normalize a ≡ a
      → env.normalize b ≡ b
      → env.normalize (a ++ "|user:" ++ b) ≡ a ++ "|user:" ++ b
      → generate_cache_key env provider
          (record { role = user; content = a; timestamp = t }
            ∷ record { role = user; content = b; timestamp = t' }
            ∷ [])
          options
        ≡ generate_cache_key env provider
            (record { role = user; content = a ++ "|user:" ++ b; timestamp = t'' } ∷ [])
            options
  generate_cache_key-bar provider a b t t' t'' options na nb nab =
      let bar : "|user:" ++ b ≡ "|" ++ "user" ++ ":" ++ b =
        append_assoc "|user" ":" b ∙ append_assoc "|" "user" (":" ++ b) in
      let texts : ("user" ++ ":" ++ env.normalize a ++ "")
            ++ "|"
            ++ ("user" ++ ":" ++ env.normalize b ++ "")
            ++ ""
          ≡ "user" ++ ":" ++ (a ++ "|user:" ++ b) ++ "" =
        simp (na, nb, bar, append_assoc, append-nil) in
      ap (λ x. env.sha256 (join (provider ∷ ":" ∷ x ∷ ":" ∷ options_text env options ∷ [])))
        (texts ∙ ap (λ x. "user" ++ ":" ++ x ++ "") (sym nab))
