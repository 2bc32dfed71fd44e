-- ===== src/Ai/Mock.antt =====
-- src/ai/providers/mock-ai.provider.ts: the class `MockAIProvider`. `random n` is what
-- `Math.floor(Math.random() * n)` gives; `lower` is `toLowerCase`. The delays are left out.
pub mod Words
use Prim.Native.Char.{Char, code}
use Prim.Native.String
use Prim.Native.String.{[], ◌∷◌}
use talksy.Common.{
  ℕ, ◌+◌, ◌/◌, Bool, true, false, ltb, ◌==◌, ◌&&◌, ◌||◌, if◌then◌else◌, List, [], ◌∷◌, map, Option,
  none, some, String, str_dec, ite, length, get_elem?, join,
}
use talksy.Common.Split.{split, includes, starts_with, utf16_length, join_with}
use talksy.Session.{SessionMessage, MessageRole, user, assistant, system}
use talksy.StreamBatcher.{Chunk}

pub record MockEnv : Type 0 where
  pub lower : String → String
  pub random : ℕ → ℕ

pub record Usage : Type 0 where
  pub prompt_tokens : ℕ
  pub completion_tokens : ℕ
  pub total_tokens : ℕ

pub record MockResult : Type 0 where
  pub content : String
  pub finish_reason : String
  pub usage : Usage

abbrev pub is_user : MessageRole → Bool
is_user user = true
is_user assistant = false
is_user system = false

-- The content of the last message of the user, if there is one.
unfoldable pub last_user : String → List SessionMessage → String
last_user found [] = found
last_user found (m ∷ ms) = last_user (if is_user m.role then m.content else found) ms

unfoldable pub get_last_user_message : List SessionMessage → String
unfolding last_user
get_last_user_message messages = last_user "" messages

unfoldable pub count_user : List SessionMessage → ℕ
count_user [] = 0
count_user (m ∷ ms) = (if is_user m.role then 1 else 0) + count_user ms

unfoldable pub total_length : List SessionMessage → ℕ
total_length [] = 0
total_length (m ∷ ms) = utf16_length m.content + total_length ms

-- `Math.ceil(totalChars / 4)`
unfoldable pub estimate_tokens : List SessionMessage → ℕ
estimate_tokens messages = (total_length messages + 3) / 4

unfoldable pub matches_pattern : String → List String → Bool
matches_pattern text [] = false
matches_pattern text (p ∷ ps) = (includes text p || starts_with text p) || matches_pattern text ps

-- `replace(/[?!.,]/g, '')`
unfoldable pub strip_marks : String → String
strip_marks [] = ""
strip_marks (c ∷ s) =
    let rest = strip_marks s in
    if code c == b'?' || code c == b'!' || code c == b'.' || code c == b',' then rest else c ∷ rest

unfoldable pub long_words : List String → List String
long_words [] = []
long_words (w ∷ ws) = let rest = long_words ws in if ltb 2 (utf16_length w) then w ∷ rest else rest

abbrev pub first_four : List String → List String
first_four (a ∷ b ∷ c ∷ d ∷ rest) = a ∷ b ∷ c ∷ d ∷ []
first_four words = words

unfoldable pub extract_topic : String → String
extract_topic message =
    let topic = join_with " " (first_four (long_words (split b' ' (strip_marks message)))) in
    ite (str_dec topic "") "your message" topic

abbrev pub around : String → String → String → String
around before topic after = join (before ∷ topic ∷ after ∷ [])

unfoldable pub generate_contextual_response : String → List SessionMessage → String
generate_contextual_response message history =
    if ltb 5 (count_user history)
    then around "I appreciate our ongoing conversation! You mentioned \"" (extract_topic message)
        "\". While in demo mode, my responses are limited. Consider upgrading to a premium AI provider for more intelligent conversations."
    else around "I received your message about \"" (extract_topic message)
        "\". I'm currently running in demo mode with preset responses. For more intelligent and contextual replies, the system can be configured to use OpenAI or other premium AI providers."

abbrev pub greetings : List String
greetings =
    "Hello! I'm Talksy, your AI assistant. How can I help you today?"
    ∷ "Hi there! Great to meet you. What would you like to discuss?"
    ∷ "Hey! I'm here to help. What's on your mind?" ∷ []

abbrev pub feelings : List String
feelings =
    "I'm doing great, thanks for asking! I'm ready to assist you with anything you need."
    ∷ "I'm functioning perfectly! How can I help you today?"
    ∷ "All systems are running smoothly! What can I do for you?" ∷ []

abbrev pub welcomes : List String
welcomes =
    "You're welcome! Is there anything else I can help you with?"
    ∷ "Happy to help! Let me know if you need anything else."
    ∷ "My pleasure! Feel free to ask if you have more questions." ∷ []

abbrev pub goodbyes : List String
goodbyes =
    "Goodbye! It was nice chatting with you. Come back anytime!"
    ∷ "Take care! Feel free to return whenever you need assistance."
    ∷ "See you later! Have a great day!" ∷ []

abbrev pub question_words : List String
question_words =
    "what" ∷ "why" ∷ "how" ∷ "when" ∷ "where" ∷ "who" ∷ "which" ∷ "can you" ∷ "could you"
    ∷ "would you" ∷ []

module _ (env : MockEnv) where
  -- An option that is not there reads as `undefined`.
  unfoldable pub random_choice : List String → String
  random_choice options = elim (get_elem? options (env.random (length options))) [
    | none ↦ "undefined"
    | some option ↦ option
  ]

  unfoldable pub generate_question_response : String → String
  generate_question_response question =
      let topic = extract_topic question in
      random_choice (
        around "That's an interesting question about \"" topic
          "\". In demo mode, I provide placeholder responses. When connected to a premium AI provider like OpenAI, I'll be able to give you detailed, accurate answers."
        ∷ around
            "Great question! While I'm running in demo mode, I can acknowledge your query about \""
            topic "\". A premium AI integration would provide comprehensive answers."
        ∷ around "I understand you're asking about \"" topic
            "\". This demo mode has limited capabilities, but with a premium AI provider, I could provide in-depth responses."
        ∷ [])

  unfoldable pub generate_mock_response : String → List SessionMessage → String
  generate_mock_response message history =
      let lower_message = env.lower message in
      if matches_pattern lower_message ("hello" ∷ "hi" ∷ "hey" ∷ "greetings" ∷ [])
      then random_choice greetings
      else if matches_pattern lower_message ("how are you" ∷ "how's it going" ∷ [])
      then random_choice feelings
      else if matches_pattern lower_message ("help" ∷ "assist" ∷ "support" ∷ [])
      then "I'm here to help! You can ask me questions, have a conversation, or request assistance with various topics. What would you like to know?"
      else if matches_pattern lower_message ("what can you do" ∷ "capabilities" ∷ "features" ∷ [])
      then "I'm a conversational AI assistant. I can help you with answering questions, having discussions, providing information, and much more. This is currently a demo mode - when upgraded to a premium provider, I'll have even more capabilities!"
      else if matches_pattern lower_message ("thank" ∷ "thanks" ∷ "appreciate" ∷ [])
      then random_choice welcomes
      else if matches_pattern lower_message ("bye" ∷ "goodbye" ∷ "see you" ∷ [])
      then random_choice goodbyes
      else if matches_pattern lower_message question_words
      then generate_question_response message
      else generate_contextual_response message history

  unfoldable pub generate_completion : List SessionMessage → MockResult
  generate_completion messages =
      let response = generate_mock_response (get_last_user_message messages) messages in
      let prompt_tokens = estimate_tokens messages in
      let completion_tokens =
        estimate_tokens (record { role = assistant; content = response; timestamp = 0 } ∷ []) in
      record {
        content = response;
        finish_reason = "stop";
        usage = record {
          prompt_tokens = prompt_tokens;
          completion_tokens = completion_tokens;
          total_tokens = prompt_tokens + completion_tokens;
        };
      }

abbrev pub part : String → Chunk
part content = record { content = content; done = some false }

-- The words after the first, with a space before each, and the chunk that ends the stream.
unfoldable pub later_parts : List String → List Chunk
later_parts [] = record { content = ""; done = some true } ∷ []
later_parts (w ∷ ws) = part (String.◌++◌ " " w) ∷ later_parts ws

unfoldable pub parts_of : List String → List Chunk
unfolding later_parts
parts_of [] = later_parts []
parts_of (w ∷ ws) = part w ∷ later_parts ws

unfoldable pub generate_stream : MockEnv → List SessionMessage → List Chunk
generate_stream env messages =
    parts_of (split b' ' (generate_mock_response env (get_last_user_message messages) messages))
