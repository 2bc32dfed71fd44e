-- ===== src/Ai/Mock/Words.antt =====
-- The stream of the mock provider against its completion.
use Prim.Native.Char.{Char, code}
use Prim.Native.String
use Prim.Native.String.{[], ◌∷◌}
use text.Mathlib.TextEquality.{Char-path}
use text.Mathlib.TextLemmas as Text
use talksy.Common.{
  ◌≡◌, refl, sym, ap, ap₂, ◌∙◌, true, ◌==◌, List, [], ◌∷◌, map, arith, String, join, Bool-cases,
  inl, inr,
}
use talksy.Common.Split.{split, split-cons}
use talksy.Session.{SessionMessage}
use talksy.StreamBatcher.{Chunk, is_done}
use talksy.StreamBatcher.Groups.{only_last, only_last-cons}
use talksy.Ai.Mock.{
  MockEnv, generate_stream, generate_completion, generate_mock_response, parts_of, later_parts,
  get_last_user_message,
}

abbrev pub texts : List Chunk → List String
texts = map (λ (c : Chunk). c.content)

texts-later_parts :
    (w : String) (ws : List String)
    → join (texts (later_parts (w ∷ ws))) ≡ String.◌++◌ " " (join (texts (parts_of (w ∷ ws))))
unfolding later_parts parts_of
texts-later_parts w ws = Text.append_assoc " " w (join (texts (later_parts ws)))

texts-parts_of_cut :
    (c : Char) (s w : String) (ws : List String)
    → code c == b' ' ≡ true
    → join (texts (parts_of (w ∷ ws))) ≡ s
    → join (texts (parts_of ("" ∷ w ∷ ws))) ≡ c ∷ s
unfolding parts_of
texts-parts_of_cut c s w ws cut e =
    Text.nil-append (join (texts (later_parts (w ∷ ws))))
    ∙ texts-later_parts w ws
    ∙ ap (λ t. String.◌++◌ " " t) e
    ∙ Text.cons-append _ "" s
    ∙ ap₂ ◌∷◌ (Char-path _ c (ground arith)) (Text.nil-append s)

texts-parts_of_kept :
    (c : Char) (s w : String) (ws : List String)
    → join (texts (parts_of (w ∷ ws))) ≡ s
    → join (texts (parts_of ((c ∷ w) ∷ ws))) ≡ c ∷ s
unfolding parts_of
texts-parts_of_kept c s w ws e =
    Text.cons-append c w (join (texts (later_parts ws))) ∙ ap (λ t. c ∷ t) e

texts-parts_of : (s : String) → join (texts (parts_of (split b' ' s))) ≡ s
unfolding split parts_of later_parts
texts-parts_of [] = refl
texts-parts_of (c ∷ s) =
    let (w, ws, e) = split-cons b' ' s in
    let ih : join (texts (parts_of (w ∷ ws))) ≡ s =
      ap (λ pieces. join (texts (parts_of pieces))) (sym e) ∙ texts-parts_of s in
    elim (Bool-cases (code c == b' ')) [
      | inl cut ↦ rw (cut, e) (texts-parts_of_cut c s w ws cut ih)
      | inr kept ↦ rw (kept, e) (texts-parts_of_kept c s w ws ih)
    ]

only_last-later_parts : (ws : List String) → only_last (map is_done (later_parts ws)) ≡ true
unfolding later_parts
only_last-later_parts [] = refl
only_last-later_parts (w ∷ ws) =
    only_last-cons (map is_done (later_parts ws)) (only_last-later_parts ws)

only_last-parts_of : (ws : List String) → only_last (map is_done (parts_of ws)) ≡ true
unfolding parts_of
only_last-parts_of [] = only_last-later_parts []
only_last-parts_of (w ∷ ws) =
    only_last-cons (map is_done (later_parts ws)) (only_last-later_parts ws)

-- The chunks that the mock provider streams are the text of the completion that it gives for the same
-- messages and the same random choice; the last chunk is marked as done, and no other.
pub generate_stream-text :
    (env : MockEnv) (messages : List SessionMessage)
    → (join (texts (generate_stream env messages)) ≡ (generate_completion env messages).content)
      × (only_last (map is_done (generate_stream env messages)) ≡ true)
unfolding generate_stream generate_completion
generate_stream-text env messages =
    let response = generate_mock_response env (get_last_user_message messages) messages in
    (texts-parts_of response, only_last-parts_of (split b' ' response))
