-- ===== src/Auth/Guard/Tokens.antt =====
-- Code: src/auth/auth.guard.ts, `extractTokenFromHeader` and `extractTokenFromSocket`: which token is sent.
use Prim.Native.Char.{Char, code}
use Prim.Native.String.{◌++◌, [], ◌∷◌}
use text.Mathlib.TextEquality.{Char-path}
use text.Mathlib.TextLemmas.{nil-append, cons-append}
use talksy.Common.{
  ◌≡◌, ◌≢◌, ◌⊎◌, ◌↔◌, refl, sym, subst, ap, ap₂, ◌∙◌, true, ◌==◌, Option, none, some, List, [], ◌∷◌,
  arith, String, str_dec, if_pos, if_neg, inl, inr, Option-cases,
}
use talksy.Common.Split.{split}
use talksy.Common.Split.Pieces.{lacks, whole, cut, split-First, split-lacks, split-append}
use talksy.Auth.Guard.{Context, http, ws, other, given, bearer_of, bearer_token, first_of, token_of}

-- The header is the word Bearer, a space and a token that is not empty and has no space; after another
-- space, anything may follow.
pub record IsBearer (header token : String) : Type 0 where
  pub written : token ≢ ""
  pub one_word : lacks b' ' token ≡ true
  pub spelled :
      (header ≡ "Bearer" ++ " " ++ token)
      ⊎ ((rest : String) × (header ≡ "Bearer" ++ " " ++ token ++ " " ++ rest))

-- There is no such header.
abbrev pub NoBearer : Option String → Type 0
NoBearer authorization =
    (header token : String) → authorization ≡ some header → ¬ IsBearer header token

abbrev pub HasBearer : Option String → String → Type 0
HasBearer authorization token =
    (header : String) × (authorization ≡ some header) × IsBearer header token

-- A text that is missing or empty.
abbrev pub Missing : Option String → Type 0
Missing text = (text ≡ none) ⊎ (text ≡ some "")

-- The token that is sent: with a request the one of its header; with a socket the one of `handshake.auth`,
-- or else that of the header, or else that of the query.
pub data Sends : Context → String → Type 0 where
  by_header :
      (authorization : Option String) (token : String)
      → HasBearer authorization token
      → Sends (http authorization) token
  by_auth :
      (authorization query_token : Option String) (token : String)
      → token ≢ ""
      → Sends (ws (some token) authorization query_token) token
  by_socket_header :
      (auth_token authorization query_token : Option String) (token : String)
      → Missing auth_token
      → HasBearer authorization token
      → Sends (ws auth_token authorization query_token) token
  by_query :
      (auth_token authorization : Option String) (token : String)
      → Missing auth_token
      → NoBearer authorization
      → token ≢ ""
      → Sends (ws auth_token authorization (some token)) token

space : (c : Char) (s : String) → code c == b' ' ≡ true → " " ++ s ≡ c ∷ s
space c s blank = cons-append " " "" s ∙ ap₂ ◌∷◌ (Char-path " " c (ground arith)) (nil-append s)

split_space :
    (w rest : String) → lacks b' ' w ≡ true → split b' ' (w ++ " " ++ rest) ≡ w ∷ split b' ' rest
split_space w rest h =
    ap (λ t. split b' ' (w ++ t)) (space " " rest refl) ∙ split-append b' ' w " " rest h refl

given-some :
    (text token : String) → (given (some text) ≡ some token) ↔ ((token ≢ "") × (text ≡ token))
given-some text token = elim (str_dec text "") [
  | yes p ↦ (λ h. absurd (ground arith), λ (written, same). absurd (written (sym same ∙ p)))
  | no p ↦ (
    λ h. let same : text ≡ token = ground arith in ((λ e. p (same ∙ e)), same),
    λ (written, same). if_neg (str_dec text "") p _ _ ∙ ap some same,
  )
]

bearer_token-some : (header : String) → bearer_token (some header) ≡ bearer_of (split b' ' header)
unfolding bearer_token split str_dec
bearer_token-some header = elim (str_dec header "") [
  | yes p ↦ subst (λ h. bearer_token (some h) ≡ bearer_of (split b' ' h)) (sym p) refl
  | no p ↦ rw (bearer_token, if_neg (str_dec header "") p none (some header)) refl
]

-- The pieces of a header with a token.
pieces-IsBearer :
    (header type token : String) (rest : List String)
    → split b' ' header ≡ type ∷ token ∷ rest
    → type ≡ "Bearer"
    → token ≢ ""
    → IsBearer header token
pieces-IsBearer header type token rest e named written =
    let (no_space, first) = split-First b' ' header type (token ∷ rest) e in
    elim first [
      | whole same none_left ↦ absurd (ground arith)
      | cut c later here same f ↦
          let head : header ≡ "Bearer" ++ " " ++ later =
            same ∙ ap₂ ◌++◌ named (sym (space c later here)) in
          let (one_word, second) = split-First b' ' later token rest f in
          record {
            written = written;
            one_word = one_word;
            spelled = elim second [
              | whole same' none_left ↦ inl (head ∙ ap (λ t. "Bearer" ++ " " ++ t) same')
              | cut d rest' here' same' g ↦ inr (
                rest',
                head
                    ∙ ap (λ t. "Bearer" ++ " " ++ t)
                        (same' ∙ ap (λ t. token ++ t) (sym (space d rest' here'))),
              )
            ];
          }
    ]

bearer_of-pieces :
    (header token : String) (pieces : List String)
    → split b' ' header ≡ pieces
    → bearer_of pieces ≡ some token
    → IsBearer header token
bearer_of-pieces header token [] e h = absurd (ground arith)
bearer_of-pieces header token (w ∷ []) e h = absurd (ground arith)
bearer_of-pieces header token (type ∷ v ∷ rest) e h = elim (str_dec type "Bearer") [
  | yes named ↦
      let (written, same) =
        (given-some v token).0 (sym (if_pos (str_dec type "Bearer") named _ _) ∙ h) in
      pieces-IsBearer header type token rest (e ∙ ap (λ x. type ∷ x ∷ rest) same) named written
  | no unnamed ↦
      let none_there : none ≡ some token = sym (if_neg (str_dec type "Bearer") unnamed _ _) ∙ h in
      absurd (ground arith)
]

pieces_of :
    (header token : String)
    → IsBearer header token
    → (rest : List String) × (split b' ' header ≡ "Bearer" ∷ token ∷ rest)
pieces_of header token b = elim b.spelled [
  | inl e ↦ (
    [],
    ap (split b' ') e
        ∙ split_space "Bearer" token refl
        ∙ ap (λ ws. "Bearer" ∷ ws) (split-lacks b' ' token b.one_word),
  )
  | inr (rest, e) ↦ (
    split b' ' rest,
    ap (split b' ') e
        ∙ split_space "Bearer" (token ++ " " ++ rest) refl
        ∙ ap (λ ws. "Bearer" ∷ ws) (split_space token rest b.one_word),
  )
]

bearer_token-IsBearer :
    (header token : String) → (bearer_token (some header) ≡ some token) ↔ IsBearer header token
unfolding str_dec
bearer_token-IsBearer header token = (
  λ h. bearer_of-pieces header token (split b' ' header) refl (sym (bearer_token-some header) ∙ h),
  λ b.
      let (rest, e) = pieces_of header token b in
      bearer_token-some header ∙ ap bearer_of e ∙ (given-some token token).1 (b.written, refl),
)

bearer_token-HasBearer :
    (authorization : Option String) (token : String)
    → (bearer_token authorization ≡ some token) ↔ HasBearer authorization token
unfolding bearer_token
bearer_token-HasBearer none token =
    ((λ h. absurd (ground arith)), (λ (header, e, b). absurd (ground arith)))
bearer_token-HasBearer (some header) token = (
  λ h. (header, refl, (bearer_token-IsBearer header token).0 h),
  λ (header', e, b). ap bearer_token e ∙ (bearer_token-IsBearer header' token).1 b,
)

bearer_token-NoBearer :
    (authorization : Option String) → (bearer_token authorization ≡ none) ↔ NoBearer authorization
bearer_token-NoBearer authorization = (
  λ h header token e b.
      let there = (bearer_token-HasBearer authorization token).1 (header, e, b) in
      absurd (ground arith),
  λ n. elim (Option-cases (bearer_token authorization)) [
    | inl gone ↦ gone
    | inr (token, found) ↦
        let (header, e, b) = (bearer_token-HasBearer authorization token).0 found in
        absurd (n header token e b)
  ],
)

given-Missing : (text : Option String) → (given text ≡ none) ↔ Missing text
given-Missing none = ((λ h. inl refl), (λ m. refl))
given-Missing (some text) = elim (str_dec text "") [
  | yes p ↦ ((λ h. inr (ap some p)), (λ m. if_pos (str_dec text "") p _ _))
  | no p ↦ (
    λ h. absurd (ground arith),
    λ m. elim m [ inl e ↦ absurd (ground arith) | inr e ↦ absurd (p (ground arith)) ],
  )
]

by_socket :
    (auth_token authorization query_token : Option String) (token : String)
    → Missing auth_token
    → first_of (bearer_token authorization) (given query_token) ≡ some token
    → Sends (ws auth_token authorization query_token) token
by_socket auth_token authorization query_token token m h =
    elim (Option-cases (bearer_token authorization)) [
      | inr (t, found) ↦
          let same : t ≡ token = ground arith in
          by_socket_header auth_token authorization query_token token m
            ((bearer_token-HasBearer authorization token).0 (found ∙ ap some same))
      | inl gone ↦
          let asked : given query_token ≡ some token = sym (rw gone refl) ∙ h in
          elim (Option-cases query_token) [
            | inl nothing ↦ absurd (ground arith)
            | inr (q, there) ↦
                let (written, same) = (given-some q token).0 (ap given (sym there) ∙ asked) in
                subst (λ x. Sends (ws auth_token authorization x) token)
                  (sym (there ∙ ap some same))
                  (by_query auth_token authorization token m
                    ((bearer_token-NoBearer authorization).0 gone) written)
          ]
    ]

Sends-token_of :
    (context : Context) (token : String) → token_of context ≡ some token → Sends context token
unfolding token_of
Sends-token_of (http authorization) token h =
    by_header authorization token ((bearer_token-HasBearer authorization token).0 h)
Sends-token_of (ws auth_token authorization query_token) token h =
    elim (Option-cases (given auth_token)) [
      | inl gone ↦
          by_socket auth_token authorization query_token token ((given-Missing auth_token).0 gone)
            (sym (rw gone refl) ∙ h)
      | inr (t, found) ↦ elim (Option-cases auth_token) [
        | inl nothing ↦ absurd (ground arith)
        | inr (a, there) ↦
            let here : given auth_token ≡ some token = ground arith in
            let (written, same) = (given-some a token).0 (ap given (sym there) ∙ here) in
            subst (λ x. Sends (ws x authorization query_token) token) (sym (there ∙ ap some same))
              (by_auth authorization query_token token written)
      ]
    ]
Sends-token_of other token h = absurd (ground arith)

token_of-by_Sends :
    (context : Context) (token : String) → Sends context token → token_of context ≡ some token
unfolding token_of
token_of-by_Sends _ _ (by_header authorization token b) =
    (bearer_token-HasBearer authorization token).1 b
token_of-by_Sends _ _ (by_auth authorization query_token token written) =
    ap (λ t. first_of t (first_of (bearer_token authorization) (given query_token)))
      ((given-some token token).1 (written, refl))
token_of-by_Sends _ _ (by_socket_header auth_token authorization query_token token m b) =
    ap₂ (λ a t. first_of a (first_of t (given query_token))) ((given-Missing auth_token).1 m)
      ((bearer_token-HasBearer authorization token).1 b)
token_of-by_Sends _ _ (by_query auth_token authorization token m n written) =
    ap₂ (λ a t. first_of a (first_of t (given (some token)))) ((given-Missing auth_token).1 m)
      ((bearer_token-NoBearer authorization).1 n)
    ∙ (given-some token token).1 (written, refl)

pub token_of-Sends :
    (context : Context) (token : String) → (token_of context ≡ some token) ↔ Sends context token
token_of-Sends context token = (Sends-token_of context token, token_of-by_Sends context token)
