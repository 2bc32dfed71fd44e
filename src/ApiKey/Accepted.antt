-- ===== src/ApiKey/Accepted.antt =====
-- Which keys are let in.
use Prim.Native.String.{[], ◌∷◌}
use talksy.Common.{
  ℕ, ◌≡◌, ◌≢◌, ◌↔◌, ◌⊎◌, inl, inr, refl, sym, ap, ◌∙◌, subst, Bool, true, false, ltb, ◌==◌, ◌&&◌,
  if◌then◌else◌, List, [], ◌∷◌, map, some, arith, String, str_dec, ok, Bool-cases, Option-cases,
  Result-cases, is_some, if_pos, if_neg,
}
use talksy.Common.Map
use talksy.Common.Map.{Map}
use talksy.Common.Split.{split, utf16_length}
use talksy.ApiKey.{
  TextEnv, ApiKeyGuard, Handshake, allowed, set_of, not_empty, extract_api_key, parse_keys, create,
  constant_time_compare, matches_one, validate_api_key, can_activate,
}

-- The text is one of the list.
unfoldable pub Among : String → List String → Type 0
Among k [] = ⊥
Among k (w ∷ ws) = (w ≡ k) ⊎ Among k ws

length-zero : (s : String) → ltb 0 (utf16_length s) ≡ false → s ≡ ""
unfolding utf16_length
length-zero String.[] h = refl
length-zero (String.◌∷◌ c s) h = absurd (ground arith)

long-ne : (s : String) → ltb 0 (utf16_length s) ≡ true → s ≢ ""
unfolding utf16_length
long-ne s h e =
    let no_text : ltb 0 (utf16_length "") ≡ true = subst (λ t. ltb 0 (utf16_length t) ≡ true) e h in
    cc

has-set :
    (j k : String) (m : Map (Unit {0}))
    → Map.has j (Map.set k tt m) ≡ true
    → (k ≡ j) ⊎ (Map.has j m ≡ true)
has-set j k m h = ground (arith, Map.get-set j k tt m)

has-set_of :
    (j : String) (ks : List String) (m : Map (Unit {0}))
    → (Map.has j (set_of ks m) ≡ true) ↔ (Among j ks ⊎ (Map.has j m ≡ true))
unfolding set_of Among
has-set_of j [] m = (λ h. inr h, λ h. ground arith)
has-set_of j (k ∷ ks) m =
    let ih = has-set_of j ks (Map.set k tt m) in
    let e = Map.get-set j k tt m in
    (
      λ h. elim (ih.0 h) [
        | inl a ↦ inl (inr a)
        | inr x ↦ elim (has-set j k m x) [ inl same ↦ inl (inl same) | inr old ↦ inr old ]
      ],
      λ h. ih.1 (elim h [
        | inl a ↦ elim a [ inl same ↦ inr (ground (arith, e)) | inr more ↦ inl more ]
        | inr old ↦ inr (ground (arith, e))
      ]),
    )

Among-not_empty : (k : String) (ks : List String) → Among k (not_empty ks) ↔ ((k ≢ "") × Among k ks)
unfolding not_empty Among
Among-not_empty k [] = (λ h. absurd h, λ h. h.1)
Among-not_empty k (w ∷ ws) =
    let ih = Among-not_empty k ws in
    elim (Bool-cases (ltb 0 (utf16_length w))) [
      | inl long ↦ rw long (
          (
            λ h. elim h [
              | inl same ↦ ((λ e. long-ne w long (same ∙ e)), inl same)
              | inr more ↦ ((ih.0 more).0, inr (ih.0 more).1)
            ],
            λ h. elim h.1 [ inl same ↦ inl same | inr more ↦ inr (ih.1 (h.0, more)) ],
          ))
      | inr short ↦ rw short (
          (
            λ h. ((ih.0 h).0, inr (ih.0 h).1),
            λ h. elim h.1 [
              | inl same ↦ absurd (h.0 (sym same ∙ length-zero w short))
              | inr more ↦ ih.1 (h.0, more)
            ],
          ))
    ]

module _ (env : TextEnv) where
  -- A text is known by its bytes; equal bytes are found to be equal, and others not.
  pub record IsSound : Type 0 where
    pub injective : (a b : String) → env.bytes a ≡ env.bytes b → a ≡ b
    pub reflexive : (x : List ℕ) → env.timing_safe_equal x x ≡ ok true
    pub exact : (x y : List ℕ) → env.timing_safe_equal x y ≡ ok true → x ≡ y

  module _ (sound : IsSound) where
    constant_time_compare-eq : (a b : String) → (constant_time_compare env a b ≡ true) ↔ (a ≡ b)
    unfolding constant_time_compare
    constant_time_compare-eq a b =
        let same : utf16_length a ≡ utf16_length a = refl in
        (
          λ h. sound.injective a b (
              sound.exact (env.bytes a) (env.bytes b)
                (elim (Result-cases (env.timing_safe_equal (env.bytes a) (env.bytes b))) [
                  | inl (x, e) ↦ e ∙ ground arith
                  | inr (m, e) ↦ absurd (ground arith)
                ])),
          λ e.
              subst (λ x. constant_time_compare env a x ≡ true) e
                (let r = sound.reflexive (env.bytes a) in ground arith),
        )

    matches_one-has :
        (key : String) (keys : Map (Unit {0}))
        → (matches_one env key keys ≡ true) ↔ (Map.has key keys ≡ true)
    unfolding matches_one Map.get
    matches_one-has key [] = (λ h. h, λ h. h)
    matches_one-has key ((k, u) ∷ keys) =
        let ih = matches_one-has key keys in
        let compared = constant_time_compare-eq key k in
        elim (Bool-cases (constant_time_compare env key k)) [
          | inl same ↦
              let e = sym (compared.0 same) in
              (λ h. ap is_some (if_pos (str_dec k key) e _ _), λ h. rw same refl)
          | inr other ↦
              let ne : k ≢ key =
                λ e. let h : true ≡ false = sym (compared.1 (sym e)) ∙ other in cc in
              let skipped = if_neg (str_dec k key) ne (some u) (Map.get key keys) in
              (
                λ h. ap is_some skipped ∙ ih.0 (let h' = h in rw other at h'),
                λ h. rw other (ih.1 (sym (ap is_some skipped) ∙ h)),
              )
        ]

    validate_api_key-matches :
        (key : String) (g : ApiKeyGuard)
        → (g.is_dev && g.bypass_in_dev) ≡ false
        → validate_api_key env key g ≡ matches_one env key g.valid_api_keys
    unfolding validate_api_key matches_one
    validate_api_key-matches key g off = sized g.valid_api_keys
      where
        sized :
            (keys : Map (Unit {0}))
            → (if Map.size keys == 0 then g.is_dev && g.bypass_in_dev else matches_one env key keys)
              ≡ matches_one env key keys
        sized [] = off ∙ refl
        sized (e ∷ keys) = ground arith

    validate_api_key-Among :
        (key text : String) (auth bypass dev : Bool)
        → (dev && bypass) ≡ false
        → (validate_api_key env key (create env auth bypass dev text) ≡ true)
          ↔ ((key ≢ "") × Among key (map env.trim (split b',' text)))
    unfolding create parse_keys Map.get
    validate_api_key-Among key text auth bypass dev off =
        let g = create env auth bypass dev text in
        let listed = map env.trim (split b',' text) in
        let plain = validate_api_key-matches key g off in
        let found = matches_one-has key g.valid_api_keys in
        let member = has-set_of key (not_empty listed) [] in
        let full = Among-not_empty key listed in
        (
          λ h. elim (member.0 (found.0 (sym plain ∙ h))) [
            | inl a ↦ full.0 a
            | inr none_there ↦ absurd (let x : false ≡ true = none_there in ground arith)
          ],
          λ h. plain ∙ found.1 (member.1 (inl (full.1 h))),
        )

extract_api_key-ne : (h : Handshake) (key : String) → extract_api_key h ≡ some key → key ≢ ""
unfolding extract_api_key
extract_api_key-ne h key e = ground arith

-- Where authentication is enabled and not bypassed, a client is let in if and only if it sends a key, first
-- in the header, else in the query, else in the handshake, and that key is one of the list with commas, each
-- one trimmed. Node tells texts apart by their bytes.
pub can_activate-allowed :
    (env : TextEnv) (bypass dev : Bool) (text : String) (h : Handshake)
    → IsSound env
    → (dev && bypass) ≡ false
    → (can_activate env h (create env true bypass dev text) ≡ allowed) ↔ (
        (key : String) × (extract_api_key h ≡ some key)
        × Among key (map env.trim (split b',' text)))
unfolding can_activate create
can_activate-allowed env bypass dev text h sound off = elim (Option-cases (extract_api_key h)) [
  | inl gone ↦ (λ a. absurd (ground arith), λ (k, e, m). absurd (ground arith))
  | inr (key, sent) ↦
      let valid = validate_api_key-Among env sound key text true bypass dev off in
      (
        λ a. (key, sent, (valid.0 (ground arith)).1),
        λ (k, e, m).
            let same : k ≡ key = ground arith in
            let yes_valid = valid.1 (
              extract_api_key-ne h key sent,
              subst (λ x. Among x (map env.trim (split b',' text))) same m,
            ) in
            ground arith,
      )
]
