-- ===== src/ApiKey.antt =====
-- src/common/guards/api-key.guard.ts: the class `ApiKeyGuard`. What it reads of the configuration and of the
-- handshake are arguments; a header, a parameter or a token that is missing or no text is none. `trim` and
-- Node's buffers, with `timingSafeEqual`, are parameters.
pub mod Accepted
mod Tests
use talksy.Common.{
  ℕ, Bool, true, false, not, ltb, ◌==◌, ◌&&◌, if◌then◌else◌, List, [], ◌∷◌, map, Option, none, some,
  String, str_dec, ite, Result, ok, throw,
}
use talksy.Common.Map
use talksy.Common.Map.{Map}
use talksy.Common.Split.{split, utf16_length}

-- The functions of the language and of Node.
pub record TextEnv : Type 0 where
  pub trim : String → String
  -- `Buffer.from`
  pub bytes : String → List ℕ
  -- It throws where the lengths differ.
  pub timing_safe_equal : List ℕ → List ℕ → Result Bool

pub record ApiKeyGuard : Type 0 where
  pub valid_api_keys : Map (Unit {0})
  pub auth_enabled : Bool
  pub bypass_in_dev : Bool
  pub is_dev : Bool

pub record Handshake : Type 0 where
  pub header_key : Option String
  pub query_key : Option String
  pub auth_token : Option String

pub data Verdict : Type 0 where
  allowed missing_key invalid_key : Verdict

-- `new Set(keys)`
unfoldable pub set_of : List String → Map (Unit {0}) → Map (Unit {0})
set_of [] keys = keys
set_of (k ∷ ks) keys = set_of ks (Map.set k tt keys)

unfoldable pub not_empty : List String → List String
not_empty [] = []
not_empty (k ∷ ks) = let rest = not_empty ks in if ltb 0 (utf16_length k) then k ∷ rest else rest

-- The first that is there and not empty.
abbrev pub or_else : Option String → Option String → Option String
or_else none next = next
or_else (some key) next = ite (str_dec key "") next (some key)

unfoldable pub extract_api_key : Handshake → Option String
extract_api_key h = or_else h.header_key (or_else h.query_key (or_else h.auth_token none))

module _ (env : TextEnv) where
  -- The keys of a list with commas.
  unfoldable pub parse_keys : String → Map (Unit {0})
  parse_keys text = set_of (not_empty (map env.trim (split b',' text))) []

  unfoldable pub create : Bool → Bool → Bool → String → ApiKeyGuard
  create auth_enabled bypass_in_dev is_dev api_keys = record {
    valid_api_keys = parse_keys api_keys;
    auth_enabled = auth_enabled;
    bypass_in_dev = bypass_in_dev;
    is_dev = is_dev;
  }

  unfoldable pub constant_time_compare : String → String → Bool
  constant_time_compare a b =
      if not (utf16_length a == utf16_length b)
      then false
      else elim (env.timing_safe_equal (env.bytes a) (env.bytes b)) [
        | ok same ↦ same
        | throw message ↦ false
      ]

  -- The loop over the keys.
  unfoldable pub matches_one : String → Map (Unit {0}) → Bool
  matches_one provided [] = false
  matches_one provided ((k, u) ∷ keys) =
      let rest = matches_one provided keys in
      if constant_time_compare provided k then true else rest

  unfoldable pub validate_api_key : String → ApiKeyGuard → Bool
  validate_api_key provided g =
      if Map.size g.valid_api_keys == 0
      then g.is_dev && g.bypass_in_dev
      else matches_one provided g.valid_api_keys

  unfoldable pub can_activate : Handshake → ApiKeyGuard → Verdict
  can_activate h g =
      let checked : Verdict = elim (extract_api_key h) [
        | none ↦ missing_key
        | some key ↦ if validate_api_key key g then allowed else invalid_key
      ] in
      if not g.auth_enabled
      then allowed
      else if g.is_dev && g.bypass_in_dev
      then allowed
      else checked
