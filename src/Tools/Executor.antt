-- ===== src/Tools/Executor.antt =====
-- src/tools/services/tool-executor.service.ts: the class `ToolExecutorService`. `execute` is two steps, up to
-- the handler and from its end on, between which other calls run; `begin` is the first, `finish` the
-- second. The texts of messages, the execution times, the events and the log are left out. What
-- `JSON.stringify(parameters).length` gives is an argument, none where it throws; so is the fresh id.
pub mod Execute
pub mod Validation
pub mod Tracking
pub mod Flight
use talksy.Common.{
  ℕ, Bool, true, false, not, ltb, leb, ◌==◌, ◌&&◌, ◌||◌, if◌then◌else◌, List, [], ◌∷◌, Option, none,
  some, String, str_dec, is_some, ite,
}
use talksy.Common.Map
use talksy.Common.Map.{Map}
use talksy.Tools.{
  Value, null, boolean, number, text, array, object, JsonType, string_type, number_type,
  boolean_type, object_type, array_type, ToolParameterSchema, ToolParameters, Tool,
}
use talksy.Tools.Registry.{ToolRegistry, Names, get_tool, number_or}

pub data ToolErrorCode : Type 0 where
  invalid_parameters execution_failed timed_out not_found unauthorized rate_limited internal_error :
      ToolErrorCode

-- What is wrong with a value.
pub data Mismatch (N : Type 0) : Type 0 where
  not_allowed : (allowed : List (Value N)) (actual : Value N) → Mismatch N
  expected : (type : JsonType) (actual : JsonType) → Mismatch N

pub data Details (N : Type 0) : Type 0 where
  missing_parameter : String → Details N
  unknown_parameter : String → Details N
  bad_parameter : String → Mismatch N → Details N

pub record ToolExecutorConfig : Type 0 where
  pub default_timeout_ms : ℕ
  pub max_concurrent_executions : ℕ
  pub max_parameter_size : ℕ

pub record ToolCallRequest (N : Type 0) : Type 0 where
  pub tool_name : String
  pub parameters : Map (Value N)
  pub call_id : Option String

abbrev pub type_index : JsonType → ℕ
type_index string_type = 0
type_index number_type = 1
type_index boolean_type = 2
type_index object_type = 3
type_index array_type = 4

-- `Array.isArray(value) ? 'array' : typeof value`, which for null is 'object'.
abbrev pub actual_type : {N : Type 0} → Value N → JsonType
actual_type null = object_type
actual_type (boolean b) = boolean_type
actual_type (number n) = number_type
actual_type (text s) = string_type
actual_type (array vs) = array_type
actual_type (object vs) = object_type

abbrev pub is_null : {N : Type 0} → Value N → Bool
is_null null = true
is_null (boolean b) = false
is_null (number n) = false
is_null (text s) = false
is_null (array vs) = false
is_null (object vs) = false

abbrev pub is_type : JsonType → JsonType → Bool
is_type t u = type_index t == type_index u

abbrev pub same_bool : Bool → Bool → Bool
same_bool true b = b
same_bool false b = not b

-- The names that every object inherits, which `in` finds too.
abbrev pub inherited : List String
inherited =
    "constructor" ∷ "__defineGetter__" ∷ "__defineSetter__" ∷ "hasOwnProperty" ∷ "__lookupGetter__"
    ∷ "__lookupSetter__" ∷ "isPrototypeOf" ∷ "propertyIsEnumerable" ∷ "toString" ∷ "valueOf"
    ∷ "__proto__" ∷ "toLocaleString" ∷ []

abbrev pub lists : String → List String → Bool
lists k [] = false
lists k (j ∷ js) = ite (str_dec j k) true (lists k js)

-- `k in parameters`
unfoldable pub is_key : {V : Type 0} → String → Map V → Bool
is_key k m = Map.has k m || lists k inherited

module _ {N : Type 0} (same : N → N → Bool) where
  -- `===` on what an enumeration lists: two arrays or objects are never the same one.
  abbrev pub same_value : Value N → Value N → Bool
  same_value null w = is_null w
  same_value (boolean b) w = elim w [
    | boolean c ↦ same_bool b c
    | null ↦ false
    | number n ↦ false
    | text s ↦ false
    | array vs ↦ false
    | object vs ↦ false
  ]
  same_value (number n) w = elim w [
    | number m ↦ same n m
    | null ↦ false
    | boolean b ↦ false
    | text s ↦ false
    | array vs ↦ false
    | object vs ↦ false
  ]
  same_value (text s) w = elim w [
    | text t ↦ ite (str_dec s t) true false
    | null ↦ false
    | boolean b ↦ false
    | number n ↦ false
    | array vs ↦ false
    | object vs ↦ false
  ]
  same_value (array vs) w = false
  same_value (object vs) w = false

  abbrev pub includes : List (Value N) → Value N → Bool
  includes [] v = false
  includes (w ∷ ws) v = same_value w v || includes ws v

  abbrev pub check_enum : Value N → Option (List (Value N)) → Option (Mismatch N)
  check_enum v none = none
  check_enum v (some allowed) = if includes allowed v then none else some (not_allowed allowed v)

  abbrev pub check_type : Value N → Option JsonType → Option (Mismatch N)
  check_type v none = none
  check_type v (some t) =
      let actual = actual_type v in
      if is_type t array_type && not (is_type actual array_type)
      then some (expected array_type actual)
      else if not (is_type t array_type)
          && not (is_type actual t)
          && not (is_type t number_type && is_type actual number_type)
      then (if is_null v then none else some (expected t actual))
      else none

  unfoldable pub validate_type : Value N → ToolParameterSchema N → Option (Mismatch N)
  validate_type v schema = elim (check_enum v schema.allowed) [
    | some m ↦ some m
    | none ↦ check_type v schema.value_type
  ]

  unfoldable pub find_missing : List String → Map (Value N) → Option (Details N)
  find_missing [] parameters = none
  find_missing (k ∷ ks) parameters =
      if is_key k parameters then find_missing ks parameters else some (missing_parameter k)

  abbrev pub find_unknown : Map (Value N) → Map (ToolParameterSchema N) → Option (Details N)
  find_unknown [] properties = none
  find_unknown ((k, v) ∷ m) properties =
      if Map.has k properties then find_unknown m properties else some (unknown_parameter k)

  unfoldable pub find_bad : Map (Value N) → Map (ToolParameterSchema N) → Option (Details N)
  find_bad [] properties = none
  find_bad ((k, v) ∷ m) properties =
      let rest = find_bad m properties in
      elim (Map.get k properties) [
        | none ↦ rest
        | some schema ↦ elim (validate_type v schema) [
          | none ↦ rest
          | some bad ↦ some (bad_parameter k bad)
        ]
      ]

  abbrev pub or_next : Option (Details N) → Option (Details N) → Option (Details N)
  or_next none next = next
  or_next (some d) next = some d

  -- The first thing that is wrong, in the order of the three loops.
  unfoldable pub validate_parameters : Map (Value N) → ToolParameters N → Option (Details N)
  validate_parameters parameters schema =
      or_next (elim schema.required [ none ↦ none | some ks ↦ find_missing ks parameters ])
        (or_next (find_unknown parameters schema.properties)
          (find_bad parameters schema.properties))
