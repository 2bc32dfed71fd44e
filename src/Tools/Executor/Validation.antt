-- ===== src/Tools/Executor/Validation.antt =====
-- Which parameters the executor accepts, and what holds of a call that gets as far as its handler.
use talksy.Common.{
  ℕ, ◌<◌, ◌≡◌, refl, Bool, true, not, ◌&&◌, ◌||◌, List, Option, none, some, arith, String, is_some,
}
use talksy.Common.Map
use talksy.Common.Map.{Map}
use talksy.Tools.{
  Value, null, boolean, number, text, array, object, JsonType, array_type, ToolParameterSchema,
  ToolParameters, Tool,
}
use talksy.Tools.Executor.{
  ToolCallRequest, actual_type, is_null, is_type, is_key, lists, includes, check_type,
  validate_type,
}
use talksy.Tools.Executor.Execute.{ToolExecutor, get_active_execution_count, is_small}

-- A value has the type that it is declared with; null has every type but that of arrays.
abbrev pub fits : {N : Type 0} → Option JsonType → Value N → Bool
fits none v = true
fits (some t) v = is_type (actual_type v) t || is_null v && not (is_type t array_type)

module _ {N : Type 0} (same : N → N → Bool) where
  abbrev pub allows : Option (List (Value N)) → Value N → Bool
  allows none v = true
  allows (some allowed) v = includes same allowed v

  check_type-fits :
      (v : Value N) (t : Option JsonType) → is_some (check_type same v t) ≡ not (fits t v)
  check_type-fits v none = refl
  check_type-fits null (some t) = ground arith
  check_type-fits (boolean b) (some t) = ground arith
  check_type-fits (number n) (some t) = ground arith
  check_type-fits (text s) (some t) = ground arith
  check_type-fits (array vs) (some t) = ground arith
  check_type-fits (object vs) (some t) = ground arith

  -- A value is refused if and only if it is not among those listed or has not the declared type, where
  -- null has every type but that of arrays.
  pub validate_type-fits :
      (v : Value N) (schema : ToolParameterSchema N)
      → is_some (validate_type same v schema)
        ≡ not (allows schema.allowed v && fits schema.value_type v)
  unfolding validate_type
  validate_type-fits v schema = ground (arith, check_type-fits v schema.value_type)

  -- What a schema asks of parameters.
  pub record Fits (parameters : Map (Value N)) (schema : ToolParameters N) : Type 0 where
    pub complete :
        (ks : List String) (k : String)
        → schema.required ≡ some ks
        → lists k ks ≡ true
        → is_key k parameters ≡ true
    pub known : (k : String) → Map.has k parameters ≡ true → Map.has k schema.properties ≡ true
    pub typed :
        (k : String) (v : Value N) (property : ToolParameterSchema N)
        → Map.get k parameters ≡ some v
        → Map.get k schema.properties ≡ some property
        → (allows property.allowed v && fits property.value_type v) ≡ true

  -- What has been tested of a call that gets as far as its handler.
  pub record Passed {H : Type 0} (s : ToolExecutor N H) (size : Option ℕ) (session_id : String)
      (request : ToolCallRequest N) (tool : Tool N H) : Type 0 where
    pub room : get_active_execution_count session_id s < s.config.max_concurrent_executions
    pub small : is_small size s.config ≡ true
    pub found : Map.get request.tool_name s.registry.tools ≡ some tool
    pub fitting : Fits request.parameters tool.definition.parameters
