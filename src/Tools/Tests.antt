-- ===== src/Tools/Tests.antt =====
-- The tools at concrete inputs.
use talksy.Common.{
  ℕ, ◌≡◌, ◌≤◌, ◌==◌, refl, Bool, true, false, List, [], ◌∷◌, none, some, length, is_some,
}
use talksy.Common.Map
use talksy.Common.Map.{Map}
use talksy.Tools.{
  ToolCategory, utility, data_tools, null, number, number_type, array_type, string_type,
  ToolParameterSchema, ToolDefinition, Tool,
}
use talksy.Tools.Registry.{ToolRegistry, create}
use talksy.Tools.Registry.Index.{Op, register, apply_all, IsIndexed, apply_all-IsIndexed}
use talksy.Tools.Executor.{
  ToolExecutorConfig, ToolCallRequest, validate_type, validate_parameters, is_key, find_missing,
  find_bad,
}
use talksy.Tools.Executor.Execute.{ToolExecutor, begin, tracked, get_active_execution_count}
use talksy.Tools.Executor.Tracking.{is_running, begin-duplicate}
use talksy.Tools.Executor.Flight.{World, new_world, start, starts, Reach, here, next, Reach-count}

abbrev equal : ℕ → ℕ → Bool
equal m n = m == n

abbrev count_schema : ToolParameterSchema ℕ
count_schema = record { value_type = some number_type; allowed = some (number 1 ∷ number 2 ∷ []) }

abbrev definition : ToolCategory → ToolDefinition ℕ
definition c = record {
  name = "dice";
  description = "rolls";
  parameters = record { properties = ("count", count_schema) ∷ []; required = some ("count" ∷ []) };
  category = some c;
  version = none;
  deprecated = none;
  timeout = none;
}

-- A tool that moves from one category to another.
abbrev ops : List (Op ℕ ℕ)
ops = register (definition utility) 0 false ∷ register (definition data_tools) 1 true ∷ []

apply_all-IsIndexed_example : IsIndexed (apply_all ops create)
apply_all-IsIndexed_example = apply_all-IsIndexed ops

abbrev list_schema : ToolParameterSchema ℕ
list_schema = record { value_type = some array_type; allowed = none }

abbrev text_schema : ToolParameterSchema ℕ
text_schema = record { value_type = some string_type; allowed = none }

-- Null is let through as a string, not as an array.
null-array :
    (is_some (validate_type equal null list_schema) ≡ true)
    × (is_some (validate_type equal null text_schema) ≡ false)
unfolding validate_type
null-array = (refl, refl)

abbrev dice : Tool ℕ ℕ
dice = record { definition = definition utility; handler = 0 }

abbrev registry : ToolRegistry ℕ ℕ
registry = record { tools = ("dice", dice) ∷ []; categories = λ c. [] }

abbrev config : ToolExecutorConfig
config = record {
  default_timeout_ms = 30000;
  max_concurrent_executions = 2;
  max_parameter_size = 1000;
}

abbrev executor : ToolExecutor ℕ ℕ
executor = record { registry = registry; config = config; active_executions = [] }

abbrev request : ToolCallRequest ℕ
request = record { tool_name = "dice"; parameters = ("count", number 2) ∷ []; call_id = none }

abbrev started : World ℕ ℕ
started = start equal (some 11) "id" "s" request (new_world registry config)

started-Reach : Reach equal (new_world registry config) started
unfolding new_world
started-Reach = next here (starts (some 11) "id" "s" request refl)

Reach-count_example :
    (get_active_execution_count "s" started.executor ≡ length (started.in_flight "s"))
    × (length (started.in_flight "s") ≤ 2)
Reach-count_example = Reach-count equal registry config started-Reach "s"

-- A session with the call "id" in flight.
abbrev busy : ToolExecutor ℕ ℕ
busy = record {
  registry = registry;
  config = config;
  active_executions = ("s", ("id", tt) ∷ []) ∷ [];
}

busy-running : is_running (begin equal (some 11) "id" "s" request busy).1 ≡ true
unfolding begin Map.get validate_parameters find_missing is_key find_bad validate_type
busy-running = refl

busy-twice : Map.has "id" (tracked "s" busy) ≡ true
unfolding Map.get
busy-twice = refl

begin-duplicate_example :
    get_active_execution_count "s" (begin equal (some 11) "id" "s" request busy).0
    ≡ get_active_execution_count "s" busy
begin-duplicate_example =
    begin-duplicate equal busy (some 11) "id" "s" request busy-running busy-twice
