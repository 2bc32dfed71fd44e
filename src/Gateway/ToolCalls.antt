-- ===== src/Gateway/ToolCalls.antt =====
-- src/gateway/assistant.gateway.ts: the handlers for tools. `tool_call_begin` is `handleToolCall` up to the
-- handler of the tool, `tool_call_end` from its end on. The blocks that catch errors are left out: neither
-- the registry nor the executor throws.
use talksy.Common.{
  ℕ, Bool, if◌then◌else◌, List, [], map, Option, none, some, String, str_dec, ite, length, ◌⊎◌, inr,
}
use Prim.Native.String
use talksy.Common.Map.{Map}
use talksy.Response
use talksy.Response.{ws_success}
use talksy.Session.{SessionService}
use talksy.Session.Methods.{has_session}
use talksy.Tools.{
  ToolCategory, utility, data_tools, communication, system_tools, custom, Value, Tool,
  ToolDefinition,
}
use talksy.Tools.Registry.{
  ToolRegistry, is_true, get_tool_definition, get_tools_by_category, get_all_tool_definitions,
}
use talksy.Tools.Executor.{ToolCallRequest}
use talksy.Tools.Executor.Execute.{ToolExecutor, Failure, Ended, refused, running, begin, finish}
use talksy.Gateway.{Event, emit, emit_error, tools_data, result_data, definition_data}

-- What a client sends: a field that is not there, or no text, is none.
pub record ListToolsData : Type 0 where
  pub category : Option String
  pub include_deprecated : Option Bool

pub record ToolCallData (N : Type 0) : Type 0 where
  pub tool_name : Option String
  pub parameters : Option (Map (Value N))
  pub call_id : Option String

abbrev pub parse_category : String → Option ToolCategory
parse_category text = ite (str_dec text "utility") (some utility) (
    ite (str_dec text "data") (some data_tools) (
      ite (str_dec text "communication") (some communication) (
        ite (str_dec text "system") (some system_tools)
          (ite (str_dec text "custom") (some custom) none))))

-- The text, if it is there and not empty.
abbrev pub given : Option String → Option String
given none = none
given (some text) = ite (str_dec text "") none (some text)

abbrev pub parameters_or : {N : Type 0} → Option (Map (Value N)) → Map (Value N)
parameters_or none = []
parameters_or (some parameters) = parameters

-- How a call has gone on up to the tool: it has been answered, or the tool runs.
pub data Called (N H R : Type 0) : Type 0 where
  answered : Event N R → Called N H R
  called :
      (request : ToolCallRequest N) (call_id : String) (tool : Tool N H) (timeout_ms : ℕ)
      → Called N H R

-- `new ToolDefinitionDto`: the time limit is not passed on.
abbrev pub to_dto : {N : Type 0} → ToolDefinition N → ToolDefinition N
to_dto definition = record definition { timeout = none }

unfoldable pub get_tool_definition_dtos :
    {N H : Type 0} → Bool → ToolRegistry N H → List (ToolDefinition N)
get_tool_definition_dtos include_deprecated r =
    map to_dto (get_all_tool_definitions include_deprecated r)

abbrev pub tools_event : {N R : Type 0} → ℕ → List (ToolDefinition N) → Event N R
tools_event now tools = emit "tools_list" (
    ws_success (tools_data tools (length tools)) Response.tool_list
      "Tools list retrieved successfully" now)

-- Whatever the result is, it is sent as a success.
abbrev pub result_event : {N R : Type 0} → ℕ → String → String → R ⊎ Failure N → Event N R
result_event now call_id tool_name result = emit "tool_result" (
    ws_success (result_data call_id tool_name result) Response.tool_executed
      "Tool executed successfully" now)

abbrev pub request_of : {N : Type 0} → String → ToolCallData N → ToolCallRequest N
request_of name d = record {
  tool_name = name;
  parameters = parameters_or d.parameters;
  call_id = d.call_id;
}

module _ {N H R : Type 0} where
  unfoldable pub handle_list_tools : ℕ → ListToolsData → ToolRegistry N H → Event N R
  handle_list_tools now d r = elim (given d.category) [
    | none ↦ tools_event now (get_tool_definition_dtos (is_true d.include_deprecated) r)
    | some text ↦ elim (parse_category text) [
      | some category ↦
          tools_event now (map (λ tool. tool.definition) (get_tools_by_category category r))
      | none ↦ emit_error Response.validation_error (String.◌++◌ "Invalid category: " text) now
    ]
  ]

  unfoldable pub handle_get_tool_info : ℕ → Option String → ToolRegistry N H → Event N R
  handle_get_tool_info now tool_name r = elim (given tool_name) [
    | none ↦
        emit_error Response.validation_error "Invalid request. Expected { toolName: string }" now
    | some name ↦ elim (get_tool_definition name r) [
      | none ↦
          emit_error Response.tool_not_found
            (String.◌++◌ "Tool \"" (String.◌++◌ name "\" not found")) now
      | some definition ↦ emit "tool_info" (
          ws_success (definition_data definition) Response.tool_info
            "Tool info retrieved successfully" now)
    ]
  ]

  module _ (same : N → N → Bool) where
    -- The session's calls are counted under the id of the client.
    unfoldable pub tool_call_begin :
        (ℕ → ℕ)
        → Option ℕ
        → String
        → String
        → ToolCallData N
        → SessionService
        → ToolExecutor N H
        → ToolExecutor N H × Called N H R
    tool_call_begin clock size fresh client_id d sessions s = elim (given d.tool_name) [
      | none ↦ (
        s,
        answered (
            emit_error Response.validation_error
              "Invalid tool call format. Expected { toolName: string, parameters: object }"
              (clock 0)),
      )
      | some name ↦
          let request = request_of name d in
          let (s', begun) = begin same size fresh client_id request s in
          if has_session (clock 0) client_id sessions
          then (
            s',
            elim begun [
              | refused failure ↦
                  answered (result_event (clock 2) failure.call_id name (inr failure))
              | running call_id tool timeout_ms ↦ called request call_id tool timeout_ms
            ],
          )
          else (
            s,
            answered (emit_error Response.session_expired "Session not found or expired" (clock 1)),
          )
    ]

  unfoldable pub tool_call_end :
      ℕ
      → String
      → String
      → ToolCallRequest N
      → Ended R
      → ToolExecutor N H
      → ToolExecutor N H × Event N R
  tool_call_end now client_id call_id request ended s =
      let (s', result) = finish client_id call_id request ended s in
      (s', result_event now call_id request.tool_name result)
