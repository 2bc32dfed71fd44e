-- ===== src/Tools/Executor/Execute.antt =====
-- src/tools/services/tool-executor.service.ts: `execute` and the tracking of executions.
use talksy.Common.{
  ℕ, Bool, true, false, ltb, leb, ◌==◌, if◌then◌else◌, [], Option, none, some, String, str_dec, ite,
  ◌⊎◌, inl, inr,
}
use talksy.Common.Map
use talksy.Common.Map.{Map}
use talksy.Tools.{Tool}
use talksy.Tools.Registry.{ToolRegistry, Names, get_tool, number_or}
use talksy.Tools.Executor.{
  ToolErrorCode, invalid_parameters, execution_failed, timed_out, not_found, rate_limited, Details,
  ToolExecutorConfig, ToolCallRequest, validate_parameters,
}

pub record ToolExecutor (N H : Type 0) : Type 0 where
  pub registry : ToolRegistry N H
  pub config : ToolExecutorConfig
  pub active_executions : Map Names

-- A response with `success` false.
pub record Failure (N : Type 0) : Type 0 where
  pub call_id : String
  pub tool_name : String
  pub code : ToolErrorCode
  pub details : Option (Details N)

-- How the first step of `execute` ends: with a response, or in the handler of the tool, which has so many
-- milliseconds.
pub data Begun (N H : Type 0) : Type 0 where
  refused : Failure N → Begun N H
  running : (call_id : String) (tool : Tool N H) (timeout_ms : ℕ) → Begun N H

-- How `executeWithTimeout` ends: what is thrown has a message if it is an `Error`. The timer rejects with
-- the message 'Execution timeout'.
pub data Ended (R : Type 0) : Type 0 where
  resolved : R → Ended R
  rejected : (message : Option String) → Ended R

abbrev pub is_timeout : Option String → Bool
is_timeout none = false
is_timeout (some message) = ite (str_dec message "Execution timeout") true false

abbrev pub names_or : Option Names → Names
names_or none = []
names_or (some names) = names

abbrev pub id_or : Option String → String → String
id_or none fresh = fresh
id_or (some id) fresh = id

abbrev pub failure :
    {N : Type 0} → String → ToolCallRequest N → ToolErrorCode → Option (Details N) → Failure N
failure call_id request code details = record {
  call_id = call_id;
  tool_name = request.tool_name;
  code = code;
  details = details;
}

-- `validateParameterSize`, on the length of the text, none where it cannot be written.
abbrev pub is_small : Option ℕ → ToolExecutorConfig → Bool
is_small none config = false
is_small (some size) config = if ltb config.max_parameter_size size then false else true

module _ {N H : Type 0} where
  abbrev pub tracked : String → ToolExecutor N H → Names
  tracked session_id s = names_or (Map.get session_id s.active_executions)

  unfoldable pub get_active_execution_count : String → ToolExecutor N H → ℕ
  get_active_execution_count session_id s = Map.size (tracked session_id s)

  abbrev pub is_at_limit : String → ToolExecutor N H → Bool
  is_at_limit session_id s =
      leb s.config.max_concurrent_executions (Map.size (tracked session_id s))

  unfoldable pub track_execution : String → String → ToolExecutor N H → ToolExecutor N H
  track_execution session_id call_id s = record s {
    active_executions =
        Map.set session_id (Map.set call_id tt (tracked session_id s)) s.active_executions;
  }

  unfoldable pub untrack_execution : String → String → ToolExecutor N H → ToolExecutor N H
  untrack_execution session_id call_id s = elim (Map.get session_id s.active_executions) [
    | none ↦ s
    | some names ↦
        let left = Map.delete call_id names in
        record s {
          active_executions =
              if Map.size left == 0
              then Map.delete session_id s.active_executions
              else Map.set session_id left s.active_executions;
        }
  ]

  module _ (same : N → N → Bool) where
    -- What `execute` does with a call that is tracked, before it runs the handler.
    unfoldable pub check_call : Option ℕ → String → ToolCallRequest N → ToolExecutor N H → Begun N H
    unfolding get_tool
    check_call size call_id request s =
        let fail = failure call_id request in
        if is_small size s.config
        then elim (get_tool request.tool_name s.registry) [
          | none ↦ refused (fail not_found none)
          | some tool ↦
              elim (validate_parameters same request.parameters tool.definition.parameters) [
                | some details ↦ refused (fail invalid_parameters (some details))
                | none ↦
                    running call_id tool
                      (number_or tool.definition.timeout s.config.default_timeout_ms)
              ]
        ]
        else refused (fail invalid_parameters none)

    -- A call that is refused after it has been tracked is untracked.
    unfoldable pub begin :
        Option ℕ
        → String
        → String
        → ToolCallRequest N
        → ToolExecutor N H
        → ToolExecutor N H × Begun N H
    unfolding check_call track_execution untrack_execution
    begin size fresh session_id request s =
        let call_id = id_or request.call_id fresh in
        let s' = track_execution session_id call_id s in
        if is_at_limit session_id s
        then (s, refused (failure call_id request rate_limited none))
        else elim (check_call size call_id request s') [
          | refused f ↦ (untrack_execution session_id call_id s', refused f)
          | running id tool timeout_ms ↦ (s', running id tool timeout_ms)
        ]

  -- The end of `execute`, where the handler has ended: the result or the error's code.
  unfoldable pub finish :
      {R : Type 0}
      → String
      → String
      → ToolCallRequest N
      → Ended R
      → ToolExecutor N H
      → ToolExecutor N H × (R ⊎ Failure N)
  unfolding untrack_execution
  finish session_id call_id request ended s = (
    untrack_execution session_id call_id s,
    elim ended [
      | resolved r ↦ inl r
      | rejected message ↦ inr (
          failure call_id request (if is_timeout message then timed_out else execution_failed) none)
    ],
  )
