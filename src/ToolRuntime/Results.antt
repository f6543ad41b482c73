-- ===== src/ToolRuntime/Results.antt =====
-- Tools, their results and the builders of results: src/types/index.ts and
-- src/tools/runtime/ToolResultBuilder.ts, with the errors of ToolRuntime.ts and ToolExecutor.ts. A
-- value that the runtime only passes on is its JSON text.
use moon_bot.Prelude.{ℕ, String, Bool, true, false, Option, none, some, List, concat}

pub record ToolError : Type 0 where
  pub code : String
  pub message : String
  pub details : Option String

pub record ToolMeta : Type 0 where
  pub duration_ms : ℕ
  pub artifacts : Option (List String)
  pub truncated : Option Bool

pub record ToolResult : Type 0 where
  pub ok : Bool
  pub data_ : Option String
  pub error : Option ToolError
  pub meta : ToolMeta

abbrev lasting : ℕ → ToolMeta
lasting duration_ms = record { duration_ms = duration_ms; artifacts = none; truncated = none }

-- ToolResultBuilder.success; `meta` is what the caller gives.
abbrev pub success : String → ToolMeta → ToolResult
success value meta = record { ok = true; data_ = some value; error = none; meta = meta }

abbrev pub failure_with_duration : String → String → ℕ → Option String → ToolResult
failure_with_duration code message duration_ms details = record {
  ok = false;
  data_ = none;
  error = some (record { code = code; message = message; details = details });
  meta = lasting duration_ms;
}

abbrev pub failure : String → String → Option String → ToolResult
failure code message details = failure_with_duration code message 0 details

abbrev pub cancelled : ToolResult
cancelled = failure "CANCELLED" "Tool execution cancelled" none

abbrev pub validation_error : String → Option String → ToolResult
validation_error message errors = failure "VALIDATION_ERROR" message errors

abbrev pub permission_denied : String → Option String → ToolResult
permission_denied message details = failure "PERMISSION_DENIED" message details

-- The errors of the runtime itself.
abbrev pub tool_not_found : String → ToolResult
tool_not_found id = failure "TOOL_NOT_FOUND" (concat "Tool not found: " id) none

abbrev pub concurrency_limit : ToolResult
concurrency_limit = failure "CONCURRENCY_LIMIT" "Too many concurrent tool invocations" none

abbrev pub invocation_not_found : ToolResult
invocation_not_found = failure "INVOCATION_NOT_FOUND" "Invocation not found" none

abbrev pub invalid_state : String → ToolResult
invalid_state message = failure "INVALID_STATE" message none

abbrev pub approval_denied : ToolResult
approval_denied = failure "APPROVAL_DENIED" "Tool execution was not approved" none

abbrev pub invalid_input : String → ToolResult
invalid_input errors = failure "INVALID_INPUT" "Input validation failed" (some errors)

-- What a run of a tool came to: its value, or the message and the stack of the error.
pub data Execution : Type 0 where
  succeeded : String → ℕ → Execution
  failed_with : String → Option String → ℕ → Execution

-- The result that finalizeExecution makes of it.
abbrev pub result_of : Execution → ToolResult
result_of (succeeded value duration_ms) = success value (lasting duration_ms)
result_of (failed_with message stack duration_ms) =
    failure_with_duration "EXECUTION_ERROR" message duration_ms stack
