-- ===== src/ToolRuntime/Approvals.antt =====
-- The decisions on invocations that await an approval, the sweep and the end (ToolRuntime).
use moon_bot.Prelude.{
  ℕ, ◌+◌, String, Bool, false, ◌&&◌, not, Option, none, some, [], ltb, if◌then◌else◌,
}
use moon_bot.JsMap
use moon_bot.JsMap.{JsMap, values}
use moon_bot.ToolRuntime.Results
use moon_bot.ToolRuntime.Results.{ToolResult, Execution, succeeded, failed_with, result_of}
use moon_bot.ToolRuntime.{
  Answer, ToolInvocation, ToolRuntime, ToolSpec, answered, approval_resolved, approved_run, awaits,
  count_up, emit, failed, hold, put, running,
}

-- `approveRequest`.
unfoldable pub handle_approval_denied :
    ToolInvocation → ℕ → ToolRuntime → ToolRuntime × Option Answer
handle_approval_denied i now r = (
  emit (approval_resolved i.id false) (
      put (record i { status = failed; end_time = some now; result = some Results.approval_denied })
        r),
  some (answered i.id Results.approval_denied),
)

-- `handleApprovalGranted` with `reExecuteAfterApproval` up to its await.
unfoldable pub handle_approval_granted :
    Option ToolSpec → ToolInvocation → ToolRuntime → ToolRuntime × Option Answer
handle_approval_granted none i r = (r, some (answered i.id (Results.tool_not_found i.tool_id)))
handle_approval_granted (some tool) i r =
    let started = record i { status = running } in
    (hold approved_run started "" (count_up (put started r)), none)

abbrev pub approve_found :
    Option ToolInvocation → String → Bool → ℕ → ToolRuntime → ToolRuntime × Option Answer
approve_found none id approved now r = (r, some (answered id Results.invocation_not_found))
approve_found (some i) id approved now r =
    if awaits i
    then (if approved
        then handle_approval_granted (JsMap.get i.tool_id r.tools) i r
        else handle_approval_denied i now r)
    else (r, some (answered id (Results.invalid_state "Invocation is not awaiting approval")))

unfoldable pub approve_request : String → Bool → ℕ → ToolRuntime → ToolRuntime × Option Answer
approve_request id approved now r = approve_found (JsMap.get id r.invocations) id approved now r

-- `invocation.endTime && invocation.endTime < cutoff && …`, the cutoff `now - max_age_ms`.
abbrev ended_before : Option ℕ → ℕ → ℕ → Bool
ended_before none max_age_ms now = false
ended_before (some t) max_age_ms now = ltb 0 t && ltb (t + max_age_ms) now

abbrev pub is_old : ℕ → ℕ → ToolInvocation → Bool
is_old max_age_ms now i = ended_before i.end_time max_age_ms now && not (awaits i)

unfoldable pub cleanup : ℕ → ℕ → ToolRuntime → ToolRuntime
cleanup max_age_ms now r = record r {
  invocations = JsMap.retain (λ id i. not (is_old max_age_ms now i)) r.invocations;
}

unfoldable pub shutdown : ToolRuntime → ToolRuntime
shutdown r = record r { cleanup_interval = false; invocations = [] }
