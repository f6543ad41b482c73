-- ===== src/ToolRuntime.antt =====
-- ToolRuntime, ToolExecutor and ToolRegistry (src/tools/runtime/). An asynchronous call is cut at
-- its awaits: `in_flight` holds the calls that wait for the check of an approval or for the end of a
-- run, by invocation; their invocation is the object that `invocations` holds. What a listener is
-- handed stands in `log`, oldest first. The validation of an input (a package, behind
-- SchemaValidator.ts), the random id and the clock are parameters.
pub mod Results
pub mod ApprovalManager
pub mod Steps
mod Tidy
pub mod Slots
pub mod Limits
pub mod Decisions
pub mod Commands
pub mod Approvals
use moon_bot.Prelude.{
  ℕ, ◌+◌, ◌-◌, String, Bool, true, false, ◌&&◌, not, Option, none, some, List, [], ◌∷◌, ◌++◌,
  filter, ltb, leb, ◌==◌, if◌then◌else◌,
}
use moon_bot.JsMap
use moon_bot.JsMap.{JsMap, values}
use moon_bot.ToolRuntime.Results
use moon_bot.ToolRuntime.Results.{ToolResult, Execution, succeeded, failed_with, result_of}
use moon_bot.ToolRuntime.ApprovalManager
use moon_bot.ToolRuntime.ApprovalManager.{ApprovalCheck, Command}

-- The parts of an input that the runtime reads are those of `system.run`.
pub record ToolInput : Type 0 where
  pub text : String
  pub argv : Command
  pub cwd : String

pub record ToolSpec : Type 0 where
  pub id : String
  pub description : String
  pub schema : String
  pub requires_approval : Bool

pub data InvocationStatus : Type 0 where
  pending running completed failed awaiting_approval : InvocationStatus

abbrev pub is_awaiting : InvocationStatus → Bool
is_awaiting awaiting_approval = true
is_awaiting _ = false

pub record ToolInvocation : Type 0 where
  pub id : String
  pub tool_id : String
  pub session_id : String
  pub input : ToolInput
  pub status : InvocationStatus
  pub start_time : ℕ
  pub end_time : Option ℕ
  pub result : Option ToolResult
  pub retry_count : ℕ
  pub parent_invocation_id : Option String

pub record RuntimeConfig : Type 0 where
  pub workspace_root : String
  pub default_timeout_ms : ℕ
  pub max_concurrent : ℕ
  pub enable_approvals : Bool

-- A call between two awaits. A run after an approval answers approveRequest, the others invoke.
pub data Stage : Type 0 where
  checking running_tool approved_run : Stage

pub record Call : Type 0 where
  pub stage : Stage
  pub invocation : ToolInvocation
  pub user_id : String

pub data RuntimeEvent : Type 0 where
  approval_requested : String → String → ToolInput → String → String → RuntimeEvent
  approval_resolved : String → Bool → RuntimeEvent

pub record ToolRuntime : Type 0 where
  pub config : RuntimeConfig
  pub tools : JsMap ToolSpec
  pub invocations : JsMap ToolInvocation
  pub running_count : ℕ
  pub cleanup_interval : Bool
  pub in_flight : JsMap Call
  pub log : List RuntimeEvent

abbrev pub new : RuntimeConfig → ToolRuntime
new config = record {
  config = config;
  tools = [];
  invocations = [];
  running_count = 0;
  cleanup_interval = true;
  in_flight = [];
  log = [];
}

unfoldable pub register : ToolSpec → ToolRuntime → ToolRuntime
register spec r = record r { tools = JsMap.set spec.id spec r.tools }

unfoldable pub unregister : String → ToolRuntime → ToolRuntime
unregister id r = record r { tools = JsMap.delete id r.tools }

abbrev pub get_tool : String → ToolRuntime → Option ToolSpec
get_tool id r = JsMap.get id r.tools

abbrev pub list_tools : ToolRuntime → List ToolSpec
list_tools r = values r.tools

abbrev pub get_invocation : String → ToolRuntime → Option ToolInvocation
get_invocation id r = JsMap.get id r.invocations

abbrev retries : Option ToolInvocation → ℕ
retries none = 0
retries (some i) = i.retry_count

abbrev pub get_retry_count : String → ToolRuntime → ℕ
get_retry_count id r = retries (JsMap.get id r.invocations)

abbrev pub get_invocations_by_session : String → ToolRuntime → List ToolInvocation
get_invocations_by_session session r = filter (λ i. i.session_id == session) (values r.invocations)

abbrev pub awaits : ToolInvocation → Bool
awaits i = is_awaiting i.status

abbrev pub get_pending_approvals : ToolRuntime → List ToolInvocation
get_pending_approvals r = filter awaits (values r.invocations)

-- `onInvocationCreated` and `onInvocationUpdated`.
abbrev pub put : ToolInvocation → ToolRuntime → ToolRuntime
put i r = record r { invocations = JsMap.set i.id i r.invocations }

-- `onRunningCountChange(1)` and `onRunningCountChange(-1)`.
abbrev pub count_up : ToolRuntime → ToolRuntime
count_up r = record r { running_count = r.running_count + 1 }

abbrev pub count_down : ToolRuntime → ToolRuntime
count_down r = record r { running_count = r.running_count - 1 }

abbrev pub hold : Stage → ToolInvocation → String → ToolRuntime → ToolRuntime
hold stage i user r = record r {
  in_flight = JsMap.set i.id (record { stage = stage; invocation = i; user_id = user }) r.in_flight;
}

abbrev pub release : String → ToolRuntime → ToolRuntime
release id r = record r { in_flight = JsMap.delete id r.in_flight }

abbrev pub emit : RuntimeEvent → ToolRuntime → ToolRuntime
emit e r = record r { log = r.log ++ (e ∷ []) }

-- What a call answers; none while it waits.
pub data Answer : Type 0 where
  refused : ToolResult → Answer
  answered : String → ToolResult → Answer
  awaits_approval : String → Answer
  rejects : Answer

abbrev pub create_invocation :
    String → String → String → ToolInput → ℕ → Option String → ℕ → ToolInvocation
create_invocation id tool_id session_id input retry_count parent now = record {
  id = id;
  tool_id = tool_id;
  session_id = session_id;
  input = input;
  status = running;
  start_time = now;
  end_time = none;
  result = none;
  retry_count = retry_count;
  parent_invocation_id = parent;
}

-- Whether the call of the executor waits for the check of an approval.
abbrev pub first_stage : ToolSpec → RuntimeConfig → Stage
first_stage tool config =
    if tool.requires_approval && config.enable_approvals && tool.id == "system.run"
    then checking
    else running_tool

-- `execute` up to its first await; the errors of the validation, if any, come first.
unfoldable pub execute :
    Option String → ToolSpec → ToolInvocation → String → ToolRuntime → ToolRuntime × Option Answer
execute (some errors) tool i user r = (r, some (refused (Results.invalid_input errors)))
execute none tool i user r = (hold (first_stage tool r.config) i user (count_up (put i r)), none)

abbrev pub invoke_tool :
    Option ToolSpec
    → (String → ToolInput → Option String)
    → String
    → ToolInvocation
    → String
    → ToolRuntime
    → ToolRuntime × Option Answer
invoke_tool none validate tool_id i user r = (r, some (refused (Results.tool_not_found tool_id)))
invoke_tool (some tool) validate tool_id i user r =
    if leb r.config.max_concurrent r.running_count
    then (r, some (refused Results.concurrency_limit))
    else execute (validate tool.schema i.input) tool i user r

-- `invoke` up to its first await. `i` is the invocation that is made with a fresh id.
unfoldable pub invoke :
    (String → ToolInput → Option String)
    → ToolInvocation
    → String
    → ToolRuntime
    → ToolRuntime × Option Answer
invoke validate i user r = invoke_tool (JsMap.get i.tool_id r.tools) validate i.tool_id i user r

-- `execute` and `invoke` after the check of the approval.
abbrev pub checked : ApprovalCheck → Call → ToolRuntime → ToolRuntime × Option Answer
checked ApprovalManager.approved c r = (hold running_tool c.invocation c.user_id r, none)
checked (ApprovalManager.rejected reason) c r =
    let i = c.invocation in
    (
      emit (approval_requested i.id i.tool_id i.input i.session_id c.user_id)
          (put (record i { status = awaiting_approval }) (release i.id r)),
      some (awaits_approval i.id),
    )
checked ApprovalManager.threw c r = (release c.invocation.id r, some rejects)

-- `finalizeExecution` on the invocation, and then what is left of `invoke` or `approveRequest`.
abbrev pub status_of : Execution → InvocationStatus
status_of (succeeded value duration_ms) = completed
status_of (failed_with message stack duration_ms) = failed

abbrev pub finalized : Execution → ℕ → ToolInvocation → ToolInvocation
finalized e now i = record i {
  end_time = some now;
  status = status_of e;
  result = some (result_of e);
}

unfoldable pub finalize_execution : Execution → ℕ → ToolInvocation → ToolRuntime → ToolRuntime
finalize_execution e now i r = put (finalized e now i) (count_down r)

abbrev pub resolve : Stage → String → ToolRuntime → ToolRuntime
resolve approved_run id r = emit (approval_resolved id true) r
resolve _ id r = r

abbrev pub settled : Execution → ℕ → Call → ToolRuntime → ToolRuntime × Option Answer
settled e now c r =
    let i = c.invocation in
    (
      resolve c.stage i.id (finalize_execution e now i (release i.id r)),
      some (answered i.id (result_of e)),
    )
