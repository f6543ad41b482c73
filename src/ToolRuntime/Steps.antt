-- ===== src/ToolRuntime/Steps.antt =====
-- The calls of ToolRuntime and the ends of its awaits as steps.
use moon_bot.Prelude.{ℕ, ◌+◌, ◌≤◌, String, ◌≡◌, Bool, true, false, Option, none, some, length}
use moon_bot.JsMap
use moon_bot.JsMap.{JsMap, IsMap}
use moon_bot.JsMap.Counting.{count}
use moon_bot.ToolRuntime.{
  ToolRuntime, ToolSpec, ToolInput, ToolInvocation, Stage, Call, checking, awaits, register,
  unregister, invoke, create_invocation, checked, settled,
}
use moon_bot.ToolRuntime.Approvals.{approve_request, cleanup, shutdown}
use moon_bot.ToolRuntime.Results.{Execution}
use moon_bot.ToolRuntime.ApprovalManager.{ApprovalCheck, approved, rejected, threw}

-- The slots that are never given back when a check ends.
abbrev pub lost_by : ApprovalCheck → ℕ
lost_by approved = 0
lost_by (rejected reason) = 1
lost_by threw = 1

abbrev pub is_run : Stage → Bool
is_run checking = false
is_run _ = true

-- A step and the slots it loses. A call that goes on was in flight.
pub data Step (r : ToolRuntime) : ToolRuntime → ℕ → Type 0 where
  registers : (spec : ToolSpec) → Step r (register spec r) 0
  unregisters : (id : String) → Step r (unregister id r) 0
  invokes :
      (validate : String → ToolInput → Option String) (id tool_id session user : String)
      (input : ToolInput) (retry_count : ℕ) (parent : Option String) (now : ℕ)
      → JsMap.get id r.invocations ≡ none
      → JsMap.get id r.in_flight ≡ none
      → Step r
          (invoke validate
            (create_invocation id tool_id session input retry_count parent now)
            user
            r).0
          0
  check_ends :
      (c : Call) (verdict : ApprovalCheck)
      → JsMap.get c.invocation.id r.in_flight ≡ some c
      → c.stage ≡ checking
      → Step r (checked verdict c r).0 (lost_by verdict)
  run_ends :
      (c : Call) (e : Execution) (now : ℕ)
      → JsMap.get c.invocation.id r.in_flight ≡ some c
      → is_run c.stage ≡ true
      → Step r (settled e now c r).0 0
  approves : (id : String) (b : Bool) (now : ℕ) → Step r (approve_request id b now r).0 0
  cleans : (max_age_ms now : ℕ) → Step r (cleanup max_age_ms now r) 0
  shuts : Step r (shutdown r) 0

pub data Reach (r : ToolRuntime) : ToolRuntime → ℕ → Type 0 where
  here : Reach r r 0
  next : {s t : ToolRuntime} {m n : ℕ} → Reach r s m → Step s t n → Reach r t (m + n)

abbrev pub awaiting : ToolRuntime → ℕ
awaiting r = count awaits r.invocations

abbrev pub flying : ToolRuntime → ℕ
flying r = length r.in_flight

-- Each key once, each invocation under its id, and none of those that await an approval in flight.
pub record IsTidy (invocations : JsMap ToolInvocation) (calls : JsMap Call) : Type 0 where
  pub unique_calls : IsMap calls
  pub unique : IsMap invocations
  pub named : (id : String) (i : ToolInvocation) → JsMap.get id invocations ≡ some i → i.id ≡ id
  pub apart :
      (id : String) (i : ToolInvocation)
      → JsMap.get id invocations ≡ some i
      → awaits i ≡ true
      → JsMap.get id calls ≡ none

-- The state when `lost` slots have been lost.
pub record IsSlotted (r : ToolRuntime) (lost : ℕ) : Type 0 where
  pub tidy : IsTidy r.invocations r.in_flight
  pub slots : r.running_count ≡ flying r + lost
  pub covered : awaiting r ≤ lost
  pub bounded : flying r + awaiting r ≤ r.config.max_concurrent
