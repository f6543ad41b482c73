-- ===== src/ToolRuntime/Decisions.antt =====
-- An approval is decided once, and what a run came to is recorded.
use moon_bot.Prelude.{ℕ, String, ◌≡◌, refl, Bool, true, false, some, arith, eq_iff}
use moon_bot.JsMap
use moon_bot.JsMap.Laws.{get-set}
use moon_bot.ToolRuntime.{
  ToolRuntime, ToolSpec, ToolInvocation, Call, awaits, answered, settled, get_invocation, get_tool,
  running, failed, checking, running_tool, approved_run, finalized, resolve, finalize_execution,
  release,
}
use moon_bot.ToolRuntime.Approvals.{
  approve_request, handle_approval_denied, handle_approval_granted,
}
use moon_bot.ToolRuntime.Results
use moon_bot.ToolRuntime.Results.{Execution, result_of}
use moon_bot.ToolRuntime.Steps.{IsTidy}

-- A state in which invocation `id` is there and does not await an approval.
abbrev IsDecided : String → ToolRuntime → Type 0
IsDecided id r = (i : ToolInvocation) × (JsMap.get id r.invocations ≡ some i) × (awaits i ≡ false)

abbrev pub not_awaiting : Results.ToolResult
not_awaiting = Results.invalid_state "Invocation is not awaiting approval"

refuses :
    (id : String) (b : Bool) (now : ℕ) (r : ToolRuntime)
    → IsDecided id r
    → approve_request id b now r ≡ (r, some (answered id not_awaiting))
unfolding approve_request
refuses id b now r (i, f, w) = rw (f, w) refl

decides :
    (id : String) (b : Bool) (now : ℕ) (i : ToolInvocation) (tool : ToolSpec) (r : ToolRuntime)
    → IsTidy r.invocations r.in_flight
    → get_invocation id r ≡ some i
    → awaits i ≡ true
    → get_tool i.tool_id r ≡ some tool
    → IsDecided id (approve_request id b now r).0
unfolding approve_request handle_approval_denied handle_approval_granted
decides id true now i tool r t f w g =
    let decided : ToolInvocation = record i { status = running } in
    rw (f, w, g)
      (
        decided,
        ground (arith, get-set i.id id decided r.invocations, eq_iff i.id id, t.named id i f),
        refl,
      )
decides id false now i tool r t f w g =
    let decided : ToolInvocation = record i {
      status = failed;
      end_time = some now;
      result = some Results.approval_denied;
    } in
    rw (f, w)
      (
        decided,
        ground (arith, get-set i.id id decided r.invocations, eq_iff i.id id, t.named id i f),
        refl,
      )

-- In a tidy state, once approveRequest has decided an invocation of a registered tool that awaits
-- an approval, either way, a further decision is refused with INVALID_STATE and changes nothing.
pub decided_once :
    (id : String) (b later : Bool) (now then : ℕ) (i : ToolInvocation) (tool : ToolSpec)
    (r : ToolRuntime)
    → IsTidy r.invocations r.in_flight
    → get_invocation id r ≡ some i
    → awaits i ≡ true
    → get_tool i.tool_id r ≡ some tool
    → approve_request id later then (approve_request id b now r).0
      ≡ ((approve_request id b now r).0, some (answered id not_awaiting))
decided_once id b later now then i tool r t f w g =
    refuses id later then _ (decides id b now i tool r t f w g)

stored :
    (i : ToolInvocation) (m : JsMap.JsMap ToolInvocation)
    → JsMap.get i.id (JsMap.set i.id i m) ≡ some i
stored i m = ground (arith, get-set i.id i.id i m, eq_iff i.id i.id)

-- After a run, its result is the answer, and is on record with its time.
pub run_recorded :
    (c : Call) (e : Execution) (now : ℕ) (r : ToolRuntime)
    → ((settled e now c r).1 ≡ some (answered c.invocation.id (result_of e)))
      × (get_invocation c.invocation.id (settled e now c r).0 ≡ some (finalized e now c.invocation))
unfolding finalize_execution
run_recorded c e now r = (
  refl,
  elim c.stage
      as (λ st.
        get_invocation c.invocation.id (
          resolve st c.invocation.id
            (finalize_execution e now c.invocation (release c.invocation.id r)))
        ≡ some (finalized e now c.invocation)) [
          | checking ↦ stored (finalized e now c.invocation) r.invocations
          | running_tool ↦ stored (finalized e now c.invocation) r.invocations
          | approved_run ↦ stored (finalized e now c.invocation) r.invocations
        ],
)
