-- ===== src/ToolRuntime/Limits.antt =====
-- What the count of running tools promises, over every sequence of steps.
use moon_bot.Prelude.{ℕ, ◌+◌, ◌≤◌, String, ◌≡◌, refl, true, Option, some, arith, leb, subst}
use moon_bot.JsMap
use moon_bot.JsMap.{JsMap, IsMap}
use moon_bot.ToolRuntime.{
  RuntimeConfig, new, get_tool, refused, register, unregister, ToolRuntime, ToolSpec, ToolInput,
  ToolInvocation, invoke,
}
use moon_bot.ToolRuntime.Approvals.{approve_request, cleanup}
use moon_bot.ToolRuntime.Results
use moon_bot.ToolRuntime.Results.{Execution, succeeded, failed_with}
use moon_bot.ToolRuntime.Steps.{
  IsSlotted, awaiting, flying, Step, Reach, here, next, registers, unregisters, invokes, check_ends,
  run_ends, approves, cleans, shuts,
}
use moon_bot.ToolRuntime.Slots.{
  invoke_tool-IsSlotted, checked-IsSlotted, finalize-IsSlotted, resolve-IsSlotted,
  approve_found-IsSlotted, tools-IsSlotted, kept-IsSlotted, shutdown-IsSlotted,
}

-- No slot is lost.
as-IsSlotted : (r : ToolRuntime) (lost : ℕ) → IsSlotted r lost → IsSlotted r (0 + lost)
as-IsSlotted r lost s = subst (IsSlotted r) (omega arith) s

step_to-IsSlotted :
    {r t : ToolRuntime} {n : ℕ} (lost : ℕ) → Step r t n → IsSlotted r lost → IsSlotted t (n + lost)
unfolding register unregister invoke approve_request cleanup
step_to-IsSlotted {r} lost (registers spec) s = as-IsSlotted _ lost (tools-IsSlotted _ r lost s)
step_to-IsSlotted {r} lost (unregisters id) s = as-IsSlotted _ lost (tools-IsSlotted _ r lost s)
step_to-IsSlotted {r} lost
      (invokes validate id tool_id session user input retry_count parent now fresh out) s =
    as-IsSlotted _ lost (
      invoke_tool-IsSlotted (JsMap.get tool_id r.tools) validate tool_id _ user r lost refl fresh
        out s)
step_to-IsSlotted {r} lost (check_ends c verdict f e) s = checked-IsSlotted c verdict r lost f s
step_to-IsSlotted {r} lost (run_ends c e now f q) s =
    as-IsSlotted _ lost
      (resolve-IsSlotted c.stage c.invocation.id _ lost (finalize-IsSlotted c e now r lost f s))
step_to-IsSlotted {r} lost (approves id b now) s =
    as-IsSlotted _ lost
      (approve_found-IsSlotted (JsMap.get id r.invocations) id b now r lost refl s)
step_to-IsSlotted {r} lost (cleans max_age_ms now) s =
    as-IsSlotted _ lost (kept-IsSlotted _ r lost s)
step_to-IsSlotted {r} lost shuts s = as-IsSlotted _ lost (shutdown-IsSlotted r lost s)

pub Reach-IsSlotted :
    (r t : ToolRuntime) (lost more : ℕ)
    → Reach r t more
    → IsSlotted r lost
    → IsSlotted t (more + lost)
Reach-IsSlotted r t lost more here s = as-IsSlotted r lost s
Reach-IsSlotted r t lost more (next {s = u} {m} {n} before step) s =
    subst (IsSlotted t) (omega arith)
      (step_to-IsSlotted (m + lost) step (Reach-IsSlotted r u lost m before s))

new-IsSlotted : (config : RuntimeConfig) → IsSlotted (new config) 0
unfolding JsMap.get JsMap.values
new-IsSlotted config = record {
  tidy = record {
    unique_calls = tt;
    unique = tt;
    named = λ id i e. ground arith;
    apart = λ id i e w. ground arith;
  };
  slots = refl;
  covered = omega arith;
  bounded = omega arith;
}

reached :
    (config : RuntimeConfig) (r : ToolRuntime) (lost : ℕ)
    → Reach (new config) r lost
    → IsSlotted r lost
reached config r lost reach =
    subst (IsSlotted r) (omega arith)
      (Reach-IsSlotted (new config) r 0 lost reach (new-IsSlotted config))

-- From a new runtime, after any steps in which new invocations have fresh ids, the running count is
-- the number of calls in flight and the slots that were lost together, and the calls in flight and
-- the invocations that await an approval are together no more than the limit.
pub flights_bounded :
    (config : RuntimeConfig) (r : ToolRuntime) (lost : ℕ)
    → Reach (new config) r lost
    → (r.running_count ≡ flying r + lost) × (flying r + awaiting r ≤ r.config.max_concurrent)
flights_bounded config r lost reach = let s = reached config r lost reach in (s.slots, s.bounded)

-- From a new runtime, after any steps that lost as many slots as the limit, which each request for
-- an approval and each check that throws does, every invocation of a registered tool is refused
-- with CONCURRENCY_LIMIT and changes nothing.
pub lost_refuses :
    (config : RuntimeConfig) (r : ToolRuntime) (lost : ℕ)
    (validate : String → ToolInput → Option String) (tool : ToolSpec) (i : ToolInvocation)
    (user : String)
    → Reach (new config) r lost
    → r.config.max_concurrent ≤ lost
    → get_tool i.tool_id r ≡ some tool
    → invoke validate i user r ≡ (r, some (refused Results.concurrency_limit))
unfolding invoke
lost_refuses config r lost validate tool i user reach full found =
    let s = reached config r lost reach in
    let h : leb r.config.max_concurrent r.running_count ≡ true = ground (arith, s.slots) in
    rw (found, h) refl
