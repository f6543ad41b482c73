-- ===== src/ToolRuntime/Slots.antt =====
-- The slots of ToolRuntime are counted through every operation.
use moon_bot.Prelude.{
  ℕ, ◌+◌, ◌<◌, String, ◌≡◌, refl, Bool, true, false, Option, none, some, arith, Bool-cases,
  Option-cases, inl, inr, leb, eq_iff, subst, sym,
}
use moon_bot.JsMap
use moon_bot.JsMap.{JsMap, IsMap}
use moon_bot.JsMap.Laws.{get-delete}
use moon_bot.JsMap.Counting.{was, count-set, count-retain-le}
use moon_bot.ToolRuntime.{
  RuntimeEvent, emit, running, failed, ToolRuntime, ToolSpec, ToolInput, ToolInvocation, Stage,
  Call, checking, running_tool, approved_run, awaits, awaiting_approval, put, hold, release,
  count_up, execute, invoke_tool, checked, finalized, resolve, finalize_execution,
}
use moon_bot.ToolRuntime.Approvals.{
  handle_approval_denied, handle_approval_granted, approve_found, shutdown,
}
use moon_bot.ToolRuntime.Results
use moon_bot.ToolRuntime.Results.{Execution, succeeded, failed_with}
use moon_bot.ToolRuntime.ApprovalManager.{ApprovalCheck, approved, rejected, threw}
use moon_bot.ToolRuntime.Steps.{lost_by, IsSlotted, awaiting, flying}
use moon_bot.ToolRuntime.Tidy.{
  put-IsTidy, hold-IsTidy, release-IsTidy, retain-IsTidy, set-quiet, flying-hold, flying-keep,
  flying-release,
}

-- A new call, for an invocation that is neither in flight nor awaiting.
pub start-IsSlotted :
    (stage : Stage) (i : ToolInvocation) (user : String) (r : ToolRuntime) (lost : ℕ)
    → awaits i ≡ false
    → JsMap.get i.id r.in_flight ≡ none
    → flying r + awaiting (put i r) < r.config.max_concurrent
    → IsSlotted r lost
    → IsSlotted (hold stage i user (count_up (put i r))) lost
start-IsSlotted stage i user r lost quiet out room s = record {
  tidy =
      hold-IsTidy (put-IsTidy s.tidy i (λ w. ground arith)) i.id _
        (λ j e. set-quiet i j r.invocations quiet e);
  slots = omega (
    arith,
    flying-hold i.id (record { stage = stage; invocation = i; user_id = user }) r.in_flight out,
    s.slots,
  );
  covered = ground (arith, count-set awaits i.id i r.invocations, s.covered);
  bounded = omega (
    arith,
    flying-hold i.id (record { stage = stage; invocation = i; user_id = user }) r.in_flight out,
  );
}

pub execute-IsSlotted :
    (o : Option String) (tool : ToolSpec) (i : ToolInvocation) (user : String) (r : ToolRuntime)
    (lost : ℕ)
    → awaits i ≡ false
    → JsMap.get i.id r.invocations ≡ none
    → JsMap.get i.id r.in_flight ≡ none
    → r.running_count < r.config.max_concurrent
    → IsSlotted r lost
    → IsSlotted (execute o tool i user r).0 lost
unfolding execute
execute-IsSlotted (some errors) tool i user r lost quiet fresh out room s = s
execute-IsSlotted none tool i user r lost quiet fresh out room s =
    start-IsSlotted _ i user r lost quiet out
      (ground (arith, count-set awaits i.id i r.invocations, s.covered, s.slots)) s

pub invoke_tool-IsSlotted :
    (o : Option ToolSpec) (validate : String → ToolInput → Option String) (tool_id : String)
    (i : ToolInvocation) (user : String) (r : ToolRuntime) (lost : ℕ)
    → awaits i ≡ false
    → JsMap.get i.id r.invocations ≡ none
    → JsMap.get i.id r.in_flight ≡ none
    → IsSlotted r lost
    → IsSlotted (invoke_tool o validate tool_id i user r).0 lost
invoke_tool-IsSlotted none validate tool_id i user r lost quiet fresh out s = s
invoke_tool-IsSlotted (some tool) validate tool_id i user r lost quiet fresh out s =
    elim (Bool-cases (leb r.config.max_concurrent r.running_count)) [
      | inl full ↦ rw full s
      | inr free ↦ rw free (
          execute-IsSlotted (validate tool.schema i.input) tool i user r lost quiet fresh out
            (ground arith) s)
    ]

-- A call in flight belongs to no invocation that awaits an approval.
pub flying-quiet :
    (id : String) (c : Call) (r : ToolRuntime) (lost : ℕ)
    → JsMap.get id r.in_flight ≡ some c
    → IsSlotted r lost
    → (i : ToolInvocation) → JsMap.get id r.invocations ≡ some i
    → awaits i ≡ false
flying-quiet id c r lost f s i e = ground (arith, s.tidy.apart id i e)

pub was-quiet :
    (id : String) (c : Call) (r : ToolRuntime) (lost : ℕ)
    → JsMap.get id r.in_flight ≡ some c
    → IsSlotted r lost
    → was awaits (JsMap.get id r.invocations) ≡ 0
was-quiet id c r lost f s = elim (Option-cases (JsMap.get id r.invocations)) [
  | inl e ↦ ground arith
  | inr (i, e) ↦ ground (arith, flying-quiet id c r lost f s i e)
]

pub checked-IsSlotted :
    (c : Call) (verdict : ApprovalCheck) (r : ToolRuntime) (lost : ℕ)
    → JsMap.get c.invocation.id r.in_flight ≡ some c
    → IsSlotted r lost
    → IsSlotted (checked verdict c r).0 (lost_by verdict + lost)
checked-IsSlotted c approved r lost f s = record {
  tidy = hold-IsTidy s.tidy c.invocation.id _ (flying-quiet c.invocation.id c r lost f s);
  slots = omega (
    arith,
    flying-keep c.invocation.id
        (record { stage = running_tool; invocation = c.invocation; user_id = c.user_id }) c
        r.in_flight f,
    s.slots,
  );
  covered = omega (arith, s.covered);
  bounded = omega (
    arith,
    flying-keep c.invocation.id
        (record { stage = running_tool; invocation = c.invocation; user_id = c.user_id }) c
        r.in_flight f,
    s.bounded,
  );
}
checked-IsSlotted c (rejected reason) r lost f s = record {
  tidy =
      put-IsTidy (release-IsTidy s.tidy c.invocation.id)
        (record c.invocation { status = awaiting_approval })
        (λ w. ground (
          arith,
          get-delete c.invocation.id c.invocation.id r.in_flight,
          eq_iff c.invocation.id c.invocation.id,
        ));
  slots =
      omega (arith, flying-release c.invocation.id c r.in_flight s.tidy.unique_calls f, s.slots);
  covered = omega (
    arith,
    count-set awaits c.invocation.id (record c.invocation { status = awaiting_approval })
        r.invocations,
    s.covered,
  );
  bounded = omega (
    arith,
    was-quiet c.invocation.id c r lost f s,
    count-set awaits c.invocation.id (record c.invocation { status = awaiting_approval })
        r.invocations,
    flying-release c.invocation.id c r.in_flight s.tidy.unique_calls f,
    s.bounded,
  );
}
checked-IsSlotted c threw r lost f s = record {
  tidy = release-IsTidy s.tidy c.invocation.id;
  slots =
      omega (arith, flying-release c.invocation.id c r.in_flight s.tidy.unique_calls f, s.slots);
  covered = omega (arith, s.covered);
  bounded =
      omega (arith, flying-release c.invocation.id c r.in_flight s.tidy.unique_calls f, s.bounded);
}

pub finalized-quiet :
    (e : Execution) (now : ℕ) (i : ToolInvocation) → awaits (finalized e now i) ≡ false
finalized-quiet (succeeded value duration_ms) now i = refl
finalized-quiet (failed_with message stack duration_ms) now i = refl

pub finalize-IsSlotted :
    (c : Call) (e : Execution) (now : ℕ) (r : ToolRuntime) (lost : ℕ)
    → JsMap.get c.invocation.id r.in_flight ≡ some c
    → IsSlotted r lost
    → IsSlotted (finalize_execution e now c.invocation (release c.invocation.id r)) lost
unfolding finalize_execution
finalize-IsSlotted c e now r lost f s =
    let counted = count-set awaits c.invocation.id (finalized e now c.invocation) r.invocations in
    let fewer = flying-release c.invocation.id c r.in_flight s.tidy.unique_calls f in
    let quiet = finalized-quiet e now c.invocation in
    record {
      tidy =
          put-IsTidy (release-IsTidy s.tidy c.invocation.id) (finalized e now c.invocation)
            (λ w. ground arith);
      slots = omega (arith, fewer, s.slots);
      covered = ground (arith, s.covered);
      bounded = ground (arith, s.bounded);
    }

pub emit-IsSlotted :
    (e : RuntimeEvent) (r : ToolRuntime) (lost : ℕ) → IsSlotted r lost → IsSlotted (emit e r) lost
emit-IsSlotted e r lost s = record {
  tidy = s.tidy;
  slots = s.slots;
  covered = s.covered;
  bounded = s.bounded;
}

pub resolve-IsSlotted :
    (stage : Stage) (id : String) (r : ToolRuntime) (lost : ℕ)
    → IsSlotted r lost
    → IsSlotted (resolve stage id r) lost
resolve-IsSlotted checking id r lost s = s
resolve-IsSlotted running_tool id r lost s = s
resolve-IsSlotted approved_run id r lost s = emit-IsSlotted _ r lost s

pub denied-IsSlotted :
    (i : ToolInvocation) (now : ℕ) (r : ToolRuntime) (lost : ℕ)
    → IsSlotted r lost
    → IsSlotted (handle_approval_denied i now r).0 lost
unfolding handle_approval_denied
denied-IsSlotted i now r lost s =
    let denied : ToolInvocation = record i {
      status = failed;
      end_time = some now;
      result = some Results.approval_denied;
    } in
    let counted = count-set awaits i.id denied r.invocations in
    record {
      tidy = put-IsTidy s.tidy denied (λ w. ground arith);
      slots = s.slots;
      covered = omega (arith, counted, s.covered);
      bounded = omega (arith, counted, s.bounded);
    }

pub granted-IsSlotted :
    (o : Option ToolSpec) (i : ToolInvocation) (r : ToolRuntime) (lost : ℕ)
    → JsMap.get i.id r.invocations ≡ some i
    → awaits i ≡ true
    → IsSlotted r lost
    → IsSlotted (handle_approval_granted o i r).0 lost
unfolding handle_approval_granted
granted-IsSlotted none i r lost f w s = s
granted-IsSlotted (some tool) i r lost f w s =
    start-IsSlotted approved_run (record i { status = running }) "" r lost refl
      (s.tidy.apart i.id i f w)
      (ground
        (arith, count-set awaits i.id (record i { status = running }) r.invocations, s.bounded))
      s

pub approve_found-IsSlotted :
    (o : Option ToolInvocation) (id : String) (b : Bool) (now : ℕ) (r : ToolRuntime) (lost : ℕ)
    → JsMap.get id r.invocations ≡ o
    → IsSlotted r lost
    → IsSlotted (approve_found o id b now r).0 lost
approve_found-IsSlotted none id b now r lost f s = s
approve_found-IsSlotted (some i) id true now r lost f s = elim (Bool-cases (awaits i)) [
  | inl w ↦ rw w (
      granted-IsSlotted (JsMap.get i.tool_id r.tools) i r lost
        (subst (λ k. JsMap.get k r.invocations ≡ some i) (sym (s.tidy.named id i f)) f) w s)
  | inr w ↦ rw w s
]
approve_found-IsSlotted (some i) id false now r lost f s = elim (Bool-cases (awaits i)) [
  | inl w ↦ rw w (denied-IsSlotted i now r lost s)
  | inr w ↦ rw w s
]

pub tools-IsSlotted :
    (tools : JsMap ToolSpec) (r : ToolRuntime) (lost : ℕ)
    → IsSlotted r lost
    → IsSlotted (record r { tools = tools }) lost
tools-IsSlotted tools r lost s = record {
  tidy = s.tidy;
  slots = s.slots;
  covered = s.covered;
  bounded = s.bounded;
}

pub kept-IsSlotted :
    (keep : String → ToolInvocation → Bool) (r : ToolRuntime) (lost : ℕ)
    → IsSlotted r lost
    → IsSlotted (record r { invocations = JsMap.retain keep r.invocations }) lost
kept-IsSlotted keep r lost s =
    let fewer = count-retain-le awaits keep r.invocations in
    record {
      tidy = retain-IsTidy s.tidy keep;
      slots = s.slots;
      covered = omega (arith, fewer, s.covered);
      bounded = omega (arith, fewer, s.bounded);
    }

pub shutdown-IsSlotted :
    (r : ToolRuntime) (lost : ℕ) → IsSlotted r lost → IsSlotted (shutdown r) lost
unfolding shutdown JsMap.get JsMap.values
shutdown-IsSlotted r lost s = record {
  tidy = record {
    unique_calls = s.tidy.unique_calls;
    unique = tt;
    named = λ id i e. ground arith;
    apart = λ id i e. ground arith;
  };
  slots = s.slots;
  covered = omega arith;
  bounded = omega (arith, s.bounded);
}
