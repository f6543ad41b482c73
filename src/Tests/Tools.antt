-- ===== src/Tests/Tools.antt =====
-- The tool runtime on concrete inputs.
use moon_bot.Prelude.{
  ◌+◌, ◌≤◌, String, ◌≡◌, refl, Bool, true, false, Option, none, some, [], ◌∷◌, arith, eq_iff,
}
use moon_bot.JsMap
use moon_bot.ToolRuntime
use moon_bot.ToolRuntime.{
  ToolRuntime, ToolSpec, ToolInput, ToolInvocation, RuntimeConfig, Call, new, register, invoke,
  execute, create_invocation, checked, checking, awaiting_approval, refused, answered,
  get_invocation, settled, finalized,
}
use moon_bot.ToolRuntime.Approvals.{approve_request}
use moon_bot.ToolRuntime.Results
use moon_bot.ToolRuntime.Results.{succeeded, result_of}
use moon_bot.ToolRuntime.ApprovalManager.{
  argv, rejected, approved, default_config, check_approval, allows, in_prefix, denied_by,
}
use moon_bot.ToolRuntime.Steps.{
  Reach, IsTidy, here, next, registers, invokes, check_ends, flying, awaiting,
}
use moon_bot.ToolRuntime.Limits.{flights_bounded, lost_refuses}
use moon_bot.ToolRuntime.Decisions.{decided_once, not_awaiting}

abbrev one_at_a_time : RuntimeConfig
one_at_a_time = record {
  workspace_root = "/work";
  default_timeout_ms = 30000;
  max_concurrent = 1;
  enable_approvals = true;
}

abbrev run_tool : ToolSpec
run_tool = record {
  id = "system.run";
  description = "run";
  schema = "{}";
  requires_approval = true;
}

abbrev list_files : ToolInput
list_files = record { text = "ls"; argv = argv ("ls" ∷ []); cwd = "/work" }

abbrev accept : String → ToolInput → Option String
accept schema input = none

abbrev with_tool : ToolRuntime
with_tool = register run_tool (new one_at_a_time)

abbrev first : ToolInvocation
first = create_invocation "i1" "system.run" "s1" list_files 0 none 1

abbrev second : ToolInvocation
second = create_invocation "i2" "system.run" "s1" list_files 0 none 2

abbrev invoked : ToolRuntime
invoked = (invoke accept first "u1" with_tool).0

abbrev first_call : Call
first_call = record { stage = checking; invocation = first; user_id = "u1" }

abbrev asked : ToolRuntime
asked = (checked (rejected "Command not in allowlist: ls") first_call invoked).0

no_first : JsMap.get "i1" with_tool.invocations ≡ none
unfolding register JsMap.get
no_first = refl

no_first_call : JsMap.get "i1" with_tool.in_flight ≡ none
unfolding register JsMap.get
no_first_call = refl

first_flies : JsMap.get "i1" invoked.in_flight ≡ some first_call
unfolding register invoke execute JsMap.get JsMap.set
first_flies = refl

Reach-asked : Reach (new one_at_a_time) asked (0 + 0 + 0 + 1)
Reach-asked =
    next
      (next (next here (registers run_tool))
        (invokes accept "i1" "system.run" "s1" "u1" list_files 0 none 1 no_first no_first_call))
      (check_ends first_call (rejected "Command not in allowlist: ls") first_flies refl)

flights_bounded_example :
    (asked.running_count ≡ flying asked + 1)
    × (flying asked + awaiting asked ≤ asked.config.max_concurrent)
flights_bounded_example = flights_bounded one_at_a_time asked 1 Reach-asked

one_is_all : asked.config.max_concurrent ≤ 1
unfolding register invoke execute JsMap.get JsMap.set
one_is_all = omega arith

tool_found : ToolRuntime.get_tool "system.run" asked ≡ some run_tool
unfolding register invoke execute JsMap.get JsMap.set
tool_found = refl

lost_refuses_example :
    invoke accept second "u1" asked ≡ (asked, some (refused Results.concurrency_limit))
lost_refuses_example =
    lost_refuses one_at_a_time asked 1 accept run_tool second "u1" Reach-asked one_is_all tool_found

abbrev waiting : ToolInvocation
waiting = record first { status = awaiting_approval }

abbrev one_waits : ToolRuntime
one_waits = record (new one_at_a_time) {
  tools = ("system.run", run_tool) ∷ [];
  invocations = ("i1", waiting) ∷ [];
}

named_there :
    (id : String) (i : ToolInvocation) → JsMap.get id (("i1", waiting) ∷ []) ≡ some i → i.id ≡ id
unfolding JsMap.get
named_there id i e = ground (arith, eq_iff "i1" id)

IsTidy-one_waits : IsTidy one_waits.invocations one_waits.in_flight
unfolding JsMap.get
IsTidy-one_waits = record {
  unique_calls = tt;
  unique = (refl, tt);
  named = λ id i e. named_there id i e;
  apart = λ id i e w. refl;
}

waits : get_invocation "i1" one_waits ≡ some waiting
unfolding JsMap.get
waits = refl

has_tool : ToolRuntime.get_tool "system.run" one_waits ≡ some run_tool
unfolding JsMap.get
has_tool = refl

decided_once_example :
    approve_request "i1" true 9 (approve_request "i1" true 8 one_waits).0
    ≡ ((approve_request "i1" true 8 one_waits).0, some (answered "i1" not_awaiting))
decided_once_example =
    decided_once "i1" true true 8 9 waiting run_tool one_waits IsTidy-one_waits waits refl has_tool

-- A reading of regular expressions in which none is found.
abbrev none_found : String → String → Option Bool
none_found p text = some false

abbrev as_it_is : String → String
as_it_is path = path

git_in_root :
    check_approval none_found as_it_is default_config (argv ("git" ∷ "status" ∷ [])) "/work" "/work"
    ≡ approved
unfolding check_approval denied_by allows in_prefix
git_in_root = refl
