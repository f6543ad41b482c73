-- ===== src/Executor.antt =====
-- Executor (src/agents/executor.ts): the run of a plan, step by step, with recovery. What tools
-- answer, the clock and the toolkit's look-up are those of a `World`, by the number of the call.
pub mod Budget
pub mod Spending
pub mod Recovery
pub mod Plan
use moon_bot.Prelude.{
  ℕ, suc, zero, ◌+◌, String, Bool, true, false, concat, Option, none, some, List, [], ◌∷◌, ◌++◌,
  length, ◌==◌, if◌then◌else◌,
}
use moon_bot.JsMap
use moon_bot.JsMap.{JsMap}
use moon_bot.Replanner
use moon_bot.Replanner.{Replanner, Readings, Runtime, replan, mark_step_success}
use moon_bot.Replanner.Types.{
  Step, ToolFailure, JsError, RecoveryPlan, retry, use_alternative, request_approval, abort,
}

-- What the tool runtime or, without one, the tool itself comes to. A result that is not ok has the
-- message of its error, if it has one.
pub data ToolAnswer : Type 0 where
  awaits_approval : String → ToolAnswer
  ok : Option String → ToolAnswer
  not_ok : Option String → ToolAnswer
  no_result : ToolAnswer
  ran : ToolAnswer
  run_threw : JsError → ToolAnswer

-- One executor and its replanner are shared by all runs. `during_call` and `during_replan` are what the
-- other runs do to the replanner up to the end of the call of that number, and while a plan is made.
pub record World : Type 0 where
  pub during_call : ℕ → Replanner → Replanner
  pub during_replan : ℕ → Replanner → Replanner
  pub answer : ℕ → Step → ToolAnswer
  pub readings : ℕ → Readings
  pub runtime : Runtime
  pub has_tool : String → Bool

-- The messages of `executeStep`.
pub data ToolMessage : Type 0 where
  requires_approval : String → String → ToolMessage
  executed : String → Option String → ToolMessage
  executing : String → Option String → ToolMessage

-- `executeStep` returns a message or null, or throws.
pub data StepOutcome : Type 0 where
  returned : Option ToolMessage → StepOutcome
  threw : JsError → StepOutcome

abbrev pub error : String → JsError
error message = record { name = "Error"; message = message }

abbrev or_failed : Option String → String
or_failed none = "Tool execution failed"
or_failed (some message) = message

unfoldable pub outcome_of : String → Option String → ToolAnswer → StepOutcome
outcome_of id input (awaits_approval invocation) = returned (some (requires_approval id invocation))
outcome_of id input (ok data_of) = returned (some (executed id data_of))
outcome_of id input (not_ok message) = threw (error (or_failed message))
outcome_of id input no_result = returned none
outcome_of id input ran = returned (some (executing id input))
outcome_of id input (run_threw e) = threw e

unfoldable pub call_tool : World → ℕ → Step → Option String → StepOutcome
unfolding outcome_of
call_tool w n step none = returned none
call_tool w n step (some id) =
    if id == ""
    then returned none
    else (if w.has_tool id
        then outcome_of id step.input (w.answer n step)
        else threw (error (concat "Tool not found: " id)))

unfoldable pub execute_step : World → ℕ → Step → StepOutcome
unfolding call_tool
execute_step w n step = call_tool w n step step.tool_id

-- Every result that is no success has `abort: true`.
pub data StepResult : Type 0 where
  succeeded : Option ToolMessage → StepResult
  aborted : JsError → StepResult

-- The arguments of a call of `executeStepWithRetry` that change.
pub record Attempt : Type 0 where
  pub step : Step
  pub attempt_count : ℕ
  pub alternative_attempt_count : ℕ

abbrev pub or_empty : Option String → String
or_empty none = ""
or_empty (some id) = id

abbrev pub failure_of : Attempt → JsError → ℕ → ToolFailure
failure_of a e now = record {
  tool_id = or_empty a.step.tool_id;
  step = a.step;
  result = none;
  error = some e;
  attempt_count = a.attempt_count;
  alternative_attempt_count = a.alternative_attempt_count;
  timestamp = now;
}

-- What one call does before it calls itself: it ends, or goes on with other arguments.
pub data Move : Type 0 where
  stops : StepResult → Move
  again : Attempt → Move

abbrev pub with_alternative : Attempt → JsError → Option String → Move
with_alternative a e none = stops (aborted e)
with_alternative a e (some id) =
    if id == ""
    then stops (aborted e)
    else again (record {
      step = record a.step { tool_id = some id };
      attempt_count = 0;
      alternative_attempt_count = a.alternative_attempt_count + 1;
    })

abbrev or_undefined : Option String → String
or_undefined none = "undefined"
or_undefined (some s) = s

-- "Handle recovery plan."
unfoldable pub follow : RecoveryPlan → Attempt → JsError → Move
follow plan a e = elim plan.action [
  | retry ↦ again (record a { attempt_count = a.attempt_count + 1 })
  | use_alternative ↦ with_alternative a e plan.tool_id
  | request_approval ↦
      stops (aborted (error (concat "Approval required: " (or_undefined plan.message))))
  | abort ↦ stops (aborted e)
]

unfoldable pub recover : World → ℕ → Attempt → Replanner → StepOutcome → Replanner × Move
unfolding follow
recover w n a r (returned message) = (r, stops (succeeded message))
recover w n a r (threw e) =
    let f = failure_of a e (w.readings n).at_start in
    let (r', plan) = replan w.runtime f (w.readings n) (w.during_replan n) r in
    (r', follow plan a e)

unfoldable pub attempt_step : World → ℕ → Attempt → Replanner → Replanner × Move
unfolding recover execute_step
attempt_step w n a r = recover w n a (w.during_call n r) (execute_step w n a.step)

pub record Ended : Type 0 where
  pub result : StepResult
  pub replanner : Replanner
  pub calls : ℕ

-- `fuel` is the number of calls that may still be made; `n` of them have been.
unfoldable pub execute_step_with_retry : World → ℕ → ℕ → Attempt → Replanner → Option Ended
unfolding attempt_step
execute_step_with_retry w zero n a r = none
execute_step_with_retry w (suc fuel) n a r =
    let (r', move) = attempt_step w n a r in
    elim move [
      | stops result ↦ some (record { result = result; replanner = r'; calls = suc n })
      | again a' ↦ execute_step_with_retry w fuel (suc n) a' r'
    ]

abbrev pub first_attempt : Step → Attempt
first_attempt step = record { step = step; attempt_count = 0; alternative_attempt_count = 0 }

-- The run of a plan. `completed_steps` of the source holds the keys of `outputs`; a message that is no
-- tool's is left out.
pub record Run : Type 0 where
  pub replanner : Replanner
  pub calls : ℕ
  pub outputs : JsMap (Option ToolMessage)
  pub messages : List ToolMessage
  pub errors : JsMap JsError

abbrev with_message : Option ToolMessage → List ToolMessage → List ToolMessage
with_message none ms = ms
with_message (some m) ms = ms ++ m ∷ []

abbrev pub complete : String → Option ToolMessage → Ended → Run → Run
complete id message ended run = record run {
  replanner = mark_step_success id ended.replanner;
  calls = ended.calls;
  outputs = JsMap.set id message run.outputs;
  messages = with_message message run.messages;
}

abbrev pub give_up : String → JsError → Ended → Run → Run
give_up id e ended run = record run {
  replanner = ended.replanner;
  calls = ended.calls;
  errors = JsMap.set id e run.errors;
}

-- `break` on the first step that is given up.
unfoldable pub run_steps : World → ℕ → List Step → Run → Option Run
unfolding execute_step_with_retry
run_steps w fuel [] run = some run
run_steps w fuel (step ∷ steps) run =
    elim (execute_step_with_retry w fuel run.calls (first_attempt step) run.replanner) [
      | none ↦ none
      | some ended ↦ elim ended.result [
        | succeeded message ↦ run_steps w fuel steps (complete step.id message ended run)
        | aborted e ↦ some (give_up step.id e ended run)
      ]
    ]

-- "Reset replanner state for new execution."
abbrev pub start : ℕ → Replanner → Run
start now r = record {
  replanner = Replanner.reset now r;
  calls = 0;
  outputs = [];
  messages = [];
  errors = [];
}

unfoldable pub execute : World → ℕ → ℕ → List Step → Replanner → Option Run
unfolding run_steps
execute w fuel now steps r = run_steps w fuel steps (start now r)

abbrev pub success : Run → Bool
success run = elim run.errors [ [] ↦ true | _ ∷ _ ↦ false ]
