-- ===== src/Tests/Recovery.antt =====
-- The replanner and the executor on concrete inputs.
use moon_bot.Prelude.{arith, ◌≤◌, ◌≡◌, refl, true, none, some, [], ◌∷◌}
use moon_bot.JsMap
use moon_bot.Replanner.{Replanner, Readings, Runtime, plan_for}
use moon_bot.Replanner.Types
use moon_bot.Replanner.Types.{
  Step, ToolFailure, RecoveryAction, request_approval, use_alternative, action_eq, ErrorCode,
}
use moon_bot.Replanner.Analyzer
use moon_bot.Replanner.Analyzer.{includes, classify_failure}
use moon_bot.Replanner.Limiter
use moon_bot.Replanner.Limiter.{default_config}
use moon_bot.Replanner.Selector
use moon_bot.Replanner.Choice.{Chosen, alternative_choice}
use moon_bot.Executor.{World, not_ok, Run, first_attempt, execute, error, failure_of}
use moon_bot.Executor.Budget.{IsUndisturbed}
use moon_bot.Executor.Plan.{Finished, execute_ends}

abbrev fetch : Step
fetch = record {
  id = "s1";
  description = "fetch";
  tool_id = some "browser.goto";
  input = none;
  depends_on = none;
}

abbrev runtime : Runtime
runtime = record { lower = λ s. s; digits = λ n. "1" }

abbrev clock : Readings
clock = record {
  at_start = 1;
  at_check = 1;
  at_retry = 1;
  at_alternative = 1;
  at_end = 2;
  at_record = 2;
}

-- Every call fails for want of a network.
abbrev offline : World
offline = record {
  during_call = λ n r. r;
  during_replan = λ n r. r;
  answer = λ n step. not_ok (some "network");
  readings = λ n. clock;
  runtime = runtime;
  has_tool = λ id. true;
}

abbrev fresh : Replanner
fresh = record {
  selector = Selector.new ("browser.goto" ∷ "http.request" ∷ []) [];
  limiter = Limiter.new default_config 0;
}

undisturbed : IsUndisturbed "s1" offline
undisturbed n = (
  (λ r. (refl, (λ tool. omega arith), omega arith)),
  (λ r. (refl, (λ tool. omega arith), omega arith)),
)

execute_ends_example :
    (run : Run) × (execute offline 12 0 (fetch ∷ []) fresh ≡ some run)
    × (run.calls ≤ 12)
    × Finished (fetch ∷ []) run
execute_ends_example = execute_ends offline 0 (fetch ∷ []) fresh (undisturbed, tt)

abbrev missing : ToolFailure
missing = record (failure_of (first_attempt fetch) (error "gone") 1) {
  result = some (record { code = "TOOL_NOT_FOUND"; message = "" });
}

chosen : (plan_for runtime missing clock fresh).action ≡ use_alternative
unfolding plan_for Limiter.can_recover Analyzer.is_recoverable Analyzer.classify_failure
    Analyzer.classify_result Analyzer.classify_by_error_code Analyzer.is_one_of
    Analyzer.includes_one_of Analyzer.includes Limiter.can_use_alternative JsMap.get
    Selector.select_best Selector.spread
chosen = refl

alternative_choice_example : Chosen missing fresh (plan_for runtime missing clock fresh)
alternative_choice_example = alternative_choice runtime missing clock fresh chosen

abbrev slow : ToolFailure
slow = failure_of (first_attempt fetch) (error "timed out") 1

is_timeout : classify_failure (λ s. s) slow ≡ Types.timeout
unfolding classify_failure Analyzer.classify_result Analyzer.classify_error
    Analyzer.classify_by_error Analyzer.classify_lowered Analyzer.includes_one_of includes
is_timeout = refl
