-- ===== src/Replanner.antt =====
-- Replanner (src/agents/replanner.ts) and the plans that PathReplanner makes for it
-- (src/agents/replanner/PathReplanner.ts). Nothing in `replan` throws, so its `catch` never runs.
pub mod Types
pub mod Analyzer
pub mod Limiter
pub mod Selector
pub mod Timeouts
pub mod Selection
pub mod Choice
use moon_bot.Prelude.{
  ℕ, ◌+◌, ◌-◌, String, Bool, true, false, not, ◌&&◌, concat, Option, none, some, List, [], ◌∷◌,
  filter, if◌then◌else◌,
}
use moon_bot.Replanner.Types.{
  Step, FailureType, RecoveryAction, retry, use_alternative, request_approval, abort, action_eq,
  ToolFailure, RecoveryPlan, AlternativeTool, RecoveryAttempt, RecoveryLimitsConfig,
}
use moon_bot.Replanner.Analyzer.{classify_failure, is_recoverable, get_recommended_action}
use moon_bot.Replanner.Limiter
use moon_bot.Replanner.Limiter.{
  RecoveryLimiter, can_recover, can_retry, can_use_alternative, get_attempts, record_attempt,
  is_alternative,
}
use moon_bot.Replanner.Selector
use moon_bot.Replanner.Selector.{AlternativeSelector, select_best}

pub record Replanner : Type 0 where
  pub selector : AlternativeSelector
  pub limiter : RecoveryLimiter

-- The readings of the clock in one call, in their order, and the runtime's functions on texts:
-- toLowerCase and the decimal digits of a number.
pub record Readings : Type 0 where
  pub at_start : ℕ
  pub at_check : ℕ
  pub at_retry : ℕ
  pub at_alternative : ℕ
  pub at_end : ℕ
  pub at_record : ℕ

pub record Runtime : Type 0 where
  pub lower : String → String
  pub digits : ℕ → String

abbrev pub plan_of : RecoveryAction → RecoveryPlan
plan_of action = record {
  action = action;
  tool_id = none;
  reason = none;
  message = none;
  new_steps = none;
}

abbrev pub create_abort_plan : String → RecoveryPlan
create_abort_plan reason = record (plan_of abort) { reason = some reason }

abbrev pub create_approval_plan : String → RecoveryPlan
create_approval_plan message = record (plan_of request_approval) { message = some message }

abbrev pub create_retry_plan : Runtime → ToolFailure → RecoveryPlan
create_retry_plan runtime f = record (plan_of retry) {
  tool_id = some f.tool_id;
  reason = some (
      concat "Retrying " (
        concat f.tool_id
          (concat " (attempt " (concat (runtime.digits (f.attempt_count + 1)) ")"))));
}

abbrev pub create_alternative_plan : Runtime → ToolFailure → String → RecoveryPlan
create_alternative_plan runtime f tool_id = record (plan_of use_alternative) {
  tool_id = some tool_id;
  reason = some (concat "Original tool " (concat f.tool_id " failed, using alternative"));
  new_steps = some (
      record f.step {
        id = concat f.step.id (concat "-alt-" (runtime.digits (f.alternative_attempt_count + 1)));
        description = concat f.step.description (concat " (alternative: " (concat tool_id ")"));
        tool_id = some tool_id;
      }
      ∷ []);
}

unfoldable pub select_recovery_action :
    ToolFailure → FailureType → Readings → RecoveryLimiter → RecoveryAction
unfolding get_recommended_action
select_recovery_action f type readings l =
    let r = get_recommended_action type in
    if r.needs_approval
    then request_approval
    else (if r.can_retry && can_retry f readings.at_retry l
        then retry
        else (if r.can_use_alternative && can_use_alternative f readings.at_alternative l
            then use_alternative
            else abort))

-- `.map((a) => a.alternativeToolId).filter((id) => id !== undefined)`.
unfoldable pub tool_ids : List RecoveryAttempt → List String
tool_ids [] = []
tool_ids (a ∷ rest) = elim a.alternative_tool_id [
  | none ↦ tool_ids rest
  | some id ↦ id ∷ tool_ids rest
]

abbrev pub attempted : String → RecoveryLimiter → List String
attempted step_id l = tool_ids (filter is_alternative (get_attempts step_id l))

abbrev pub alternative_plan : Runtime → ToolFailure → Option AlternativeTool → RecoveryPlan
alternative_plan runtime f none = create_abort_plan "No viable alternative tool found"
alternative_plan runtime f (some a) = create_alternative_plan runtime f a.tool_id

unfoldable pub execute_recovery_action :
    Runtime → RecoveryAction → ToolFailure → Replanner → RecoveryPlan
unfolding tool_ids
execute_recovery_action runtime retry f r = create_retry_plan runtime f
execute_recovery_action runtime use_alternative f r =
    alternative_plan runtime f (select_best f (attempted f.step.id r.limiter) r.selector)
execute_recovery_action runtime request_approval f r =
    create_approval_plan (concat "Tool " (concat f.tool_id " requires user approval"))
execute_recovery_action runtime abort f r = create_abort_plan "No recovery option available"

-- The value of a member of `FailureType`.
abbrev pub type_text : FailureType → String
type_text Types.network_failure = "NETWORK"
type_text Types.permission_denied = "PERMISSION"
type_text Types.invalid_input = "VALIDATION"
type_text Types.tool_not_found = "NOT_FOUND"
type_text Types.resource_exhausted = "RESOURCE"
type_text Types.timeout = "TIMEOUT"
type_text Types.unknown = "UNKNOWN"

-- The plan of `replan`.
unfoldable pub plan_for : Runtime → ToolFailure → Readings → Replanner → RecoveryPlan
unfolding select_recovery_action execute_recovery_action
plan_for runtime f readings r =
    let type = classify_failure runtime.lower f in
    if can_recover readings.at_check r.limiter
    then (if is_recoverable type
        then execute_recovery_action runtime (select_recovery_action f type readings r.limiter) f r
        else create_abort_plan
            (concat "Failure type " (concat (type_text type) " is not recoverable")))
    else create_abort_plan "Max recovery attempts exceeded or global timeout"

abbrev pub attempt_of : RecoveryPlan → ToolFailure → Readings → RecoveryAttempt
attempt_of plan f readings = record {
  original_tool_id = f.tool_id;
  action = plan.action;
  alternative_tool_id = plan.tool_id;
  timestamp = readings.at_record;
  success = not (action_eq plan.action abort);
  duration_ms = readings.at_end - readings.at_start;
}

-- Every plan is recorded; a plan to abort has no tool. `meanwhile` is what others do to the replanner
-- at the await between the plan and its record.
unfoldable pub replan :
    Runtime
    → ToolFailure
    → Readings
    → (Replanner → Replanner)
    → Replanner
    → Replanner × RecoveryPlan
unfolding plan_for
replan runtime f readings meanwhile r =
    let plan = plan_for runtime f readings r in
    let r' = meanwhile r in
    (record r' { limiter = record_attempt f.step.id (attempt_of plan f readings) r'.limiter }, plan)

unfoldable pub mark_step_success : String → Replanner → Replanner
mark_step_success step_id r = record r { limiter = Limiter.clear_attempts step_id r.limiter }

unfoldable pub reset : ℕ → Replanner → Replanner
reset now r = record r { limiter = Limiter.reset now r.limiter }
