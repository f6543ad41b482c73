-- ===== src/Replanner/Types.antt =====
-- The types of recovery (src/agents/replanner/types.ts) and the step of a plan (src/types/index.ts).
use moon_bot.Prelude.{ℕ, String, Bool, true, false, Option, List}

pub record Step : Type 0 where
  pub id : String
  pub description : String
  pub tool_id : Option String
  pub input : Option String
  pub depends_on : Option (List String)

pub data FailureType : Type 0 where
  network_failure permission_denied invalid_input tool_not_found resource_exhausted timeout
        unknown :
      FailureType

pub data RecoveryAction : Type 0 where
  retry use_alternative request_approval abort : RecoveryAction

-- `===` on actions.
abbrev pub action_eq : RecoveryAction → RecoveryAction → Bool
action_eq retry retry = true
action_eq use_alternative use_alternative = true
action_eq request_approval request_approval = true
action_eq abort abort = true
action_eq _ _ = false

pub record ErrorCode : Type 0 where
  pub code : String
  pub message : String

pub record JsError : Type 0 where
  pub name : String
  pub message : String

-- `result` is the error of the tool's result, if it has one.
pub record ToolFailure : Type 0 where
  pub tool_id : String
  pub step : Step
  pub result : Option ErrorCode
  pub error : Option JsError
  pub attempt_count : ℕ
  pub alternative_attempt_count : ℕ
  pub timestamp : ℕ

pub record RecoveryPlan : Type 0 where
  pub action : RecoveryAction
  pub tool_id : Option String
  pub reason : Option String
  pub message : Option String
  pub new_steps : Option (List Step)

pub record AlternativeTool : Type 0 where
  pub tool_id : String
  pub priority : ℕ
  pub requires_approval : Option Bool

pub record RecoveryLimitsConfig : Type 0 where
  pub max_retries : ℕ
  pub max_alternatives : ℕ
  pub global_timeout : ℕ
  pub auto_retry : Bool

pub record RecoveryAttempt : Type 0 where
  pub original_tool_id : String
  pub action : RecoveryAction
  pub alternative_tool_id : Option String
  pub timestamp : ℕ
  pub success : Bool
  pub duration_ms : ℕ
