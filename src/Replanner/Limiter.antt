-- ===== src/Replanner/Limiter.antt =====
-- RecoveryLimiter (src/agents/replanner/RecoveryLimiter.ts): the attempts of each step. Clock readings
-- are arguments; the id of an attempt is written to the log only and left out.
use moon_bot.Prelude.{
  ℕ, ◌+◌, ◌-◌, String, Bool, true, false, ◌&&◌, Option, none, some, List, [], ◌∷◌, ◌++◌, ltb,
  filter, length, ◌==◌, if◌then◌else◌,
}
use moon_bot.JsMap
use moon_bot.JsMap.{JsMap}
use moon_bot.Replanner.Types.{
  RecoveryAction, retry, use_alternative, action_eq, RecoveryAttempt, RecoveryLimitsConfig,
  ToolFailure,
}

pub record RecoveryLimiter : Type 0 where
  pub config : RecoveryLimitsConfig
  pub attempts : JsMap (List RecoveryAttempt)
  pub global_start_time : ℕ

abbrev pub default_config : RecoveryLimitsConfig
default_config = record {
  max_retries = 3;
  max_alternatives = 2;
  global_timeout = 600000;
  auto_retry = true;
}

abbrev pub new : RecoveryLimitsConfig → ℕ → RecoveryLimiter
new config now = record { config = config; attempts = []; global_start_time = now }

-- `elapsed > globalTimeout`, with the subtraction moved to the other side.
unfoldable pub can_recover : ℕ → RecoveryLimiter → Bool
can_recover now l =
    if ltb (l.global_start_time + l.config.global_timeout) now then false else l.config.auto_retry

abbrev pub or_nil : Option (List RecoveryAttempt) → List RecoveryAttempt
or_nil none = []
or_nil (some attempts) = attempts

unfoldable pub get_attempts : String → RecoveryLimiter → List RecoveryAttempt
get_attempts step_id l = or_nil (JsMap.get step_id l.attempts)

abbrev pub is_retry_of : String → RecoveryAttempt → Bool
is_retry_of tool_id a = action_eq a.action retry && a.original_tool_id == tool_id

abbrev pub is_alternative : RecoveryAttempt → Bool
is_alternative a = action_eq a.action use_alternative

unfoldable pub retry_count : String → String → RecoveryLimiter → ℕ
unfolding get_attempts
retry_count step_id tool_id l = length (filter (is_retry_of tool_id) (get_attempts step_id l))

unfoldable pub alternative_count : String → RecoveryLimiter → ℕ
unfolding get_attempts
alternative_count step_id l = length (filter is_alternative (get_attempts step_id l))

unfoldable pub can_retry : ToolFailure → ℕ → RecoveryLimiter → Bool
unfolding can_recover retry_count
can_retry f now l =
    can_recover now l && ltb (retry_count f.step.id f.tool_id l) l.config.max_retries

unfoldable pub can_use_alternative : ToolFailure → ℕ → RecoveryLimiter → Bool
unfolding can_recover alternative_count
can_use_alternative f now l =
    can_recover now l && ltb (alternative_count f.step.id l) l.config.max_alternatives

unfoldable pub record_attempt : String → RecoveryAttempt → RecoveryLimiter → RecoveryLimiter
unfolding get_attempts
record_attempt step_id a l = record l {
  attempts = JsMap.set step_id (get_attempts step_id l ++ a ∷ []) l.attempts;
}

unfoldable pub clear_attempts : String → RecoveryLimiter → RecoveryLimiter
clear_attempts step_id l = record l { attempts = JsMap.delete step_id l.attempts }

unfoldable pub reset : ℕ → RecoveryLimiter → RecoveryLimiter
reset now l = record l { attempts = []; global_start_time = now }

-- `Math.max(0, globalTimeout - elapsed)`: the subtraction stops at 0.
unfoldable pub get_remaining_time : ℕ → RecoveryLimiter → ℕ
get_remaining_time now l = l.config.global_timeout - (now - l.global_start_time)

abbrev pub update_config : RecoveryLimitsConfig → RecoveryLimiter → RecoveryLimiter
update_config config l = record l { config = config }

pub record Stats : Type 0 where
  pub total_attempts : ℕ
  pub successful_recoveries : ℕ
  pub failed_recoveries : ℕ
  pub by_action : RecoveryAction → ℕ

abbrev bump : RecoveryAction → (RecoveryAction → ℕ) → RecoveryAction → ℕ
bump a counts b = if action_eq a b then counts b + 1 else counts b

abbrev count : RecoveryAttempt → Stats → Stats
count a s = record {
  total_attempts = s.total_attempts + 1;
  successful_recoveries =
      if a.success then s.successful_recoveries + 1 else s.successful_recoveries;
  failed_recoveries = if a.success then s.failed_recoveries else s.failed_recoveries + 1;
  by_action = bump a.action s.by_action;
}

unfoldable pub count_all : List RecoveryAttempt → Stats → Stats
count_all [] s = s
count_all (a ∷ rest) s = count_all rest (count a s)

unfoldable pub count_steps : List (List RecoveryAttempt) → Stats → Stats
unfolding count_all
count_steps [] s = s
count_steps (attempts ∷ rest) s = count_steps rest (count_all attempts s)

unfoldable pub get_stats : RecoveryLimiter → Stats
unfolding count_steps
get_stats l = count_steps (JsMap.values l.attempts) (record {
  total_attempts = 0;
  successful_recoveries = 0;
  failed_recoveries = 0;
  by_action = λ _. 0;
})
