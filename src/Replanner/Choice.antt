-- ===== src/Replanner/Choice.antt =====
-- Replanner.replan: which plans it makes.
use moon_bot.Prelude.{◌≡◌, refl, true, false, Option, none, some, arith, inl, inr, Bool-cases}
use moon_bot.Replanner.Types.{
  ToolFailure, FailureType, AlternativeTool, RecoveryAction, RecoveryPlan, retry, use_alternative,
  request_approval, abort, action_eq,
}
use moon_bot.Replanner.Analyzer.{classify_failure, is_recoverable, get_recommended_action}
use moon_bot.Replanner.Limiter.{RecoveryLimiter, can_recover}
use moon_bot.Replanner.Selector.{select_best}
use moon_bot.Replanner.{
  Replanner, Readings, Runtime, select_recovery_action, execute_recovery_action, alternative_plan,
  plan_for, attempted,
}
use moon_bot.Replanner.Selection.{IsChoice, select_best-IsChoice}

abbrev pub Chosen : ToolFailure → Replanner → RecoveryPlan → Type 0
Chosen f r plan =
    (a : AlternativeTool) × (plan.tool_id ≡ some a.tool_id)
    × IsChoice r.selector f.tool_id (attempted f.step.id r.limiter) a

module _ (runtime : Runtime) (f : ToolFailure) (readings : Readings) (r : Replanner) where
  alternative-Chosen :
      (o : Option AlternativeTool)
      → select_best f (attempted f.step.id r.limiter) r.selector ≡ o
      → (alternative_plan runtime f o).action ≡ use_alternative
      → Chosen f r (alternative_plan runtime f o)
  alternative-Chosen none e h = ground (arith, h)
  alternative-Chosen (some a) e h =
      (a, refl, select_best-IsChoice f (attempted f.step.id r.limiter) r.selector a e)

  executed-Chosen :
      (action : RecoveryAction)
      → (execute_recovery_action runtime action f r).action ≡ use_alternative
      → Chosen f r (execute_recovery_action runtime action f r)
  unfolding execute_recovery_action
  executed-Chosen retry h = ground (arith, h)
  executed-Chosen use_alternative h = alternative-Chosen _ refl h
  executed-Chosen request_approval h = ground (arith, h)
  executed-Chosen abort h = ground (arith, h)

  -- A plan to use an alternative names an available tool that is not among the alternatives
  -- recorded for the step, and no configured tool that is available and not among them has a
  -- smaller priority number.
  pub alternative_choice :
      (plan_for runtime f readings r).action ≡ use_alternative
      → Chosen f r (plan_for runtime f readings r)
  unfolding plan_for
  alternative_choice = elim (Bool-cases (can_recover readings.at_check r.limiter)) [
    | inl timely ↦
        rw timely (elim (Bool-cases (is_recoverable (classify_failure runtime.lower f))) [
          | inl may ↦ rw may (
              executed-Chosen
                (select_recovery_action f (classify_failure runtime.lower f) readings r.limiter))
          | inr never ↦ rw never (λ h. ground (arith, h))
        ])
    | inr late ↦ rw late (λ h. ground (arith, h))
  ]

no_approval :
    (type : FailureType)
    → is_recoverable type ≡ true
    → (get_recommended_action type).needs_approval ≡ false
unfolding is_recoverable get_recommended_action
no_approval type h = ground (arith, h)

selected-asks_not :
    (f : ToolFailure) (type : FailureType) (readings : Readings) (l : RecoveryLimiter)
    → is_recoverable type ≡ true
    → action_eq (select_recovery_action f type readings l) request_approval ≡ false
unfolding select_recovery_action
selected-asks_not f type readings l h = ground (arith, no_approval type h)

alternative-asks_not :
    (runtime : Runtime) (f : ToolFailure) (o : Option AlternativeTool)
    → action_eq (alternative_plan runtime f o).action request_approval ≡ false
alternative-asks_not runtime f none = refl
alternative-asks_not runtime f (some a) = refl

executed-asks_not :
    (runtime : Runtime) (action : RecoveryAction) (f : ToolFailure) (r : Replanner)
    → action_eq action request_approval ≡ false
    → action_eq (execute_recovery_action runtime action f r).action request_approval ≡ false
unfolding execute_recovery_action
executed-asks_not runtime retry f r h = refl
executed-asks_not runtime use_alternative f r h = alternative-asks_not runtime f _
executed-asks_not runtime request_approval f r h = h
executed-asks_not runtime abort f r h = refl

-- No plan asks for approval, whatever the failure.
pub approval_never_asked :
    (runtime : Runtime) (f : ToolFailure) (readings : Readings) (r : Replanner)
    → action_eq (plan_for runtime f readings r).action request_approval ≡ false
unfolding plan_for
approval_never_asked runtime f readings r =
    elim (Bool-cases (can_recover readings.at_check r.limiter)) [
      | inl timely ↦
          rw timely (elim (Bool-cases (is_recoverable (classify_failure runtime.lower f))) [
            | inl may ↦ rw may (
                executed-asks_not runtime _ f r
                  (selected-asks_not f (classify_failure runtime.lower f) readings r.limiter may))
            | inr never ↦ rw never refl
          ])
      | inr late ↦ rw late refl
    ]
