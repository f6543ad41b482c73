-- ===== src/Executor/Spending.antt =====
-- Executor.executeStepWithRetry: what one call uses up.
use moon_bot.Prelude.{
  ℕ, ◌<◌, ◌≤◌, ◌∙◌, String, ◌≡◌, refl, Option, none, some, arith, inl, inr, Bool-cases, ◌==◌,
}
use moon_bot.Replanner.{Replanner, replan, plan_for, attempt_of}
use moon_bot.Replanner.Types.{
  JsError, RecoveryPlan, RecoveryAction, RecoveryAttempt, retry, use_alternative, request_approval,
  abort,
}
use moon_bot.Replanner.Limiter.{record_attempt}
use moon_bot.Executor.{
  World, StepOutcome, returned, threw, Attempt, Move, stops, again, or_empty, failure_of,
  with_alternative, follow, recover, execute_step, attempt_step,
}
use moon_bot.Executor.Budget.{
  budget, Keeps, IsUndisturbed, Permitted, kept-budget, retried-spends, alternated-spends,
  plan_for-Permitted,
}

-- The call goes on only with less than it had, for the same step and limits.
abbrev pub Spends : Attempt → Replanner → Replanner × Move → Type 0
Spends a r (r', stops result) = r'.limiter.config ≡ r.limiter.config
Spends a r (r', again a') =
    (a'.step.id ≡ a.step.id)
    × (r'.limiter.config ≡ r.limiter.config)
    × (budget a'.step.id (or_empty a'.step.tool_id) r'.limiter
        < budget a.step.id (or_empty a.step.tool_id) r.limiter)

module _ (plan : RecoveryPlan) (t : RecoveryAttempt) (a : Attempt) (e : JsError) (now : ℕ)
    (meanwhile : Replanner → Replanner) (keeps : Keeps a.step.id meanwhile) (r : Replanner) where
  recorded : Replanner
  recorded = record (meanwhile r) { limiter = record_attempt a.step.id t (meanwhile r).limiter }

  config-recorded : recorded.limiter.config ≡ r.limiter.config
  unfolding recorded record_attempt
  config-recorded = (keeps r).0

  alternative-Spends :
      (o : Option String)
      → t.action ≡ use_alternative
      → Permitted (failure_of a e now) r.limiter use_alternative
      → Spends a r (recorded, with_alternative a e o)
  alternative-Spends none ht p = config-recorded
  alternative-Spends (some id) ht p = elim (Bool-cases (id == "")) [
    | inl empty ↦ rw empty config-recorded
    | inr named ↦
        let (same, retried, alternated) = keeps r in
        rw named (
          refl,
          config-recorded,
          (unfold recorded in
              alternated-spends a.step.id (or_empty a.step.tool_id) t r.limiter
                (meanwhile r).limiter same retried alternated id ht p),
        )
  ]

  follow-Spends :
      (action : RecoveryAction)
      → plan.action ≡ action
      → t.action ≡ action
      → t.original_tool_id ≡ or_empty a.step.tool_id
      → Permitted (failure_of a e now) r.limiter action
      → Spends a r (recorded, follow plan a e)
  unfolding follow recorded
  follow-Spends retry h ht ho p =
      let (same, retried, alternated) = keeps r in
      rw h (
        refl,
        config-recorded,
        (unfold recorded in
            retried-spends a.step.id (or_empty a.step.tool_id) t r.limiter (meanwhile r).limiter
              same retried alternated ht ho p),
      )
  follow-Spends use_alternative h ht ho p = rw h (alternative-Spends plan.tool_id ht p)
  follow-Spends request_approval h ht ho p = rw h config-recorded
  follow-Spends abort h ht ho p = rw h config-recorded

recover-Spends :
    (w : World) (n : ℕ) (a : Attempt) (r : Replanner) (o : StepOutcome)
    → IsUndisturbed a.step.id w
    → Spends a r (recover w n a r o)
unfolding recover replan
recover-Spends w n a r (returned message) calm = refl
recover-Spends w n a r (threw e) calm =
    let readings = w.readings n in
    let f = failure_of a e readings.at_start in
    let plan = plan_for w.runtime f readings r in
    unfold recorded in
    follow-Spends plan (attempt_of plan f readings) a e readings.at_start (w.during_replan n)
      (calm n).1 r plan.action refl refl refl (plan_for-Permitted w.runtime f readings r)

Spends-weaken :
    (a : Attempt) (before r : Replanner) (m : Replanner × Move)
    → r.limiter.config ≡ before.limiter.config
    → budget a.step.id (or_empty a.step.tool_id) r.limiter
      ≤ budget a.step.id (or_empty a.step.tool_id) before.limiter
    → Spends a r m
    → Spends a before m
Spends-weaken a before r (r', stops result) same le s = s ∙ same
Spends-weaken a before r (r', again a') same le s = (s.0, s.1 ∙ same, omega (arith, le, s.2))

pub attempt_step-Spends :
    (w : World) (n : ℕ) (a : Attempt) (r : Replanner)
    → IsUndisturbed a.step.id w
    → Spends a r (attempt_step w n a r)
unfolding attempt_step
attempt_step-Spends w n a r calm =
    let keeps = (calm n).0 in
    Spends-weaken a r (w.during_call n r)
      (recover w n a (w.during_call n r) (execute_step w n a.step)) (keeps r).0
      (kept-budget a.step.id (or_empty a.step.tool_id) (w.during_call n) r keeps)
      (recover-Spends w n a (w.during_call n r) (execute_step w n a.step) calm)
