-- ===== src/Executor/Recovery.antt =====
-- Executor.executeStepWithRetry: its end, and the number of calls.
use native.Mathlib.Nat.{suc-mul, mul-le-mul_right}
use moon_bot.Prelude.{
  ℕ, suc, zero, ◌+◌, ◌-◌, ◌*◌, ◌≤◌, ◌<◌, String, ◌≡◌, refl, Option, none, some, arith, subst, sym,
}
use moon_bot.Replanner.{Replanner}
use moon_bot.Replanner.Types.{RecoveryLimitsConfig}
use moon_bot.Replanner.Limiter.{RecoveryLimiter, alternative_count}
use moon_bot.Executor.{
  World, Attempt, Move, stops, again, Ended, or_empty, attempt_step, execute_step_with_retry,
}
use moon_bot.Executor.Budget.{budget, IsUndisturbed}
use moon_bot.Executor.Spending.{Spends, attempt_step-Spends}

budget-bound :
    (id tool : String) (l : RecoveryLimiter)
    → budget id tool l < suc l.config.max_alternatives * suc l.config.max_retries
budget-bound id tool l =
    let most = l.config.max_alternatives in
    let left = most - alternative_count id l in
    rw (suc-mul most (suc l.config.max_retries)) (
      omega
        (arith, mul-le-mul_right {m = left} {n = most} (suc l.config.max_retries) (omega arith)))

-- The run has ended, with no more than so many calls and with the limits it had.
abbrev pub Within : ℕ → RecoveryLimitsConfig → Option Ended → Type 0
Within most config none = ⊥
Within most config (some ended) = (ended.calls ≤ most) × (ended.replanner.limiter.config ≡ config)

moved-Within :
    (w : World) (fuel n : ℕ) (a : Attempt) (r : Replanner) (m : Replanner × Move)
    → ((a' : Attempt) (r' : Replanner)
        → IsUndisturbed a'.step.id w
        → budget a'.step.id (or_empty a'.step.tool_id) r'.limiter < fuel
        → Within (suc n + fuel) r'.limiter.config (execute_step_with_retry w fuel (suc n) a' r'))
    → IsUndisturbed a.step.id w
    → Spends a r m
    → budget a.step.id (or_empty a.step.tool_id) r.limiter < suc fuel
    → Within (n + suc fuel) r.limiter.config (elim m.1 [
      | stops result ↦ some (record { result = result; replanner = m.0; calls = suc n })
      | again a' ↦ execute_step_with_retry w fuel (suc n) a' m.0
    ])
moved-Within w fuel n a r (r', stops result) rest calm s h = (omega arith, s)
moved-Within w fuel n a r (r', again a') rest calm s h =
    let still = subst (λ id. IsUndisturbed id w) (sym s.0) calm in
    subst (λ k. Within k r.limiter.config (execute_step_with_retry w fuel (suc n) a' r'))
      (omega arith)
      (subst (λ c. Within (suc n + fuel) c (execute_step_with_retry w fuel (suc n) a' r')) s.1
        (rest a' r' still (omega (arith, s.2, h))))

retried-Within :
    (w : World) (fuel n : ℕ) (a : Attempt) (r : Replanner)
    → IsUndisturbed a.step.id w
    → budget a.step.id (or_empty a.step.tool_id) r.limiter < fuel
    → Within (n + fuel) r.limiter.config (execute_step_with_retry w fuel n a r)
unfolding execute_step_with_retry
retried-Within w zero n a r calm h = omega arith
retried-Within w (suc fuel) n a r calm h =
    moved-Within w fuel n a r (attempt_step w n a r) (retried-Within w fuel (suc n)) calm
      (attempt_step-Spends w n a r calm) h

abbrev pub enough : RecoveryLimitsConfig → ℕ
enough config = suc config.max_alternatives * suc config.max_retries

pub found :
    (most : ℕ) (config : RecoveryLimitsConfig) (o : Option Ended)
    → Within most config o
    → (ended : Ended) × (o ≡ some ended)
      × (ended.calls ≤ most)
      × (ended.replanner.limiter.config ≡ config)
found most config none h = absurd h
found most config (some ended) h = (ended, refl, h.0, h.1)

-- As long as no other run changes the limits or lowers the counts of the step, and whatever the tools
-- answer, what the clock shows and what has been attempted before, the run of a step ends within the
-- product of the two limits, each with one added, of calls, fuel of that number is enough, and the
-- limits stay as they are.
pub recovery_ends :
    (w : World) (n : ℕ) (a : Attempt) (r : Replanner)
    → IsUndisturbed a.step.id w
    → (ended : Ended) × (execute_step_with_retry w (enough r.limiter.config) n a r ≡ some ended)
      × (ended.calls ≤ n + enough r.limiter.config)
      × (ended.replanner.limiter.config ≡ r.limiter.config)
recovery_ends w n a r calm =
    found (n + enough r.limiter.config) r.limiter.config
      (execute_step_with_retry w (enough r.limiter.config) n a r)
      (retried-Within w (enough r.limiter.config) n a r calm
        (budget-bound a.step.id (or_empty a.step.tool_id) r.limiter))
