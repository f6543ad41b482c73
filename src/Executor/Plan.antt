-- ===== src/Executor/Plan.antt =====
-- Executor.execute: the run of a whole plan.
use native.Mathlib.Nat.{suc-mul}
use moon_bot.Prelude.{
  ℕ, ◌+◌, ◌*◌, ◌≤◌, String, ◌≡◌, refl, ap, ◌∙◌, subst, true, Option, some, List, [], ◌∷◌, ◌++◌,
  arith, ◌⊎◌, inl, inr, All, length, eq_refl,
}
use moon_bot.JsMap
use moon_bot.JsMap.Laws.{has-set}
use moon_bot.Replanner
use moon_bot.Replanner.{Replanner, mark_step_success}
use moon_bot.Replanner.Limiter
use moon_bot.Replanner.Types.{Step, JsError, RecoveryLimitsConfig}
use moon_bot.Executor.{
  World, StepResult, succeeded, aborted, Ended, Run, ToolMessage, execute_step_with_retry,
  first_attempt, complete, give_up, run_steps, execute, start, success,
}
use moon_bot.Executor.Budget.{IsUndisturbed}
use moon_bot.Executor.Recovery.{enough, recovery_ends}

abbrev pub HasOutput : Run → Step → Type 0
HasOutput run s = JsMap.has s.id run.outputs ≡ true

-- All steps of the plan have been run, or one has been given up, those before it have been run, and
-- none after it.
abbrev pub Finished : List Step → Run → Type 0
Finished steps run =
    ((success run ≡ true) × All (HasOutput run) steps)
    ⊎ ((done : List Step) × (s : Step) × (rest : List Step) × (e : JsError) × (steps
          ≡ done ++ s ∷ rest)
        × All (HasOutput run) done
        × (run.errors ≡ (s.id, e) ∷ []))

abbrev Keeps : Run → Run → Type 0
Keeps before after =
    (j : String) → JsMap.has j before.outputs ≡ true → JsMap.has j after.outputs ≡ true

abbrev Ends : World → RecoveryLimitsConfig → List Step → Run → Option Run → Type 0
Ends w config steps before o =
    (run : Run) × (o ≡ some run)
    × (run.calls ≤ before.calls + length steps * enough config)
    × Keeps before run
    × Finished steps run

prepend-Finished :
    (s : Step) (steps : List Step) (run : Run)
    → HasOutput run s
    → Finished steps run
    → Finished (s ∷ steps) run
prepend-Finished s steps run h (inl f) = inl (f.0, (h, f.1))
prepend-Finished s steps run h (inr (done, t, rest, e, split, all_done, one)) =
    inr (s ∷ done, t, rest, e, ap (λ xs. s ∷ xs) split, (h, all_done), one)

complete-has :
    (step : Step) (message : Option ToolMessage) (ended : Ended) (run : Run)
    → Keeps run (complete step.id message ended run)
      × HasOutput (complete step.id message ended run) step
complete-has step message ended run = (
  λ j h. has-set step.id j message run.outputs ∙ ground (arith, h),
  has-set step.id step.id message run.outputs ∙ rw (eq_refl step.id) refl,
)

settled-Ends :
    (w : World) (config : RecoveryLimitsConfig) (step : Step) (steps : List Step) (run : Run)
    (ended : Ended) (result : StepResult)
    → run.errors ≡ []
    → ended.calls ≤ run.calls + enough config
    → ((message : Option ToolMessage)
        → Ends w config steps
            (complete step.id message ended run)
            (run_steps w (enough config) steps (complete step.id message ended run)))
    → Ends w config (step ∷ steps) run (elim result [
      | succeeded message ↦ run_steps w (enough config) steps (complete step.id message ended run)
      | aborted e ↦ some (give_up step.id e ended run)
    ])
settled-Ends w config step steps run ended (succeeded message) none_yet few rest =
    let (last, same, calls, keeps, finished) = rest message in
    let has = complete-has step message ended run in
    (
      last,
      same,
      rw (suc-mul (length steps) (enough config)) (omega (arith, calls, few)),
      (λ j h. keeps j (has.0 j h)),
      prepend-Finished step steps last (keeps step.id has.1) finished,
    )
settled-Ends w config step steps run ended (aborted e) none_yet few rest = (
  give_up step.id e ended run,
  refl,
  rw (suc-mul (length steps) (enough config)) (omega (arith, few)),
  (λ j h. h),
  inr ([], step, steps, e, refl, tt, rw none_yet (unfold JsMap.set in refl)),
)

run_steps-Ends :
    (w : World) (config : RecoveryLimitsConfig) (steps : List Step) (run : Run)
    → All (λ s. IsUndisturbed s.id w) steps
    → run.errors ≡ []
    → run.replanner.limiter.config ≡ config
    → Ends w config steps run (run_steps w (enough config) steps run)
unfolding run_steps
run_steps-Ends w config [] run calm none_yet same =
    (run, refl, omega arith, (λ j h. h), inl (rw none_yet refl, tt))
run_steps-Ends w config (step ∷ steps) run calm none_yet same =
    let (ended, found, few, kept) =
      subst
        (λ c.
          (ended : Ended) × (execute_step_with_retry w (enough c) run.calls (first_attempt step)
              run.replanner
            ≡ some ended)
          × (ended.calls ≤ run.calls + enough c)
          × (ended.replanner.limiter.config ≡ c))
        same (recovery_ends w run.calls (first_attempt step) run.replanner calm.0) in
    rw (run_steps, found)
      (settled-Ends w config step steps run ended ended.result none_yet few λ message.
        run_steps-Ends w config steps (complete step.id message ended run) calm.1 none_yet
          (unfold mark_step_success Limiter.clear_attempts in kept))

-- As long as no other run that shares the replanner changes the limits or lowers the counts of the
-- plan's steps, as one that begins or that completes a step of the same id may, and whatever the
-- tools answer and the clock shows, the run of a plan ends, with at most the product of the two
-- limits, each with one added, of calls for each step: either it succeeds and every step has an
-- output, or the first step that is given up is its only error, and every step before it has an
-- output.
pub execute_ends :
    (w : World) (now : ℕ) (steps : List Step) (r : Replanner)
    → All (λ s. IsUndisturbed s.id w) steps
    → (run : Run) × (execute w (enough r.limiter.config) now steps r ≡ some run)
      × (run.calls ≤ length steps * enough r.limiter.config)
      × Finished steps run
unfolding execute
execute_ends w now steps r calm =
    let (run, same, calls, keeps, finished) =
      run_steps-Ends w r.limiter.config steps (start now r) calm refl
        (unfold Replanner.reset Limiter.reset in refl) in
    (run, same, omega (arith, calls), finished)
