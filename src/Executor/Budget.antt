-- ===== src/Executor/Budget.antt =====
-- Executor.executeStepWithRetry: the calls that the limits leave for a step.
use native.Mathlib.Nat.{suc-mul, mul-le-mul_right}
use moon_bot.Prelude.{
  ℕ, subst, sym, suc, ◌+◌, ◌-◌, ◌*◌, ◌<◌, ◌≤◌, ◌∙◌, String, ◌≡◌, refl, Bool, true, ◌&&◌, Option,
  none, some, [], ◌∷◌, ◌++◌, arith, eq_refl, inl, inr, Bool-cases, filter, filter-append,
  length-append, if◌then◌else◌,
}
use moon_bot.JsMap.Laws.{get-set}
use moon_bot.Replanner.{
  Replanner, Readings, Runtime, plan_for, select_recovery_action, execute_recovery_action,
  alternative_plan,
}
use moon_bot.Replanner.Types.{
  RecoveryLimitsConfig, ToolFailure, FailureType, AlternativeTool, RecoveryAction, RecoveryAttempt,
  retry, use_alternative, request_approval, abort,
}
use moon_bot.Replanner.Analyzer.{classify_failure, is_recoverable, get_recommended_action}
use moon_bot.Replanner.Limiter.{
  RecoveryLimiter, can_recover, can_retry, can_use_alternative, get_attempts, retry_count,
  alternative_count, record_attempt, is_retry_of, is_alternative,
}
use moon_bot.Executor.{World}

get_attempts-record_attempt :
    (id : String) (a : RecoveryAttempt) (l : RecoveryLimiter)
    → get_attempts id (record_attempt id a l) ≡ get_attempts id l ++ a ∷ []
unfolding get_attempts record_attempt
get_attempts-record_attempt id a l = rw (get-set id id _ l.attempts, eq_refl id) refl

retry_count-record_attempt :
    (id tool : String) (a : RecoveryAttempt) (l : RecoveryLimiter)
    → retry_count id tool (record_attempt id a l)
      ≡ (if is_retry_of tool a then retry_count id tool l + 1 else retry_count id tool l)
unfolding retry_count
retry_count-record_attempt id tool a l =
    rw
      (
        get_attempts-record_attempt id a l,
        filter-append (is_retry_of tool) (get_attempts id l) (a ∷ []),
        length-append (filter (is_retry_of tool) (get_attempts id l))
            (filter (is_retry_of tool) (a ∷ [])),
      )
      (ground arith)

alternative_count-record_attempt :
    (id : String) (a : RecoveryAttempt) (l : RecoveryLimiter)
    → alternative_count id (record_attempt id a l)
      ≡ (if is_alternative a then alternative_count id l + 1 else alternative_count id l)
unfolding alternative_count
alternative_count-record_attempt id a l =
    rw
      (
        get_attempts-record_attempt id a l,
        filter-append is_alternative (get_attempts id l) (a ∷ []),
        length-append (filter is_alternative (get_attempts id l)) (filter is_alternative (a ∷ [])),
      )
      (ground arith)

-- What a plan's action says of the limits.
abbrev pub Permitted : ToolFailure → RecoveryLimiter → RecoveryAction → Type 0
Permitted f l retry = retry_count f.step.id f.tool_id l < l.config.max_retries
Permitted f l use_alternative = alternative_count f.step.id l < l.config.max_alternatives
Permitted f l request_approval = Unit
Permitted f l abort = Unit

module _ (f : ToolFailure) (type : FailureType) (readings : Readings) (l : RecoveryLimiter) where
  retries : Bool
  retries = (get_recommended_action type).can_retry && can_retry f readings.at_retry l

  alternates : Bool
  alternates =
      (get_recommended_action type).can_use_alternative
      && can_use_alternative f readings.at_alternative l

  retries-Permitted : retries ≡ true → Permitted f l retry
  unfolding retries can_retry
  retries-Permitted h = ground (arith, h)

  alternates-Permitted : alternates ≡ true → Permitted f l use_alternative
  unfolding alternates can_use_alternative
  alternates-Permitted h = ground (arith, h)

  selected-Permitted : Permitted f l (select_recovery_action f type readings l)
  unfolding select_recovery_action
  selected-Permitted = elim (Bool-cases (get_recommended_action type).needs_approval) [
    | inl needs ↦ rw needs tt
    | inr h ↦ rw h (elim (Bool-cases retries) [
      | inl may ↦ unfold retries in rw may (retries-Permitted may)
      | inr never ↦
          unfold retries in
          rw never (elim (Bool-cases alternates) [
            | inl may ↦ unfold alternates in rw may (alternates-Permitted may)
            | inr none_left ↦ unfold alternates in rw none_left tt
          ])
    ])
  ]

alternative-Permitted :
    (runtime : Runtime) (f : ToolFailure) (l : RecoveryLimiter) (o : Option AlternativeTool)
    → Permitted f l use_alternative
    → Permitted f l (alternative_plan runtime f o).action
alternative-Permitted runtime f l none h = tt
alternative-Permitted runtime f l (some a) h = h

executed-Permitted :
    (runtime : Runtime) (action : RecoveryAction) (f : ToolFailure) (r : Replanner)
    → Permitted f r.limiter action
    → Permitted f r.limiter (execute_recovery_action runtime action f r).action
unfolding execute_recovery_action
executed-Permitted runtime retry f r h = h
executed-Permitted runtime use_alternative f r h = alternative-Permitted runtime f r.limiter _ h
executed-Permitted runtime request_approval f r h = tt
executed-Permitted runtime abort f r h = tt

pub plan_for-Permitted :
    (runtime : Runtime) (f : ToolFailure) (readings : Readings) (r : Replanner)
    → Permitted f r.limiter (plan_for runtime f readings r).action
unfolding plan_for
plan_for-Permitted runtime f readings r =
    elim (Bool-cases (can_recover readings.at_check r.limiter)) [
      | inl timely ↦
          rw timely (elim (Bool-cases (is_recoverable (classify_failure runtime.lower f))) [
            | inl may ↦ rw may (
                executed-Permitted runtime _ f r
                  (selected-Permitted f (classify_failure runtime.lower f) readings r.limiter))
            | inr never ↦ rw never tt
          ])
      | inr late ↦ rw late tt
    ]

-- The calls that the limits leave for a step and a tool.
abbrev pub budget : String → String → RecoveryLimiter → ℕ
budget id tool l =
    (l.config.max_alternatives - alternative_count id l) * suc l.config.max_retries
    + (l.config.max_retries - retry_count id tool l)

-- Limits as they were, and no count of the step lowered.
abbrev pub Keeps : String → (Replanner → Replanner) → Type 0
Keeps id f =
    (r : Replanner)
    → ((f r).limiter.config ≡ r.limiter.config)
      × ((tool : String) → retry_count id tool r.limiter ≤ retry_count id tool (f r).limiter)
      × (alternative_count id r.limiter ≤ alternative_count id (f r).limiter)

-- The other runs, which share the replanner, change no limits and lower no count of the step, as one
-- that begins or that completes a step of the same id may.
abbrev pub IsUndisturbed : String → World → Type 0
IsUndisturbed id w = (n : ℕ) → Keeps id (w.during_call n) × Keeps id (w.during_replan n)

budget-le :
    (most retries used more x y : ℕ)
    → used ≤ more
    → x ≤ y
    → (most - more) * suc retries + (retries - y) ≤ (most - used) * suc retries + (retries - x)
budget-le most retries used more x y h k =
    let e = mul-le-mul_right {m = most - more} {n = most - used} (suc retries) (omega (arith, h)) in
    omega (arith, e, k)

pub kept-budget :
    (id tool : String) (f : Replanner → Replanner) (r : Replanner)
    → Keeps id f
    → budget id tool (f r).limiter ≤ budget id tool r.limiter
unfolding alternative_count retry_count
kept-budget id tool f r keeps =
    let (same, retried, alternated) = keeps r in
    rw same (
      budget-le r.limiter.config.max_alternatives r.limiter.config.max_retries _ _ _ _ alternated
        (retried tool))

spend_alternative :
    (most retries used x y : ℕ)
    → used < most
    → (most - (used + 1)) * suc retries + (retries - x)
      < (most - used) * suc retries + (retries - y)
spend_alternative most retries used x y h =
    let e : most - used ≡ suc (most - (used + 1)) = omega (arith, h) in
    rw (e, suc-mul (most - (used + 1)) (suc retries)) (omega arith)

-- What is left of a limiter when an attempt is recorded in one with counts as large.
module _ (id tool : String) (a : RecoveryAttempt) (l more : RecoveryLimiter)
    (same : more.config ≡ l.config)
    (retried : (other : String) → retry_count id other l ≤ retry_count id other more)
    (alternated : alternative_count id l ≤ alternative_count id more) where
  at_limits :
      (x y : ℕ)
      → (l.config.max_alternatives - x) * suc l.config.max_retries + (l.config.max_retries - y)
        < budget id tool l
      → (more.config.max_alternatives - x) * suc more.config.max_retries
          + (more.config.max_retries - y)
        < budget id tool l
  at_limits x y =
      subst
        (λ (c : RecoveryLimitsConfig).
          (l.config.max_alternatives - x) * suc l.config.max_retries + (l.config.max_retries - y)
            < budget id tool l
          → (c.max_alternatives - x) * suc c.max_retries + (c.max_retries - y) < budget id tool l)
        (sym same) (λ lt. lt)

  pub retried-spends :
      a.action ≡ retry
      → a.original_tool_id ≡ tool
      → retry_count id tool l < l.config.max_retries
      → budget id tool (record_attempt id a more) < budget id tool l
  unfolding record_attempt
  retried-spends h t lt =
      let left =
        budget-le l.config.max_alternatives l.config.max_retries (alternative_count id l)
          (alternative_count id more) (retry_count id tool l + 1) (retry_count id tool more + 1)
          alternated (omega (arith, retried tool)) in
      rw
        (
          alternative_count-record_attempt id a more,
          retry_count-record_attempt id tool a more,
          h,
          t,
          eq_refl tool,
        )
        (at_limits (alternative_count id more) (retry_count id tool more + 1)
          (omega (arith, lt, left)))

  pub alternated-spends :
      (other : String)
      → a.action ≡ use_alternative
      → alternative_count id l < l.config.max_alternatives
      → budget id other (record_attempt id a more) < budget id tool l
  unfolding record_attempt
  alternated-spends other h lt =
      let x = retry_count id other (record_attempt id a more) in
      let left =
        budget-le l.config.max_alternatives l.config.max_retries (alternative_count id l + 1)
          (alternative_count id more + 1) x x (omega (arith, alternated)) (omega arith) in
      let spent =
        spend_alternative l.config.max_alternatives l.config.max_retries (alternative_count id l) x
          (retry_count id tool l) lt in
      let counted : alternative_count id (record_attempt id a more)
          ≡ alternative_count id more + 1 =
        alternative_count-record_attempt id a more ∙ rw h refl in
      rw counted (at_limits (alternative_count id more + 1) x (omega (arith, left, spent)))
