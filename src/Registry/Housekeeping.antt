-- ===== src/Registry/Housekeeping.antt =====
-- TaskRegistry.cleanup and TaskRegistry.getStats.
use moon_bot.Prelude.{
  ℕ, ◌+◌, ◌≤◌, ◌<◌, String, ◌≡◌, Bool, true, false, not, ◌⊎◌, Option, none, some, List, [], ◌∷◌,
  arith, length,
}
use moon_bot.JsMap.{JsMap, IsMap, retain, values}
use moon_bot.JsMap.Laws.{get-retain, kept, length-values}
use moon_bot.Task.{TaskState, pending, running, paused, done, failed, aborted, is_terminal, Task}
use moon_bot.Registry.{Registry, cleanup, is_stale, get_stats, count_states, bump}
use moon_bot.Registry

abbrev sweep : ℕ → ℕ → Option Task → Option Task
sweep older_than now o = kept (λ _ t. not (is_stale older_than now t)) "" o

length-retain-le :
    {V : Type 0} (keep : String → V → Bool) (m : JsMap V) → length (retain keep m) ≤ length m
unfolding retain
length-retain-le keep [] = omega arith
length-retain-le keep ((k, v) ∷ m) = ground (arith, length-retain-le keep m)

-- With unique keys, a task is gone after cleanup if it is finished and its last change lies before
-- the cutoff, and is found as it was otherwise; the result is the number of tasks removed.
pub cleanup_exact :
    (older_than now : ℕ) (r : Registry) (id : String) (t : Task)
    → IsMap r.tasks
    → Registry.get id r ≡ some t
    → ((is_terminal t.state ≡ true) × (t.updated_at + older_than < now)
        → Registry.get id (cleanup older_than now r).0 ≡ none)
      × (((is_terminal t.state ≡ false) ⊎ (now ≤ t.updated_at + older_than))
          → Registry.get id (cleanup older_than now r).0 ≡ some t)
      × (length (cleanup older_than now r).0.tasks + (cleanup older_than now r).1 ≡ length r.tasks)
unfolding cleanup Registry.get
cleanup_exact older_than now r id t u h =
    let keep : String → Task → Bool = λ _ t. not (is_stale older_than now t) in
    (
      λ p. rw (get-retain keep id r.tasks u, h) (ground (arith, p)),
      λ p. rw (get-retain keep id r.tasks u, h) (ground (arith, p)),
      omega (arith, length-retain-le keep r.tasks),
    )

abbrev pub sum_states : (TaskState → ℕ) → ℕ
sum_states f = f pending + f running + f paused + f done + f failed + f aborted

sum_states-bump : (s : TaskState) (f : TaskState → ℕ) → sum_states (bump s f) ≡ sum_states f + 1
sum_states-bump pending f = omega arith
sum_states-bump running f = omega arith
sum_states-bump paused f = omega arith
sum_states-bump done f = omega arith
sum_states-bump failed f = omega arith
sum_states-bump aborted f = omega arith

count_states_total :
    (ts : List Task) (f : TaskState → ℕ) → sum_states (count_states ts f) ≡ length ts + sum_states f
unfolding count_states
count_states_total [] f = omega arith
count_states_total (t ∷ ts) f =
    omega (arith, count_states_total ts (bump t.state f), sum_states-bump t.state f)

-- The counts by state of getStats add up to its total.
pub get_stats_total : (r : Registry) → sum_states (get_stats r).by_state ≡ (get_stats r).total
unfolding get_stats
get_stats_total r =
    omega (arith, count_states_total (values r.tasks) (λ _. 0), length-values r.tasks)
