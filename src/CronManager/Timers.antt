-- ===== src/CronManager/Timers.antt =====
-- Which timers of the cron manager run.
use moon_bot.Prelude.{
  ℕ, ◌≡◌, ◌≢◌, refl, String, Bool, true, false, Option, none, some, List, [], ◌∷◌, arith, ap, sym,
  ◌∙◌, All, Any, All-append, eq_iff, Bool-cases, inl, inr, some-injective, if◌then◌else◌, subst,
}
use moon_bot.JsMap
use moon_bot.JsMap.{JsMap}
use moon_bot.JsMap.Laws.{get-set, get-set_self, get-delete, has-eq-get}
use moon_bot.CronManager
use moon_bot.CronManager.{
  CronManager, CronJob, Timer, is_timer, clear, put_timer, start, start_found, started,
  schedule_next_run, add, stop, stop_timer, remove, fire, daily, without,
}

-- The timer is the one that is kept under the id of its job.
abbrev pub Kept : JsMap ℕ → Timer → Type 0
Kept intervals t = JsMap.get t.job_id intervals ≡ some t.handle

abbrev pub IsKept : CronManager → Type 0
IsKept m = All (Kept m.intervals) m.timers

-- And no timer is of the job.
abbrev pub IsQuiet : String → CronManager → Type 0
IsQuiet id m = All (λ t. t.job_id ≢ id) m.timers

All-clear :
    {P Q : Timer → Type 0} (handle : ℕ) (ts : List Timer)
    → ((t : Timer) → P t → t.handle ≢ handle → Q t)
    → All P ts
    → All Q (clear handle ts)
unfolding clear
All-clear handle [] f h = tt
All-clear handle (t ∷ ts) f (p, h) = elim (Bool-cases (is_timer handle t)) [
  | inl same ↦ rw same (All-clear handle ts f h)
  | inr other ↦ rw other (f t p (λ e. ground arith), All-clear handle ts f h)
]

All-map : {P Q : Timer → Type 0} (ts : List Timer) → ((t : Timer) → P t → Q t) → All P ts → All Q ts
All-map [] f h = tt
All-map (t ∷ ts) f (p, h) = (f t p, All-map ts f h)

-- Without the timer of a job, none is of the job.
quiet-Kept :
    (id : String) (handle : ℕ) (intervals : JsMap ℕ)
    → JsMap.get id intervals ≡ some handle
    → (t : Timer) → Kept intervals t
    → t.handle ≢ handle
    → t.job_id ≢ id
quiet-Kept id handle intervals e t k other same =
    other (some-injective t.handle handle (sym k ∙ ap (λ i. JsMap.get i intervals) same ∙ e))

none-Kept :
    (id : String) (intervals : JsMap ℕ)
    → JsMap.get id intervals ≡ none
    → (t : Timer) → Kept intervals t
    → t.job_id ≢ id
none-Kept id intervals e t k same =
    let both = sym k ∙ ap (λ i. JsMap.get i intervals) same ∙ e in ground arith

Kept-set :
    (id : String) (handle : ℕ) (intervals : JsMap ℕ) (t : Timer)
    → Kept intervals t
    → t.job_id ≢ id
    → Kept (JsMap.set id handle intervals) t
Kept-set id handle intervals t k other =
    ground (arith, get-set id t.job_id handle intervals, eq_iff id t.job_id)

Kept-delete :
    (id : String) (intervals : JsMap ℕ) (t : Timer)
    → Kept intervals t
    → t.job_id ≢ id
    → Kept (JsMap.delete id intervals) t
Kept-delete id intervals t k other =
    ground (arith, get-delete id t.job_id intervals, eq_iff id t.job_id)

put_timer-IsKept :
    (u : Timer) (m : CronManager)
    → All (λ t. Kept m.intervals t × (t.job_id ≢ u.job_id)) m.timers
    → IsKept (put_timer u m)
put_timer-IsKept u m h =
    All-append (Kept _) m.timers (u ∷ [])
      (All-map m.timers (λ t (k, other). Kept-set u.job_id u.handle m.intervals t k other) h)
      (get-set_self u.job_id u.handle m.intervals, tt)

either-IsKept : (b : Bool) (m n : CronManager) → IsKept m → IsKept n → IsKept (if b then m else n)
either-IsKept true m n h k = h
either-IsKept false m n h k = k

fire-IsKept :
    (t : Timer) (handle : ℕ) (m : CronManager)
    → Kept m.intervals t
    → IsKept m
    → IsKept (fire t handle m)
unfolding fire
fire-IsKept t handle m k h =
    either-IsKept t.repeats m (put_timer (daily t handle) (without t m)) h (
      put_timer-IsKept (daily t handle) (without t m) (
        All-clear t.handle m.timers
          (λ u l other. (l, quiet-Kept t.job_id t.handle m.intervals k u l other)) h))

stopped :
    (id : String) (o : Option ℕ) (m : CronManager)
    → JsMap.get id m.intervals ≡ o
    → IsKept m
    → IsKept (stop_timer o id m) × IsQuiet id (stop_timer o id m)
stopped id none m e h = (h, All-map m.timers (none-Kept id m.intervals e) h)
stopped id (some handle) m e h = (
  All-clear handle m.timers
      (λ t k other. Kept-delete id m.intervals t k (quiet-Kept id handle m.intervals e t k other))
      h,
  All-clear handle m.timers (quiet-Kept id handle m.intervals e) h,
)

stop-IsKept : (id : String) (m : CronManager) → IsKept m → IsKept (stop id m)
unfolding stop
stop-IsKept id m h = (stopped id (JsMap.get id m.intervals) m refl h).0

stop-IsQuiet : (id : String) (m : CronManager) → IsKept m → IsQuiet id (stop id m)
unfolding stop
stop-IsQuiet id m h = (stopped id (JsMap.get id m.intervals) m refl h).1

remove-IsKept : (id : String) (m : CronManager) → IsKept m → IsKept (remove id m)
unfolding remove
remove-IsKept id m h = stop-IsKept id m h

remove-IsQuiet : (id : String) (m : CronManager) → IsKept m → IsQuiet id (remove id m)
unfolding remove
remove-IsQuiet id m h = stop-IsQuiet id m h

Any-Kept :
    (intervals : JsMap ℕ) (t : Timer) (ts : List Timer)
    → Any (λ u. u ≡ t) ts
    → All (Kept intervals) ts
    → Kept intervals t
Any-Kept intervals t [] there h = absurd there
Any-Kept intervals t (u ∷ us) (inl e) h = subst (Kept intervals) e h.0
Any-Kept intervals t (u ∷ us) (inr there) h = Any-Kept intervals t us there h.1

module _ (set_hours : ℕ → ℕ → ℕ → ℕ) (next_day : ℕ → ℕ) where
  start_found-IsKept :
      (o : Option CronJob) (id : String) (handle now : ℕ) (m n : CronManager)
      → IsKept m
      → start_found set_hours next_day o id handle now m ≡ some n
      → IsKept n
  start_found-IsKept none id handle now m n h e = ground arith
  start_found-IsKept (some job) id handle now m n h e =
      elim (Bool-cases (JsMap.has id m.intervals)) [
        | inl running ↦ subst IsKept (some-injective m n (rw running at e)) h
        | inr free ↦
            let nothing : JsMap.get id m.intervals ≡ none =
              ground (arith, has-eq-get id m.intervals) in
            subst IsKept (some-injective _ n (rw free at e)) (
              put_timer-IsKept _ m
                (All-map m.timers (λ t k. (k, none-Kept id m.intervals nothing t k)) h))
      ]

  start-IsKept :
      (id : String) (handle now : ℕ) (m n : CronManager)
      → IsKept m
      → start set_hours next_day id handle now m ≡ some n
      → IsKept n
  unfolding start
  start-IsKept id handle now m n h e =
      start_found-IsKept (JsMap.get id m.jobs) id handle now m n h e

  started-IsKept :
      (o : Option CronManager) (m : CronManager)
      → ((n : CronManager) → o ≡ some n → IsKept n)
      → IsKept m
      → IsKept (started set_hours next_day o m)
  started-IsKept none m f h = h
  started-IsKept (some n) m f h = f n refl

  add-IsKept :
      (job : CronJob) (handle now : ℕ) (m : CronManager)
      → IsKept m
      → IsKept (add set_hours next_day job handle now m)
  unfolding add
  add-IsKept job handle now m h =
      let with_job : CronManager = record m { jobs = JsMap.set job.id job m.jobs } in
      either-IsKept job.enabled _ with_job
        (started-IsKept (start set_hours next_day job.id handle now with_job) with_job
          (λ n e. start-IsKept job.id handle now with_job n h e) h)
        h

  pub data Step : CronManager → CronManager → Type 0 where
    adds :
        (job : CronJob) (handle now : ℕ) {m : CronManager}
        → Step m (add set_hours next_day job handle now m)
    starts :
        (id : String) (handle now : ℕ) {m : CronManager} (n : CronManager)
        → start set_hours next_day id handle now m ≡ some n
        → Step m n
    stops : (id : String) {m : CronManager} → Step m (stop id m)
    removes : (id : String) {m : CronManager} → Step m (remove id m)
    fires :
        (t : Timer) (handle : ℕ) {m : CronManager}
        → Any (λ u. u ≡ t) m.timers
        → Step m (fire t handle m)

  pub data Reach (m : CronManager) : CronManager → Type 0 where
    here : Reach m m
    next : {n o : CronManager} → Reach m n → Step n o → Reach m o

  Step-IsKept : {m n : CronManager} → Step m n → IsKept m → IsKept n
  Step-IsKept (adds job handle now {m}) h = add-IsKept job handle now m h
  Step-IsKept (starts id handle now {m} n e) h = start-IsKept id handle now m n h e
  Step-IsKept (stops id {m}) h = stop-IsKept id m h
  Step-IsKept (removes id {m}) h = remove-IsKept id m h
  Step-IsKept (fires t handle {m} live) h =
      fire-IsKept t handle m (Any-Kept m.intervals t m.timers live h) h

  Reach-IsKept : {m n : CronManager} → Reach m n → IsKept m → IsKept n
  Reach-IsKept here h = h
  Reach-IsKept (next before step) h = Step-IsKept step (Reach-IsKept before h)

  -- From a new manager, after any calls and timers, every timer that may still run is the one kept
  -- under the id of its job, and once a job is stopped or removed no timer of that id is left.
  pub silent :
      (first_agent : Option String) (m : CronManager) (id : String)
      → Reach (CronManager.new first_agent) m
      → IsKept m × IsQuiet id (stop id m) × IsQuiet id (remove id m)
  silent first_agent m id reach =
      let kept = Reach-IsKept reach tt in (kept, stop-IsQuiet id m kept, remove-IsQuiet id m kept)
